-- ===== src/Sessions/AckQueue/Answered.antt =====
-- `Ack` on a queue in order.
use xmqtt.Prelude.{ℕ, zero, suc, Bytes, Bool, true, false, none, some, List, [], ◌∷◌, ◌==◌}
use xmqtt.Prelude.{
  ◌≡◌, ◌≢◌, ◌⊎◌, refl, ap, sym, ◌∙◌, subst, arith, length, get_elem?, set, if◌then◌else◌,
}
use xmqtt.Prelude.{◌+◌, ◌<◌, inl, inr, done}
use xmqtt.Prelude.{length-set, get_elem?-set_ne, get_elem?-set_self}
use xmqtt.Message.{MessageLib, MessageType, puback, pubrec, pubrel, pubcomp, suback, unsuback}
use xmqtt.Sessions.AckQueue.{AckMsg, AckQueue, BytesPool, get_bytes}
use xmqtt.Sessions.AckQueue.Methods.{ack, ack_id, ack_at}
use xmqtt.Sessions.AckQueue.Order.{Holds, places_apart, get_elem?-lt}
use xmqtt.Sessions.AckQueue.Places.{Tracks, Distinct, spot, shift, place}
use native.Mathlib.Nat.{mod-lt}

-- The queue with another message at a place.
unfoldable pub replaced : ℕ → AckMsg → BytesPool → AckQueue → AckQueue
replaced j m rest q = record q { ring = set q.ring (place q j) (some m); pool = rest }

-- What stands in a list in which one element is replaced.
get_elem?-set_cases :
    {A : Type 0} (xs : List A) (i j : ℕ) (a x : A)
    → get_elem? (set xs i a) j ≡ some x
    → ((i ≡ j) × (a ≡ x)) ⊎ ((i ≢ j) × (get_elem? xs j ≡ some x))
get_elem?-set_cases [] i j a x e = ground arith
get_elem?-set_cases (y ∷ xs) zero zero a x e = inl (refl, ground arith)
get_elem?-set_cases (y ∷ xs) zero (suc j) a x e = inr (omega arith, e)
get_elem?-set_cases (y ∷ xs) (suc i) zero a x e = inr (omega arith, e)
get_elem?-set_cases (y ∷ xs) (suc i) (suc j) a x e = elim (get_elem?-set_cases xs i j a x e) [
  | inl h ↦ inl (ap suc h.0, h.1)
  | inr h ↦ inr (omega (arith, h.0), h.1)
]

pub replaced-Holds :
    (q : AckQueue) (ms : List AckMsg) (j : ℕ) (m : AckMsg) (rest : BytesPool)
    → Holds q ms
    → j < length ms
    → Holds (replaced j m rest q) (set ms j m)
unfolding replaced
replaced-Holds q ms j m rest w l = record {
  bits = w.bits;
  power = w.power;
  masked = w.masked;
  sized = length-set q.ring (place q j) (some m) ∙ w.sized;
  inside = w.inside;
  counted = length-set ms j m ∙ w.counted;
  fits = w.fits;
  ends = w.ends;
  stands = λ i n e. elim (get_elem?-set_cases ms j i m n e) [
    | inl h ↦
        subst (λ k. get_elem? (set q.ring (place q j) (some m)) (place q k) ≡ some (some n)) h.0
          (get_elem?-set_self q.ring (place q j) (some m) room ∙ ap (λ x. some (some x)) h.1)
    | inr h ↦
        get_elem?-set_ne q.ring (some m) (
          places_apart q.head j i q.size w.inside (omega (arith, l, w.counted, w.fits))
            (omega (arith, get_elem?-lt ms i n h.1, w.counted, w.fits)) h.0)
        ∙ w.stands i n h.1
  ];
}
  where
    room : place q j < length q.ring
    room = omega (arith, w.sized, mod-lt (q.head + j) {m = q.size} (omega (arith, w.inside)))

same_id : (x m n : AckMsg) → some x ≡ some m → n.pktid ≡ m.pktid → n.pktid ≡ x.pktid
same_id x m n e h = cc

-- A replacement with the same packet identifier moves nothing.
spot-set :
    (p : ℕ) (ms : List AckMsg) (j : ℕ) (m n : AckMsg)
    → get_elem? ms j ≡ some m
    → n.pktid ≡ m.pktid
    → spot p (set ms j n) ≡ spot p ms
unfolding spot
spot-set p [] j m n e h = refl
spot-set p (x ∷ ms) zero m n e h =
    ap (λ k. if p == k then some 0 else shift suc (spot p ms)) (same_id x m n e h)
spot-set p (x ∷ ms) (suc j) m n e h =
    ap (λ o. if p == x.pktid then some 0 else shift suc o) (spot-set p ms j m n e h)

Distinct-set :
    (ms : List AckMsg) (j : ℕ) (m n : AckMsg)
    → get_elem? ms j ≡ some m
    → n.pktid ≡ m.pktid
    → Distinct ms
    → Distinct (set ms j n)
Distinct-set [] j m n e h d = tt
Distinct-set (x ∷ ms) zero m n e h d = (ap (λ k. spot k ms) (same_id x m n e h) ∙ d.0, d.1)
Distinct-set (x ∷ ms) (suc j) m n e h d =
    (spot-set x.pktid ms j m n e h ∙ d.0, Distinct-set ms j m n e h d.1)

replaced-Tracks :
    (q : AckQueue) (ms : List AckMsg) (j : ℕ) (m n : AckMsg) (rest : BytesPool)
    → get_elem? ms j ≡ some m
    → n.pktid ≡ m.pktid
    → Tracks q ms
    → Tracks (replaced j n rest q) (set ms j n)
unfolding replaced
replaced-Tracks q ms j m n rest e h t = record {
  found = λ p. t.found p ∙ ap (shift (place q)) (sym (spot-set p ms j m n e h));
  distinct = Distinct-set ms j m n e h t.distinct;
}

abbrev pub is_ack : MessageType → Bool
is_ack puback = true
is_ack pubrec = true
is_ack pubrel = true
is_ack pubcomp = true
is_ack suback = true
is_ack unsuback = true
is_ack _ = false

module _ (lib : MessageLib) where
  open lib use {Message, mtype, packet_id, len, encode}

  -- The message that waits, with its answer.
  abbrev pub answered_by : Message → Bytes → AckMsg → AckMsg
  answered_by msg written m = record m { state = mtype msg; ackbuf = written }

  ack_at-replaced :
      (msg : Message) (q : AckQueue) (j : ℕ) (m : AckMsg) (buf written : Bytes) (rest : BytesPool)
      → get_elem? q.ring (place q j) ≡ some (some m)
      → get_bytes (len msg) q.pool ≡ done (buf, rest)
      → encode msg buf ≡ (written, true)
      → ack_at lib msg (place q j) q ≡ done (replaced j (answered_by msg written m) rest q, none)
  unfolding ack_at replaced
  ack_at-replaced msg q j m buf written rest there got good = ground (arith, there, got, good)

  ack-ack_id :
      (msg : Message) (q : AckQueue) → is_ack (mtype msg) ≡ true → ack lib msg q ≡ ack_id lib msg q
  unfolding ack
  ack-ack_id msg q e = ground arith

  -- `Ack` of a message that waits.
  pub ack-replaced :
      (msg : Message) (q : AckQueue) (ms : List AckMsg) (j : ℕ) (m : AckMsg) (buf written : Bytes)
      (rest : BytesPool)
      → Holds q ms
      → Tracks q ms
      → is_ack (mtype msg) ≡ true
      → spot (packet_id msg) ms ≡ some j
      → get_elem? ms j ≡ some m
      → get_bytes (len msg) q.pool ≡ done (buf, rest)
      → encode msg buf ≡ (written, true)
      → ack lib msg q ≡ done (replaced j (answered_by msg written m) rest q, none)
  ack-replaced msg q ms j m buf written rest w t kind at there got good =
      ack-ack_id msg q kind
      ∙ found
      ∙ ack_at-replaced msg q j m buf written rest (w.stands j m there) got good
    where
      found : ack_id lib msg q ≡ ack_at lib msg (place q j) q
      found = unfold ack_id in ground (arith, t.found (packet_id msg), at)

  -- An acknowledgement whose packet identifier waits in a queue in order is noted at exactly that
  -- message, if the pool has a buffer for it and the library can encode it: all messages wait as
  -- before, and the map finds them at their places.
  pub ack-Holds :
      (msg : Message) (q : AckQueue) (ms : List AckMsg) (j : ℕ) (m : AckMsg) (buf written : Bytes)
      (rest : BytesPool)
      → Holds q ms
      → Tracks q ms
      → is_ack (mtype msg) ≡ true
      → spot (packet_id msg) ms ≡ some j
      → get_elem? ms j ≡ some m
      → get_bytes (len msg) q.pool ≡ done (buf, rest)
      → encode msg buf ≡ (written, true)
      → (q' : AckQueue) × (ack lib msg q ≡ done (q', none))
        × Holds q' (set ms j (answered_by msg written m))
        × Tracks q' (set ms j (answered_by msg written m))
  ack-Holds msg q ms j m buf written rest w t kind at there got good = (
    replaced j (answered_by msg written m) rest q,
    ack-replaced msg q ms j m buf written rest w t kind at there got good,
    replaced-Holds q ms j (answered_by msg written m) rest w (get_elem?-lt ms j m there),
    replaced-Tracks q ms j m (answered_by msg written m) rest there refl t,
  )
