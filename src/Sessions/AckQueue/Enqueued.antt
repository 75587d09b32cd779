-- ===== src/Sessions/AckQueue/Enqueued.antt =====
-- `insert` on a queue in order that is not full.
use xmqtt.Prelude.{ℕ, zero, suc, Bytes, true, false, none, some, List, [], ◌∷◌, ◌++◌, ◌%◌}
use xmqtt.Prelude.{
  ◌≡◌, ◌≢◌, ◌⊎◌, refl, ap, sym, ◌∙◌, subst, arith, inl, inr, length, ◌+◌, ◌<◌, set, get_elem?,
}
use xmqtt.Prelude.{done, length-set, length-append}
use xmqtt.Prelude.{get_elem?-set_ne, get_elem?-set_self}
use xmqtt.Message.{MessageLib}
use xmqtt.Sessions.AckQueue.{
  AckMsg, AckQueue, BytesPool, full, increment, find_id, put_id, get_bytes,
}
use xmqtt.Sessions.AckQueue.Methods.{insert, enqueue, waiting}
use xmqtt.Sessions.AckQueue.Order.{Holds, wraps, places_apart, get_elem?-lt}
use native.Mathlib.Nat.{mod-add-mod, mod-lt}

-- The queue with a message behind the last.
unfoldable pub at_tail : AckMsg → ℕ → BytesPool → AckQueue → AckQueue
at_tail m p rest q = record q {
  ring = set q.ring q.tail (some m);
  emap = put_id p q.tail q.emap;
  tail = increment q q.tail;
  count = q.count + 1;
  pool = rest;
}

-- Behind a list stands one element more.
get_elem?-snoc :
    {A : Type 0} (xs : List A) (a x : A) (j : ℕ)
    → get_elem? (xs ++ (a ∷ [])) j ≡ some x
    → (get_elem? xs j ≡ some x) ⊎ ((j ≡ length xs) × (a ≡ x))
get_elem?-snoc [] a x zero e = inr (refl, ground arith)
get_elem?-snoc [] a x (suc j) e = ground arith
get_elem?-snoc (y ∷ xs) a x zero e = inl e
get_elem?-snoc (y ∷ xs) a x (suc j) e = elim (get_elem?-snoc xs a x j e) [
  | inl h ↦ inl h
  | inr h ↦ inr (ap suc h.0, h.1)
]

tail-inside : (q : AckQueue) (ms : List AckMsg) → Holds q ms → q.tail < length q.ring
tail-inside q ms w =
    omega (arith, w.ends, w.sized, mod-lt (q.head + q.count) {m = q.size} (omega (arith, w.inside)))

pub at_tail-Holds :
    (q : AckQueue) (ms : List AckMsg) (m : AckMsg) (p : ℕ) (rest : BytesPool)
    → Holds q ms
    → full q ≡ false
    → Holds (at_tail m p rest q) (ms ++ (m ∷ []))
unfolding at_tail
at_tail-Holds q ms m p rest w nf = record {
  bits = w.bits;
  power = w.power;
  masked = w.masked;
  sized = length-set q.ring q.tail (some m) ∙ w.sized;
  inside = w.inside;
  counted = omega (arith, length-append ms (m ∷ []), w.counted);
  fits = ground (arith, w.fits);
  ends =
      wraps q ms (q.tail + 1) w
      ∙ ap (λ t. (t + 1) % q.size) w.ends
      ∙ mod-add-mod (q.head + q.count) q.size 1
      ∙ ap (λ i. i % q.size) (omega arith);
  stands = λ j n e. elim (get_elem?-snoc ms m n j e) [
    | inl h ↦ get_elem?-set_ne q.ring (some m) (away j n h) ∙ w.stands j n h
    | inr h ↦
        subst (λ i. get_elem? (set q.ring q.tail (some m)) i ≡ some (some n)) (last j (h.0))
          (get_elem?-set_self q.ring q.tail (some m) room ∙ ap (λ x. some (some x)) h.1)
  ];
}
  where
    less : q.count < q.size
    less = ground (arith, w.fits)

    last : (j : ℕ) → j ≡ length ms → q.tail ≡ (q.head + j) % q.size
    last j e = w.ends ∙ ap (λ c. (q.head + c) % q.size) (omega (arith, w.counted))

    room : q.tail < length q.ring
    room = tail-inside q ms w

    away : (j : ℕ) (n : AckMsg) → get_elem? ms j ≡ some n → q.tail ≢ (q.head + j) % q.size
    away j n h same =
        let near = get_elem?-lt ms j n h in
        places_apart q.head q.count j q.size w.inside less (omega (arith, less, near, w.counted))
          (omega (arith, near, w.counted)) (sym w.ends ∙ same)

pub get_elem?-inside :
    {A : Type 0} (xs : List A) (i : ℕ) → i < length xs → (x : A) × (get_elem? xs i ≡ some x)
get_elem?-inside [] i h = absurd (omega arith)
get_elem?-inside (x ∷ xs) zero h = (x, refl)
get_elem?-inside (x ∷ xs) (suc i) h = get_elem?-inside xs i (omega arith)

module _ (lib : MessageLib) where
  open lib use {Message, packet_id, len, encode}

  enqueue-at_tail :
      (now : ℕ) (msg : Message) (oc : ℕ) (q : AckQueue) (ms : List AckMsg) (buf written : Bytes)
      (rest : BytesPool)
      → Holds q ms
      → get_bytes (len msg) q.pool ≡ done (buf, rest)
      → encode msg buf ≡ (written, true)
      → enqueue lib now msg oc q
        ≡ done (at_tail (waiting lib now msg oc written) (packet_id msg) rest q, none)
  unfolding enqueue at_tail
  enqueue-at_tail now msg oc q ms buf written rest w got good =
      let (c, there) = get_elem?-inside q.ring q.tail (tail-inside q ms w) in
      ground (arith, got, good, there)

  -- `insert` of a message whose packet identifier does not wait.
  pub insert-at_tail :
      (now : ℕ) (msg : Message) (oc : ℕ) (q : AckQueue) (ms : List AckMsg) (buf written : Bytes)
      (rest : BytesPool)
      → Holds q ms
      → full q ≡ false
      → find_id (packet_id msg) q.emap ≡ none
      → get_bytes (len msg) q.pool ≡ done (buf, rest)
      → encode msg buf ≡ (written, true)
      → insert lib now msg oc q
        ≡ done (at_tail (waiting lib now msg oc written) (packet_id msg) rest q, none)
  insert-at_tail now msg oc q ms buf written rest w nf fresh got good =
      start ∙ enqueue-at_tail now msg oc q ms buf written rest w got good
    where
      start : insert lib now msg oc q ≡ enqueue lib now msg oc q
      start = unfold insert in ground (arith, nf, fresh)

  -- On a queue in order that is not full, a message whose packet identifier does not wait yet is
  -- accepted by `insert`, if the pool has a buffer for it and the library can encode it: it then
  -- waits behind all others, unanswered, and nothing else about what waits changes.
  pub insert-Holds :
      (now : ℕ) (msg : Message) (oc : ℕ) (q : AckQueue) (ms : List AckMsg) (buf written : Bytes)
      (rest : BytesPool)
      → Holds q ms
      → full q ≡ false
      → find_id (packet_id msg) q.emap ≡ none
      → get_bytes (len msg) q.pool ≡ done (buf, rest)
      → encode msg buf ≡ (written, true)
      → (q' : AckQueue) × (insert lib now msg oc q ≡ done (q', none))
        × Holds q' (ms ++ (waiting lib now msg oc written ∷ []))
  insert-Holds now msg oc q ms buf written rest w nf fresh got good = (
    at_tail (waiting lib now msg oc written) (packet_id msg) rest q,
    insert-at_tail now msg oc q ms buf written rest w nf fresh got good,
    at_tail-Holds q ms _ (packet_id msg) rest w nf,
  )
