-- ===== src/Sessions/AckQueue/Grown.antt =====
-- `grow` on a full queue in order.
use xmqtt.Prelude.{ℕ, suc, true, false, Option, none, some, List, [], ◌∷◌, ◌++◌, ◌%◌, ◌^◌, ◌*◌}
use xmqtt.Prelude.{◌≡◌, refl, ap, sym, ◌∙◌, arith, length, ◌+◌, ◌-◌, ◌<◌, ◌≤◌, get_elem?}
use xmqtt.Prelude.{
  if◌then◌else◌, ◌==◌, ==_iff, Bool-cases, inl, inr, subst, done, ltb, take, drop, replicate,
}
use xmqtt.Prelude.Rotation.{
  rotated, length-rotated, get_elem?-rotated, get_elem?-take, get_elem?-append_left,
}
use xmqtt.Prelude.{length-append, length-take, length-replicate}
use xmqtt.Sessions.AckQueue.{AckMsg, AckQueue, full, put_id, find_id}
use xmqtt.Sessions.AckQueue.Methods.{grow, remap, copied}
use xmqtt.Sessions.AckQueue.Order.{Holds, get_elem?-lt}
use xmqtt.Sessions.AckQueue.Places.{Tracks, Distinct, spot, shift, place, find_id-put_id}
use native.Mathlib.Nat.{mod-eq_of_lt, add-mod_right, pow-suc}

-- The place of a message that stands `j` behind the `i`-th, or what an older map finds.
abbrev counted_from : ℕ → Option ℕ → Option ℕ → Option ℕ
counted_from i none other = other
counted_from i (some j) other = some (i + j)

counted_from-spot :
    (p i : ℕ) (a : AckMsg) (ms : List AckMsg) (m : List (ℕ × ℕ))
    → spot a.pktid ms ≡ none
    → counted_from (i + 1) (spot p ms) (find_id p (put_id a.pktid i m))
      ≡ counted_from i (spot p (a ∷ ms)) (find_id p m)
unfolding spot
counted_from-spot p i a ms m d = elim (Bool-cases (p == a.pktid)) [
  | inl e ↦
      let gone : spot p ms ≡ none =
        subst (λ k. spot k ms ≡ none) (sym ((==_iff p a.pktid).0 e)) d in
      rw (gone, e) (find_id-put_id p a.pktid i m ∙ rw e (ap some (omega arith)))
  | inr e ↦ behind (spot p ms) e
]
  where
    behind :
        (o : Option ℕ)
        → (p == a.pktid) ≡ false
        → counted_from (i + 1) o (find_id p (put_id a.pktid i m))
          ≡ counted_from i (if p == a.pktid then some 0 else shift suc o) (find_id p m)
    behind none e = rw e (find_id-put_id p a.pktid i m ∙ rw e refl)
    behind (some j) e = rw e (ap some (omega arith))

-- With the messages at the front of the ring, the map is built, and finds each of them.
remap-done :
    (r : List (Option AckMsg)) (ms : List AckMsg) (i : ℕ) (m : List (ℕ × ℕ))
    → ((j : ℕ) (a : AckMsg) → get_elem? ms j ≡ some a → get_elem? r j ≡ some (some a))
    → Distinct ms
    → (m' : List (ℕ × ℕ)) × (remap r (length ms) i m ≡ done m')
      × ((p : ℕ) → find_id p m' ≡ counted_from i (spot p ms) (find_id p m))
unfolding remap spot
remap-done r [] i m h d = (m, refl, λ p. refl)
remap-done [] (a ∷ ms) i m h d = absurd (ground (arith, h 0 a refl))
remap-done (none ∷ r) (a ∷ ms) i m h d = absurd (ground (arith, h 0 a refl))
remap-done (some b ∷ r) (a ∷ ms) i m h (first, d) =
    let same : b ≡ a = ground (arith, h 0 a refl) in
    let (m', e, f) = remap-done r ms (i + 1) (put_id a.pktid i m) (λ j c k. h (suc j) c k) d in
    (m', rw same e, λ p. f p ∙ counted_from-spot p i a ms m first)

spot-lt : (p : ℕ) (ms : List AckMsg) (j : ℕ) → spot p ms ≡ some j → j < length ms
unfolding spot
spot-lt p [] j e = absurd (ground (arith, e))
spot-lt p (m ∷ ms) j e = within (spot p ms) e (λ k f. spot-lt p ms k f)
  where
    within :
        (o : Option ℕ)
        → (if p == m.pktid then some 0 else shift suc o) ≡ some j
        → ((k : ℕ) → o ≡ some k → k < length ms)
        → j < suc (length ms)
    within none h k = ground (arith, h)
    within (some n) h k = ground (arith, h, k n refl)

-- `copy` leaves what fits in its place.
length-copied : (n : ℕ) (r : List (Option AckMsg)) → length r ≤ n → length (copied n r) ≡ n
unfolding copied
length-copied n r h = omega (
  arith,
  length-take n (r ++ replicate (n - length r) none),
  length-append r (replicate (n - length r) none),
  length-replicate {A = Option AckMsg} (n - length r) none,
)

get_elem?-copied :
    (n : ℕ) (r : List (Option AckMsg)) (j : ℕ)
    → length r ≤ n
    → j < length r
    → get_elem? (copied n r) j ≡ get_elem? r j
unfolding copied
get_elem?-copied n r j h l =
    get_elem?-take n (r ++ replicate (n - length r) none) j (omega arith)
    ∙ get_elem?-append_left r (replicate (n - length r) none) j l

-- The queue in a ring of twice the size, from its front on.
grown : List (ℕ × ℕ) → AckQueue → AckQueue
grown m q = record q {
  size = q.size * 2;
  mask = q.size * 2 - 1;
  ring = copied (q.size * 2) (rotated q.head q.ring);
  head = 0;
  tail = q.count;
  emap = m;
}

at_head_of : (n p : ℕ) → n < p → (0 + n) % p ≡ n
at_head_of n p l = ap (λ i. i % p) (omega arith) ∙ mod-eq_of_lt l

module _ (q : AckQueue) (ms : List AckMsg) (w : Holds q ms) (f : full q ≡ true) where
  whole : q.count ≡ q.size
  whole = ground arith

  long : length (rotated q.head q.ring) ≡ length q.ring
  long = length-rotated q.head q.ring (omega (arith, w.inside, w.sized))

  moved-stands :
      (j : ℕ) (m : AckMsg)
      → get_elem? ms j ≡ some m
      → get_elem? (copied (q.size * 2) (rotated q.head q.ring)) j ≡ some (some m)
  moved-stands j m e =
      get_elem?-copied (q.size * 2) (rotated q.head q.ring) j (omega (arith, long, w.sized))
        (omega (arith, long, near))
      ∙ get_elem?-rotated q.head q.ring j (omega (arith, w.inside, w.sized)) near
      ∙ ap (λ s. get_elem? q.ring ((q.head + j) % s)) w.sized
      ∙ w.stands j m e
    where
      near : j < length q.ring
      near = omega (arith, get_elem?-lt ms j m e, w.counted, w.sized, whole)

  grown-Holds : (m : List (ℕ × ℕ)) → Holds (grown m q) ms
  unfolding grown
  grown-Holds m = record {
    bits = suc w.bits;
    power = ap (λ s. s * 2) w.power ∙ sym (pow-suc 2 w.bits);
    masked = refl;
    sized = length-copied (q.size * 2) (rotated q.head q.ring) (omega (arith, long, w.sized));
    inside = omega (arith, w.inside);
    counted = w.counted;
    fits = omega (arith, whole);
    ends = sym (at_head_of q.count (q.size * 2) (omega (arith, whole, w.inside)));
    stands = λ j a e.
        ap (get_elem? (copied (q.size * 2) (rotated q.head q.ring)))
          (at_head_of j (q.size * 2) (roomy j a e))
        ∙ moved-stands j a e;
  }
    where
      roomy : (j : ℕ) (a : AckMsg) → get_elem? ms j ≡ some a → j < q.size * 2
      roomy j a e = omega (arith, get_elem?-lt ms j a e, w.counted, whole)

  at_front : q.tail ≡ q.head
  at_front =
      w.ends
      ∙ ap (λ c. (q.head + c) % q.size) whole
      ∙ add-mod_right q.head q.size
      ∙ mod-eq_of_lt w.inside

  turned : take (q.size - q.head) (drop q.head q.ring) ++ take q.tail q.ring ≡ rotated q.head q.ring
  unfolding rotated
  turned =
      ap (λ n. take (n - q.head) (drop q.head q.ring) ++ take q.tail q.ring) (sym w.sized)
      ∙ ap (λ n. take (length q.ring - q.head) (drop q.head q.ring) ++ take n q.ring) at_front

  grow-grown :
      (m : List (ℕ × ℕ))
      → q.size ≤ 2 ^ 62 - 1
      → remap (copied (q.size * 2) (rotated q.head q.ring)) q.count 0 [] ≡ done m
      → grow q ≡ done (grown m q)
  unfolding grow grown
  grow-grown m small built = rw (fine, wrapped, turned, built) refl
    where
      fine : ltb (2 ^ 62 - 1) q.size ≡ false
      fine = ground arith

      wrapped : ltb q.head q.tail ≡ false
      wrapped = ground (arith, at_front)

  -- `grow` on a full queue in order, of a size whose double an int64 holds, and in which no two messages
  -- have one packet identifier, does not panic: the same messages wait in the same order, in a ring of
  -- twice the size that has room, and the map built anew finds exactly these, at their new places.
  pub grow-Holds :
      q.size ≤ 2 ^ 62 - 1
      → Distinct ms
      → (q' : AckQueue) × (grow q ≡ done q')
        × Holds q' ms
        × Tracks q' ms
        × (q'.size ≡ q.size * 2)
        × (full q' ≡ false)
  unfolding grown
  grow-Holds small d = (
    grown built.0 q,
    grow-grown built.0 small built.1,
    grown-Holds built.0,
    record { found = λ p. built.2 p ∙ at_place (spot p ms) (spot-lt p ms); distinct = d },
    refl,
    ground (arith, whole, w.inside),
  )
    where
      ring' : List (Option AckMsg)
      ring' = copied (q.size * 2) (rotated q.head q.ring)

      built :
          (m : List (ℕ × ℕ)) × (remap ring' q.count 0 [] ≡ done m)
          × ((p : ℕ) → find_id p m ≡ counted_from 0 (spot p ms) none)
      built =
          subst
            (λ n.
              (m : List (ℕ × ℕ)) × (remap ring' n 0 [] ≡ done m)
              × ((p : ℕ) → find_id p m ≡ counted_from 0 (spot p ms) none))
            w.counted (unfold find_id in remap-done ring' ms 0 [] moved-stands d)

      at_place :
          (o : Option ℕ)
          → ((j : ℕ) → o ≡ some j → j < length ms)
          → counted_from 0 o none ≡ shift (place (grown built.0 q)) o
      at_place none h = refl
      at_place (some j) h =
          ap some
            (omega (arith, at_head_of j (q.size * 2) (omega (arith, h j refl, w.counted, whole))))
