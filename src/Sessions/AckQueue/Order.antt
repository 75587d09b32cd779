-- ===== src/Sessions/AckQueue/Order.antt =====
-- `Ackqueue` as a queue in order: what waits, from the head of the ring on.
use Prim.Native.Nat.{bit_and}
use xmqtt.Prelude.{ℕ, zero, suc, false, none, some, List, [], ◌∷◌}
use xmqtt.Prelude.{
  ◌≡◌, ◌≢◌, refl, ap, sym, ◌∙◌, subst, arith, inl, inr, ◌<◌, ◌≤◌, ◌+◌, ◌-◌, ◌%◌, ◌^◌,
}
use xmqtt.Prelude.{length, get_elem?, set, bit_and-ones, mod-sum_cases}
use xmqtt.Prelude.{length-set, get_elem?-set_ne}
use xmqtt.Prelude.{done}
use xmqtt.Sessions.AckQueue.{AckMsg, AckQueue, empty, increment, delete_id}
use xmqtt.Sessions.AckQueue.Methods.{remove_head}
use native.Mathlib.Nat.{mod-add-mod, mod-lt, mod-eq_of_lt}

-- The messages `ms` wait in the queue, in this order: the first at the head, the others behind it
-- round the ring, and the tail is the place behind the last.
pub record Holds (q : AckQueue) (ms : List AckMsg) : Type 0 where
  pub bits : ℕ
  pub power : q.size ≡ 2 ^ bits
  pub masked : q.mask ≡ q.size - 1
  pub sized : length q.ring ≡ q.size
  pub inside : q.head < q.size
  pub counted : length ms ≡ q.count
  pub fits : q.count ≤ q.size
  pub ends : q.tail ≡ (q.head + q.count) % q.size
  pub stands :
      (j : ℕ) (m : AckMsg)
      → get_elem? ms j ≡ some m
      → get_elem? q.ring ((q.head + j) % q.size) ≡ some (some m)

pub get_elem?-lt :
    {A : Type 0} (xs : List A) (j : ℕ) (x : A) → get_elem? xs j ≡ some x → j < length xs
get_elem?-lt [] j x e = ground arith
get_elem?-lt (y ∷ xs) zero x e = omega arith
get_elem?-lt (y ∷ xs) (suc j) x e = omega (arith, get_elem?-lt xs j x e)

-- The mask wraps a position round the ring.
pub wraps : (q : AckQueue) (ms : List AckMsg) (n : ℕ) → Holds q ms → bit_and n q.mask ≡ n % q.size
wraps q ms n w =
    ap (bit_and n) (w.masked ∙ ap (λ s. s - 1) w.power)
    ∙ bit_and-ones n w.bits
    ∙ ap (λ s. n % s) (sym w.power)

-- Two places of the ring differ, if their distances from the head do.
pub places_apart : (h i j p : ℕ) → h < p → i < p → j < p → i ≢ j → (h + i) % p ≢ (h + j) % p
places_apart h i j p lh li lj ne e = elim (mod-sum_cases h i p lh li) [
  | inl a ↦ elim (mod-sum_cases h j p lh lj) [ inl b ↦ ne (omega arith) | inr b ↦ ne (omega arith) ]
  | inr a ↦ elim (mod-sum_cases h j p lh lj) [ inl b ↦ ne (omega arith) | inr b ↦ ne (omega arith) ]
]

pub increment-head :
    (q : AckQueue) (ms : List AckMsg) → Holds q ms → increment q q.head ≡ (q.head + 1) % q.size
increment-head q ms w = wraps q ms (q.head + 1) w

-- The places behind the next head are those behind the head.
pub increment-place :
    (q : AckQueue) (ms : List AckMsg)
    → Holds q ms
    → (j : ℕ) → (increment q q.head + j) % q.size ≡ (q.head + suc j) % q.size
increment-place q ms w j =
    ap (λ i. (i + j) % q.size) (increment-head q ms w)
    ∙ mod-add-mod (q.head + 1) q.size j
    ∙ ap (λ i. i % q.size) (omega arith)

-- The queue without its first message.
unfoldable pub behind_head : AckMsg → AckQueue → AckQueue
behind_head it q = record q {
  ring = set q.ring q.head none;
  head = increment q q.head;
  count = q.count - 1;
  emap = delete_id it.pktid q.emap;
}

at_head : (h p : ℕ) → h < p → (h + 0) % p ≡ h
at_head h p l = ap (λ i. i % p) (omega arith) ∙ mod-eq_of_lt l

pub head-stands :
    (q : AckQueue) (m : AckMsg) (ms : List AckMsg)
    → Holds q (m ∷ ms)
    → get_elem? q.ring q.head ≡ some (some m)
head-stands q m ms w = subst (λ i. get_elem? q.ring i ≡ some (some m)) here (w.stands 0 m refl)
  where
    here : (q.head + 0) % q.size ≡ q.head
    here = at_head q.head q.size w.inside

pub behind_head-Holds :
    (q : AckQueue) (m : AckMsg) (ms : List AckMsg) → Holds q (m ∷ ms) → Holds (behind_head m q) ms
unfolding behind_head
behind_head-Holds q m ms w = record {
  bits = w.bits;
  power = w.power;
  masked = w.masked;
  sized = length-set q.ring q.head none ∙ w.sized;
  inside =
      subst (λ i. i < q.size) (sym (increment-head q (m ∷ ms) w))
        (mod-lt (q.head + 1) (omega (arith, w.inside)));
  counted = omega (arith, w.counted);
  fits = omega (arith, w.fits);
  ends =
      w.ends
      ∙ ap (λ c. (q.head + c) % q.size) (omega (arith, w.counted))
      ∙ sym (increment-place q (m ∷ ms) w (q.count - 1));
  stands = λ j n e.
      ap (get_elem? (set q.ring q.head none)) (increment-place q (m ∷ ms) w j)
      ∙ get_elem?-set_ne q.ring none (away j n e)
      ∙ w.stands (suc j) n e;
}
  where
    away : (j : ℕ) (n : AckMsg) → get_elem? ms j ≡ some n → q.head ≢ (q.head + suc j) % q.size
    away j n e same =
        let near = get_elem?-lt ms j n e in
        places_apart q.head 0 (suc j) q.size w.inside (omega (arith, w.inside))
          (omega (arith, w.counted, w.fits, near)) (omega arith)
          (at_head q.head q.size w.inside ∙ same)

-- `removeHead` takes the first message out, and the others stay in order.
pub remove_head-Holds :
    (q : AckQueue) (m : AckMsg) (ms : List AckMsg)
    → Holds q (m ∷ ms)
    → remove_head q ≡ done (behind_head m q, none)
unfolding remove_head behind_head
remove_head-Holds q m ms w = rw (head-stands q m ms w, busy)
  where
    busy : empty q ≡ false
    busy = ground (arith, w.counted)
