-- ===== src/Service/Buffer/Copied.antt =====
-- What stands in a ring after bytes were copied into it.
use xmqtt.Prelude.{ℕ, zero, suc, Bytes, [], ◌∷◌, ◌≡◌, refl, ap, sym, ◌∙◌, arith}
use xmqtt.Prelude.{
  ◌+◌, ◌-◌, ◌<◌, ◌≤◌, ◌%◌, ◌⊎◌, inl, inr, length, drop, get_elem?, length-drop, mod-sum_cases,
}
use xmqtt.Prelude.Rotation.{get_elem?-drop}
use xmqtt.Service.Buffer.{copy_at, ring_copy}
use xmqtt.Service.Buffer.Positions.{length-copy_at}
use native.Mathlib.Nat.{mod-lt}

copy_at-in :
    (dst : Bytes) (i : ℕ) (src : Bytes) (j : ℕ)
    → i ≤ j
    → j < i + length src
    → j < length dst
    → get_elem? (copy_at dst i src) j ≡ get_elem? src (j - i)
unfolding copy_at
copy_at-in [] i src j h k l = absurd (omega arith)
copy_at-in (d ∷ ds) (suc i) src zero h k l = absurd (omega arith)
copy_at-in (d ∷ ds) (suc i) src (suc j) h k l =
    copy_at-in ds i src j (omega arith) (omega arith) (omega arith)
    ∙ ap (get_elem? src) (omega arith)
copy_at-in (d ∷ ds) zero [] j h k l = absurd (omega arith)
copy_at-in (d ∷ ds) zero (x ∷ src) zero h k l = refl
copy_at-in (d ∷ ds) zero (x ∷ src) (suc j) h k l =
    copy_at-in ds zero src j (omega arith) (omega arith) (omega arith)
    ∙ ap (get_elem? src) {x = j - 0} {y = j} (omega arith)
    ∙ ap (get_elem? (x ∷ src)) {x = suc j} {y = suc j - 0} (omega arith)

copy_at-out :
    (dst : Bytes) (i : ℕ) (src : Bytes) (j : ℕ)
    → (j < i) ⊎ (i + length src ≤ j)
    → get_elem? (copy_at dst i src) j ≡ get_elem? dst j
unfolding copy_at
copy_at-out [] i src j h = refl
copy_at-out (d ∷ ds) (suc i) src zero h = refl
copy_at-out (d ∷ ds) (suc i) src (suc j) h = copy_at-out ds i src j (ground (arith, h))
copy_at-out (d ∷ ds) zero [] j h = refl
copy_at-out (d ∷ ds) zero (x ∷ src) zero h = absurd (ground (arith, h))
copy_at-out (d ∷ ds) zero (x ∷ src) (suc j) h = copy_at-out ds zero src j (ground (arith, h))

-- One round up to the end of the ring, and one from its start.
abbrev pub two_rounds : Bytes → Bytes → ℕ → Bytes
two_rounds dst src start = copy_at (copy_at dst start src) 0 (drop (length dst - start) src)

pub length-two_rounds :
    (dst src : Bytes) (start : ℕ) → length (two_rounds dst src start) ≡ length dst
length-two_rounds dst src start =
    length-copy_at (copy_at dst start src) 0 (drop (length dst - start) src)
    ∙ length-copy_at dst start src

copy_at-nil : (dst : Bytes) (i : ℕ) → copy_at dst i [] ≡ dst
unfolding copy_at
copy_at-nil [] i = refl
copy_at-nil (d ∷ ds) zero = refl
copy_at-nil (d ∷ ds) (suc i) = ap (λ t. d ∷ t) (copy_at-nil ds i)

drop-nil : (n : ℕ) (xs : Bytes) → length xs ≤ n → drop n xs ≡ []
drop-nil zero [] h = refl
drop-nil zero (x ∷ xs) h = absurd (omega arith)
drop-nil (suc n) [] h = refl
drop-nil (suc n) (x ∷ xs) h = drop-nil n xs (omega arith)

-- Where the bytes fit before the end, the second round copies nothing.
pub two_rounds-fits :
    (dst src : Bytes) (start : ℕ)
    → length src ≤ length dst - start
    → two_rounds dst src start ≡ copy_at dst start src
two_rounds-fits dst src start h =
    ap (copy_at (copy_at dst start src) 0) (drop-nil (length dst - start) src h)
    ∙ copy_at-nil (copy_at dst start src) 0

module _ (dst src : Bytes) (start : ℕ) (inside : start < length dst)
    (fits : length src ≤ length dst) where
  abbrev size : ℕ
  size = length dst

  abbrev over : Bytes
  over = drop (size - start) src

  abbrev first : Bytes
  first = copy_at dst start src

  lost : length over ≡ length src - (size - start)
  lost = length-drop (size - start) src

  long : length first ≡ size
  long = length-copy_at dst start src

  -- A byte of the source stands at its place behind the start, round the end.
  pub two_rounds-in :
      (k : ℕ)
      → k < length src
      → get_elem? (two_rounds dst src start) ((start + k) % size) ≡ get_elem? src k
  two_rounds-in k l = elim (mod-sum_cases start k size inside (omega (arith, fits))) [
    | inl e ↦
        copy_at-out first 0 over ((start + k) % size) (inr (omega (arith, e, lost, fits)))
        ∙ ap (get_elem? first) e
        ∙ copy_at-in dst start src (start + k) (omega arith) (omega arith) (omega (arith, below, e))
        ∙ ap (get_elem? src) {x = start + k - start} {y = k} (omega arith)
    | inr e ↦
        copy_at-in first 0 over ((start + k) % size) (omega arith) (omega (arith, e, lost, below))
          (omega (arith, long, below))
        ∙ get_elem?-drop (size - start) src ((start + k) % size - 0)
        ∙ ap (get_elem? src) (omega (arith, e, inside))
  ]
    where
      below : (start + k) % size < size
      below = mod-lt (start + k) {m = size} (omega (arith, inside))

  -- What is behind the source's bytes, round the end, stays.
  pub two_rounds-out :
      (k : ℕ)
      → length src ≤ k
      → k < size
      → get_elem? (two_rounds dst src start) ((start + k) % size)
        ≡ get_elem? dst ((start + k) % size)
  two_rounds-out k l h = elim (mod-sum_cases start k size inside h) [
    | inl e ↦
        copy_at-out first 0 over ((start + k) % size) (inr (omega (arith, e, lost, fits)))
        ∙ copy_at-out dst start src ((start + k) % size) (inr (omega (arith, e)))
    | inr e ↦
        copy_at-out first 0 over ((start + k) % size) (inr (omega (arith, e, lost)))
        ∙ copy_at-out dst start src ((start + k) % size) (inl (omega (arith, e, h)))
  ]

length-nil : (xs : Bytes) → length xs ≡ 0 → xs ≡ []
length-nil [] h = refl
length-nil (x ∷ xs) h = absurd (omega (arith, h))

ring_copy-nil : (fuel : ℕ) (dst : Bytes) (start : ℕ) → ring_copy fuel dst [] start ≡ dst
unfolding ring_copy
ring_copy-nil zero dst start = refl
ring_copy-nil (suc fuel) dst start = refl

ring_copy-cons :
    (fuel : ℕ) (dst : Bytes) (x : ℕ) (src : Bytes) (start : ℕ)
    → ring_copy (suc fuel) dst (x ∷ src) start
      ≡ ring_copy fuel (copy_at dst start (x ∷ src)) (drop (length dst - start) (x ∷ src)) 0
unfolding ring_copy
ring_copy-cons fuel dst x src start = ground arith

-- From the start, a source that fits is copied in one round.
ring_copy-start :
    (fuel : ℕ) (dst src : Bytes)
    → length src ≤ fuel
    → length src ≤ length dst
    → ring_copy fuel dst src 0 ≡ copy_at dst 0 src
unfolding ring_copy
ring_copy-start zero dst src h f =
    sym (copy_at-nil dst 0) ∙ ap (copy_at dst 0) (sym (length-nil src (omega arith)))
ring_copy-start (suc fuel) dst [] h f = sym (copy_at-nil dst 0)
ring_copy-start (suc fuel) dst (x ∷ src) h f =
    ring_copy-cons fuel dst x src 0
    ∙ ap (λ r. ring_copy fuel (copy_at dst 0 (x ∷ src)) r 0)
        (drop-nil (length dst - 0) (x ∷ src) (omega (arith, f)))
    ∙ ring_copy-nil fuel (copy_at dst 0 (x ∷ src)) 0

-- The fuel that `Write` gives, one round for each byte, is enough for the two rounds it takes.
pub ring_copy_rounds :
    (dst src : Bytes) (start : ℕ)
    → start < length dst
    → length src ≤ length dst
    → ring_copy (length src) dst src start ≡ two_rounds dst src start
unfolding ring_copy
ring_copy_rounds dst [] start h f =
    sym (copy_at-nil dst start)
    ∙ sym (copy_at-nil (copy_at dst start []) 0)
    ∙ ap (copy_at (copy_at dst start []) 0) (sym (drop-nil (length dst - start) [] (omega arith)))
ring_copy_rounds dst (x ∷ src) start h f =
    ring_copy-cons (length src) dst x src start
    ∙ ring_copy-start (length src) (copy_at dst start (x ∷ src))
        (drop (length dst - start) (x ∷ src))
        (omega (arith, length-drop (length dst - start) (x ∷ src), h))
        (omega (
          arith,
          length-drop (length dst - start) (x ∷ src),
          length-copy_at dst start (x ∷ src),
          f,
        ))
