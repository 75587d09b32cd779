-- ===== src/Service/Buffer/Fifo/Slice.antt =====
-- The bytes that a slice from the consumer's position holds.
use Prim.Native.Nat.{bit_and}
use xmqtt.Prelude.{ℕ, suc, Bytes, [], ◌∷◌, ◌≡◌, refl, ap, sym, ◌∙◌, arith, subst}
use xmqtt.Prelude.{
  ◌+◌, ◌-◌, ◌<◌, ◌≤◌, ◌%◌, length, take, drop, if_each, ltb, inl, inr, ◌⊎◌, get_elem?,
}
use xmqtt.Prelude.{length-take, length-drop, length-append, mod-sum_cases, lt_or_le}
use xmqtt.Prelude.Rotation.{
  get_elem?-append_left, get_elem?-append_right, get_elem?-drop, get_elem?-take,
}
use xmqtt.Service.Buffer.{Buffer}
use xmqtt.Service.Buffer.Reading.{slice, in_two_parts}
use xmqtt.Service.Buffer.Fifo.{Contains, Contains-place}
use native.Mathlib.Nat.{mod-lt, mod-add-mod}

-- Two lists are the same, if they are as long and the same stands at each place.
same_places :
    (xs ys : Bytes)
    → length xs ≡ length ys
    → ((k : ℕ) → k < length xs → get_elem? xs k ≡ get_elem? ys k)
    → xs ≡ ys
same_places [] [] e h = refl
same_places [] (y ∷ ys) e h = absurd (omega (arith, e))
same_places (x ∷ xs) [] e h = absurd (omega (arith, e))
same_places (x ∷ xs) (y ∷ ys) e h =
    let first : x ≡ y = ground (arith, h 0 (omega arith)) in
    let rest = same_places xs ys (omega (arith, e)) (λ k l. h (suc k) (omega (arith, l))) in
    λ i. first i ∷ rest i

module _ (b : Buffer) (bs : Bytes) (w : Contains b bs) where
  abbrev first : ℕ
  first = b.cseq % b.size

  pub inside : first < b.size
  inside = mod-lt b.cseq {m = b.size} w.positive

  -- The place of a waiting byte, before the end of the ring and round it.
  place :
      (k : ℕ)
      → k < b.size
      → ((b.cseq + k) % b.size ≡ first + k) ⊎ ((b.cseq + k) % b.size + b.size ≡ first + k)
  place k l =
      subst (λ i. (i ≡ first + k) ⊎ (i + b.size ≡ first + k)) (mod-add-mod b.cseq b.size k)
        (mod-sum_cases first k b.size inside l)

  -- What stands before the end of the ring.
  near : (k : ℕ) → k < length bs → first + k < b.size → get_elem? b.buf (first + k) ≡ get_elem? bs k
  near k l h = elim (place k (omega (arith, l, w.fits))) [
    | inl e ↦ ap (get_elem? b.buf) (sym e) ∙ w.stands k l
    | inr e ↦ absurd (omega (arith, e, h))
  ]

  -- What stands round the end.
  far :
      (k : ℕ)
      → k < length bs
      → b.size ≤ first + k
      → get_elem? b.buf (first + k - b.size) ≡ get_elem? bs k
  far k l h = elim (place k (omega (arith, l, w.fits))) [
    | inl e ↦ absurd (omega (arith, e, h, mod-lt (b.cseq + k) {m = b.size} w.positive))
    | inr e ↦ ap (get_elem? b.buf) (omega (arith, e, h)) ∙ w.stands k l
  ]

  pub straight :
      (n : ℕ) → n ≤ length bs → first + n ≤ b.size → take n (drop first b.buf) ≡ take n bs
  straight n h f =
      same_places (take n (drop first b.buf)) (take n bs) (omega (arith, length-take n bs, long, h))
        (λ k l.
          get_elem?-take n (drop first b.buf) k (omega (arith, l, long))
          ∙ get_elem?-drop first b.buf k
          ∙ near k (omega (arith, l, long, h)) (omega (arith, l, long, f))
          ∙ sym (get_elem?-take n bs k (omega (arith, l, long))))
    where
      long : length (take n (drop first b.buf)) ≡ n
      long = omega (arith, length-take n (drop first b.buf), length-drop first b.buf, w.whole, f)

  turned : (n : ℕ) → n ≤ length bs → b.size < first + n → in_two_parts b first n ≡ take n bs
  turned n h f =
      same_places (in_two_parts b first n) (take n bs) (omega (arith, length-take n bs, long, h))
        pointwise
    where
      front : Bytes
      front = drop first b.buf

      frontal : length front ≡ b.size - first
      frontal = omega (arith, length-drop first b.buf, w.whole)

      long : length (in_two_parts b first n) ≡ n
      long = omega (
        arith,
        length-append front (take (n - length front) b.buf),
        length-take (n - length front) b.buf,
        frontal,
        w.whole,
        w.fits,
        h,
        f,
        inside,
      )

      pointwise :
          (k : ℕ)
          → k < length (in_two_parts b first n)
          → get_elem? (in_two_parts b first n) k ≡ get_elem? (take n bs) k
      pointwise k l = elim (lt_or_le k (length front)) [
        | inl s ↦
            get_elem?-append_left front (take (n - length front) b.buf) k s
            ∙ get_elem?-drop first b.buf k
            ∙ near k (omega (arith, l, long, h)) (omega (arith, s, frontal, inside))
            ∙ sym (get_elem?-take n bs k (omega (arith, l, long)))
        | inr s ↦
            get_elem?-append_right front (take (n - length front) b.buf) k s
            ∙ get_elem?-take (n - length front) b.buf (k - length front) (omega (arith, l, long, s))
            ∙ ap (get_elem? b.buf) (omega (arith, s, frontal, inside))
            ∙ far k (omega (arith, l, long, h)) (omega (arith, s, frontal, inside))
            ∙ sym (get_elem?-take n bs k (omega (arith, l, long)))
      ]

  -- The slice from the consumer's position is the oldest bytes, and at most `tmp` is changed.
  pub slice_oldest :
      (n : ℕ)
      → n ≤ length bs
      → (t : Bytes) × (slice b (bit_and b.cseq b.mask) n ≡ (record b { tmp = t }, take n bs))
  unfolding slice
  slice_oldest n h =
      subst (λ i. (t : Bytes) × (slice b i n ≡ (record b { tmp = t }, take n bs)))
        (sym (Contains-place b bs b.cseq w))
        (if_each (λ (r : Buffer × Bytes). (t : Bytes) × (r ≡ (record b { tmp = t }, take n bs)))
          (ltb b.size (first + n))
          (λ e. (
            in_two_parts b first n,
            ap (λ p. (record b { tmp = in_two_parts b first n }, p))
                (turned n h (ground (arith, e))),
          ))
          (λ e. (b.tmp, ap (λ p. (b, p)) (straight n h (ground (arith, e))))))
