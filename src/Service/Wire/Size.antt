-- ===== src/Service/Wire/Size.antt =====
-- The two readers of a message's length against the encoding of the MQTT standard.
use xmqtt.Prelude.{
  ℕ, zero, suc, Bytes, [], ◌∷◌, ◌++◌, ◌≡◌, arith, Bool-cases, ltb→lt, inl, inr, ap, ◌∙◌, subst,
}
use xmqtt.Prelude.{ltb, if◌then◌else◌, length, take}
use xmqtt.Prelude.{◌+◌, ◌*◌, ◌/◌, ◌%◌, ◌^◌, ◌<◌, ◌≤◌}
use xmqtt.Service.Wire.{Reader, Read, ok, err, WireError, malformed_length, uvarint_from}
use xmqtt.Service.Wire.{size_loop, get_peek_message_size, header_loop, get_message_buffer}

-- The standard's remaining length: seven bits to a byte, the lowest first, and the highest bit set
-- where another byte follows.
unfoldable pub length_digits : ℕ → ℕ → Bytes
length_digits zero n = n ∷ []
length_digits (suc k) n =
    let more = length_digits k (n / 128) in if ltb n 128 then n ∷ [] else (n % 128 + 128) ∷ more

abbrev pub remaining_length : ℕ → Bytes
remaining_length n = length_digits 3 n

-- What the reader makes of a header with one, two, three or four bytes of length.
module _ (h : ℕ) (rest : Bytes) (e : WireError) where
  abbrev with_length : Bytes → Reader
  with_length bs = record { bytes = h ∷ (bs ++ rest); ending = e }

  one_byte :
      (a : ℕ) → a < 128 → get_peek_message_size (with_length (a ∷ [])) ≡ ok (h / 16, a + 1 + 1)
  unfolding get_peek_message_size size_loop uvarint_from
  one_byte a l = ground arith

  two_bytes :
      (a b : ℕ)
      → a < 128
      → b < 128
      → get_peek_message_size (with_length ((a + 128) ∷ b ∷ []))
        ≡ ok (h / 16, a + b * 2 ^ 7 + 1 + 2)
  unfolding get_peek_message_size size_loop uvarint_from
  two_bytes a b l m = ground arith

  three_bytes :
      (a b c : ℕ)
      → a < 128
      → b < 128
      → c < 128
      → get_peek_message_size (with_length ((a + 128) ∷ (b + 128) ∷ c ∷ []))
        ≡ ok (h / 16, a + b * 2 ^ 7 + c * 2 ^ 14 + 1 + 3)
  unfolding get_peek_message_size size_loop uvarint_from
  three_bytes a b c l m n = ground arith

  four_bytes :
      (a b c d : ℕ)
      → a < 128
      → b < 128
      → c < 128
      → d < 128
      → get_peek_message_size (with_length ((a + 128) ∷ (b + 128) ∷ (c + 128) ∷ d ∷ []))
        ≡ ok (h / 16, a + b * 2 ^ 7 + c * 2 ^ 14 + d * 2 ^ 21 + 1 + 4)
  unfolding get_peek_message_size size_loop uvarint_from
  four_bytes a b c d l m n o = ground arith

  Reads : ℕ → Bytes → Type 0
  Reads n bs = get_peek_message_size (with_length bs) ≡ ok (h / 16, n + 1 + length bs)

  sum_four :
      (n : ℕ)
      → n % 128
          + n / 128 % 128 * 2 ^ 7
          + n / 128 / 128 % 128 * 2 ^ 14
          + n / 128 / 128 / 128 * 2 ^ 21
        ≡ n
  sum_four n = omega arith

  -- A message's length, written as the standard says, is read back by `getPeekMessageSize`, whatever
  -- follows: the type is the upper half of the first byte, and the total counts the header.
  pub get_peek_message_size-length_digits :
      (n : ℕ)
      → n < 2 ^ 28
      → get_peek_message_size (record { bytes = h ∷ (remaining_length n ++ rest); ending = e })
        ≡ ok (h / 16, n + 1 + length (remaining_length n))
  unfolding length_digits
  get_peek_message_size-length_digits n l = elim (Bool-cases (ltb n 128)) [
    | inl p ↦ rw p (one_byte n (ltb→lt n 128 p))
    | inr p ↦ elim (Bool-cases (ltb (n / 128) 128)) [
      | inl q ↦
          rw (p, q)
            (two_bytes (n % 128) (n / 128) (omega arith) (ltb→lt _ _ q)
              ∙ ap (λ t. ok (h / 16, t)) (omega arith))
      | inr q ↦ elim (Bool-cases (ltb (n / 128 / 128) 128)) [
        | inl s ↦
            rw (p, q, s)
              (three_bytes (n % 128) (n / 128 % 128) (n / 128 / 128) (omega arith) (omega arith)
                  (ltb→lt _ _ s)
                ∙ ap (λ t. ok (h / 16, t)) (omega arith))
        | inr s ↦
            rw (p, q, s)
              (four_bytes (n % 128) (n / 128 % 128) (n / 128 / 128 % 128) (n / 128 / 128 / 128)
                  (omega arith) (omega arith) (omega arith) (omega arith)
                ∙ ap (λ t. ok (h / 16, t)) (omega (arith, sum_four n)))
      ]
    ]
  ]

abbrev InBounds : Read (ℕ × ℕ) → Type 0
InBounds (ok (t, total)) = (2 ≤ total) × (total ≤ 2 ^ 28 + 4)
InBounds (err e) = (e ≡ e)

bounds :
    (bs : Bytes) (e : WireError)
    → InBounds (get_peek_message_size (record { bytes = bs; ending = e }))
unfolding get_peek_message_size size_loop uvarint_from
bounds [] e = ground arith
bounds (h ∷ []) e = ground arith
bounds (h ∷ a ∷ []) e = ground arith
bounds (h ∷ a ∷ b ∷ []) e = ground arith
bounds (h ∷ a ∷ b ∷ c ∷ []) e = ground arith
bounds (h ∷ a ∷ b ∷ c ∷ d ∷ rest) e = ground arith

-- Whatever arrives, a length that `getPeekMessageSize` returns counts a header at least and is at most
-- 2^28 + 4, so it neither overflows nor is negative.
pub get_peek_message_size_bounds :
    (r : Reader) (t total : ℕ)
    → get_peek_message_size r ≡ ok (t, total)
    → (2 ≤ total) × (total ≤ 2 ^ 28 + 4)
get_peek_message_size_bounds r t total e = subst InBounds e (bounds r.bytes r.ending)

-- `getMessageBuffer`, which reads the CONNECT message, takes a length of five bytes, up to 2^35, where
-- the standard and `getPeekMessageSize` end with an error after the fourth.
pub get_message_buffer_fifth :
    (h a b c d f : ℕ) (rest : Bytes) (e : WireError)
    → 128 ≤ a
    → 128 ≤ b
    → 128 ≤ c
    → 128 ≤ d
    → f < 128
    → let size = a % 128 + b % 128 * 2 ^ 7 + c % 128 * 2 ^ 14 + d % 128 * 2 ^ 21 + f * 2 ^ 28 in
      let r : Reader = record { bytes = h ∷ a ∷ b ∷ c ∷ d ∷ f ∷ rest; ending = e } in
      size ≤ length rest
      → (get_peek_message_size r ≡ err malformed_length)
        × (get_message_buffer r ≡ ok (h ∷ a ∷ b ∷ c ∷ d ∷ f ∷ take size rest))
unfolding get_peek_message_size size_loop uvarint_from get_message_buffer header_loop
get_message_buffer_fifth h a b c d f rest e la lb lc ld lf l = ground arith
