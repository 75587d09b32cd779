-- ===== src/Service/Wire/Frame.antt =====
-- One message taken out of a connection, and what follows it.
use xmqtt.Prelude.{
  ℕ, zero, suc, Bytes, Option, some, List, [], ◌∷◌, ◌++◌, ◌≡◌, refl, ap, ◌∙◌, arith, append_assoc,
  append-nil,
}
use xmqtt.Prelude.{length, take, drop, replicate, ◌-◌, ◌/◌, ◌<◌, ◌≤◌, ◌^◌, length-append}
use xmqtt.Service.Wire.{Reader, ok, WireError, read_of, get_peek_message, get_peek_message_size}
use xmqtt.Service.Wire.Size.{remaining_length, get_peek_message_size-length_digits}

module _ {A : Type 0} where
  pub take_all : (xs ys : List A) → take (length xs) (xs ++ ys) ≡ xs
  take_all [] ys = refl
  take_all (x ∷ xs) ys = ap (λ t. x ∷ t) (take_all xs ys)

  pub drop_all : (xs ys : List A) → drop (length xs) (xs ++ ys) ≡ ys
  drop_all [] ys = refl
  drop_all (x ∷ xs) ys = drop_all xs ys

  take_short : (n : ℕ) (xs : List A) → length xs ≤ n → take n xs ≡ xs
  take_short zero [] h = refl
  take_short zero (x ∷ xs) h = absurd (omega arith)
  take_short (suc n) [] h = refl
  take_short (suc n) (x ∷ xs) h = ap (λ t. x ∷ t) (take_short n xs (omega arith))

-- A message as it stands on the wire: the first byte, the length of the body, and the body.
abbrev pub frame : ℕ → Bytes → Bytes
frame h body = h ∷ (remaining_length (length body) ++ body)

module _ {M : Type 0} (decode : ℕ → Bytes → Option M) where
  whole :
      (mtype : ℕ) (xs rest : Bytes) (e : WireError)
      → get_peek_message decode mtype (length xs) (record { bytes = xs ++ rest; ending = e })
        ≡ (record { bytes = rest; ending = e }, read_of (decode mtype xs))
  unfolding get_peek_message
  whole mtype xs rest e = rw (take_all xs rest, drop_all xs rest, none_left, append-nil xs) refl
    where
      none_left : length xs - length xs ≡ 0
      none_left = omega arith

  -- A whole message is read exactly: `getPeekMessageSize` finds its type and its length, with which
  -- `getPeekMessage` decodes its bytes and no others, and leaves what follows.
  pub get_peek_message-frame :
      (h : ℕ) (body rest : Bytes) (e : WireError)
      → length body < 2 ^ 28
      → (get_peek_message_size (record { bytes = frame h body ++ rest; ending = e })
          ≡ ok (h / 16, length (frame h body)))
        × (get_peek_message decode
              (h / 16)
              (length (frame h body))
              (record { bytes = frame h body ++ rest; ending = e })
            ≡ (record { bytes = rest; ending = e }, read_of (decode (h / 16) (frame h body))))
  get_peek_message-frame h body rest e l = (sizes, whole (h / 16) (frame h body) rest e)
    where
      digits : Bytes
      digits = remaining_length (length body)

      sizes :
          get_peek_message_size (record { bytes = frame h body ++ rest; ending = e })
          ≡ ok (h / 16, length (frame h body))
      sizes =
          ap (λ bs. get_peek_message_size (record { bytes = h ∷ bs; ending = e }))
            (append_assoc (remaining_length (length body)) body rest)
          ∙ get_peek_message_size-length_digits h (body ++ rest) e (length body) l
          ∙ ap (λ t. ok (h / 16, t))
              (omega (arith, length-append (remaining_length (length body)) body))

  -- Where the connection ends before the message does, `getPeekMessage` goes on with zeros for the
  -- bytes that are missing, and returns what they decode to, and no error.
  pub get_peek_message_cut :
      (mtype total : ℕ) (m : M) (r : Reader)
      → length r.bytes < total
      → decode mtype (r.bytes ++ replicate (total - length r.bytes) 0) ≡ some m
      → (get_peek_message decode mtype total r).1 ≡ ok m
  unfolding get_peek_message
  get_peek_message_cut mtype total m r l e = rw (take_short total r.bytes (omega arith), e) refl
