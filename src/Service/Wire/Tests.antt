-- ===== src/Service/Wire/Tests.antt =====
-- The readers at concrete bytes.
use xmqtt.Prelude.{
  ℕ, Bytes, Option, some, [], ◌∷◌, ◌++◌, ◌≡◌, refl, arith, ◌≤◌, ◌/◌, length, ◌+◌, ◌^◌,
}
use xmqtt.Service.Wire.{Reader, ok, eof, uvarint_from, size_loop, read_of}
use xmqtt.Service.Wire.{get_peek_message_size, get_peek_message}
use xmqtt.Service.Wire.Size.{remaining_length, get_peek_message_size-length_digits}
use xmqtt.Service.Wire.Size.{get_peek_message_size_bounds}
use xmqtt.Service.Wire.Frame.{frame, get_peek_message-frame}

-- A PINGREQ, two bytes.
abbrev pingreq_reader : Reader
pingreq_reader = record { bytes = 192 ∷ 0 ∷ []; ending = eof }

get_peek_message_size-length_digits_example :
    get_peek_message_size (record { bytes = 48 ∷ (remaining_length 321 ++ (7 ∷ [])); ending = eof })
    ≡ ok (48 / 16, 321 + 1 + length (remaining_length 321))
get_peek_message_size-length_digits_example =
    get_peek_message_size-length_digits 48 (7 ∷ []) eof 321 (omega arith)

get_peek_message_size_bounds_example : (2 ≤ 2) × (2 ≤ 2 ^ 28 + 4)
unfolding get_peek_message_size size_loop uvarint_from
get_peek_message_size_bounds_example = get_peek_message_size_bounds pingreq_reader 12 2 refl

-- A decoder that takes the bytes as they are.
abbrev as_is : ℕ → Bytes → Option Bytes
as_is t b = some b

get_peek_message-frame_example :
    (get_peek_message_size (record { bytes = frame 48 (1 ∷ 2 ∷ []) ++ (5 ∷ []); ending = eof })
      ≡ ok (48 / 16, length (frame 48 (1 ∷ 2 ∷ []))))
    × (get_peek_message as_is
          (48 / 16)
          (length (frame 48 (1 ∷ 2 ∷ [])))
          (record { bytes = frame 48 (1 ∷ 2 ∷ []) ++ (5 ∷ []); ending = eof })
        ≡ (
          record { bytes = 5 ∷ []; ending = eof },
          read_of (as_is (48 / 16) (frame 48 (1 ∷ 2 ∷ []))),
        ))
get_peek_message-frame_example =
    get_peek_message-frame as_is 48 (1 ∷ 2 ∷ []) (5 ∷ []) eof (omega arith)
