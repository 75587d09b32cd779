-- ===== src/Service/Wire.antt =====
-- How a message is cut out of a connection's bytes: `getPeekMessageSize` and `getPeekMessage` of
-- service/readwrite.go and `getMessageBuffer` of service/misc.go.
-- A reader is what it will still deliver: its bytes, and the error that it gives after them. Where
-- the connection only is slow, the call waits for the bytes.
pub mod Size
pub mod Frame
mod Tests
use xmqtt.Prelude.{ℕ, zero, suc, Bytes, Bool, true, false, Option, none, some, List, [], ◌∷◌, ◌++◌}
use xmqtt.Prelude.{◌==◌, ltb, leb, if◌then◌else◌, ◌&&◌, length, take, drop, replicate, get_or}
use xmqtt.Prelude.{◌+◌, ◌-◌, ◌*◌, ◌/◌, ◌%◌, ◌^◌}

-- io.EOF, a connection reset, any other error of the network such as a deadline, and the errors of
-- the code: a length with a continuation bit in its last byte, and a message that does not decode.
pub data WireError : Type 0 where
  eof reset timeout malformed_length bad_message : WireError

pub data Read {ℓ} (A : Type ℓ) : Type ℓ where
  ok : A → Read A
  err : WireError → Read A

pub record Reader : Type 0 where
  pub bytes : Bytes
  pub ending : WireError

-- `br.Peek(n)`: fewer bytes come with an error.
abbrev pub peek : ℕ → Reader → Read Bytes
peek n r = if leb n (length r.bytes) then ok (take n r.bytes) else err r.ending

-- `binary.Uvarint`: the value and the number of bytes read, both 0 where the last byte is missing.
-- `s` is the shift. The overflow that it reports takes ten bytes, and the callers give at most five.
unfoldable pub uvarint_from : ℕ → ℕ → ℕ → Bytes → ℕ × ℕ
uvarint_from x s i [] = (0, 0)
uvarint_from x s i (b ∷ bs) =
    let later = uvarint_from (x + b % 128 * 2 ^ s) (s + 7) (i + 1) bs in
    if ltb b 0x80 then (x + b * 2 ^ s, i + 1) else later

abbrev pub uvarint : Bytes → ℕ × ℕ
uvarint bs = uvarint_from 0 0 0 bs

-- The message's type code and its total length, from a header that ends with a plain byte.
abbrev pub sized : Bytes → ℕ × ℕ
sized b = let (remlen, m) = uvarint (drop 1 b) in (get_or b 0 0 / 16, remlen + 1 + m)

-- The loop of `getPeekMessageSize`; `fuel` is the number of values that `cnt` may still take, up to 5.
unfoldable pub size_loop : ℕ → ℕ → Reader → Read (ℕ × ℕ)
size_loop zero cnt r = err malformed_length
size_loop (suc fuel) cnt r =
    let later = size_loop fuel (cnt + 1) r in
    elim (peek cnt r) [
      | err e ↦ err e
      | ok b ↦ if leb 0x80 (get_or b (cnt - 1) 0) then later else ok (sized b)
    ]

unfoldable pub get_peek_message_size : Reader → Read (ℕ × ℕ)
unfolding size_loop
get_peek_message_size r = size_loop 4 2 r

-- `io.ReadFull` into a new slice of `total` bytes, whose error is logged and not looked at: what did
-- not come stays 0. `decode` stands for `mtype.New` and `Decode`.
abbrev pub read_of {ℓ} : {M : Type ℓ} → Option M → Read M
read_of none = err bad_message
read_of (some m) = ok m

module _ {M : Type 0} (decode : ℕ → Bytes → Option M) where
  unfoldable pub get_peek_message : ℕ → ℕ → Reader → Reader × Read M
  get_peek_message mtype total r =
      let got = take total r.bytes in
      let b = got ++ replicate (total - length got) 0 in
      (record r { bytes = drop total r.bytes }, read_of (decode mtype b))

-- The header loop of `getMessageBuffer`, byte by byte: `buf` is what is read. A read of no byte is
-- made again, and does not show here.
unfoldable pub header_loop : ℕ → Bytes → Reader → Read (Bytes × Reader)
header_loop zero buf r = err malformed_length
header_loop (suc fuel) buf r =
    let read : Read (Bytes × Reader) = elim r.bytes [
      | [] ↦ err r.ending
      | b ∷ rest ↦
          let buf' = buf ++ (b ∷ []) in
          let r' = record r { bytes = rest } in
          let later = header_loop fuel buf' r' in
          if ltb 1 (length buf') && ltb b 0x80 then ok (buf', r') else later
    ] in
    if ltb 5 (length buf) then err malformed_length else read

-- A loop that starts with `l` at most 5 ends within six bytes, and then says so.
unfoldable pub get_message_buffer : Reader → Read Bytes
unfolding header_loop
get_message_buffer r = elim (header_loop 7 [] r) [
  | err e ↦ err e
  | ok (buf, r') ↦
      let remlen = (uvarint (drop 1 buf)).0 in
      if leb remlen (length r'.bytes) then ok (buf ++ take remlen r'.bytes) else err r'.ending
]
