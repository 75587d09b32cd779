-- ===== src/Service/SendRecv/Sent.antt =====
-- What `writeMessage` leaves for the sender.
use Prim.Native.Nat.{bit_and}
use xmqtt.Prelude.{ℕ, Bytes, true, some, ◌++◌, ◌≡◌, sym, arith, subst}
use xmqtt.Prelude.{◌+◌, ◌<◌, ◌≤◌, length, if_each, ltb}
use xmqtt.Message.{PacketLib}
use xmqtt.Service.Buffer.{Buffer, Io, ok, fail, blocks, write_wait, free_block, write}
use xmqtt.Service.Buffer.Fifo.{Contains, Contains-noted, Contains-seen, Contains-place}
use xmqtt.Service.Buffer.Fifo.Written.{
  Whole, write-Whole, write_commit-Whole, wait_for_write_space-cases,
}
use xmqtt.Service.SendRecv.{Tried, got, failed, waits, counted, encoded_at, write_in_ring}

-- The message's bytes wait behind the others, all of them; or none, because the ring is closed or has
-- no room for `l` bytes.
abbrev pub SendsWhole : ℕ → Bytes → Bytes → Buffer × Tried ℕ → Type 0
SendsWhole l bs p (b, got n) = (n ≡ length p) × Contains b (bs ++ p)
SendsWhole l bs p (b, failed e) = (b.closed ≡ true) × Contains b bs
SendsWhole l bs p (b, waits) = (b.size < length bs + l) × Contains b bs

module _ (lib : PacketLib) where
  open lib use {messages, wire}
  open messages use {Message}

  Whole-SendsWhole :
      (l : ℕ) (bs p : Bytes) (r : Buffer × Io ℕ)
      → length p ≤ l
      → Whole bs p r
      → SendsWhole l bs p (counted lib r)
  Whole-SendsWhole l bs p (b, ok n) h w = w
  Whole-SendsWhole l bs p (b, fail e) h w = w
  Whole-SendsWhole l bs p (b, blocks) h (few, w) = (omega (arith, few, h), w)

  -- Both ways through the space that was given come to the same.
  encoded_at-SendsWhole :
      (m : Message) (p : Bytes) (l : ℕ) (b : Buffer) (bs : Bytes)
      → Contains b bs
      → length p ≤ l
      → length bs + l ≤ b.size
      → SendsWhole l bs p (encoded_at lib (some (m, p)) (free_block b (ok (b.pseq, l))))
  unfolding encoded_at
  encoded_at-SendsWhole m p l b bs w law room =
      if_each (λ x. SendsWhole l bs p (encoded_at lib (some (m, p)) (b, ok x)))
        (ltb b.size (bit_and b.pseq b.mask + l))
        (λ e. Whole-SendsWhole l bs p (write p b) law (write-Whole p b bs w))
        (λ e. Whole-SendsWhole l bs p _ law (
          write_commit-Whole p b bs w (omega (arith, law, room))
            (ground (arith, e, law, w.whole, Contains-place b bs b.pseq w))))

  -- A message that encodes, to no more bytes than its `Len`, is put by `writeMessage` behind whatever
  -- waits in the ring, all its bytes and in order, whether the space lies before the end of the ring or
  -- goes round it, and their number is returned; or what waits is unchanged, and then the ring is
  -- closed or has no room for `Len` bytes.
  pub write_in_ring-SendsWhole :
      (msg m : Message) (p : Bytes) (b : Buffer) (bs : Bytes)
      → Contains b bs
      → wire msg ≡ some (m, p)
      → length p ≤ messages.len msg
      → SendsWhole (messages.len msg) bs p (write_in_ring lib msg b)
  unfolding write_in_ring write_wait
  write_in_ring-SendsWhole msg m p b bs w e law =
      subst
        (λ o.
          SendsWhole (messages.len msg) bs p (encoded_at lib o (write_wait (messages.len msg) b)))
        (sym e)
        (wait_for_write_space-cases (messages.len msg) b bs w
          (λ r.
            SendsWhole (messages.len msg) bs p (encoded_at lib (some (m, p)) (free_block r.0 r.1)))
          (λ c. unfold encoded_at in (c, w))
          (λ l.
            unfold encoded_at in (l, Contains-noted b bs w b.cwait (b.pwait + 1) b.tmp b.closed))
          (λ room.
            encoded_at-SendsWhole m p (messages.len msg) (record b { gate = b.cseq }) bs
              (Contains-seen b bs w) law room)
          (λ room. encoded_at-SendsWhole m p (messages.len msg) b bs w law room))
