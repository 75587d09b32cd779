-- ===== src/Service/Buffer/Tests.antt =====
-- The theorems at concrete buffers, and runs of one.
use xmqtt.Prelude.{Bytes, false, [], ◌∷◌, ◌≡◌, refl, arith}
use xmqtt.Service.Buffer.{Buffer, ok, blocks, fresh}
use xmqtt.Service.Buffer.{wait_for_write_space, write, copy_at}
use xmqtt.Service.Buffer.Reading.{read_peek, read_commit, read_wait}
use xmqtt.Service.Buffer.Positions.{IsValid}
use xmqtt.Service.Buffer.Fifo.Trace.{take_out}

-- Eight places, with the bytes 1 and 2 at positions 6 and 7; the producer still knows position 3.
abbrev small : Buffer
small = record {
  buf = 0 ∷ 0 ∷ 0 ∷ 0 ∷ 0 ∷ 0 ∷ 1 ∷ 2 ∷ [];
  tmp = [];
  size = 8;
  mask = 7;
  closed = false;
  pseq = 8;
  gate = 3;
  cseq = 6;
  cwait = 0;
  pwait = 0;
}

small-IsValid : IsValid small
small-IsValid = omega arith

space_in_small : wait_for_write_space 5 small ≡ (record small { gate = 6 }, ok (8, 5))
unfolding wait_for_write_space
space_in_small = refl

no_space_in_small : wait_for_write_space 7 small ≡ (record small { pwait = 1 }, blocks)
unfolding wait_for_write_space
no_space_in_small = refl

-- Three bytes are written round the end, and five are peeked.
peeked : (read_peek 5 (write (3 ∷ 4 ∷ 5 ∷ []) small).0).1 ≡ ok (1 ∷ 2 ∷ 3 ∷ 4 ∷ 5 ∷ [], false)
unfolding read_peek write copy_at
peeked = refl

abbrev three : Bytes
three = 1 ∷ 2 ∷ 3 ∷ []

abbrev with_three : Buffer
with_three = (write three (fresh 16384)).0

taken_two : ((write three (fresh 16384)).1 ≡ ok 3) × ((take_out 2 with_three).1 ≡ ok (1 ∷ 2 ∷ []))
unfolding write fresh copy_at take_out read_wait read_commit
taken_two = (refl, refl)
