-- ===== src/Service/Buffer.antt =====
-- `buffer` of service/buffer.go: the byte ring between the one producer and the one consumer of a
-- connection. A position is an int64 that only grows; it is below 2^63 on any real stream.
-- A call that has to wait for the other side gives `blocks`, and is made again later: the code
-- reads the other side's position again and keeps its own.
pub mod Reading
pub mod Positions
pub mod Runs
pub mod Copied
pub mod Fifo
mod Tests
use Prim.Native.Nat.{bit_and}
use xmqtt.Prelude.{ℕ, zero, suc, Bytes, Bool, true, false, Option, none, some, List, [], ◌∷◌, ◌++◌}
use xmqtt.Prelude.{◌==◌, ltb, leb, if◌then◌else◌, ◌&&◌, ◌||◌, not, length, take, drop, replicate}
use xmqtt.Prelude.{◌+◌, ◌-◌, ◌*◌}

-- `insufficient` is ErrBufferInsufficientData, `full` bufio.ErrBufferFull; `write_failed` stands for
-- the error of the writer that `WriteTo` is given.
pub data IoError : Type 0 where
  eof full insufficient write_failed not_power_of_two too_small : IoError

pub data Io {ℓ} (A : Type ℓ) : Type ℓ where
  ok : A → Io A
  fail : IoError → Io A
  blocks : Io A

-- `pseq` and `cseq` are the cursors of the two sequences, `gate` is `pseq.gate`.
pub record Buffer : Type 0 where
  pub buf : Bytes
  pub tmp : Bytes
  pub size : ℕ
  pub mask : ℕ
  pub closed : Bool
  pub pseq : ℕ
  pub gate : ℕ
  pub cseq : ℕ
  pub cwait : ℕ
  pub pwait : ℕ

abbrev pub default_buffer_size : ℕ
default_buffer_size = 1024 * 256

abbrev pub read_block_size : ℕ
read_block_size = 8192

unfoldable pub power_of_two64 : ℕ → Bool
power_of_two64 n = not (n == 0) && bit_and n (n - 1) == 0

-- The literal at the end of `newBuffer`.
unfoldable pub fresh : ℕ → Buffer
fresh size = record {
  buf = replicate size 0;
  tmp = [];
  size = size;
  mask = size - 1;
  closed = false;
  pseq = 0;
  gate = 0;
  cseq = 0;
  cwait = 0;
  pwait = 0;
}

pub sized : ℕ → Io Buffer
unfolding power_of_two64
sized size =
    if not (power_of_two64 size)
    then fail not_power_of_two
    else if ltb size (2 * read_block_size)
    then fail too_small
    else ok (fresh size)

pub new_buffer : ℕ → Io Buffer
unfolding sized
new_buffer n = sized (if n == 0 then default_buffer_size else n)

unfoldable pub close : Buffer → Buffer
close b = record b { closed = true }

unfoldable pub len : Buffer → ℕ
len b = b.pseq - b.cseq

-- `wrap > gate` is `next - size > gate`, on signed numbers. The producer may write `n` bytes from
-- the position that is returned.
unfoldable pub wait_for_write_space : ℕ → Buffer → Buffer × Io (ℕ × ℕ)
wait_for_write_space n b =
    let next = b.pseq + n in
    if b.closed
    then (b, fail eof)
    else if ltb (b.gate + b.size) next || ltb b.pseq b.gate
    then (if ltb (b.cseq + b.size) next
        then (record b { pwait = b.pwait + 1 }, blocks)
        else (record b { gate = b.cseq }, ok (b.pseq, n)))
    else (b, ok (b.pseq, n))

-- `copy(dst[start:], src)`: what does not fit is left out.
unfoldable pub copy_at : Bytes → ℕ → Bytes → Bytes
copy_at [] i src = []
copy_at (d ∷ ds) (suc i) src = d ∷ copy_at ds i src
copy_at (d ∷ ds) zero [] = d ∷ ds
copy_at (d ∷ ds) zero (x ∷ src) = x ∷ copy_at ds zero src

-- `ringCopy`, with its rounds as fuel: the first round stops at the end of the ring, and each later
-- one starts at 0.
unfoldable pub ring_copy : ℕ → Bytes → Bytes → ℕ → Bytes
ring_copy zero dst src start = dst
ring_copy (suc fuel) dst src start =
    let fits = length dst - start in
    let rest = ring_copy fuel (copy_at dst start src) (drop fits src) 0 in
    if length src == 0 then dst else rest

-- The end of `Write`, in the space that was given.
unfoldable pub put : Bytes → Buffer → Io (ℕ × ℕ) → Buffer × Io ℕ
unfolding ring_copy
put p b (fail e) = (b, fail e)
put p b blocks = (b, blocks)
put p b (ok (start, n)) = (
  record b { buf = ring_copy (length p) b.buf p (bit_and start b.mask); pseq = start + length p },
  ok (length p),
)

unfoldable pub write : Bytes → Buffer → Buffer × Io ℕ
unfolding wait_for_write_space put
write p b = let (b', r) = wait_for_write_space (length p) b in put p b' r

-- The slice to fill, as its place and length, and whether the space goes round the end.
abbrev pub free_block : Buffer → Io (ℕ × ℕ) → Buffer × Io (ℕ × ℕ × Bool)
free_block b (fail e) = (b, fail e)
free_block b blocks = (b, blocks)
free_block b (ok (start, cnt)) =
    let pstart = bit_and start b.mask in
    (
      b,
      ok (
          if ltb b.size (pstart + cnt)
          then (pstart, b.size - pstart, true)
          else (pstart, cnt, false)),
    )

unfoldable pub write_wait : ℕ → Buffer → Buffer × Io (ℕ × ℕ × Bool)
unfolding wait_for_write_space
write_wait n b = let (b', r) = wait_for_write_space n b in free_block b' r

abbrev pub moved : Buffer → Io (ℕ × ℕ) → Buffer × Io ℕ
moved b (fail e) = (b, fail e)
moved b blocks = (b, blocks)
moved b (ok (start, cnt)) = (record b { pseq = start + cnt }, ok cnt)

unfoldable pub write_commit : ℕ → Buffer → Buffer × Io ℕ
unfolding wait_for_write_space
write_commit n b = let (b', r) = wait_for_write_space n b in moved b' r

-- `r.Read(this.buf[pstart:pend])`: what of the input fits the block.
abbrev pub got : Bytes → ℕ → ℕ → Buffer → Bytes
got input start cnt b =
    let pstart = bit_and start b.mask in
    take ((if ltb b.size (pstart + cnt) then b.size else pstart + cnt) - pstart) input

-- What `r.Read` puts into the free block from the producer's position on, and its commit.
unfoldable pub fill : Bytes → ℕ → ℕ → Buffer → Buffer × Io ℕ
unfolding write_commit
fill input start cnt b =
    let n = length (got input start cnt b) in
    let b' = record b { buf = copy_at b.buf (bit_and start b.mask) (got input start cnt b) } in
    if ltb 0 n then write_commit n b' else (b', ok 0)

abbrev pub spaced : Bytes → Buffer → Io (ℕ × ℕ) → Buffer × Io ℕ
spaced input b (fail e) = (b, fail e)
spaced input b blocks = (b, blocks)
spaced input b (ok (start, cnt)) = fill input start cnt b

-- One round of `ReadFrom`: `input` is what the reader has at hand at this call of `Read`, which may be
-- less than what is still to come, and of which it gives what fits the block.
-- The result is what the round has read, and `fail` ends the loop.
unfoldable pub read_from_round : Bytes → Buffer → Buffer × Io ℕ
unfolding wait_for_write_space fill
read_from_round input b =
    if b.closed
    then (b, fail eof)
    else (let (b', r) = wait_for_write_space read_block_size b in spaced input b' r)
