-- ===== src/Service/Buffer/Positions.antt =====
-- The positions of the two sides, whatever either does.
use Prim.Native.Nat.{bit_and}
use xmqtt.Prelude.{Option, ℕ, zero, suc, Bytes, [], ◌∷◌, ◌≤◌, ◌+◌, ◌-◌, ◌≡◌, refl}
use xmqtt.Prelude.{arith, length, take, drop, length-take, length-drop, if_both, ap}
use xmqtt.Service.Buffer.{
  Buffer, Io, ok, fail, blocks, wait_for_write_space, write, put, write_commit,
}
use xmqtt.Service.Buffer.{
  write_wait, copy_at, ring_copy, close, read_from_round, read_block_size, fill, got, spaced,
}
use xmqtt.Service.Buffer.Reading.{
  read_peek, read_wait, read_commit, read, write_to_round, handed, written_out,
}

-- The consumer is never ahead of the producer, nor more than a ring behind; and what the producer
-- knows of the consumer's position is not ahead of it.
pub record IsValid (b : Buffer) : Type 0 where
  pub behind : b.cseq ≤ b.pseq
  pub within : b.pseq ≤ b.cseq + b.size
  pub known : b.gate ≤ b.cseq
  pub whole : length b.buf ≡ b.size

pub length-copy_at : (dst : Bytes) (i : ℕ) (src : Bytes) → length (copy_at dst i src) ≡ length dst
unfolding copy_at
length-copy_at [] i src = refl
length-copy_at (d ∷ ds) (suc i) src = ap suc (length-copy_at ds i src)
length-copy_at (d ∷ ds) zero [] = refl
length-copy_at (d ∷ ds) zero (x ∷ src) = ap suc (length-copy_at ds zero src)

pub length-ring_copy :
    (fuel : ℕ) (dst src : Bytes) (start : ℕ) → length (ring_copy fuel dst src start) ≡ length dst
unfolding ring_copy
length-ring_copy zero dst src start = refl
length-ring_copy (suc fuel) dst src start = ground (
  arith,
  length-ring_copy fuel (copy_at dst start src) (drop (length dst - start) src) 0,
  length-copy_at dst start src,
)

-- What the call leaves, and what it promises where it lets the producer through.
pub wait_for_write_space-IsValid :
    (n : ℕ) (b : Buffer) → IsValid b → IsValid (wait_for_write_space n b).0
unfolding wait_for_write_space
wait_for_write_space-IsValid n b v = ground arith

-- Where `waitForWriteSpace` lets the producer through, the position returned is the producer's, the
-- count is the one asked for, and that many bytes fit before the oldest byte that the consumer has
-- not read, though the producer may know only an older position of the consumer.
pub wait_for_write_space_fits :
    (n : ℕ) (b b' : Buffer) (start cnt : ℕ)
    → IsValid b
    → wait_for_write_space n b ≡ (b', ok (start, cnt))
    → (start ≡ b.pseq) × (cnt ≡ n) × (b.pseq + n ≤ b.cseq + b.size)
unfolding wait_for_write_space
wait_for_write_space_fits n b b' start cnt v e = ground arith

pub write-IsValid : (p : Bytes) (b : Buffer) → IsValid b → IsValid (write p b).0
unfolding write put
write-IsValid p b v = ground (arith, length-ring_copy (length p) b.buf p (bit_and b.pseq b.mask))

pub write_commit-IsValid : (n : ℕ) (b : Buffer) → IsValid b → IsValid (write_commit n b).0
unfolding write_commit
write_commit-IsValid n b v = ground arith

pub read_commit-IsValid : (n : ℕ) (b : Buffer) → IsValid b → IsValid (read_commit n b).0
unfolding read_commit
read_commit-IsValid n b v = ground arith

pub read_peek-IsValid : (n : ℕ) (b : Buffer) → IsValid b → IsValid (read_peek n b).0
unfolding read_peek
read_peek-IsValid n b v = ground arith

pub read_wait-IsValid : (n : ℕ) (b : Buffer) → IsValid b → IsValid (read_wait n b).0
unfolding read_wait
read_wait-IsValid n b v = ground arith

pub write_wait-IsValid : (n : ℕ) (b : Buffer) → IsValid b → IsValid (write_wait n b).0
unfolding write_wait
write_wait-IsValid n b v = ground arith

pub read-IsValid : (pl : ℕ) (b : Buffer) → IsValid b → IsValid (read pl b).0
unfolding read
read-IsValid pl b v =
    let c = bit_and b.cseq b.mask in
    let left = drop c b.buf in
    let there = b.pseq - b.cseq in
    ground (
      arith,
      length-drop c b.buf,
      length-take pl left,
      length-take there left,
      length-take pl (take there left),
    )

pub close-IsValid : (b : Buffer) → IsValid b → IsValid (close b)
unfolding close
close-IsValid b v = ground arith

filled : Bytes → ℕ → ℕ → Buffer → Buffer
filled input start cnt b = record b {
  buf = copy_at b.buf (bit_and start b.mask) (got input start cnt b);
}

filled-IsValid :
    (input : Bytes) (start cnt : ℕ) (b : Buffer) → IsValid b → IsValid (filled input start cnt b)
unfolding filled
filled-IsValid input start cnt b v =
    ground (arith, length-copy_at b.buf (bit_and start b.mask) (got input start cnt b))

fill-IsValid :
    (input : Bytes) (start cnt : ℕ) (b : Buffer) → IsValid b → IsValid (fill input start cnt b).0
fill-IsValid input start cnt b v =
    unfold fill filled in
    ground (
      arith,
      write_commit-IsValid (length (got input start cnt b)) (filled input start cnt b)
          (filled-IsValid input start cnt b v),
      filled-IsValid input start cnt b v,
    )

after_space :
    (input : Bytes) (b' : Buffer) (r : Io (ℕ × ℕ)) → IsValid b' → IsValid (spaced input b' r).0
after_space input b' (fail e) v = v
after_space input b' blocks v = v
after_space input b' (ok (start, cnt)) v = fill-IsValid input start cnt b' v

pub read_from_round-IsValid :
    (input : Bytes) (b : Buffer) → IsValid b → IsValid (read_from_round input b).0
unfolding read_from_round
read_from_round-IsValid input b v =
    if_both (λ (r : Buffer × Io ℕ). IsValid r.0) b.closed v
      (after_space input _ _ (wait_for_write_space-IsValid read_block_size b v))

pub write_to_round-IsValid :
    (w : Bytes → Option ℕ) (block : ℕ) (b : Buffer)
    → IsValid b
    → IsValid (write_to_round w block b).0
unfolding write_to_round handed written_out
write_to_round-IsValid w block b v = ground arith
