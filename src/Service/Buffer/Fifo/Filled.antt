-- ===== src/Service/Buffer/Fifo/Filled.antt =====
-- A round of `ReadFrom` that finds room.
use xmqtt.Prelude.{ℕ, Bytes, false, ◌≡◌, refl, ap, sym, arith, subst, if_each, if_both}
use xmqtt.Prelude.{◌+◌, ◌-◌, ◌<◌, ◌≤◌, length, ltb, length-take}
use xmqtt.Service.Buffer.{Buffer, Io, ok, wait_for_write_space, write_commit}
use xmqtt.Service.Buffer.{read_from_round, spaced, fill, got, read_block_size}
use Prim.Native.Nat.{bit_and}
use native.Mathlib.Nat.{mod-lt}
use xmqtt.Prelude.{if◌then◌else◌}
use xmqtt.Service.Buffer.{copy_at}
use xmqtt.Service.Buffer.Fifo.{Contains, Contains-place, Contains-seen}
use xmqtt.Service.Buffer.Fifo.Written.{wait_for_write_space-cases}

-- The ring's size and whether it is closed are left as they are.
abbrev pub Alike : Buffer → Buffer → Type 0
Alike b c = (c.size ≡ b.size) × (c.closed ≡ b.closed)

wait_for_write_space-Alike : (n : ℕ) (b : Buffer) → Alike b (wait_for_write_space n b).0
unfolding wait_for_write_space
wait_for_write_space-Alike n b = ground arith

write_commit-Alike : (n : ℕ) (b : Buffer) → Alike b (write_commit n b).0
unfolding write_commit
write_commit-Alike n b = ground arith

fill-Alike : (input : Bytes) (start cnt : ℕ) (b : Buffer) → Alike b (fill input start cnt b).0
unfolding fill
fill-Alike input start cnt b =
    if_both (λ (r : Buffer × Io ℕ). Alike b r.0) (ltb 0 (length (got input start cnt b)))
      (write_commit-Alike _ _) (refl, refl)

write_commit_open :
    (n : ℕ) (b : Buffer)
    → b.closed ≡ false
    → b.pseq + n ≤ b.cseq + b.size
    → (write_commit n b).1 ≡ ok n
unfolding write_commit
write_commit_open n b o room = ground (arith, o, room)

fill_all :
    (input : Bytes) (cnt : ℕ) (b : Buffer)
    → b.closed ≡ false
    → b.pseq + length (got input b.pseq cnt b) ≤ b.cseq + b.size
    → (fill input b.pseq cnt b).1 ≡ ok (length (got input b.pseq cnt b))
unfolding fill
fill_all input cnt b o room =
    let n = length (got input b.pseq cnt b) in
    if_each (λ (r : Buffer × Io ℕ). r.1 ≡ ok n) (ltb 0 n)
      (λ e.
        write_commit_open n
          (record b { buf = copy_at b.buf (bit_and b.pseq b.mask) (got input b.pseq cnt b) }) o
          room)
      (λ e. ap ok (ground (arith, e)))

-- The round has read something of what there was, and the ring is as open as before.
abbrev pub Fills : Buffer → Bytes → Buffer × Io ℕ → Type 0
Fills b input r =
    (n : ℕ) × (r.1 ≡ ok n) × (0 < length input → 0 < n) × (n ≤ length input) × Alike b r.0

block_range :
    (size start cnt : ℕ)
    → 0 < cnt
    → start < size
    → (0 < (if ltb size (start + cnt) then size else start + cnt) - start)
      × ((if ltb size (start + cnt) then size else start + cnt) - start ≤ cnt)
block_range size start cnt pos inside = ground (arith, pos, inside)

module _ (input : Bytes) (b : Buffer) (bs : Bytes) (w : Contains b bs) (o : b.closed ≡ false)
    (cnt : ℕ) (pos : 0 < cnt) (room : length bs + cnt ≤ b.size) where
  abbrev block : ℕ
  block =
      (if ltb b.size (bit_and b.pseq b.mask + cnt) then b.size else bit_and b.pseq b.mask + cnt)
      - bit_and b.pseq b.mask

  place_inside : bit_and b.pseq b.mask < b.size
  place_inside =
      subst (λ i. i < b.size) (sym (Contains-place b bs b.pseq w))
        (mod-lt b.pseq {m = b.size} w.positive)

  block_bounds : (0 < block) × (block ≤ cnt)
  block_bounds = block_range b.size (bit_and b.pseq b.mask) cnt pos place_inside

  fill-Fills : Fills b input (fill input b.pseq cnt b)
  fill-Fills = (
    length (got input b.pseq cnt b),
    fill_all input cnt b o (omega (arith, room, w.counted, length-take block input, block_bounds)),
    omega (arith, length-take block input, block_bounds),
    omega (arith, length-take block input),
    fill-Alike input b.pseq cnt b,
  )

-- A round of `ReadFrom` on an open ring with room for a block reads some of what there is.
pub read_from_round-Fills :
    (input : Bytes) (b : Buffer) (bs : Bytes)
    → Contains b bs
    → b.closed ≡ false
    → length bs + read_block_size ≤ b.size
    → Fills b input (read_from_round input b)
unfolding read_from_round
read_from_round-Fills input b bs w o room =
    if_each (Fills b input) b.closed (λ c. absurd (ground (arith, c, o)))
      (λ c.
        wait_for_write_space-cases read_block_size b bs w
          (λ r. Fills b input (spaced input r.0 r.1)) (λ c. absurd (ground (arith, c, o)))
          (λ l. absurd (omega (arith, l, room)))
          (λ room.
            fill-Fills input (record b { gate = b.cseq }) bs (Contains-seen b bs w) o
              read_block_size (omega arith) room)
          (λ room. fill-Fills input b bs w o read_block_size (omega arith) room))
