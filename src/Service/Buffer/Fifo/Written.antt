-- ===== src/Service/Buffer/Fifo/Written.antt =====
-- What the producer's calls add.
use Prim.Native.Nat.{bit_and}
use xmqtt.Prelude.{true, ℕ, Bytes, [], ◌++◌, ◌≡◌, refl, ap, sym, ◌∙◌, arith, subst}
use xmqtt.Prelude.{
  ◌+◌, ◌-◌, ◌<◌, ◌≤◌, ◌%◌, length, length-take, take_all, take_taken, if◌then◌else◌, take, if_both,
  if_each, ltb, ◌||◌, append-nil,
}
use xmqtt.Service.Buffer.{
  Buffer, Io, ok, fail, blocks, IoError, eof, wait_for_write_space, write, put,
}
use xmqtt.Service.Buffer.{
  read_from_round, spaced, fill, got, read_block_size, ring_copy, copy_at, write_commit, moved,
}
use xmqtt.Service.Buffer.Copied.{ring_copy_rounds, two_rounds-fits, two_rounds}
use native.Mathlib.Nat.{mod-lt}
use xmqtt.Service.Buffer.Fifo.{
  Contains, Contains-produced, Contains-over, Contains-noted, Contains-seen, Contains-place,
}

-- What a call that was given `p` has taken of it.
abbrev pub accepted : Bytes → Io ℕ → Bytes
accepted p (ok n) = take n p
accepted p (fail e) = []
accepted p blocks = []

module _ (n : ℕ) (b : Buffer) (bs : Bytes) (w : Contains b bs) where
  -- The ends of `waitForWriteSpace`: where it gives space, the bytes have room.
  pub wait_for_write_space-cases :
      (P : Buffer × Io (ℕ × ℕ) → Type 0)
      → (b.closed ≡ true → P (b, fail eof))
      → (b.size < length bs + n → P (record b { pwait = b.pwait + 1 }, blocks))
      → (length bs + n ≤ b.size → P (record b { gate = b.cseq }, ok (b.pseq, n)))
      → (length bs + n ≤ b.size → P (b, ok (b.pseq, n)))
      → P (wait_for_write_space n b)
  unfolding wait_for_write_space
  wait_for_write_space-cases P shut full seen free = if_each P b.closed shut (λ c.
      (if_each P (ltb (b.gate + b.size) (b.pseq + n) || ltb b.pseq b.gate)
        (λ e.
          if_each P (ltb (b.cseq + b.size) (b.pseq + n)) (λ h. full (ground (arith, h, w.counted)))
            (λ h. seen (ground (arith, w.counted))))
        (λ e. free (ground (arith, w.counted, w.known)))))

-- What one of the producer's calls leaves waits behind what waited.
abbrev pub Adds : Bytes → Bytes → Buffer × Io ℕ → Type 0
Adds bs p r = Contains r.0 (bs ++ accepted p r.1)

pub Adds-none : (bs p : Bytes) (b : Buffer) (e : IoError) → Contains b bs → Adds bs p (b, fail e)
Adds-none bs p b e w = subst (Contains b) (sym (append-nil bs)) w

-- All of the bytes were added; or none, because the ring is closed or has no room for them.
abbrev pub Whole : Bytes → Bytes → Buffer × Io ℕ → Type 0
Whole bs p (b, ok n) = (n ≡ length p) × Contains b (bs ++ p)
Whole bs p (b, fail e) = (b.closed ≡ true) × Contains b bs
Whole bs p (b, blocks) = (b.size < length bs + length p) × Contains b bs

put-Whole :
    (p : Bytes) (b : Buffer) (bs : Bytes)
    → Contains b bs
    → length bs + length p ≤ b.size
    → Whole bs p (put p b (ok (b.pseq, length p)))
unfolding put
put-Whole p b bs w room = (
  refl,
  subst (λ r. Contains (record b { buf = r; pseq = b.pseq + length p }) (bs ++ p)) (sym copied)
      (Contains-produced b bs w p room),
)
  where
    copied :
        ring_copy (length p) b.buf p (bit_and b.pseq b.mask) ≡ two_rounds b.buf p (b.pseq % b.size)
    copied =
        ap (ring_copy (length p) b.buf p) (Contains-place b bs b.pseq w)
        ∙ ring_copy_rounds b.buf p (b.pseq % b.size)
            (subst (λ s. b.pseq % b.size < s) (sym w.whole) (mod-lt b.pseq {m = b.size} w.positive))
            (omega (arith, room, w.whole))

-- `Write` adds all it is given, or nothing.
pub write-Whole : (p : Bytes) (b : Buffer) (bs : Bytes) → Contains b bs → Whole bs p (write p b)
unfolding write
write-Whole p b bs w =
    wait_for_write_space-cases (length p) b bs w (λ r. Whole bs p (put p r.0 r.1))
      (λ c. unfold put in (c, w))
      (λ l. unfold put in (l, Contains-noted b bs w b.cwait (b.pwait + 1) b.tmp b.closed))
      (λ room. put-Whole p (record b { gate = b.cseq }) bs (Contains-seen b bs w) room)
      (λ room. put-Whole p b bs w room)

-- The same, by what the call says it has taken.
pub Whole-Adds :
    (bs input : Bytes) (m : ℕ) (r : Buffer × Io ℕ) → Whole bs (take m input) r → Adds bs input r
Whole-Adds bs input m (b, ok n) (e, w) =
    subst (λ q. Contains b (bs ++ q)) (sym (take_taken m input) ∙ ap (λ k. take k input) (sym e)) w
Whole-Adds bs input m (b, fail e) (c, w) = Adds-none bs input b e w
Whole-Adds bs input m (b, blocks) (l, w) = subst (Contains b) (sym (append-nil bs)) w

pub write-Adds : (p : Bytes) (b : Buffer) (bs : Bytes) → Contains b bs → Adds bs p (write p b)
write-Adds p b bs w =
    Whole-Adds bs p (length p) (write p b)
      (subst (λ q. Whole bs q (write p b)) (sym (take_all p)) (write-Whole p b bs w))

-- Bytes that are put at the producer's place, before the end of the ring, and are committed then.
module _ (p : Bytes) (b : Buffer) (bs : Bytes) (w : Contains b bs)
    (room : length bs + length p ≤ b.size)
    (straight : length p ≤ length b.buf - b.pseq % b.size) where
  abbrev pub placed : Buffer
  placed = record b { buf = copy_at b.buf (bit_and b.pseq b.mask) p }

  one_round : two_rounds b.buf p (b.pseq % b.size) ≡ placed.buf
  one_round =
      two_rounds-fits b.buf p (b.pseq % b.size) straight
      ∙ ap (λ s. copy_at b.buf s p) (sym (Contains-place b bs b.pseq w))

  now_waits : Contains (record placed { pseq = b.pseq + length p }) (bs ++ p)
  now_waits =
      subst (λ r. Contains (record b { buf = r; pseq = b.pseq + length p }) (bs ++ p)) one_round
        (Contains-produced b bs w p room)

  pub placed-Contains : Contains placed bs
  placed-Contains =
      subst (λ r. Contains (record b { buf = r }) bs) one_round (Contains-over b bs w p room)

  pub write_commit-Whole : Whole bs p (write_commit (length p) placed)
  unfolding write_commit
  write_commit-Whole =
      wait_for_write_space-cases (length p) placed bs placed-Contains
        (λ r. Whole bs p (moved r.0 r.1)) (λ c. (c, placed-Contains))
        (λ l. (l, Contains-noted placed bs placed-Contains b.cwait (b.pwait + 1) b.tmp b.closed))
        (λ r. (refl, Contains-seen _ _ now_waits)) (λ r. (refl, now_waits))

block_bounds :
    (size start cnt : ℕ)
    → ((if ltb size (start + cnt) then size else start + cnt) - start ≤ cnt)
      × ((if ltb size (start + cnt) then size else start + cnt) - start ≤ size - start)
block_bounds size start cnt = ground arith

module _ (input : Bytes) (b : Buffer) (bs : Bytes) (w : Contains b bs) (cnt : ℕ)
    (room : length bs + cnt ≤ b.size) where
  abbrev read_in : Bytes
  read_in = got input b.pseq cnt b

  start_inside : b.pseq % b.size < length b.buf
  start_inside =
      subst (λ s. b.pseq % b.size < s) (sym w.whole) (mod-lt b.pseq {m = b.size} w.positive)

  abbrev block : ℕ
  block =
      (if ltb b.size (bit_and b.pseq b.mask + cnt) then b.size else bit_and b.pseq b.mask + cnt)
      - bit_and b.pseq b.mask

  -- The block ends where the ring does.
  got_fits : (length read_in ≤ cnt) × (length read_in ≤ length b.buf - b.pseq % b.size)
  got_fits = omega (
    arith,
    length-take block input,
    block_bounds b.size (bit_and b.pseq b.mask) cnt,
    Contains-place b bs b.pseq w,
    w.whole,
    start_inside,
  )

  fill-Adds : Adds bs input (fill input b.pseq cnt b)
  unfolding fill
  fill-Adds =
      if_both (Adds bs input) (ltb 0 (length read_in))
        (Whole-Adds bs input block _
          (write_commit-Whole read_in b bs w (omega (arith, room, got_fits)) got_fits.1))
        (subst (Contains _) (sym (append-nil bs))
          (placed-Contains read_in b bs w (omega (arith, room, got_fits)) got_fits.1))

-- A round of `ReadFrom` adds the first bytes of the input, as many as it says it has read.
pub read_from_round-Adds :
    (input : Bytes) (b : Buffer) (bs : Bytes)
    → Contains b bs
    → Adds bs input (read_from_round input b)
unfolding read_from_round
read_from_round-Adds input b bs w = if_both (Adds bs input) b.closed (Adds-none bs input b eof w) (
    wait_for_write_space-cases read_block_size b bs w (λ r. Adds bs input (spaced input r.0 r.1))
      (λ c. Adds-none bs input b eof w)
      (λ l.
        subst (Contains _) (sym (append-nil bs))
          (Contains-noted b bs w b.cwait (b.pwait + 1) b.tmp b.closed))
      (λ room.
        fill-Adds input (record b { gate = b.cseq }) bs (Contains-seen b bs w) read_block_size room)
      (λ room. fill-Adds input b bs w read_block_size room))
