-- ===== src/Service/Buffer/Fifo.antt =====
-- The ring as a queue of bytes: those that were written and not yet read, oldest first.
pub mod Written
mod Slice
pub mod Taken
pub mod Placed
pub mod Trace
pub mod Filled
use Prim.Native.Nat.{bit_and}
use xmqtt.Prelude.{ℕ, zero, suc, Bytes, [], ◌∷◌, ◌++◌, ◌≡◌, refl, ap, sym, ◌∙◌, arith, Option, some}
use xmqtt.Prelude.{◌+◌, ◌-◌, ◌<◌, ◌≤◌, ◌%◌, ◌^◌, length, take, drop, get_elem?, bit_and-ones}
use xmqtt.Prelude.{length-append, length-drop, length-take, min, inl, inr, subst, Bool, lt_or_le}
use xmqtt.Prelude.Rotation.{
  get_elem?-append_left, get_elem?-append_right, get_elem?-drop, get_elem?-take,
}
use xmqtt.Service.Buffer.{Buffer, close}
use xmqtt.Service.Buffer.Copied.{two_rounds, two_rounds-in, two_rounds-out, length-two_rounds}
use native.Mathlib.Nat.{mod-add-mod, mod-lt, mod-eq_of_lt, add-mod_right}

-- The bytes `bs` wait in the ring: the oldest at the consumer's position, the others behind it round
-- the ring, up to the producer's position.
pub record Contains (b : Buffer) (bs : Bytes) : Type 0 where
  pub bits : ℕ
  pub power : b.size ≡ 2 ^ bits
  pub masked : b.mask ≡ b.size - 1
  pub whole : length b.buf ≡ b.size
  pub positive : 0 < b.size
  pub counted : b.cseq + length bs ≡ b.pseq
  pub fits : length bs ≤ b.size
  pub known : b.gate ≤ b.cseq
  pub stands : (k : ℕ) → k < length bs → get_elem? b.buf ((b.cseq + k) % b.size) ≡ get_elem? bs k

-- The mask takes a position to its place in the ring.
pub Contains-place :
    (b : Buffer) (bs : Bytes) (n : ℕ) → Contains b bs → bit_and n b.mask ≡ n % b.size
Contains-place b bs n w =
    ap (bit_and n) (w.masked ∙ ap (λ s. s - 1) w.power)
    ∙ bit_and-ones n w.bits
    ∙ ap (λ s. n % s) (sym w.power)

module _ (b : Buffer) (bs : Bytes) (w : Contains b bs) where
  -- Only the positions, what the producer knows of them and the bytes count.
  pub Contains-noted :
      (cwait pwait : ℕ) (tmp : Bytes) (closed : Bool)
      → Contains (record b { cwait = cwait; pwait = pwait; tmp = tmp; closed = closed }) bs
  Contains-noted cwait pwait tmp closed = record {
    bits = w.bits;
    power = w.power;
    masked = w.masked;
    whole = w.whole;
    positive = w.positive;
    counted = w.counted;
    fits = w.fits;
    known = w.known;
    stands = w.stands;
  }

  pub Contains-seen : Contains (record b { gate = b.cseq }) bs
  Contains-seen = record {
    bits = w.bits;
    power = w.power;
    masked = w.masked;
    whole = w.whole;
    positive = w.positive;
    counted = w.counted;
    fits = w.fits;
    known = omega arith;
    stands = w.stands;
  }

  -- The consumer's position moves over `n` bytes.
  pub Contains-consumed :
      (n : ℕ) → n ≤ length bs → Contains (record b { cseq = b.cseq + n }) (drop n bs)
  Contains-consumed n h = record {
    bits = w.bits;
    power = w.power;
    masked = w.masked;
    whole = w.whole;
    positive = w.positive;
    counted = omega (arith, w.counted, length-drop n bs);
    fits = omega (arith, w.fits, length-drop n bs);
    known = omega (arith, w.known);
    stands = λ k l.
        ap (λ i. get_elem? b.buf (i % b.size)) {x = b.cseq + n + k} {y = b.cseq + (n + k)}
          (omega arith)
        ∙ w.stands (n + k) (omega (arith, l, length-drop n bs))
        ∙ sym (get_elem?-drop n bs k);
  }

  module _ (p : Bytes) (room : length bs + length p ≤ b.size) where
    abbrev ring : Bytes
    ring = two_rounds b.buf p (b.pseq % b.size)

    start_inside : b.pseq % b.size < length b.buf
    start_inside =
        subst (λ s. b.pseq % b.size < s) (sym w.whole) (mod-lt b.pseq {m = b.size} w.positive)

    p_fits : length p ≤ length b.buf
    p_fits = omega (arith, room, w.whole)

    -- Places are counted from the start that is copied to.
    place : (j : ℕ) → (b.pseq % b.size + j) % length b.buf ≡ (b.pseq + j) % b.size
    place j = ap (λ s. (b.pseq % b.size + j) % s) w.whole ∙ mod-add-mod b.pseq b.size j

    -- An old byte stands behind the new ones, counted from there round the ring.
    round :
        (k : ℕ)
        → k < length bs
        → (b.cseq + k) % b.size ≡ (b.pseq % b.size + (b.size - length bs + k)) % length b.buf
    round k l = sym (
        place (b.size - length bs + k)
        ∙ ap (λ i. i % b.size) {y = b.cseq + k + b.size} (omega (arith, w.counted, w.fits))
        ∙ add-mod_right (b.cseq + k) b.size)

    old : (k : ℕ) → k < length bs → get_elem? ring ((b.cseq + k) % b.size) ≡ get_elem? (bs ++ p) k
    old k l =
        ap (get_elem? ring) (round k l)
        ∙ two_rounds-out b.buf p (b.pseq % b.size) start_inside p_fits (b.size - length bs + k)
            (omega (arith, room)) (omega (arith, l, w.whole, w.fits))
        ∙ ap (get_elem? b.buf) (sym (round k l))
        ∙ w.stands k l
        ∙ sym (get_elem?-append_left bs p k l)

    new :
        (k : ℕ)
        → length bs ≤ k
        → k < length (bs ++ p)
        → get_elem? ring ((b.cseq + k) % b.size) ≡ get_elem? (bs ++ p) k
    new k h l =
        ap (λ i. get_elem? ring (i % b.size)) {y = b.pseq + (k - length bs)}
          (omega (arith, w.counted, h))
        ∙ ap (get_elem? ring) (sym (place (k - length bs)))
        ∙ two_rounds-in b.buf p (b.pseq % b.size) start_inside p_fits (k - length bs)
            (omega (arith, l, h, length-append bs p))
        ∙ sym (get_elem?-append_right bs p k h)

    -- The bytes `p` are copied in from the producer's position on, and it moves over them.
    pub Contains-produced : Contains (record b { buf = ring; pseq = b.pseq + length p }) (bs ++ p)
    Contains-produced = record {
      bits = w.bits;
      power = w.power;
      masked = w.masked;
      whole = length-two_rounds b.buf p (b.pseq % b.size) ∙ w.whole;
      positive = w.positive;
      counted = omega (arith, w.counted, length-append bs p);
      fits = omega (arith, room, length-append bs p);
      known = w.known;
      stands = λ k l. elim (lt_or_le k (length bs)) [ inl h ↦ old k h | inr h ↦ new k h l ];
    }

    -- Until then the copied bytes change nothing that waits.
    pub Contains-over : Contains (record b { buf = ring }) bs
    Contains-over = record {
      bits = w.bits;
      power = w.power;
      masked = w.masked;
      whole = length-two_rounds b.buf p (b.pseq % b.size) ∙ w.whole;
      positive = w.positive;
      counted = w.counted;
      fits = w.fits;
      known = w.known;
      stands = λ k l. old k l ∙ get_elem?-append_left bs p k l;
    }
