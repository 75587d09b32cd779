-- ===== src/Service/Buffer/Fifo/Taken.antt =====
-- What the consumer's calls take.
use Prim.Native.Nat.{bit_and}
use xmqtt.Prelude.{ℕ, Bytes, Bool, true, false, [], ◌++◌, ◌≡◌, refl, ap, sym, ◌∙◌, arith, subst}
use xmqtt.Prelude.{◌+◌, ◌-◌, ◌<◌, ◌≤◌, ◌%◌, length, take, drop, if_both, if_each, ltb, leb}
use xmqtt.Prelude.{
  length-take, length-drop, take_taken, take_part, take-append-drop, if◌then◌else◌, ◌&&◌, ◌==◌,
}
use xmqtt.Service.Buffer.{Buffer, Io, ok, fail, blocks, eof, full, IoError, len}
use xmqtt.Service.Buffer.Reading.{read_wait, read_peek, read_commit, read, consume}
use xmqtt.Service.Buffer.Fifo.{Contains, Contains-noted, Contains-place, Contains-consumed}
use xmqtt.Service.Buffer.Fifo.Slice.{slice_oldest, straight, inside}

module _ (b : Buffer) (bs : Bytes) (w : Contains b bs) where
  pub Contains-tmp : (t : Bytes) → Contains (record b { tmp = t }) bs
  Contains-tmp t = Contains-noted b bs w b.cwait b.pwait t b.closed

  -- The ends of `ReadWait`: where it gives bytes, they are the oldest that wait.
  pub read_wait-cases {ℓ} :
      (n : ℕ) (P : Buffer × Io Bytes → Type ℓ)
      → (b.size < n → P (b, fail full))
      → (length bs < n → b.closed ≡ true → P (b, fail eof))
      → (length bs < n → b.closed ≡ false → P (b, blocks))
      → ((t : Bytes) → n ≤ length bs → P (record b { tmp = t }, ok (take n bs)))
      → P (read_wait n b)
  unfolding read_wait
  read_wait-cases n P big shut short there =
      if_each P (ltb b.size n) (λ e. big (ground (arith, e)))
        (λ f.
          if_each P (ltb b.pseq (b.cseq + n))
            (λ e.
              let few : length bs < n = ground (arith, e, w.counted) in
              if_each P b.closed (shut few) (short few))
            (λ e.
              let enough : n ≤ length bs = ground (arith, e, w.counted) in
              let (t, oldest) = slice_oldest b bs w n enough in
              subst (λ (r : Buffer × Bytes). P (r.0, ok r.1)) (sym oldest) (there t enough)))

  -- The ends of `ReadPeek`, which may give fewer.
  pub read_peek-cases :
      (n : ℕ) (P : Buffer × Io (Bytes × Bool) → Type 0)
      → P (b, fail full)
      → P (b, fail eof)
      → P (record b { cwait = b.cwait + 1 }, blocks)
      → ((t : Bytes) (m : ℕ) (short : Bool)
          → m ≤ length bs
          → P (record b { tmp = t }, ok (take m bs, short)))
      → P (read_peek n b)
  unfolding read_peek
  read_peek-cases n P big shut short there =
      let m = if leb n (b.pseq - b.cseq) then n else b.pseq - b.cseq in
      let enough : m ≤ length bs = ground (arith, w.counted) in
      let (t, oldest) = slice_oldest b bs w m enough in
      if_both P (ltb b.size n) big (
        if_both P (leb b.pseq b.cseq) (if_both P b.closed shut short) (
          subst (λ (r : Buffer × Bytes). P (r.0, ok (r.1, ltb (b.pseq - b.cseq) n))) (sym oldest)
            (there t m (ltb (b.pseq - b.cseq) n) enough)))

  -- `ReadPeek` on an open ring.
  pub read_peek_open :
      (n : ℕ) (P : Buffer × Io (Bytes × Bool) → Type 0)
      → b.closed ≡ false
      → 0 < n
      → n ≤ b.size
      → (length bs ≡ 0 → P (record b { cwait = b.cwait + 1 }, blocks))
      → ((t : Bytes) (m : ℕ) (short : Bool)
          → 0 < m
          → m ≤ length bs
          → P (record b { tmp = t }, ok (take m bs, short)))
      → P (read_peek n b)
  unfolding read_peek
  read_peek_open n P o pos fits short there =
      let m = if leb n (b.pseq - b.cseq) then n else b.pseq - b.cseq in
      let enough : m ≤ length bs = ground (arith, w.counted) in
      let (t, oldest) = slice_oldest b bs w m enough in
      if_each P (ltb b.size n) (λ e. absurd (ground (arith, e, fits)))
        (λ e0.
          if_each P (leb b.pseq b.cseq)
            (λ e.
              if_each P b.closed (λ f. absurd (ground (arith, f, o)))
                (λ f. short (ground (arith, e, w.counted))))
            (λ e.
              subst (λ (r : Buffer × Bytes). P (r.0, ok (r.1, ltb (b.pseq - b.cseq) n)))
                (sym oldest) (there t m (ltb (b.pseq - b.cseq) n) (ground (arith, e, pos)) enough)))

  -- `ReadCommit` lets the oldest bytes go.
  pub read_commit-takes :
      (n : ℕ) → n ≤ length bs → read_commit n b ≡ (record b { cseq = b.cseq + n }, ok n)
  unfolding read_commit
  read_commit-takes n h = ground (arith, w.counted, w.fits)

-- What one of the consumer's calls gave.
abbrev pub given : Io Bytes → Bytes
given (ok p) = p
given (fail e) = []
given blocks = []

-- The call gave the oldest bytes, and the rest waits.
abbrev pub Takes : Bytes → Buffer × Io Bytes → Type 0
Takes bs r = (rest : Bytes) × (bs ≡ given r.1 ++ rest) × Contains r.0 rest

pub Takes-none : (b : Buffer) (bs : Bytes) (e : IoError) → Contains b bs → Takes bs (b, fail e)
Takes-none b bs e w = (bs, refl, w)

consume-Takes :
    (b : Buffer) (bs p : Bytes)
    → Contains b bs
    → length p ≤ length bs
    → p ≡ take (length p) bs
    → Takes bs (consume b p)
consume-Takes b bs p w h e = (
  drop (length p) bs,
  sym (take-append-drop (length p) bs) ∙ ap (λ q. q ++ drop (length p) bs) (sym e),
  Contains-consumed b bs w (length p) h,
)

-- Bytes that `Read` copies from the consumer's place on, up to the end of the ring at most.
copied-Takes :
    (b : Buffer) (bs p : Bytes)
    → Contains b bs
    → p ≡ take (length p) (drop (bit_and b.cseq b.mask) b.buf)
    → length p ≤ length bs
    → Takes bs (consume b p)
copied-Takes b bs p w e h =
    consume-Takes b bs p w h (from_place ∙ straight b bs w (length p) h ends)
  where
    from_place : p ≡ take (length p) (drop (b.cseq % b.size) b.buf)
    from_place = e ∙ ap (λ i. take (length p) (drop i b.buf)) (Contains-place b bs b.cseq w)

    ends : b.cseq % b.size + length p ≤ b.size
    ends = omega (
      arith,
      ap length from_place,
      length-take (length p) (drop (b.cseq % b.size) b.buf),
      length-drop (b.cseq % b.size) b.buf,
      w.whole,
      inside b bs w,
    )

-- `Read` gives the oldest bytes.
pub read-Takes : (pl : ℕ) (b : Buffer) (bs : Bytes) → Contains b bs → Takes bs (read pl b)
unfolding read len
read-Takes pl b bs w =
    if_both (Takes bs) (b.closed && b.pseq - b.cseq == 0) (Takes-none b bs eof w) (
      if_each (Takes bs) (ltb (b.cseq + pl) b.pseq)
        (λ e.
          copied-Takes b bs (take pl left) w (sym (take_taken pl left))
            (ground (arith, e, w.counted, length-take pl left)))
        (λ e.
          if_both (Takes bs) (ltb b.cseq b.pseq)
            (if_each (Takes bs) (ltb (c + there) b.size)
              (λ f. copied-Takes b bs (take pl (take there left)) w (take_part pl there left) (
                omega (arith, length-take pl (take there left), length-take there left, w.counted)))
              (λ f.
                copied-Takes b bs (take pl left) w (sym (take_taken pl left)) (
                  ground (arith, f, length-take pl left, length-drop c b.buf, w.whole, w.counted))))
            (if_both (Takes bs) b.closed (Takes-none b bs eof w)
              (bs, refl, Contains-noted b bs w (b.cwait + 1) b.pwait b.tmp b.closed))))
  where
    c : ℕ
    c = bit_and b.cseq b.mask

    left : Bytes
    left = drop c b.buf

    there : ℕ
    there = b.pseq - b.cseq

-- Where as many bytes wait as are asked for and the ring does not end before them, `Read` gives them.
pub read_straight :
    (pl : ℕ) (b : Buffer) (bs : Bytes)
    → Contains b bs
    → 0 < pl
    → pl ≤ length bs
    → b.cseq % b.size + pl ≤ b.size
    → read pl b ≡ consume b (take pl bs)
unfolding read len
read_straight pl b bs w pos h f =
    if_each (λ r. r ≡ given_all) (b.closed && b.pseq - b.cseq == 0)
      (λ e. absurd (ground (arith, e, pos, h, w.counted)))
      (λ e.
        if_each (λ r. r ≡ given_all) (ltb (b.cseq + pl) b.pseq) (λ e. ap (consume b) oldest)
          (λ e.
            if_each (λ r. r ≡ given_all) (ltb b.cseq b.pseq)
              (λ g.
                if_each (λ r. r ≡ given_all) (ltb (c + there) b.size)
                  (λ g.
                    ap (consume b)
                      (take_part pl there left ∙ ap (λ k. take k left) covered ∙ oldest))
                  (λ g. ap (consume b) oldest))
              (λ g. absurd (ground (arith, g, pos, h, w.counted)))))
  where
    given_all : Buffer × Io Bytes
    given_all = consume b (take pl bs)

    c : ℕ
    c = bit_and b.cseq b.mask

    left : Bytes
    left = drop c b.buf

    there : ℕ
    there = b.pseq - b.cseq

    oldest : take pl left ≡ take pl bs
    oldest =
        ap (λ i. take pl (drop i b.buf)) (Contains-place b bs b.cseq w) ∙ straight b bs w pl h f

    covered : length (take pl (take there left)) ≡ pl
    covered = omega (
      arith,
      length-take pl (take there left),
      length-take there left,
      length-drop c b.buf,
      w.whole,
      w.counted,
      h,
      f,
      Contains-place b bs b.cseq w,
    )
