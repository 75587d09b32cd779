-- ===== src/Service/Buffer/Fifo/Placed.antt =====
-- What a producer puts into the space that `WriteWait` hands out.
use Prim.Native.Nat.{bit_and}
use xmqtt.Prelude.{ℕ, Bytes, Bool, ◌≡◌, sym, arith, subst, append-nil, if_each, ltb}
use xmqtt.Prelude.{◌+◌, ◌-◌, ◌≤◌, ◌%◌, length, take, length-take}
use xmqtt.Service.Buffer.{
  eof, Buffer, Io, ok, fail, blocks, write_wait, free_block, write_commit, copy_at,
}
use xmqtt.Service.Buffer.Fifo.{Contains, Contains-noted, Contains-seen, Contains-place}
use xmqtt.Service.Buffer.Fifo.Written.{
  Adds, Adds-none, Whole-Adds, write_commit-Whole, wait_for_write_space-cases,
}

-- `copy` of bytes into the space, and `WriteCommit` of as many as fitted.
abbrev pub put_in : Bytes → Buffer × Io (ℕ × ℕ × Bool) → Buffer × Io ℕ
put_in p (b, fail e) = (b, fail e)
put_in p (b, blocks) = (b, blocks)
put_in p (b, ok (pstart, cnt, around)) =
    write_commit (length (take cnt p)) (record b { buf = copy_at b.buf pstart (take cnt p) })

unfoldable pub place_block : ℕ → Bytes → Buffer → Buffer × Io ℕ
unfolding write_wait
place_block n p b = put_in p (write_wait n b)

pub write_wait-Contains :
    (n : ℕ) (b : Buffer) (bs : Bytes) → Contains b bs → Contains (write_wait n b).0 bs
unfolding write_wait
write_wait-Contains n b bs w =
    wait_for_write_space-cases n b bs w (λ r. Contains (free_block r.0 r.1).0 bs) (λ c. w)
      (λ l. Contains-noted b bs w b.cwait (b.pwait + 1) b.tmp b.closed)
      (λ room. Contains-seen b bs w) (λ room. w)

module _ (n : ℕ) (p : Bytes) (b : Buffer) (bs : Bytes) (w : Contains b bs)
    (room : length bs + n ≤ b.size) where
  part-Adds :
      (k : ℕ)
      → k ≤ n
      → b.pseq % b.size + k ≤ b.size
      → Adds bs p (
          write_commit
            (length (take k p))
            (record b { buf = copy_at b.buf (bit_and b.pseq b.mask) (take k p) }))
  part-Adds k few inside = Whole-Adds bs p k _ (
      write_commit-Whole (take k p) b bs w (omega (arith, room, few, length-take k p))
        (omega (arith, inside, w.whole, length-take k p)))

  put_in-Adds : Adds bs p (put_in p (free_block b (ok (b.pseq, n))))
  put_in-Adds =
      let there : bit_and b.pseq b.mask ≡ b.pseq % b.size = Contains-place b bs b.pseq w in
      if_each (λ x. Adds bs p (put_in p (b, ok x))) (ltb b.size (bit_and b.pseq b.mask + n))
        (λ e.
          part-Adds (b.size - bit_and b.pseq b.mask) (ground (arith, e)) (ground (arith, e, there)))
        (λ e. part-Adds n (omega arith) (ground (arith, e, there)))

-- The first of the bytes were added, as many as the call says.
pub place_block-Adds :
    (n : ℕ) (p : Bytes) (b : Buffer) (bs : Bytes) → Contains b bs → Adds bs p (place_block n p b)
unfolding place_block write_wait
place_block-Adds n p b bs w =
    wait_for_write_space-cases n b bs w (λ r. Adds bs p (put_in p (free_block r.0 r.1)))
      (λ c. Adds-none bs p b eof w)
      (λ l.
        subst (Contains _) (sym (append-nil bs))
          (Contains-noted b bs w b.cwait (b.pwait + 1) b.tmp b.closed))
      (λ room. put_in-Adds n p (record b { gate = b.cseq }) bs (Contains-seen b bs w) room)
      (λ room. put_in-Adds n p b bs w room)
