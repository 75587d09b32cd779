-- ===== src/Service/SendRecv/Sender.antt =====
-- `sender` of service/sendrecv.go, with the loop of `WriteTo` of service/buffer.go that it calls.
use xmqtt.Prelude.{
  ℕ, zero, suc, Bytes, Bool, false, Option, some, [], ◌++◌, ◌≡◌, refl, ap, sym, ◌∙◌, arith, subst,
  if_each,
}
use xmqtt.Prelude.{
  min, ◌+◌, ◌-◌, ◌<◌, ◌≤◌, length, take, drop, length-take, length-drop, take-append-drop,
}
use xmqtt.Service.Buffer.{Buffer, Io, ok, fail, blocks}
use xmqtt.Service.Buffer.Reading.{read_peek, write_to_round, handed, written_out}
use xmqtt.Service.Buffer.Fifo.{Contains, Contains-noted, Contains-consumed}
use xmqtt.Service.Buffer.Fifo.Taken.{read_peek_open, Contains-tmp, read_commit-takes}
use xmqtt.Service.Buffer.Fifo.Trace.{sent, take_less}
use xmqtt.Service.Connection.{StateManager, update_state}
use xmqtt.Service.SendRecv.Loops.{
  empty_bytes, Stop, ring, full, unfinished, deferred_close, cause_of, state_after,
}

-- `defaultWriteBlockSize`.
abbrev pub write_block_size : ℕ
write_block_size = 8192

-- What follows a round that took `out` out of the ring.
abbrev pub after_out :
    (Buffer → Buffer × Bytes × Stop) → Bytes → Buffer × Io ℕ → Buffer × Bytes × Stop
after_out k out (b, fail e) = (b, out, ring e)
after_out k out (b, blocks) = (b, out, full)
after_out k out (b, ok n) = let (c, more, s) = k b in (c, out ++ more, s)

-- The connection's `Write`, by the number of the call: what it takes, or an error.
module _ (write : ℕ → Bytes → Option ℕ) where
  -- The rounds of `WriteTo` from the `k`-th on: the bytes that were written and taken out of the ring,
  -- and why the loop stops.
  unfoldable pub write_rounds : ℕ → ℕ → Buffer → Buffer × Bytes × Stop
  unfolding write_to_round
  write_rounds zero k b = (b, [], unfinished)
  write_rounds (suc fuel) k b =
      after_out (write_rounds fuel (suc k))
        (sent (write_to_round (write k) write_block_size b).1 (read_peek write_block_size b).1)
        (write_to_round (write k) write_block_size b)

  -- A round that goes on takes a byte at least, where `Write` takes all that it is given.
  abbrev pub write_to : Buffer → Buffer × Bytes × Stop
  write_to b = deferred_close (write_rounds (suc (b.pseq - b.cseq)) 0 b)

-- `WriteTo` returns with an error only, so that `sender` calls it once and sets the state of the connection.
unfoldable pub sender_ends : Stop → StateManager → StateManager
unfolding update_state
sender_ends s m = update_state (state_after (cause_of s)) m

-- All that waits in the ring was written in order, and the loop waits for more on the open ring.
abbrev pub Emptied : Bytes → Buffer × Bytes × Stop → Type 0
Emptied bs (c, out, s) = (out ≡ bs) × (s ≡ full) × Contains c [] × (c.closed ≡ false)

module _ (write : ℕ → Bytes → Option ℕ) (k : ℕ) (b : Buffer) (bs : Bytes) (w : Contains b bs) where
  -- A round on an open ring whose `Write` takes all that it is given.
  write_to_round_open :
      (P : Bytes → Buffer × Io ℕ → Type 0)
      → b.closed ≡ false
      → write_block_size ≤ b.size
      → ((p : Bytes) → write k p ≡ some (length p))
      → (length bs ≡ 0 → P [] (record b { cwait = b.cwait + 1 }, blocks))
      → ((t : Bytes) (n : ℕ)
          → 0 < n
          → n ≤ length bs
          → P (take n bs) (record b { tmp = t; cseq = b.cseq + n }, ok n))
      → P
          (sent (write_to_round (write k) write_block_size b).1 (read_peek write_block_size b).1)
          (write_to_round (write k) write_block_size b)
  unfolding write_to_round handed written_out
  write_to_round_open P o room all short there =
      if_each (λ r. P (sent r.1 (read_peek write_block_size b).1) r) b.closed
        (λ f. absurd (ground (arith, f, o)))
        (λ f.
          read_peek_open b bs w write_block_size
            (λ q. P (sent (handed (write k) q.0 q.1).1 q.1) (handed (write k) q.0 q.1)) o
            (omega arith) room short (λ t m sh pos few. taken t m sh pos few (length-take m bs)))
    where
      taken :
          (t : Bytes) (m : ℕ) (sh : Bool)
          → 0 < m
          → m ≤ length bs
          → length (take m bs) ≡ min m (length bs)
          → P
              (sent
                (written_out (write k (take m bs)) (record b { tmp = t })).1
                (ok (take m bs, sh)))
              (written_out (write k (take m bs)) (record b { tmp = t }))
      taken t m sh pos few e =
          let n = length (take m bs) in
          let less : n ≤ length bs = omega (arith, few, e) in
          let committed =
            ap (λ x. written_out x (record b { tmp = t })) (all (take m bs))
            ∙ read_commit-takes (record b { tmp = t }) bs (Contains-tmp b bs w t) n less in
          subst (λ r. P (sent r.1 (ok (take m bs, sh))) r) (sym committed)
            (subst (λ p. P p (record b { tmp = t; cseq = b.cseq + n }, ok n))
              (sym (take_less n m bs (omega arith))) (there t n (omega (arith, pos, few, e)) less))

module _ (write : ℕ → Bytes → Option ℕ)
    (all : (k : ℕ) (p : Bytes) → write k p ≡ some (length p)) where
  write_rounds-Emptied :
      (fuel k : ℕ) (b : Buffer) (bs : Bytes)
      → Contains b bs
      → b.closed ≡ false
      → write_block_size ≤ b.size
      → length bs < fuel
      → Emptied bs (write_rounds write fuel k b)
  unfolding write_rounds
  write_rounds-Emptied zero k b bs w o room l = absurd (omega (arith, l))
  write_rounds-Emptied (suc fuel) k b bs w o room l =
      write_to_round_open write k b bs w
        (λ out r. Emptied bs (after_out (write_rounds write fuel (suc k)) out r)) o room (all k)
        (λ e.
          let none_left = sym (empty_bytes bs e) in
          (
            none_left,
            refl,
            subst (Contains (record b { cwait = b.cwait + 1 })) (sym none_left)
                (Contains-noted b bs w (b.cwait + 1) b.pwait b.tmp b.closed),
            o,
          ))
        (λ t n pos few.
          let (e, s, v, f) =
            write_rounds-Emptied fuel (suc k) (record b { tmp = t; cseq = b.cseq + n }) (drop n bs)
              (Contains-consumed (record b { tmp = t }) bs (Contains-tmp b bs w t) n few) o room
              (omega (arith, l, pos, few, length-drop n bs)) in
          (ap (λ q. take n bs ++ q) e ∙ take-append-drop n bs, s, v, f))

  -- An open ring that holds a block: as long as the connection takes every write whole, `WriteTo` writes
  -- what waits in the ring to it, every byte once and in order, and then waits for more; nothing is
  -- left in the ring, and it stays open.
  pub write_to-Emptied :
      (b : Buffer) (bs : Bytes)
      → Contains b bs
      → b.closed ≡ false
      → write_block_size ≤ b.size
      → Emptied bs (write_to write b)
  write_to-Emptied b bs w o room =
      let got = write_rounds write (suc (b.pseq - b.cseq)) 0 b in
      let (e, s, v, f) =
        write_rounds-Emptied (suc (b.pseq - b.cseq)) 0 b bs w o room (omega (arith, w.counted)) in
      subst {A = Buffer × Bytes × Stop} (λ q. Emptied bs (deferred_close q))
        (λ i. (got.0, got.1, sym s i)) (e, refl, v, f)
