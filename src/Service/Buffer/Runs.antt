-- ===== src/Service/Buffer/Runs.antt =====
-- Any interleaving of the producer's and the consumer's calls.
use xmqtt.Prelude.{Option, ℕ, Bytes, ◌≡◌, arith}
use xmqtt.Prelude.{subst, length-replicate, ◌==◌, if◌then◌else◌}
use xmqtt.Service.Buffer.{Buffer, ok, new_buffer, write, write_commit, write_wait, close}
use xmqtt.Service.Buffer.{read_from_round, default_buffer_size, fresh, sized}
use xmqtt.Service.Buffer.Reading.{read_peek, read_wait, read_commit, read, write_to_round}
use xmqtt.Service.Buffer.Positions.{
  IsValid, write-IsValid, write_commit-IsValid, write_wait-IsValid,
}
use xmqtt.Service.Buffer.Positions.{read_peek-IsValid, read_wait-IsValid, read_commit-IsValid}
use xmqtt.Service.Buffer.Positions.{
  write_to_round-IsValid, read-IsValid, close-IsValid, read_from_round-IsValid,
}

-- One call of either side, whatever it gives back.
pub data Step (b : Buffer) : Buffer → Type 0 where
  writes : (p : Bytes) → Step b (write p b).0
  commits_write : (n : ℕ) → Step b (write_commit n b).0
  awaits_space : (n : ℕ) → Step b (write_wait n b).0
  reads_from : (input : Bytes) → Step b (read_from_round input b).0
  peeks : (n : ℕ) → Step b (read_peek n b).0
  awaits_bytes : (n : ℕ) → Step b (read_wait n b).0
  commits_read : (n : ℕ) → Step b (read_commit n b).0
  reads : (pl : ℕ) → Step b (read pl b).0
  writes_to : (w : Bytes → Option ℕ) (block : ℕ) → Step b (write_to_round w block b).0
  closes : Step b (close b)

pub data Reach (b : Buffer) : Buffer → Type 0 where
  here : Reach b b
  next : {c d : Buffer} → Reach b c → Step c d → Reach b d

Step-IsValid : {b c : Buffer} → Step b c → IsValid b → IsValid c
Step-IsValid {b} (writes p) v = write-IsValid p b v
Step-IsValid {b} (commits_write n) v = write_commit-IsValid n b v
Step-IsValid {b} (awaits_space n) v = write_wait-IsValid n b v
Step-IsValid {b} (reads_from input) v = read_from_round-IsValid input b v
Step-IsValid {b} (peeks n) v = read_peek-IsValid n b v
Step-IsValid {b} (awaits_bytes n) v = read_wait-IsValid n b v
Step-IsValid {b} (commits_read n) v = read_commit-IsValid n b v
Step-IsValid {b} (reads pl) v = read-IsValid pl b v
Step-IsValid {b} (writes_to w block) v = write_to_round-IsValid w block b v
Step-IsValid {b} closes v = close-IsValid b v

fresh-IsValid : (size : ℕ) → IsValid (fresh size)
unfolding fresh
fresh-IsValid size = record {
  behind = omega arith;
  within = omega arith;
  known = omega arith;
  whole = length-replicate {A = ℕ} size 0;
}

sized-IsValid : (size : ℕ) (b : Buffer) → sized size ≡ ok b → IsValid b
sized-IsValid size b e = subst IsValid (made size b e) (fresh-IsValid size)
  where
    made : (n : ℕ) (c : Buffer) → sized n ≡ ok c → fresh n ≡ c
    made n c h = unfold sized in ground arith

new_buffer-IsValid : (n : ℕ) (b : Buffer) → new_buffer n ≡ ok b → IsValid b
unfolding new_buffer
new_buffer-IsValid n b e = sized-IsValid (if n == 0 then default_buffer_size else n) b e

-- From a new buffer no sequence of calls, of either side and in any order, brings the consumer ahead
-- of the producer or more than the ring's size behind it, nor lets the producer believe that the
-- consumer is further than it is; and the ring keeps its size.
pub Reach-IsValid : (n : ℕ) (b c : Buffer) → new_buffer n ≡ ok b → Reach b c → IsValid c
Reach-IsValid n b c e here = new_buffer-IsValid n b e
Reach-IsValid n b c e (next {c = d} r s) = Step-IsValid s (Reach-IsValid n b d e r)
