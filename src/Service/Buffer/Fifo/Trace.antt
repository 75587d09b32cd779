-- ===== src/Service/Buffer/Fifo/Trace.antt =====
-- Any calls of the two sides, and the bytes that went in and came out.
use xmqtt.Prelude.{ℕ, Bytes, Bool, [], ◌++◌, ◌≡◌, refl, ap, ◌∙◌, arith, subst, Option, some}
use xmqtt.Prelude.{◌≤◌, length, take, length-take, length-replicate, true, take_part}
use xmqtt.Prelude.{power-bit_and, if◌then◌else◌, ◌==◌, ◌<◌}
use xmqtt.Service.Buffer.{Buffer, Io, ok, fail, blocks, new_buffer, sized, fresh}
use xmqtt.Service.Buffer.{
  write, write_wait, read_from_round, close, default_buffer_size, power_of_two64,
}
use xmqtt.Service.Buffer.Reading.{read_wait, read_peek, read_commit, read, write_to_round}
use xmqtt.Service.Buffer.Fifo.{Contains, Contains-noted}
use xmqtt.Service.Buffer.Fifo.Written.{accepted}
use xmqtt.Service.Buffer.Fifo.Placed.{place_block}
use xmqtt.Service.Buffer.Fifo.Taken.{given}

abbrev passed : Bytes → Buffer × Io ℕ → Buffer × Io Bytes
passed p (b, ok n) = (b, ok p)
passed p (b, fail e) = (b, fail e)
passed p (b, blocks) = (b, blocks)

abbrev commit_after : ℕ → Buffer × Io Bytes → Buffer × Io Bytes
commit_after n (b, ok p) = passed p (read_commit n b)
commit_after n (b, fail e) = (b, fail e)
commit_after n (b, blocks) = (b, blocks)

-- A message taken whole: `ReadWait`, and `ReadCommit` of as many.
unfoldable pub take_out : ℕ → Buffer → Buffer × Io Bytes
take_out n b = commit_after n (read_wait n b)

-- What of the bytes that were peeked the writer has taken.
abbrev pub sent : Io ℕ → Io (Bytes × Bool) → Bytes
sent (fail e) q = []
sent blocks q = []
sent (ok n) (ok (p, short)) = take n p
sent (ok n) (fail e) = []
sent (ok n) blocks = []

-- A writer takes no more than it is given.
pub Obeys : (Bytes → Option ℕ) → Type 0
Obeys w = (p : Bytes) (n : ℕ) → w p ≡ some n → n ≤ length p

-- The calls made on a ring: the bytes that the producer's calls took in, those that the consumer's
-- gave out, and the ring after them. `ReadCommit` lets go the bytes that `ReadWait` of as many gives.
-- `WriteCommit` follows bytes that were put into the space that `WriteWait` gave.
pub data Trace (b : Buffer) : Bytes → Bytes → Buffer → Type 0 where
  none_yet : Trace b [] [] b
  writes :
      {ins outs : Bytes} {c : Buffer}
      → Trace b ins outs c
      → (p : Bytes) → Trace b (ins ++ accepted p (write p c).1) outs (write p c).0
  reads_from :
      {ins outs : Bytes} {c : Buffer}
      → Trace b ins outs c
      → (input : Bytes)
      → Trace b (ins ++ accepted input (read_from_round input c).1) outs (read_from_round input c).0
  reads :
      {ins outs : Bytes} {c : Buffer}
      → Trace b ins outs c
      → (pl : ℕ) → Trace b ins (outs ++ given (read pl c).1) (read pl c).0
  takes_out :
      {ins outs : Bytes} {c : Buffer}
      → Trace b ins outs c
      → (n : ℕ) → Trace b ins (outs ++ given (take_out n c).1) (take_out n c).0
  waits :
      {ins outs : Bytes} {c : Buffer}
      → Trace b ins outs c
      → (n : ℕ) → Trace b ins outs (read_wait n c).0
  commits :
      {ins outs : Bytes} {c : Buffer}
      → Trace b ins outs c
      → (n : ℕ) → Trace b ins (outs ++ given (read_wait n c).1) (read_commit n c).0
  reserves :
      {ins outs : Bytes} {c : Buffer}
      → Trace b ins outs c
      → (n : ℕ) → Trace b ins outs (write_wait n c).0
  places :
      {ins outs : Bytes} {c : Buffer}
      → Trace b ins outs c
      → (n : ℕ) (p : Bytes)
      → Trace b (ins ++ accepted p (place_block n p c).1) outs (place_block n p c).0
  peeks :
      {ins outs : Bytes} {c : Buffer}
      → Trace b ins outs c
      → (n : ℕ) → Trace b ins outs (read_peek n c).0
  writes_to :
      {ins outs : Bytes} {c : Buffer}
      → Trace b ins outs c
      → (w : Bytes → Option ℕ) → Obeys w
      → (block : ℕ)
      → Trace b ins
          (outs ++ sent (write_to_round w block c).1 (read_peek block c).1)
          (write_to_round w block c).0
  closes : {ins outs : Bytes} {c : Buffer} → Trace b ins outs c → Trace b ins outs (close c)

-- What one of the consumer's calls gave, and the rest waits.
abbrev Gives : Bytes → Bytes → Buffer → Type 0
Gives bs p c = (rest : Bytes) × (bs ≡ p ++ rest) × Contains c rest

pub take_less : (n m : ℕ) (xs : Bytes) → n ≤ length (take m xs) → take n (take m xs) ≡ take n xs
take_less n m xs h =
    take_part n m xs ∙ ap (λ k. take k xs) (omega (arith, h, length-take n (take m xs)))

pub close-Contains : (b : Buffer) (bs : Bytes) → Contains b bs → Contains (close b) bs
unfolding close
close-Contains b bs v = Contains-noted b bs v b.cwait b.pwait b.tmp true

pub fresh-Contains : (size : ℕ) → power_of_two64 size ≡ true → Contains (fresh size) []
unfolding fresh power_of_two64
fresh-Contains size e =
    let positive : 0 < size = ground (arith, e) in
    let (k, p) = power-bit_and size positive (ground (arith, e)) in
    record {
      bits = k;
      power = p;
      masked = refl;
      whole = length-replicate {A = ℕ} size 0;
      positive = positive;
      counted = omega arith;
      fits = omega arith;
      known = omega arith;
      stands = λ j h. absurd (omega (arith, h));
    }

sized-Contains : (size : ℕ) (b : Buffer) → sized size ≡ ok b → Contains b []
sized-Contains size b e =
    subst (λ c. Contains c []) (made size b e) (fresh-Contains size (power size b e))
  where
    made : (n : ℕ) (c : Buffer) → sized n ≡ ok c → fresh n ≡ c
    made n c h = unfold sized in ground arith

    power : (n : ℕ) (c : Buffer) → sized n ≡ ok c → power_of_two64 n ≡ true
    power n c h = unfold sized in ground arith

pub new_buffer-Contains : (n : ℕ) (b : Buffer) → new_buffer n ≡ ok b → Contains b []
unfolding new_buffer
new_buffer-Contains n b e = sized-Contains (if n == 0 then default_buffer_size else n) b e

-- What went in is what came out and what waits, in this order.
abbrev Kept : Bytes → Bytes → Buffer → Type 0
Kept ins outs c = (rest : Bytes) × (ins ≡ outs ++ rest) × Contains c rest
