-- ===== src/Service/SendRecv.antt =====
-- The reading and writing of messages over the two rings of a connection: service/sendrecv.go, and the
-- loop `processor` of service/process.go. `in` and `out` are nil until a ring is put there.
-- A call that waits inside a ring gives `waits`. Where it has only peeked it has moved no position, and
-- starts again with the same arguments.
pub mod Peeked
pub mod Served
pub mod Sent
pub mod Overread
pub mod Loops
pub mod Sender
mod Tests
use Prim.Native.Nat.{bit_and}
use xmqtt.Prelude.{ℕ, zero, suc, Bytes, Bool, true, false, Option, none, some, [], ◌∷◌, ◌++◌}
use xmqtt.Prelude.{
  ◌==◌, ltb, leb, if◌then◌else◌, ◌&&◌, length, take, drop, replicate, get_or, ◌+◌, ◌-◌,
}
use xmqtt.Prelude.{Outcome, done, ◌>>=◌}
use xmqtt.Message.{PacketLib, MessageLib}
use xmqtt.Service.State.{ServiceError, disconnected}
use xmqtt.Service.Wire.{sized}
use xmqtt.Service.Buffer.{Buffer, Io, ok, fail, blocks, IoError, len, copy_at}
use xmqtt.Service.Buffer.{write, write_wait, write_commit}
use xmqtt.Service.Buffer.Reading.{read_wait, read_commit, read}
use xmqtt.Service.Receive.{decode_code}
use xmqtt.Service.Process.{World, process_incoming}

-- ErrBufferNotReady, a length of more than four bytes, a message that does not decode or encode, and
-- the errors of a ring.
pub data SendError : Type 0 where
  not_ready malformed no_decode no_encode : SendError
  ring : IoError → SendError

pub data Tried {ℓ} (A : Type ℓ) : Type ℓ where
  got : A → Tried A
  failed : SendError → Tried A
  waits : Tried A

abbrev pub ready {ℓ} :
    {A : Type ℓ} → (Buffer → Buffer × Tried A) → Option Buffer → Option Buffer × Tried A
ready f none = (none, failed not_ready)
ready f (some b) = let (b', r) = f b in (some b', r)

-- What `peekMessageSize` makes of the first `cnt` bytes; `k` goes on with one more.
abbrev pub judged :
    (Buffer → Buffer × Tried (ℕ × ℕ)) → ℕ → Buffer × Io Bytes → Buffer × Tried (ℕ × ℕ)
judged k cnt (b, fail e) = (b, failed (ring e))
judged k cnt (b, blocks) = (b, waits)
judged k cnt (b, ok p) = if leb 0x80 (get_or p (cnt - 1) 0) then k b else (b, got (sized p))

-- `fuel` is the number of values that `cnt` may still take, up to 5.
unfoldable pub size_in_ring : ℕ → ℕ → Buffer → Buffer × Tried (ℕ × ℕ)
unfolding read_wait
size_in_ring zero cnt b = (b, failed malformed)
size_in_ring (suc fuel) cnt b = judged (size_in_ring fuel (cnt + 1)) cnt (read_wait cnt b)

unfoldable pub peek_message_size : Option Buffer → Option Buffer × Tried (ℕ × ℕ)
unfolding size_in_ring
peek_message_size o = ready (size_in_ring 4 2) o

-- Why `processor` ends: an error of the ring or of a message's bytes, `errDisconnect`, or the closed
-- channel `done` with nothing left. `waiting` is a loop that waits for bytes, `unfinished` only the
-- model's, for fuel that does not suffice.
pub data Halt : Type 0 where
  broken : SendError → Halt
  hung_up finished waiting unfinished : Halt

abbrev pub is_disconnect : Option ServiceError → Bool
is_disconnect (some disconnected) = true
is_disconnect _ = false

module _ (lib : PacketLib) where
  open lib use {messages, decode, wire}
  open messages use {Message}

  abbrev pub of_decode : Option Message → Tried Message
  of_decode none = failed no_decode
  of_decode (some m) = got m

  abbrev pub decoded : ℕ → Buffer × Io Bytes → Buffer × Tried Message
  decoded t (b, fail e) = (b, failed (ring e))
  decoded t (b, blocks) = (b, waits)
  decoded t (b, ok p) = (b, of_decode (decode_code lib t p))

  -- `ReadWait` returns all the bytes or an error, so that the loop runs once.
  unfoldable pub peek_in_ring : ℕ → ℕ → Buffer → Buffer × Tried Message
  unfolding read_wait
  peek_in_ring t total b = decoded t (read_wait total b)

  unfoldable pub peek_message : ℕ → ℕ → Option Buffer → Option Buffer × Tried Message
  unfolding peek_in_ring
  peek_message t total o = ready (peek_in_ring t total) o

  -- The loop of `readMessage`: `l` bytes of `intmp` are read. Each `Read` is given the whole rest of
  -- `intmp`, which may be longer than the message. The model stops where `Read` waits, with what was read
  -- before. A round that goes on has read a byte, so `total` rounds are enough.
  abbrev pub more_read :
      (Bytes → ℕ → Buffer → Buffer × Bytes × Tried (Unit {0}))
      → Bytes
      → ℕ
      → Buffer × Io Bytes
      → Buffer × Bytes × Tried (Unit {0})
  more_read k intmp l (b, fail e) = (b, intmp, failed (ring e))
  more_read k intmp l (b, blocks) = (b, intmp, waits)
  more_read k intmp l (b, ok p) = k (copy_at intmp l p) (l + length p) b

  unfoldable pub read_loop : ℕ → ℕ → Bytes → ℕ → Buffer → Buffer × Bytes × Tried (Unit {0})
  unfolding read
  read_loop zero total intmp l b = (b, intmp, got tt)
  read_loop (suc fuel) total intmp l b =
      let rest = more_read (read_loop fuel total) intmp l (read (length intmp - l) b) in
      if leb total l then (b, intmp, got tt) else rest

  abbrev pub whole_read : ℕ → ℕ → Buffer × Bytes × Tried (Unit {0}) → Buffer × Bytes × Tried Message
  whole_read t total (b, intmp, got u) =
      (b, intmp, of_decode (decode_code lib t (take total intmp)))
  whole_read t total (b, intmp, failed e) = (b, intmp, failed e)
  whole_read t total (b, intmp, waits) = (b, intmp, waits)

  unfoldable pub read_message : ℕ → ℕ → Bytes → Buffer → Buffer × Bytes × Tried Message
  unfolding read_loop
  read_message t total intmp b =
      let tmp = if ltb (length intmp) total then replicate total 0 else intmp in
      whole_read t total (read_loop total total tmp 0 b)

  abbrev pub counted : Buffer × Io ℕ → Buffer × Tried ℕ
  counted (b, ok n) = (b, got n)
  counted (b, fail e) = (b, failed (ring e))
  counted (b, blocks) = (b, waits)

  -- `Encode` into the space at `pstart`, or into `outtmp` where the space goes round the end. What an
  -- `Encode` that fails leaves in the free space is not kept.
  unfoldable pub encoded_at :
      Option (Message × Bytes) → Buffer × Io (ℕ × ℕ × Bool) → Buffer × Tried ℕ
  unfolding write_commit write
  encoded_at m (b, fail e) = (b, failed (ring e))
  encoded_at m (b, blocks) = (b, waits)
  encoded_at none (b, ok r) = (b, failed no_encode)
  encoded_at (some (msg, p)) (b, ok (pstart, cnt, true)) = counted (write p b)
  encoded_at (some (msg, p)) (b, ok (pstart, cnt, false)) =
      counted (write_commit (length p) (record b { buf = copy_at b.buf pstart p }))

  unfoldable pub write_in_ring : Message → Buffer → Buffer × Tried ℕ
  unfolding write_wait encoded_at
  write_in_ring msg b = encoded_at (wire msg) (write_wait (messages.len msg) b)

  unfoldable pub write_message : Message → Option Buffer → Option Buffer × Tried ℕ
  unfolding write_in_ring
  write_message msg o = ready (write_in_ring msg) o

  abbrev pub Processed : Type 0
  Processed = Outcome (Buffer × World lib × Halt)

  abbrev pub committed : (Buffer → World lib → Processed) → World lib → Buffer × Io ℕ → Processed
  committed k w (b, ok n) = if w.0.ended && len b == 0 then done (b, w, finished) else k b w
  committed k w (b, fail e) = done (b, w, broken (ring e))
  committed k w (b, blocks) = done (b, w, waiting)

  -- Any other error of `processIncoming` is only logged.
  unfoldable pub after_handled :
      (Buffer → World lib → Processed) → ℕ → Buffer → World lib × Option ServiceError → Processed
  unfolding read_commit
  after_handled k total b (w, x) =
      if is_disconnect x then done (b, w, hung_up) else committed k w (read_commit total b)

  unfoldable pub after_peek :
      (Buffer → World lib → Processed) → ℕ → World lib → Buffer × Tried Message → Processed
  unfolding after_handled
  after_peek k total w (b, failed e) = done (b, w, broken e)
  after_peek k total w (b, waits) = done (b, w, waiting)
  after_peek k total w (b, got msg) = process_incoming lib msg w >>= λ p. after_handled k total b p

  unfoldable pub after_size :
      (Buffer → World lib → Processed) → World lib → Buffer × Tried (ℕ × ℕ) → Processed
  unfolding after_peek peek_in_ring
  after_size k w (b, failed e) = done (b, w, broken e)
  after_size k w (b, waits) = done (b, w, waiting)
  after_size k w (b, got (t, total)) = after_peek k total w (peek_in_ring t total b)

  unfoldable pub process_ring : ℕ → Buffer → World lib → Processed
  unfolding after_size size_in_ring
  process_ring zero b w = done (b, w, unfinished)
  process_ring (suc fuel) b w = after_size (process_ring fuel) w (size_in_ring 4 2 b)

  -- Every round takes a byte at least, so one round more than there are bytes is enough, as long as
  -- none come in.
  unfoldable pub processor : Option Buffer → World lib → Outcome (Option Buffer × World lib × Halt)
  unfolding process_ring
  processor none w = done (none, w, broken not_ready)
  processor (some b) w = process_ring (suc (len b)) b w >>= λ r. done (some r.0, r.1, r.2)
