-- ===== src/Service/SendRecv/Loops.antt =====
-- `receiver` of service/sendrecv.go, with the loop of `ReadFrom` that it calls.
use xmqtt.Prelude.{
  ℕ, zero, suc, Bytes, true, false, some, List, [], ◌∷◌, ◌++◌, All, ◌≡◌, refl, ap, sym, ◌∙◌, arith,
  subst, if_each,
}
use xmqtt.Prelude.{
  ◌+◌, ◌<◌, ◌≤◌, ◌==◌, if◌then◌else◌, length, take, drop, length-take, length-drop, length-append,
  take-append-drop, append_assoc, Outcome, done, panicked,
}
use xmqtt.Message.{PacketLib}
use xmqtt.Service.Buffer.{
  Buffer, close, Io, ok, fail, blocks, IoError, read_from_round, read_block_size,
}
use xmqtt.Service.Buffer
use xmqtt.Service.Buffer.Fifo.{Contains}
use xmqtt.Service.Buffer.Fifo.Trace.{close-Contains, take_less}
use xmqtt.Service.Buffer.Fifo.Written.{accepted, read_from_round-Adds}
use xmqtt.Service.Buffer.Fifo.Filled.{Alike, Fills, read_from_round-Fills}
use xmqtt.Service.Wire.{Reader, WireError, eof, reset}
use xmqtt.Service.Process.{World}
use xmqtt.Service.Receive.Stream.{Sent, IsReadable, stream}
use xmqtt.Service.Server.{Server, Cause, at_end, peer_gone, other, exception_disconnect}
use xmqtt.Service.Connection.{StateManager, update_state, shutdown}
use xmqtt.Service.SendRecv.{processor}
use xmqtt.Service.SendRecv.Served.{without_ring, serve_all, processor-serve_all}

-- Why the loop stops: the error of the connection or of the ring. `full` is a loop that waits for room,
-- `unfinished` only the model's, for fuel that does not suffice.
pub data Stop : Type 0 where
  network : WireError → Stop
  ring : IoError → Stop
  full unfinished : Stop

-- What follows a round; the error of a read that gives nothing ends the loop.
abbrev pub after_round :
    (Reader → Buffer → Buffer × Reader × Stop) → Reader → Buffer × Io ℕ → Buffer × Reader × Stop
after_round k r (b, fail e) = (b, r, ring e)
after_round k r (b, blocks) = (b, r, full)
after_round k r (b, ok n) =
    if n == 0 then (b, r, network r.ending) else k (record r { bytes = drop n r.bytes }) b

-- The rounds from the `k`-th on. A connection may give less than there is room for: the `k`-th `Read` has
-- `suc (at_hand k)` bytes at hand, or what is left.
unfoldable pub read_rounds : (ℕ → ℕ) → ℕ → ℕ → Reader → Buffer → Buffer × Reader × Stop
unfolding read_from_round
read_rounds at_hand zero k r b = (b, r, unfinished)
read_rounds at_hand (suc fuel) k r b =
    after_round (read_rounds at_hand fuel (suc k)) r
      (read_from_round (take (suc (at_hand k)) r.bytes) b)

-- The deferred `Close` of a call that returns.
abbrev pub deferred_close : {A : Type 0} → Buffer × A × Stop → Buffer × A × Stop
deferred_close (b, r, full) = (b, r, full)
deferred_close (b, r, unfinished) = (b, r, unfinished)
deferred_close (b, r, s) = (close b, r, s)

-- `ReadFrom`: every round but the last reads a byte at least.
abbrev pub read_from : (ℕ → ℕ) → Reader → Buffer → Buffer × Reader × Stop
read_from at_hand r b = deferred_close (read_rounds at_hand (suc (length r.bytes)) 0 r b)

-- io.EOF, and what the other errors say.
abbrev pub cause_of : Stop → Cause
cause_of (network eof) = at_end
cause_of (network reset) = peer_gone
cause_of (ring Buffer.eof) = at_end
cause_of _ = other

abbrev pub transient_failure : ℕ
transient_failure = 3

abbrev pub state_after : Cause → ℕ
state_after at_end = shutdown
state_after _ = transient_failure

module _ (lib : PacketLib) where
  -- The end of `receiver` of the service `i`: it does what `exceptionDisconnect` does, and then sets the
  -- state of the connection, unless that panicked.
  unfoldable pub receiver_ends :
      ℕ → Stop → Server lib → StateManager → Server lib × StateManager × Outcome (Unit {0})
  unfolding exception_disconnect update_state
  receiver_ends i s srv m =
      let (srv', o) = exception_disconnect lib i (some (cause_of s)) srv in
      elim o [
        | panicked ↦ (srv', m, panicked)
        | done t ↦ (srv', update_state (state_after (cause_of s)) m, done tt)
      ]

pub empty_bytes : (xs : Bytes) → length xs ≡ 0 → xs ≡ []
empty_bytes [] e = refl
empty_bytes (x ∷ xs) e = absurd (omega (arith, e))

-- All that the connection delivers came to wait in the ring, and the connection's error ended the loop.
abbrev pub Received : Buffer → Bytes → Reader → Buffer × Reader × Stop → Type 0
Received b bs r (c, r', s) = (s ≡ network r.ending) × Contains c (bs ++ r.bytes) × Alike b c

abbrev rest_of : ℕ → Reader → Reader
rest_of n r = record r { bytes = drop n r.bytes }

module _ (k : Reader → Buffer → Buffer × Reader × Stop) (r : Reader) (b c : Buffer)
    (bs : Bytes) where
  -- The part that a round has read, and the rest.
  joined : (n : ℕ) → (bs ++ take n r.bytes) ++ drop n r.bytes ≡ bs ++ r.bytes
  joined n =
      append_assoc bs (take n r.bytes) (drop n r.bytes)
      ∙ ap (λ q. bs ++ q) (take-append-drop n r.bytes)

  nothing_left :
      (n : ℕ) → (0 < length r.bytes → 0 < n) → n ≡ 0 → bs ++ take n r.bytes ≡ bs ++ r.bytes
  nothing_left n h e =
      ap (λ q. bs ++ q)
        (ap (λ m. take m r.bytes) e ∙ sym (empty_bytes r.bytes (ground (arith, h, e))))

  abbrev Goes : Type 0
  Goes =
      (n : ℕ)
      → 0 < n
      → n ≤ length r.bytes
      → Contains c (bs ++ take n r.bytes)
      → Alike b c
      → Received c (bs ++ take n r.bytes) (rest_of n r) (k (rest_of n r) c)

  went_on :
      (n : ℕ)
      → Alike b c
      → Received c (bs ++ take n r.bytes) (rest_of n r) (k (rest_of n r) c)
      → Received b bs r (k (rest_of n r) c)
  went_on n a (e, w, g) =
      (e, subst (Contains (k (rest_of n r) c).0) (joined n) w, (g.0 ∙ a.0, g.1 ∙ a.1))

  after_round-Received :
      (io : Io ℕ)
      → Contains c (bs ++ accepted r.bytes io)
      → Fills b r.bytes (c, io)
      → Goes
      → Received b bs r (after_round k r (c, io))
  after_round-Received (fail e) w (n, f, more, few, a) g = absurd (ground (arith, f))
  after_round-Received blocks w (n, f, more, few, a) g = absurd (ground (arith, f))
  after_round-Received (ok m) w (n, f, more, few, a) g =
      let same : m ≡ n = ground (arith, f) in
      if_each (Received b bs r) (m == 0)
        (λ e.
          let z : m ≡ 0 = ground (arith, e) in
          (refl, subst (Contains c) (nothing_left m (λ h. omega (arith, more h, same)) z) w, a))
        (λ e. went_on m a (g m (ground (arith, e)) (omega (arith, few, same)) w a))

-- What a `Read` gave of a part of the bytes, it gave of them all.
module _ (b c : Buffer) (bs xs : Bytes) (m : ℕ) where
  accepted_part :
      (io : Io ℕ)
      → Fills b (take (suc m) xs) (c, io)
      → accepted (take (suc m) xs) io ≡ accepted xs io
  accepted_part (fail e) f = refl
  accepted_part blocks f = refl
  accepted_part (ok k) (n, f, more, few, a) = take_less k (suc m) xs (omega (arith, few, same))
    where
      same : k ≡ n
      same = ground (arith, f)

  Fills-part : (io : Io ℕ) → Fills b (take (suc m) xs) (c, io) → Fills b xs (c, io)
  Fills-part io (n, f, more, few, a) = (
    n,
    f,
    λ h. more (omega (arith, h, length-take (suc m) xs)),
    omega (arith, few, length-take (suc m) xs),
    a,
  )

read_rounds-Received :
    (at_hand : ℕ → ℕ) (fuel k : ℕ) (r : Reader) (b : Buffer) (bs : Bytes)
    → Contains b bs
    → b.closed ≡ false
    → length bs + length r.bytes + read_block_size ≤ b.size
    → length r.bytes < fuel
    → Received b bs r (read_rounds at_hand fuel k r b)
unfolding read_rounds
read_rounds-Received at_hand zero k r b bs w o room l = absurd (omega (arith, l))
read_rounds-Received at_hand (suc fuel) k r b bs w o room l =
    let input = take (suc (at_hand k)) r.bytes in
    let (c, io) = read_from_round input b in
    let fills : Fills b input (c, io) =
      read_from_round-Fills input b bs w o
        (omega (arith, room, length-take (suc (at_hand k)) r.bytes)) in
    after_round-Received (read_rounds at_hand fuel (suc k)) r b c bs io
      (subst (λ q. Contains c (bs ++ q)) (accepted_part b c bs r.bytes (at_hand k) io fills)
        (read_from_round-Adds input b bs w))
      (Fills-part b c bs r.bytes (at_hand k) io fills)
      (λ n pos few v a.
        read_rounds-Received at_hand fuel (suc k) (rest_of n r) c (bs ++ take n r.bytes) v (a.1 ∙ o)
          (omega (
            arith,
            room,
            a.0,
            few,
            length-append bs (take n r.bytes),
            length-take n r.bytes,
            length-drop n r.bytes,
          ))
          (omega (arith, l, pos, few, length-drop n r.bytes)))

module _ (lib : PacketLib) where
  -- Whole messages that a connection delivers, in whatever portions, that the library reads back and that fit an open, empty
  -- ring beside one more block: `receiver` puts them into the ring up to the connection's own error and
  -- closes the ring, and `processor` then hands them to the service one after the other, each as it was
  -- sent, goes on after any error but that of DISCONNECT, and in the end finds the ring closed.
  pub receiver-processor :
      (at_hand : ℕ → ℕ) (b : Buffer) (xs : List (Sent lib)) (e : WireError) (w : World lib)
      → Contains b []
      → b.closed ≡ false
      → 5 ≤ b.size
      → length (stream lib xs) + read_block_size ≤ b.size
      → All (IsReadable lib b.size) xs
      → let got = read_from at_hand (record { bytes = stream lib xs; ending = e }) b in
        (got.2 ≡ network e)
        × (without_ring lib (processor lib (some got.0) w) ≡ serve_all lib true xs w)
  unfolding close
  receiver-processor at_hand b xs e w c o five room h =
      let got =
        read_rounds at_hand (suc (length (stream lib xs))) 0
          (record { bytes = stream lib xs; ending = e }) b in
      let (s, v, a) =
        read_rounds-Received at_hand (suc (length (stream lib xs))) 0
          (record { bytes = stream lib xs; ending = e }) b [] c o (omega (arith, room))
          (omega arith) in
      subst {A = Buffer × Reader × Stop}
        (λ q.
          ((deferred_close q).2 ≡ network e)
          × (without_ring lib (processor lib (some (deferred_close q).0) w)
              ≡ serve_all lib true xs w))
        (λ i. (got.0, got.1, sym s i))
        (
          refl,
          processor-serve_all lib (close got.0) xs w (close-Contains got.0 (stream lib xs) v)
              (omega (arith, five, a.0)) (subst (λ n. All (IsReadable lib n) xs) (sym a.0) h),
        )
