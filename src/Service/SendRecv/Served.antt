-- ===== src/Service/SendRecv/Served.antt =====
-- The loop `processor` on a ring that holds whole messages.
use xmqtt.Prelude.{ℕ, zero, suc, Bytes, Bool, true, false, Option, some, List, [], ◌∷◌, All}
use xmqtt.Prelude.{◌≡◌, refl, ap, ◌∙◌, arith, subst, ◌+◌, ◌≤◌, ◌/◌, length, drop, length-append}
use xmqtt.Prelude.{Outcome, done, panicked, ◌>>=◌, if◌then◌else◌, ◌&&◌, ◌==◌, fun_ext}
use xmqtt.Message.{PacketLib}
use xmqtt.Service.State.{ServiceError}
use xmqtt.Service.Buffer.{Buffer, len, eof}
use xmqtt.Service.Buffer.Fifo.{Contains, Contains-consumed}
use xmqtt.Service.Buffer.Fifo.Taken.{Contains-tmp, read_commit-takes}
use xmqtt.Service.Buffer.Reading.{read_commit}
use xmqtt.Service.Wire.Frame.{take_all, drop_all, frame, get_peek_message-frame}
use xmqtt.Service.Process.{World, process_incoming}
use xmqtt.Service.Receive.{decode_code}
use xmqtt.Service.Receive.Stream.{Sent, IsReadable, stream}
use xmqtt.Service.SendRecv.{
  Processed, Halt, broken, hung_up, finished, waiting, is_disconnect, ring,
}
use xmqtt.Service.SendRecv.{
  processor, process_ring, of_decode, after_size, after_peek, after_handled, committed,
}
use xmqtt.Service.SendRecv.Peeked.{size_in_ring-reader, peek_in_ring-whole, on_ring, at_ring_end}
use xmqtt.Service.Wire.{timeout, get_peek_message_size, size_loop}

module _ (lib : PacketLib) where
  open lib use {messages}
  open messages use {Message}

  abbrev pub Report : Type 0
  Report = Outcome (World lib × Halt)

  -- What is seen of the loop without its ring.
  abbrev pub seen : Processed lib → Report
  seen o = o >>= λ r. done (r.1, r.2)

  abbrev at_end : Bool → Halt
  at_end true = broken (ring eof)
  at_end false = waiting

  abbrev is_last : List (Sent lib) → Bool
  is_last [] = true
  is_last (x ∷ xs) = false

  -- What follows a message that was handed over, with `xs` to come.
  abbrev pub heed :
      (World lib → Report) → List (Sent lib) → World lib × Option ServiceError → Report
  heed k xs (w, x) =
      if is_disconnect x
      then done (w, hung_up)
      else if w.0.ended && is_last xs
      then done (w, finished)
      else k w

  -- The messages handed to the service one by one, whatever it says to each, up to a DISCONNECT. After
  -- the last one the loop ends if the service has ended; otherwise it finds the ring closed, or waits.
  abbrev pub serve_all : Bool → List (Sent lib) → World lib → Report
  serve_all closed [] w = done (w, at_end closed)
  serve_all closed (x ∷ xs) w =
      process_incoming lib x.msg w >>= λ p. heed (serve_all closed xs) xs p

  seen-bind :
      {A : Type 0} (o : Outcome A) (f : A → Processed lib) (g : A → Report)
      → ((a : A) → seen (f a) ≡ g a)
      → seen (o >>= f) ≡ (o >>= g)
  seen-bind panicked f g h = refl
  seen-bind (done a) f g h = h a

  last-empty :
      (b : Buffer) (bs : Bytes) (xs : List (Sent lib))
      → Contains b bs
      → bs ≡ stream lib xs
      → (len b == 0) ≡ is_last xs
  unfolding len
  last-empty b bs [] c e = ground (arith, c.counted, ap length e)
  last-empty b bs (x ∷ xs) c e = ground (arith, c.counted, ap length e)

  seen-if :
      (c : Bool) (b : Buffer) (w : World lib) (h : Halt) (o : Processed lib)
      → seen (if c then done (b, w, h) else o) ≡ (if c then done (w, h) else seen o)
  seen-if true b w h o = refl
  seen-if false b w h o = refl

  abbrev moved_on : Buffer → ℕ → Buffer
  moved_on b total = record b { cseq = b.cseq + total }

  after_handled-heed :
      (k : Buffer → World lib → Processed lib) (total : ℕ) (b : Buffer) (bs : Bytes)
      (xs : List (Sent lib)) (p : World lib × Option ServiceError)
      → Contains b bs
      → total ≤ length bs
      → drop total bs ≡ stream lib xs
      → seen (after_handled lib k total b p) ≡ heed (λ w. seen (k (moved_on b total) w)) xs p
  unfolding after_handled
  after_handled-heed k total b bs xs (w, x) c h e =
      seen-if (is_disconnect x) b w hung_up (committed lib k w (read_commit total b))
      ∙ ap (λ (r : Report). if is_disconnect x then done (w, hung_up) else r)
          (ap (λ r. seen (committed lib k w r)) (read_commit-takes b bs c total h)
            ∙ seen-if (w.0.ended && len (moved_on b total) == 0) (moved_on b total) w finished
                (k (moved_on b total) w)
            ∙ ap (λ l. if w.0.ended && l then done (w, finished) else seen (k (moved_on b total) w))
                (last-empty (moved_on b total) (drop total bs) xs (Contains-consumed b bs c total h)
                  e))

  -- A round of the loop on a ring that starts with a whole message.
  process_ring_round :
      (n : ℕ) (b : Buffer) (x : Sent lib) (xs : List (Sent lib)) (w : World lib)
      → Contains b (stream lib (x ∷ xs))
      → 5 ≤ b.size
      → IsReadable lib b.size x
      → (t : Bytes) × (process_ring lib (suc n) b w ≡ (
          process_incoming lib x.msg w >>= λ p.
          after_handled lib
            (process_ring lib n)
            (length (frame x.head x.body))
            (record b { tmp = t })
            p))
  unfolding process_ring after_size after_peek
  process_ring_round n b x xs w c five r =
      let (t, e) = size_in_ring-reader b (stream lib (x ∷ xs)) c five in
      let total = length (frame x.head x.body) in
      let sizes =
        (get_peek_message-frame (decode_code lib) x.head x.body (stream lib xs) timeout
          r.encodable).0 in
      let (u, f) =
        peek_in_ring-whole lib (x.head / 16) total (record b { tmp = t }) (stream lib (x ∷ xs))
          (Contains-tmp b (stream lib (x ∷ xs)) c t)
          (omega (arith, length-append (frame x.head x.body) (stream lib xs))) in
      let whole =
        ap (decode_code lib (x.head / 16)) (take_all (frame x.head x.body) (stream lib xs))
        ∙ r.decoded in
      (
        u,
        ap (after_size lib (process_ring lib n) w)
              (e ∙ ap (λ o. (record b { tmp = t }, on_ring b.closed o)) sizes)
            ∙ ap (after_peek lib (process_ring lib n) total w)
                (f ∙ ap (λ o. (record b { tmp = u }, of_decode lib o)) whole),
      )

  at_end-seen :
      (k : Buffer → World lib → Processed lib) (b : Buffer) (w : World lib) (c : Bool)
      → seen (after_size lib k w (b, at_ring_end c)) ≡ done (w, at_end c)
  unfolding after_size
  at_end-seen k b w true = refl
  at_end-seen k b w false = refl

  process_ring-stream :
      (n : ℕ) (b : Buffer) (xs : List (Sent lib)) (w : World lib)
      → Contains b (stream lib xs)
      → 5 ≤ b.size
      → All (IsReadable lib b.size) xs
      → length xs ≤ n
      → seen (process_ring lib (suc n) b w) ≡ serve_all b.closed xs w
  unfolding process_ring get_peek_message_size size_loop
  process_ring-stream n b [] w c five r h =
      let (t, e) = size_in_ring-reader b [] c five in
      ap (λ o. seen (after_size lib (process_ring lib n) w o)) e
      ∙ at_end-seen (process_ring lib n) (record b { tmp = t }) w b.closed
  process_ring-stream zero b (x ∷ xs) w c five r h = absurd (omega (arith, h))
  process_ring-stream (suc n) b (x ∷ xs) w c five r h =
      let (t, e) = process_ring_round (suc n) b x xs w c five r.0 in
      let total = length (frame x.head x.body) in
      let bs = stream lib (x ∷ xs) in
      let b' : Buffer = record b { tmp = t } in
      let inside : total ≤ length bs =
        omega (arith, length-append (frame x.head x.body) (stream lib xs)) in
      let rest = drop_all (frame x.head x.body) (stream lib xs) in
      let later = Contains-consumed b' bs (Contains-tmp b bs c t) total inside in
      ap seen e
      ∙ seen-bind (process_incoming lib x.msg w) _
          (λ p. heed (λ w'. seen (process_ring lib (suc n) (moved_on b' total) w')) xs p)
          (λ p.
            after_handled-heed (process_ring lib (suc n)) total b' bs xs p (Contains-tmp b bs c t)
              inside rest)
      ∙ ap (λ k. process_incoming lib x.msg w >>= λ p. heed k xs p)
          (fun_ext (λ w'.
            process_ring-stream n (moved_on b' total) xs w'
              (subst (Contains (moved_on b' total)) rest later) five r.1 (omega (arith, h))))

  abbrev pub without_ring : Outcome (Option Buffer × World lib × Halt) → Report
  without_ring o = o >>= λ r. done (r.1, r.2)

  forget :
      (o : Processed lib)
      → without_ring (o >>= λ (r : Buffer × World lib × Halt). done (some r.0, r.1, r.2)) ≡ seen o
  forget panicked = refl
  forget (done r) = refl

  length-stream : (xs : List (Sent lib)) → length xs ≤ length (stream lib xs)
  length-stream [] = omega arith
  length-stream (x ∷ xs) =
      omega (arith, length-append (frame x.head x.body) (stream lib xs), length-stream xs)

  -- A ring with room for a header, in which whole messages wait that each fit the ring and that the
  -- library reads back from the bytes that stand for them: `processor` hands them to the service in
  -- that order, each exactly once and as it was sent. It goes on after a message that is refused with
  -- any error but that of DISCONNECT, and stops after the last one only, if the service has ended; else
  -- it finds the ring closed or waits for more.
  pub processor-serve_all :
      (b : Buffer) (xs : List (Sent lib)) (w : World lib)
      → Contains b (stream lib xs)
      → 5 ≤ b.size
      → All (IsReadable lib b.size) xs
      → without_ring (processor lib (some b) w) ≡ serve_all b.closed xs w
  unfolding processor
  processor-serve_all b xs w c five r =
      forget (process_ring lib (suc (len b)) b w)
      ∙ process_ring-stream (len b) b xs w c five r
          (waiting_bytes b (stream lib xs) c (length-stream xs))
    where
      waiting_bytes :
          (v : Buffer) (bs : Bytes) → Contains v bs → length xs ≤ length bs → length xs ≤ len v
      waiting_bytes v bs u h = unfold len in omega (arith, u.counted, h)
