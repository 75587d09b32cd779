-- ===== src/Service/Receive/Stream.antt =====
-- The receiving loop on a stream of whole messages.
use xmqtt.Prelude.{ℕ, zero, suc, Bytes, false, some, List, [], ◌∷◌, ◌++◌, All, length}
use xmqtt.Prelude.{◌≡◌, refl, ap, ◌∙◌, arith, ◌<◌, ◌≤◌, ◌^◌, ◌/◌, ltb, fun_ext, length-append}
use xmqtt.Prelude.{done, ◌>>=◌}
use xmqtt.Message.{PacketLib}
use xmqtt.Service.Wire.{
  Reader, ok, WireError, get_peek_message_size, size_loop, get_peek_message, read_of,
}
use xmqtt.Service.Wire.Frame.{frame, get_peek_message-frame}
use xmqtt.Service.Process.{World, process_incoming}
use xmqtt.Service.Receive.{receive, receiver_data, Received, unread, go_on, decode_code}

module _ (lib : PacketLib) where
  open lib use {messages}
  open messages use {Message}

  -- A message, with the first byte and the body that stand for it on the wire.
  pub record Sent : Type 0 where
    pub head : ℕ
    pub body : Bytes
    pub msg : Message

  -- Its body has a length that MQTT can say, the whole is within the limit, and the library reads it.
  pub record IsReadable (max : ℕ) (x : Sent) : Type 0 where
    pub encodable : length x.body < 2 ^ 28
    pub allowed : length (frame x.head x.body) ≤ max
    pub decoded : decode_code lib (x.head / 16) (frame x.head x.body) ≡ some x.msg

  abbrev pub stream : List Sent → Bytes
  stream [] = []
  stream (x ∷ xs) = frame x.head x.body ++ stream xs

  -- The messages handed to the service one by one, up to the first that ends the connection; after the
  -- last one the error `e` does.
  abbrev pub serve : WireError → List Sent → World lib → Received lib
  serve e [] w = done (w, unread e)
  serve e (x ∷ xs) w = process_incoming lib x.msg w >>= λ p. go_on lib (serve e xs) p

  module _ (max : ℕ) (e : WireError) where
    abbrev reader : Bytes → Reader
    reader bs = record { bytes = bs; ending = e }

    receive_round :
        (n : ℕ) (r r' : Reader) (w : World lib) (t total : ℕ) (msg : Message)
        → get_peek_message_size r ≡ ok (t, total)
        → ltb max total ≡ false
        → get_peek_message (decode_code lib) t total r ≡ (r', ok msg)
        → receive lib max (suc n) r w
          ≡ (process_incoming lib msg w >>= λ p. go_on lib (receive lib max n r') p)
    unfolding receive
    receive_round n r r' w t total msg sizes small reads = rw (sizes, small, reads, receive) refl

    receive-frame :
        (n : ℕ) (x : Sent) (rest : Bytes) (w : World lib)
        → IsReadable max x
        → receive lib max (suc n) (reader (frame x.head x.body ++ rest)) w
          ≡ (process_incoming lib x.msg w >>= λ p. go_on lib (receive lib max n (reader rest)) p)
    receive-frame n x rest w h =
        receive_round n (reader (frame x.head x.body ++ rest)) (reader rest) w (x.head / 16)
          (length (frame x.head x.body)) x.msg both.0 (ground (arith, h.allowed))
          (both.1 ∙ ap (λ o. (reader rest, read_of o)) h.decoded)
      where
        both :
            (get_peek_message_size (reader (frame x.head x.body ++ rest))
              ≡ ok (x.head / 16, length (frame x.head x.body)))
            × (get_peek_message
                  (decode_code lib)
                  (x.head / 16)
                  (length (frame x.head x.body))
                  (reader (frame x.head x.body ++ rest))
                ≡ (reader rest, read_of (decode_code lib (x.head / 16) (frame x.head x.body))))
        both = get_peek_message-frame (decode_code lib) x.head x.body rest e h.encodable

    receive-stream :
        (n : ℕ) (xs : List Sent) (w : World lib)
        → All (IsReadable max) xs
        → length xs ≤ n
        → receive lib max (suc n) (reader (stream xs)) w ≡ serve e xs w
    unfolding receive get_peek_message_size size_loop
    receive-stream n [] w h l = refl
    receive-stream zero (x ∷ xs) w h l = absurd (omega arith)
    receive-stream (suc n) (x ∷ xs) w h l =
        receive-frame (suc n) x (stream xs) w h.0
        ∙ ap (λ k. process_incoming lib x.msg w >>= λ p. go_on lib k p)
            (fun_ext (λ w'. receive-stream n xs w' h.1 (omega arith)))

    length-stream : (xs : List Sent) → length xs ≤ length (stream xs)
    length-stream [] = omega arith
    length-stream (x ∷ xs) =
        omega (arith, length-append (frame x.head x.body) (stream xs), length-stream xs)

    -- Messages within the size limit, which the library reads back from the bytes that stand for them,
    -- and which stand one after the other on a connection, are handed to the service in that
    -- order, each exactly once and as it was sent, up to the first that ends the connection; and after
    -- the last one the connection's own error ends the loop.
    pub receiver_data-serve :
        (xs : List Sent) (w : World lib)
        → All (IsReadable max) xs
        → receiver_data lib max (reader (stream xs)) w ≡ serve e xs w
    unfolding receiver_data
    receiver_data-serve xs w h = receive-stream (length (stream xs)) xs w h (length-stream xs)
