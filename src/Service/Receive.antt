-- ===== src/Service/Receive.antt =====
-- The loop of `receiverData` of service/readwrite.go.
pub mod Stream
pub mod Ends
mod Tests
use xmqtt.Prelude.{
  ℕ, zero, suc, Bytes, Bool, true, false, Option, none, some, ltb, length, if◌then◌else◌,
}
use xmqtt.Prelude.{List, [], ◌∷◌, get_or, Outcome, done, ◌>>=◌}
use xmqtt.Message.{
  PacketLib, MessageLib, MessageType, reserved, connect, connack, publish, puback, pubrec, pubrel,
}
use xmqtt.Message.{
  pubcomp, subscribe, suback, unsubscribe, unsuback, pingreq, pingresp, disconnect, reserved2,
}
use xmqtt.Service.State.{ServiceError}
use xmqtt.Service.Wire.{Reader, Read, ok, err, WireError, get_peek_message_size, get_peek_message}
use xmqtt.Service.Process.{World, process_incoming}

-- `message.MessageType(b[0] >> 4)`; `b[0]` is a byte.
abbrev codes : List MessageType
codes =
    reserved ∷ connect ∷ connack ∷ publish ∷ puback ∷ pubrec ∷ pubrel ∷ pubcomp ∷ subscribe ∷ suback
    ∷ unsubscribe ∷ unsuback ∷ pingreq ∷ pingresp ∷ disconnect ∷ reserved2 ∷ []

abbrev pub type_of_code : ℕ → MessageType
type_of_code n = get_or codes n reserved2

-- Why the loop ends: an error of the connection or of a message's bytes, a message over the size
-- limit, an error of `processIncoming`, or the closed channel `done`. `unfinished` is only the model's,
-- for fuel that does not suffice.
pub data Ending : Type 0 where
  unread : WireError → Ending
  too_large : Ending
  refused : ServiceError → Ending
  stopped : Ending
  unfinished : Ending

module _ (lib : PacketLib) where
  open lib use {messages, decode}
  open messages use {Message}

  abbrev pub Received : Type 0
  Received = Outcome (World lib × Ending)

  -- What follows a message that was processed.
  abbrev pub go_on : (World lib → Received) → World lib × Option ServiceError → Received
  go_on k (w, some x) = done (w, refused x)
  go_on k (w, none) = elim w.0.ended [ true ↦ done (w, stopped) | false ↦ k w ]

  abbrev pub decode_code : ℕ → Bytes → Option Message
  decode_code t b = decode (type_of_code t) b

  -- What the loop does with what `getPeekMessage` returns.
  abbrev pub take_up :
      (Reader → World lib → Received) → World lib → Reader × Read Message → Received
  take_up k w (r', err e) = done (w, unread e)
  take_up k w (r', ok msg) = process_incoming lib msg w >>= λ p. go_on (k r') p

  -- `max` is the server's MaxBufferSize.
  module _ (max : ℕ) where
    unfoldable pub receive : ℕ → Reader → World lib → Received
    receive zero r w = done (w, unfinished)
    receive (suc fuel) r w = elim (get_peek_message_size r) [
      | err e ↦ done (w, unread e)
      | ok (t, total) ↦ elim (ltb max total) [
        | true ↦ done (w, too_large)
        | false ↦ take_up (receive fuel) w (get_peek_message decode_code t total r)
      ]
    ]

  -- Every round takes two bytes at least.
  unfoldable pub receiver_data : ℕ → Reader → World lib → Received
  unfolding receive
  receiver_data max r w = receive max (suc (length r.bytes)) r w
