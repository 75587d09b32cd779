-- ===== src/Service/State.antt =====
-- The struct `service` of service/service.go, and `sendData` of service/readwrite.go.
use xmqtt.Prelude.{ℕ, Bytes, Bool, Option, none, some, List, [], ◌∷◌, ◌++◌}
use xmqtt.Prelude.{if◌then◌else◌, Outcome, must, ◌>>=◌}
use xmqtt.Message.{PacketLib}
use xmqtt.Sessions.AckQueue.{AckQueue, AckError}
use xmqtt.Sessions.Session.{Session}

-- The errors of a connection's handlers; `queue` is one of the session's queues.
pub data ServiceError : Type 0 where
  disconnected bad_heartbeat invalid_qos invalid_type : ServiceError
  encode_failed write_failed no_callback bad_return_codes : ServiceError
  unsupported_ack invalid_ack_type : ServiceError
  queue : AckError → ServiceError

-- A connection is what has been written to it, and whether writing fails.
pub record Conn : Type 0 where
  pub written : List Bytes
  pub broken : Bool

-- `consts.LogReasonVal…`, why a device was logged out.
pub data Reason : Type 0 where
  no_reason tick_off server_close peer_reset keepalive_timeout device_disconnect : Reason

-- The queues of a session that the service uses.
pub data Line : Type 0 where
  pub1ack pub2in pub2out suback unsuback pingack : Line

module _ (lib : PacketLib) where
  open lib use {messages, connects, wire}

  -- `timers` is the field Map, from packet identifiers to timer tasks, and `cancelled` the tasks that
  -- were handed to `tw.Remove`. `heartbeats` is what was sent on `keepAliveCH`, which another goroutine
  -- takes at once; `ended` says that it and `done` are closed. The session is the service's alone:
  -- nothing else reads it through the store.
  pub record Service : Type 0 where
    pub product_key : Bytes
    pub device_name : Bytes
    pub conn : Option Conn
    pub sess : Option (Session connects)
    pub timers : List (ℕ × ℕ)
    pub cancelled : List ℕ
    pub heartbeats : List ℕ
    pub ended : Bool
    pub rmsgs : List messages.Message
    pub reason : Reason

  -- The service, the message as it was encoded, and the error. Without a connection the message is
  -- only logged.
  unfoldable pub send_data :
      messages.Message → Service → Service × messages.Message × Option ServiceError
  send_data msg s = elim (wire msg) [
    | none ↦ (s, msg, some encode_failed)
    | some (msg', b) ↦ elim s.conn [
      | none ↦ (s, msg', none)
      | some c ↦
          if c.broken
          then (s, msg', some write_failed)
          else (record s { conn = some (record c { written = c.written ++ (b ∷ []) }) }, msg', none)
    ]
  ]

  abbrev pub sent : messages.Message → Service → Service × Option ServiceError
  sent msg s = let (s', _, e) = send_data msg s in (s', e)

  abbrev pub queue_of : Line → Session connects → Option AckQueue
  queue_of pub1ack x = x.pub1ack
  queue_of pub2in x = x.pub2in
  queue_of pub2out x = x.pub2out
  queue_of suback x = x.suback
  queue_of unsuback x = x.unsuback
  queue_of pingack x = x.pingack

  abbrev pub with_queue : Line → AckQueue → Session connects → Session connects
  with_queue pub1ack q x = record x { pub1ack = some q }
  with_queue pub2in q x = record x { pub2in = some q }
  with_queue pub2out q x = record x { pub2out = some q }
  with_queue suback q x = record x { suback = some q }
  with_queue unsuback q x = record x { unsuback = some q }
  with_queue pingack q x = record x { pingack = some q }

  -- A session or a queue that is nil panics.
  abbrev pub the_session : Service → Outcome (Session connects)
  the_session s = must s.sess

  abbrev pub the_queue : Line → Service → Outcome AckQueue
  the_queue l s = the_session s >>= λ x. must (queue_of l x)

  abbrev pub put_queue : Line → AckQueue → Service → Service
  put_queue l q s = elim s.sess [ none ↦ s | some x ↦ record s { sess = some (with_queue l q x) } ]
