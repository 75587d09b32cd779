-- ===== src/Sessions/Session.antt =====
-- `Session` of sessions/session.go. The mutex makes each method one step.
pub mod TopicMap
use xmqtt.Prelude.{
  ℕ, Bytes, Bool, true, false, Option, none, some, List, [], ◌∷◌, if◌then◌else◌, map,
}
use xmqtt.Prelude.{
  replicate, Outcome, done, panicked, must, ◌>>=◌, find_key, put_key, delete_key, not,
}
use xmqtt.Message.{ConnectLib}
use xmqtt.Sessions.AckQueue.{AckQueue, new_ackqueue}
use xmqtt.Sessions.AckQueue.Methods.{stop as stop_queue}

pub data SessionError : Type 0 where
  already_initialized not_initialized encode_failed decode_failed : SessionError

-- defaultQueueSize
abbrev pub default_queue_size : ℕ
default_queue_size = 16

module _ (lib : ConnectLib) where
  open lib use {Connect, Publish, new_connect, new_publish, connect_len, connect_encode}
  open lib use {connect_decode, publish_len, publish_encode, publish_decode, client_id}
  open lib use {will_flag, will_qos, will_topic, will_message, will_retain}
  open lib use {set_qos, set_topic, set_payload, set_retain}

  -- A pointer that may be nil is an option, and so is the map `topics`.
  pub record Session : Type 0 where
    pub pub1ack : Option AckQueue
    pub pub2in : Option AckQueue
    pub pub2out : Option AckQueue
    pub suback : Option AckQueue
    pub unsuback : Option AckQueue
    pub pingack : Option AckQueue
    pub cmsg : Option Connect
    pub will : Option Publish
    pub retained : Option Publish
    pub cbuf : Bytes
    pub rbuf : Bytes
    pub topics : Option (List (Bytes × ℕ))
    pub initted : Bool
    pub id : Bytes

  -- `&Session{id: id}`
  abbrev pub new_session : Bytes → Session
  new_session id = record {
    pub1ack = none;
    pub2in = none;
    pub2out = none;
    suback = none;
    unsuback = none;
    pingack = none;
    cmsg = none;
    will = none;
    retained = none;
    cbuf = [];
    rbuf = [];
    topics = none;
    initted = false;
    id = id;
  }

  abbrev pub Reply : Type 0
  Reply = Session × Option SessionError

  -- The CONNECT message is copied through the buffer `cbuf`.
  unfoldable pub copy_connect : Connect → Session → Reply
  copy_connect msg s =
      let (written, good) = connect_encode msg (replicate (connect_len msg) 0) in
      let (copy, fine) = connect_decode new_connect written in
      if not good
      then (record s { cbuf = written; cmsg = some new_connect }, some encode_failed)
      else (
        record s { cbuf = written; cmsg = some copy },
        if fine then none else some decode_failed,
      )

  abbrev pub will_of : Connect → Publish
  will_of c =
      set_retain (will_retain c)
        (set_payload (will_message c) (set_topic (will_topic c) (set_qos (will_qos c) new_publish)))

  -- What `Init` sets once the message is copied.
  abbrev pub finish_init : Connect → Connect → Session → Session
  finish_init msg copy s = record s {
    will = if will_flag copy then some (will_of copy) else s.will;
    topics = some [];
    id = client_id msg;
    pub1ack = some (new_ackqueue default_queue_size true);
    pub2in = some (new_ackqueue default_queue_size false);
    pub2out = some (new_ackqueue default_queue_size false);
    suback = some (new_ackqueue default_queue_size false);
    unsuback = some (new_ackqueue default_queue_size false);
    pingack = some (new_ackqueue default_queue_size false);
    initted = true;
  }

  unfoldable pub init : Connect → Session → Reply
  unfolding copy_connect
  init msg s =
      if s.initted
      then (s, some already_initialized)
      else (let (s', e) = copy_connect msg s in
          elim e [
            | some x ↦ (s', some x)
            | none ↦ elim s'.cmsg [
              | none ↦ (s', none)
              | some copy ↦ (finish_init msg copy s', none)
            ]
          ])

  pub update : Connect → Session → Reply
  unfolding copy_connect
  update msg s = copy_connect msg s

  pub retain_message : Publish → Session → Reply
  retain_message msg s =
      let (written, good) = publish_encode msg (replicate (publish_len msg) 0) in
      let (copy, fine) = publish_decode new_publish written in
      if not good
      then (record s { rbuf = written; retained = some new_publish }, some encode_failed)
      else (
        record s { rbuf = written; retained = some copy },
        if fine then none else some decode_failed,
      )

  -- An assignment to a nil map panics; a deletion from one does nothing.
  pub add_topic : Bytes → ℕ → Session → Outcome Reply
  add_topic topic q s = if not s.initted then done (s, some not_initialized) else elim s.topics [
    | none ↦ panicked
    | some m ↦ done (record s { topics = some (put_key topic q m) }, none)
  ]

  pub remove_topic : Bytes → Session → Reply
  remove_topic topic s = if not s.initted then (s, some not_initialized) else elim s.topics [
    | none ↦ (s, none)
    | some m ↦ (record s { topics = some (delete_key topic m) }, none)
  ]

  -- The two result slices are the entries' keys and values, in the order of the map's `range`.
  pub list_topics : Session → Option (List Bytes × List ℕ)
  list_topics s = if not s.initted then none else elim s.topics [
    | none ↦ some ([], [])
    | some m ↦ some (map (λ (e : Bytes × ℕ). e.0) m, map (λ (e : Bytes × ℕ). e.1) m)
  ]

  pub session_id : Session → Bytes
  session_id s = elim s.cmsg [ none ↦ s.id | some c ↦ client_id c ]

  -- `Stop`: a queue that is nil panics, and so does a second call.
  unfoldable pub stop : Session → Outcome Session
  stop s = must s.pub1ack >>= λ a. stop_queue a >>= λ _. must s.pingack >>= λ b.
      stop_queue b >>= λ _. must s.pub2out >>= λ c. stop_queue c >>= λ _. must s.pub2in >>= λ d.
      stop_queue d >>= λ _. must s.unsuback >>= λ e.
      stop_queue e >>= λ _. must s.suback >>= λ f. stop_queue f >>= λ _. done (stopped s)
    where
      stopped : Session → Session
      stopped t = record t {
        pub1ack = none;
        pingack = none;
        pub2out = none;
        pub2in = none;
        unsuback = none;
        suback = none;
        cbuf = [];
        cmsg = none;
        topics = none;
      }
