-- ===== src/Service/Process.antt =====
-- What a service does with a message from its connection: service/process.go.
pub mod Acknowledged
pub mod Steps
pub mod Limits
pub mod Bounded
pub mod Same
pub mod Steady
pub mod Alive
pub mod Sending
pub mod Refused
mod Tests
use xmqtt.Prelude.{ℕ, zero, suc, Bytes, Bool, true, false, Option, none, some, List, [], ◌∷◌, ◌++◌}
use xmqtt.Prelude.{
  if◌then◌else◌, ◌==◌, ltb, leb, ◌&&◌, ◌||◌, not, length, ◌+◌, ◌-◌, ◌*◌, ◌^◌, bytes_eq,
}
use xmqtt.Prelude.{Outcome, done, panicked, must, ◌>>=◌}
use xmqtt.Message.{
  PacketLib, MessageLib, MessageType, connect, connack, publish, puback, pubrec, pubrel,
}
use xmqtt.Message.{pubcomp, subscribe, suback, unsubscribe, unsuback, pingreq, pingresp, disconnect}
use xmqtt.Sessions.AckQueue.{AckQueue, AckMsg, AckError, BytesPool, put_bytes}
use xmqtt.Sessions.AckQueue.Methods.{ack, acked}
use xmqtt.Service.State.{
  Service, ServiceError, disconnected, bad_heartbeat, invalid_qos, invalid_type,
}
use xmqtt.Service.State.{
  bad_return_codes, queue, send_data, sent, the_session, the_queue, put_queue, Line,
}
use xmqtt.Service.State
use xmqtt.Service.Publish.{on_complete, own_complete, Done}

-- `strconv.Atoi`: an optional sign and at least one digit, in the range of an int64.
pub data Number : Type 0 where
  plus minus : ℕ → Number

digits_from : ℕ → Bytes → Option ℕ
digits_from n [] = some n
digits_from n (c ∷ cs) =
    if leb b'0' c && leb c b'9' then digits_from (n * 10 + (c - b'0')) cs else none

abbrev magnitude : Bytes → Option ℕ
magnitude [] = none
magnitude (c ∷ cs) = digits_from 0 (c ∷ cs)

abbrev at_most : ℕ → (ℕ → Number) → Option ℕ → Option Number
at_most k f none = none
at_most k f (some n) = if leb n k then some (f n) else none

pub atoi : Bytes → Option Number
unfolding digits_from
atoi [] = none
atoi (c ∷ cs) =
    if c == b'-'
    then at_most (2 ^ 63) minus (magnitude cs)
    else if c == b'+'
    then at_most (2 ^ 63 - 1) plus (magnitude cs)
    else at_most (2 ^ 63 - 1) plus (magnitude (c ∷ cs))

-- The heartbeat in seconds, between 1 and two hours.
pub clamp : Number → ℕ
clamp (minus n) = 1
clamp (plus n) = if ltb n 1 then 1 else if ltb (2 * 3600) n then 2 * 3600 else n

-- "/sys/service/heartbeat/update"
abbrev pub heartbeat_topic : Bytes
heartbeat_topic =
    b'/' ∷ b's' ∷ b'y' ∷ b's' ∷ b'/' ∷ b's' ∷ b'e' ∷ b'r' ∷ b'v' ∷ b'i' ∷ b'c' ∷ b'e' ∷ b'/' ∷ b'h'
    ∷ b'e' ∷ b'a' ∷ b'r' ∷ b't' ∷ b'b' ∷ b'e' ∷ b'a' ∷ b't' ∷ b'/' ∷ b'u' ∷ b'p' ∷ b'd' ∷ b'a'
    ∷ b't' ∷ b'e' ∷ []

-- The capacity of the channel `MsgChan`.
abbrev pub upload_capacity : ℕ
upload_capacity = 1024

abbrev is_publish : MessageType → Bool
is_publish publish = true
is_publish _ = false

-- The states that the last switch of `processAcked` lets through; `onPublish` for a PUBREL only logs.
abbrev is_complete : MessageType → Bool
is_complete pubrel = true
is_complete puback = true
is_complete pubcomp = true
is_complete suback = true
is_complete unsuback = true
is_complete pingresp = true
is_complete _ = false

abbrev is_pubrel : MessageType → Bool
is_pubrel pubrel = true
is_pubrel _ = false

module _ (lib : PacketLib) where
  open lib use {messages, decode, topic, payload, sub_topics, sub_qos, reply, suback_of, clear_will}
  open messages use {Message, mtype, packet_id, qos}

  -- The struct UploadMsg.
  pub record Upload : Type 0 where
    pub msg : Message
    pub device_name : Bytes
    pub product_key : Bytes

  -- A service, and what waits in `MsgChan`.
  abbrev pub World : Type 0
  World = Service lib × List Upload

  abbrev pub Handled : Type 0
  Handled = Outcome (World × Option ServiceError)

  -- The callback of an acknowledged message. That of a user of the package does not see the service,
  -- and its error is only logged, as is that of the service's own.
  abbrev pub call_back : AckMsg → Message → Service lib → Service lib
  call_back am got s = if am.on_complete == own_complete then (on_complete lib got s).0 else s

  -- The two buffers go back to the pool.
  abbrev pub give_back : AckMsg → BytesPool → BytesPool
  give_back am p = put_bytes am.msgbuf (put_bytes am.ackbuf p)

  -- One round of the loop of `processAcked`. A message or an acknowledgement that does not decode is
  -- logged and skipped; one whose saved type is no PUBLISH panics for a PUBREL.
  unfoldable pub finish : AckMsg → Service lib × BytesPool → Outcome (Service lib × BytesPool)
  finish am (s, p) = elim (decode am.mtype am.msgbuf) [
    | none ↦ done (s, p)
    | some msg ↦ elim (decode am.state am.ackbuf) [
      | none ↦ done (s, p)
      | some got ↦
          if not (is_complete am.state)
          then done (s, p)
          else if is_pubrel am.state && not (is_publish (mtype msg))
          then panicked
          else done (call_back am got s, give_back am p)
    ]
  ]

  unfoldable pub finish_all :
      List AckMsg → Service lib × BytesPool → Outcome (Service lib × BytesPool)
  unfolding finish
  finish_all [] w = done w
  finish_all (am ∷ ams) w = finish am w >>= λ w'. finish_all ams w'

  -- `processAcked` on one of the session's queues.
  unfoldable pub process_acked : Line → Service lib → Outcome (Service lib)
  unfolding finish_all
  process_acked l s = the_queue lib l s >>= λ q. acked q >>= λ q'.
      finish_all q'.ackdone (put_queue lib l q' s, q'.pool) >>= λ w.
      done (put_queue lib l (record q' { pool = w.1 }) w.0)

  unfoldable pub ack_on : Line → Message → Service lib → Done lib
  ack_on l msg s = the_queue lib l s >>= λ q. ack messages msg q >>= λ r.
      done (put_queue lib l r.0 s, elim r.1 [ none ↦ none | some e ↦ some (queue e) ])

  -- An acknowledgement whose error is not looked at.
  unfoldable pub completes : Line → Message → World → Handled
  unfolding ack_on process_acked
  completes l msg (s, u) =
      ack_on l msg s >>= λ r. process_acked l r.0 >>= λ s'. done ((s', u), none)

  abbrev pub answer : Message → World → World × Option ServiceError
  answer msg (s, u) = let (s', e) = sent lib msg s in ((s', u), e)

  -- A send on `keepAliveCH`; on the closed channel it panics.
  abbrev pub beat : ℕ → Service lib → Outcome (Service lib)
  beat n s = if s.ended then panicked else done (record s { heartbeats = s.heartbeats ++ (n ∷ []) })

  unfoldable pub process_heartbeat : Message → World → Handled
  process_heartbeat msg (s, u) = elim (atoi (payload msg)) [
    | none ↦ done ((s, u), some bad_heartbeat)
    | some n ↦ beat (clamp n) s >>= λ s'.
        done
          (if qos msg == 1 then answer (reply puback (packet_id msg)) (s', u) else ((s', u), none))
  ]

  -- The send on `MsgChan` that gives up where it is full. The two names are swapped in the source.
  abbrev pub upload : Message → World → World
  upload msg (s, u) =
      let it : Upload = record {
        msg = msg;
        device_name = s.product_key;
        product_key = s.device_name;
      } in
      (s, if ltb (length u) upload_capacity then u ++ (it ∷ []) else u)

  abbrev pub after_answer : Message → World × Option ServiceError → World × Option ServiceError
  after_answer msg (w, some e) = (w, some e)
  after_answer msg (w, none) = (upload msg w, none)

  unfoldable pub process_publish : Message → World → Handled
  unfolding process_heartbeat
  process_publish msg w =
      if bytes_eq (topic msg) heartbeat_topic
      then process_heartbeat msg w
      else if qos msg == 1
      then done (after_answer msg (answer (reply puback (packet_id msg)) w))
      else done (w, some invalid_qos)

  -- Every topic is granted the QoS that it asks for: `msg.Qos()[i]` for each topic, which panics where
  -- there are fewer.
  abbrev pub granted : List Bytes → List ℕ → Outcome (List ℕ)
  granted [] qs = done []
  granted (t ∷ ts) [] = panicked
  granted (t ∷ ts) (q ∷ qs) = granted ts qs >>= λ codes. done (q ∷ codes)

  unfoldable pub process_subscribe : Message → World → Handled
  process_subscribe msg (s, u) =
      let s' : Service lib = record s { rmsgs = [] } in
      granted (sub_topics msg) (sub_qos msg) >>= λ codes. elim (suback_of (packet_id msg) codes) [
        | none ↦ done ((s', u), some bad_return_codes)
        | some resp ↦ done (answer resp (s', u))
      ]

  unfoldable pub process_unsubscribe : Message → World → Handled
  process_unsubscribe msg w = done (answer (reply unsuback (packet_id msg)) w)

  -- A PUBREC is answered with a PUBREL.
  unfoldable pub process_pubrec : Message → World → Handled
  unfolding ack_on
  process_pubrec msg (s, u) = ack_on State.pub2out msg s >>= λ r. done (elim r.1 [
    | some e ↦ ((r.0, u), some e)
    | none ↦ answer (reply pubrel (packet_id msg)) (r.0, u)
  ])

  -- A PUBREL is answered with a PUBCOMP.
  unfoldable pub process_pubrel : Message → World → Handled
  unfolding ack_on process_acked
  process_pubrel msg (s, u) = ack_on State.pub2in msg s >>= λ r. elim r.1 [
    | some e ↦ done ((r.0, u), some e)
    | none ↦ process_acked State.pub2in r.0 >>= λ s'.
        done (answer (reply pubcomp (packet_id msg)) (s', u))
  ]

  unfoldable pub process_pubcomp : Message → World → Handled
  unfolding ack_on process_acked
  process_pubcomp msg (s, u) = ack_on State.pub2out msg s >>= λ r. elim r.1 [
    | some e ↦ done ((r.0, u), some e)
    | none ↦ process_acked State.pub2out r.0 >>= λ s'. done ((s', u), none)
  ]

  -- A DISCONNECT takes the will flag out of the session's CONNECT message.
  unfoldable pub process_disconnect : World → Handled
  process_disconnect (s, u) = the_session lib s >>= λ x. must x.cmsg >>= λ c.
      done
        ((record s { sess = some (record x { cmsg = some (clear_will c) }) }, u), some disconnected)

  unfoldable pub process_incoming : Message → World → Handled
  unfolding process_publish completes process_pubrec process_pubrel process_pubcomp
      process_subscribe process_unsubscribe process_disconnect
  process_incoming msg w = elim (mtype msg) [
    | publish ↦ process_publish msg w
    | puback ↦ completes State.pub1ack msg w
    | pubrec ↦ process_pubrec msg w
    | pubrel ↦ process_pubrel msg w
    | pubcomp ↦ process_pubcomp msg w
    | subscribe ↦ process_subscribe msg w
    | suback ↦ completes State.suback msg w
    | unsubscribe ↦ process_unsubscribe msg w
    | unsuback ↦ completes State.unsuback msg w
    | pingreq ↦ done (answer (reply pingresp 0) w)
    | pingresp ↦ completes State.pingack msg w
    | disconnect ↦ process_disconnect w
    | _ ↦ done (w, some invalid_type)
  ]
