-- ===== src/Service/Publish.antt =====
-- What a service sends and what it does when the answer comes: `publish`, `onComplete`, `subscribe`,
-- `unsubscribe` and `ping` of service/service.go.
use xmqtt.Prelude.{ℕ, Bool, true, false, Option, none, some, List, [], ◌∷◌, ◌++◌}
use xmqtt.Prelude.{
  if◌then◌else◌, ◌==◌, ◌||◌, not, length, All, ◌≡◌, ◌≢◌, ◌↔◌, arith, Outcome, done, panicked, ◌>>=◌,
}
use xmqtt.Message.{PacketLib, MessageType, pingreq, puback, pubcomp, suback, unsuback, pingresp}
use xmqtt.Message.{subscribe as subscribe_type, unsubscribe as unsubscribe_type}
use xmqtt.Sessions.AckQueue.{find_id, put_id, delete_id}
use xmqtt.Sessions.AckQueue.Methods.{wait}
use xmqtt.Service.State.{Service, ServiceError, encode_failed, unsupported_ack, invalid_ack_type}
use xmqtt.Service.State.{no_callback, queue, send_data, the_queue, put_queue, Line}
use xmqtt.Service.State

-- A callback is a number: 0 for nil, 1 for the service's own `onComplete`, and others for those of
-- the package's users.
abbrev pub no_complete : ℕ
no_complete = 0

abbrev pub own_complete : ℕ
own_complete = 1

-- The error that the closure of `subscribe` hands to the caller's callback, none for success; where
-- several topics failed it names them all. A callback with an error of its own is handed that one.
pub data SubError : Type 0 where
  not_subscribe not_suback other_id other_count topic_failed : SubError

abbrev is_type : MessageType → MessageType → Bool
is_type subscribe_type subscribe_type = true
is_type suback suback = true
is_type unsubscribe_type unsubscribe_type = true
is_type unsuback unsuback = true
is_type _ _ = false

-- The last loop of the closure: whether a code is QosFailure.
any_failed : List ℕ → Bool
any_failed [] = false
any_failed (c ∷ cs) = c == 0x80 || any_failed cs

any_failed_iff : (cs : List ℕ) → (any_failed cs ≡ false) ↔ All (λ c. c ≢ 0x80) cs
unfolding any_failed
any_failed_iff [] = ground arith
any_failed_iff (c ∷ cs) = ground (arith, any_failed_iff cs)

module _ (lib : PacketLib) where
  open lib use {messages, sub_topics, return_codes, reply}
  open messages use {Message, mtype, packet_id, qos}

  abbrev pub Done : Type 0
  Done = Outcome (Service lib × Option ServiceError)

  -- `onComplete`: the timer of the acknowledged message is taken out of the map and cancelled.
  unfoldable pub on_complete : Message → Service lib → Service lib × Option ServiceError
  on_complete ack s = elim (mtype ack) [
    | puback ↦ elim (find_id (packet_id ack) s.timers) [
      | none ↦ (s, none)
      | some t ↦ (
        record s {
          timers = delete_id (packet_id ack) s.timers;
          cancelled = s.cancelled ++ (t ∷ []);
        },
        none,
      )
    ]
    | pubcomp ↦ (s, some unsupported_ack)
    | suback ↦ (s, some unsupported_ack)
    | unsuback ↦ (s, some unsupported_ack)
    | pingresp ↦ (s, some unsupported_ack)
    | _ ↦ (s, some invalid_ack_type)
  ]

  -- `Wait` on one of the session's queues, at the time `now`.
  unfoldable pub wait_on : Line → ℕ → Message → ℕ → Service lib → Done
  wait_on l now msg oc s = the_queue lib l s >>= λ q. wait messages now msg oc q >>= λ r.
      done (put_queue lib l r.0 s, elim r.1 [ none ↦ none | some e ↦ some (queue e) ])

  -- The task of the timing wheel, when the acknowledgement does not come in time.
  pub ack_timeout : ℕ → Service lib → Service lib
  ack_timeout id s = record s { timers = delete_id id s.timers }

  -- The QoS 1 case: the timer is stored first; `task` is what `tw.Add` returns. Without a session the
  -- message is not waited for.
  unfoldable pub publish_once : ℕ → ℕ → Message → ℕ → Service lib → Done
  unfolding wait_on
  publish_once now task msg oc s =
      let s' : Service lib = record s { timers = put_id (packet_id msg) task s.timers } in
      elim s'.sess [
        | none ↦ done (s', none)
        | some x ↦ elim x.pub1ack [
          | none ↦ done (s', none)
          | some q ↦ wait_on State.pub1ack now msg oc s'
        ]
      ]

  -- `client` is what a user's callback returns for a message that needs no acknowledgement; the
  -- service's own callback is given a nil `ack` there, and panics.
  module _ (client : ℕ → Message → Option ServiceError) where
    unfoldable pub publish : ℕ → ℕ → Message → ℕ → Service lib → Done
    unfolding publish_once wait_on send_data
    publish now task msg oc s =
        let (s', msg', e) = send_data lib msg s in
        elim e [
          | some x ↦ done (s', some x)
          | none ↦
              if qos msg' == 0
              then (if oc == no_complete
                  then done (s', none)
                  else if oc == own_complete
                  then panicked
                  else done (s', client oc msg'))
              else if qos msg' == 1
              then publish_once now task msg' oc s'
              else if qos msg' == 2
              then wait_on State.pub2out now msg' oc s'
              else done (s', none)
        ]

  -- `subscribe`, whose callback to the caller is `on_publish`, 0 for nil. The closure that it waits
  -- with is the token `onc`.
  unfoldable pub subscribe : ℕ → Message → ℕ → ℕ → Service lib → Done
  unfolding wait_on send_data
  subscribe now msg onc on_publish s =
      if on_publish == 0
      then done (s, some no_callback)
      else (let (s', msg', e) = send_data lib msg s in
          elim e [ some x ↦ done (s', some x) | none ↦ wait_on State.suback now msg' onc s' ])

  unfoldable pub unsubscribe : ℕ → Message → ℕ → Service lib → Done
  unfolding wait_on send_data
  unsubscribe now msg onc s =
      let (s', msg', e) = send_data lib msg s in
      elim e [ some x ↦ done (s', some x) | none ↦ wait_on State.unsuback now msg' onc s' ]

  unfoldable pub ping : ℕ → ℕ → Service lib → Done
  unfolding wait_on send_data
  ping now oc s =
      let msg = reply pingreq 0 in
      let (s', msg', e) = send_data lib msg s in
      elim e [ some x ↦ done (s', some x) | none ↦ wait_on State.pingack now msg' oc s' ]

  unfoldable pub sub_complete : Message → Message → Option SubError
  unfolding any_failed
  sub_complete msg ack =
      if not (is_type subscribe_type (mtype msg))
      then some not_subscribe
      else if not (is_type suback (mtype ack))
      then some not_suback
      else if not (packet_id msg == packet_id ack)
      then some other_id
      else if not (length (sub_topics msg) == length (return_codes ack))
      then some other_count
      else if any_failed (return_codes ack)
      then some topic_failed
      else none

  unfoldable pub unsub_complete : Message → Message → Option SubError
  unsub_complete msg ack =
      if not (is_type unsubscribe_type (mtype msg))
      then some not_subscribe
      else if not (is_type unsuback (mtype ack))
      then some not_suback
      else if not (packet_id msg == packet_id ack)
      then some other_id
      else none

  -- The SUBACK answers a SUBSCRIBE with success exactly if it is one for it: the same packet
  -- identifier, a code for each topic, and no code that is a failure.
  pub sub_complete_lem :
      (msg ack : Message)
      → mtype msg ≡ subscribe_type
      → mtype ack ≡ suback
      → (sub_complete msg ack ≡ none) ↔ (
          (packet_id msg ≡ packet_id ack)
          × (length (sub_topics msg) ≡ length (return_codes ack))
          × All (λ c. c ≢ 0x80) (return_codes ack))
  unfolding sub_complete
  sub_complete_lem msg ack e f = ground (arith, any_failed_iff (return_codes ack))
