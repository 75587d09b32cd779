-- ===== src/Service/Process/Steady.antt =====
-- What every handler of a message keeps, if the steps that the handlers are made of do.
use xmqtt.Prelude.{Option, none, some, List, []}
use xmqtt.Prelude.{◌≡◌, refl, subst, if◌then◌else◌}
use xmqtt.Prelude.{done, must, ◌>>=◌, bytes_eq, if_both, ◌==◌}
use xmqtt.Message.{
  PacketLib, MessageType, publish, puback, pubrec, pubrel, pubcomp, subscribe, suback,
}
use xmqtt.Message.{
  unsubscribe, unsuback, pingreq, pingresp, disconnect, connect, connack, reserved, reserved2,
}
use xmqtt.Service.State.{Service, ServiceError, Line, send_data, the_queue, put_queue}
use xmqtt.Service.State
use xmqtt.Service.Process.{World, Handled, Upload, clamp, atoi, Number}
use xmqtt.Service.Process.{
  process_heartbeat, process_publish, process_subscribe, answer, granted, beat, heartbeat_topic,
}
use xmqtt.Service.Process.{process_unsubscribe, process_pubrec, process_pubrel, process_pubcomp}
use xmqtt.Service.Process.{process_disconnect, process_incoming, upload, after_answer}
use xmqtt.Prelude.{Returns, Returns->>=, Returns-any, must-some}
use xmqtt.Service.Process.{completes, ack_on, process_acked}
use xmqtt.Sessions.Session.{Session}

module _ (lib : PacketLib) where
  open lib use {messages}
  open messages use {Message, mtype, packet_id, qos}

  -- The steps keep `I`.
  pub record Steady (I : World lib → Type 0) : Type 0 where
    pub answers : (msg : Message) (w : World lib) → I w → I (answer lib msg w).0
    pub acks :
        (l : Line) (msg : Message) (s : Service lib) (u : List (Upload lib))
        → I (s, u)
        → Returns (λ (r : Service lib × Option ServiceError). I (r.0, u)) (ack_on lib l msg s)
    pub finishes :
        (l : Line) (s : Service lib) (u : List (Upload lib))
        → I (s, u)
        → Returns (λ (s' : Service lib). I (s', u)) (process_acked lib l s)
    pub clears :
        (s : Service lib) (u : List (Upload lib)) → I (s, u) → I (record s { rmsgs = [] }, u)
    pub beats :
        (n : Number) (s : Service lib) (u : List (Upload lib))
        → I (s, u)
        → Returns (λ (s' : Service lib). I (s', u)) (beat lib (clamp n) s)
    pub uploads : (msg : Message) (w : World lib) → I w → I (upload lib msg w)
    pub wills :
        (s : Service lib) (u : List (Upload lib)) (x : Session lib.connects)
        (c : lib.connects.Connect)
        → s.sess ≡ some x
        → I (s, u)
        → I (record s { sess = some (record x { cmsg = some c }) }, u)

module _ (lib : PacketLib) (I : World lib → Type 0) (st : Steady lib I) where
  open lib use {messages}
  open messages use {Message, mtype, packet_id, qos}

  -- A handler keeps it, if it returns.
  abbrev pub Keeps : Handled lib → Type 0
  Keeps = Returns (λ (r : World lib × Option ServiceError). I r.0)

  after_ack :
      (l : Line) (msg : Message) (s : Service lib) (u : List (Upload lib))
      (f : Service lib × Option ServiceError → Handled lib)
      → I (s, u)
      → ((r : Service lib × Option ServiceError) → I (r.0, u) → Keeps (f r))
      → Keeps (ack_on lib l msg s >>= f)
  after_ack l msg s u f b h =
      Returns->>= (λ (r : Service lib × Option ServiceError). I (r.0, u))
        (λ (r : World lib × Option ServiceError). I r.0) (ack_on lib l msg s) f
        (st.acks l msg s u b) h

  after_acked :
      (l : Line) (s : Service lib) (u : List (Upload lib)) (f : Service lib → Handled lib)
      → I (s, u)
      → ((s' : Service lib) → I (s', u) → Keeps (f s'))
      → Keeps (process_acked lib l s >>= f)
  after_acked l s u f b h =
      Returns->>= (λ (s' : Service lib). I (s', u)) (λ (r : World lib × Option ServiceError). I r.0)
        (process_acked lib l s) f (st.finishes l s u b) h

  completes-Keeps :
      (l : Line) (msg : Message) (s : Service lib) (u : List (Upload lib))
      → I (s, u)
      → Keeps (completes lib l msg (s, u))
  unfolding completes
  completes-Keeps l msg s u b =
      after_ack l msg s u _ b (λ r h. after_acked l r.0 u _ h (λ s' h'. h'))

  either :
      (e : Option ServiceError) (a : Handled lib) (b : ServiceError → Handled lib)
      → Keeps a
      → ((x : ServiceError) → Keeps (b x))
      → Keeps (elim e as (λ _. Handled lib) [ none ↦ a | some x ↦ b x ])
  either none a b h g = h
  either (some x) a b h g = g x

  process_pubrec-Keeps :
      (msg : Message) (s : Service lib) (u : List (Upload lib))
      → I (s, u)
      → Keeps (process_pubrec lib msg (s, u))
  unfolding process_pubrec
  process_pubrec-Keeps msg s u b = after_ack State.pub2out msg s u _ b go
    where
      go :
          (r : Service lib × Option ServiceError)
          → I (r.0, u)
          → Keeps (
              done (elim r.1 as (λ _. World lib × Option ServiceError) [
                | none ↦ answer lib (lib.reply pubrel (packet_id msg)) (r.0, u)
                | some e ↦ ((r.0, u), some e)
              ]))
      go (s', none) b' = st.answers (lib.reply pubrel (packet_id msg)) (s', u) b'
      go (s', some e) b' = b'

  process_pubrel-Keeps :
      (msg : Message) (s : Service lib) (u : List (Upload lib))
      → I (s, u)
      → Keeps (process_pubrel lib msg (s, u))
  unfolding process_pubrel
  process_pubrel-Keeps msg s u b = after_ack State.pub2in msg s u _ b (λ r b'.
      either r.1 _ _
        (after_acked State.pub2in r.0 u _ b'
          (λ s' k. st.answers (lib.reply pubcomp (packet_id msg)) (s', u) k))
        (λ x. b'))

  process_pubcomp-Keeps :
      (msg : Message) (s : Service lib) (u : List (Upload lib))
      → I (s, u)
      → Keeps (process_pubcomp lib msg (s, u))
  unfolding process_pubcomp
  process_pubcomp-Keeps msg s u b =
      after_ack State.pub2out msg s u _ b
        (λ r b'. either r.1 _ _ (after_acked State.pub2out r.0 u _ b' (λ s' k. k)) (λ x. b'))

  process_subscribe-Keeps :
      (msg : Message) (s : Service lib) (u : List (Upload lib))
      → I (s, u)
      → Keeps (process_subscribe lib msg (s, u))
  unfolding process_subscribe
  process_subscribe-Keeps msg s u b =
      let codes = granted lib (lib.sub_topics msg) (lib.sub_qos msg) in
      let fresh : Service lib = record s { rmsgs = [] } in
      let b' : I (fresh, u) = st.clears s u b in
      Returns->>= (λ qs. Unit {0}) (λ (r : World lib × Option ServiceError). I r.0) codes _
        (Returns-any codes) (λ qs _. made (lib.suback_of (packet_id msg) qs) fresh b')
    where
      made :
          (o : Option Message) (s' : Service lib)
          → I (s', u)
          → Keeps (elim o as (λ _. Handled lib) [
            | none ↦ done ((s', u), some State.bad_return_codes)
            | some resp ↦ done (answer lib resp (s', u))
          ])
      made none s' b' = b'
      made (some resp) s' b' = st.answers resp (s', u) b'

  after_answer_kept :
      (msg : Message) (r : World lib × Option ServiceError) → I r.0 → I (after_answer lib msg r).0
  after_answer_kept msg (w, none) b = st.uploads msg w b
  after_answer_kept msg (w, some e) b = b

  process_heartbeat-Keeps :
      (msg : Message) (s : Service lib) (u : List (Upload lib))
      → I (s, u)
      → Keeps (process_heartbeat lib msg (s, u))
  unfolding process_heartbeat
  process_heartbeat-Keeps msg s u b = read (atoi (lib.payload msg))
    where
      read :
          (o : Option Number)
          → Keeps (elim o as (λ _. Handled lib) [
            | none ↦ done ((s, u), some State.bad_heartbeat)
            | some n ↦ beat lib (clamp n) s >>= λ s'. done (
                if qos msg == 1
                then answer lib (lib.reply puback (packet_id msg)) (s', u)
                else ((s', u), none))
          ])
      read none = b
      read (some n) =
          Returns->>= (λ s'. I (s', u)) (λ (r : World lib × Option ServiceError). I r.0)
            (beat lib (clamp n) s) _ (st.beats n s u b)
            (λ s' k.
              if_both (λ (r : World lib × Option ServiceError). I r.0) (qos msg == 1)
                (st.answers (lib.reply puback (packet_id msg)) (s', u) k) k)

  process_publish-Keeps :
      (msg : Message) (s : Service lib) (u : List (Upload lib))
      → I (s, u)
      → Keeps (process_publish lib msg (s, u))
  unfolding process_publish
  process_publish-Keeps msg s u b =
      if_both (Keeps) (bytes_eq (lib.topic msg) heartbeat_topic) (process_heartbeat-Keeps msg s u b)
        (if_both (Keeps) (qos msg == 1)
          (after_answer_kept msg (answer lib (lib.reply puback (packet_id msg)) (s, u))
            (st.answers (lib.reply puback (packet_id msg)) (s, u) b))
          b)

  process_disconnect-Keeps :
      (s : Service lib) (u : List (Upload lib)) → I (s, u) → Keeps (process_disconnect lib (s, u))
  unfolding process_disconnect
  process_disconnect-Keeps s u b =
      Returns->>= (λ x. s.sess ≡ some x) (λ (r : World lib × Option ServiceError). I r.0)
        (must s.sess) _ (must-some s.sess)
        (λ x e.
          Returns->>= (λ c. Unit {0}) (λ (r : World lib × Option ServiceError). I r.0) (must x.cmsg)
            _ (Returns-any (must x.cmsg)) (λ c _. st.wills s u x (lib.clear_will c) e b))

  handled :
      (t : MessageType) (msg : Message) (s : Service lib) (u : List (Upload lib))
      → mtype msg ≡ t
      → I (s, u)
      → Keeps (process_incoming lib msg (s, u))
  unfolding process_incoming
  handled publish msg s u e b = rw (e, process_incoming) (process_publish-Keeps msg s u b)
  handled puback msg s u e b = rw (e, process_incoming) (completes-Keeps State.pub1ack msg s u b)
  handled pubrec msg s u e b = rw (e, process_incoming) (process_pubrec-Keeps msg s u b)
  handled pubrel msg s u e b = rw (e, process_incoming) (process_pubrel-Keeps msg s u b)
  handled pubcomp msg s u e b = rw (e, process_incoming) (process_pubcomp-Keeps msg s u b)
  handled subscribe msg s u e b = rw (e, process_incoming) (process_subscribe-Keeps msg s u b)
  handled suback msg s u e b = rw (e, process_incoming) (completes-Keeps State.suback msg s u b)
  handled unsubscribe msg s u e b =
      rw (e, process_incoming)
        (unfold process_unsubscribe in st.answers (lib.reply unsuback (packet_id msg)) (s, u) b)
  handled unsuback msg s u e b = rw (e, process_incoming) (completes-Keeps State.unsuback msg s u b)
  handled pingreq msg s u e b =
      rw (e, process_incoming) (st.answers (lib.reply pingresp 0) (s, u) b)
  handled pingresp msg s u e b = rw (e, process_incoming) (completes-Keeps State.pingack msg s u b)
  handled disconnect msg s u e b = rw (e, process_incoming) (process_disconnect-Keeps s u b)
  handled connect msg s u e b = rw (e, process_incoming) b
  handled connack msg s u e b = rw (e, process_incoming) b
  handled reserved msg s u e b = rw (e, process_incoming) b
  handled reserved2 msg s u e b = rw (e, process_incoming) b

  -- What the steps keep, a message that is handled keeps.
  pub process_incoming-Keeps :
      (msg : Message) (w w' : World lib) (e : Option ServiceError)
      → I w
      → process_incoming lib msg w ≡ done (w', e)
      → I w'
  process_incoming-Keeps msg (s, u) w' e b h = subst Keeps h (handled (mtype msg) msg s u refl b)
