-- ===== src/Service/Server/Push.antt =====
-- `PushMsg` of service/biz.go: the goroutine that takes the uploads and publishes them to devices.
use xmqtt.Prelude.{ℕ, Bytes, Bool, true, false, Option, none, some, List, [], ◌∷◌, ◌++◌}
use xmqtt.Prelude.{◌≡◌, ◌≢◌, refl, arith, ap, find_key, Outcome, done, panicked, ◌>>=◌}
use xmqtt.Message.{PacketLib, publish as publish_type}
use xmqtt.Sessions.AckQueue.{AckQueue, AckMsg, BytesPool, full, find_id, get_bytes}
use xmqtt.Sessions.AckQueue.Methods.{wait, waiting}
use xmqtt.Sessions.AckQueue.Order.{Holds}
use xmqtt.Sessions.AckQueue.Places.{Tracks, at_tail-Tracks}
use xmqtt.Sessions.AckQueue.Enqueued.{at_tail, at_tail-Holds, insert-at_tail}
use xmqtt.Sessions.Session.{Session}
use xmqtt.Service.State.{Service, ServiceError, Conn}
use xmqtt.Service.Publish.{publish, own_complete}
use xmqtt.Service.Process.{Upload}
use xmqtt.Service.Process.Steps.{wait-insert, publish-launched, launched}
use xmqtt.Service.Server.{Server, put_service, device_key}
use xmqtt.Service.Server.Accept.{split_by}

-- The last two parts of a topic.
abbrev pub last_two : List Bytes → Option (Bytes × Bytes)
last_two [] = none
last_two (a ∷ []) = none
last_two (a ∷ b ∷ []) = some (a, b)
last_two (a ∷ b ∷ c ∷ ps) = last_two (b ∷ c ∷ ps)

-- "/sys/%s/%s/thing/download"
abbrev pub download_topic : Bytes → Bytes → Bytes
download_topic product_key device_name =
    b'/'
    ∷ b's'
    ∷ b'y'
    ∷ b's'
    ∷ b'/'
    ∷ (product_key
        ++ b'/'
          ∷ (device_name
              ++ b'/' ∷ b't' ∷ b'h' ∷ b'i' ∷ b'n' ∷ b'g' ∷ b'/' ∷ b'd' ∷ b'o' ∷ b'w' ∷ b'n' ∷ b'l'
                ∷ b'o' ∷ b'a' ∷ b'd' ∷ []))

module _ (lib : PacketLib) (client : ℕ → lib.messages.Message → Option ServiceError) where
  open lib use {messages, connects, topic, payload, download, wire}

  -- One round of the loop at the time `now`, and whether the loop goes on; `task` is what `tw.Add`
  -- returns. The error of `publish` is only logged; a panic is not recovered. A topic of one part ends
  -- the loop, and with it every further push.
  unfoldable pub push_msg : ℕ → ℕ → Upload lib → Server lib → Outcome (Server lib × Bool)
  push_msg now task it srv = elim (last_two (split_by b'/' (topic it.msg))) [
    | none ↦ done (srv, false)
    | some (product_key, device_name) ↦
        elim (find_key (device_key product_key device_name) srv.svc_map) [
          | none ↦ done (srv, true)
          | some i ↦ elim (srv.services i) [
            | none ↦ panicked
            | some s ↦
                publish lib client now task
                  (download (download_topic product_key device_name) (payload it.msg)) own_complete
                  s
                >>= λ r. done (put_service lib i r.0 srv, true)
          ]
        ]
  ]

  -- A round whose upload is published.
  push_msg-publish :
      (now task i : ℕ) (it : Upload lib) (srv : Server lib) (s : Service lib) (pk dn b : Bytes)
      (msg : messages.Message) (c : Conn) (x : Session connects) (q q' : AckQueue)
      → last_two (split_by b'/' (topic it.msg)) ≡ some (pk, dn)
      → find_key (device_key pk dn) srv.svc_map ≡ some i
      → srv.services i ≡ some s
      → s.conn ≡ some c
      → c.broken ≡ false
      → s.sess ≡ some x
      → x.pub1ack ≡ some q
      → wire (download (download_topic pk dn) (payload it.msg)) ≡ some (msg, b)
      → messages.qos msg ≡ 1
      → wait messages now msg own_complete q ≡ done (q', none)
      → push_msg now task it srv
        ≡ done (put_service lib i (launched lib task (messages.packet_id msg) b c x q' s) srv, true)
  unfolding push_msg
  push_msg-publish now task i it srv s pk dn b msg c x q q' et ef es ec eb ex eq ew eo ea =
      rw (et, push_msg)
        (rw (ef, push_msg)
          (rw (es, push_msg)
            (ap (λ o. o >>= λ r. done (put_service lib i r.0 srv, true))
              (publish-launched lib client now task own_complete
                (download (download_topic pk dn) (payload it.msg)) msg b s c x q q' ec eb ex eq ew
                eo ea))))

  -- What a round has done to the server: the service `i` is `s`, and nothing else has changed.
  abbrev pub OnlyService : ℕ → Service lib → Server lib → Server lib → Type 0
  OnlyService i s srv srv' =
      (srv'.services i ≡ some s)
      × ((k : ℕ) → k ≢ i → srv'.services k ≡ srv.services k)
      × (srv'.svc_map ≡ srv.svc_map)
      × (srv'.hung_up ≡ srv.hung_up)

  only_service :
      (i : ℕ) (s : Service lib) (srv : Server lib) → OnlyService i s srv (put_service lib i s srv)
  only_service i s srv = (ground arith, λ k ne. ground arith, refl, refl)

  -- A device that is connected, whose connection can be written to and whose queue of PUBLISH
  -- messages is in order and not full and has no message with the packet identifier of the new one.
  -- An upload whose topic names it is published to it with QoS 1: the PUBLISH is written on its
  -- connection once, its timer is stored, and it waits behind the messages that wait in the queue
  -- already, which is in order again, and where a PUBACK with its packet identifier finds it. No
  -- other service changes, nor the map of devices, and the loop goes on. The library encodes the
  -- message and the queue's pool has a buffer for it.
  pub push_msg-launched :
      (now task i : ℕ) (it : Upload lib) (srv : Server lib) (s : Service lib) (pk dn b : Bytes)
      (msg : messages.Message) (c : Conn) (x : Session connects) (q : AckQueue) (ms : List AckMsg)
      (buf written : Bytes) (rest : BytesPool)
      → last_two (split_by b'/' (topic it.msg)) ≡ some (pk, dn)
      → find_key (device_key pk dn) srv.svc_map ≡ some i
      → srv.services i ≡ some s
      → s.conn ≡ some c
      → c.broken ≡ false
      → s.sess ≡ some x
      → x.pub1ack ≡ some q
      → wire (download (download_topic pk dn) (payload it.msg)) ≡ some (msg, b)
      → messages.mtype msg ≡ publish_type
      → messages.qos msg ≡ 1
      → Holds q ms
      → Tracks q ms
      → full q ≡ false
      → find_id (messages.packet_id msg) q.emap ≡ none
      → get_bytes (messages.len msg) q.pool ≡ done (buf, rest)
      → messages.encode msg buf ≡ (written, true)
      → let entry = waiting messages now msg own_complete written in
        (srv' : Server lib) × (q' : AckQueue) × (push_msg now task it srv ≡ done (srv', true))
        × OnlyService i (launched lib task (messages.packet_id msg) b c x q' s) srv srv'
        × Holds q' (ms ++ (entry ∷ []))
        × Tracks q' (ms ++ (entry ∷ []))
  push_msg-launched now task i it srv s pk dn b msg c x q ms buf written rest et ef es ec eb ex eq
        ew em eo w t nf fresh got good =
      let entry = waiting messages now msg own_complete written in
      let q' = at_tail entry (messages.packet_id msg) rest q in
      let s' = launched lib task (messages.packet_id msg) b c x q' s in
      (
        put_service lib i s' srv,
        q',
        push_msg-publish now task i it srv s pk dn b msg c x q q' et ef es ec eb ex eq ew eo (
            wait-insert lib now msg own_complete q q' em eo (
              insert-at_tail messages now msg own_complete q ms buf written rest w nf fresh got
                good)),
        only_service i s' srv,
        at_tail-Holds q ms entry (messages.packet_id msg) rest w nf,
        at_tail-Tracks q ms entry rest w t fresh,
      )
