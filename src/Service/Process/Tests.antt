-- ===== src/Service/Process/Tests.antt =====
-- The handlers at concrete services and messages.
use xmqtt.Prelude.{ℕ, false, Option, none, some, [], ◌∷◌, ◌++◌, ◌≡◌, refl, arith}
use xmqtt.Prelude.{done, bytes_eq}
use xmqtt.Toy.{toy_connect, toy_packets, Packet, bare}
use xmqtt.Message.{publish as publish_type, puback, subscribe as subscribe_type, suback}
use xmqtt.Sessions.AckQueue.{AckQueue, new_ackqueue, find_id, get_bytes}
use xmqtt.Sessions.AckQueue.Finished.{answered}
use xmqtt.Sessions.AckQueue.Order.{Holds}
use xmqtt.Sessions.AckQueue.Places.{Tracks, spot}
use xmqtt.Sessions.Session.{Session, new_session}
use xmqtt.Service.State.{Service, ServiceError, Conn, no_reason, invalid_qos}
use xmqtt.Service.Publish.{publish, own_complete}
use xmqtt.Service.Process.{process_incoming, process_publish}
use xmqtt.Service.Process.Acknowledged.{publish-puback, Settled}
use xmqtt.Service.Process.Limits.{process_incoming-IsBounded}
use xmqtt.Service.Process.Bounded.{IsBounded}

abbrev request : Packet
request = bare subscribe_type 4

abbrev granted : Packet
granted = record (bare suback 4) { body = 1 ∷ [] }

-- An empty queue, whose pool has two buffers of two bytes.
abbrev idle : AckQueue
idle = record (new_ackqueue 16 false) {
  pool = record { width = 8192; free = (0 ∷ 0 ∷ []) ∷ (0 ∷ 0 ∷ []) ∷ []; has_new = false };
}

idle-Holds : Holds idle []
unfolding new_ackqueue
idle-Holds = record {
  bits = 4;
  power = refl;
  masked = refl;
  sized = refl;
  inside = omega arith;
  counted = refl;
  fits = omega arith;
  ends = refl;
  stands = λ j m e. ground arith;
}

idle-Tracks : Tracks idle []
unfolding new_ackqueue find_id spot
idle-Tracks = record { found = λ p. refl; distinct = tt }

abbrev open_conn : Conn
open_conn = record { written = []; broken = false }

abbrev live : Session toy_connect
live = record (new_session toy_connect []) { pub1ack = some idle }

abbrev device : Service toy_packets
device = record {
  product_key = 1 ∷ [];
  device_name = 2 ∷ [];
  conn = some open_conn;
  sess = some live;
  timers = [];
  cancelled = [];
  heartbeats = [];
  ended = false;
  rmsgs = [];
  reason = no_reason;
}

-- A PUBLISH with the identifier 7, and its PUBACK.
abbrev sent : Packet
sent = bare publish_type 7

abbrev no_client : ℕ → Packet → Option ServiceError
no_client oc m = none

publish-puback_example :
    (s1 : Service toy_packets) × (publish toy_packets no_client 0 30 sent own_complete device
      ≡ done (s1, none))
    × (s1.conn ≡ some (record open_conn { written = [] ++ ((7 ∷ 0 ∷ []) ∷ []) }))
    × (find_id 7 s1.timers ≡ some 30)
    × (s2 : Service toy_packets) × (process_incoming toy_packets (bare puback 7) (s1, [])
        ≡ done ((s2, []), none))
    × Settled toy_packets 30 7 [] s2
unfolding new_ackqueue get_bytes answered
publish-puback_example =
    publish-puback toy_packets no_client 0 30 sent sent (bare puback 7) sent (bare puback 7)
      (7 ∷ 0 ∷ []) (0 ∷ 0 ∷ []) (7 ∷ 0 ∷ []) (0 ∷ 0 ∷ []) (7 ∷ 0 ∷ [])
      (record { width = 8192; free = (0 ∷ 0 ∷ []) ∷ []; has_new = false })
      (record { width = 8192; free = []; has_new = false }) device open_conn live idle [] refl refl
      refl refl idle-Holds idle-Tracks refl refl refl refl refl refl refl refl refl refl refl refl
      refl refl

device-IsBounded : IsBounded toy_packets (device, [])
device-IsBounded = record { beats = tt; uploads = omega arith }

abbrev unsubscribed : Packet
unsubscribed = record (bare publish_type 3) { level = 0; name = 9 ∷ [] }

refused :
    process_incoming toy_packets unsubscribed (device, []) ≡ done ((device, []), some invalid_qos)
unfolding bytes_eq process_incoming process_publish
refused = refl

process_incoming-IsBounded_example : IsBounded toy_packets (device, [])
process_incoming-IsBounded_example =
    process_incoming-IsBounded toy_packets unsubscribed (device, []) (device, []) (some invalid_qos)
      device-IsBounded refused
