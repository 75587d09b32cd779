-- ===== src/Service/Server/Tests.antt =====
-- The server at a device that connects twice.
use xmqtt.Prelude.{Bytes, true, false, none, some, [], ◌∷◌, ◌≡◌, refl, arith, ◌==◌}
use xmqtt.Prelude.{if◌then◌else◌, bytes_eq, find_key, done, panicked}
use xmqtt.Message.{publish}
use xmqtt.Toy.{toy_packets, toy_connect, bare}
use xmqtt.Sessions.AckQueue.{new_ackqueue}
use xmqtt.Sessions.AckQueue.Methods.{stop as stop_queue}
use xmqtt.Sessions.Session.{Session, finish_init, new_session, stop}
use xmqtt.Service.State.{Service, Conn, Reason, no_reason, tick_off, device_disconnect}
use xmqtt.Service.Server.{Server, at_end, peer_gone, other, exception_disconnect}
use xmqtt.Service.Server.Leaving.{
  IsLive, IsDropped, Leaves, exception_disconnect-Leaves, exception_disconnect_panics,
}
use xmqtt.Service.Server.Accept.{request, handle_connection, split_by}
use xmqtt.Prelude.{List, ℕ, Option, none, some, [], ◌∷◌}
use xmqtt.Toy.{Packet}
use xmqtt.Sessions.AckQueue.{AckQueue, get_bytes, find_id}
use xmqtt.Sessions.AckQueue.Methods.{waiting}
use xmqtt.Service.State.{ServiceError}
use xmqtt.Service.Publish.{own_complete}
use xmqtt.Service.Process.{Upload}
use xmqtt.Service.Process.Steps.{launched}
use xmqtt.Service.Server.{put_service}
use xmqtt.Service.Server.Listen.{
  Accept, connection, temporary, broken, accept_loop, sleeps, accept_loop_lem,
}
use xmqtt.Service.Server.Listen.{listen_and_serve, already_running}
use xmqtt.Service.Server.Push.{OnlyService, push_msg, push_msg-launched, download_topic}
use xmqtt.Sessions.AckQueue.Order.{Holds}
use xmqtt.Sessions.AckQueue.Places.{Tracks, spot}
use xmqtt.Prelude.{get_elem?, length, ◌≤◌}
use xmqtt.Service.Server.Kept.{IsSound}
use xmqtt.Service.Server.Accept.Reached.{Reached-IsSound, initial, connected, disconnected}
use xmqtt.Service.Server.Accept.Replaced.{handle_connection-replaces}

-- The CONNECT message "\x02&\x01", of the device 2 of the product 1.
abbrev hello : Bytes
hello = 2 ∷ b'&' ∷ 1 ∷ []

abbrev device : Bytes
device = 1 ∷ b':' ∷ 2 ∷ []

abbrev open_conn : Conn
open_conn = record { written = []; broken = false }

abbrev opened : Session toy_connect
opened = finish_init toy_connect hello hello (new_session toy_connect hello)

abbrev first : Service toy_packets
first = record {
  product_key = 1 ∷ [];
  device_name = 2 ∷ [];
  conn = some open_conn;
  sess = some opened;
  timers = [];
  cancelled = [];
  heartbeats = [];
  ended = false;
  rmsgs = [];
  reason = no_reason;
}

abbrev server : Server toy_packets
server = record {
  settings = record {
    keep_alive = 300;
    connect_timeout = 2;
    ack_timeout = 20;
    timeout_retries = 3;
    sessions_provider = [];
  };
  providers = [];
  checked = true;
  managed = true;
  sessions = (hello, 1) ∷ [];
  services = λ i. if i == 1 then some first else none;
  made = 1;
  svc_map = (device, 1) ∷ [];
  hung_up = [];
}

first-IsLive : IsLive toy_packets server device 1
unfolding stop stop_queue new_ackqueue
first-IsLive = record {
  it = first;
  here = refl;
  keyed = refl;
  running = refl;
  conn = open_conn;
  connected = refl;
  session = opened;
  opened = refl;
  stopped = _;
  stops = refl;
}

exception_disconnect-Leaves_example :
    (srv' : Server toy_packets) × (exception_disconnect toy_packets 1 (some at_end) server
      ≡ (srv', done tt))
    × Leaves toy_packets server srv' device 1 device_disconnect
unfolding find_key bytes_eq
exception_disconnect-Leaves_example =
    exception_disconnect-Leaves toy_packets server 1 1 first device refl refl refl first-IsLive refl

exception_disconnect_panics_example :
    (srv' : Server toy_packets) × (r : Reason) × (exception_disconnect toy_packets 1
        (some other)
        server
      ≡ (srv', panicked))
    × (find_key device srv'.svc_map ≡ none)
    × (srv'.services 1 ≡ some (record first { reason = r }))
    × (srv'.sessions ≡ server.sessions)
    × (srv'.hung_up ≡ [])
unfolding find_key bytes_eq
exception_disconnect_panics_example =
    exception_disconnect_panics toy_packets server 1 1 first first other refl refl refl refl
      (ground arith)

handle_connection-replaces_example :
    (srv' : Server toy_packets) × (handle_connection toy_packets open_conn (request hello) server
      ≡ (
        srv',
        done (record {
          error = none;
          service = some 2;
          conn = record { written = (0 ∷ 0 ∷ []) ∷ []; broken = false };
          is_open = true;
        }),
      ))
    × IsLive toy_packets srv' device 2
    × ((k : Bytes)
        → find_key k srv'.svc_map
          ≡ (if bytes_eq k device then some 2 else find_key k server.svc_map))
    × IsDropped toy_packets srv' 1 tick_off
    × (srv'.hung_up ≡ 1 ∷ [])
unfolding find_key bytes_eq split_by
handle_connection-replaces_example =
    handle_connection-replaces toy_packets open_conn hello hello (2 ∷ []) (1 ∷ []) hello
      (0 ∷ 0 ∷ []) (bare publish 0) server 1 refl refl refl (ground arith) refl (omega arith)
      first-IsLive refl refl refl refl

-- A server that has not started, and one to which a device has connected whose connection was then
-- reset.
abbrev unstarted : Server toy_packets
unstarted = record server {
  providers = (b'm' ∷ b'e' ∷ b'm' ∷ [], 0) ∷ [];
  checked = false;
  managed = false;
  sessions = [];
  services = λ i. none;
  made = 0;
  svc_map = [];
}

abbrev joined : Server toy_packets
joined = (handle_connection toy_packets open_conn (request hello) unstarted).0

Reached-IsSound_example :
    IsSound toy_packets (exception_disconnect toy_packets 1 (some peer_gone) joined).0
Reached-IsSound_example =
    Reached-IsSound toy_packets (exception_disconnect toy_packets 1 (some peer_gone) joined).0 (
      disconnected joined 1 (some peer_gone)
        (connected unstarted open_conn (request hello) (initial unstarted refl)))

-- An upload for the device, whose queue has a buffer, and its PUBLISH.
abbrev idle : AckQueue
idle = record (new_ackqueue 16 false) {
  pool = record { width = 8192; free = (0 ∷ 0 ∷ []) ∷ []; has_new = false };
}

abbrev listening : Service toy_packets
listening = record first { sess = some (record opened { pub1ack = some idle }) }

abbrev addressed : Upload toy_packets
addressed = record {
  msg = record (bare publish 3) { name = 1 ∷ b'/' ∷ 2 ∷ []; body = 9 ∷ [] };
  device_name = [];
  product_key = [];
}

abbrev download : Packet
download = toy_packets.download (download_topic (1 ∷ []) (2 ∷ [])) (9 ∷ [])

idle-Holds : Holds idle []
unfolding new_ackqueue
idle-Holds = record {
  bits = 4;
  power = refl;
  masked = refl;
  sized = refl;
  inside = omega arith;
  counted = refl;
  fits = omega arith;
  ends = refl;
  stands = λ j m e. ground arith;
}

idle-Tracks : Tracks idle []
unfolding new_ackqueue find_id spot
idle-Tracks = record { found = λ p. refl; distinct = tt }

abbrev no_client : ℕ → Packet → Option ServiceError
no_client oc m = none

push_msg-launched_example :
    let entry = waiting toy_packets.messages 0 download own_complete (0 ∷ 0 ∷ []) in
    let srv = put_service toy_packets 1 listening server in
    (srv' : Server toy_packets) × (q : AckQueue) × (push_msg toy_packets no_client 0 30 addressed
        srv
      ≡ done (srv', true))
    × OnlyService toy_packets no_client 1
        (launched toy_packets 30 0
          (0 ∷ 0 ∷ [])
          open_conn
          (record opened { pub1ack = some idle })
          q
          listening)
        srv
        srv'
    × Holds q (entry ∷ [])
    × Tracks q (entry ∷ [])
unfolding find_key bytes_eq split_by new_ackqueue get_bytes find_id
push_msg-launched_example =
    push_msg-launched toy_packets no_client 0 30 1 addressed
      (put_service toy_packets 1 listening server) listening (1 ∷ []) (2 ∷ []) (0 ∷ 0 ∷ []) download
      open_conn (record opened { pub1ack = some idle }) idle [] (0 ∷ 0 ∷ []) (0 ∷ 0 ∷ [])
      (record { width = 8192; free = []; has_new = false }) refl refl refl refl refl refl refl refl
      refl refl idle-Holds idle-Tracks refl refl refl refl

-- A connection, two temporary errors, a connection, and an end.
abbrev arrivals : List Accept
arrivals = connection 7 ∷ temporary ∷ temporary ∷ connection 8 ∷ broken 1 ∷ []

accept_loop_lem_example :
    (get_elem? (accept_loop 0 arrivals).0 2 ≡ some (sleeps 10))
    × (length (accept_loop 0 arrivals).0 ≤ 5)
accept_loop_lem_example = accept_loop_lem arrivals 2 temporary refl (refl, (refl, tt))

-- A second call is refused, and leaves the flag cleared.
refused_call : listen_and_serve true [] 1 ≡ (0, [], already_running)
refused_call = refl
