-- ===== src/Service/Server/Accept/Admitted.antt =====
-- A new service, and the server that has admitted it.
use xmqtt.Prelude.{ℕ, Bytes, true, false, none, some, [], ◌∷◌, ◌++◌, replicate}
use xmqtt.Prelude.{◌≡◌, refl, arith, ◌+◌, ◌≤◌}
use xmqtt.Prelude.{put_key, done}
use xmqtt.Message.{PacketLib}
use xmqtt.Sessions.AckQueue.{new_ackqueue}
use xmqtt.Sessions.AckQueue.Methods.{stop as stop_queue}
use xmqtt.Sessions.Session.{Session, init, copy_connect, finish_init, new_session, stop}
use xmqtt.Sessions.Provider.{new}
use xmqtt.Service.State.{Service, Conn}
use xmqtt.Service.Server.{Server, put_service, device_key, key_of}
use xmqtt.Service.Server.Leaving.{IsLive}
use xmqtt.Service.Server.Accept.{admit}
use xmqtt.Service.Server.Accept.{get_session, fresh_service, identified, kept_alive}

module _ (lib : PacketLib) where
  open lib use {messages, connects, wire, connack_of, username, password}
  open connects use {Connect, client_id, new_connect, connect_len, connect_encode, connect_decode}

  -- A session that is initialised with a CONNECT message that the library can copy can be stopped.
  pub init-stop :
      (msg copy : Connect) (written id : Bytes)
      → connect_encode msg (replicate (connect_len msg) 0) ≡ (written, true)
      → connect_decode new_connect written ≡ (copy, true)
      → (x x' : Session connects) × (init connects msg (new_session connects id) ≡ (x, none))
        × (stop connects x ≡ done x')
  unfolding init copy_connect stop stop_queue new_ackqueue
  init-stop msg copy written id e d = (
    finish_init connects msg copy
        (record (new_session connects id) { cbuf = written; cmsg = some copy }),
    _,
    ground (arith, e, d),
    refl,
  )

  -- The server, once the new service has its session and its entry.
  unfoldable pub admitted :
      ℕ → Conn → Service lib → Session connects → Bytes → Server lib → Server lib
  admitted i c s x cid srv =
      record (put_service lib i (record s { sess = some x; conn = some c })
        (put_service lib i (record s { sess = some x })
          (record srv { sessions = (new ℕ (λ k. i) cid srv.sessions).0 }))) {
            svc_map = put_key (key_of lib s) i srv.svc_map;
          }

  abbrev pub welcomed : Conn → Bytes → Conn
  welcomed c b = record c { written = c.written ++ (b ∷ []) }

  pub admit-admitted :
      (c : Conn) (i : ℕ) (req : Connect) (srv : Server lib) (s : Service lib) (x : Session connects)
      (m : messages.Message) (b : Bytes)
      → srv.services i ≡ some s
      → s.sess ≡ none
      → srv.managed ≡ true
      → init connects
          (identified lib i req)
          (new_session connects (client_id (identified lib i req)))
        ≡ (x, none)
      → c.broken ≡ false
      → wire (connack_of 0) ≡ some (m, b)
      → admit lib c i req srv ≡ (
        admitted i (welcomed c b) s x (client_id (identified lib i req)) srv,
        done (record { error = none; service = some i; conn = welcomed c b; is_open = true }),
      )
  unfolding admit get_session admitted
  admit-admitted c i req srv s x m b es en em ex eb ew = ground (arith, es, en, em, ex, eb, ew)

  abbrev pub named : Server lib → Connect → Connect
  named srv req = identified lib (srv.made + 1) (kept_alive lib req)

  abbrev pub key : Bytes → Bytes → Bytes
  key dn pk = device_key pk dn

  -- The server with the new service, before the old one is dropped.
  unfoldable pub started : Conn → Bytes → Bytes → Server lib → Server lib
  started c dn pk srv =
      put_service lib (srv.made + 1) (fresh_service lib c pk dn)
        (record srv { made = srv.made + 1 })

  pub started-IsLive :
      (c : Conn) (dn pk : Bytes) (srv : Server lib) (k : Bytes) (j : ℕ)
      → j ≤ srv.made
      → IsLive lib srv k j
      → IsLive lib (started c dn pk srv) k j
  unfolding started
  started-IsLive c dn pk srv k j le l = record {
    it = l.it;
    here = ground (arith, le, l.here);
    keyed = l.keyed;
    running = l.running;
    conn = l.conn;
    connected = l.connected;
    session = l.session;
    opened = l.opened;
    stopped = l.stopped;
    stops = l.stops;
  }
