-- ===== src/Service/Server/Accept/Replaced.antt =====
-- A device that connects while an older connection of it stands.
use xmqtt.Prelude.{ℕ, Bytes, true, false, none, some, ◌∷◌, length, replicate}
use xmqtt.Prelude.{◌≡◌, ◌≢◌, refl, ◌∙◌, arith, if◌then◌else◌, ◌+◌, ◌≤◌, bytes_eq}
use xmqtt.Prelude.{find_key, put_key, find_key-put_key, find_key-delete_key, done}
use xmqtt.Message.{PacketLib}
use xmqtt.Sessions.Session.{Session, init, new_session, stop}
use xmqtt.Service.State.{Service, Conn, tick_off}
use xmqtt.Service.Server.{Server, drop_service, check_configuration}
use xmqtt.Service.Server.Leaving.{IsLive, IsDropped, Leaves, drop_service-Leaves}
use xmqtt.Service.Server.Accept.{request, handle_connection, with_request, take_in, admit}
use xmqtt.Service.Server.Accept.{fresh_service, kept_alive, two_parts, split_by}
use xmqtt.Service.Server.Accept.Admitted.{
  init-stop, admitted, welcomed, admit-admitted, named, key, started, started-IsLive,
}

module _ (lib : PacketLib) where
  open lib use {messages, connects, wire, connack_of, username, password}
  open connects use {Connect, client_id, new_connect, connect_len, connect_encode, connect_decode}

  take_in-admit :
      (c : Conn) (req : Connect) (dn pk : Bytes) (srv srv2 : Server lib) (j : ℕ)
      → find_key (key lib dn pk) srv.svc_map ≡ some j
      → drop_service lib j tick_off (started lib c dn pk srv) ≡ (srv2, done tt)
      → take_in lib c req pk dn srv ≡ admit lib c (srv.made + 1) req srv2
  unfolding take_in started
  take_in-admit c req dn pk srv srv2 j e d = rw (e, d, take_in) refl

  pub checked_once :
      (srv : Server lib) → srv.checked ≡ true → check_configuration lib srv ≡ (srv, true)
  unfolding check_configuration
  checked_once srv e = ground (arith, e)

  with_request-take_in :
      (c : Conn) (req : Connect) (dn pk : Bytes) (srv : Server lib)
      → two_parts (split_by b'&' (username req)) ≡ some (dn, pk)
      → length (password req) ≢ 0
      → with_request lib c req srv ≡ take_in lib c req pk dn srv
  unfolding with_request
  with_request-take_in c req dn pk srv eu ep = rw (eu, with_request) (ground (arith, ep))

  handle_connection-take_in :
      (c : Conn) (req : Connect) (dn pk : Bytes) (srv : Server lib)
      → srv.checked ≡ true
      → two_parts (split_by b'&' (username (kept_alive lib req))) ≡ some (dn, pk)
      → length (password (kept_alive lib req)) ≢ 0
      → handle_connection lib c (request req) srv ≡ take_in lib c (kept_alive lib req) pk dn srv
  unfolding handle_connection
  handle_connection-take_in c req dn pk srv ec eu ep =
      rw (checked_once srv ec, handle_connection)
        (with_request-take_in c (kept_alive lib req) dn pk srv eu ep)

  -- A device that connects, with a CONNECT message that names it and has a password, while a service of
  -- it stands, takes the service's place: it is answered with a CONNACK and stands under the key with a
  -- session and a connection of its own, every other key keeps its entry, and the older service is
  -- stopped and its connection closed. The configuration was checked, the new connection can be written
  -- to, and the library can copy the CONNECT message and encode the CONNACK.
  pub handle_connection-replaces :
      (c : Conn) (req copy : Connect) (dn pk written b : Bytes) (m : messages.Message)
      (srv : Server lib) (j : ℕ)
      → srv.checked ≡ true
      → srv.managed ≡ true
      → two_parts (split_by b'&' (username (kept_alive lib req))) ≡ some (dn, pk)
      → length (password (kept_alive lib req)) ≢ 0
      → find_key (key lib dn pk) srv.svc_map ≡ some j
      → j ≤ srv.made
      → IsLive lib srv (key lib dn pk) j
      → connect_encode (named lib srv req) (replicate (connect_len (named lib srv req)) 0)
        ≡ (written, true)
      → connect_decode new_connect written ≡ (copy, true)
      → c.broken ≡ false
      → wire (connack_of 0) ≡ some (m, b)
      → (srv' : Server lib) × (handle_connection lib c (request req) srv ≡ (
        srv',
        done (record {
          error = none;
          service = some (srv.made + 1);
          conn = welcomed lib c b;
          is_open = true;
        }),
      ))
        × IsLive lib srv' (key lib dn pk) (srv.made + 1)
        × ((k : Bytes)
            → find_key k srv'.svc_map ≡ (
                if bytes_eq k (key lib dn pk) then some (srv.made + 1) else find_key k srv.svc_map))
        × IsDropped lib srv' j tick_off
        × (srv'.hung_up ≡ j ∷ srv.hung_up)
  unfolding admitted started
  handle_connection-replaces c req copy dn pk written b m srv j ec em eu ep ef le l ee ed eb ew = (
    admitted lib i (welcomed lib c b) s x (client_id (named lib srv req)) srv2,
    handle_connection-take_in c req dn pk srv ec eu ep
        ∙ take_in-admit c (kept_alive lib req) dn pk srv srv2 j ef drops
        ∙ admit-admitted lib c i (kept_alive lib req) srv2 s x m b new_here refl leaves.managed
            opens.2 eb ew,
    record {
      it = record s { sess = some x; conn = some (welcomed lib c b) };
      here = ground arith;
      keyed = refl;
      running = refl;
      conn = welcomed lib c b;
      connected = refl;
      session = x;
      opened = refl;
      stopped = opens.1;
      stops = opens.3;
    },
    listed,
    record {
      it = leaves.dropped.it;
      here = ground (arith, apart, leaves.dropped.here);
      over = leaves.dropped.over;
      unconnected = leaves.dropped.unconnected;
      unopened = leaves.dropped.unopened;
      because = leaves.dropped.because;
    },
    leaves.hung_up,
  )
    where
      i : ℕ
      i = srv.made + 1

      apart : i ≢ j
      apart = omega (arith, le)

      s : Service lib
      s = fresh_service lib c pk dn

      drop :
          (srv' : Server lib) × (drop_service lib j tick_off (started lib c dn pk srv)
            ≡ (srv', done tt))
          × Leaves lib (started lib c dn pk srv) srv' (key lib dn pk) j tick_off
      drop =
          drop_service-Leaves lib (started lib c dn pk srv) (key lib dn pk) j tick_off
            (started-IsLive lib c dn pk srv (key lib dn pk) j le l) em

      srv2 : Server lib
      srv2 = drop.0

      drops : drop_service lib j tick_off (started lib c dn pk srv) ≡ (srv2, done tt)
      drops = drop.1

      leaves : Leaves lib (started lib c dn pk srv) srv2 (key lib dn pk) j tick_off
      leaves = drop.2

      new_here : srv2.services i ≡ some s
      new_here = leaves.kept i apart ∙ ground arith

      opens :
          (x x' : Session connects) × (init connects
              (named lib srv req)
              (new_session connects (client_id (named lib srv req)))
            ≡ (x, none))
          × (stop connects x ≡ done x')
      opens = init-stop lib (named lib srv req) copy written (client_id (named lib srv req)) ee ed

      x : Session connects
      x = opens.0

      listed :
          (k : Bytes)
          → find_key k (put_key (key lib dn pk) i srv2.svc_map)
            ≡ (if bytes_eq k (key lib dn pk) then some i else find_key k srv.svc_map)
      listed k =
          find_key-put_key k (key lib dn pk) i srv2.svc_map
          ∙ ground (arith, leaves.map_of, find_key-delete_key k (key lib dn pk) srv.svc_map)
