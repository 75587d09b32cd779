-- ===== src/Service/Server/Leaving.antt =====
-- A service that leaves the server, and one that is made to leave by another's end.
use xmqtt.Prelude.{ℕ, Bytes, true, false, none, some, List, ◌∷◌}
use xmqtt.Prelude.{
  ◌≡◌, ◌≢◌, refl, sym, ap, subst, ◌∙◌, arith, bytes_eq_iff, find_key, delete_key,
  find_key-delete_key, done, panicked,
}
use xmqtt.Message.{PacketLib}
use xmqtt.Sessions.Session.{Session, stop, session_id}
use xmqtt.Sessions.Provider.{del}
use xmqtt.Service.State.{Service, Conn, Reason, peer_reset, keepalive_timeout, device_disconnect}
use xmqtt.Service.Server.{
  Server, Cause, at_end, peer_gone, other, key_of, put_service, new_stop_connect,
}
use xmqtt.Service.Server.{release, drop_service, exception_disconnect}

module _ (lib : PacketLib) where
  open lib use {messages, connects}

  -- A service with a connection and a session that was initialised, which stands under the key.
  pub record IsLive (srv : Server lib) (k : Bytes) (i : ℕ) : Type 0 where
    pub it : Service lib
    pub here : srv.services i ≡ some it
    pub keyed : key_of lib it ≡ k
    pub running : it.ended ≡ false
    pub conn : Conn
    pub connected : it.conn ≡ some conn
    pub session : Session connects
    pub opened : it.sess ≡ some session
    pub stopped : Session connects
    pub stops : stop connects session ≡ done stopped

  -- A service that was stopped for a reason.
  pub record IsDropped (srv : Server lib) (i : ℕ) (r : Reason) : Type 0 where
    pub it : Service lib
    pub here : srv.services i ≡ some it
    pub over : it.ended ≡ true
    pub unconnected : it.conn ≡ none
    pub unopened : it.sess ≡ none
    pub because : it.reason ≡ r

  -- What a service's leaving does to the server.
  pub record Leaves (srv srv' : Server lib) (k : Bytes) (i : ℕ) (r : Reason) : Type 0 where
    pub dropped : IsDropped srv' i r
    pub map_of : srv'.svc_map ≡ delete_key k srv.svc_map
    pub hung_up : srv'.hung_up ≡ i ∷ srv.hung_up
    pub kept : (j : ℕ) → j ≢ i → srv'.services j ≡ srv.services j
    pub made : srv'.made ≡ srv.made
    pub managed : srv'.managed ≡ true
    pub checked : srv'.checked ≡ srv.checked

  left : ℕ → Reason → Service lib → Session connects → Server lib → Server lib
  left i r s x srv =
      put_service lib i (record s { reason = r; conn = none; ended = true; sess = none })
        (record (put_service lib i (record s { reason = r }) srv) {
          svc_map = delete_key (key_of lib s) srv.svc_map;
          sessions = del ℕ (session_id connects x) srv.sessions;
          hung_up = i ∷ srv.hung_up;
        })

  drop_service-left :
      (srv : Server lib) (k : Bytes) (i : ℕ) (r : Reason) (l : IsLive srv k i)
      → srv.managed ≡ true
      → drop_service lib i r srv ≡ (left i r l.it l.session srv, done tt)
  unfolding drop_service release new_stop_connect left
  drop_service-left srv k i r l m =
      ground (arith, l.here, l.running, l.connected, l.opened, l.stops, m)

  pub drop_service-Leaves :
      (srv : Server lib) (k : Bytes) (i : ℕ) (r : Reason)
      → IsLive srv k i
      → srv.managed ≡ true
      → (srv' : Server lib) × (drop_service lib i r srv ≡ (srv', done tt)) × Leaves srv srv' k i r
  unfolding left
  drop_service-Leaves srv k i r l m = (
    left i r l.it l.session srv,
    drop_service-left srv k i r l m,
    record {
      dropped = record {
        it = record l.it { reason = r; conn = none; ended = true; sess = none };
        here = ground arith;
        over = refl;
        unconnected = refl;
        unopened = refl;
        because = refl;
      };
      map_of = ground (arith, l.keyed);
      hung_up = refl;
      kept = λ j n. ground (arith, n);
      made = refl;
      managed = m;
      checked = refl;
    },
  )

  -- At the end of its connection, or of an older one with its key, a live service leaves, if there is a
  -- session manager: it is stopped, its entry in the map is deleted, and its connection is closed; no
  -- other service and no other entry changes.
  pub exception_disconnect-Leaves :
      (srv : Server lib) (i j : ℕ) (this : Service lib) (k : Bytes)
      → srv.services j ≡ some this
      → key_of lib this ≡ k
      → find_key k srv.svc_map ≡ some i
      → IsLive srv k i
      → srv.managed ≡ true
      → (srv' : Server lib) × (exception_disconnect lib j (some at_end) srv ≡ (srv', done tt))
        × Leaves srv srv' k i device_disconnect
  unfolding exception_disconnect
  exception_disconnect-Leaves srv i j this k ej ek e l m =
      let (srv', runs, leaves) = drop_service-Leaves srv k i device_disconnect l m in
      (
        srv',
        ground (arith, ej, e, subst (λ t. find_key t srv.svc_map ≡ some i) (sym ek) e) ∙ runs,
        leaves,
      )

  pub reason_why : Cause → Reason
  reason_why peer_gone = peer_reset
  reason_why _ = keepalive_timeout

  abbrev pub unlisted : ℕ → Service lib → Reason → Server lib → Server lib
  unlisted i it r srv = record (put_service lib i (record it { reason = r }) srv) {
    svc_map = delete_key (key_of lib it) srv.svc_map;
  }

  pub exception_disconnect-unlisted :
      (srv : Server lib) (i j : ℕ) (this it : Service lib) (c : Cause)
      → srv.services j ≡ some this
      → find_key (key_of lib this) srv.svc_map ≡ some i
      → srv.services i ≡ some it
      → c ≢ at_end
      → exception_disconnect lib j (some c) srv ≡ (unlisted i it (reason_why c) srv, panicked)
  unfolding exception_disconnect reason_why
  exception_disconnect-unlisted srv i j this it at_end ej e ei n = absurd (n refl)
  exception_disconnect-unlisted srv i j this it peer_gone ej e ei n = ground (arith, ej, e, ei)
  exception_disconnect-unlisted srv i j this it other ej e ei n = ground (arith, ej, e, ei)

  -- Without a manager the call panics once the entry is deleted.
  pub drop_service-unlisted :
      (srv : Server lib) (k : Bytes) (i : ℕ) (r : Reason) (l : IsLive srv k i)
      → srv.managed ≡ false
      → drop_service lib i r srv ≡ (unlisted i l.it r srv, panicked)
  unfolding drop_service release
  drop_service-unlisted srv k i r l m = ground (arith, l.here, l.opened, m)

  deleted : (k : Bytes) (m : List (Bytes × ℕ)) → find_key k (delete_key k m) ≡ none
  deleted k m = find_key-delete_key k k m ∙ ground (arith, bytes_eq_iff k k)

  put_here :
      (i : ℕ) (s : Service lib) (srv : Server lib) → (put_service lib i s srv).services i ≡ some s
  put_here i s srv = ground arith

  -- After any other error of a connection, the service that stands under its key, which may be a newer
  -- one, loses its entry in the map, and then the call panics: that service is not stopped, its
  -- connection is not closed, and its session stays in the store.
  pub exception_disconnect_panics :
      (srv : Server lib) (i j : ℕ) (this it : Service lib) (c : Cause)
      → srv.services j ≡ some this
      → find_key (key_of lib this) srv.svc_map ≡ some i
      → srv.services i ≡ some it
      → key_of lib it ≡ key_of lib this
      → c ≢ at_end
      → (srv' : Server lib) × (r : Reason) × (exception_disconnect lib j (some c) srv
          ≡ (srv', panicked))
        × (find_key (key_of lib this) srv'.svc_map ≡ none)
        × (srv'.services i ≡ some (record it { reason = r }))
        × (srv'.sessions ≡ srv.sessions)
        × (srv'.hung_up ≡ srv.hung_up)
  exception_disconnect_panics srv i j this it c ej e ei k n = (
    unlisted i it (reason_why c) srv,
    reason_why c,
    exception_disconnect-unlisted srv i j this it c ej e ei n,
    ap (λ t. find_key (key_of lib this) (delete_key t srv.svc_map)) k
        ∙ deleted (key_of lib this) srv.svc_map,
    put_here i (record it { reason = reason_why c }) srv,
    refl,
    refl,
  )
