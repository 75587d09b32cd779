-- ===== src/Service/Server.antt =====
-- The server's map of services, and how a service leaves it: service/server.go, `newStopConnect` of
-- service/service.go and `exceptionDisconnect` of service/readwrite.go.
pub mod Accept
pub mod Leaving
pub mod Kept
pub mod Sound
pub mod Handled
pub mod Push
pub mod Pushed
pub mod Listen
mod Tests
use xmqtt.Prelude.{ℕ, zero, suc, Bytes, Bool, true, false, Option, none, some, List, [], ◌∷◌, ◌++◌}
use xmqtt.Prelude.{if◌then◌else◌, ◌==◌, ◌+◌, find_key, put_key, delete_key, Outcome, done, panicked}
use xmqtt.Message.{PacketLib, ConnectLib}
use xmqtt.Sessions.Session.{Session, stop, session_id, SessionError}
use xmqtt.Sessions.Provider.{del, new_manager, close}
use xmqtt.Service.State.{
  Service, Conn, Reason, tick_off, server_close, peer_reset, keepalive_timeout, device_disconnect,
}

-- The fields of the configuration that the server fills in where they are 0 or empty.
pub record Settings : Type 0 where
  pub keep_alive : ℕ
  pub connect_timeout : ℕ
  pub ack_timeout : ℕ
  pub timeout_retries : ℕ
  pub sessions_provider : Bytes

abbrev or_else : ℕ → ℕ → ℕ
or_else n d = if n == 0 then d else n

-- "mem"
abbrev named_or_mem : Bytes → Bytes
named_or_mem [] = b'm' ∷ b'e' ∷ b'm' ∷ []
named_or_mem (c ∷ cs) = c ∷ cs

abbrev pub with_defaults : Settings → Settings
with_defaults s = record {
  keep_alive = or_else s.keep_alive 300;
  connect_timeout = or_else s.connect_timeout 2;
  ack_timeout = or_else s.ack_timeout 20;
  timeout_retries = or_else s.timeout_retries 3;
  sessions_provider = named_or_mem s.sessions_provider;
}

-- Why `exceptionDisconnect` is called: io.EOF, an error whose text says "connection reset by peer", or
-- another one; the nil error is none.
pub data Cause : Type 0 where
  at_end peer_gone other : Cause

-- `auth.Logout`: always nil.
abbrev pub logout : Bytes → Bytes → Option Bytes
logout device_name product_key = none

abbrev pub device_key : Bytes → Bytes → Bytes
device_key product_key device_name = product_key ++ b':' ∷ device_name

module _ (lib : PacketLib) where
  open lib use {messages, connects}

  abbrev pub key_of : Service lib → Bytes
  key_of s = device_key s.product_key s.device_name

  -- `services` are the service objects by their field `id`, `made` of them so far, and `svc_map` has
  -- the id of the one for a key. `checked` is `configOnce`, `managed` says that `sessMgr` is not nil.
  -- `sessions` is the provider's map, where a session is named by the service that it was made for.
  -- `hung_up` are the services whose connection was closed.
  pub record Server : Type 0 where
    pub settings : Settings
    pub providers : List (Bytes × ℕ)
    pub checked : Bool
    pub managed : Bool
    pub sessions : List (Bytes × ℕ)
    pub services : ℕ → Option (Service lib)
    pub made : ℕ
    pub svc_map : List (Bytes × ℕ)
    pub hung_up : List ℕ

  -- What a call leaves behind, also where it panics.
  abbrev pub Ran : Type 0
  Ran = Server × Outcome (Unit {0})

  abbrev pub put_service : ℕ → Service lib → Server → Server
  put_service i s srv = record srv { services = λ j. if j == i then some s else srv.services j }

  abbrev pub set_reason : ℕ → Reason → Server → Server
  set_reason i r srv = elim (srv.services i) [
    | none ↦ srv
    | some s ↦ put_service i (record s { reason = r }) srv
  ]

  -- `newStopConnect` recovers from its own panics: of closing `done` again, at once, and of a session
  -- that is nil or was never initialised, before it changes the session. Such a panic also leaves
  -- `closeLock` locked, which is not modelled.
  unfoldable pub new_stop_connect : ℕ → Server → Server
  new_stop_connect i srv = elim (srv.services i) [
    | none ↦ srv
    | some s ↦
        if s.ended
        then srv
        else (let s' : Service lib = record s { conn = none; ended = true } in
            let srv' : Server = record srv {
              hung_up = elim s.conn [ none ↦ srv.hung_up | some c ↦ i ∷ srv.hung_up ];
            } in
            elim s.sess [
              | none ↦ put_service i s' srv'
              | some x ↦ elim (stop connects x) [
                | panicked ↦ put_service i s' srv'
                | done x' ↦ put_service i (record s' { sess = none }) srv'
              ]
            ])
  ]

  -- The error is that of `auth.Logout`.
  abbrev pub delete_map_and_logout : ℕ → Server → Server × Option Bytes
  delete_map_and_logout i srv = elim (srv.services i) [
    | none ↦ (srv, none)
    | some s ↦ (
      record srv { svc_map = delete_key (key_of s) srv.svc_map },
      logout s.device_name s.product_key,
    )
  ]

  -- `sessMgr.Del(svc.sess.ID())` and `newStopConnect`; a session or a manager that is nil panics.
  unfoldable pub release : ℕ → Server → Ran
  unfolding new_stop_connect
  release i srv = elim (srv.services i) [
    | none ↦ (srv, panicked)
    | some s ↦ elim s.sess [
      | none ↦ (srv, panicked)
      | some x ↦
          if srv.managed
          then (
            new_stop_connect i
                (record srv { sessions = del ℕ (session_id connects x) srv.sessions }),
            done tt,
          )
          else (srv, panicked)
    ]
  ]

  -- The way out that `Close`, `handleConnection` and, at the end of a connection,
  -- `exceptionDisconnect` share; the error of the logout is only logged.
  unfoldable pub drop_service : ℕ → Reason → Server → Ran
  unfolding release
  drop_service i r srv = release i (delete_map_and_logout i (set_reason i r srv)).0

  abbrev reason_of : Cause → Reason
  reason_of peer_gone = peer_reset
  reason_of at_end = device_disconnect
  reason_of other = keepalive_timeout

  abbrev is_at_end : Cause → Bool
  is_at_end at_end = true
  is_at_end _ = false

  -- `exceptionDisconnect` of the service `i`, which works on whatever service has its key. The text of
  -- a nil error panics; so does that of the logout's error, where it is nil.
  unfoldable pub exception_disconnect : ℕ → Option Cause → Server → Ran
  unfolding release drop_service
  exception_disconnect i cause srv = elim (srv.services i) [
    | none ↦ (srv, panicked)
    | some this ↦ elim (find_key (key_of this) srv.svc_map) [
      | none ↦ (srv, done tt)
      | some j ↦ elim cause [
        | none ↦ (srv, panicked)
        | some c ↦
            if is_at_end c
            then drop_service j device_disconnect srv
            else (let (srv', val) = delete_map_and_logout j (set_reason j (reason_of c) srv) in
                elim val [ none ↦ (srv', panicked) | some e ↦ release j srv' ])
      ]
    ]
  ]

  -- `Range` of `Close`, over the services that the map held; a panic is not recovered.
  unfoldable pub drop_all : List (Bytes × ℕ) → Server → Ran
  unfolding drop_service
  drop_all [] srv = (srv, done tt)
  drop_all ((k, i) ∷ es) srv =
      let (srv', o) = drop_service i server_close srv in
      elim o [ panicked ↦ (srv', panicked) | done t ↦ drop_all es srv' ]

  unfoldable pub close_server : Server → Ran
  unfolding drop_all
  close_server srv =
      let (srv', o) = drop_all srv.svc_map srv in
      elim o [
        | panicked ↦ (srv', panicked)
        | done t ↦ (
          if srv'.managed then record srv' { sessions = close ℕ srv'.sessions } else srv',
          done tt,
        )
      ]

  -- Runs once: whether the provider was found. Later calls return nil, also after a failure.
  unfoldable pub check_configuration : Server → Server × Bool
  check_configuration srv =
      if srv.checked
      then (srv, true)
      else (let s = with_defaults srv.settings in
          let srv' : Server = record srv { settings = s; checked = true } in
          elim (new_manager ℕ s.sessions_provider srv.providers) [
            | none ↦ (record srv' { managed = false }, false)
            | some p ↦ (record srv' { managed = true }, true)
          ])
