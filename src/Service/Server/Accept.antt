-- ===== src/Service/Server/Accept.antt =====
-- `handleConnection` and `getSession` of service/server.go.
pub mod Replaced
pub mod Admitted
pub mod Sound
pub mod Connected
pub mod Reached
use xmqtt.Prelude.{
  ℕ, zero, suc, Bytes, Bool, true, false, Option, none, some, List, [], ◌∷◌, ◌++◌, length,
}
use xmqtt.Prelude.{
  if◌then◌else◌, ◌==◌, not, ◌+◌, ◌/◌, ◌%◌, ltb, find_key, put_key, Outcome, done, panicked,
}
use xmqtt.Message.{PacketLib, ConnectLib}
use xmqtt.Sessions.Session.{Session, init, new_session, SessionError}
use xmqtt.Sessions.Provider.{new}
use xmqtt.Service.State.{Service, Conn, tick_off, no_reason}
use xmqtt.Service.Server.{
  Server, put_service, device_key, key_of, drop_service, check_configuration, Ran,
}

pub data ServerError : Type 0 where
  bad_provider unread_connect bad_username bad_password not_written : ServerError
  session_failed : SessionError → ServerError

-- What `getConnectMessage` returns: the CONNECT message, an error that is a CONNACK code, or another.
pub data Incoming {ℓ} (C : Type ℓ) : Type ℓ where
  request : C → Incoming C
  bad_code : ℕ → Incoming C
  unreadable : Incoming C

-- The results of `handleConnection`, and the connection after it: an error that is not nil closes it.
pub record Answer : Type 0 where
  pub error : Option ServerError
  pub service : Option ℕ
  pub conn : Conn
  pub is_open : Bool

abbrev pub closing : ServerError → Conn → Answer
closing e c = record { error = some e; service = none; conn = c; is_open = false }

-- `strings.Split` by one byte.
unfoldable pub split_by : ℕ → Bytes → List Bytes
split_by sep [] = [] ∷ []
split_by sep (c ∷ cs) = elim (split_by sep cs) [
  | [] ↦ []
  | p ∷ ps ↦ if c == sep then [] ∷ p ∷ ps else (c ∷ p) ∷ ps
]

abbrev pub two_parts : List Bytes → Option (Bytes × Bytes)
two_parts (a ∷ b ∷ []) = some (a, b)
two_parts _ = none

-- `%d`; the id of a service has 64 bits, so 20 digits.
unfoldable pub decimal : ℕ → ℕ → Bytes
decimal zero n = []
decimal (suc fuel) n =
    let high = decimal fuel (n / 10) in (if ltb n 10 then [] else high) ++ ((b'0' + n % 10) ∷ [])

-- "internalclient%d"
unfoldable pub internal_client : ℕ → Bytes
unfolding decimal
internal_client i =
    b'i'
    ∷ b'n'
    ∷ b't'
    ∷ b'e'
    ∷ b'r'
    ∷ b'n'
    ∷ b'a'
    ∷ b'l'
    ∷ b'c'
    ∷ b'l'
    ∷ b'i'
    ∷ b'e'
    ∷ b'n'
    ∷ b't'
    ∷ decimal 20 i

module _ (lib : PacketLib) where
  open lib use {messages, connects, wire, connack_of, username, password, keep_alive}
  open lib use {set_keep_alive, set_clean_id}
  open connects use {Connect, client_id}

  -- The connection after a CONNACK with a code, and whether it was written.
  abbrev pub write_connack : ℕ → Conn → Conn × Bool
  write_connack code c = elim (wire (connack_of code)) [
    | none ↦ (c, false)
    | some (m, b) ↦
        if c.broken then (c, false) else (record c { written = c.written ++ (b ∷ []) }, true)
  ]

  -- The code 4, ErrBadClientIdOrUsernameOrPassword, and the error `e`.
  abbrev pub refuse : ServerError → Conn → Answer
  refuse e c = let (c', sent) = write_connack 4 c in closing (if sent then e else not_written) c'

  -- A client without an identifier is given one.
  abbrev pub identified : ℕ → Connect → Connect
  identified i req =
      if length (client_id req) == 0 then set_clean_id (internal_client i) req else req

  -- A nil manager panics. `set_clean_id` sets an identifier that is not empty, so `New` never makes one
  -- up.
  unfoldable pub get_session : ℕ → Connect → Server lib → Server lib × Outcome (Option SessionError)
  get_session i req srv = elim (srv.services i) [
    | none ↦ (srv, panicked)
    | some s ↦
        let req' = identified i req in
        elim s.sess [
          | some x ↦ (srv, done none)
          | none ↦
              if srv.managed
              then (let (x, e) = init connects req' (new_session connects (client_id req')) in
                  (
                    put_service lib i (record s { sess = some x })
                        (record srv {
                          sessions = (new ℕ (λ k. i) (client_id req') srv.sessions).0;
                        }),
                    done e,
                  ))
              else (srv, panicked)
        ]
  ]

  -- The end of `handleConnection`: the session, the CONNACK, and the entry in the map.
  unfoldable pub admit : Conn → ℕ → Connect → Server lib → Server lib × Outcome Answer
  unfolding get_session
  admit c i req srv =
      let (srv', o) = get_session i req srv in
      elim o [
        | panicked ↦ (srv', panicked)
        | done (some e) ↦ (srv', done (closing (session_failed e) c))
        | done none ↦
            let (c', sent) = write_connack 0 c in
            if sent
            then elim (srv'.services i) [
              | none ↦ (srv', panicked)
              | some s ↦ (
                record (put_service lib i (record s { conn = some c' }) srv') {
                  svc_map = put_key (key_of lib s) i srv'.svc_map;
                },
                done (record { error = none; service = some i; conn = c'; is_open = true }),
              )
            ]
            else (srv', done (closing not_written c'))
      ]

  -- A new service.
  abbrev pub fresh_service : Conn → Bytes → Bytes → Service lib
  fresh_service c product_key device_name = record {
    product_key = product_key;
    device_name = device_name;
    conn = some c;
    sess = none;
    timers = [];
    cancelled = [];
    heartbeats = [];
    ended = false;
    rmsgs = [];
    reason = no_reason;
  }

  -- What follows, unless dropping the older service panicked.
  abbrev pub once_dropped : Conn → ℕ → Connect → Ran lib → Server lib × Outcome Answer
  once_dropped c i req (srv, panicked) = (srv, panicked)
  once_dropped c i req (srv, done t) = admit c i req srv

  -- The service that has the key is dropped first; `auth.Login` always succeeds.
  unfoldable pub take_in : Conn → Connect → Bytes → Bytes → Server lib → Server lib × Outcome Answer
  unfolding admit drop_service
  take_in c req product_key device_name srv =
      let i = srv.made + 1 in
      let srv1 : Server lib =
        put_service lib i (fresh_service c product_key device_name) (record srv { made = i }) in
      once_dropped c i req (elim (find_key (device_key product_key device_name) srv.svc_map) [
        | none ↦ (srv1, done tt)
        | some j ↦ drop_service lib j tick_off srv1
      ])

  unfoldable pub with_request : Conn → Connect → Server lib → Server lib × Outcome Answer
  unfolding take_in split_by
  with_request c req srv = elim (two_parts (split_by b'&' (username req))) [
    | none ↦ (srv, done (refuse bad_username c))
    | some (device_name, product_key) ↦
        if length (password req) == 0
        then (srv, done (refuse bad_password c))
        else take_in c req product_key device_name srv
  ]

  abbrev pub kept_alive : Connect → Connect
  kept_alive req = if keep_alive req == 0 then set_keep_alive 300 req else req

  -- The deferred closing is only set up once the configuration is checked; and where a CONNACK with an
  -- error code was written, the error that is returned is nil.
  unfoldable pub handle_connection :
      Conn → Incoming Connect → Server lib → Server lib × Outcome Answer
  unfolding with_request check_configuration
  handle_connection c inc srv =
      let (srv', fine) = check_configuration lib srv in
      if not fine
      then (srv', done (record (closing bad_provider c) { is_open = true }))
      else elim inc [
        | unreadable ↦ (srv', done (closing unread_connect c))
        | bad_code n ↦
            let (c', sent) = write_connack n c in
            (
              srv',
              done (
                  if sent
                  then record { error = none; service = none; conn = c'; is_open = true }
                  else closing not_written c'),
            )
        | request req ↦ with_request c (kept_alive req) srv'
      ]
