-- ===== src/Config.antt =====
-- `NewOptions` of config/config.go.
use xmqtt.Prelude.{ℕ, Bytes, Bool, Option, none, some, [], ◌∷◌, if◌then◌else◌, ◌==◌, not}
use xmqtt.Prelude.{◌≡◌, ◌≢◌, arith, ◌*◌}

-- The keys of the configuration file that are read.
pub data Key : Type 0 where
  mqtt_keepalive mqtt_connect_timeout mqtt_ack_timeout mqtt_retries mqtt_max_buffer_size : Key
  mqtt_session_provider time_wheel_bucket_num time_wheel_interval : Key
  cert_ca_path cert_server_crt_path cert_server_key_path cert_wss_crt_path cert_wss_key_path : Key
  server_net_card server_public_netcard server_prof : Key

-- What the code calls of viper: whether the file could be read, and its values, 0 or empty for a key
-- that is missing.
pub record Viper : Type 0 where
  pub read_in_config : Bool
  pub get_int : Key → ℕ
  pub get_string : Key → Bytes
  pub get_bool : Key → Bool

-- The fields that `NewOptions` sets.
pub record Configuration : Type 0 where
  pub keep_alive : ℕ
  pub connect_timeout : ℕ
  pub ack_timeout : ℕ
  pub bucket_num : ℕ
  pub interval : ℕ
  pub timeout_retries : ℕ
  pub max_buffer_size : ℕ
  pub sessions_provider : Bytes
  pub root_cert_path : Bytes
  pub tls_public_cert_path : Bytes
  pub tls_private_key_path : Bytes
  pub wss_public_cert_path : Bytes
  pub wss_private_key_path : Bytes
  pub net_card : Bytes
  pub public_net_card : Bytes
  pub prof : Bool

-- DefaultMaxBufferSize
abbrev pub default_max_buffer_size : ℕ
default_max_buffer_size = 1024 * 256

-- "mem"
abbrev default_sessions_provider : Bytes
default_sessions_provider = b'm' ∷ b'e' ∷ b'm' ∷ []

-- The directory "/opt/cert/", before a file name.
abbrev in_opt_cert : Bytes → Bytes
in_opt_cert name = b'/' ∷ b'o' ∷ b'p' ∷ b't' ∷ b'/' ∷ b'c' ∷ b'e' ∷ b'r' ∷ b't' ∷ b'/' ∷ name

abbrev int_or : ℕ → ℕ → ℕ
int_or n d = if n == 0 then d else n

abbrev string_or : Bytes → Bytes → Bytes
string_or [] d = d
string_or (c ∷ cs) d = c ∷ cs

-- The later tests of `err` see the nil of `ReadInConfig`: the size of the buffers is always the
-- default, and the two network cards never are.
unfoldable pub new_options : Viper → Option Configuration
new_options v =
    if not v.read_in_config
    then none
    else some (record {
      keep_alive = int_or (v.get_int mqtt_keepalive) 300;
      connect_timeout = int_or (v.get_int mqtt_connect_timeout) 2;
      ack_timeout = int_or (v.get_int mqtt_ack_timeout) 5;
      bucket_num = int_or (v.get_int time_wheel_bucket_num) 360;
      interval = int_or (v.get_int time_wheel_interval) 200;
      timeout_retries = int_or (v.get_int mqtt_retries) 3;
      max_buffer_size = default_max_buffer_size;
      sessions_provider = string_or (v.get_string mqtt_session_provider) default_sessions_provider;
      root_cert_path =
          string_or (v.get_string cert_ca_path)
            (in_opt_cert (b'c' ∷ b'a' ∷ b'.' ∷ b'c' ∷ b'r' ∷ b't' ∷ []));
      tls_public_cert_path =
          string_or (v.get_string cert_server_crt_path) (
            in_opt_cert (b's' ∷ b'e' ∷ b'r' ∷ b'v' ∷ b'e' ∷ b'r' ∷ b'.' ∷ b'c' ∷ b'r' ∷ b't' ∷ []));
      tls_private_key_path =
          string_or (v.get_string cert_server_key_path) (
            in_opt_cert (b's' ∷ b'e' ∷ b'r' ∷ b'v' ∷ b'e' ∷ b'r' ∷ b'.' ∷ b'k' ∷ b'e' ∷ b'y' ∷ []));
      wss_public_cert_path =
          string_or (v.get_string cert_wss_crt_path)
            (in_opt_cert (b'w' ∷ b's' ∷ b's' ∷ b'.' ∷ b'c' ∷ b'r' ∷ b't' ∷ []));
      wss_private_key_path =
          string_or (v.get_string cert_wss_key_path)
            (in_opt_cert (b'w' ∷ b's' ∷ b's' ∷ b'.' ∷ b'k' ∷ b'e' ∷ b'y' ∷ []));
      net_card = v.get_string server_net_card;
      public_net_card = v.get_string server_public_netcard;
      prof = v.get_bool server_prof;
    })

-- A configuration that was read has every timeout set and names a session provider, and its buffer
-- size is the default, whatever the file says.
pub new_options_set :
    (v : Viper) (c : Configuration)
    → new_options v ≡ some c
    → (c.keep_alive ≢ 0)
      × (c.connect_timeout ≢ 0)
      × (c.ack_timeout ≢ 0)
      × (c.timeout_retries ≢ 0)
      × (c.sessions_provider ≢ [])
      × (c.max_buffer_size ≡ default_max_buffer_size)
unfolding new_options
new_options_set v c e = ground (arith, e)
