-- ===== src/Config.antt =====
-- src/config.rs: the settings, the check that the daemon makes before it binds a listener, and the
-- cache capacities that it hands to the store. A socket address is its IP address and port.
pub mod Limits
pub mod Tests
use Prim.Native.String.{len}
use meta_agent_control_plane.Prelude.{
  ℕ, ◌*◌, String, Bool, true, false, ◌&&◌, ◌||◌, not, Option, none, some, List, [], ◌∷◌, ltb,
  nat_beq, if◌then◌else◌, Checked, ok, ◌>>◌, reject_if,
}

abbrev pub max_http_stream_payload_bytes : ℕ
max_http_stream_payload_bytes = 16 * 1024 * 1024

abbrev pub max_udp_datagram_bytes : ℕ
max_udp_datagram_bytes = 65507

pub data IpAddr : Type 0 where
  v4 : ℕ → ℕ → ℕ → ℕ → IpAddr
  v6 : ℕ → IpAddr

pub record SocketAddr : Type 0 where
  pub ip : IpAddr
  pub port : ℕ

-- `IpAddr::is_loopback`: 127.0.0.0/8, or ::1.
unfoldable pub is_loopback : IpAddr → Bool
is_loopback (v4 a b c d) = nat_beq a 127
is_loopback (v6 n) = nat_beq n 1

pub record Config : Type 0 where
  pub http_addr : SocketAddr
  pub tcp_addr : SocketAddr
  pub udp_addr : SocketAddr
  pub auth_token : Option String
  pub allow_unauthenticated_remote : Bool
  pub protect_read_api : Bool
  pub cors_any : Bool
  pub max_payload_bytes : ℕ
  pub max_udp_payload_bytes : ℕ
  pub max_tcp_connections : ℕ
  pub agent_capacity : ℕ
  pub goal_capacity : ℕ
  pub task_capacity : ℕ
  pub lesson_capacity : ℕ
  pub event_capacity : ℕ
  pub idempotency_capacity : ℕ
  pub update_channel_capacity : ℕ
  pub log_filter : String
  pub log_json : Bool

pub record CacheConfig : Type 0 where
  pub agents : ℕ
  pub goals : ℕ
  pub tasks : ℕ
  pub lessons : ℕ
  pub events : ℕ
  pub idempotency : ℕ

pub data ConfigError : Type 0 where
  zero_capacity : String → ConfigError
  invalid_payload_limit : ℕ → ConfigError
  invalid_udp_payload_limit : ℕ → ConfigError
  weak_authentication_token : ConfigError
  read_protection_requires_authentication : ConfigError
  remote_binding_requires_authentication : ConfigError
  remote_binding_requires_read_protection : ConfigError

-- `Result<(), ConfigError>`.
abbrev pub Verdict : Type 0
Verdict = Checked ConfigError

unfoldable pub positive_capacities : List (String × ℕ) → Verdict
positive_capacities [] = ok
positive_capacities ((name, value) ∷ rest) =
    reject_if (nat_beq value 0) (zero_capacity name) >> positive_capacities rest

-- The array that the first loop of `validate` goes through.
abbrev pub capacities : Config → List (String × ℕ)
capacities c =
    ("agent capacity", c.agent_capacity)
    ∷ ("goal capacity", c.goal_capacity)
    ∷ ("task capacity", c.task_capacity)
    ∷ ("lesson capacity", c.lesson_capacity)
    ∷ ("event capacity", c.event_capacity)
    ∷ ("idempotency capacity", c.idempotency_capacity)
    ∷ ("update channel capacity", c.update_channel_capacity)
    ∷ ("maximum TCP connections", c.max_tcp_connections)
    ∷ []

abbrev pub is_none : Option String → Bool
is_none none = true
is_none (some _) = false

abbrev pub is_weak : Option String → Bool
is_weak none = false
is_weak (some token) = ltb (len token) 16

unfoldable pub has_non_loopback_listener : Config → Bool
has_non_loopback_listener c =
    not (is_loopback c.http_addr.ip)
    || not (is_loopback c.tcp_addr.ip)
    || not (is_loopback c.udp_addr.ip)

unfoldable pub validate : Config → Verdict
validate c = do
  positive_capacities (capacities c)
  reject_if (nat_beq c.max_payload_bytes 0 || ltb max_http_stream_payload_bytes c.max_payload_bytes)
      (invalid_payload_limit max_http_stream_payload_bytes)
  reject_if
      (nat_beq c.max_udp_payload_bytes 0 || ltb max_udp_datagram_bytes c.max_udp_payload_bytes)
      (invalid_udp_payload_limit max_udp_datagram_bytes)
  reject_if (is_weak c.auth_token) weak_authentication_token
  reject_if (c.protect_read_api && is_none c.auth_token) read_protection_requires_authentication
  reject_if
      (has_non_loopback_listener c && is_none c.auth_token && not c.allow_unauthenticated_remote)
      remote_binding_requires_authentication
  reject_if
      (has_non_loopback_listener c && not c.protect_read_api && not c.allow_unauthenticated_remote)
      remote_binding_requires_read_protection

unfoldable pub cache_config : Config → CacheConfig
cache_config c = record {
  agents = c.agent_capacity;
  goals = c.goal_capacity;
  tasks = c.task_capacity;
  lessons = c.lesson_capacity;
  events = c.event_capacity;
  idempotency = c.idempotency_capacity;
}
