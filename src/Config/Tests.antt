-- ===== src/Config/Tests.antt =====
-- Sample settings, and what `validate` of src/config.rs says of them.
use meta_agent_control_plane.Prelude.{
  ℕ, ◌≡◌, ◌↔◌, refl, String, Bool, true, false, Option, none, some, ok, err,
}
use meta_agent_control_plane.Config
use meta_agent_control_plane.Config.{
  Config, IpAddr, SocketAddr, v4, read_protection_requires_authentication, zero_capacity,
  remote_binding_requires_authentication, remote_binding_requires_read_protection,
}
use meta_agent_control_plane.Config.Limits.{IsAcceptable, config_validate_iff}

abbrev loopback : ℕ → SocketAddr
loopback port = record { ip = v4 127 0 0 1; port = port }

-- The settings that the command line gives, on the given address of the HTTP listener.
abbrev pub settings : IpAddr → Option String → Bool → Config.Config
settings ip token protected = record {
  http_addr = record { ip = ip; port = 6767 };
  tcp_addr = loopback 6768;
  udp_addr = loopback 6769;
  auth_token = token;
  allow_unauthenticated_remote = false;
  protect_read_api = protected;
  cors_any = false;
  max_payload_bytes = 262144;
  max_udp_payload_bytes = 16384;
  max_tcp_connections = 1024;
  agent_capacity = 256;
  goal_capacity = 1024;
  task_capacity = 4096;
  lesson_capacity = 2048;
  event_capacity = 10000;
  idempotency_capacity = 50000;
  update_channel_capacity = 2048;
  log_filter = "info";
  log_json = false;
}

program : Unit {0}
unfolding Config.is_loopback Config.positive_capacities Config.has_non_loopback_listener
    Config.validate
program = tt

pub local_accepted : Config.validate (settings (v4 127 0 0 1) none false) ≡ ok
unfolding program
local_accepted = refl

-- No check bounds the capacity of the channel from above.
abbrev pub too_large : Config
too_large = record (settings (v4 127 0 0 1) none false) {
  update_channel_capacity = 9223372036854775808;
}

too_large_accepted : Config.validate too_large ≡ ok
unfolding program
too_large_accepted = refl

protected_needs_token :
    Config.validate (settings (v4 127 0 0 1) none true)
    ≡ err read_protection_requires_authentication
unfolding program
protected_needs_token = refl

remote_needs_token :
    Config.validate (settings (v4 0 0 0 0) none false) ≡ err remote_binding_requires_authentication
unfolding program
remote_needs_token = refl

remote_needs_protection :
    Config.validate (settings (v4 0 0 0 0) (some "a-long-enough-token") false)
    ≡ err remote_binding_requires_read_protection
unfolding program
remote_needs_protection = refl

config_validate_iff_example :
    (Config.validate (settings (v4 0 0 0 0) (some "a-long-enough-token") true) ≡ ok)
    ↔ IsAcceptable (settings (v4 0 0 0 0) (some "a-long-enough-token") true)
config_validate_iff_example =
    config_validate_iff (settings (v4 0 0 0 0) (some "a-long-enough-token") true)
