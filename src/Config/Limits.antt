-- ===== src/Config/Limits.antt =====
-- What a configuration that passes `validate` of src/config.rs promises: capacities and limits in
-- range, and no listener open to other machines unless both directions are protected.
use Prim.Native.String.{len}
use meta_agent_control_plane.Prelude.{
  ℕ, ◌≤◌, ◌<◌, ◌≡◌, ◌↔◌, ◌⊎◌, refl, String, true, false, ◌&&◌, ◌||◌, not, Option, none, some,
  nat_beq, ltb, arith, ok, reject_if, ◌&◌, and_then, unless,
}
use meta_agent_control_plane.Config.{
  Config, ConfigError, positive_capacities, capacities, is_none, is_weak, is_loopback,
  has_non_loopback_listener, validate, max_http_stream_payload_bytes, max_udp_datagram_bytes,
}

-- Every capacity is positive.
pub record HasCapacity (c : Config) : Type 0 where
  pub agents : 0 < c.agent_capacity
  pub goals : 0 < c.goal_capacity
  pub tasks : 0 < c.task_capacity
  pub lessons : 0 < c.lesson_capacity
  pub events : 0 < c.event_capacity
  pub idempotency : 0 < c.idempotency_capacity
  pub updates : 0 < c.update_channel_capacity
  pub connections : 0 < c.max_tcp_connections

pub record IsBetween (low high n : ℕ) : Type 0 where
  pub at_least : low ≤ n
  pub at_most : n ≤ high

-- The token is long enough, if there is one.
pub data IsStrong : Option String → Type 0 where
  unset : IsStrong none
  set : {token : String} → 16 ≤ len token → IsStrong (some token)

abbrev pub HasToken : Config → Type 0
HasToken c = (token : String) × (c.auth_token ≡ some token)

-- Every listener is on a loopback address.
abbrev pub IsLocal : Config → Type 0
IsLocal c =
    (is_loopback c.http_addr.ip ≡ true)
    × (is_loopback c.tcp_addr.ip ≡ true)
    × (is_loopback c.udp_addr.ip ≡ true)

-- Other machines cannot reach the listeners without `P`, unless the operator chose so.
abbrev pub Guards : Config → Type 0 → Type 0
Guards c P = IsLocal c ⊎ P ⊎ (c.allow_unauthenticated_remote ≡ true)

abbrev pub IsAcceptable : Config → Type 0
IsAcceptable c =
    HasCapacity c
    & IsBetween 1 max_http_stream_payload_bytes c.max_payload_bytes
    & IsBetween 1 max_udp_datagram_bytes c.max_udp_payload_bytes
    & IsStrong c.auth_token
    & ((c.protect_read_api ≡ false) ⊎ HasToken c)
    & Guards c (HasToken c)
    & Guards c (c.protect_read_api ≡ true)

capacity_iff : (c : Config) → (positive_capacities (capacities c) ≡ ok) ↔ HasCapacity c
unfolding positive_capacities
capacity_iff c = (λ h. ground arith, λ h. ground arith)

IsBetween-iff :
    (n high : ℕ) (e : ConfigError)
    → (reject_if (nat_beq n 0 || ltb high n) e ≡ ok) ↔ IsBetween 1 high n
IsBetween-iff n high e = unless _ e (λ h. ground arith, λ h. ground arith)

strong_len : {token : String} → IsStrong (some token) → 16 ≤ len token
strong_len (set long) = long

IsStrong-iff : (o : Option String) (e : ConfigError) → (reject_if (is_weak o) e ≡ ok) ↔ IsStrong o
IsStrong-iff none e = (λ h. unset, λ h. refl)
IsStrong-iff (some token) e =
    (λ h. set (ground arith), λ h. let long = strong_len h in ground arith)

protection_iff :
    (c : Config) (e : ConfigError)
    → (reject_if (c.protect_read_api && is_none c.auth_token) e ≡ ok)
      ↔ ((c.protect_read_api ≡ false) ⊎ HasToken c)
protection_iff c e = unless _ e (λ h. ground arith, λ h. ground arith)

ingest_iff :
    (c : Config) (e : ConfigError)
    → (reject_if
          (has_non_loopback_listener c
            && is_none c.auth_token
            && not c.allow_unauthenticated_remote)
          e
        ≡ ok)
      ↔ Guards c (HasToken c)
unfolding has_non_loopback_listener
ingest_iff c e = unless _ e (λ h. ground arith, λ h. ground arith)

reads_iff :
    (c : Config) (e : ConfigError)
    → (reject_if
          (has_non_loopback_listener c
            && not c.protect_read_api
            && not c.allow_unauthenticated_remote)
          e
        ≡ ok)
      ↔ Guards c (c.protect_read_api ≡ true)
unfolding has_non_loopback_listener
reads_iff c e = unless _ e (λ h. ground arith, λ h. ground arith)

-- The daemon accepts a configuration exactly when every capacity is positive, the payload limits
-- are in range, a token that is set has at least 16 bytes, protected reads have a token, and either
-- the listeners are all on loopback addresses, or a token is set and reads are protected, or the
-- operator allowed unauthenticated remote access.
pub config_validate_iff : (c : Config) → (validate c ≡ ok) ↔ IsAcceptable c
unfolding validate
config_validate_iff c =
    search
      (and_then, capacity_iff, IsBetween-iff, IsStrong-iff, protection_iff, ingest_iff, reads_iff)
      depth 9
