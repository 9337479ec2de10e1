-- ===== src/Auth.antt =====
-- src/auth.rs: the shared-token policy, and the token that a request carries. Bytes are compared by
-- `ConstantTimeEq` of the third-party crate `subtle`, which is a parameter.
pub mod Laws
pub mod Sample
mod Tests
use Prim.Native.Char.{Char, code}
use Prim.Native.String.{len}
use meta_agent_control_plane.Prelude.{
  ℕ, ◌+◌, ◌≡◌, ◌↔◌, String, Bool, true, false, ◌&&◌, ◌||◌, not, Option, none, some, leb, nat_beq,
  if◌then◌else◌,
}
use meta_agent_control_plane.Config.{Config}

-- `ct_eq` on two byte slices of one length, here the UTF-8 of two texts: it documents that it is
-- true exactly on equal contents.
pub record ConstantTime : Type 0 where
  pub ct_eq : String → String → Bool
  pub ct_eq_iff : (a b : String) → (ct_eq a b ≡ true) ↔ (a ≡ b)

pub record AuthPolicy : Type 0 where
  pub token : Option String
  pub protect_reads : Bool

-- `Result<(), AuthorizationError>`.
pub data Authorized : Type 0 where
  granted : Authorized
  denied : Authorized

unfoldable pub from_config : Config → AuthPolicy
from_config config = record { token = config.auth_token; protect_reads = config.protect_read_api }

module _ (constant_time : ConstantTime) where
  open constant_time use {ct_eq}

  -- The last test of `authorize`.
  unfoldable pub compare_tokens : String → String → Authorized
  compare_tokens expected provided =
      if not (nat_beq (len expected) (len provided)) || not (ct_eq expected provided)
      then denied
      else granted

  unfoldable pub authorize : Option String → Option String → Authorized
  unfolding compare_tokens
  authorize none provided = granted
  authorize (some expected) none = denied
  authorize (some expected) (some provided) = compare_tokens expected provided

  unfoldable pub authorize_ingest : AuthPolicy → Option String → Authorized
  authorize_ingest policy provided = authorize policy.token provided

  unfoldable pub authorize_read : AuthPolicy → Option String → Authorized
  authorize_read policy provided =
      if policy.protect_reads then authorize policy.token provided else granted

-- The `authorization` header of a request: missing, not visible ASCII, or a text.
pub data Header : Type 0 where
  missing : Header
  opaque_bytes : Header
  text : String → Header

-- `value.split_once(' ')`.
unfoldable pub split_once : String → Option (String × String)
split_once String.[] = none
split_once (String.◌∷◌ c s) =
    if nat_beq (code c) b' ' then some (String.[], s) else elim (split_once s) [
      | none ↦ none
      | some (before, after) ↦ some (String.◌∷◌ c before, after)
    ]

unfoldable pub ascii_lower : ℕ → ℕ
ascii_lower c = if leb b'A' c && leb c b'Z' then c + 32 else c

unfoldable pub eq_ignore_ascii_case : String → String → Bool
eq_ignore_ascii_case String.[] String.[] = true
eq_ignore_ascii_case (String.◌∷◌ c s) (String.◌∷◌ d t) =
    nat_beq (ascii_lower (code c)) (ascii_lower (code d)) && eq_ignore_ascii_case s t
eq_ignore_ascii_case _ _ = false

-- `u8::is_ascii_whitespace`.
unfoldable pub is_ascii_whitespace : ℕ → Bool
is_ascii_whitespace c =
    nat_beq c 0x20 || nat_beq c 0x9 || nat_beq c 0xa || nat_beq c 0xc || nat_beq c 0xd

-- `token.bytes().any(..)`: a byte of a longer UTF-8 sequence is no ASCII white space.
unfoldable pub has_ascii_whitespace : String → Bool
has_ascii_whitespace String.[] = false
has_ascii_whitespace (String.◌∷◌ c s) = is_ascii_whitespace (code c) || has_ascii_whitespace s

abbrev pub is_empty : String → Bool
is_empty String.[] = true
is_empty (String.◌∷◌ c s) = false

unfoldable pub accept_token : String × String → Option String
accept_token (scheme, token) =
    if eq_ignore_ascii_case scheme "bearer"
      && not (is_empty token)
      && not (has_ascii_whitespace token)
    then some token
    else none

unfoldable pub bearer_token : Header → Option String
bearer_token missing = none
bearer_token opaque_bytes = none
bearer_token (text value) = elim (split_once value) [
  | none ↦ none
  | some parts ↦ accept_token parts
]

unfoldable pub preferred_token : Header → Option String → Option String
preferred_token missing query_token = query_token
preferred_token opaque_bytes query_token = bearer_token opaque_bytes
preferred_token (text value) query_token = bearer_token (text value)
