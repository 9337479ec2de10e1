-- ===== src/Auth/Tests.antt =====
-- Tokens in headers and in a policy of src/auth.rs, and the theorems at them.
use Prim.Native.String.{◌++◌}
use meta_agent_control_plane.Prelude.{
  ◌≡◌, ◌↔◌, ◌⊎◌, refl, String, true, false, ◌&&◌, not, Option, none, some, if◌then◌else◌,
}
use meta_agent_control_plane.Auth
use meta_agent_control_plane.Auth.{AuthPolicy, Header, missing, text, granted, denied}
use meta_agent_control_plane.Auth.Sample.{text_comparison}
use meta_agent_control_plane.Auth.Laws.{
  granted_iff, bearer_token_parts, preferred_token_iff, IsBearer,
}

abbrev policy : AuthPolicy
policy = record { token = some "0123456789abcdef"; protect_reads = true }

program : Unit {0}
unfolding Auth.compare_tokens Auth.authorize Auth.authorize_ingest Auth.authorize_read
    Auth.split_once Auth.ascii_lower Auth.eq_ignore_ascii_case Auth.is_ascii_whitespace
    Auth.has_ascii_whitespace Auth.accept_token Auth.bearer_token Auth.preferred_token
program = tt

wrong_token : Auth.authorize_read text_comparison policy (some "0123456789abcdeg") ≡ denied
unfolding program
wrong_token = refl

scheme_case : Auth.bearer_token (text "bEaReR token-1") ≡ some "token-1"
unfolding program
scheme_case = refl

two_tokens : Auth.preferred_token (text "Bearer one two") (some "three") ≡ none
unfolding program
two_tokens = refl

granted_iff_example :
    ((Auth.authorize_ingest text_comparison policy (some "0123456789abcdef") ≡ granted) ↔ (
      (policy.token ≡ none)
      ⊎ ((t : String) × (policy.token ≡ some t) × (some "0123456789abcdef" ≡ some t))))
    × ((Auth.authorize_read text_comparison policy (some "0123456789abcdef") ≡ granted) ↔ (
        (policy.protect_reads ≡ false)
        ⊎ (Auth.authorize_ingest text_comparison policy (some "0123456789abcdef") ≡ granted)))
granted_iff_example = granted_iff text_comparison policy (some "0123456789abcdef")

no_space_in_scheme : Auth.has_ascii_whitespace "Bearer" ≡ false
unfolding program
no_space_in_scheme = refl

no_space_in_token : Auth.has_ascii_whitespace "token-1" ≡ false
unfolding program
no_space_in_token = refl

bearer_token_parts_example : Auth.bearer_token (text ("Bearer" ++ " " ++ "token-1")) ≡ (
    if Auth.eq_ignore_ascii_case "Bearer" "bearer" && not (Auth.is_empty "token-1")
    then some "token-1"
    else none)
bearer_token_parts_example =
    bearer_token_parts "Bearer" "token-1" no_space_in_scheme no_space_in_token

abbrev query : Option String
query = some "other"

read_token : Auth.preferred_token (text "Bearer token-1") query ≡ some "token-1"
unfolding program
read_token = refl

preferred_token_iff_example :
    (Auth.preferred_token (text "Bearer token-1") query ≡ some "token-1") ↔ (
      ((text "Bearer token-1" ≡ missing) × (query ≡ some "token-1"))
      ⊎ IsBearer "token-1" (text "Bearer token-1"))
preferred_token_iff_example = preferred_token_iff (text "Bearer token-1") query "token-1"
