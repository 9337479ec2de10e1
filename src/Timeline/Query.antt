-- ===== src/Timeline/Query.antt =====
-- src/timeline_api.rs: the query of a timeline request, and the handler of the route. The snapshot is
-- the one that `Store::snapshot` returns.
use meta_agent_control_plane.Prelude.{
  ℕ, ◌+◌, ◌-◌, ◌*◌, Bool, false, ◌&&◌, ◌||◌, Option, none, some, List, [], ◌∷◌, leb, ltb, nat_beq,
  if◌then◌else◌,
}
use meta_agent_control_plane.Auth.{
  ConstantTime, AuthPolicy, granted, denied, Header, authorize_read, bearer_token,
}
use meta_agent_control_plane.Store.State.{Snapshot}
use meta_agent_control_plane.Timeline.Hex.{Text, same_text}
use meta_agent_control_plane.Timeline.{
  Formats, TimelinePolicy, TimelineCursor, TimelineError, TimelinePage, Paged, page, refused,
  invalid_limit, invalid_cursor, revision_changed, max_timeline_page_limit, default_policy, parse,
}
use meta_agent_control_plane.Timeline.Build.{build_timeline_page}

-- The messages of `ApiError::BadRequest`.
pub data BadRequest : Type 0 where
  not_name_value : BadRequest
  provided_twice : Text → BadRequest
  limit_not_a_number : BadRequest
  limit_out_of_range : BadRequest
  cursor_invalid : BadRequest
  unknown_parameter : Text → BadRequest
  timeline_refused : TimelineError → BadRequest

pub data ApiError : Type 0 where
  unauthorized : ApiError
  bad_request : BadRequest → ApiError
  revision_conflict : ℕ → ℕ → ApiError

-- `Result<A, ApiError>`.
pub data Answer (A : Type 0) : Type 0 where
  answered : A → Answer A
  failed : ApiError → Answer A

infixl 5 ◌>>=◌
abbrev pub ◌>>=◌ : {A B : Type 0} → Answer A → (A → Answer B) → Answer B
answered a >>= f = f a
failed e >>= f = failed e

pub record TimelineQuery : Type 0 where
  pub limit : Option ℕ
  pub cursor : Option TimelineCursor

abbrev pub default_query : TimelineQuery
default_query = record { limit = none; cursor = none }

-- `raw_query.split('&')`.
unfoldable pub split_parameters : Text → List Text
split_parameters [] = [] ∷ []
split_parameters (c ∷ cs) = elim (split_parameters cs) [
  | [] ↦ []
  | parameter ∷ parameters ↦
      if nat_beq c b'&' then [] ∷ parameter ∷ parameters else (c ∷ parameter) ∷ parameters
]

-- `parameter.split_once('=')`.
unfoldable pub split_name : Text → Option (Text × Text)
split_name [] = none
split_name (c ∷ cs) =
    let rest : Option (Text × Text) = elim (split_name cs) [
      | none ↦ none
      | some (name, value) ↦ some (c ∷ name, value)
    ] in
    if nat_beq c b'=' then some ([], cs) else rest

-- The decimal digits of a usize.
unfoldable pub read_decimal : ℕ → Text → Option ℕ
read_decimal n [] = some n
read_decimal n (c ∷ cs) =
    let rest = read_decimal (n * 10 + (c - b'0')) cs in
    if leb b'0' c && leb c b'9' && leb (n * 10 + (c - b'0')) 18446744073709551615
    then rest
    else none

-- `raw_value.parse::<usize>()`: a plus may stand first, and there is a digit.
unfoldable pub parse_usize : Text → Option ℕ
unfolding read_decimal
parse_usize [] = none
parse_usize (c ∷ []) = read_decimal 0 (c ∷ [])
parse_usize (c ∷ d ∷ cs) =
    if nat_beq c b'+' then read_decimal 0 (d ∷ cs) else read_decimal 0 (c ∷ d ∷ cs)

unfoldable pub is_seen : Text → List Text → Bool
is_seen name [] = false
is_seen name (n ∷ seen) = same_text n name || is_seen name seen

abbrev pub limit_name : Text
limit_name = b'l' ∷ b'i' ∷ b'm' ∷ b'i' ∷ b't' ∷ []

abbrev pub cursor_name : Text
cursor_name = b'c' ∷ b'u' ∷ b'r' ∷ b's' ∷ b'o' ∷ b'r' ∷ []

-- The arm for the limit.
unfoldable pub set_limit : Option ℕ → TimelineQuery → Answer TimelineQuery
set_limit none query = failed (bad_request limit_not_a_number)
set_limit (some value) query =
    if nat_beq value 0 || ltb max_timeline_page_limit value
    then failed (bad_request limit_out_of_range)
    else answered (record query { limit = some value })

-- The arm for the cursor.
unfoldable pub set_cursor : Paged TimelineCursor → TimelineQuery → Answer TimelineQuery
set_cursor (page cursor) query = answered (record query { cursor = some cursor })
set_cursor (refused e) query = failed (bad_request cursor_invalid)

-- `TimelineQuery::policy`.
unfoldable pub query_policy : TimelineQuery → TimelinePolicy
query_policy query = elim query.limit [ none ↦ default_policy | some n ↦ record { limit = n } ]

-- The errors of the page.
unfoldable pub into_answer : Paged TimelinePage → Answer TimelinePage
into_answer (page p) = answered p
into_answer (refused invalid_limit) = failed (bad_request (timeline_refused invalid_limit))
into_answer (refused invalid_cursor) = failed (bad_request (timeline_refused invalid_cursor))
into_answer (refused (revision_changed requested current)) =
    failed (revision_conflict requested current)

module _ (formats : Formats) where
  -- One parameter, under the names that were seen before.
  unfoldable pub set_named :
      List Text → TimelineQuery → Option (Text × Text) → Answer (TimelineQuery × List Text)
  unfolding set_limit set_cursor
  set_named seen query none = failed (bad_request not_name_value)
  set_named seen query (some (name, value)) =
      if is_seen name seen
      then failed (bad_request (provided_twice name))
      else (if same_text name limit_name
          then set_limit (parse_usize value) query
          else if same_text name cursor_name
          then set_cursor (parse formats value) query
          else failed (bad_request (unknown_parameter name)))
        >>= λ next. answered (next, name ∷ seen)

  unfoldable pub set_all : List Text → List Text → TimelineQuery → Answer TimelineQuery
  unfolding set_named
  set_all [] seen query = answered query
  set_all (parameter ∷ parameters) seen query = elim (set_named seen query (split_name parameter)) [
    | failed e ↦ failed e
    | answered (next, names) ↦ set_all parameters names next
  ]

  -- `TimelineQuery::parse`.
  unfoldable pub parse_query : Option Text → Answer TimelineQuery
  unfolding set_all
  parse_query none = answered default_query
  parse_query (some []) = answered default_query
  parse_query (some (c ∷ cs)) = set_all (split_parameters (c ∷ cs)) [] default_query

  -- The handler of `/api/v1/timeline`.
  unfoldable pub timeline :
      ConstantTime → AuthPolicy → Header → Option Text → Snapshot → Answer TimelinePage
  unfolding into_answer query_policy
  timeline constant_time policy header raw_query snapshot =
      elim (authorize_read constant_time policy (bearer_token header)) [
        | denied ↦ failed unauthorized
        | granted ↦ do
          query ← parse_query raw_query
          into_answer (build_timeline_page formats snapshot (query_policy query) query.cursor)
      ]
