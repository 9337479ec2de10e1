-- ===== src/Timeline/Tests.antt =====
-- Pages and cursors of src/timeline.rs on sample events, and the theorems at them.
use mathlib.Core.List.{Perm}
use meta_agent_control_plane.Prelude.{
  insert_sorted, sort_by, ℕ, ◌+◌, ◌*◌, ◌/◌, ◌%◌, ◌<◌, ◌≤◌, ◌≡◌, ◌++◌, Option, true, refl, false,
  none, some, List, [], ◌∷◌, arith, ltb, if◌then◌else◌, filter,
}
use meta_agent_control_plane.Model.Numbers.{Uuid, DateTime}
use meta_agent_control_plane.Model.{Transport}
use meta_agent_control_plane.Lru.Sample.{recency_lru}
use meta_agent_control_plane.Lru.Assoc.{last}
use meta_agent_control_plane.Store.State.{EventRecord, Snapshot}
use meta_agent_control_plane.Store.Sample.{progress, start}
use meta_agent_control_plane.Store.Ingest
use meta_agent_control_plane.Timeline
use meta_agent_control_plane.Timeline.{
  Formats, TimelinePolicy, TimelineCursor, TimelinePage, page, refused, invalid_cursor,
  revision_changed, uuid_bound,
}
use meta_agent_control_plane.Timeline.Hex
use meta_agent_control_plane.Timeline.Hex.{Fits, Text}
use meta_agent_control_plane.Timeline.Order
use meta_agent_control_plane.Timeline.Build
use meta_agent_control_plane.Timeline.Cursor.{parse-encode}
use meta_agent_control_plane.Auth
use meta_agent_control_plane.Auth.{AuthPolicy, Header, text, missing, granted}
use meta_agent_control_plane.Auth.Sample.{text_comparison}
use meta_agent_control_plane.Timeline.Query
use meta_agent_control_plane.Timeline.Query.{Answer, answered, failed, TimelineQuery}
use meta_agent_control_plane.Timeline.Requests.{timeline_answers, query-encode}
use meta_agent_control_plane.Timeline.Walk.{walk, walk_lists-All}

-- Two billion nanoseconds are left to each second, for leap seconds.
sample_timestamp_opt :
    (t : DateTime)
    → t < 36893488147419103232000000000
    → t % 2000000000 < 1000000000
    → some (t / 2000000000 * 2000000000 + t % 2000000000) ≡ some t
sample_timestamp_opt t bound plain = ground arith

below_Fits_uuid : (id : ℕ) → id < uuid_bound → Fits 32 id
below_Fits_uuid id h = omega arith

sample_parse-simple :
    (id : ℕ)
    → id < uuid_bound
    → Hex.from_str_radix 0xffffffffffffffffffffffffffffffff (Hex.lower_hex 32 id) ≡ some id
sample_parse-simple id h =
    Hex.from_str_radix-lower_hex 0xffffffffffffffffffffffffffffffff 32 id (omega arith)
      (below_Fits_uuid id h) (omega arith)

abbrev formats : Formats
formats = record {
  timestamp = λ t. t / 2000000000;
  timestamp_subsec_nanos = λ t. t % 2000000000;
  timestamp_opt = λ s n. some (s * 2000000000 + n);
  simple = Hex.lower_hex 32;
  parse_uuid = Hex.from_str_radix 0xffffffffffffffffffffffffffffffff;
  time_bound = 36893488147419103232000000000;
  timestamp_lt = λ t h. omega arith;
  nanos_lt = λ t. omega arith;
  timestamp_opt-timestamp = sample_timestamp_opt;
  length-simple = Hex.length-lower_hex 32;
  simple_unjoined = Hex.lower_hex_unjoined 32;
  simple_undotted = Hex.lower_hex_undotted 32;
  parse-simple = sample_parse-simple;
}

program : Unit {0}
unfolding Hex.hex_digit Hex.lower_hex Hex.to_digit Hex.push_digit Hex.read_digits Hex.from_str_radix
    Timeline.is_bad_limit Timeline.split_dots Timeline.encode Timeline.parse_fields Timeline.parse
    Order.is_newer insert_sorted sort_by Order.sort_records Build.cursor_at Build.page_of
    Build.build_timeline_page walk filter last Ingest.take Ingest.cache_stats Ingest.cache_snapshot
    Ingest.snapshot
program = tt

abbrev cursor : DateTime → TimelineCursor
cursor at = record {
  revision = 42;
  occurred_at = at;
  event_id = 0x018f5c8ad5a77f7c8d6184f55a35fe91;
}

plain_cursor :
    Timeline.parse formats (Timeline.encode formats (cursor 3400987654321))
    ≡ page (cursor 3400987654321)
unfolding program
plain_cursor = refl

-- The cursor of an event in a leap second is refused.
leap_cursor :
    Timeline.parse formats (Timeline.encode formats (cursor 3401987654321)) ≡ refused invalid_cursor
unfolding program
leap_cursor = refl

parse-encode_example : Timeline.parse formats (Timeline.encode formats (cursor 3400987654321)) ≡ (
    if ltb (3400987654321 % 2000000000) 1000000000
    then page (cursor 3400987654321)
    else refused invalid_cursor)
parse-encode_example =
    parse-encode formats (cursor 3400987654321) (omega arith) (omega arith) (omega arith)

abbrev entry : Uuid → DateTime → EventRecord
entry id at = record {
  event = progress id at "agent-a" "task-a";
  transport = Transport.http;
  received_at = at;
}

abbrev events : List EventRecord
events = entry 1 4000000000 ∷ entry 2 8000000000 ∷ entry 3 4000000000 ∷ []

abbrev snapshot : Snapshot
snapshot = record (Ingest.snapshot recency_lru start 9) { revision = 9; recent_events = events }

abbrev two : TimelinePolicy
two = record { limit = 2 }

abbrev first : TimelinePage
first =
    Build.page_of formats snapshot two 3
      (entry 2 8000000000 ∷ entry 3 4000000000 ∷ entry 1 4000000000 ∷ [])

two_pages :
    walk formats snapshot two 3 none
    ≡ some (entry 2 8000000000 ∷ entry 3 4000000000 ∷ entry 1 4000000000 ∷ [])
unfolding program
two_pages = refl

good_limit : Timeline.is_bad_limit two ≡ false
unfolding program
good_limit = refl

walk_lists-All_example :
    (l : List EventRecord) × (walk formats snapshot two 4 none ≡ some l)
    × Perm l events
    × Order.IsNewestFirst l
walk_lists-All_example =
    walk_lists-All formats snapshot two 4 good_limit (omega arith)
      ((refl, (refl, tt)), ((refl, tt), (tt, tt)))
      (
        (omega arith, omega arith, omega arith),
        ((omega arith, omega arith, omega arith), ((omega arith, omega arith, omega arith), tt)),
      )
      (omega arith)

abbrev readers : AuthPolicy
readers = record { token = some "secret-token-of-16"; protect_reads = true }

-- `limit=2`.
abbrev two_query : Text
two_query = Query.limit_name ++ (b'=' ∷ b'2' ∷ [])

abbrev answer : Header → Option Text → Answer TimelinePage
answer header raw = Query.timeline formats text_comparison readers header raw snapshot

requests : Unit {0}
unfolding program Auth.authorize_read Auth.authorize Auth.compare_tokens Auth.bearer_token
    Auth.split_once Auth.accept_token Auth.eq_ignore_ascii_case Auth.has_ascii_whitespace
    Auth.ascii_lower Auth.is_ascii_whitespace Query.split_parameters Query.split_name
    Query.read_decimal Query.parse_usize Query.is_seen Query.set_limit Query.set_cursor
    Query.query_policy Query.into_answer Query.set_named Query.set_all Query.parse_query
    Query.timeline
requests = tt

two_answered : answer (text "Bearer secret-token-of-16") (some two_query) ≡ answered first
unfolding requests
two_answered = refl

-- A caller without the token learns nothing of the query.
stranger_refused : answer missing (some (b'x' ∷ [])) ≡ failed Query.unauthorized
unfolding requests
stranger_refused = refl

-- A name may stand only once.
twice_refused :
    Query.parse_query formats (some (two_query ++ (b'&' ∷ two_query)))
    ≡ failed (Query.bad_request (Query.provided_twice Query.limit_name))
unfolding requests
twice_refused = refl

timeline_answers_example :
    (query : TimelineQuery) × (Auth.authorize_read text_comparison readers
        (Auth.bearer_token (text "Bearer secret-token-of-16"))
      ≡ granted)
    × (Query.parse_query formats (some two_query) ≡ answered query)
    × (Build.build_timeline_page formats snapshot (Query.query_policy query) query.cursor
        ≡ page first)
    × (1 ≤ (Query.query_policy query).limit)
    × ((Query.query_policy query).limit ≤ Timeline.max_timeline_page_limit)
timeline_answers_example =
    timeline_answers formats text_comparison readers (text "Bearer secret-token-of-16")
      (some two_query) snapshot first two_answered

query-encode_example :
    Query.parse_query formats
      (some (Query.cursor_name ++ (b'=' ∷ Timeline.encode formats (cursor 4000000005))))
    ≡ answered (record { limit = none; cursor = some (cursor 4000000005) })
query-encode_example =
    query-encode formats (cursor 4000000005) (omega arith) (omega arith) (omega arith) (omega arith)
