-- ===== src/Timeline.antt =====
-- src/timeline.rs: pages of the retained events, newest first, and the cursors that lead from one
-- page to the next. A text is its UTF-8, as a list of bytes.
pub mod Hex
pub mod Order
pub mod Pages
pub mod Walk
mod Tests
pub mod Build
pub mod Cursor
pub mod Query
pub mod Requests
use meta_agent_control_plane.Prelude.{
  ℕ, ◌+◌, ◌-◌, ◌<◌, ◌≡◌, String, Bool, true, false, ◌&&◌, ◌||◌, not, Option, none, some, List, [],
  ◌∷◌, ◌++◌, length, leb, ltb, nat_beq, if◌then◌else◌, filter,
}
use meta_agent_control_plane.Model.Numbers.{Uuid, DateTime}
use meta_agent_control_plane.Store.State.{EventRecord, Snapshot}
use meta_agent_control_plane.Store.Ingest.{take}
use meta_agent_control_plane.Timeline.Hex.{Text, lower_hex, from_str_radix}

abbrev pub max_timeline_page_limit : ℕ
max_timeline_page_limit = 100

-- "v1".
abbrev pub cursor_version : Text
cursor_version = b'v' ∷ b'1' ∷ []

abbrev pub uuid_bound : ℕ
uuid_bound = 0x100000000000000000000000000000000

-- What the crates `chrono` and `uuid` do: the seconds of a time since 1970 as the bits of an i64,
-- its nanoseconds, which pass a billion in a leap second, and the time that they make; the 32
-- hexadecimal digits of an id, and the id that they make.
pub record Formats : Type 0 where
  pub timestamp : DateTime → ℕ
  pub timestamp_subsec_nanos : DateTime → ℕ
  pub timestamp_opt : ℕ → ℕ → Option DateTime
  pub simple : Uuid → Text
  pub parse_uuid : Text → Option Uuid
  -- The number of times that `chrono` represents.
  pub time_bound : ℕ
  pub timestamp_lt : (t : DateTime) → t < time_bound → timestamp t < 18446744073709551616
  pub nanos_lt : (t : DateTime) → timestamp_subsec_nanos t < 2000000000
  pub timestamp_opt-timestamp :
      (t : DateTime)
      → t < time_bound
      → timestamp_subsec_nanos t < 1000000000
      → timestamp_opt (timestamp t) (timestamp_subsec_nanos t) ≡ some t
  pub length-simple : (id : Uuid) → length (simple id) ≡ 32
  pub simple_unjoined : (id : Uuid) → Hex.contains_byte b'&' (simple id) ≡ false
  pub simple_undotted : (id : Uuid) → Hex.contains_byte b'.' (simple id) ≡ false
  pub parse-simple : (id : Uuid) → id < uuid_bound → parse_uuid (simple id) ≡ some id

pub record TimelinePolicy : Type 0 where
  pub limit : ℕ

pub record TimelineCursor : Type 0 where
  pub revision : ℕ
  pub occurred_at : DateTime
  pub event_id : Uuid

pub data TimelineError : Type 0 where
  invalid_limit : TimelineError
  invalid_cursor : TimelineError
  revision_changed : ℕ → ℕ → TimelineError

pub record TimelinePage : Type 0 where
  pub generated_at : DateTime
  pub started_at : DateTime
  pub revision : ℕ
  pub events : List EventRecord
  pub next_cursor : Option Text
  pub retained_total : ℕ
  pub returned : ℕ
  pub remaining_older : ℕ
  pub newer_retained_events_skipped : ℕ
  pub event_cache_evictions : ℕ
  pub policy : TimelinePolicy

-- `Result<A, TimelineError>`.
pub data Paged (A : Type 0) : Type 0 where
  page : A → Paged A
  refused : TimelineError → Paged A

-- `TimelinePolicy::default`.
abbrev pub default_policy : TimelinePolicy
default_policy = record { limit = 50 }

-- `TimelinePolicy::validate` refuses the policy.
unfoldable pub is_bad_limit : TimelinePolicy → Bool
is_bad_limit policy = nat_beq policy.limit 0 || ltb max_timeline_page_limit policy.limit

-- `value.split('.')`: the fields between the dots, at least one.
unfoldable pub split_dots : Text → List Text
split_dots [] = [] ∷ []
split_dots (c ∷ cs) = elim (split_dots cs) [
  | [] ↦ []
  | field ∷ fields ↦ if nat_beq c b'.' then [] ∷ field ∷ fields else (c ∷ field) ∷ fields
]

infixl 5 ◌>>=◌ ◌>>◌
abbrev pub ◌>>=◌ : {A B : Type 0} → Paged A → (A → Paged B) → Paged B
page a >>= f = f a
refused e >>= f = refused e

abbrev pub ◌>>◌ : {B : Type 0} → Paged (Unit {0}) → Paged B → Paged B
m >> next = m >>= λ _. next

-- `ok_or(InvalidCursor)`.
abbrev pub or_invalid : {A : Type 0} → Option A → Paged A
or_invalid none = refused invalid_cursor
or_invalid (some a) = page a

abbrev pub unless_invalid : Bool → Paged (Unit {0})
unless_invalid true = refused invalid_cursor
unless_invalid false = page tt

module _ (formats : Formats) where
  open formats use {timestamp, timestamp_subsec_nanos, timestamp_opt, simple, parse_uuid}

  -- `TimelineCursor::encode`.
  unfoldable pub encode : TimelineCursor → Text
  encode cursor =
      cursor_version
      ++ (b'.'
          ∷ (lower_hex 16 cursor.revision
              ++ (b'.'
                  ∷ (lower_hex 16 (timestamp cursor.occurred_at)
                      ++ (b'.'
                          ∷ (lower_hex 8 (timestamp_subsec_nanos cursor.occurred_at)
                              ++ (b'.' ∷ simple cursor.event_id)))))))

  -- `TimelineCursor::parse`, from the five fields on.
  unfoldable pub parse_fields : Text → Text → Text → Text → Text → Paged TimelineCursor
  parse_fields version revision seconds nanos event_id = do
    unless_invalid (not (Hex.same_text version cursor_version))
    unless_invalid (
        not (nat_beq (length revision) 16)
        || not (nat_beq (length seconds) 16)
        || not (nat_beq (length nanos) 8)
        || not (nat_beq (length event_id) 32))
    revision' ← or_invalid (from_str_radix 18446744073709551615 revision)
    seconds' ← or_invalid (from_str_radix 18446744073709551615 seconds)
    nanos' ← or_invalid (from_str_radix 4294967295 nanos)
    unless_invalid (leb 1000000000 nanos')
    occurred_at ← or_invalid (timestamp_opt seconds' nanos')
    event_id' ← or_invalid (parse_uuid event_id)
    page (record { revision = revision'; occurred_at = occurred_at; event_id = event_id' })

  abbrev pub five_fields : List Text → Paged TimelineCursor
  five_fields (version ∷ revision ∷ seconds ∷ nanos ∷ event_id ∷ []) =
      parse_fields version revision seconds nanos event_id
  five_fields _ = refused invalid_cursor

  unfoldable pub parse : Text → Paged TimelineCursor
  unfolding parse_fields
  parse value = do unless_invalid (ltb 96 (length value)); five_fields (split_dots value)
