-- ===== src/Explorer/Data.antt =====
-- The data of src/explorer.rs, and the policy.
use meta_agent_control_plane.Prelude.{
  ℕ, String, ◌||◌, Option, List, ltb, nat_beq, string_eq, Checked, ◌>>◌, reject_if,
}
use meta_agent_control_plane.Model.{DateTime}
use meta_agent_control_plane.Store.State.{
  AgentState, CacheSnapshot, Counters, EventRecord, LessonState,
}

pub record ExplorerPolicy : Type 0 where
  pub timeline_limit : ℕ
  pub session_limit : ℕ
  pub lesson_limit : ℕ

-- `ExplorerPolicy::default`.
abbrev pub default_explorer_policy : ExplorerPolicy
default_explorer_policy = record { timeline_limit = 100; session_limit = 100; lesson_limit = 250 }

pub data ExplorerError : Type 0 where
  invalid_limit : String → ℕ → ExplorerError

unfoldable pub validate_limit : String → ℕ → ℕ → Checked ExplorerError
validate_limit name value maximum =
    reject_if (nat_beq value 0 || ltb maximum value) (invalid_limit name maximum)

-- `ExplorerPolicy::validate`.
unfoldable pub validate_explorer : ExplorerPolicy → Checked ExplorerError
unfolding validate_limit
validate_explorer policy =
    validate_limit "timeline_limit" policy.timeline_limit 250
    >> validate_limit "session_limit" policy.session_limit 250
    >> validate_limit "lesson_limit" policy.lesson_limit 1000

abbrev pub Tally : Type 0
Tally = List (String × ℕ)

pub record SessionSummary : Type 0 where
  pub session_id : String
  pub agent_ids : List String
  pub task_ids : List String
  pub event_kinds : Tally
  pub transports : Tally
  pub event_count : ℕ
  pub first_occurred_at : DateTime
  pub last_occurred_at : DateTime
  pub latest_event_id : String
  pub latest_event_kind : String
  pub latest_task_id : Option String

pub record SystemSummary : Type 0 where
  pub uptime_seconds : ℕ
  pub agents : ℕ
  pub goals : ℕ
  pub tasks : ℕ
  pub lessons : ℕ
  pub retained_events : ℕ
  pub retained_sessions : ℕ
  pub caches : CacheSnapshot
  pub counters : Counters

pub record RetentionSummary : Type 0 where
  pub total_timeline_events : ℕ
  pub returned_timeline_events : ℕ
  pub omitted_timeline_events : ℕ
  pub total_sessions : ℕ
  pub returned_sessions : ℕ
  pub omitted_sessions : ℕ
  pub total_lessons : ℕ
  pub returned_lessons : ℕ
  pub omitted_lessons : ℕ

pub record ExplorerSnapshot : Type 0 where
  pub generated_at : DateTime
  pub started_at : DateTime
  pub revision : ℕ
  pub agents : List AgentState
  pub sessions : List SessionSummary
  pub lessons : List LessonState
  pub timeline : List EventRecord
  pub system : SystemSummary
  pub retention : RetentionSummary
  pub policy : ExplorerPolicy

pub record SessionAccumulator : Type 0 where
  pub agent_ids : List String
  pub task_ids : List String
  pub event_kinds : Tally
  pub transports : Tally
  pub event_count : ℕ
  pub first_occurred_at : DateTime
  pub last_occurred_at : DateTime
  pub latest_event_id : String
  pub latest_event_kind : String
  pub latest_task_id : Option String
