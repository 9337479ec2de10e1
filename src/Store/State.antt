-- ===== src/Store/State.antt =====
-- The data of src/store.rs: the projected states, the store, and what the store hands out.
use meta_agent_control_plane.Prelude.{
  ℕ, ◌≡◌, ◌↔◌, String, Bool, true, ◌&&◌, Option, List, PartialEq, ◌==◌, string_eq, arith,
}
use meta_agent_control_plane.Model.{
  Uuid, DateTime, F32, AgentRef, AgentStatus, ErrorObservation, EventEnvelope, Goal, Lesson,
  Reflection, TaskOutcome, TaskSpec, Transport,
}
use meta_agent_control_plane.Lru.{Lru}

-- `SNAPSHOT_EVENT_LIMIT`.
abbrev pub snapshot_event_limit : ℕ
snapshot_event_limit = 250

pub record ScopedId : Type 0 where
  pub agent_id : String
  pub entity_id : String

abbrev pub scoped_beq : ScopedId → ScopedId → Bool
scoped_beq a b = a.agent_id == b.agent_id && a.entity_id == b.entity_id

pub scoped_beq_iff : (a b : ScopedId) → (scoped_beq a b ≡ true) ↔ (a ≡ b)
scoped_beq_iff a b =
    let agent = string_eq.is_same_iff a.agent_id b.agent_id in
    let entity = string_eq.is_same_iff a.entity_id b.entity_id in
    (λ h. ground arith, λ h. ground arith)

instance abbrev pub scoped_eq : PartialEq ScopedId
scoped_eq = record { is_same = scoped_beq; is_same_iff = scoped_beq_iff }

pub record AgentState : Type 0 where
  pub agent : AgentRef
  pub display_name : String
  pub capabilities : List String
  pub metadata : List (String × String)
  pub status : AgentStatus
  pub session_id : Option String
  pub current_goal_id : Option String
  pub active_task_id : Option String
  pub registered_at : DateTime
  pub last_seen_at : DateTime
  pub completed_tasks : ℕ
  pub failed_tasks : ℕ
  pub latest_reflection : Option Reflection
  pub latest_error : Option ErrorObservation

pub record GoalState : Type 0 where
  pub goal : Goal
  pub agent_id : String
  pub declared_at : DateTime

pub data TaskStatus : Type 0 where
  pending running blocked succeeded failed canceled partial : TaskStatus

pub record TaskState : Type 0 where
  pub task : TaskSpec
  pub agent_id : String
  pub status : TaskStatus
  pub progress : F32
  pub attempt : ℕ
  pub plan_summary : Option String
  pub progress_summary : Option String
  pub blocker : Option String
  pub next_action : Option String
  pub latest_reflection : Option Reflection
  pub outcome : Option TaskOutcome
  pub completion_summary : Option String
  pub artifacts : List String
  pub inferred_from_out_of_order_event : Bool
  pub definition_updated_at : DateTime
  pub created_at : DateTime
  pub started_at : Option DateTime
  pub completed_at : Option DateTime
  pub updated_at : DateTime

pub record LessonState : Type 0 where
  pub lesson : Lesson
  pub agent_id : String
  pub learned_at : DateTime
  pub observations : ℕ

pub record EventRecord : Type 0 where
  pub event : EventEnvelope
  pub transport : Transport
  pub received_at : DateTime

pub record StoreUpdate : Type 0 where
  pub revision : ℕ
  pub event_id : Uuid
  pub kind : String
  pub agent_id : String
  pub task_id : Option String
  pub transport : Transport
  pub received_at : DateTime

pub record IngestAck : Type 0 where
  pub accepted : Bool
  pub duplicate : Bool
  pub event_id : Uuid
  pub revision : ℕ
  pub transport : Transport
  pub received_at : DateTime

-- The maps go by transport name; their order shows only when they are serialised.
pub record Counters : Type 0 where
  pub accepted : ℕ
  pub duplicate : ℕ
  pub rejected : ℕ
  pub accepted_by_transport : List (String × ℕ)
  pub rejected_by_transport : List (String × ℕ)

pub record EvictionCounters : Type 0 where
  pub agents : ℕ
  pub goals : ℕ
  pub tasks : ℕ
  pub lessons : ℕ
  pub events : ℕ
  pub idempotency : ℕ

pub record StoreInner (lru : Lru) : Type 0 where
  pub agents : lru.LruCache String AgentState
  pub goals : lru.LruCache ScopedId GoalState
  pub tasks : lru.LruCache ScopedId TaskState
  pub lessons : lru.LruCache ScopedId LessonState
  pub events : lru.LruCache Uuid EventRecord
  pub seen_event_ids : lru.LruCache Uuid ℕ
  pub evictions : EvictionCounters
  pub counters : Counters
  pub revision : ℕ
  pub started_at : DateTime

-- `pressure` is the quotient `length / capacity` before its rounding to an f64.
pub record CacheStats : Type 0 where
  pub length : ℕ
  pub capacity : ℕ
  pub evictions : ℕ
  pub pressure : ℕ × ℕ

pub record CacheSnapshot : Type 0 where
  pub agents : CacheStats
  pub goals : CacheStats
  pub tasks : CacheStats
  pub lessons : CacheStats
  pub events : CacheStats
  pub idempotency : CacheStats

pub record ProjectionCounts : Type 0 where
  pub agents : ℕ
  pub goals : ℕ
  pub tasks : ℕ
  pub lessons : ℕ

pub record MetricsSnapshot : Type 0 where
  pub revision : ℕ
  pub caches : CacheSnapshot
  pub counters : Counters
  pub projection : ProjectionCounts

pub record Snapshot : Type 0 where
  pub generated_at : DateTime
  pub started_at : DateTime
  pub revision : ℕ
  pub agents : List AgentState
  pub goals : List GoalState
  pub tasks : List TaskState
  pub lessons : List LessonState
  pub recent_events : List EventRecord
  pub caches : CacheSnapshot
  pub counters : Counters
