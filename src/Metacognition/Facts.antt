-- ===== src/Metacognition/Facts.antt =====
-- What the rules of src/metacognition/analysis.rs read of a task, and what they find.
use meta_agent_control_plane.Prelude.{
  ℕ, ◌∷◌, [], List, String, Bool, true, false, ◌||◌, Option, none, some, is_some, concat, string_eq,
  pair_eq,
}
use meta_agent_control_plane.Model.{TaskOutcome}
use meta_agent_control_plane.Model.Numbers.{Uuid, F32}
use meta_agent_control_plane.Store.State.{TaskState, TaskStatus}
use meta_agent_control_plane.Metacognition.Data.{DiagnosticRule, DiagnosticSeverity, rule_as_str}
use meta_agent_control_plane.Metacognition.Lookup.{Dependencies}

abbrev pub is_active : TaskStatus → Bool
is_active TaskStatus.pending = true
is_active TaskStatus.running = true
is_active TaskStatus.blocked = true
is_active _ = false

abbrev pub is_terminal : TaskStatus → Bool
is_terminal TaskStatus.succeeded = true
is_terminal TaskStatus.failed = true
is_terminal TaskStatus.canceled = true
is_terminal TaskStatus.partial = true
is_terminal _ = false

-- `task.status == TaskStatus::Blocked`, and the same for the others.
abbrev pub has_blocked : TaskStatus → Bool
has_blocked TaskStatus.blocked = true
has_blocked _ = false

abbrev pub has_running : TaskStatus → Bool
has_running TaskStatus.running = true
has_running _ = false

abbrev pub has_closed : TaskStatus → Bool
has_closed TaskStatus.succeeded = true
has_closed TaskStatus.canceled = true
has_closed _ = false

-- `{:?}`.
abbrev pub status_debug : TaskStatus → String
status_debug TaskStatus.pending = "Pending"
status_debug TaskStatus.running = "Running"
status_debug TaskStatus.blocked = "Blocked"
status_debug TaskStatus.succeeded = "Succeeded"
status_debug TaskStatus.failed = "Failed"
status_debug TaskStatus.canceled = "Canceled"
status_debug TaskStatus.partial = "Partial"

abbrev pub outcome_debug : Option TaskOutcome → String
outcome_debug none = "None"
outcome_debug (some TaskOutcome.succeeded) = "Some(Succeeded)"
outcome_debug (some TaskOutcome.failed) = "Some(Failed)"
outcome_debug (some TaskOutcome.canceled) = "Some(Canceled)"
outcome_debug (some TaskOutcome.partial) = "Some(Partial)"

-- The `match` on status and outcome. The first argument says that the progress is below 1.0.
unfoldable pub is_completion_mismatch : Bool → TaskStatus → Option TaskOutcome → Bool
is_completion_mismatch below TaskStatus.succeeded (some TaskOutcome.succeeded) = below
is_completion_mismatch below TaskStatus.failed (some TaskOutcome.failed) = false
is_completion_mismatch below TaskStatus.canceled (some TaskOutcome.canceled) = false
is_completion_mismatch below TaskStatus.partial (some TaskOutcome.partial) = false
is_completion_mismatch below status outcome = is_terminal status || is_some outcome

-- What the loop has found out about a task before the first rule.
pub record Facts : Type 0 where
  pub source_event_ids : List Uuid
  pub stale_for_seconds : ℕ
  pub evidence_count : ℕ
  pub confidence : Option F32
  pub dependencies : Dependencies
  pub on_cycle : Bool
  pub goal_is_known : Bool

-- The arguments of `add`.
pub record Finding : Type 0 where
  pub rule : DiagnosticRule
  pub severity : DiagnosticSeverity
  pub summary : String
  pub explanation : String
  pub recommended_action : String

-- `if test { add(..) }`, before the rules that follow.
abbrev pub raise : Bool → Finding → List Finding → List Finding
raise true f rest = f ∷ rest
raise false f rest = rest

abbrev pub is_nothing : List String → Bool
is_nothing [] = true
is_nothing (s ∷ l) = false

-- `!source_event_ids.is_empty()`.
abbrev pub is_retained : List Uuid → Bool
is_retained [] = false
is_retained (id ∷ ids) = true

unfoldable pub diagnostic_id : DiagnosticRule → String → String → String
diagnostic_id rule agent_id task_id =
    concat (rule_as_str rule ∷ ":" ∷ agent_id ∷ ":" ∷ task_id ∷ [])

-- `"Task {} .."`.
abbrev pub task_text : TaskState → String → String
task_text task text = concat ("Task " ∷ task.task.task_id ∷ text ∷ [])
