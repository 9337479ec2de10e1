-- ===== src/Metacognition/Data.antt =====
-- The data of src/metacognition/types.rs. An f32 is its bits.
use meta_agent_control_plane.Prelude.{ℕ, ℤ, String, Bool, Option, List, nat_beq, ◌==◌, string_eq}
use meta_agent_control_plane.Model.Numbers.{Uuid, DateTime, F32}
use meta_agent_control_plane.Store.State.{TaskStatus}

pub record AnalysisPolicy : Type 0 where
  pub stale_after_seconds : ℤ
  pub retry_loop_attempts : ℕ
  pub low_confidence_threshold : F32

pub data DiagnosticSeverity : Type 0 where
  info warning critical : DiagnosticSeverity

-- `DiagnosticSeverity::rank`.
abbrev pub severity_rank : DiagnosticSeverity → ℕ
severity_rank DiagnosticSeverity.info = 1
severity_rank DiagnosticSeverity.warning = 2
severity_rank DiagnosticSeverity.critical = 3

pub data DiagnosticRule : Type 0 where
  stalled_task retry_loop blocked_dependency orphan_dependency dependency_cycle : DiagnosticRule
  orphan_goal missing_evidence low_confidence missing_next_action : DiagnosticRule
  completion_mismatch : DiagnosticRule

-- `DiagnosticRule::as_str`.
abbrev pub rule_as_str : DiagnosticRule → String
rule_as_str DiagnosticRule.stalled_task = "stalled_task"
rule_as_str DiagnosticRule.retry_loop = "retry_loop"
rule_as_str DiagnosticRule.blocked_dependency = "blocked_dependency"
rule_as_str DiagnosticRule.orphan_dependency = "orphan_dependency"
rule_as_str DiagnosticRule.dependency_cycle = "dependency_cycle"
rule_as_str DiagnosticRule.orphan_goal = "orphan_goal"
rule_as_str DiagnosticRule.missing_evidence = "missing_evidence"
rule_as_str DiagnosticRule.low_confidence = "low_confidence"
rule_as_str DiagnosticRule.missing_next_action = "missing_next_action"
rule_as_str DiagnosticRule.completion_mismatch = "completion_mismatch"

pub record Diagnostic : Type 0 where
  pub diagnostic_id : String
  pub rule : DiagnosticRule
  pub severity : DiagnosticSeverity
  pub agent_id : String
  pub goal_id : Option String
  pub task_id : Option String
  pub summary : String
  pub explanation : String
  pub recommended_action : Option String
  pub source_event_ids : List Uuid
  pub source_events_retained : Bool

-- The ages are i64 and never negative, by `age_seconds`.
pub record TaskAnalysis : Type 0 where
  pub agent_id : String
  pub task_id : String
  pub goal_id : Option String
  pub status : TaskStatus
  pub self_reported_progress : F32
  pub evidence_backed_progress : F32
  pub confidence : Option F32
  pub evidence_count : ℕ
  pub attempt : ℕ
  pub stale_for_seconds : ℕ
  pub blocker_age_seconds : Option ℕ
  pub unresolved_dependencies : List String
  pub missing_dependencies : List String
  pub on_critical_path : Bool
  pub diagnostic_ids : List String
  pub source_event_ids : List Uuid
  pub source_events_retained : Bool

pub record GoalAnalysis : Type 0 where
  pub agent_id : String
  pub goal_id : String
  pub title : String
  pub success_criteria_count : ℕ
  pub total_tasks : ℕ
  pub active_tasks : ℕ
  pub blocked_tasks : ℕ
  pub completed_tasks : ℕ
  pub stalled_tasks : ℕ
  pub self_reported_progress : F32
  pub evidence_backed_progress : F32
  pub evidence_coverage : F32
  pub critical_path_remaining : Option ℕ
  pub critical_path_task_ids : List String
  pub diagnostic_ids : List String
  pub data_quality_warnings : List String

pub record MetacognitionSummary : Type 0 where
  pub total_goals : ℕ
  pub total_tasks : ℕ
  pub active_tasks : ℕ
  pub blocked_tasks : ℕ
  pub stalled_tasks : ℕ
  pub retry_loops : ℕ
  pub critical_diagnostics : ℕ
  pub warning_diagnostics : ℕ
  pub info_diagnostics : ℕ
  pub self_reported_progress : F32
  pub evidence_backed_progress : F32
  pub evidence_coverage : F32

pub record MetacognitionSnapshot : Type 0 where
  pub generated_at : DateTime
  pub revision : ℕ
  pub policy : AnalysisPolicy
  pub summary : MetacognitionSummary
  pub goals : List GoalAnalysis
  pub tasks : List TaskAnalysis
  pub diagnostics : List Diagnostic

-- `==` of the derived `PartialEq`: the names of two rules differ.
abbrev pub same_rule : DiagnosticRule → DiagnosticRule → Bool
same_rule a b = rule_as_str a == rule_as_str b

abbrev pub same_severity : DiagnosticSeverity → DiagnosticSeverity → Bool
same_severity a b = nat_beq (severity_rank a) (severity_rank b)
