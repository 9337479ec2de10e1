-- ===== src/Coordination/Data.antt =====
-- The data of src/coordination.rs, the policy and the orders.
use meta_agent_control_plane.Prelude.{
  ℕ, Ordering, compare, String, Bool, Option, List, then_with, compare_text, Checked, ok, err,
  nat_beq, if◌then◌else◌,
}
use meta_agent_control_plane.Model.Numbers.{Uuid, DateTime}
use meta_agent_control_plane.Metacognition.Data.{AnalysisPolicy}

pub record PlanningPolicy : Type 0 where
  pub max_assignments : ℕ
  pub max_assignments_per_agent : ℕ
  pub max_interventions : ℕ
  pub max_holds : ℕ

-- `PlanningPolicy::default`.
abbrev pub default_planning_policy : PlanningPolicy
default_planning_policy = record {
  max_assignments = 16;
  max_assignments_per_agent = 2;
  max_interventions = 32;
  max_holds = 64;
}

pub data PlanningError : Type 0 where
  invalid_policy : String → PlanningError

-- `PlanningPolicy::validate`: the first limit that is zero is named.
unfoldable pub validate_policy : PlanningPolicy → Checked PlanningError
validate_policy policy =
    if nat_beq policy.max_assignments 0
    then err (invalid_policy "maximum assignments")
    else if nat_beq policy.max_assignments_per_agent 0
    then err (invalid_policy "maximum assignments per agent")
    else if nat_beq policy.max_interventions 0
    then err (invalid_policy "maximum interventions")
    else if nat_beq policy.max_holds 0
    then err (invalid_policy "maximum holds")
    else ok

pub data AssignmentAction : Type 0 where
  start_task continue_task resolve_blocker request_checkpoint change_strategy : AssignmentAction
  gather_evidence define_next_action : AssignmentAction

-- `AssignmentAction::as_str`.
abbrev pub action_as_str : AssignmentAction → String
action_as_str AssignmentAction.start_task = "start_task"
action_as_str AssignmentAction.continue_task = "continue_task"
action_as_str AssignmentAction.resolve_blocker = "resolve_blocker"
action_as_str AssignmentAction.request_checkpoint = "request_checkpoint"
action_as_str AssignmentAction.change_strategy = "change_strategy"
action_as_str AssignmentAction.gather_evidence = "gather_evidence"
action_as_str AssignmentAction.define_next_action = "define_next_action"

-- `AssignmentAction::base_priority`.
abbrev pub action_priority : AssignmentAction → ℕ
action_priority AssignmentAction.change_strategy = 900
action_priority AssignmentAction.request_checkpoint = 850
action_priority AssignmentAction.resolve_blocker = 800
action_priority AssignmentAction.gather_evidence = 700
action_priority AssignmentAction.define_next_action = 650
action_priority AssignmentAction.start_task = 600
action_priority AssignmentAction.continue_task = 500

pub data InterventionKind : Type 0 where
  repair_dependency_graph declare_missing_goal reconcile_completion : InterventionKind

-- `InterventionKind::as_str`.
abbrev pub kind_as_str : InterventionKind → String
kind_as_str InterventionKind.repair_dependency_graph = "repair_dependency_graph"
kind_as_str InterventionKind.declare_missing_goal = "declare_missing_goal"
kind_as_str InterventionKind.reconcile_completion = "reconcile_completion"

-- `InterventionKind::base_priority`.
abbrev pub kind_priority : InterventionKind → ℕ
kind_priority InterventionKind.reconcile_completion = 1200
kind_priority InterventionKind.repair_dependency_graph = 1100
kind_priority InterventionKind.declare_missing_goal = 1000

pub data HoldReason : Type 0 where
  agent_offline waiting_on_dependencies terminal assignment_limit : HoldReason

abbrev pub hold_rank : HoldReason → ℕ
hold_rank HoldReason.agent_offline = 1
hold_rank HoldReason.waiting_on_dependencies = 2
hold_rank HoldReason.assignment_limit = 3
hold_rank HoldReason.terminal = 4

pub record Assignment : Type 0 where
  pub assignment_id : String
  pub agent_id : String
  pub task_id : String
  pub goal_id : Option String
  pub action : AssignmentAction
  pub priority : ℕ
  pub rationale : String
  pub recommended_action : String
  pub on_critical_path : Bool
  pub diagnostic_ids : List String
  pub source_event_ids : List Uuid
  pub source_events_retained : Bool

pub record Intervention : Type 0 where
  pub intervention_id : String
  pub agent_id : String
  pub task_id : String
  pub goal_id : Option String
  pub kind : InterventionKind
  pub priority : ℕ
  pub rationale : String
  pub recommended_action : String
  pub diagnostic_ids : List String
  pub source_event_ids : List Uuid
  pub source_events_retained : Bool

pub record HeldTask : Type 0 where
  pub agent_id : String
  pub task_id : String
  pub goal_id : Option String
  pub reason : HoldReason
  pub explanation : String
  pub unresolved_dependencies : List String
  pub diagnostic_ids : List String
  pub source_event_ids : List Uuid
  pub source_events_retained : Bool

pub record CoordinationSummary : Type 0 where
  pub total_tasks : ℕ
  pub assignment_candidates : ℕ
  pub assignments : ℕ
  pub agents_with_assignments : ℕ
  pub interventions : ℕ
  pub held_tasks : ℕ
  pub suppressed_by_assignment_limits : ℕ
  pub omitted_interventions : ℕ
  pub omitted_holds : ℕ

pub record CoordinationPlan : Type 0 where
  pub generated_at : DateTime
  pub revision : ℕ
  pub planning_policy : PlanningPolicy
  pub analysis_policy : AnalysisPolicy
  pub summary : CoordinationSummary
  pub assignments : List Assignment
  pub interventions : List Intervention
  pub held_tasks : List HeldTask

-- The greater priority comes first.
unfoldable pub assignment_order : Assignment → Assignment → Ordering
assignment_order left right = then_with (compare right.priority left.priority) (
    then_with (compare_text left.agent_id right.agent_id) (
      then_with (compare_text left.task_id right.task_id)
        (compare_text left.assignment_id right.assignment_id)))

unfoldable pub intervention_order : Intervention → Intervention → Ordering
intervention_order left right = then_with (compare right.priority left.priority) (
    then_with (compare_text left.agent_id right.agent_id) (
      then_with (compare_text left.task_id right.task_id)
        (compare_text left.intervention_id right.intervention_id)))

unfoldable pub hold_order : HeldTask → HeldTask → Ordering
hold_order left right = then_with (compare_text left.agent_id right.agent_id) (
    then_with (compare_text left.task_id right.task_id)
      (compare (hold_rank left.reason) (hold_rank right.reason)))
