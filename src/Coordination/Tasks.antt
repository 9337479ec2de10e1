-- ===== src/Coordination/Tasks.antt =====
-- What src/coordination.rs makes of one task of the analysis, with the diagnostics of the task: an
-- intervention, an assignment or a hold.
use meta_agent_control_plane.Prelude.{
  ℕ, ◌+◌, ◌*◌, ◌/◌, ◌%◌, ◌^◌, min, max, String, Bool, true, false, ◌||◌, Option, none, some, List,
  [], ◌∷◌, ◌++◌, map, leb, nat_beq, if◌then◌else◌, concat, join, compare, sort_with,
}
use meta_agent_control_plane.Model.Numbers.{Uuid}
use meta_agent_control_plane.Store.State.{TaskState, TaskStatus}
use meta_agent_control_plane.Store.Ingest.{take}
use meta_agent_control_plane.Runtime.Monitor.{or_old, value_or}
use meta_agent_control_plane.Metacognition.Data.{
  Diagnostic, DiagnosticRule, DiagnosticSeverity, TaskAnalysis, same_rule,
}
use meta_agent_control_plane.Coordination.Data.{
  Assignment, AssignmentAction, Intervention, InterventionKind, HeldTask, HoldReason, action_as_str,
  action_priority, kind_as_str, kind_priority,
}

-- `saturating_add` of u32.
unfoldable pub saturating_add_u32 : ℕ → ℕ → ℕ
saturating_add_u32 a b = if leb (a + b) 4294967295 then a + b else 4294967295

-- `saturating_mul` of u32.
unfoldable pub saturating_mul_u32 : ℕ → ℕ → ℕ
saturating_mul_u32 a b = if leb (a * b) 4294967295 then a * b else 4294967295

unfoldable pub has_rule : List Diagnostic → DiagnosticRule → Bool
has_rule [] rule = false
has_rule (d ∷ diagnostics) rule = same_rule d.rule rule || has_rule diagnostics rule

abbrev pub severity_bonus : DiagnosticSeverity → ℕ
severity_bonus DiagnosticSeverity.critical = 80
severity_bonus DiagnosticSeverity.warning = 40
severity_bonus DiagnosticSeverity.info = 10

unfoldable pub max_severity_bonus : List Diagnostic → ℕ
max_severity_bonus [] = 0
max_severity_bonus (d ∷ diagnostics) =
    max (severity_bonus d.severity) (max_severity_bonus diagnostics)

abbrev pub diagnostic_ids : List Diagnostic → List String
diagnostic_ids diagnostics = map (λ (d : Diagnostic). d.diagnostic_id) diagnostics

-- `dedup`: of neighbours that are equal, the first stays.
unfoldable pub dedup : List Uuid → List Uuid
dedup [] = []
dedup (id ∷ ids) = elim (dedup ids) [
  | [] ↦ id ∷ []
  | next ∷ rest ↦ if nat_beq id next then id ∷ rest else id ∷ next ∷ rest
]

abbrev pub flat_source_ids : List Diagnostic → List Uuid
flat_source_ids [] = []
flat_source_ids (d ∷ diagnostics) = d.source_event_ids ++ flat_source_ids diagnostics

unfoldable pub source_event_ids : TaskAnalysis → List Diagnostic → List Uuid
unfolding dedup
source_event_ids task diagnostics =
    take 16 (dedup (sort_with compare (task.source_event_ids ++ flat_source_ids diagnostics)))

unfoldable pub diagnostic_rationale : List Diagnostic → String
diagnostic_rationale [] = "No retained diagnostic was attached."
diagnostic_rationale (d ∷ diagnostics) =
    join " " (map (λ (e : Diagnostic). e.summary) (take 3 (d ∷ diagnostics)))

-- `find_map`: the first that is there.
unfoldable pub recommended_action : List Diagnostic → Option String
recommended_action [] = none
recommended_action (d ∷ diagnostics) = or_old d.recommended_action (recommended_action diagnostics)

abbrev pub critical_bonus : TaskAnalysis → ℕ
critical_bonus task = if task.on_critical_path then 100 else 0

-- The identifiers `"{}:{}:{}"`.
unfoldable pub plan_id : String → TaskAnalysis → String
plan_id kind task = concat (kind ∷ ":" ∷ task.agent_id ∷ ":" ∷ task.task_id ∷ [])

unfoldable pub intervention_kind : List Diagnostic → Option InterventionKind
intervention_kind diagnostics =
    if has_rule diagnostics DiagnosticRule.completion_mismatch
    then some InterventionKind.reconcile_completion
    else if has_rule diagnostics DiagnosticRule.dependency_cycle
        || has_rule diagnostics DiagnosticRule.orphan_dependency
    then some InterventionKind.repair_dependency_graph
    else if has_rule diagnostics DiagnosticRule.orphan_goal
    then some InterventionKind.declare_missing_goal
    else none

abbrev pub intervention_advice : InterventionKind → String
intervention_advice InterventionKind.repair_dependency_graph =
    "Repair the dependency graph before dispatching this task."
intervention_advice InterventionKind.declare_missing_goal =
    "Declare the referenced goal or explicitly reassign the task."
intervention_advice InterventionKind.reconcile_completion =
    "Replay the visible lifecycle events and publish one consistent terminal state."

unfoldable pub intervention_of : TaskAnalysis → List Diagnostic → InterventionKind → Intervention
intervention_of task diagnostics kind = record {
  intervention_id = plan_id (kind_as_str kind) task;
  agent_id = task.agent_id;
  task_id = task.task_id;
  goal_id = task.goal_id;
  kind = kind;
  priority =
      saturating_add_u32 (saturating_add_u32 (kind_priority kind) (critical_bonus task))
        (max_severity_bonus diagnostics);
  rationale = diagnostic_rationale diagnostics;
  recommended_action = value_or (recommended_action diagnostics) (intervention_advice kind);
  diagnostic_ids = diagnostic_ids diagnostics;
  source_event_ids = source_event_ids task diagnostics;
  source_events_retained = task.source_events_retained;
}

unfoldable pub intervention_for : TaskAnalysis → List Diagnostic → Option Intervention
unfolding intervention_of
intervention_for task diagnostics = elim (intervention_kind diagnostics) [
  | none ↦ none
  | some kind ↦ some (intervention_of task diagnostics kind)
]

abbrev pub is_blocked : TaskStatus → Bool
is_blocked TaskStatus.blocked = true
is_blocked _ = false

-- The last `match` of `assignment_action`.
abbrev pub status_action : TaskStatus → Option AssignmentAction
status_action TaskStatus.pending = some AssignmentAction.start_task
status_action TaskStatus.running = some AssignmentAction.continue_task
status_action TaskStatus.blocked = some AssignmentAction.resolve_blocker
status_action _ = none

unfoldable pub assignment_action : TaskAnalysis → List Diagnostic → Option AssignmentAction
assignment_action task diagnostics =
    if has_rule diagnostics DiagnosticRule.retry_loop
    then some AssignmentAction.change_strategy
    else if has_rule diagnostics DiagnosticRule.stalled_task
    then some AssignmentAction.request_checkpoint
    else if is_blocked task.status
    then some AssignmentAction.resolve_blocker
    else if has_rule diagnostics DiagnosticRule.low_confidence
        || has_rule diagnostics DiagnosticRule.missing_evidence
    then some AssignmentAction.gather_evidence
    else if has_rule diagnostics DiagnosticRule.missing_next_action
    then some AssignmentAction.define_next_action
    else status_action task.status

abbrev pub default_action : AssignmentAction → String
default_action AssignmentAction.start_task =
    "Start the task and publish an observable plan summary."
default_action AssignmentAction.continue_task =
    "Execute the next observable step and publish progress with evidence."
default_action AssignmentAction.resolve_blocker =
    "Test the blocker, record the result, and either clear it or revise the plan."
default_action AssignmentAction.request_checkpoint =
    "Publish a checkpoint with current state, blocker, evidence, and one next action."
default_action AssignmentAction.change_strategy =
    "Change a causal variable before another attempt and record the comparison."
default_action AssignmentAction.gather_evidence =
    "Attach a test, artifact, measurement, or independent evidence reference."
default_action AssignmentAction.define_next_action =
    "Record one concrete, observable, and testable next action."

-- The rationale of an assignment without diagnostics.
abbrev pub calm_rationale : AssignmentAction → String
calm_rationale AssignmentAction.start_task =
    "The task is pending and all retained dependencies are complete."
calm_rationale AssignmentAction.continue_task =
    "The task is active, dependency-safe, and has no higher-severity retained diagnostic."
calm_rationale _ = "The retained task state requires an explicit next step."

abbrev pub assignment_rationale : List Diagnostic → AssignmentAction → String
assignment_rationale [] action = calm_rationale action
assignment_rationale (d ∷ diagnostics) action = diagnostic_rationale (d ∷ diagnostics)

abbrev pub next_action_of : Option TaskState → Option String
next_action_of none = none
next_action_of (some state) = state.next_action

-- `as u32` keeps the low 32 bits of the seconds.
unfoldable pub assignment_priority : TaskAnalysis → List Diagnostic → AssignmentAction → ℕ
unfolding saturating_add_u32 saturating_mul_u32
assignment_priority task diagnostics action =
    saturating_add_u32
      (saturating_add_u32
        (saturating_add_u32 (saturating_add_u32 (action_priority action) (critical_bonus task))
          (max_severity_bonus diagnostics))
        (saturating_mul_u32 (min task.attempt 10) 5))
      (min (task.stale_for_seconds % 2 ^ 32 / 60) 100)

unfoldable pub assignment :
    TaskAnalysis → Option TaskState → List Diagnostic → AssignmentAction → Assignment
unfolding plan_id diagnostic_rationale recommended_action source_event_ids assignment_priority
assignment task task_state diagnostics action = record {
  assignment_id = plan_id (action_as_str action) task;
  agent_id = task.agent_id;
  task_id = task.task_id;
  goal_id = task.goal_id;
  action = action;
  priority = assignment_priority task diagnostics action;
  rationale = assignment_rationale diagnostics action;
  recommended_action =
      value_or (or_old (next_action_of task_state) (recommended_action diagnostics))
        (default_action action);
  on_critical_path = task.on_critical_path;
  diagnostic_ids = diagnostic_ids diagnostics;
  source_event_ids = source_event_ids task diagnostics;
  source_events_retained = task.source_events_retained;
}

unfoldable pub hold : TaskAnalysis → HoldReason → String → List Diagnostic → HeldTask
unfolding source_event_ids
hold task reason explanation diagnostics = record {
  agent_id = task.agent_id;
  task_id = task.task_id;
  goal_id = task.goal_id;
  reason = reason;
  explanation = explanation;
  unresolved_dependencies = task.unresolved_dependencies ++ task.missing_dependencies;
  diagnostic_ids = diagnostic_ids diagnostics;
  source_event_ids = source_event_ids task diagnostics;
  source_events_retained = task.source_events_retained;
}
