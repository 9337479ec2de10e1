-- ===== src/Coordination/Plan.antt =====
-- `plan_from_analysis` of src/coordination.rs: each analysed task becomes an intervention, a
-- candidate for an assignment or a hold, and the limits of the policy are applied.
use meta_agent_control_plane.Prelude.{
  ℕ, ◌-◌, Ordering, String, Bool, true, false, ◌||◌, not, Option, none, some, List, [], ◌∷◌, ◌++◌,
  map, length, string_eq, pair_eq, if◌then◌else◌, concat, join, compare_text, compare_pair,
  sort_with, map_get, map_insert, map_push,
}
use meta_agent_control_plane.Model.{AgentStatus}
use meta_agent_control_plane.Store.State.{AgentState, TaskState, Snapshot}
use meta_agent_control_plane.Store.Ingest.{take}
use meta_agent_control_plane.Metacognition.Data.{Diagnostic, TaskAnalysis, MetacognitionSnapshot}
use meta_agent_control_plane.Metacognition.Lookup.{TaskKey, task_lookup}
use meta_agent_control_plane.Coordination.Data.{
  PlanningPolicy, Assignment, Intervention, HeldTask, HoldReason, CoordinationPlan,
  assignment_order, intervention_order, hold_order,
}
use meta_agent_control_plane.Coordination.Tasks.{
  intervention_for, assignment_action, assignment, hold,
}
use meta_agent_control_plane.Coordination.Select.{select_assignments}

unfoldable pub agent_statuses :
    List AgentState → List (String × AgentStatus) → List (String × AgentStatus)
agent_statuses [] entries = entries
agent_statuses (agent ∷ agents) entries =
    agent_statuses agents (map_insert agent.agent.agent_id agent.status entries)

abbrev pub Diagnosed : Type 0
Diagnosed = List (TaskKey × List Diagnostic)

abbrev pub push_diagnostic : Diagnostic → Option String → Diagnosed → Diagnosed
push_diagnostic d none entries = entries
push_diagnostic d (some task_id) entries = map_push (d.agent_id, task_id) d entries

unfoldable pub index_diagnostics : List Diagnostic → Diagnosed → Diagnosed
index_diagnostics [] entries = entries
index_diagnostics (d ∷ diagnostics) entries =
    index_diagnostics diagnostics (push_diagnostic d d.task_id entries)

abbrev pub diagnostic_order : Diagnostic → Diagnostic → Ordering
diagnostic_order left right = compare_text left.diagnostic_id right.diagnostic_id

-- `diagnostics_by_task`.
unfoldable pub diagnostics_by_task : List Diagnostic → Diagnosed
unfolding index_diagnostics
diagnostics_by_task diagnostics =
    map (λ (e : TaskKey × List Diagnostic). (e.0, sort_with diagnostic_order e.1))
      (index_diagnostics diagnostics [])

-- What the loop reads of the snapshot and of the diagnostics.
pub record Context : Type 0 where
  pub tasks : List (TaskKey × TaskState)
  pub statuses : List (String × AgentStatus)
  pub diagnosed : Diagnosed

unfoldable pub diagnostics_of : Context → TaskAnalysis → List Diagnostic
diagnostics_of context task = elim (map_get (task.agent_id, task.task_id) context.diagnosed) [
  | none ↦ []
  | some diagnostics ↦ diagnostics
]

abbrev pub is_offline : Option AgentStatus → Bool
is_offline (some AgentStatus.offline) = true
is_offline _ = false

-- The agent of the task is known to be offline.
unfoldable pub owner_is_offline : Context → TaskAnalysis → Bool
owner_is_offline context task = is_offline (map_get task.agent_id context.statuses)

abbrev pub is_empty : List String → Bool
is_empty [] = true
is_empty (s ∷ l) = false

unfoldable pub is_waiting : TaskAnalysis → Bool
is_waiting task =
    not (is_empty task.missing_dependencies) || not (is_empty task.unresolved_dependencies)

-- Where the body of the loop puts a task.
pub data Decision : Type 0 where
  intervene : Intervention → Decision
  propose : Assignment → Decision
  withhold : HeldTask → Decision

abbrev pub waiting_explanation : TaskAnalysis → String
waiting_explanation task = concat (
    "The task is waiting on unresolved dependencies: "
    ∷ join ", " (task.unresolved_dependencies ++ task.missing_dependencies)
    ∷ "."
    ∷ [])

-- The body of the loop.
unfoldable pub decide : Context → TaskAnalysis → Decision
decide context task =
    let diagnostics = diagnostics_of context task in
    elim (intervention_for task diagnostics) [
      | some intervention ↦ intervene intervention
      | none ↦
          if owner_is_offline context task
          then withhold (
              hold task HoldReason.agent_offline
                "The owning agent is currently offline, so no executable assignment is emitted."
                diagnostics)
          else if is_waiting task
          then withhold
              (hold task HoldReason.waiting_on_dependencies (waiting_explanation task) diagnostics)
          else elim (assignment_action task diagnostics) [
            | some action ↦ propose (
                assignment task (map_get (task.agent_id, task.task_id) context.tasks) diagnostics
                  action)
            | none ↦ withhold (
                hold task HoldReason.terminal
                  "The task is terminal and has no retained diagnostic requiring follow-up."
                  diagnostics)
          ]
    ]

-- The three vectors that the loop fills.
pub record Decided : Type 0 where
  pub assignment_candidates : List Assignment
  pub interventions : List Intervention
  pub held_tasks : List HeldTask

unfoldable pub add_decision : Decision → Decided → Decided
add_decision (intervene i) decided = record decided { interventions = i ∷ decided.interventions }
add_decision (propose a) decided = record decided {
  assignment_candidates = a ∷ decided.assignment_candidates;
}
add_decision (withhold h) decided = record decided { held_tasks = h ∷ decided.held_tasks }

unfoldable pub decide_all : Context → List TaskAnalysis → Decided
unfolding decide add_decision
decide_all context [] = record { assignment_candidates = []; interventions = []; held_tasks = [] }
decide_all context (task ∷ tasks) = add_decision (decide context task) (decide_all context tasks)

abbrev pub task_order : TaskAnalysis → TaskAnalysis → Ordering
task_order left right = compare_pair (left.agent_id, left.task_id) (right.agent_id, right.task_id)

-- The hold of a candidate that was not selected.
unfoldable pub suppressed_hold : Assignment → HeldTask
suppressed_hold a = record {
  agent_id = a.agent_id;
  task_id = a.task_id;
  goal_id = a.goal_id;
  reason = HoldReason.assignment_limit;
  explanation =
      "A higher-priority fair-share assignment consumed the configured planning capacity.";
  unresolved_dependencies = [];
  diagnostic_ids = a.diagnostic_ids;
  source_event_ids = a.source_event_ids;
  source_events_retained = a.source_events_retained;
}

-- `collect::<BTreeSet<_>>().len()`: each text once.
unfoldable pub distinct_agents : List Assignment → List (String × Unit {0}) → ℕ
distinct_agents [] seen = length seen
distinct_agents (a ∷ assignments) seen = distinct_agents assignments (map_insert a.agent_id tt seen)

unfoldable pub context_of : Snapshot → MetacognitionSnapshot → Context
unfolding task_lookup agent_statuses diagnostics_by_task
context_of snapshot analysis = record {
  tasks = task_lookup snapshot.tasks [];
  statuses = agent_statuses snapshot.agents [];
  diagnosed = diagnostics_by_task analysis.diagnostics;
}

unfoldable pub decided_of : Snapshot → MetacognitionSnapshot → Decided
unfolding context_of decide_all
decided_of snapshot analysis =
    decide_all (context_of snapshot analysis) (sort_with task_order analysis.tasks)

unfoldable pub plan_from_analysis :
    Snapshot → MetacognitionSnapshot → PlanningPolicy → CoordinationPlan
unfolding decided_of suppressed_hold
plan_from_analysis snapshot analysis policy =
    let decided = decided_of snapshot analysis in
    let candidates = sort_with assignment_order decided.assignment_candidates in
    let interventions = sort_with intervention_order decided.interventions in
    let holds = sort_with hold_order decided.held_tasks in
    let chosen =
      select_assignments candidates policy.max_assignments policy.max_assignments_per_agent in
    let held = sort_with hold_order (holds ++ map suppressed_hold chosen.1) in
    let kept_interventions = take policy.max_interventions interventions in
    let kept_holds = take policy.max_holds held in
    record {
      generated_at = analysis.generated_at;
      revision = analysis.revision;
      planning_policy = policy;
      analysis_policy = analysis.policy;
      summary = record {
        total_tasks = length analysis.tasks;
        assignment_candidates = length candidates;
        assignments = length chosen.0;
        agents_with_assignments = distinct_agents chosen.0 [];
        interventions = length kept_interventions;
        held_tasks = length kept_holds;
        suppressed_by_assignment_limits = length chosen.1;
        omitted_interventions = length interventions - policy.max_interventions;
        omitted_holds = length held - policy.max_holds;
      };
      assignments = chosen.0;
      interventions = kept_interventions;
      held_tasks = kept_holds;
    }
