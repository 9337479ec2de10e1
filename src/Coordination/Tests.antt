-- ===== src/Coordination/Tests.antt =====
-- Plans of src/coordination.rs on a sample analysis, and the theorems at it.
use meta_agent_control_plane.Prelude.{
  ℕ, ◌≡◌, refl, String, false, none, some, List, [], ◌∷◌, map, pos, insert_sorted, sort_by, map_get,
  map_insert, map_push, concat, join, All,
}
use meta_agent_control_plane.Model.{AgentStatus}
use meta_agent_control_plane.Lru.Sample.{recency_lru}
use meta_agent_control_plane.Store.State.{AgentState, TaskStatus, Snapshot}
use meta_agent_control_plane.Store.Sample.{agent_ref, start}
use meta_agent_control_plane.Store.Ingest
use meta_agent_control_plane.Metacognition.Data.{
  Diagnostic, DiagnosticRule, DiagnosticSeverity, TaskAnalysis, MetacognitionSnapshot,
}
use meta_agent_control_plane.Metacognition.Lookup.{task_lookup}
use meta_agent_control_plane.Metacognition.Outside.{default_analysis_policy}
use meta_agent_control_plane.Metacognition.Sample.{outside, chain_snapshot}
use meta_agent_control_plane.Coordination.Build.{build_plan_with_policy}
use meta_agent_control_plane.Coordination.Done.{IsSound, build_plan-IsSound}
use meta_agent_control_plane.Coordination.Data
use meta_agent_control_plane.Coordination.Data.{
  PlanningPolicy, Assignment, AssignmentAction, HoldReason, HeldTask, default_planning_policy,
}
use meta_agent_control_plane.Coordination.Tasks
use meta_agent_control_plane.Coordination.Select
use meta_agent_control_plane.Coordination.Select.{select_assignments}
use meta_agent_control_plane.Coordination.Chosen.{IsFair, select_assignments-IsFair}
use meta_agent_control_plane.Coordination.Plan
use meta_agent_control_plane.Coordination.Plan.{plan_from_analysis}
use meta_agent_control_plane.Coordination.Accounts.{Accounts, plan-Accounts}
use meta_agent_control_plane.Coordination.Ready.{AreDistinct, IsAssignable, plan_assigns_ready}

abbrev agent : String → AgentStatus → AgentState
agent id status = record {
  agent = agent_ref id;
  display_name = id;
  capabilities = [];
  metadata = [];
  status = status;
  session_id = none;
  current_goal_id = none;
  active_task_id = none;
  registered_at = 1;
  last_seen_at = 1;
  completed_tasks = 0;
  failed_tasks = 0;
  latest_reflection = none;
  latest_error = none;
}

abbrev task : String → String → TaskStatus → List String → TaskAnalysis
task agent_id task_id status unresolved = record {
  agent_id = agent_id;
  task_id = task_id;
  goal_id = none;
  status = status;
  self_reported_progress = 0;
  evidence_backed_progress = 0;
  confidence = none;
  evidence_count = 0;
  attempt = 1;
  stale_for_seconds = 120;
  blocker_age_seconds = none;
  unresolved_dependencies = unresolved;
  missing_dependencies = [];
  on_critical_path = false;
  diagnostic_ids = [];
  source_event_ids = [];
  source_events_retained = false;
}

abbrev cycle : Diagnostic
cycle = record {
  diagnostic_id = "dependency_cycle:agent-a:t3";
  rule = DiagnosticRule.dependency_cycle;
  severity = DiagnosticSeverity.critical;
  agent_id = "agent-a";
  goal_id = none;
  task_id = some "t3";
  summary = "Task t3 participates in a dependency cycle";
  explanation = "";
  recommended_action = none;
  source_event_ids = [];
  source_events_retained = false;
}

abbrev snapshot : Snapshot
snapshot = record (Ingest.snapshot recency_lru start 9) {
  agents = agent "agent-a" AgentStatus.running ∷ agent "agent-b" AgentStatus.offline ∷ [];
}

abbrev analysis : MetacognitionSnapshot
analysis = record {
  generated_at = 9;
  revision = 3;
  policy = record {
    stale_after_seconds = pos 900;
    retry_loop_attempts = 3;
    low_confidence_threshold = 0;
  };
  summary = record {
    total_goals = 0;
    total_tasks = 5;
    active_tasks = 5;
    blocked_tasks = 0;
    stalled_tasks = 0;
    retry_loops = 0;
    critical_diagnostics = 1;
    warning_diagnostics = 0;
    info_diagnostics = 0;
    self_reported_progress = 0;
    evidence_backed_progress = 0;
    evidence_coverage = 0;
  };
  goals = [];
  tasks =
      task "agent-a" "t1" TaskStatus.running []
      ∷ task "agent-a" "t2" TaskStatus.pending []
      ∷ task "agent-a" "t3" TaskStatus.pending []
      ∷ task "agent-a" "t4" TaskStatus.pending ("t1" ∷ [])
      ∷ task "agent-b" "t1" TaskStatus.running []
      ∷ [];
  diagnostics = cycle ∷ [];
}

abbrev narrow : PlanningPolicy
narrow = record default_planning_policy { max_assignments_per_agent = 1 }

program : Unit {0}
unfolding Data.validate_policy Data.assignment_order Data.intervention_order Data.hold_order
    Tasks.saturating_add_u32 Tasks.saturating_mul_u32 Tasks.has_rule Tasks.max_severity_bonus
    Tasks.dedup Tasks.source_event_ids Tasks.diagnostic_rationale Tasks.recommended_action
    Tasks.plan_id Tasks.intervention_kind Tasks.intervention_of Tasks.intervention_for
    Tasks.assignment_action Tasks.assignment_priority Tasks.assignment Tasks.hold Select.group
    Select.agent_order Select.count_of Select.pop_front Select.serve_from Select.serve_agent
    Select.serve_round Select.serve_rounds Select.suppressed Select.selection
    Select.select_assignments task_lookup Plan.agent_statuses Plan.index_diagnostics
    Plan.diagnostics_by_task Plan.diagnostics_of Plan.owner_is_offline Plan.is_waiting Plan.decide
    Plan.add_decision Plan.decide_all Plan.suppressed_hold Plan.distinct_agents Plan.context_of
    Plan.decided_of plan_from_analysis insert_sorted sort_by map_get map_insert map_push concat join
    Ingest.take
program = tt

-- A pending task goes before a running one; the agent may have one assignment.
assigned :
    map {B = String × AssignmentAction × ℕ}
      (λ (a : Assignment). (a.task_id, a.action, a.priority))
      (plan_from_analysis snapshot analysis narrow).assignments
    ≡ ("t2", AssignmentAction.start_task, 607) ∷ []
unfolding program
assigned = refl

held :
    map {B = String × String × HoldReason}
      (λ (h : HeldTask). (h.agent_id, h.task_id, h.reason))
      (plan_from_analysis snapshot analysis narrow).held_tasks
    ≡ ("agent-a", "t1", HoldReason.assignment_limit)
      ∷ ("agent-a", "t4", HoldReason.waiting_on_dependencies)
      ∷ ("agent-b", "t1", HoldReason.agent_offline)
      ∷ []
unfolding program
held = refl

abbrev candidates : List Assignment
candidates =
    Tasks.assignment (task "agent-a" "t1" TaskStatus.running []) none []
      AssignmentAction.continue_task
    ∷ Tasks.assignment (task "agent-a" "t2" TaskStatus.pending []) none []
        AssignmentAction.start_task
    ∷ []

select_assignments-IsFair_example :
    IsFair candidates 16 1
      (select_assignments candidates 16 1).0
      (select_assignments candidates 16 1).1
select_assignments-IsFair_example = select_assignments-IsFair candidates 16 1

plan-Accounts_example : Accounts narrow analysis (plan_from_analysis snapshot analysis narrow)
plan-Accounts_example = plan-Accounts snapshot analysis narrow

two_agents : AreDistinct snapshot.agents
two_agents = ((refl, tt), (tt, tt))

plan_assigns_ready_example :
    All (IsAssignable snapshot analysis) (plan_from_analysis snapshot analysis narrow).assignments
plan_assigns_ready_example = plan_assigns_ready snapshot analysis narrow two_agents

abbrev agents : List AgentState
agents = agent "agent-a" AgentStatus.running ∷ agent "agent-b" AgentStatus.offline ∷ []

distinct_agents : AreDistinct (chain_snapshot agents).agents
distinct_agents = ((refl, tt), (tt, tt))

build_plan-IsSound_example :
    IsSound
      (chain_snapshot agents)
      narrow
      (build_plan_with_policy outside (chain_snapshot agents) default_analysis_policy narrow)
build_plan-IsSound_example =
    build_plan-IsSound outside (chain_snapshot agents) default_analysis_policy narrow
      distinct_agents
