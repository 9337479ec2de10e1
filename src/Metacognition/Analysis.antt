-- ===== src/Metacognition/Analysis.antt =====
-- `analyze_with_policy` of src/metacognition/analysis.rs.
use meta_agent_control_plane.Prelude.{
  ℕ, Ordering, String, Bool, true, false, not, ◌&&◌, ltb, nat_beq, Option, none, some, is_some,
  List, [], ◌∷◌, ◌++◌, map, length, filter, count, ◌==◌, string_eq, pair_eq, if◌then◌else◌,
  compare_text, compare_pair, sort_with, map_get,
}
use meta_agent_control_plane.Model.{Reflection}
use meta_agent_control_plane.Model.Numbers.{DateTime, F32, f32_zero}
use meta_agent_control_plane.Store.State.{GoalState, TaskState, Snapshot}
use meta_agent_control_plane.Runtime.Monitor.{saturating_add}
use meta_agent_control_plane.Metacognition.Data.{
  AnalysisPolicy, Diagnostic, DiagnosticRule, DiagnosticSeverity, TaskAnalysis, GoalAnalysis,
  MetacognitionSummary, MetacognitionSnapshot, same_rule, same_severity,
}
use meta_agent_control_plane.Metacognition.Lookup.{
  TaskKey, TaskLookup, key_of, task_lookup, dependency_state,
}
use meta_agent_control_plane.Metacognition.Cycles.{contains_key, dependency_cycle_members}
use meta_agent_control_plane.Metacognition.Depth.{
  Depths, CriticalPaths, remaining_depths, critical_paths,
}
use meta_agent_control_plane.Metacognition.Outside.{
  Outside, default_analysis_policy, is_at_least, normalized, age_seconds, ratio, mean,
}
use meta_agent_control_plane.Metacognition.Findings.{findings, diagnostic, severity_order}
use meta_agent_control_plane.Metacognition.Facts.{
  Facts, is_active, is_terminal, has_blocked, is_nothing, is_retained,
}
use meta_agent_control_plane.Metacognition.Events.{TaskEvents, index_task_events, source_event_ids}

abbrev pub evidence_in : Option Reflection → ℕ
evidence_in none = 0
evidence_in (some reflection) = length reflection.evidence

abbrev pub confidence_in : Option Reflection → Option F32
confidence_in none = none
confidence_in (some reflection) = some reflection.confidence

abbrev pub blocked_for : Option String → ℕ → Option ℕ
blocked_for none age = none
blocked_for (some blocker) age = some age

-- What the loop over the tasks reads.
pub record Scope : Type 0 where
  pub generated_at : DateTime
  pub lookup : TaskLookup
  pub goals : List (String × String)
  pub events : TaskEvents
  pub cycle_members : List TaskKey
  pub critical_tasks : List TaskKey

abbrev pub goal_is_known : Scope → TaskState → Bool
goal_is_known scope task = elim task.task.goal_id [
  | none ↦ false
  | some goal_id ↦ contains_key (task.agent_id, goal_id) scope.goals
]

abbrev pub goal_key : GoalState → String × String
goal_key goal = (goal.agent_id, goal.goal.goal_id)

abbrev pub state_order : TaskState → TaskState → Ordering
state_order left right = compare_pair (key_of left) (key_of right)

abbrev pub goal_order : GoalState → GoalState → Ordering
goal_order left right = compare_pair (goal_key left) (goal_key right)

-- `goal_id.as_deref() == Some(..)`.
abbrev pub is_goal : String → Option String → Bool
is_goal goal_id none = false
is_goal goal_id (some id) = id == goal_id

-- The depths are always found, so the empty map does not arise.
abbrev pub or_no_depths : Option Depths → Depths
or_no_depths none = []
or_no_depths (some depths) = depths

abbrev pub flat_remaining : Option (Option ℕ) → Option ℕ
flat_remaining none = none
flat_remaining (some remaining) = remaining

abbrev pub push_if : Bool → String → List String → List String
push_if true text rest = text ∷ rest
push_if false text rest = rest

-- Whether an active task is as old as the policy allows.
abbrev pub is_stalled : AnalysisPolicy → TaskAnalysis → Bool
is_stalled policy t =
    is_at_least t.stale_for_seconds policy.stale_after_seconds && is_active t.status

module _ (outside : Outside) (policy : AnalysisPolicy) where
  unfoldable pub facts_of : Scope → TaskState → Facts
  unfolding age_seconds source_event_ids
  facts_of scope task = record {
    source_event_ids = source_event_ids (map_get (key_of task) scope.events);
    stale_for_seconds = age_seconds outside scope.generated_at task.updated_at;
    evidence_count = saturating_add (evidence_in task.latest_reflection) (length task.artifacts);
    confidence = confidence_in task.latest_reflection;
    dependencies = dependency_state task scope.lookup;
    on_cycle = contains_key (key_of task) scope.cycle_members;
    goal_is_known = goal_is_known scope task;
  }

  -- The diagnostics that the loop adds for a task.
  unfoldable pub diagnostics_for : Scope → TaskState → List Diagnostic
  diagnostics_for scope task =
      let facts = facts_of scope task in
      map (diagnostic outside policy task facts) (findings outside policy task facts)

  unfoldable pub task_analysis : Scope → TaskState → TaskAnalysis
  unfolding diagnostics_for
  task_analysis scope task =
      let facts = facts_of scope task in
      record {
        agent_id = task.agent_id;
        task_id = task.task.task_id;
        goal_id = task.task.goal_id;
        status = task.status;
        self_reported_progress = task.progress;
        evidence_backed_progress = if ltb 0 facts.evidence_count then task.progress else f32_zero;
        confidence = facts.confidence;
        evidence_count = facts.evidence_count;
        attempt = task.attempt;
        stale_for_seconds = facts.stale_for_seconds;
        blocker_age_seconds = blocked_for task.blocker facts.stale_for_seconds;
        unresolved_dependencies = facts.dependencies.unresolved;
        missing_dependencies = facts.dependencies.missing;
        on_critical_path = contains_key (key_of task) scope.critical_tasks;
        diagnostic_ids =
            sort_with compare_text
              (map (λ (d : Diagnostic). d.diagnostic_id) (diagnostics_for scope task));
        source_event_ids = facts.source_event_ids;
        source_events_retained = is_retained facts.source_event_ids;
      }

  unfoldable pub all_diagnostics : Scope → List TaskState → List Diagnostic
  unfolding diagnostics_for
  all_diagnostics scope [] = []
  all_diagnostics scope (task ∷ tasks) = diagnostics_for scope task ++ all_diagnostics scope tasks

  abbrev pub has_evidence : TaskAnalysis → Bool
  has_evidence t = ltb 0 t.evidence_count

  unfoldable pub goal_warnings : ℕ → Option ℕ → List TaskAnalysis → List String
  goal_warnings total remaining tasks =
      push_if (nat_beq total 0)
        "No retained tasks are mapped to this goal, so progress is indeterminate."
        (push_if (not (is_some remaining) && ltb 0 total)
          "Critical-path progress is unavailable because the task graph contains a cycle."
          (push_if
            (ltb 0 (count (λ (t : TaskAnalysis). not (is_nothing t.missing_dependencies)) tasks))
            "At least one task references a dependency that is not retained." []))

  -- The body of the loop over the goals.
  unfoldable pub goal_analysis :
      List TaskAnalysis → List Diagnostic → CriticalPaths → GoalState → GoalAnalysis
  unfolding goal_warnings
  goal_analysis task_analyses diagnostics paths goal =
      let goal_tasks =
        filter
          (λ (t : TaskAnalysis). t.agent_id == goal.agent_id && is_goal goal.goal.goal_id t.goal_id)
          task_analyses in
      let remaining = flat_remaining (map_get (goal_key goal) paths.remaining) in
      record {
        agent_id = goal.agent_id;
        goal_id = goal.goal.goal_id;
        title = goal.goal.title;
        success_criteria_count = length goal.goal.success_criteria;
        total_tasks = length goal_tasks;
        active_tasks = count (λ (t : TaskAnalysis). is_active t.status) goal_tasks;
        blocked_tasks = count (λ (t : TaskAnalysis). has_blocked t.status) goal_tasks;
        completed_tasks = count (λ (t : TaskAnalysis). is_terminal t.status) goal_tasks;
        stalled_tasks = count (is_stalled policy) goal_tasks;
        self_reported_progress =
            mean outside (map (λ (t : TaskAnalysis). t.self_reported_progress) goal_tasks);
        evidence_backed_progress =
            mean outside (map (λ (t : TaskAnalysis). t.evidence_backed_progress) goal_tasks);
        evidence_coverage = ratio outside (count has_evidence goal_tasks) (length goal_tasks);
        critical_path_remaining = remaining;
        critical_path_task_ids = sort_with compare_text (
            map (λ (t : TaskAnalysis). t.task_id)
              (filter (λ (t : TaskAnalysis). t.on_critical_path) goal_tasks));
        diagnostic_ids = sort_with compare_text (
            map (λ (d : Diagnostic). d.diagnostic_id)
              (filter
                (λ (d : Diagnostic).
                  d.agent_id == goal.agent_id && is_goal goal.goal.goal_id d.goal_id)
                diagnostics));
        data_quality_warnings = goal_warnings (length goal_tasks) remaining goal_tasks;
      }

  unfoldable pub summary_of :
      List GoalAnalysis → List TaskAnalysis → List Diagnostic → MetacognitionSummary
  summary_of goals tasks diagnostics = record {
    total_goals = length goals;
    total_tasks = length tasks;
    active_tasks = count (λ (t : TaskAnalysis). is_active t.status) tasks;
    blocked_tasks = count (λ (t : TaskAnalysis). has_blocked t.status) tasks;
    stalled_tasks =
        count (λ (d : Diagnostic). same_rule d.rule DiagnosticRule.stalled_task) diagnostics;
    retry_loops =
        count (λ (d : Diagnostic). same_rule d.rule DiagnosticRule.retry_loop) diagnostics;
    critical_diagnostics =
        count (λ (d : Diagnostic). same_severity d.severity DiagnosticSeverity.critical)
          diagnostics;
    warning_diagnostics =
        count (λ (d : Diagnostic). same_severity d.severity DiagnosticSeverity.warning) diagnostics;
    info_diagnostics =
        count (λ (d : Diagnostic). same_severity d.severity DiagnosticSeverity.info) diagnostics;
    self_reported_progress =
        mean outside (map (λ (t : TaskAnalysis). t.self_reported_progress) tasks);
    evidence_backed_progress =
        mean outside (map (λ (t : TaskAnalysis). t.evidence_backed_progress) tasks);
    evidence_coverage = ratio outside (count has_evidence tasks) (length tasks);
  }

  abbrev pub paths_of : Snapshot → CriticalPaths
  paths_of snapshot =
      let lookup = task_lookup snapshot.tasks [] in
      let cycle_members = dependency_cycle_members lookup in
      critical_paths snapshot.tasks cycle_members
        (or_no_depths (remaining_depths lookup cycle_members))

  unfoldable pub scope_of : Snapshot → Scope
  scope_of snapshot = record {
    generated_at = snapshot.generated_at;
    lookup = task_lookup snapshot.tasks [];
    goals = map goal_key snapshot.goals;
    events = index_task_events snapshot.recent_events;
    cycle_members = dependency_cycle_members (task_lookup snapshot.tasks []);
    critical_tasks = (paths_of snapshot).critical_tasks;
  }

  -- `analyze_with_policy`, under the normalized policy.
  unfoldable pub analyze_normalized : Snapshot → MetacognitionSnapshot
  unfolding task_analysis all_diagnostics goal_analysis summary_of
  analyze_normalized snapshot =
      let scope = scope_of snapshot in
      let states = sort_with state_order snapshot.tasks in
      let tasks = map (task_analysis scope) states in
      let diagnostics = sort_with severity_order (all_diagnostics scope states) in
      let goals =
        map (goal_analysis tasks diagnostics (paths_of snapshot))
          (sort_with goal_order snapshot.goals) in
      record {
        generated_at = snapshot.generated_at;
        revision = snapshot.revision;
        policy = policy;
        summary = summary_of goals tasks diagnostics;
        goals = goals;
        tasks = tasks;
        diagnostics = diagnostics;
      }

unfoldable pub analyze_with_policy : Outside → Snapshot → AnalysisPolicy → MetacognitionSnapshot
unfolding analyze_normalized
analyze_with_policy outside snapshot policy =
    analyze_normalized outside (normalized outside policy) snapshot

unfoldable pub analyze : Outside → Snapshot → MetacognitionSnapshot
unfolding analyze_with_policy
analyze outside snapshot = analyze_with_policy outside snapshot default_analysis_policy
