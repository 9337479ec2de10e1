-- ===== src/Metacognition/Sums.antt =====
-- The summary of src/metacognition/analysis.rs, against the tasks and the diagnostics.
use meta_agent_control_plane.Prelude.{
  ◌+◌, ◌≡◌, refl, ◌∙◌, String, Bool, true, false, not, ◌&&◌, Option, none, some, List, [], ◌∷◌, map,
  length, arith, Bool-cases, inl, inr, leb, count, one_if, count-append, count-sort_by, sort_with,
  length-sort_with,
}
use meta_agent_control_plane.Model.Numbers.{F32}
use meta_agent_control_plane.Store.State.{TaskState, Snapshot}
use meta_agent_control_plane.Metacognition.Data.{
  AnalysisPolicy, Diagnostic, DiagnosticRule, DiagnosticSeverity, TaskAnalysis,
  MetacognitionSnapshot, same_rule, same_severity,
}
use meta_agent_control_plane.Metacognition.Outside.{Outside, normalized}
use meta_agent_control_plane.Metacognition.Findings.{
  raise_goal, raise_confidence, findings, is_stale, stalled_task, retry_loop, blocked_dependency,
  orphan_dependency, dependency_cycle, orphan_goal, missing_evidence, low_confidence,
  missing_next_action, completion_mismatch, diagnostic,
}
use meta_agent_control_plane.Metacognition.Facts.{Facts, Finding, raise, is_active, has_closed}
use meta_agent_control_plane.Metacognition.Analysis.{
  Scope, facts_of, diagnostics_for, task_analysis, all_diagnostics, is_stalled, scope_of,
  analyze_normalized, analyze_with_policy, state_order, goal_order, summary_of,
}

count-raise :
    (test : Finding → Bool) (b : Bool) (f : Finding) (rest : List Finding)
    → count test (raise b f rest) ≡ one_if (test f && b) + count test rest
count-raise test true f rest = elim (Bool-cases (test f)) [
  | inl pass ↦ rw pass refl
  | inr fail ↦ rw fail refl
]
count-raise test false f rest = elim (Bool-cases (test f)) [
  | inl pass ↦ rw pass (omega arith)
  | inr fail ↦ rw fail (omega arith)
]

count-map :
    {A B : Type 0} (test : B → Bool) (f : A → B) (l : List A)
    → count test (map f l) ≡ count (λ (x : A). test (f x)) l
count-map test f [] = refl
count-map test f (x ∷ l) = omega (arith, count-map test f l)

length-map : {A B : Type 0} (f : A → B) (l : List A) → length (map f l) ≡ length l
length-map f [] = refl
length-map f (x ∷ l) = omega (arith, length-map f l)

one_if-swap : (a b : Bool) → one_if (a && b) ≡ one_if (b && a)
one_if-swap true true = refl
one_if-swap true false = refl
one_if-swap false true = refl
one_if-swap false false = refl

module _ (outside : Outside) (policy : AnalysisPolicy) (task : TaskState) (facts : Facts) where
  -- No finding under an `if let` is one that is counted.
  count-raise_goal :
      (test : Finding → Bool) (goal_id : Option String) (rest : List Finding)
      → ((id : String) → test (orphan_goal outside policy task facts id) ≡ false)
      → count test (raise_goal outside policy task facts goal_id rest) ≡ count test rest
  count-raise_goal test none rest other = refl
  count-raise_goal test (some id) rest other =
      count-raise test _ _ rest ∙ rw (other id) (omega arith)

  count-raise_confidence :
      (test : Finding → Bool) (confidence : Option F32) (rest : List Finding)
      → ((c : F32) → test (low_confidence outside policy task facts c) ≡ false)
      → count test (raise_confidence outside policy task facts confidence rest) ≡ count test rest
  count-raise_confidence test none rest other = refl
  count-raise_confidence test (some c) rest other =
      count-raise test _ _ rest ∙ rw (other c) (omega arith)

  -- A task is diagnosed as stalled at most once, when it is.
  stalled_found :
      count
        (λ (f : Finding). same_rule f.rule DiagnosticRule.stalled_task)
        (findings outside policy task facts)
      ≡ one_if (is_active task.status && is_stale outside policy task facts)
  unfolding findings stalled_task retry_loop blocked_dependency orphan_dependency dependency_cycle
      orphan_goal missing_evidence low_confidence missing_next_action completion_mismatch
  stalled_found =
      let test = λ (f : Finding). same_rule f.rule DiagnosticRule.stalled_task in
      simp
        (
          count-raise test,
          λ (o : Option String) (l : List Finding). count-raise_goal test o l (λ id. refl),
          λ (o : Option F32) (l : List Finding). count-raise_confidence test o l (λ c. refl),
        )
        (omega arith)

  retries_found :
      count
        (λ (f : Finding). same_rule f.rule DiagnosticRule.retry_loop)
        (findings outside policy task facts)
      ≡ one_if (leb policy.retry_loop_attempts task.attempt && not (has_closed task.status))
  unfolding findings stalled_task retry_loop blocked_dependency orphan_dependency dependency_cycle
      orphan_goal missing_evidence low_confidence missing_next_action completion_mismatch
  retries_found =
      let test = λ (f : Finding). same_rule f.rule DiagnosticRule.retry_loop in
      simp
        (
          count-raise test,
          λ (o : Option String) (l : List Finding). count-raise_goal test o l (λ id. refl),
          λ (o : Option F32) (l : List Finding). count-raise_confidence test o l (λ c. refl),
        )
        (omega arith)

-- The task is at the threshold of attempts, and neither succeeded nor canceled.
abbrev pub is_retrying : AnalysisPolicy → TaskAnalysis → Bool
is_retrying policy t = leb policy.retry_loop_attempts t.attempt && not (has_closed t.status)

module _ (outside : Outside) (policy : AnalysisPolicy) (scope : Scope) where
  stalled_counted :
      (tasks : List TaskState)
      → count
          (λ (d : Diagnostic). same_rule d.rule DiagnosticRule.stalled_task)
          (all_diagnostics outside policy scope tasks)
        ≡ count (is_stalled policy) (map (task_analysis outside policy scope) tasks)
  unfolding all_diagnostics diagnostics_for task_analysis diagnostic
  stalled_counted [] = refl
  stalled_counted (task ∷ tasks) =
      let test = λ (d : Diagnostic). same_rule d.rule DiagnosticRule.stalled_task in
      let facts = facts_of outside policy scope task in
      omega (
        arith,
        count-append test (diagnostics_for outside policy scope task)
            (all_diagnostics outside policy scope tasks),
        count-map test (diagnostic outside policy task facts) (findings outside policy task facts),
        stalled_found outside policy task facts,
        one_if-swap (is_active task.status) (is_stale outside policy task facts),
        stalled_counted tasks,
      )

  retries_counted :
      (tasks : List TaskState)
      → count
          (λ (d : Diagnostic). same_rule d.rule DiagnosticRule.retry_loop)
          (all_diagnostics outside policy scope tasks)
        ≡ count (is_retrying policy) (map (task_analysis outside policy scope) tasks)
  unfolding all_diagnostics diagnostics_for task_analysis diagnostic
  retries_counted [] = refl
  retries_counted (task ∷ tasks) =
      let test = λ (d : Diagnostic). same_rule d.rule DiagnosticRule.retry_loop in
      let facts = facts_of outside policy scope task in
      omega (
        arith,
        count-append test (diagnostics_for outside policy scope task)
            (all_diagnostics outside policy scope tasks),
        count-map test (diagnostic outside policy task facts) (findings outside policy task facts),
        retries_found outside policy task facts,
        retries_counted tasks,
      )

one_severity :
    (s : DiagnosticSeverity)
    → one_if (same_severity s DiagnosticSeverity.critical)
        + one_if (same_severity s DiagnosticSeverity.warning)
        + one_if (same_severity s DiagnosticSeverity.info)
      ≡ 1
one_severity DiagnosticSeverity.info = refl
one_severity DiagnosticSeverity.warning = refl
one_severity DiagnosticSeverity.critical = refl

severities :
    (l : List Diagnostic)
    → count (λ (d : Diagnostic). same_severity d.severity DiagnosticSeverity.critical) l
        + count (λ (d : Diagnostic). same_severity d.severity DiagnosticSeverity.warning) l
        + count (λ (d : Diagnostic). same_severity d.severity DiagnosticSeverity.info) l
      ≡ length l
severities [] = refl
severities (d ∷ l) = omega (arith, one_severity d.severity, severities l)

-- What the summary says, under the normalized policy.
pub record AddsUp (policy : AnalysisPolicy) (snapshot : Snapshot) (m : MetacognitionSnapshot)
    : Type 0 where
  pub each_task : length m.tasks ≡ length snapshot.tasks
  pub total_tasks : m.summary.total_tasks ≡ length snapshot.tasks
  pub each_goal : length m.goals ≡ length snapshot.goals
  pub total_goals : m.summary.total_goals ≡ length snapshot.goals
  pub by_severity :
      m.summary.critical_diagnostics + m.summary.warning_diagnostics + m.summary.info_diagnostics
      ≡ length m.diagnostics
  pub stalled : m.summary.stalled_tasks ≡ count (is_stalled policy) m.tasks
  pub retrying : m.summary.retry_loops ≡ count (is_retrying policy) m.tasks

-- An analysis has one entry for each task and each goal of the snapshot, and its summary agrees with
-- them and with the diagnostics: the diagnostics are those of the three severities; the count of
-- stalled tasks, taken from the diagnostics, is the number of active tasks whose age reaches the
-- threshold of the normalized policy; and the count of retry loops is the number of tasks at its
-- threshold of attempts that neither succeeded nor were canceled.
pub analyze_with_policy-AddsUp :
    (outside : Outside) (snapshot : Snapshot) (policy : AnalysisPolicy)
    → AddsUp (normalized outside policy) snapshot (analyze_with_policy outside snapshot policy)
unfolding analyze_with_policy analyze_normalized summary_of
analyze_with_policy-AddsUp outside snapshot policy =
    let p = normalized outside policy in
    let scope = scope_of outside p snapshot in
    let states = sort_with state_order snapshot.tasks in
    let each : length (map (task_analysis outside p scope) states) ≡ length snapshot.tasks =
      length-map _ states ∙ length-sort_with state_order snapshot.tasks in
    let goals =
      length-map _ (sort_with goal_order snapshot.goals)
      ∙ length-sort_with goal_order snapshot.goals in
    record {
      each_task = each;
      total_tasks = each;
      each_goal = goals;
      total_goals = goals;
      by_severity = severities _;
      stalled =
          count-sort_by _ _ (all_diagnostics outside p scope states)
          ∙ stalled_counted outside p scope states;
      retrying =
          count-sort_by _ _ (all_diagnostics outside p scope states)
          ∙ retries_counted outside p scope states;
    }
