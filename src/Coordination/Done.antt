-- ===== src/Coordination/Done.antt =====
-- What src/coordination.rs and src/metacognition/ do together with the dependencies of a task.
use mathlib.Core.List.{Memᴰ}
use meta_agent_control_plane.Prelude.{
  ◌≡◌, ◌<◌, ap, refl, sym, ◌∙◌, String, true, some, List, [], ◌∷◌, length, All, All-mem, All-imp,
  All-map, of_All-mem, arith, Bool-cases, Option-cases, inl, inr, Ordering, compare_text, sort_with,
  All-sort_by, map_get, pair_eq, string_eq, length-sort_with, Checked-cases, ok, err,
}
use meta_agent_control_plane.Store.State.{TaskState, Snapshot}
use meta_agent_control_plane.Metacognition.Data.{AnalysisPolicy, TaskAnalysis}
use meta_agent_control_plane.Metacognition.Lookup.{
  TaskKey, TaskLookup, task_lookup, has_succeeded, dependency_kind, add_dependency,
  sort_dependencies, dependency_state,
}
use meta_agent_control_plane.Metacognition.Outside.{Outside, normalized}
use meta_agent_control_plane.Metacognition.Analysis.{
  task_analysis, facts_of, scope_of, analyze_normalized, analyze_with_policy,
}
use meta_agent_control_plane.Coordination.Data.{
  PlanningPolicy, PlanningError, Assignment, validate_policy,
}
use meta_agent_control_plane.Coordination.Build.{Planned, planned, refused, build_plan_with_policy}
use meta_agent_control_plane.Coordination.Ready.{
  AreDistinct, IsAssignable, IsUp, plan_assigns_ready,
}

-- The task is retained and has succeeded.
pub record IsDone (lookup : TaskLookup) (key : TaskKey) : Type 0 where
  pub task : TaskState
  pub retained : map_get key lookup ≡ some task
  pub succeeded : has_succeeded task.status ≡ true

-- The assignment is of a task of the snapshot, all of whose dependencies are done, and its agent is
-- not known to be offline.
pub record IsDue (snapshot : Snapshot) (a : Assignment) : Type 0 where
  pub task : TaskState
  pub listed : Memᴰ task snapshot.tasks
  pub same_agent : a.agent_id ≡ task.agent_id
  pub same_task : a.task_id ≡ task.task.task_id
  pub done :
      All
        (λ (id : String). IsDone (task_lookup snapshot.tasks []) (task.agent_id, id))
        task.task.depends_on
  pub up : All (IsUp a.agent_id) snapshot.agents

IsDone-dependencies :
    (lookup : TaskLookup) (agent_id : String) (ids : List String)
    → (sort_dependencies lookup agent_id ids).unresolved ≡ []
    → (sort_dependencies lookup agent_id ids).missing ≡ []
    → All (λ (id : String). IsDone lookup (agent_id, id)) ids
unfolding sort_dependencies dependency_kind
IsDone-dependencies lookup agent_id [] u m = tt
IsDone-dependencies lookup agent_id (id ∷ ids) u m =
    elim (Option-cases (map_get (agent_id, id) lookup)) [
      | inl gone ↦ let m' = rw (gone, add_dependency) at m in cc
      | inr (task, found) ↦ elim (Bool-cases (has_succeeded task.status)) [
        | inl finished ↦
            let u' = rw (finished, add_dependency) at (rw found at u) in
            let m' = rw (finished, add_dependency) at (rw found at m) in
            (
              record { task = task; retained = found; succeeded = finished },
              IsDone-dependencies lookup agent_id ids u' m',
            )
        | inr left ↦ let u' = rw (left, add_dependency) at (rw found at u) in cc
      ]
    ]

-- Sorting leaves nothing only of nothing.
nothing_sorted : {A : Type 0} (cmp : A → A → Ordering) (l : List A) → sort_with cmp l ≡ [] → l ≡ []
nothing_sorted cmp [] e = refl
nothing_sorted cmp (x ∷ l) e = absurd (omega (arith, length-sort_with cmp (x ∷ l), ap length e))

module _ (outside : Outside) (policy : AnalysisPolicy) (snapshot : Snapshot) where
  -- The analysis is of a task of the snapshot.
  abbrev IsOf : TaskAnalysis → Type 0
  IsOf t =
      (task : TaskState) × Memᴰ task snapshot.tasks
      × (t ≡ task_analysis outside policy (scope_of outside policy snapshot) task)

  analysis-IsOf : All IsOf (analyze_normalized outside policy snapshot).tasks
  unfolding analyze_normalized
  analysis-IsOf = All-map IsOf (task_analysis outside policy (scope_of outside policy snapshot)) _ (
      All-imp (λ (task : TaskState). Memᴰ task snapshot.tasks) _ _ (λ task m. (task, m, refl))
        (All-sort_by _ (λ (task : TaskState). Memᴰ task snapshot.tasks) snapshot.tasks
          (All-mem _ snapshot.tasks (λ task m. m))))

  -- The dependencies that the analysis of a task lists are those of its state.
  IsDone-analysed :
      (task : TaskState)
      → (task_analysis outside policy
          (scope_of outside policy snapshot)
          task).unresolved_dependencies
        ≡ []
      → (task_analysis outside policy (scope_of outside policy snapshot) task).missing_dependencies
        ≡ []
      → All
          (λ (id : String). IsDone (task_lookup snapshot.tasks []) (task.agent_id, id))
          task.task.depends_on
  unfolding task_analysis facts_of scope_of dependency_state
  IsDone-analysed task u m =
      IsDone-dependencies (task_lookup snapshot.tasks []) task.agent_id task.task.depends_on
        (nothing_sorted compare_text _ u) (nothing_sorted compare_text _ m)

  IsDue-assigned :
      (a : Assignment)
      → IsAssignable snapshot (analyze_normalized outside policy snapshot) a
      → IsDue snapshot a
  unfolding task_analysis
  IsDue-assigned a s =
      let (task, m, e) =
        of_All-mem IsOf s.task (analyze_normalized outside policy snapshot).tasks analysis-IsOf
          s.analysed in
      record {
        task = task;
        listed = m;
        same_agent = s.same_agent ∙ ap (λ (t : TaskAnalysis). t.agent_id) e;
        same_task = s.same_task ∙ ap (λ (t : TaskAnalysis). t.task_id) e;
        done =
            IsDone-analysed task
              (ap (λ (t : TaskAnalysis). t.unresolved_dependencies) (sym e) ∙ s.none_unresolved)
              (ap (λ (t : TaskAnalysis). t.missing_dependencies) (sym e) ∙ s.none_missing);
        up = s.up;
      }

-- No limit of the policy is 0.
pub record IsUsable (policy : PlanningPolicy) : Type 0 where
  pub assignments : 0 < policy.max_assignments
  pub per_agent : 0 < policy.max_assignments_per_agent
  pub interventions : 0 < policy.max_interventions
  pub holds : 0 < policy.max_holds

IsUsable-valid : (policy : PlanningPolicy) → validate_policy policy ≡ ok → IsUsable policy
unfolding validate_policy
IsUsable-valid policy valid = record {
  assignments = ground arith;
  per_agent = ground arith;
  interventions = ground arith;
  holds = ground arith;
}

refused_not-IsUsable :
    (policy : PlanningPolicy) (e : PlanningError)
    → validate_policy policy ≡ err e
    → ¬ IsUsable policy
unfolding validate_policy
refused_not-IsUsable policy e invalid usable =
    let a = usable.assignments in
    let p = usable.per_agent in let i = usable.interventions in let h = usable.holds in ground arith

-- What is said of the result: of a plan that it assigns only what is due, of a refusal that a limit
-- is 0.
abbrev pub IsSound : Snapshot → PlanningPolicy → Planned → Type 0
IsSound snapshot policy (planned plan) = IsUsable policy × All (IsDue snapshot) plan.assignments
IsSound snapshot policy (refused e) = ¬ IsUsable policy

-- For a snapshot whose agents have different ids, `build_plan_with_policy` either refuses, and a
-- limit of the planning policy is 0, or no limit is 0 and every assignment of the plan is of a task of
-- the snapshot all of whose dependencies are retained and have succeeded, and whose agent is not
-- offline.
pub build_plan-IsSound :
    (outside : Outside) (snapshot : Snapshot) (analysis_policy : AnalysisPolicy)
    (policy : PlanningPolicy)
    → AreDistinct snapshot.agents
    → IsSound snapshot policy (build_plan_with_policy outside snapshot analysis_policy policy)
unfolding build_plan_with_policy analyze_with_policy
build_plan-IsSound outside snapshot analysis_policy policy distinct =
    elim (Checked-cases (validate_policy policy)) [
      | inl valid ↦
          rw (valid, IsSound)
            (
              IsUsable-valid policy valid,
              All-imp _ (IsDue snapshot) _
                  (IsDue-assigned outside (normalized outside analysis_policy) snapshot)
                  (plan_assigns_ready snapshot _ policy distinct),
            )
      | inr (e, invalid) ↦ rw (invalid, IsSound) (refused_not-IsUsable policy e invalid)
    ]
