-- ===== src/Coordination/Accounts.antt =====
-- The counts in the plans of src/coordination.rs.
use meta_agent_control_plane.Prelude.{
  ℕ, zero, suc, ◌+◌, ◌-◌, ◌≤◌, ◌≡◌, refl, ap, sym, ◌∙◌, String, true, List, [], ◌∷◌, ◌++◌, map,
  length, length-append, arith, count, count-all, sort_with, is_less, length-sort_by,
}
use meta_agent_control_plane.Store.State.{Snapshot}
use meta_agent_control_plane.Store.Ingest.{take}
use meta_agent_control_plane.Metacognition.Data.{TaskAnalysis, MetacognitionSnapshot}
use meta_agent_control_plane.Coordination.Data.{
  PlanningPolicy, Assignment, HeldTask, CoordinationPlan, assignment_order, intervention_order,
  hold_order,
}
use meta_agent_control_plane.Coordination.Select.{select_assignments}
use meta_agent_control_plane.Coordination.Rounds.{is_for}
use meta_agent_control_plane.Coordination.Chosen.{select_assignments-IsFair}
use meta_agent_control_plane.Coordination.Plan.{
  Context, Decision, intervene, propose, withhold, Decided, decide, add_decision, decide_all,
  decided_of, context_of, task_order, suppressed_hold, plan_from_analysis,
}

-- What a plan says of the tasks, the limits and itself.
pub record Accounts (policy : PlanningPolicy) (analysis : MetacognitionSnapshot)
    (plan : CoordinationPlan) : Type 0 where
  pub every_task :
      length plan.assignments
        + (length plan.interventions + plan.summary.omitted_interventions)
        + (length plan.held_tasks + plan.summary.omitted_holds)
      ≡ length analysis.tasks
  pub total : plan.summary.total_tasks ≡ length analysis.tasks
  pub candidates :
      plan.summary.assignment_candidates
      ≡ length plan.assignments + plan.summary.suppressed_by_assignment_limits
  pub assignments_fit : length plan.assignments ≤ policy.max_assignments
  pub agents_fit :
      (agent_id : String)
      → count (is_for agent_id) plan.assignments ≤ policy.max_assignments_per_agent
  pub interventions_fit : length plan.interventions ≤ policy.max_interventions
  pub holds_fit : length plan.held_tasks ≤ policy.max_holds

add_decision-size :
    (d : Decision) (decided : Decided)
    → length (add_decision d decided).assignment_candidates
        + length (add_decision d decided).interventions
        + length (add_decision d decided).held_tasks
      ≡ suc (
          length decided.assignment_candidates
          + length decided.interventions
          + length decided.held_tasks)
unfolding add_decision
add_decision-size (intervene i) decided = omega arith
add_decision-size (propose a) decided = omega arith
add_decision-size (withhold h) decided = omega arith

decide_all-size :
    (context : Context) (tasks : List TaskAnalysis)
    → length (decide_all context tasks).assignment_candidates
        + length (decide_all context tasks).interventions
        + length (decide_all context tasks).held_tasks
      ≡ length tasks
unfolding decide_all
decide_all-size context [] = omega arith
decide_all-size context (task ∷ tasks) = omega (
  arith,
  add_decision-size (decide context task) (decide_all context tasks),
  decide_all-size context tasks,
)

module _ {A : Type 0} where
  length-take_rest : (n : ℕ) (l : List A) → length (take n l) + (length l - n) ≡ length l
  unfolding take
  length-take_rest zero l = omega arith
  length-take_rest (suc n) [] = omega arith
  length-take_rest (suc n) (x ∷ l) = omega (arith, length-take_rest n l)

  length-take_le : (n : ℕ) (l : List A) → length (take n l) ≤ n
  unfolding take
  length-take_le zero l = omega arith
  length-take_le (suc n) [] = omega arith
  length-take_le (suc n) (x ∷ l) = omega (arith, length-take_le n l)

length-map : (f : Assignment → HeldTask) (l : List Assignment) → length (map f l) ≡ length l
length-map f [] = refl
length-map f (a ∷ l) = ap suc (length-map f l)

decided_size :
    (snapshot : Snapshot) (analysis : MetacognitionSnapshot)
    → length (sort_with assignment_order (decided_of snapshot analysis).assignment_candidates)
        + length (sort_with intervention_order (decided_of snapshot analysis).interventions)
        + length (sort_with hold_order (decided_of snapshot analysis).held_tasks)
      ≡ length analysis.tasks
unfolding decided_of
decided_size snapshot analysis =
    let context = context_of snapshot analysis in
    let decided = decide_all context (sort_with task_order analysis.tasks) in
    omega (
      arith,
      length-sort_by (λ a b. is_less (assignment_order a b)) decided.assignment_candidates,
      length-sort_by (λ a b. is_less (intervention_order a b)) decided.interventions,
      length-sort_by (λ a b. is_less (hold_order a b)) decided.held_tasks,
      length-sort_by (λ a b. is_less (task_order a b)) analysis.tasks,
      decide_all-size context (sort_with task_order analysis.tasks),
    )

-- Every analysed task is assigned, needs an intervention or is held, the last two shown or counted as
-- omitted; the candidates are those assigned and those suppressed; and the lists of the plan keep to
-- the limits of the policy, also for each agent.
pub plan-Accounts :
    (snapshot : Snapshot) (analysis : MetacognitionSnapshot) (policy : PlanningPolicy)
    → Accounts policy analysis (plan_from_analysis snapshot analysis policy)
unfolding plan_from_analysis
plan-Accounts snapshot analysis policy =
    let decided = decided_of snapshot analysis in
    let candidates = sort_with assignment_order decided.assignment_candidates in
    let interventions = sort_with intervention_order decided.interventions in
    let holds = sort_with hold_order decided.held_tasks in
    let chosen =
      select_assignments candidates policy.max_assignments policy.max_assignments_per_agent in
    let held = sort_with hold_order (holds ++ map suppressed_hold chosen.1) in
    let fair =
      select_assignments-IsFair candidates policy.max_assignments
        policy.max_assignments_per_agent in
    let parts : length chosen.0 + length chosen.1 ≡ length candidates = omega (
      arith,
      fair.parts (λ _. true),
      count-all chosen.0,
      count-all chosen.1,
      count-all candidates,
    ) in
    let sizes : length candidates + length interventions + length holds ≡ length analysis.tasks =
      decided_size snapshot analysis in
    let held_size : length held ≡ length holds + length chosen.1 =
      length-sort_by _ (holds ++ map suppressed_hold chosen.1)
      ∙ length-append holds (map suppressed_hold chosen.1)
      ∙ ap (λ n. length holds + n) (length-map suppressed_hold chosen.1) in
    record {
      every_task = omega (
        arith,
        parts,
        sizes,
        held_size,
        length-take_rest policy.max_interventions interventions,
        length-take_rest policy.max_holds held,
      );
      total = refl;
      candidates = sym parts;
      assignments_fit = fair.limited;
      agents_fit = fair.capped;
      interventions_fit = length-take_le policy.max_interventions interventions;
      holds_fit = length-take_le policy.max_holds held;
    }
