-- ===== src/Coordination/Build.antt =====
-- `build_plan` of src/coordination.rs: the analysis of a snapshot, and the plan made from it.
use meta_agent_control_plane.Prelude.{ok, err}
use meta_agent_control_plane.Store.State.{Snapshot}
use meta_agent_control_plane.Metacognition.Data.{AnalysisPolicy}
use meta_agent_control_plane.Metacognition.Outside.{Outside, default_analysis_policy}
use meta_agent_control_plane.Metacognition.Analysis.{analyze_with_policy}
use meta_agent_control_plane.Coordination.Data.{
  PlanningPolicy, PlanningError, CoordinationPlan, default_planning_policy, validate_policy,
}
use meta_agent_control_plane.Coordination.Plan.{plan_from_analysis}

-- `Result<CoordinationPlan, PlanningError>`.
pub data Planned : Type 0 where
  planned : CoordinationPlan → Planned
  refused : PlanningError → Planned

unfoldable pub build_plan_with_policy :
    Outside → Snapshot → AnalysisPolicy → PlanningPolicy → Planned
build_plan_with_policy outside snapshot analysis_policy policy = elim (validate_policy policy) [
  | err e ↦ refused e
  | ok ↦
      planned
        (plan_from_analysis snapshot (analyze_with_policy outside snapshot analysis_policy) policy)
]

unfoldable pub build_plan : Outside → Snapshot → Planned
unfolding build_plan_with_policy
build_plan outside snapshot =
    build_plan_with_policy outside snapshot default_analysis_policy default_planning_policy
