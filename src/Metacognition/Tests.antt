-- ===== src/Metacognition/Tests.antt =====
-- Dependency graphs for src/metacognition/graph.rs, and the theorems at them.
use meta_agent_control_plane.Prelude.{
  ◌≡◌, ◌≢◌, refl, map, none, some, [], ◌∷◌, sort_by, insert_sorted, map_get, map_insert, map_push,
  concat, join, filter, All,
}
use meta_agent_control_plane.Model.{event_task_id}
use meta_agent_control_plane.Model.Numbers.{saturating_suc, is_finite}
use meta_agent_control_plane.Runtime.Monitor.{saturating_add}
use meta_agent_control_plane.Store.Ingest
use meta_agent_control_plane.Store.Ingest.{take}
use meta_agent_control_plane.Metacognition.Lookup
use meta_agent_control_plane.Store.State.{Snapshot}
use meta_agent_control_plane.Metacognition.Sample.{task, outside, chain_snapshot}
use meta_agent_control_plane.Metacognition.Data.{Diagnostic}
use meta_agent_control_plane.Metacognition.Outside.{default_analysis_policy, normalized}
use meta_agent_control_plane.Metacognition.Outside
use meta_agent_control_plane.Metacognition.Findings
use meta_agent_control_plane.Metacognition.Facts
use meta_agent_control_plane.Metacognition.Analysis
use meta_agent_control_plane.Metacognition.Events
use meta_agent_control_plane.Metacognition.Analysis.{analyze_with_policy}
use meta_agent_control_plane.Metacognition.Sums.{AddsUp, analyze_with_policy-AddsUp}
use meta_agent_control_plane.Metacognition.Lookup.{TaskLookup}
use meta_agent_control_plane.Metacognition.Cycles
use meta_agent_control_plane.Metacognition.Cycles.{Graph, search_agent, dependency_cycle_members}
use meta_agent_control_plane.Metacognition.Search.{search_agent_terminates}
use meta_agent_control_plane.Metacognition.Members.{IsOnCycle, cycle_members_sound}
use meta_agent_control_plane.Metacognition.Depth
use meta_agent_control_plane.Metacognition.Depth.{remaining_depths}
use meta_agent_control_plane.Metacognition.Depths.{remaining_depths_terminates}

-- Two cycles that share the edge from b to a, and a task that waits on one of them.
abbrev two_cycles : TaskLookup
two_cycles =
    (("agent-a", "a"), task "a" ("b" ∷ "c" ∷ []))
    ∷ (("agent-a", "b"), task "b" ("a" ∷ []))
    ∷ (("agent-a", "c"), task "c" ("b" ∷ []))
    ∷ (("agent-a", "d"), task "d" ("c" ∷ []))
    ∷ []

-- c depends on b, b on a and a on c, but the search, which has done with b by then, leaves c out.
two_cycles_members : dependency_cycle_members two_cycles ≡ ("agent-a", "b") ∷ ("agent-a", "a") ∷ []
unfolding Cycles.dependency_cycle_members Cycles.by_agent Cycles.search_all Cycles.search_agent
    Cycles.visit_each Cycles.visit_cycle Cycles.close_cycle Cycles.enter Cycles.leave
    Cycles.pop_last Cycles.from_position Cycles.insert_members Cycles.insert_member
    Cycles.contains_key sort_by insert_sorted map_get map_insert filter
two_cycles_members = refl

abbrev chain : TaskLookup
chain =
    (("agent-a", "a"), task "a" ("b" ∷ []))
    ∷ (("agent-a", "b"), task "b" ("c" ∷ "gone" ∷ []))
    ∷ (("agent-a", "c"), task "c" [])
    ∷ []

chain_depths :
    remaining_depths chain []
    ≡ some ((("agent-a", "a"), 3) ∷ (("agent-a", "b"), 2) ∷ (("agent-a", "c"), 1) ∷ [])
unfolding Depth.remaining_depths Depth.depths_of Depth.remaining_depth Depth.deepest
    Cycles.contains_key sort_by insert_sorted map_get map_insert filter saturating_suc
chain_depths = refl

abbrev loop : Graph
loop = ("a", "b" ∷ []) ∷ ("b", "a" ∷ []) ∷ []

search_agent_terminates_example : search_agent "agent-a" loop [] ≢ none
search_agent_terminates_example = search_agent_terminates "agent-a" loop []

cycle_members_sound_example : All (IsOnCycle two_cycles) (dependency_cycle_members two_cycles)
cycle_members_sound_example = cycle_members_sound two_cycles

remaining_depths_terminates_example : remaining_depths two_cycles (("agent-a", "a") ∷ []) ≢ none
remaining_depths_terminates_example = remaining_depths_terminates two_cycles (("agent-a", "a") ∷ [])

abbrev snapshot : Snapshot
snapshot = chain_snapshot []

program : Unit {0}
unfolding analyze_with_policy Analysis.analyze_normalized Analysis.task_analysis
    Analysis.all_diagnostics Analysis.facts_of sort_by Findings.findings normalized
    Analysis.scope_of Ingest.snapshot Lookup.dependency_state map_get Lookup.task_lookup map_insert
    Cycles.contains_key dependency_cycle_members Cycles.visit_cycle filter
    Facts.is_completion_mismatch saturating_add Findings.severity_order Findings.diagnostic
    Analysis.diagnostics_for Analysis.goal_analysis Analysis.goal_warnings Events.index_events
    Events.index_task_events Events.last_first Events.source_event_ids Analysis.summary_of
    Cycles.by_agent Cycles.close_cycle Cycles.enter Cycles.from_position Cycles.insert_member
    Cycles.insert_members Cycles.leave Cycles.pop_last search_agent Cycles.search_all
    Cycles.visit_each Depth.add_critical Depth.any_member Depth.critical_paths Depth.deepest
    Depth.depths_of Depth.goal_paths Depth.group_by_goal Depth.max_depth Depth.remaining_depth
    remaining_depths Findings.blocked_dependency Findings.completion_mismatch
    Findings.dependency_cycle Facts.diagnostic_id Findings.low_confidence Findings.missing_evidence
    Findings.missing_next_action Findings.orphan_dependency Findings.orphan_goal Findings.retry_loop
    Findings.stalled_task Lookup.dependency_kind Lookup.sort_dependencies Outside.age_seconds
    Outside.clamp_unit Outside.mean Outside.mean_from Outside.ratio is_finite saturating_suc
    event_task_id map_push insert_sorted concat join take
program = tt

-- The two tasks that are open are stale and have no next action; the third has no outcome and no
-- evidence.
diagnosed :
    map
      (λ (d : Diagnostic). d.diagnostic_id)
      (analyze_with_policy outside snapshot default_analysis_policy).diagnostics
    ≡ "completion_mismatch:agent-a:c" ∷ "missing_evidence:agent-a:c" ∷ "stalled_task:agent-a:a"
      ∷ "stalled_task:agent-a:b" ∷ "missing_next_action:agent-a:a" ∷ "missing_next_action:agent-a:b"
      ∷ []
unfolding program
diagnosed = refl

analyze_with_policy-AddsUp_example :
    AddsUp
      (normalized outside default_analysis_policy)
      snapshot
      (analyze_with_policy outside snapshot default_analysis_policy)
analyze_with_policy-AddsUp_example =
    analyze_with_policy-AddsUp outside snapshot default_analysis_policy
