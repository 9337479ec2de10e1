-- ===== src/Coordination/Ready.antt =====
-- Which tasks src/coordination.rs assigns.
use mathlib.Core.List.{Memᴰ}
use meta_agent_control_plane.Prelude.{
  ◌≡◌, All-mem, All-imp, ◌≢◌, refl, ap, sym, ◌∙◌, String, true, false, not, none, some, List, [],
  ◌∷◌, All, arith, Bool-cases, Option-cases, inl, inr, ◌==◌, string_eq, map_get, map_get-map_insert,
  ==-self, All-sort_by, sort_with,
}
use meta_agent_control_plane.Model.{AgentStatus}
use meta_agent_control_plane.Store.State.{AgentState, Snapshot}
use meta_agent_control_plane.Metacognition.Data.{TaskAnalysis, MetacognitionSnapshot}
use meta_agent_control_plane.Coordination.Data.{PlanningPolicy, Assignment}
use meta_agent_control_plane.Coordination.Tasks.{
  intervention_kind, intervention_for, assignment, assignment_action,
}
use meta_agent_control_plane.Coordination.Chosen.{All-selected}
use meta_agent_control_plane.Coordination.Plan.{
  Context, Decision, intervene, propose, withhold, Decided, diagnostics_of, owner_is_offline,
  is_offline, is_empty, is_waiting, decide, add_decision, decide_all, agent_statuses, context_of,
  decided_of, task_order, plan_from_analysis,
}

-- The task can be worked on, as the loop sees it.
pub record IsReady (context : Context) (task : TaskAnalysis) : Type 0 where
  pub no_intervention : intervention_kind (diagnostics_of context task) ≡ none
  pub online : owner_is_offline context task ≡ false
  pub none_missing : task.missing_dependencies ≡ []
  pub none_unresolved : task.unresolved_dependencies ≡ []

empty_of : (l : List String) → not (is_empty l) ≡ false → l ≡ []
empty_of [] h = refl
empty_of (s ∷ l) h = cc

waiting_of :
    (task : TaskAnalysis)
    → is_waiting task ≡ false
    → (task.missing_dependencies ≡ []) × (task.unresolved_dependencies ≡ [])
unfolding is_waiting
waiting_of task h = (
  empty_of task.missing_dependencies (ground arith),
  empty_of task.unresolved_dependencies (ground arith),
)

module _ (context : Context) (Q : TaskAnalysis → Type 0) where
  -- The assignment is of a task with the property that is ready.
  abbrev pub Serves : Assignment → Type 0
  Serves a =
      (task : TaskAnalysis) × Q task
      × (a.agent_id ≡ task.agent_id)
      × (a.task_id ≡ task.task_id)
      × IsReady context task

  abbrev Proposes : Decision → Type 0
  Proposes (propose a) = Serves a
  Proposes _ = Unit

  decide-Proposes : (task : TaskAnalysis) → Q task → Proposes (decide context task)
  unfolding decide intervention_for
  decide-Proposes task q = elim (Option-cases (intervention_kind (diagnostics_of context task))) [
    | inr (kind, found) ↦ rw (found, decide) tt
    | inl calm ↦ elim (Bool-cases (owner_is_offline context task)) [
      | inl offline ↦ rw (calm, decide) (rw offline tt)
      | inr online ↦ elim (Bool-cases (is_waiting task)) [
        | inl waits ↦ rw (calm, decide) (rw (online, waits) tt)
        | inr free ↦ elim (Option-cases (assignment_action task (diagnostics_of context task))) [
          | inl idle ↦ rw (calm, decide) (rw (online, free) (rw (idle, decide) tt))
          | inr (action, found) ↦
              let empty = waiting_of task free in
              rw (calm, decide)
                (rw (online, free)
                  (rw (found, decide)
                    (
                      task,
                      q,
                      unfold assignment in refl,
                      unfold assignment in refl,
                      record {
                        no_intervention = calm;
                        online = online;
                        none_missing = empty.0;
                        none_unresolved = empty.1;
                      },
                    )))
        ]
      ]
    ]
  ]

  add_decision-Serves :
      (d : Decision) (decided : Decided)
      → Proposes d
      → All Serves decided.assignment_candidates
      → All Serves (add_decision d decided).assignment_candidates
  unfolding add_decision
  add_decision-Serves (intervene i) decided p all = all
  add_decision-Serves (propose a) decided p all = (p, all)
  add_decision-Serves (withhold h) decided p all = all

  decide_all-Serves :
      (tasks : List TaskAnalysis)
      → All Q tasks
      → All Serves (decide_all context tasks).assignment_candidates
  unfolding decide_all
  decide_all-Serves [] all = tt
  decide_all-Serves (task ∷ tasks) all =
      add_decision-Serves (decide context task) (decide_all context tasks)
        (decide-Proposes task all.0) (decide_all-Serves tasks all.1)

-- The agents of a snapshot have different ids.
abbrev pub AreDistinct : List AgentState → Type 0
AreDistinct [] = Unit
AreDistinct (agent ∷ agents) =
    All (λ (other : AgentState). (other.agent.agent_id == agent.agent.agent_id) ≡ false) agents
    × AreDistinct agents

statuses_other :
    (id : String) (agents : List AgentState) (entries : List (String × AgentStatus))
    → All (λ (other : AgentState). (other.agent.agent_id == id) ≡ false) agents
    → map_get id (agent_statuses agents entries) ≡ map_get id entries
unfolding agent_statuses
statuses_other id [] entries apart = refl
statuses_other id (agent ∷ agents) entries apart =
    statuses_other id agents _ apart.1
    ∙ map_get-map_insert id agent.agent.agent_id agent.status entries
    ∙ rw apart.0 refl

statuses_found :
    (agents : List AgentState) (entries : List (String × AgentStatus))
    → AreDistinct agents
    → All
        (λ (agent : AgentState).
          map_get agent.agent.agent_id (agent_statuses agents entries) ≡ some agent.status)
        agents
unfolding agent_statuses
statuses_found [] entries distinct = tt
statuses_found (agent ∷ agents) entries distinct = (
  statuses_other agent.agent.agent_id agents _ distinct.0
      ∙ map_get-map_insert agent.agent.agent_id agent.agent.agent_id agent.status entries
      ∙ rw (==-self agent.agent.agent_id) refl,
  statuses_found agents _ distinct.1,
)

-- An agent that is online in the map is not offline in the list.
abbrev pub IsUp : String → AgentState → Type 0
IsUp id agent = agent.agent.agent_id ≡ id → agent.status ≢ AgentStatus.offline

IsUp-of :
    (id : String) (statuses : List (String × AgentStatus)) (agents : List AgentState)
    → is_offline (map_get id statuses) ≡ false
    → All (λ (agent : AgentState). map_get agent.agent.agent_id statuses ≡ some agent.status) agents
    → All (IsUp id) agents
IsUp-of id statuses [] online found = tt
IsUp-of id statuses (agent ∷ agents) online found = (
  λ same down.
      let offline : is_offline (map_get id statuses) ≡ true =
        ap (λ k. is_offline (map_get k statuses)) (sym same)
        ∙ ap is_offline found.0
        ∙ ap (λ s. is_offline (some s)) down in
      cc,
  IsUp-of id statuses agents online found.1,
)

-- The task of an assignment, in terms of the snapshot and the analysis.
pub record IsAssignable (snapshot : Snapshot) (analysis : MetacognitionSnapshot) (a : Assignment)
    : Type 0 where
  pub task : TaskAnalysis
  pub analysed : Memᴰ task analysis.tasks
  pub same_agent : a.agent_id ≡ task.agent_id
  pub same_task : a.task_id ≡ task.task_id
  pub none_missing : task.missing_dependencies ≡ []
  pub none_unresolved : task.unresolved_dependencies ≡ []
  pub no_intervention :
      intervention_kind (diagnostics_of (context_of snapshot analysis) task) ≡ none
  pub up : All (IsUp a.agent_id) snapshot.agents

-- Every assignment of a plan is of an analysed task that waits for no dependency and needs no
-- intervention, and whose agent is not offline in the snapshot. The agents of the snapshot have
-- different ids.
pub plan_assigns_ready :
    (snapshot : Snapshot) (analysis : MetacognitionSnapshot) (policy : PlanningPolicy)
    → AreDistinct snapshot.agents
    → All (IsAssignable snapshot analysis) (plan_from_analysis snapshot analysis policy).assignments
unfolding plan_from_analysis decided_of
plan_assigns_ready snapshot analysis policy distinct =
    let context = context_of snapshot analysis in
    let Q = λ (task : TaskAnalysis). Memᴰ task analysis.tasks in
    let tasks : All Q (sort_with task_order analysis.tasks) =
      All-sort_by _ Q analysis.tasks (All-mem Q analysis.tasks (λ task m. m)) in
    let served = decide_all-Serves context Q (sort_with task_order analysis.tasks) tasks in
    let found = statuses_found snapshot.agents [] distinct in
    All-imp (Serves context Q) (IsAssignable snapshot analysis) _
      (λ a s. record {
        task = s.0;
        analysed = s.1;
        same_agent = s.2;
        same_task = s.3;
        none_missing = s.4.none_missing;
        none_unresolved = s.4.none_unresolved;
        no_intervention = s.4.no_intervention;
        up =
            IsUp-of a.agent_id (agent_statuses snapshot.agents []) snapshot.agents
              (rw s.2 (unfold owner_is_offline context_of in s.4.online)) found;
      })
      (All-selected (Serves context Q) _ policy.max_assignments policy.max_assignments_per_agent
        (All-sort_by _ (Serves context Q) _ served))
