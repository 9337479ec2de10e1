-- ===== src/Runtime/Shown.antt =====
-- What `RuntimeMonitor::snapshot` of src/runtime/monitor.rs shows of the agents that sent hooks.
use mathlib.Core.List.{Mem, mem-cons_self, mem-cons_of_mem, mem-map_of_mem}
use mathlib.Core.List.Perm
use meta_agent_control_plane.Prelude.{
  ℕ, ◌≡◌, refl, ap, sym, ◌∙◌, String, Bool, true, Option, none, some, List, [], ◌∷◌, All, arith,
  Bool-cases, Option-cases, inl, inr, ◌==◌, string_eq, map_get, map_insert, map_get-map_insert,
  map_get-cases, sort_by-perm, subst,
}
use meta_agent_control_plane.Model.Numbers.{DateTime}
use meta_agent_control_plane.Runtime.Data.{RuntimeAgentTelemetry}
use meta_agent_control_plane.Runtime.Monitor.{
  RuntimeConfig, RuntimeState, HookAgentState, new_state,
}
use meta_agent_control_plane.Runtime.Sampling.{Floats}
use meta_agent_control_plane.Runtime.Run.{Call, run}
use meta_agent_control_plane.Runtime.Agents.{
  Totals, totals_of, no_totals, totals_from, accepted, run_agent_totals,
}
use meta_agent_control_plane.Runtime.Rows.{
  Rows, HookAgents, Processes, process_agent_ids, process_row, process_rows, merge_row, hook_rows,
  agent_rows,
}
use meta_agent_control_plane.Runtime.Snapshot.{is_earlier_row, into_values, snapshot}
use meta_agent_control_plane.Runtime.Keyed.{AreOthers, IsKeyed, run-IsKeyed}

-- Each row is filed under its id.
abbrev AreFiled : Rows → Type 0
AreFiled rows = All (λ (e : String × RuntimeAgentTelemetry). e.1.agent_id ≡ e.0) rows

-- What a row shows of an agent with the given state and totals.
pub record Shows (a : String) (agent : HookAgentState) (t : Totals) (row : RuntimeAgentTelemetry)
    : Type 0 where
  pub agent_id : row.agent_id ≡ a
  pub provider : row.provider ≡ agent.agent.provider
  pub model : row.model ≡ agent.agent.model
  pub instance_id : row.instance_id ≡ agent.agent.instance_id
  pub session_id : row.session_id ≡ agent.session_id
  pub status : row.status ≡ agent.status
  pub current_activity : row.current_activity ≡ agent.current_activity
  pub current_tool : row.current_tool ≡ agent.current_tool
  pub reported_confidence : row.reported_confidence ≡ agent.reported_confidence
  pub hook_backed : row.hook_backed ≡ true
  pub input_tokens : row.input_tokens ≡ t.input_tokens
  pub output_tokens : row.output_tokens ≡ t.output_tokens
  pub last_hook_at : row.last_hook_at ≡ some t.latest
  pub control_capable : row.control_capable ≡ t.capable

insert-AreFiled :
    (k : String) (row : RuntimeAgentTelemetry) (rows : Rows)
    → row.agent_id ≡ k
    → AreFiled rows
    → AreFiled (map_insert k row rows)
unfolding map_insert
insert-AreFiled k row [] own filed = (own, tt)
insert-AreFiled k row ((j, r) ∷ rows) own filed = elim (Bool-cases (j == k)) [
  | inl same ↦ rw same (own ∙ sym ((string_eq.is_same_iff j k).0 same), filed.1)
  | inr apart ↦ rw apart (filed.0, insert-AreFiled k row rows own filed.1)
]

process_rows-AreFiled :
    (ids : List (ℕ × String)) (processes : Processes) (rows : Rows)
    → AreFiled rows
    → AreFiled (process_rows ids processes rows)
unfolding process_rows process_row
process_rows-AreFiled ids [] rows filed = filed
process_rows-AreFiled ids ((key, process) ∷ processes) rows filed =
    process_rows-AreFiled ids processes _ (insert-AreFiled _ _ rows refl filed)

get-AreFiled :
    (k : String) (row : RuntimeAgentTelemetry) (rows : Rows)
    → AreFiled rows
    → map_get k rows ≡ some row
    → (row.agent_id ≡ k) × Mem (k, row) rows
unfolding map_get
get-AreFiled k row [] filed found = cc
get-AreFiled k row ((j, r) ∷ rows) filed found = elim (map_get-cases k j r row rows found) [
  | inl (e, same) ↦ (
    ap (λ (a : RuntimeAgentTelemetry). a.agent_id) (sym same) ∙ filed.0 ∙ e,
    rw (e, same) mem-cons_self,
  )
  | inr further ↦
      let rest = get-AreFiled k row rows filed.1 further in (rest.0, mem-cons_of_mem (j, r) rest.1)
]

-- An agent that comes later in the map leaves the other rows.
hook_rows-other :
    (a : String) (processes : Processes) (entries : HookAgents) (rows : Rows)
    → IsKeyed entries
    → AreOthers entries a
    → map_get a (hook_rows processes entries rows) ≡ map_get a rows
unfolding hook_rows
hook_rows-other a processes [] rows keyed others = refl
hook_rows-other a processes ((k, h) ∷ entries) rows keyed others =
    hook_rows-other a processes entries _ keyed.2 others.1
    ∙ map_get-map_insert a h.agent.agent_id _ rows
    ∙ rw (keyed.0, others.0) refl

-- The row of an agent comes from its state and from a row that is filed under its id.
hook_rows-get :
    (a : String) (agent : HookAgentState) (processes : Processes) (entries : HookAgents)
    (rows : Rows)
    → IsKeyed entries
    → map_get a entries ≡ some agent
    → (old : Option RuntimeAgentTelemetry) × (map_get a (hook_rows processes entries rows)
        ≡ some (merge_row processes agent old))
unfolding hook_rows
hook_rows-get a agent processes [] rows keyed found = unfold map_get in cc
hook_rows-get a agent processes ((k, h) ∷ entries) rows keyed found =
    elim (map_get-cases a k h agent entries found) [
      | inl (e, same) ↦ (
        map_get h.agent.agent_id rows,
        hook_rows-other a processes entries _ keyed.2 (subst (AreOthers entries) e keyed.1)
            ∙ map_get-map_insert a h.agent.agent_id _ rows
            ∙ rw ((string_eq.is_same_iff h.agent.agent_id a).1 (keyed.0 ∙ e))
                (ap (λ x. some (merge_row processes x (map_get h.agent.agent_id rows))) same),
      )
      | inr further ↦ hook_rows-get a agent processes entries _ keyed.2 further
    ]

merge_row-agent_id :
    (processes : Processes) (h : HookAgentState) (rows : Rows)
    → AreFiled rows
    → (merge_row processes h (map_get h.agent.agent_id rows)).agent_id ≡ h.agent.agent_id
unfolding merge_row
merge_row-agent_id processes h rows filed = elim (Option-cases (map_get h.agent.agent_id rows)) [
  | inl missing ↦ rw (missing, merge_row) refl
  | inr (row, found) ↦ rw (found, merge_row) (get-AreFiled h.agent.agent_id row rows filed found).0
]

hook_rows-AreFiled :
    (processes : Processes) (entries : HookAgents) (rows : Rows)
    → AreFiled rows
    → AreFiled (hook_rows processes entries rows)
unfolding hook_rows
hook_rows-AreFiled processes [] rows filed = filed
hook_rows-AreFiled processes ((k, h) ∷ entries) rows filed =
    hook_rows-AreFiled processes entries _
      (insert-AreFiled h.agent.agent_id _ rows (merge_row-agent_id processes h rows filed) filed)

merge_row-Shows :
    (a : String) (processes : Processes) (agent : HookAgentState)
    (old : Option RuntimeAgentTelemetry)
    → (merge_row processes agent old).agent_id ≡ a
    → Shows a agent (totals_of agent) (merge_row processes agent old)
unfolding merge_row
merge_row-Shows a processes agent none own = ground arith
merge_row-Shows a processes agent (some row) own = ground arith

-- An agent of a keyed map has a row among the agents of a snapshot.
agent_is_shown :
    (state : RuntimeState) (a : String) (agent : HookAgentState)
    → IsKeyed state.hook_agents
    → map_get a state.hook_agents ≡ some agent
    → (row : RuntimeAgentTelemetry) × Mem row (into_values (agent_rows state))
      × Shows a agent (totals_of agent) row
unfolding agent_rows into_values
agent_is_shown state a agent keyed found =
    let ids = process_agent_ids state.hook_agents [] in
    let rows = process_rows ids state.processes [] in
    let merged = hook_rows-get a agent state.processes state.hook_agents rows keyed found in
    let filed =
      get-AreFiled a _ _
        (hook_rows-AreFiled state.processes state.hook_agents rows
          (process_rows-AreFiled ids state.processes [] tt))
        merged.1 in
    (
      merge_row state.processes agent merged.0,
      mem-map_of_mem (λ (e : String × RuntimeAgentTelemetry). e.1)
          ((Perm.mem_iff (sort_by-perm is_earlier_row (agent_rows state))).1 filed.1),
      merge_row-Shows a state.processes agent merged.0 filed.0,
    )

module _ (floats : Floats) (config : RuntimeConfig) where
  -- After any run of the monitor from its start, each agent that it knows from hooks has a row among
  -- the agents of a snapshot: it has the agent's id, provider, model, instance, session, status, activity, tool and
  -- confidence, it is marked as backed by hooks, and its token counts, its last hook and whether it
  -- can be controlled are those of the hooks that the monitor accepted from the agent.
  pub snapshot_has_agent :
      (calls : List Call) (enabled : Bool) (now : DateTime) (a : String) (agent : HookAgentState)
      → map_get a (run floats config new_state calls).hook_agents ≡ some agent
      → (row : RuntimeAgentTelemetry) × Mem row
          (snapshot floats config (run floats config new_state calls) enabled now).agents
        × Shows a agent (totals_from a no_totals (accepted floats config new_state calls)) row
  unfolding snapshot
  snapshot_has_agent calls enabled now a agent found =
      let shown =
        agent_is_shown (run floats config new_state calls) a agent (run-IsKeyed floats config calls)
          found in
      (
        shown.0,
        shown.1,
        subst (λ t. Shows a agent t shown.0) (run_agent_totals floats config calls a agent found)
            shown.2,
      )
