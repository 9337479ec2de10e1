-- ===== src/Runtime/Keyed.antt =====
-- The map of the hook agents of src/runtime/monitor.rs: each agent is filed under its id.
use meta_agent_control_plane.Prelude.{
  ◌≡◌, refl, ap, sym, ◌∙◌, String, false, Option, some, List, [], ◌∷◌, All, arith, leb, Bool-cases,
  Option-cases, inl, inr, ◌==◌, string_eq, map_get, map_insert, map_get-cases,
}
use meta_agent_control_plane.Runtime.Data.{RuntimeHookKind, RuntimeHookEnvelope}
use meta_agent_control_plane.Runtime.Monitor.{
  RuntimeConfig, RuntimeState, HookAgentState, new_state, apply_kind, update_current, apply_hook,
  first_seen, accept_hook, value_or,
}
use meta_agent_control_plane.Runtime.Sampling.{Floats}
use meta_agent_control_plane.Runtime.Run.{Call, serve, serve_elim, run, run_induction}
use meta_agent_control_plane.Runtime.Agents.{collect_once-agents}
use meta_agent_control_plane.Runtime.Rows.{HookAgents}

-- No entry has the key.
abbrev pub AreOthers : HookAgents → String → Type 0
AreOthers entries key = All (λ (e : String × HookAgentState). (e.0 == key) ≡ false) entries

-- Each agent is filed under its id, and once.
abbrev pub IsKeyed : HookAgents → Type 0
IsKeyed [] = Unit
IsKeyed ((key, agent) ∷ entries) =
    (agent.agent.agent_id ≡ key) × AreOthers entries key × IsKeyed entries

insert-AreOther :
    (key k : String) (agent : HookAgentState) (entries : HookAgents)
    → (k == key) ≡ false
    → AreOthers entries key
    → AreOthers (map_insert k agent entries) key
unfolding map_insert
insert-AreOther key k agent [] other all = (other, tt)
insert-AreOther key k agent ((j, h) ∷ entries) other all = elim (Bool-cases (j == k)) [
  | inl same ↦ rw same (all.0, all.1)
  | inr apart ↦ rw apart (all.0, insert-AreOther key k agent entries other all.1)
]

insert-IsKeyed :
    (k : String) (agent : HookAgentState) (entries : HookAgents)
    → agent.agent.agent_id ≡ k
    → IsKeyed entries
    → IsKeyed (map_insert k agent entries)
unfolding map_insert
insert-IsKeyed k agent [] own keyed = (own, tt, tt)
insert-IsKeyed k agent ((j, h) ∷ entries) own keyed = elim (Bool-cases (j == k)) [
  | inl same ↦ rw same (own ∙ sym ((string_eq.is_same_iff j k).0 same), keyed.1, keyed.2)
  | inr apart ↦
      let flipped : (k == j) ≡ false =
        ground (arith, string_eq.is_same_iff j k, string_eq.is_same_iff k j) in
      rw apart (
        keyed.0,
        insert-AreOther j k agent entries flipped keyed.1,
        insert-IsKeyed k agent entries own keyed.2,
      )
]

agent-apply_kind :
    (kind : RuntimeHookKind) (tool_name : Option String) (agent : HookAgentState)
    → (apply_kind kind tool_name agent).agent ≡ agent.agent
unfolding apply_kind
agent-apply_kind RuntimeHookKind.session_started tool_name agent = refl
agent-apply_kind RuntimeHookKind.heartbeat tool_name agent = refl
agent-apply_kind RuntimeHookKind.activity tool_name agent = refl
agent-apply_kind RuntimeHookKind.tool_started tool_name agent = refl
agent-apply_kind RuntimeHookKind.tool_finished tool_name agent = refl
agent-apply_kind RuntimeHookKind.model_response tool_name agent = refl
agent-apply_kind RuntimeHookKind.confidence_reported tool_name agent = refl
agent-apply_kind RuntimeHookKind.error_observed tool_name agent = refl
agent-apply_kind RuntimeHookKind.session_finished tool_name agent = refl

apply_hook-agent :
    (hook : RuntimeHookEnvelope) (agent : HookAgentState)
    → agent.agent.agent_id ≡ hook.agent.agent_id
    → (apply_hook hook agent).agent.agent_id ≡ hook.agent.agent_id
unfolding apply_hook update_current
apply_hook-agent hook agent own = elim (Bool-cases (leb agent.last_hook_at hook.occurred_at)) [
  | inl new ↦ rw (new, agent-apply_kind) refl
  | inr late ↦ rw late own
]

pub get-IsKeyed :
    (k : String) (agent : HookAgentState) (entries : HookAgents)
    → IsKeyed entries
    → map_get k entries ≡ some agent
    → agent.agent.agent_id ≡ k
unfolding map_get
get-IsKeyed k agent [] keyed found = cc
get-IsKeyed k agent ((j, h) ∷ entries) keyed found =
    elim (map_get-cases k j h agent entries found) [
      | inl (e, same) ↦ ap (λ (a : HookAgentState). a.agent.agent_id) (sym same) ∙ keyed.0 ∙ e
      | inr further ↦ get-IsKeyed k agent entries keyed.2 further
    ]

accepted-agent :
    (hook : RuntimeHookEnvelope) (entries : HookAgents)
    → IsKeyed entries
    → (apply_hook hook
        (value_or (map_get hook.agent.agent_id entries) (first_seen hook))).agent.agent_id
      ≡ hook.agent.agent_id
unfolding first_seen
accepted-agent hook entries keyed = elim (Option-cases (map_get hook.agent.agent_id entries)) [
  | inl missing ↦ rw missing (apply_hook-agent hook (first_seen hook) refl)
  | inr (agent, found) ↦
      rw found
        (apply_hook-agent hook agent (get-IsKeyed hook.agent.agent_id agent entries keyed found))
]

module _ (floats : Floats) (config : RuntimeConfig) where
  serve-IsKeyed :
      (state : RuntimeState) (call : Call)
      → IsKeyed state.hook_agents
      → IsKeyed (serve floats config state call).hook_agents
  serve-IsKeyed state call keyed =
      serve_elim floats config (λ s. IsKeyed s.hook_agents) state call keyed
        (λ hook good new.
          unfold accept_hook in
          insert-IsKeyed hook.agent.agent_id _ state.hook_agents
            (accepted-agent hook state.hook_agents keyed) keyed)
        (λ id now request capable. keyed) (λ now ack command hit own. keyed)
        (λ now sample. rw (collect_once-agents floats config) keyed)

  pub run-IsKeyed : (calls : List Call) → IsKeyed (run floats config new_state calls).hook_agents
  run-IsKeyed calls =
      run_induction floats config (λ s. IsKeyed s.hook_agents) serve-IsKeyed new_state calls tt
