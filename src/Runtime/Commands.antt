-- ===== src/Runtime/Commands.antt =====
-- Control commands of src/runtime/monitor.rs: who gets them, and what an acknowledgement does.
use meta_agent_control_plane.Prelude.{
  ℕ, zero, suc, ◌≡◌, refl, ap, ◌∙◌, String, true, Option, none, some, List, [], ◌∷◌, arith,
  Bool-cases, inl, inr, ◌==◌, string_eq, map_get, map_get-map_insert, All, nat_beq,
}
use meta_agent_control_plane.Model.Numbers.{Uuid, DateTime}
use meta_agent_control_plane.Runtime.Data.{RuntimeHookEnvelope, ControlCommand, ControlCommandAck}
use meta_agent_control_plane.Runtime.Monitor.{
  RuntimeConfig, RuntimeState, HookAgentState, new_state, first_seen, apply_hook, value_or,
  accept_hook, capable_of, is_controllable, new_command, truncate, write_command, settle,
}
use meta_agent_control_plane.Runtime.Agents.{totals-value_or, collect_once-agents}
use meta_agent_control_plane.Runtime.Sampling.{Floats, Collected, sampled, failed, collect_once}
use meta_agent_control_plane.Runtime.Run.{Call, serve, run, serve_elim, run_induction}

-- Each command is for an agent that can be controlled.
abbrev pub AreHeard : List (String × HookAgentState) → List ControlCommand → Type 0
AreHeard agents = All (λ command. is_controllable agents command.agent_id ≡ true)

AreHeard-truncate :
    (agents : List (String × HookAgentState)) (n : ℕ) (commands : List ControlCommand)
    → AreHeard agents commands
    → AreHeard agents (truncate n commands)
unfolding truncate
AreHeard-truncate agents zero commands h = tt
AreHeard-truncate agents (suc n) [] h = tt
AreHeard-truncate agents (suc n) (c ∷ commands) h = (h.0, AreHeard-truncate agents n commands h.1)

AreHeard-write :
    (agents : List (String × HookAgentState)) (id : Uuid) (now : DateTime) (ack : ControlCommandAck)
    (commands : List ControlCommand)
    → AreHeard agents commands
    → AreHeard agents (write_command id (settle now ack) commands)
unfolding write_command settle
AreHeard-write agents id now ack [] h = tt
AreHeard-write agents id now ack (c ∷ commands) h = elim (Bool-cases (nat_beq c.command_id id)) [
  | inl hit ↦ rw hit (h.0, h.1)
  | inr miss ↦ rw miss (h.0, AreHeard-write agents id now ack commands h.1)
]

AreHeard-more :
    (agents agents' : List (String × HookAgentState)) (commands : List ControlCommand)
    → ((a : String) → is_controllable agents a ≡ true → is_controllable agents' a ≡ true)
    → AreHeard agents commands
    → AreHeard agents' commands
AreHeard-more agents agents' [] more h = tt
AreHeard-more agents agents' (c ∷ commands) more h =
    (more c.agent_id h.0, AreHeard-more agents agents' commands more h.1)

capable_after :
    (hook : RuntimeHookEnvelope) (o : Option HookAgentState)
    → capable_of o ≡ true
    → (apply_hook hook (value_or o (first_seen hook))).control_capable ≡ true
capable_after hook none h = cc
capable_after hook (some agent) h =
    ap (λ t. t.capable) (totals-value_or hook (some agent)) ∙ ground arith

module _ (floats : Floats) (config : RuntimeConfig) where
  accept_hook-controllable :
      (state : RuntimeState) (hook : RuntimeHookEnvelope) (a : String)
      → is_controllable state.hook_agents a ≡ true
      → is_controllable (accept_hook config state hook).hook_agents a ≡ true
  unfolding accept_hook is_controllable
  accept_hook-controllable state hook a h =
      rw map_get-map_insert (elim (Bool-cases (hook.agent.agent_id == a)) [
        | inr other ↦ rw other h
        | inl own ↦
            let e = (string_eq.is_same_iff hook.agent.agent_id a).0 own in
            rw own (capable_after hook (map_get hook.agent.agent_id state.hook_agents) (rw e h))
      ])

  collect_once-commands :
      (state : RuntimeState) (now : DateTime) (sample : Collected)
      → (collect_once floats state now sample).commands ≡ state.commands
  unfolding collect_once
  collect_once-commands state now (sampled snapshot) = refl
  collect_once-commands state now (failed error) = refl

  serve-AreHeard :
      (state : RuntimeState) (call : Call)
      → AreHeard state.hook_agents state.commands
      → AreHeard
          (serve floats config state call).hook_agents
          (serve floats config state call).commands
  unfolding new_command
  serve-AreHeard state call h =
      serve_elim floats config (λ s. AreHeard s.hook_agents s.commands) state call h
        (λ hook good new.
          AreHeard-more _ _ _ (accept_hook-controllable state hook) (unfold accept_hook in h))
        (λ id now request capable. AreHeard-truncate _ _ _ (capable, h))
        (λ now ack command hit own. AreHeard-write _ ack.command_id now ack state.commands h)
        (λ now sample. rw (collect_once-agents, collect_once-commands) h)

  -- After any run of the monitor from its start, every retained command is for an agent that said
  -- that it can be controlled.
  pub run_commands_heard :
      (calls : List Call)
      → AreHeard
          (run floats config new_state calls).hook_agents
          (run floats config new_state calls).commands
  run_commands_heard calls =
      run_induction floats config (λ s. AreHeard s.hook_agents s.commands) serve-AreHeard new_state
        calls tt
