-- ===== src/Runtime/Agents.antt =====
-- The agents of src/runtime/monitor.rs: their totals over a run, and hooks that arrive late.
use meta_agent_control_plane.Prelude.{
  ℕ, ◌+◌, ◌<◌, ◌≡◌, refl, ap, sym, ◌∙◌, String, Bool, true, false, ◌||◌, Option, none, some, List,
  [], ◌∷◌, ◌++◌, arith, Bool-cases, Option-cases, ok, err, if◌then◌else◌, inl, inr, Checked-cases,
  min, max, ◌==◌, string_eq, map_get, map_get-map_insert, leb,
}
use meta_agent_control_plane.Model.Numbers.{Uuid, DateTime, u64_max}
use meta_agent_control_plane.Runtime.Data.{
  RuntimeHookKind, RuntimeHookEnvelope, ControlCommandRequest, ControlCommandAck,
}
use meta_agent_control_plane.Runtime.Monitor.{
  RuntimeConfig, RuntimeState, HookAgentState, new_state, saturating_add, first_seen, apply_kind,
  update_current, apply_hook, value_or, accept_hook, ingest_hook, is_controllable, enqueue_command,
  find_command, acknowledge_command,
}
use meta_agent_control_plane.Runtime.Window.{accepted_state, refused_state}
use meta_agent_control_plane.Runtime.Validation.{validate_request, validate_ack}
use meta_agent_control_plane.Runtime.Sampling.{Floats, Collected, sampled, failed, collect_once}
use meta_agent_control_plane.Runtime.Run.{
  Call, hook_received, command_requested, command_acknowledged, collected, serve, run,
}

-- The totals that an agent has, if it is there.
pub record Totals : Type 0 where
  pub input_tokens : ℕ
  pub output_tokens : ℕ
  pub latest : DateTime
  pub capable : Bool

abbrev pub no_totals : Totals
no_totals = record { input_tokens = 0; output_tokens = 0; latest = 0; capable = false }

abbrev pub totals_of : HookAgentState → Totals
totals_of agent = record {
  input_tokens = agent.input_tokens;
  output_tokens = agent.output_tokens;
  latest = agent.last_hook_at;
  capable = agent.control_capable;
}

abbrev pub totals_at : Option HookAgentState → Totals
totals_at none = no_totals
totals_at (some agent) = totals_of agent

-- What a hook of the agent adds: the tokens, up to the greatest u64, its time if it is the latest,
-- and that the agent can be controlled.
abbrev pub add_hook : Totals → RuntimeHookEnvelope → Totals
add_hook t hook = record {
  input_tokens = min u64_max (t.input_tokens + hook.input_tokens_delta);
  output_tokens = min u64_max (t.output_tokens + hook.output_tokens_delta);
  latest = max t.latest hook.occurred_at;
  capable = t.capable || hook.control_capable;
}

totals-apply_kind :
    (kind : RuntimeHookKind) (tool_name : Option String) (agent : HookAgentState)
    → totals_of (apply_kind kind tool_name agent) ≡ totals_of agent
unfolding apply_kind
totals-apply_kind RuntimeHookKind.session_started tool_name agent = refl
totals-apply_kind RuntimeHookKind.heartbeat tool_name agent = refl
totals-apply_kind RuntimeHookKind.activity tool_name agent = refl
totals-apply_kind RuntimeHookKind.tool_started tool_name agent = refl
totals-apply_kind RuntimeHookKind.tool_finished tool_name agent = refl
totals-apply_kind RuntimeHookKind.model_response tool_name agent = refl
totals-apply_kind RuntimeHookKind.confidence_reported tool_name agent = refl
totals-apply_kind RuntimeHookKind.error_observed tool_name agent = refl
totals-apply_kind RuntimeHookKind.session_finished tool_name agent = refl

saturating_add-min : (a b : ℕ) → saturating_add a b ≡ min u64_max (a + b)
unfolding saturating_add
saturating_add-min a b = ground arith

max_late : (a b : ℕ) → leb a b ≡ false → a ≡ max a b
max_late a b h = ground arith

max_new : (a b : ℕ) → leb a b ≡ true → b ≡ max a b
max_new a b h = ground arith

totals-apply_hook :
    (hook : RuntimeHookEnvelope) (agent : HookAgentState)
    → totals_of (apply_hook hook agent) ≡ add_hook (totals_of agent) hook
unfolding apply_hook update_current
totals-apply_hook hook agent =
    rw (saturating_add-min agent.input_tokens, saturating_add-min agent.output_tokens)
      (elim (Bool-cases (leb agent.last_hook_at hook.occurred_at)) [
        | inl new ↦ rw (new, totals-apply_kind) (rw (← max_new _ _ new) refl)
        | inr late ↦ rw late (rw (← max_late _ _ late) refl)
      ])

totals-first_seen :
    (hook : RuntimeHookEnvelope)
    → totals_of (apply_hook hook (first_seen hook)) ≡ add_hook no_totals hook
unfolding first_seen
totals-first_seen hook = totals-apply_hook hook (first_seen hook) ∙ ground arith

pub totals-value_or :
    (hook : RuntimeHookEnvelope) (o : Option HookAgentState)
    → totals_of (apply_hook hook (value_or o (first_seen hook))) ≡ add_hook (totals_at o) hook
totals-value_or hook none = totals-first_seen hook
totals-value_or hook (some agent) = totals-apply_hook hook agent

-- The totals of an agent after the given hooks.
unfoldable pub totals_from : String → Totals → List RuntimeHookEnvelope → Totals
totals_from a t [] = t
totals_from a t (hook ∷ hooks) =
    totals_from a (if hook.agent.agent_id == a then add_hook t hook else t) hooks

totals_from-append :
    (a : String) (t : Totals) (l r : List RuntimeHookEnvelope)
    → totals_from a t (l ++ r) ≡ totals_from a (totals_from a t l) r
unfolding totals_from
totals_from-append a t [] r = refl
totals_from-append a t (hook ∷ l) r =
    totals_from-append a (if hook.agent.agent_id == a then add_hook t hook else t) l r

abbrev pub totals_in : String → RuntimeState → Totals
totals_in a state = totals_at (map_get a state.hook_agents)

-- An older hook leaves all but the token counts and whether the agent can be controlled.
pub record IsSameSituation (old new : HookAgentState) : Type 0 where
  pub agent : new.agent ≡ old.agent
  pub session_id : new.session_id ≡ old.session_id
  pub pid : new.pid ≡ old.pid
  pub status : new.status ≡ old.status
  pub current_activity : new.current_activity ≡ old.current_activity
  pub current_tool : new.current_tool ≡ old.current_tool
  pub reported_confidence : new.reported_confidence ≡ old.reported_confidence
  pub cpu_percent : new.cpu_percent ≡ old.cpu_percent
  pub rss_bytes : new.rss_bytes ≡ old.rss_bytes
  pub memory_percent : new.memory_percent ≡ old.memory_percent
  pub last_hook_at : new.last_hook_at ≡ old.last_hook_at

-- A hook that is older than the agent's last one leaves the agent's situation as it was: its
-- identity, session, process, status, activity, tool, confidence, resources and last hook.
pub late_hook_keeps_situation :
    (hook : RuntimeHookEnvelope) (agent : HookAgentState)
    → hook.occurred_at < agent.last_hook_at
    → IsSameSituation agent (apply_hook hook agent)
unfolding apply_hook
late_hook_keeps_situation hook agent late = ground arith

module _ (floats : Floats) (config : RuntimeConfig) where
  accept_hook-totals :
      (state : RuntimeState) (hook : RuntimeHookEnvelope) (a : String)
      → totals_in a (accept_hook config state hook) ≡ (
          if hook.agent.agent_id == a then add_hook (totals_in a state) hook else totals_in a state)
  unfolding accept_hook
  accept_hook-totals state hook a =
      rw map_get-map_insert (elim (Bool-cases (hook.agent.agent_id == a)) [
        | inr other ↦ rw other refl
        | inl own ↦
            let e = (string_eq.is_same_iff hook.agent.agent_id a).0 own in
            rw own
              (totals-value_or hook (map_get hook.agent.agent_id state.hook_agents) ∙ rw e refl)
      ])

  -- The hook that a call brings, if the monitor accepts it.
  unfoldable pub accepted_by : RuntimeState → Call → List RuntimeHookEnvelope
  accepted_by state (hook_received hook) = elim (ingest_hook config state hook).result [
    | ok ↦ hook ∷ []
    | err _ ↦ []
  ]
  accepted_by state _ = []

  -- The hooks that the monitor accepts in a run, in order.
  unfoldable pub accepted : RuntimeState → List Call → List RuntimeHookEnvelope
  accepted state [] = []
  accepted state (call ∷ calls) =
      accepted_by state call ++ accepted (serve floats config state call) calls

  enqueue_command-agents :
      (state : RuntimeState) (id : Uuid) (now : DateTime) (request : ControlCommandRequest)
      → (enqueue_command config state id now request).state.hook_agents ≡ state.hook_agents
  unfolding enqueue_command
  enqueue_command-agents state id now request = elim (Checked-cases (validate_request request)) [
    | inr (error, bad) ↦ rw (bad, enqueue_command) refl
    | inl good ↦ elim (Bool-cases (is_controllable state.hook_agents request.agent_id)) [
      | inl capable ↦ rw (good, enqueue_command) (rw capable refl)
      | inr deaf ↦ rw (good, enqueue_command) (rw deaf refl)
    ]
  ]

  acknowledge_command-agents :
      (state : RuntimeState) (now : DateTime) (ack : ControlCommandAck)
      → (acknowledge_command state now ack).state.hook_agents ≡ state.hook_agents
  unfolding acknowledge_command
  acknowledge_command-agents state now ack = elim (Checked-cases (validate_ack ack)) [
    | inr (error, bad) ↦ rw (bad, acknowledge_command) refl
    | inl good ↦ elim (Option-cases (find_command ack.command_id state.commands)) [
      | inl missing ↦ rw (good, acknowledge_command) (rw (missing, acknowledge_command) refl)
      | inr (command, hit) ↦ elim (Bool-cases (command.agent_id == ack.agent_id)) [
        | inl own ↦ rw (good, acknowledge_command) (rw (hit, acknowledge_command) (rw own refl))
        | inr other ↦ rw (good, acknowledge_command) (rw (hit, acknowledge_command) (rw other refl))
      ]
    ]
  ]

  pub collect_once-agents :
      (state : RuntimeState) (now : DateTime) (sample : Collected)
      → (collect_once floats state now sample).hook_agents ≡ state.hook_agents
  unfolding collect_once
  collect_once-agents state now (sampled snapshot) = refl
  collect_once-agents state now (failed error) = refl

  ingest_hook-totals :
      (state : RuntimeState) (hook : RuntimeHookEnvelope) (a : String)
      → totals_in a (ingest_hook config state hook).state
        ≡ totals_from a (totals_in a state) (accepted_by state (hook_received hook))
  unfolding accepted_by totals_from
  ingest_hook-totals state hook a = elim (Checked-cases (ingest_hook config state hook).result) [
    | inl good ↦
        rw (good, accepted_by)
          (rw (accepted_state floats config state hook good) (accept_hook-totals state hook a))
    | inr (error, bad) ↦
        rw (bad, accepted_by) (rw (refused_state floats config state hook error bad) refl)
  ]

  serve-totals :
      (state : RuntimeState) (call : Call) (a : String)
      → totals_in a (serve floats config state call)
        ≡ totals_from a (totals_in a state) (accepted_by state call)
  unfolding serve accepted_by totals_from
  serve-totals state (hook_received hook) a =
      unfold accepted_by totals_from in ingest_hook-totals state hook a
  serve-totals state (command_requested id now request) a = rw enqueue_command-agents refl
  serve-totals state (command_acknowledged now ack) a = rw acknowledge_command-agents refl
  serve-totals state (collected now sample) a = rw collect_once-agents refl

  run-totals :
      (state : RuntimeState) (calls : List Call) (a : String)
      → totals_in a (run floats config state calls)
        ≡ totals_from a (totals_in a state) (accepted state calls)
  unfolding run accepted totals_from
  run-totals state [] a = refl
  run-totals state (call ∷ calls) a =
      run-totals (serve floats config state call) calls a
      ∙ ap (λ t. totals_from a t (accepted (serve floats config state call) calls))
          (serve-totals state call a)
      ∙ sym (totals_from-append a (totals_in a state) (accepted_by state call) _)

  -- After any run of the monitor from its start, an agent's token counts are the sums of what its
  -- accepted hooks reported, up to the greatest u64, its last hook is the latest of them, and it can
  -- be controlled exactly when one of them said so.
  pub run_agent_totals :
      (calls : List Call) (a : String) (agent : HookAgentState)
      → map_get a (run floats config new_state calls).hook_agents ≡ some agent
      → totals_of agent ≡ totals_from a no_totals (accepted new_state calls)
  unfolding map_get
  run_agent_totals calls a agent found = rw found at (run-totals new_state calls a)
