-- ===== src/Runtime/Monitor.antt =====
-- `RuntimeMonitor` of src/runtime/monitor.rs: its state, and the operations that change it or ask
-- for commands. A call holds the lock on the state from its first read to its last write. The time
-- of a call and the fresh id of a command are arguments.
use meta_agent_control_plane.Prelude.{
  ℕ, zero, suc, ◌+◌, String, Bool, true, false, ◌&&◌, ◌||◌, not, Option, none, some, List, [], ◌∷◌,
  filter, leb, nat_beq, nat_eq, ◌==◌, string_eq, if◌then◌else◌, Checked, ok, err, map_get,
  map_insert,
}
use meta_agent_control_plane.Model.Numbers.{Uuid, DateTime, F32, u64_max}
use meta_agent_control_plane.Runtime.Data.{
  F64, RuntimeAgentRef, RuntimeHookKind, RuntimeHookEnvelope, ControlStatus, ControlCommandRequest,
  ControlCommandAck, ControlCommand, RuntimeProcessTelemetry, RuntimeError, duplicate_hook,
  command_not_found, agent_not_hook_backed, command_agent_mismatch,
}
use meta_agent_control_plane.Runtime.Validation.{
  validate_text, validate_hook, validate_request, validate_ack,
}

-- `RuntimeConfig`.
pub record RuntimeConfig : Type 0 where
  pub process_collection_enabled : Bool
  pub proc_root : String
  pub sample_interval_ms : ℕ
  pub process_patterns : List String
  pub hook_capacity : ℕ
  pub command_capacity : ℕ

pub record HookAgentState : Type 0 where
  pub agent : RuntimeAgentRef
  pub session_id : Option String
  pub pid : Option ℕ
  pub status : String
  pub current_activity : Option String
  pub current_tool : Option String
  pub reported_confidence : Option F32
  pub cpu_percent : Option F64
  pub rss_bytes : Option ℕ
  pub memory_percent : Option F64
  pub control_capable : Bool
  pub input_tokens : ℕ
  pub output_tokens : ℕ
  pub last_hook_at : DateTime

-- The queues have their front first.
pub record RuntimeState : Type 0 where
  pub hooks : List RuntimeHookEnvelope
  pub hook_ids : List Uuid
  pub hook_agents : List (String × HookAgentState)
  pub commands : List ControlCommand
  pub processes : List (ℕ × RuntimeProcessTelemetry)
  pub previous_total_ticks : Option ℕ
  pub previous_process_ticks : List (ℕ × ℕ)
  pub cpu_count : ℕ
  pub memory_total_bytes : Option ℕ
  pub last_sample_at : Option DateTime
  pub last_error : Option String
  pub collection_errors : ℕ

-- The state of `RuntimeMonitor::new`.
abbrev pub new_state : RuntimeState
new_state = record {
  hooks = [];
  hook_ids = [];
  hook_agents = [];
  commands = [];
  processes = [];
  previous_total_ticks = none;
  previous_process_ticks = [];
  cpu_count = 0;
  memory_total_bytes = none;
  last_sample_at = none;
  last_error = none;
  collection_errors = 0;
}

-- `a.saturating_add(b)` on u64.
unfoldable pub saturating_add : ℕ → ℕ → ℕ
saturating_add a b = if leb (a + b) u64_max then a + b else u64_max

-- `queue.contains(&id)`.
unfoldable pub contains_id : Uuid → List Uuid → Bool
contains_id id [] = false
contains_id id (i ∷ ids) = nat_beq i id || contains_id id ids

-- `while queue.len() > capacity { queue.pop_back(); }`: the first elements are left.
unfoldable pub truncate {ℓ} : {A : Type ℓ} → ℕ → List A → List A
truncate zero l = []
truncate (suc n) [] = []
truncate (suc n) (x ∷ l) = x ∷ truncate n l

-- `if new.is_some() { old = new; }`.
abbrev pub or_old {ℓ} : {A : Type ℓ} → Option A → Option A → Option A
or_old none old = old
or_old (some a) old = some a

-- The agent of `or_insert_with`.
unfoldable pub first_seen : RuntimeHookEnvelope → HookAgentState
first_seen hook = record {
  agent = hook.agent;
  session_id = hook.session_id;
  pid = hook.pid;
  status = "observed";
  current_activity = none;
  current_tool = none;
  reported_confidence = none;
  cpu_percent = hook.cpu_percent;
  rss_bytes = hook.rss_bytes;
  memory_percent = hook.memory_percent;
  control_capable = hook.control_capable;
  input_tokens = 0;
  output_tokens = 0;
  last_hook_at = hook.occurred_at;
}

-- The `match` over the kind.
unfoldable pub apply_kind : RuntimeHookKind → Option String → HookAgentState → HookAgentState
apply_kind RuntimeHookKind.session_started tool_name agent = record agent { status = "running" }
apply_kind RuntimeHookKind.heartbeat tool_name agent = agent
apply_kind RuntimeHookKind.activity tool_name agent = record agent { status = "running" }
apply_kind RuntimeHookKind.model_response tool_name agent = record agent { status = "running" }
apply_kind RuntimeHookKind.tool_started tool_name agent = record agent {
  status = "running";
  current_tool = tool_name;
}
apply_kind RuntimeHookKind.tool_finished tool_name agent = record agent {
  status = "running";
  current_tool = none;
}
apply_kind RuntimeHookKind.confidence_reported tool_name agent = agent
apply_kind RuntimeHookKind.error_observed tool_name agent = record agent { status = "failed" }
apply_kind RuntimeHookKind.session_finished tool_name agent = record agent {
  status = "idle";
  current_tool = none;
}

-- The block under `if updates_current_state`.
unfoldable pub update_current : RuntimeHookEnvelope → HookAgentState → HookAgentState
unfolding apply_kind
update_current hook agent = apply_kind hook.kind hook.tool_name (record agent {
  agent = hook.agent;
  session_id = or_old hook.session_id agent.session_id;
  pid = or_old hook.pid agent.pid;
  last_hook_at = hook.occurred_at;
  reported_confidence = or_old hook.confidence agent.reported_confidence;
  cpu_percent = or_old hook.cpu_percent agent.cpu_percent;
  rss_bytes = or_old hook.rss_bytes agent.rss_bytes;
  memory_percent = or_old hook.memory_percent agent.memory_percent;
  current_activity = or_old hook.summary agent.current_activity;
})

-- The writes of `ingest_hook` to its agent: what always grows, then what only a hook that is not
-- older than the last one changes.
unfoldable pub apply_hook : RuntimeHookEnvelope → HookAgentState → HookAgentState
unfolding update_current saturating_add
apply_hook hook agent =
    let counted = record agent {
      input_tokens = saturating_add agent.input_tokens hook.input_tokens_delta;
      output_tokens = saturating_add agent.output_tokens hook.output_tokens_delta;
      control_capable = agent.control_capable || hook.control_capable;
    } in
    if leb agent.last_hook_at hook.occurred_at then update_current hook counted else counted

abbrev pub value_or {ℓ} : {A : Type ℓ} → Option A → A → A
value_or none fallback = fallback
value_or (some a) fallback = a

-- The state after a call, with its result.
pub record Called (A : Type 0) : Type 0 where
  pub state : RuntimeState
  pub result : A

pub data Outcome (A : Type 0) : Type 0 where
  done : A → Outcome A
  refused : RuntimeError → Outcome A

-- The part of `ingest_hook` after the tests.
unfoldable pub accept_hook : RuntimeConfig → RuntimeState → RuntimeHookEnvelope → RuntimeState
unfolding apply_hook first_seen
accept_hook config state hook =
    let key = hook.agent.agent_id in
    let agent = value_or (map_get key state.hook_agents) (first_seen hook) in
    record state {
      hook_agents = map_insert key (apply_hook hook agent) state.hook_agents;
      hooks = truncate config.hook_capacity (hook ∷ state.hooks);
      hook_ids = truncate config.hook_capacity (hook.event_id ∷ state.hook_ids);
    }

unfoldable pub ingest_hook :
    RuntimeConfig → RuntimeState → RuntimeHookEnvelope → Called (Checked RuntimeError)
ingest_hook config state hook = elim (validate_hook hook) [
  | err error ↦ record { state = state; result = err error }
  | ok ↦
      if contains_id hook.event_id state.hook_ids
      then record { state = state; result = err duplicate_hook }
      else record { state = accept_hook config state hook; result = ok }
]

abbrev pub capable_of : Option HookAgentState → Bool
capable_of none = false
capable_of (some agent) = agent.control_capable

-- `hook_agents.get(id).is_some_and(|agent| agent.control_capable)`.
unfoldable pub is_controllable : List (String × HookAgentState) → String → Bool
is_controllable agents agent_id = capable_of (map_get agent_id agents)

unfoldable pub new_command : Uuid → DateTime → ControlCommandRequest → ControlCommand
new_command command_id now request = record {
  command_id = command_id;
  created_at = now;
  agent_id = request.agent_id;
  action = request.action;
  status = ControlStatus.pending;
  acknowledged_at = none;
  message = none;
}

unfoldable pub enqueue_command :
    RuntimeConfig
    → RuntimeState
    → Uuid
    → DateTime
    → ControlCommandRequest
    → Called (Outcome ControlCommand)
unfolding new_command
enqueue_command config state command_id now request = elim (validate_request request) [
  | err error ↦ record { state = state; result = refused error }
  | ok ↦
      let command = new_command command_id now request in
      if not (is_controllable state.hook_agents request.agent_id)
      then record { state = state; result = refused agent_not_hook_backed }
      else record {
        state = record state {
          commands = truncate config.command_capacity (command ∷ state.commands);
        };
        result = done command;
      }
]

abbrev pub is_pending : ControlStatus → Bool
is_pending ControlStatus.pending = true
is_pending _ = false

unfoldable pub pending_for : String → List ControlCommand → List ControlCommand
pending_for agent_id commands =
    filter (λ command. command.agent_id == agent_id && is_pending command.status) commands

unfoldable pub pending_commands : RuntimeState → String → Outcome (List ControlCommand)
unfolding pending_for
pending_commands state agent_id = elim (validate_text "agent_id" agent_id 256) [
  | err error ↦ refused error
  | ok ↦ done (pending_for agent_id state.commands)
]

-- `commands.iter_mut().find(..)`: the first command with the id, as it is.
unfoldable pub find_command : Uuid → List ControlCommand → Option ControlCommand
find_command id [] = none
find_command id (command ∷ commands) =
    if nat_beq command.command_id id then some command else find_command id commands

-- The write through the reference that `find` returns.
unfoldable pub write_command :
    Uuid → (ControlCommand → ControlCommand) → List ControlCommand → List ControlCommand
write_command id write [] = []
write_command id write (command ∷ commands) =
    if nat_beq command.command_id id
    then write command ∷ commands
    else command ∷ write_command id write commands

unfoldable pub settle : DateTime → ControlCommandAck → ControlCommand → ControlCommand
settle now ack command = record command {
  status = if ack.accepted then ControlStatus.acknowledged else ControlStatus.rejected;
  acknowledged_at = some now;
  message = ack.message;
}

unfoldable pub acknowledge_command :
    RuntimeState → DateTime → ControlCommandAck → Called (Outcome ControlCommand)
acknowledge_command state now ack = elim (validate_ack ack) [
  | err error ↦ record { state = state; result = refused error }
  | ok ↦ elim (find_command ack.command_id state.commands) [
    | none ↦ record { state = state; result = refused command_not_found }
    | some command ↦
        if not (command.agent_id == ack.agent_id)
        then record { state = state; result = refused command_agent_mismatch }
        else record {
          state = record state {
            commands = write_command ack.command_id (settle now ack) state.commands;
          };
          result = done (settle now ack command);
        }
  ]
]
