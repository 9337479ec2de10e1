-- ===== src/Runtime/Tests.antt =====
-- Runs of the monitor of src/runtime/monitor.rs on sample calls, and the theorems at them.
use meta_agent_control_plane.Prelude.{
  ℕ, ◌≡◌, ◌↔◌, refl, String, true, false, Option, none, some, List, [], ◌∷◌, map, ok, err, arith,
  map_get, map_insert, string_eq, filter, sort_by, ◌%◌, ◌^◌,
}
use meta_agent_control_plane.Model.Numbers
use meta_agent_control_plane.Model.Numbers.{Uuid, DateTime}
use meta_agent_control_plane.Model.Validation
use meta_agent_control_plane.Runtime.Data
use meta_agent_control_plane.Runtime.Data.{
  RuntimeHookKind, RuntimeHookEnvelope, ControlAction, ControlStatus, ControlCommand,
  ControlCommandAck, RuntimeAgentRef, RuntimeAgentTelemetry,
}
use meta_agent_control_plane.Runtime.Validation as Checks
use meta_agent_control_plane.Runtime.Monitor
use meta_agent_control_plane.Runtime.Monitor.{RuntimeConfig, RuntimeState, HookAgentState, done}
use mathlib.Core.List.{Mem}
use meta_agent_control_plane.Runtime.Sampling
use meta_agent_control_plane.Runtime.Sampling.{Floats, RawProcSnapshot, sampled}
use meta_agent_control_plane.Runtime.Snapshot.{snapshot, wrapping_sum, text_ltb}
use meta_agent_control_plane.Runtime.Shown.{Shows, snapshot_has_agent}
use meta_agent_control_plane.Runtime.Sums.{sum_values, snapshot_token_totals}
use meta_agent_control_plane.Runtime.Run.{
  Call, hook_received, command_requested, collected, serve, run,
}
use meta_agent_control_plane.Runtime.Accepts.{IsHook, validate_hook_iff}
use meta_agent_control_plane.Runtime.Tidy.{IsDistinct, IsTidy, run-IsTidy}
use meta_agent_control_plane.Runtime.Window.{recent_hook_refused}
use meta_agent_control_plane.Runtime.Agents.{
  totals_of, no_totals, totals_from, accepted, run_agent_totals, IsSameSituation,
  late_hook_keeps_situation,
}
use meta_agent_control_plane.Runtime.Commands.{AreHeard, run_commands_heard}
use meta_agent_control_plane.Runtime.Lifecycle.{command_key, others, acknowledged_is_settled}

-- A float that stands for every result: the tests sample no processor time.
abbrev floats : Floats
floats = record { from_u64 = λ n. n; div = λ a b. 0; mul = λ a b. 0; sum = λ l. 0 }

abbrev config : RuntimeConfig
config = record {
  process_collection_enabled = true;
  proc_root = "/proc";
  sample_interval_ms = 250;
  process_patterns = [];
  hook_capacity = 16;
  command_capacity = 16;
}

abbrev hook : Uuid → DateTime → RuntimeHookKind → ℕ → List (String × String) → RuntimeHookEnvelope
hook id at kind tokens metadata = record {
  protocol_version = "v1";
  event_id = id;
  occurred_at = at;
  agent = record {
    agent_id = "agent-a";
    provider = "anthropic";
    model = "claude";
    instance_id = none;
  };
  session_id = none;
  pid = some 42;
  kind = kind;
  control_capable = true;
  summary = none;
  tool_name = some "shell";
  confidence = none;
  cpu_percent = none;
  rss_bytes = none;
  memory_percent = none;
  input_tokens_delta = tokens;
  output_tokens_delta = 1;
  metadata = metadata;
}

abbrev started : RuntimeHookEnvelope
started = hook 1 10 RuntimeHookKind.tool_started 5 []

abbrev older : RuntimeHookEnvelope
older = hook 2 9 RuntimeHookKind.session_finished 7 []

abbrev ack : ControlCommandAck
ack = record { command_id = 100; agent_id = "agent-a"; accepted = false; message = none }

abbrev calls : List Call
calls =
    hook_received started
    ∷ hook_received older
    ∷ hook_received started
    ∷ command_requested 100 11 (record { agent_id = "agent-a"; action = ControlAction.pause })
    ∷ command_requested 101 12 (record { agent_id = "agent-b"; action = ControlAction.stop })
    ∷ command_requested 102 13 (record { agent_id = "agent-a"; action = ControlAction.resume })
    ∷ []

program : Unit {0}
unfolding Validation.is_whitespace Validation.is_blank Numbers.is_finite Numbers.in_unit_range
    Checks.validate_text Checks.validate_optional_text Checks.is_finite_f64 Checks.in_range_f64
    Checks.trim_start Checks.trim_end Checks.to_ascii_lowercase Checks.starts_with
    Checks.contains_text Checks.normalized_key Checks.is_forbidden_key
    Checks.validate_metadata_entries Checks.validate_hook Checks.validate_request
    Checks.validate_ack Monitor.saturating_add Monitor.contains_id Monitor.truncate
    Monitor.first_seen Monitor.apply_kind Monitor.update_current Monitor.apply_hook
    Monitor.accept_hook Monitor.ingest_hook Monitor.is_controllable Monitor.new_command
    Monitor.enqueue_command Monitor.pending_for Monitor.find_command Monitor.write_command
    Monitor.settle Monitor.acknowledge_command map_get map_insert filter serve run
program = tt

-- A key that hides a forbidden fragment behind white space and capitals.
hidden_key :
    Checks.validate_hook (hook 3 10 RuntimeHookKind.heartbeat 0 (("  API_Key ", "x") ∷ []))
    ≡ err Data.forbidden_metadata_key
unfolding program
hidden_key = refl

admitted : Checks.validate_hook started ≡ ok
unfolding program
admitted = refl

validate_hook_iff_example : (Checks.validate_hook started ≡ ok) ↔ IsHook started
validate_hook_iff_example = validate_hook_iff started

after : RuntimeState
after = run floats config Monitor.new_state calls

run-IsTidy_example : IsTidy config (run floats config Monitor.new_state calls)
run-IsTidy_example = run-IsTidy floats config calls

first_accepted : (Monitor.ingest_hook config Monitor.new_state started).result ≡ ok
unfolding program
first_accepted = refl

recent_hook_refused_example :
    let later =
      run floats config (Monitor.ingest_hook config Monitor.new_state started).state calls in
    ((Monitor.ingest_hook config later started).result ≡ err Data.duplicate_hook)
    × ((Monitor.ingest_hook config later started).state ≡ later)
recent_hook_refused_example =
    recent_hook_refused floats config Monitor.new_state started started calls first_accepted
      (omega arith) refl admitted

abbrev agent_a : HookAgentState
agent_a = record {
  agent = started.agent;
  session_id = none;
  pid = some 42;
  status = "running";
  current_activity = none;
  current_tool = some "shell";
  reported_confidence = none;
  cpu_percent = none;
  rss_bytes = none;
  memory_percent = none;
  control_capable = true;
  input_tokens = 12;
  output_tokens = 2;
  last_hook_at = 10;
}

-- The older hook counts its tokens and does not end the session.
found_a : map_get "agent-a" (run floats config Monitor.new_state calls).hook_agents ≡ some agent_a
unfolding program
found_a = refl

run_agent_totals_example :
    totals_of agent_a
    ≡ totals_from "agent-a" no_totals (accepted floats config Monitor.new_state calls)
run_agent_totals_example = run_agent_totals floats config calls "agent-a" agent_a found_a

late_hook_keeps_situation_example : IsSameSituation agent_a (Monitor.apply_hook older agent_a)
late_hook_keeps_situation_example = late_hook_keeps_situation older agent_a (omega arith)

run_commands_heard_example :
    AreHeard
      (run floats config Monitor.new_state calls).hook_agents
      (run floats config Monitor.new_state calls).commands
run_commands_heard_example = run_commands_heard floats config calls

abbrev command : Uuid → DateTime → ControlAction → ControlStatus → Option DateTime → ControlCommand
command id at action status settled_at = record {
  command_id = id;
  created_at = at;
  agent_id = "agent-a";
  action = action;
  status = status;
  acknowledged_at = settled_at;
  message = none;
}

abbrev waiting : RuntimeState
waiting = record Monitor.new_state {
  commands =
      command 102 13 ControlAction.resume ControlStatus.pending none
      ∷ command 100 11 ControlAction.pause ControlStatus.pending none
      ∷ [];
}

same_commands : (run floats config Monitor.new_state calls).commands ≡ waiting.commands
unfolding program
same_commands = refl

paused : ControlCommand
paused = command 100 11 ControlAction.pause ControlStatus.rejected (some 20)

settles : (Monitor.acknowledge_command waiting 20 ack).result ≡ done paused
unfolding program paused
settles = refl

distinct : IsDistinct (map command_key waiting.commands)
unfolding program
distinct = (refl, (refl, tt))

acknowledged_is_settled_example :
    let left = (Monitor.acknowledge_command waiting 20 ack).state.commands in
    (Monitor.find_command 100 left ≡ some paused)
    × (Monitor.is_pending paused.status ≡ false)
    × ((a : String)
        → Monitor.pending_for a left ≡ others 100 (Monitor.pending_for a waiting.commands))
acknowledged_is_settled_example = acknowledged_is_settled waiting 20 ack paused distinct settles

-- The process of the agent, as the collector reads it.
abbrev raw : RawProcSnapshot
raw = record {
  total_ticks = 1000;
  cpu_count = 2;
  memory_total_bytes = none;
  processes =
      record {
        pid = 42;
        provider = "anthropic";
        process_name = "claude";
        matched_pattern = "claude";
        process_state = "S";
        process_ticks = 10;
        rss_bytes = 4096;
      }
      ∷ [];
}

abbrev watched : List Call
watched = collected 5 (sampled raw) ∷ calls

sampling : Unit {0}
unfolding program Sampling.collect_once Sampling.apply_proc_snapshot Sampling.sample_all
    Sampling.process_telemetry Sampling.cpu_percent Sampling.memory_percent Sampling.checked_sub
sampling = tt

watched_a :
    map_get "agent-a" (run floats config Monitor.new_state watched).hook_agents ≡ some agent_a
unfolding sampling
watched_a = refl

snapshot_has_agent_example :
    (row : RuntimeAgentTelemetry) × Mem row
      (snapshot floats config (run floats config Monitor.new_state watched) true 20).agents
    × Shows "agent-a" agent_a
        (totals_from "agent-a" no_totals (accepted floats config Monitor.new_state watched))
        row
snapshot_has_agent_example =
    snapshot_has_agent floats config watched true 20 "agent-a" agent_a watched_a

-- Another agent, with as many tokens as a u64 holds.
abbrev greedy : RuntimeHookEnvelope
greedy = record (hook 7 10 RuntimeHookKind.model_response Numbers.u64_max []) {
  agent = record started.agent { agent_id = "agent-b" };
  pid = none;
}

abbrev overflowing : List Call
overflowing = hook_received greedy ∷ hook_received started ∷ []

wrapped :
    (snapshot floats config
      (run floats config Monitor.new_state overflowing)
      true
      20).totals.input_tokens
    ≡ 4
unfolding program snapshot wrapping_sum sort_by text_ltb
wrapped = refl

snapshot_token_totals_example :
    let state = run floats config Monitor.new_state overflowing in
    let shown = (snapshot floats config state true 20).totals in
    (shown.input_tokens
      ≡ sum_values (λ (h : HookAgentState). h.input_tokens) state.hook_agents % 2 ^ 64)
    × (shown.output_tokens
        ≡ sum_values (λ (h : HookAgentState). h.output_tokens) state.hook_agents % 2 ^ 64)
snapshot_token_totals_example = snapshot_token_totals floats config overflowing true 20
