-- ===== src/Runtime/Run.antt =====
-- Runs of the monitor of src/runtime/monitor.rs: the calls that change its state, in the order in
-- which they take the lock.
use meta_agent_control_plane.Prelude.{
  ◌≡◌, inl, inr, true, false, some, List, [], ◌∷◌, Bool-cases, Option-cases, Checked-cases, ok,
  ◌==◌, string_eq,
}
use meta_agent_control_plane.Model.Numbers.{Uuid, DateTime}
use meta_agent_control_plane.Runtime.Data.{
  RuntimeHookEnvelope, ControlCommandRequest, ControlCommandAck, ControlCommand,
}
use meta_agent_control_plane.Runtime.Validation.{validate_hook, validate_request, validate_ack}
use meta_agent_control_plane.Runtime.Sampling.{Floats, Collected, collect_once}
use meta_agent_control_plane.Runtime.Monitor.{
  RuntimeConfig, RuntimeState, contains_id, accept_hook, ingest_hook, is_controllable, new_command,
  truncate, enqueue_command, find_command, write_command, settle, acknowledge_command,
}

-- A hook; a request with the fresh id of its command and the time; an acknowledgement with the time;
-- what the collector read, with the time.
pub data Call : Type 0 where
  hook_received : RuntimeHookEnvelope → Call
  command_requested : Uuid → DateTime → ControlCommandRequest → Call
  command_acknowledged : DateTime → ControlCommandAck → Call
  collected : DateTime → Collected → Call

module _ (floats : Floats) (config : RuntimeConfig) where
  unfoldable pub serve : RuntimeState → Call → RuntimeState
  serve state (hook_received hook) = (ingest_hook config state hook).state
  serve state (command_requested id now request) =
      (enqueue_command config state id now request).state
  serve state (command_acknowledged now ack) = (acknowledge_command state now ack).state
  serve state (collected now sample) = collect_once floats state now sample

  unfoldable pub run : RuntimeState → List Call → RuntimeState
  run state [] = state
  run state (call ∷ calls) = run (serve state call) calls

  -- The state after a command is queued.
  abbrev pub queued : RuntimeState → ControlCommand → RuntimeState
  queued state command = record state {
    commands = truncate config.command_capacity (command ∷ state.commands);
  }

  -- The state after a command is settled.
  abbrev pub settled : RuntimeState → DateTime → ControlCommandAck → RuntimeState
  settled state now ack = record state {
    commands = write_command ack.command_id (settle now ack) state.commands;
  }

  -- A call leaves the state as it was, accepts a new hook, queues a command for an agent that is
  -- controllable, settles a command of the agent that acknowledges it, or takes a sample.
  pub serve_elim :
      (P : RuntimeState → Type 0) (state : RuntimeState) (call : Call)
      → P state
      → ((hook : RuntimeHookEnvelope)
          → validate_hook hook ≡ ok
          → contains_id hook.event_id state.hook_ids ≡ false
          → P (accept_hook config state hook))
      → ((id : Uuid) (now : DateTime) (request : ControlCommandRequest)
          → is_controllable state.hook_agents request.agent_id ≡ true
          → P (queued state (new_command id now request)))
      → ((now : DateTime) (ack : ControlCommandAck) (command : ControlCommand)
          → find_command ack.command_id state.commands ≡ some command
          → command.agent_id ≡ ack.agent_id
          → P (settled state now ack))
      → ((now : DateTime) (sample : Collected) → P (collect_once floats state now sample))
      → P (serve state call)
  unfolding serve ingest_hook enqueue_command acknowledge_command
  serve_elim P state (hook_received hook) stays accepts queues settles samples =
      elim (Checked-cases (validate_hook hook)) [
        | inr (error, bad) ↦ rw (bad, serve) stays
        | inl good ↦ elim (Bool-cases (contains_id hook.event_id state.hook_ids)) [
          | inl old ↦ rw (good, serve) (rw old stays)
          | inr new ↦ rw (good, serve) (rw new (accepts hook good new))
        ]
      ]
  serve_elim P state (command_requested id now request) stays accepts queues settles samples =
      elim (Checked-cases (validate_request request)) [
        | inr (error, bad) ↦ rw (bad, serve) stays
        | inl good ↦ elim (Bool-cases (is_controllable state.hook_agents request.agent_id)) [
          | inl capable ↦ rw (good, serve) (rw capable (queues id now request capable))
          | inr deaf ↦ rw (good, serve) (rw deaf stays)
        ]
      ]
  serve_elim P state (command_acknowledged now ack) stays accepts queues settles samples =
      elim (Checked-cases (validate_ack ack)) [
        | inr (error, bad) ↦ rw (bad, serve) stays
        | inl good ↦ elim (Option-cases (find_command ack.command_id state.commands)) [
          | inl missing ↦ rw (good, serve) (rw (missing, serve) stays)
          | inr (command, hit) ↦ elim (Bool-cases (command.agent_id == ack.agent_id)) [
            | inl own ↦
                rw (good, serve)
                  (rw (hit, serve)
                    (rw own (settles now ack command hit ((string_eq.is_same_iff _ _).0 own))))
            | inr other ↦ rw (good, serve) (rw (hit, serve) (rw other stays))
          ]
        ]
      ]
  serve_elim P state (collected now sample) stays accepts queues settles samples =
      samples now sample

  -- What every call keeps, a run keeps.
  pub run_induction :
      (P : RuntimeState → Type 0)
      → ((state : RuntimeState) (call : Call) → P state → P (serve state call))
      → (state : RuntimeState) (calls : List Call) → P state
      → P (run state calls)
  unfolding run
  run_induction P step state [] p = p
  run_induction P step state (call ∷ calls) p =
      run_induction P step (serve state call) calls (step state call p)
