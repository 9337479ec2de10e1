-- ===== src/Runtime/Snapshot.antt =====
-- `RuntimeMonitor::snapshot` of src/runtime/monitor.rs. Texts are compared by their code points.
use Prim.Native.Char.{code}
use meta_agent_control_plane.Prelude.{
  ℕ, ◌+◌, ◌%◌, ◌^◌, String, Bool, true, false, ◌&&◌, ◌||◌, not, Option, none, some, List, [], ◌∷◌,
  map, length, filter, ltb, nat_beq, nat_eq, string_eq, sort_by,
}
use meta_agent_control_plane.Model.Numbers.{DateTime}
use meta_agent_control_plane.Runtime.Data.{
  ControlCommand, RuntimeProcessTelemetry, RuntimeAgentTelemetry, RuntimeTotals, RuntimeSnapshot,
}
use meta_agent_control_plane.Runtime.Monitor.{RuntimeConfig, RuntimeState, truncate, is_pending}
use meta_agent_control_plane.Runtime.Sampling.{Floats}
use meta_agent_control_plane.Runtime.Rows.{Rows, is_some, agent_rows}

-- The order of `String`.
unfoldable pub text_ltb : String → String → Bool
text_ltb String.[] String.[] = false
text_ltb String.[] (String.◌∷◌ d t) = true
text_ltb (String.◌∷◌ c s) String.[] = false
text_ltb (String.◌∷◌ c s) (String.◌∷◌ d t) =
    ltb (code c) (code d) || (nat_beq (code c) (code d) && text_ltb s t)

abbrev pub is_earlier_row : String × RuntimeAgentTelemetry → String × RuntimeAgentTelemetry → Bool
is_earlier_row a b = text_ltb a.0 b.0

abbrev pub is_earlier_process : RuntimeProcessTelemetry → RuntimeProcessTelemetry → Bool
is_earlier_process a b = ltb a.pid b.pid

-- `agents.into_values()`.
unfoldable pub into_values : Rows → List RuntimeAgentTelemetry
into_values rows = map (λ (e : String × RuntimeAgentTelemetry). e.1) (sort_by is_earlier_row rows)

-- `sum` over u64, in the release build, where it wraps.
unfoldable pub wrapping_sum : ℕ → List ℕ → ℕ
wrapping_sum acc [] = acc
wrapping_sum acc (n ∷ l) = wrapping_sum ((acc + n) % 2 ^ 64) l

-- `filter_map` by a field.
unfoldable pub reported {ℓ} : {A B : Type ℓ} → (A → Option B) → List A → List B
reported field [] = []
reported field (a ∷ l) =
    let rest = reported field l in elim (field a) [ none ↦ rest | some b ↦ b ∷ rest ]

abbrev count {ℓ} : {A : Type ℓ} → (A → Bool) → List A → ℕ
count test l = length (filter test l)

unfoldable pub totals : Floats → List RuntimeAgentTelemetry → List ControlCommand → RuntimeTotals
totals floats agents commands = record {
  agents = length agents;
  process_backed_agents = count (λ (a : RuntimeAgentTelemetry). a.process_backed) agents;
  hook_backed_agents = count (λ (a : RuntimeAgentTelemetry). a.hook_backed) agents;
  cpu_percent = floats.sum (reported (λ (a : RuntimeAgentTelemetry). a.cpu_percent) agents);
  rss_bytes = wrapping_sum 0 (reported (λ (a : RuntimeAgentTelemetry). a.rss_bytes) agents);
  input_tokens = wrapping_sum 0 (map (λ (a : RuntimeAgentTelemetry). a.input_tokens) agents);
  output_tokens = wrapping_sum 0 (map (λ (a : RuntimeAgentTelemetry). a.output_tokens) agents);
  confidence_reported_agents =
      count (λ (a : RuntimeAgentTelemetry). is_some a.reported_confidence) agents;
  confidence_unreported_agents =
      count (λ (a : RuntimeAgentTelemetry). not (is_some a.reported_confidence)) agents;
  pending_commands = count (λ (c : ControlCommand). is_pending c.status) commands;
}

-- The flag of the collection and the time are arguments.
unfoldable pub snapshot : Floats → RuntimeConfig → RuntimeState → Bool → DateTime → RuntimeSnapshot
unfolding totals into_values agent_rows
snapshot floats config state enabled now =
    let agents = into_values (agent_rows state) in
    record {
      generated_at = now;
      collection = record {
        configured = config.process_collection_enabled;
        enabled = enabled;
        proc_root = config.proc_root;
        sample_interval_ms = config.sample_interval_ms;
        process_patterns = config.process_patterns;
        cpu_count = state.cpu_count;
        memory_total_bytes = state.memory_total_bytes;
        last_sample_at = state.last_sample_at;
        last_error = state.last_error;
        collection_errors = state.collection_errors;
      };
      totals = totals floats agents state.commands;
      agents = agents;
      processes =
          sort_by is_earlier_process
            (map (λ (e : ℕ × RuntimeProcessTelemetry). e.1) state.processes);
      recent_hooks = truncate 250 state.hooks;
      recent_commands = truncate 250 state.commands;
    }
