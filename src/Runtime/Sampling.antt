-- ===== src/Runtime/Sampling.antt =====
-- The sampling of processes in src/runtime/monitor.rs: what `collect_once` does with what the
-- collector read. The arithmetic of f64 is a parameter.
use meta_agent_control_plane.Prelude.{
  ℕ, ◌-◌, String, Option, none, some, List, [], ◌∷◌, leb, ltb, nat_beq, nat_eq, if◌then◌else◌,
  map_get, map_insert, max,
}
use meta_agent_control_plane.Model.Numbers.{DateTime, saturating_suc}
use meta_agent_control_plane.Runtime.Data.{F64, RuntimeProcessTelemetry}
use meta_agent_control_plane.Runtime.Monitor.{RuntimeState}

-- `RawProcess` and `RawProcSnapshot` of src/runtime/collector.rs.
pub record RawProcess : Type 0 where
  pub pid : ℕ
  pub provider : String
  pub process_name : String
  pub matched_pattern : String
  pub process_state : String
  pub process_ticks : ℕ
  pub rss_bytes : ℕ

pub record RawProcSnapshot : Type 0 where
  pub total_ticks : ℕ
  pub cpu_count : ℕ
  pub memory_total_bytes : Option ℕ
  pub processes : List RawProcess

-- The operations of f64 that the monitor uses, on bit patterns.
pub record Floats : Type 0 where
  pub from_u64 : ℕ → F64
  pub div : F64 → F64 → F64
  pub mul : F64 → F64 → F64
  pub sum : List F64 → F64

-- `a.checked_sub(b)`.
unfoldable pub checked_sub : ℕ → ℕ → Option ℕ
checked_sub a b = if leb b a then some (a - b) else none

infixl 5 ◌>>=◌
abbrev ◌>>=◌ : {A B : Type 0} → Option A → (A → Option B) → Option B
none >>= f = none
some a >>= f = f a

module _ (floats : Floats) where
  open floats use {from_u64, div, mul}

  -- The share of the ticks since the last sample that the process used, over all processors.
  unfoldable pub cpu_percent : ℕ → List (ℕ × ℕ) → Option ℕ → RawProcess → Option F64
  unfolding checked_sub
  cpu_percent cpu_count previous_ticks total_delta process = do
    total ← total_delta
    total' ← if nat_beq total 0 then none else some total
    previous ← map_get process.pid previous_ticks
    process_delta ← checked_sub process.process_ticks previous
    some (
        mul (mul (div (from_u64 process_delta) (from_u64 total')) (from_u64 (max cpu_count 1)))
          (from_u64 100))

  unfoldable pub memory_percent : Option ℕ → RawProcess → Option F64
  memory_percent memory_total process = do
    total ← memory_total
    if ltb 0 total
        then some (mul (div (from_u64 process.rss_bytes) (from_u64 total)) (from_u64 100))
        else none

  unfoldable pub process_telemetry :
      DateTime → RawProcSnapshot → List (ℕ × ℕ) → Option ℕ → RawProcess → RuntimeProcessTelemetry
  unfolding cpu_percent memory_percent
  process_telemetry observed_at snapshot previous_ticks total_delta process = record {
    pid = process.pid;
    provider = process.provider;
    process_name = process.process_name;
    matched_pattern = process.matched_pattern;
    process_state = process.process_state;
    cpu_percent = cpu_percent snapshot.cpu_count previous_ticks total_delta process;
    rss_bytes = process.rss_bytes;
    memory_percent = memory_percent snapshot.memory_total_bytes process;
    observed_at = observed_at;
  }

  -- The loop over the processes, from two maps.
  unfoldable pub sample_all :
      (RawProcess → RuntimeProcessTelemetry)
      → List (ℕ × ℕ) × List (ℕ × RuntimeProcessTelemetry)
      → List RawProcess
      → List (ℕ × ℕ) × List (ℕ × RuntimeProcessTelemetry)
  sample_all telemetry maps [] = maps
  sample_all telemetry (next_previous, processes) (process ∷ rest) =
      sample_all telemetry
        (
          map_insert process.pid process.process_ticks next_previous,
          map_insert process.pid (telemetry process) processes,
        )
        rest

  unfoldable pub apply_proc_snapshot : RuntimeState → DateTime → RawProcSnapshot → RuntimeState
  unfolding process_telemetry sample_all checked_sub
  apply_proc_snapshot state observed_at snapshot =
      let total_delta =
        state.previous_total_ticks >>= λ previous. checked_sub snapshot.total_ticks previous in
      let telemetry =
        process_telemetry observed_at snapshot state.previous_process_ticks total_delta in
      let (next_previous, processes) = sample_all telemetry ([], []) snapshot.processes in
      record state {
        previous_total_ticks = some snapshot.total_ticks;
        previous_process_ticks = next_previous;
        processes = processes;
        cpu_count = snapshot.cpu_count;
        memory_total_bytes = snapshot.memory_total_bytes;
        last_sample_at = some observed_at;
        last_error = none;
      }

-- `record_collection_error`.
unfoldable pub record_collection_error : RuntimeState → String → RuntimeState
record_collection_error state error = record state {
  collection_errors = saturating_suc state.collection_errors;
  last_error = some error;
}

-- What the collector's task gives: a snapshot or an error's text.
pub data Collected : Type 0 where
  sampled : RawProcSnapshot → Collected
  failed : String → Collected

unfoldable pub collect_once : Floats → RuntimeState → DateTime → Collected → RuntimeState
unfolding apply_proc_snapshot record_collection_error
collect_once floats state now (sampled snapshot) = apply_proc_snapshot floats state now snapshot
collect_once floats state now (failed error) = record_collection_error state error
