-- ===== src/Runtime/Rows.antt =====
-- The agents that `RuntimeMonitor::snapshot` of src/runtime/monitor.rs shows: those of the sampled
-- processes, then those known from hooks. A `BTreeMap` is a keyed map that is sorted by its keys where
-- the program goes through it.
use Prim.Native.String as Texts
use meta_agent_control_plane.Prelude.{
  ℕ, zero, suc, ◌/◌, ◌%◌, String, Bool, true, false, ◌||◌, Option, none, some, List, [], ◌∷◌, ltb,
  nat_eq, string_eq, ◌==◌, if◌then◌else◌, map_get, map_insert,
}
use meta_agent_control_plane.Runtime.Data.{RuntimeProcessTelemetry, RuntimeAgentTelemetry}
use meta_agent_control_plane.Runtime.Monitor.{RuntimeState, HookAgentState, or_old, value_or}

-- The decimal digits of a number.
digit : ℕ → String
digit n =
    if n == 0
    then "0"
    else if n == 1
    then "1"
    else if n == 2
    then "2"
    else if n == 3
    then "3"
    else if n == 4
    then "4"
    else if n == 5
    then "5"
    else if n == 6
    then "6"
    else if n == 7
    then "7"
    else if n == 8
    then "8"
    else "9"

decimal : ℕ → ℕ → String
unfolding digit
decimal zero n = ""
decimal (suc places) n =
    let higher = Texts.◌++◌ (decimal places (n / 10)) (digit (n % 10)) in
    if ltb n 10 then digit n else higher

-- `format!("process:{}:{}", provider, pid)`: a u32 has at most ten digits.
unfoldable pub process_agent_id : String → ℕ → String
unfolding decimal
process_agent_id provider pid =
    Texts.◌++◌ (Texts.◌++◌ "process:" provider) (Texts.◌++◌ ":" (decimal 10 pid))

-- `process_state_label`.
unfoldable pub process_state_label : String → String
process_state_label state =
    if state == "R"
    then "running"
    else if state == "S" || state == "D" || state == "I"
    then "waiting"
    else if state == "T" || state == "t"
    then "stopped"
    else if state == "Z"
    then "zombie"
    else if state == "X" || state == "x"
    then "dead"
    else "observed"

abbrev pub Rows : Type 0
Rows = List (String × RuntimeAgentTelemetry)

abbrev pub Processes : Type 0
Processes = List (ℕ × RuntimeProcessTelemetry)

abbrev pub HookAgents : Type 0
HookAgents = List (String × HookAgentState)

abbrev note_pid : Option ℕ → String → List (ℕ × String) → List (ℕ × String)
note_pid none agent_id ids = ids
note_pid (some pid) agent_id ids = map_insert pid agent_id ids

-- `process_agent_ids`: of two agents with one process, the later in the order of the map stands.
unfoldable pub process_agent_ids : HookAgents → List (ℕ × String) → List (ℕ × String)
process_agent_ids [] ids = ids
process_agent_ids ((key, agent) ∷ entries) ids =
    process_agent_ids entries (note_pid agent.pid agent.agent.agent_id ids)

-- The agent that stands for a process.
unfoldable pub process_row : String → RuntimeProcessTelemetry → RuntimeAgentTelemetry
process_row agent_id process = record {
  agent_id = agent_id;
  provider = process.provider;
  model = "unreported";
  instance_id = none;
  session_id = none;
  pid = some process.pid;
  status = process_state_label process.process_state;
  current_activity = none;
  current_tool = none;
  reported_confidence = none;
  confidence_source = "unreported";
  cpu_percent = process.cpu_percent;
  rss_bytes = some process.rss_bytes;
  memory_percent = process.memory_percent;
  resource_source = "host_process";
  input_tokens = 0;
  output_tokens = 0;
  process_backed = true;
  hook_backed = false;
  control_capable = false;
  last_hook_at = none;
  last_process_sample_at = some process.observed_at;
}

-- The first loop.
unfoldable pub process_rows : List (ℕ × String) → Processes → Rows → Rows
unfolding process_row process_agent_id
process_rows ids [] rows = rows
process_rows ids ((key, process) ∷ processes) rows =
    let id = value_or (map_get process.pid ids) (process_agent_id process.provider process.pid) in
    process_rows ids processes (map_insert id (process_row id process) rows)

abbrev pub is_some {ℓ} : {A : Type ℓ} → Option A → Bool
is_some none = false
is_some (some a) = true

abbrev source_of {ℓ} : {A : Type ℓ} → Option A → String
source_of o = if is_some o then "hook" else "unreported"

-- The closure of `and_modify`.
unfoldable pub modify_row : HookAgentState → RuntimeAgentTelemetry → RuntimeAgentTelemetry
modify_row h row = record row {
  provider = h.agent.provider;
  model = h.agent.model;
  instance_id = h.agent.instance_id;
  session_id = h.session_id;
  pid = or_old h.pid row.pid;
  status = h.status;
  current_activity = h.current_activity;
  current_tool = h.current_tool;
  reported_confidence = h.reported_confidence;
  confidence_source = source_of h.reported_confidence;
  input_tokens = h.input_tokens;
  output_tokens = h.output_tokens;
  hook_backed = true;
  control_capable = h.control_capable;
  last_hook_at = some h.last_hook_at;
}

abbrev and_then {ℓ} : {A B : Type ℓ} → Option A → (A → Option B) → Option B
and_then none f = none
and_then (some a) f = f a

-- The closure of `or_insert_with`.
unfoldable pub new_row : HookAgentState → Option RuntimeProcessTelemetry → RuntimeAgentTelemetry
new_row h process = record {
  agent_id = h.agent.agent_id;
  provider = h.agent.provider;
  model = h.agent.model;
  instance_id = h.agent.instance_id;
  session_id = h.session_id;
  pid = h.pid;
  status = h.status;
  current_activity = h.current_activity;
  current_tool = h.current_tool;
  reported_confidence = h.reported_confidence;
  confidence_source = source_of h.reported_confidence;
  cpu_percent = or_old (and_then process (λ p. p.cpu_percent)) h.cpu_percent;
  rss_bytes = or_old (and_then process (λ p. some p.rss_bytes)) h.rss_bytes;
  memory_percent = or_old (and_then process (λ p. p.memory_percent)) h.memory_percent;
  resource_source =
      if is_some process
      then "host_process"
      else if is_some h.cpu_percent || is_some h.rss_bytes || is_some h.memory_percent
      then "hook"
      else "unreported";
  input_tokens = h.input_tokens;
  output_tokens = h.output_tokens;
  process_backed = is_some process;
  hook_backed = true;
  control_capable = h.control_capable;
  last_hook_at = some h.last_hook_at;
  last_process_sample_at = and_then process (λ p. some p.observed_at);
}

-- What the entry of a hook agent becomes.
unfoldable pub merge_row :
    Processes → HookAgentState → Option RuntimeAgentTelemetry → RuntimeAgentTelemetry
unfolding modify_row new_row
merge_row processes h none = new_row h (and_then h.pid (λ pid. map_get pid processes))
merge_row processes h (some row) = modify_row h row

-- The second loop.
unfoldable pub hook_rows : Processes → HookAgents → Rows → Rows
unfolding merge_row
hook_rows processes [] rows = rows
hook_rows processes ((key, h) ∷ entries) rows =
    let id = h.agent.agent_id in
    hook_rows processes entries (map_insert id (merge_row processes h (map_get id rows)) rows)

-- The entries of the map `agents` after both loops.
unfoldable pub agent_rows : RuntimeState → Rows
unfolding process_rows process_agent_ids hook_rows
agent_rows state =
    hook_rows state.processes state.hook_agents
      (process_rows (process_agent_ids state.hook_agents []) state.processes [])
