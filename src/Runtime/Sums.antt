-- ===== src/Runtime/Sums.antt =====
-- The token totals of `RuntimeMonitor::snapshot` of src/runtime/monitor.rs.
use meta_agent_control_plane.Prelude.{
  ℕ, ◌+◌, ◌%◌, ◌^◌, ◌<◌, ◌≡◌, refl, ap, sym, ◌∙◌, String, Bool, false, Option, none, some, List, [],
  ◌∷◌, map, All, arith, Bool-cases, inl, inr, ◌==◌, string_eq, map_get, map_insert,
  map_get-map_insert, insert_sorted, sort_by, subst,
}
use meta_agent_control_plane.Model.Numbers.{DateTime}
use meta_agent_control_plane.Runtime.Data.{RuntimeProcessTelemetry, RuntimeAgentTelemetry}
use meta_agent_control_plane.Runtime.Monitor.{
  RuntimeConfig, RuntimeState, HookAgentState, new_state,
}
use meta_agent_control_plane.Runtime.Sampling.{Floats}
use meta_agent_control_plane.Runtime.Run.{Call, run}
use meta_agent_control_plane.Runtime.Rows.{
  Rows, HookAgents, Processes, process_agent_ids, process_row, process_rows, merge_row, hook_rows,
  agent_rows,
}
use meta_agent_control_plane.Runtime.Snapshot.{
  is_earlier_row, into_values, wrapping_sum, totals, snapshot,
}
use meta_agent_control_plane.Runtime.Keyed.{AreOthers, IsKeyed, run-IsKeyed}

abbrev pub sum : List ℕ → ℕ
sum [] = 0
sum (n ∷ l) = n + sum l

-- Wrapping at each step is wrapping the sum.
wrapping_sum_lem :
    (acc : ℕ) (l : List ℕ) → acc < 2 ^ 64 → wrapping_sum acc l ≡ (acc + sum l) % 2 ^ 64
unfolding wrapping_sum
wrapping_sum_lem acc [] h = omega arith
wrapping_sum_lem acc (n ∷ l) h =
    omega (arith, wrapping_sum_lem ((acc + n) % 2 ^ 64) l (omega arith))

-- The sum of a field over the values of a map.
abbrev pub sum_values : {V : Type 0} → (V → ℕ) → List (String × V) → ℕ
sum_values f [] = 0
sum_values f ((k, v) ∷ entries) = f v + sum_values f entries

abbrev worth : {V : Type 0} → (V → ℕ) → Option V → ℕ
worth f none = 0
worth f (some v) = f v

sum_values-insert :
    {V : Type 0} (f : V → ℕ) (k : String) (v : V) (entries : List (String × V))
    → sum_values f (map_insert k v entries) + worth f (map_get k entries)
      ≡ sum_values f entries + f v
unfolding map_insert map_get
sum_values-insert f k v [] = omega arith
sum_values-insert f k v ((j, w) ∷ entries) = ground (arith, sum_values-insert f k v entries)

sum_values-insert_sorted :
    (f : RuntimeAgentTelemetry → ℕ) (k : String) (v : RuntimeAgentTelemetry) (rows : Rows)
    → sum_values f (insert_sorted is_earlier_row (k, v) rows) ≡ f v + sum_values f rows
unfolding insert_sorted
sum_values-insert_sorted f k v [] = refl
sum_values-insert_sorted f k v ((j, w) ∷ rows) = elim (Bool-cases (is_earlier_row (j, w) (k, v))) [
  | inl deeper ↦ rw deeper (omega (arith, sum_values-insert_sorted f k v rows))
  | inr front ↦ rw front refl
]

sum_values-sort_by :
    (f : RuntimeAgentTelemetry → ℕ) (rows : Rows)
    → sum_values f (sort_by is_earlier_row rows) ≡ sum_values f rows
unfolding sort_by
sum_values-sort_by f [] = refl
sum_values-sort_by f ((k, v) ∷ rows) =
    sum_values-insert_sorted f k v _ ∙ ap (λ n. f v + n) (sum_values-sort_by f rows)

sum-map :
    (f : RuntimeAgentTelemetry → ℕ) (rows : Rows)
    → sum (map f (map (λ (e : String × RuntimeAgentTelemetry). e.1) rows)) ≡ sum_values f rows
sum-map f [] = refl
sum-map f ((k, v) ∷ rows) = ap (λ n. f v + n) (sum-map f rows)

sum-into_values :
    (f : RuntimeAgentTelemetry → ℕ) (rows : Rows)
    → sum (map f (into_values rows)) ≡ sum_values f rows
unfolding into_values
sum-into_values f rows = sum-map f (sort_by is_earlier_row rows) ∙ sum_values-sort_by f rows

-- The rows of the given agents, if there are any, have the field at 0.
abbrev AreIdle : (RuntimeAgentTelemetry → ℕ) → Rows → HookAgents → Type 0
AreIdle f rows entries =
    All (λ (e : String × HookAgentState). worth f (map_get e.0 rows) ≡ 0) entries

insert-AreIdle :
    (f : RuntimeAgentTelemetry → ℕ) (k : String) (row : RuntimeAgentTelemetry) (rows : Rows)
    (entries : HookAgents)
    → AreOthers entries k
    → AreIdle f rows entries
    → AreIdle f (map_insert k row rows) entries
insert-AreIdle f k row rows [] others idle = tt
insert-AreIdle f k row rows ((j, h) ∷ entries) others idle =
    let apart : (k == j) ≡ false =
      ground (arith, string_eq.is_same_iff j k, string_eq.is_same_iff k j, others.0) in
    (
      ap (worth f) (map_get-map_insert j k row rows) ∙ rw apart idle.0,
      insert-AreIdle f k row rows entries others.1 idle.1,
    )

-- No row has the field.
abbrev AreUnused : (RuntimeAgentTelemetry → ℕ) → Rows → Type 0
AreUnused f rows = All (λ (e : String × RuntimeAgentTelemetry). f e.1 ≡ 0) rows

insert-AreUnused :
    (f : RuntimeAgentTelemetry → ℕ) (k : String) (row : RuntimeAgentTelemetry) (rows : Rows)
    → f row ≡ 0
    → AreUnused f rows
    → AreUnused f (map_insert k row rows)
unfolding map_insert
insert-AreUnused f k row [] own unused = (own, tt)
insert-AreUnused f k row ((j, r) ∷ rows) own unused = elim (Bool-cases (j == k)) [
  | inl same ↦ rw same (own, unused.1)
  | inr apart ↦ rw apart (unused.0, insert-AreUnused f k row rows own unused.1)
]

AreUnused-get :
    (f : RuntimeAgentTelemetry → ℕ) (k : String) (rows : Rows)
    → AreUnused f rows
    → worth f (map_get k rows) ≡ 0
unfolding map_get
AreUnused-get f k [] unused = refl
AreUnused-get f k ((j, r) ∷ rows) unused = elim (Bool-cases (j == k)) [
  | inl same ↦ rw same unused.0
  | inr apart ↦ rw apart (AreUnused-get f k rows unused.1)
]

AreUnused-AreIdle :
    (f : RuntimeAgentTelemetry → ℕ) (rows : Rows) (entries : HookAgents)
    → AreUnused f rows
    → AreIdle f rows entries
AreUnused-AreIdle f rows [] unused = tt
AreUnused-AreIdle f rows ((k, h) ∷ entries) unused =
    (AreUnused-get f k rows unused, AreUnused-AreIdle f rows entries unused)

AreUnused-sum :
    (f : RuntimeAgentTelemetry → ℕ) (rows : Rows) → AreUnused f rows → sum_values f rows ≡ 0
AreUnused-sum f [] unused = refl
AreUnused-sum f ((k, r) ∷ rows) unused = omega (arith, AreUnused-sum f rows unused.1, unused.0)

-- A field that a process leaves at 0 and a hook agent sets to that of its state.
module _ (f : RuntimeAgentTelemetry → ℕ) (g : HookAgentState → ℕ)
    (bare : (id : String) (process : RuntimeProcessTelemetry) → f (process_row id process) ≡ 0)
    (merged : (processes : Processes) (h : HookAgentState) (old : Option RuntimeAgentTelemetry)
      → f (merge_row processes h old) ≡ g h) where
  sum-hook_rows :
      (processes : Processes) (entries : HookAgents) (rows : Rows)
      → IsKeyed entries
      → AreIdle f rows entries
      → sum_values f (hook_rows processes entries rows) ≡ sum_values f rows + sum_values g entries
  unfolding hook_rows
  sum-hook_rows processes [] rows keyed idle = omega arith
  sum-hook_rows processes ((k, h) ∷ entries) rows keyed idle =
      let row = merge_row processes h (map_get h.agent.agent_id rows) in
      let others = subst (AreOthers entries) (sym keyed.0) keyed.1 in
      let free : worth f (map_get h.agent.agent_id rows) ≡ 0 = rw keyed.0 idle.0 in
      omega (
        arith,
        sum-hook_rows processes entries (map_insert h.agent.agent_id row rows) keyed.2
            (insert-AreIdle f h.agent.agent_id row rows entries others idle.1),
        sum_values-insert f h.agent.agent_id row rows,
        free,
        merged processes h (map_get h.agent.agent_id rows),
      )

  process_rows-AreUnused :
      (ids : List (ℕ × String)) (processes : Processes) (rows : Rows)
      → AreUnused f rows
      → AreUnused f (process_rows ids processes rows)
  unfolding process_rows
  process_rows-AreUnused ids [] rows unused = unused
  process_rows-AreUnused ids ((key, process) ∷ processes) rows unused =
      process_rows-AreUnused ids processes _ (insert-AreUnused f _ _ rows (bare _ process) unused)

  wrapping_sum-agents :
      (state : RuntimeState)
      → IsKeyed state.hook_agents
      → wrapping_sum 0 (map f (into_values (agent_rows state)))
        ≡ sum_values g state.hook_agents % 2 ^ 64
  unfolding agent_rows
  wrapping_sum-agents state keyed =
      let rows = process_rows (process_agent_ids state.hook_agents []) state.processes [] in
      let unused =
        process_rows-AreUnused (process_agent_ids state.hook_agents []) state.processes [] tt in
      wrapping_sum_lem 0 _ (omega arith)
      ∙ ap (λ n. n % 2 ^ 64)
          (omega (
            arith,
            sum-into_values f (agent_rows state),
            sum-hook_rows state.processes state.hook_agents rows keyed
                (AreUnused-AreIdle f rows state.hook_agents unused),
            AreUnused-sum f rows unused,
          ))

bare_input :
    (id : String) (process : RuntimeProcessTelemetry) → (process_row id process).input_tokens ≡ 0
unfolding process_row
bare_input id process = refl

bare_output :
    (id : String) (process : RuntimeProcessTelemetry) → (process_row id process).output_tokens ≡ 0
unfolding process_row
bare_output id process = refl

merged_input :
    (processes : Processes) (h : HookAgentState) (old : Option RuntimeAgentTelemetry)
    → (merge_row processes h old).input_tokens ≡ h.input_tokens
unfolding merge_row
merged_input processes h none = refl
merged_input processes h (some row) = refl

merged_output :
    (processes : Processes) (h : HookAgentState) (old : Option RuntimeAgentTelemetry)
    → (merge_row processes h old).output_tokens ≡ h.output_tokens
unfolding merge_row
merged_output processes h none = refl
merged_output processes h (some row) = refl

module _ (floats : Floats) (config : RuntimeConfig) where
  -- After any run of the monitor from its start, the token totals of a snapshot are the sums of the
  -- counts of all agents that it knows from hooks, each counted once whatever processes were
  -- sampled, modulo 2^64: the counts of an agent stop at the greatest u64, their sums wrap.
  pub snapshot_token_totals :
      (calls : List Call) (enabled : Bool) (now : DateTime)
      → let state = run floats config new_state calls in
        let shown = (snapshot floats config state enabled now).totals in
        (shown.input_tokens
          ≡ sum_values (λ (h : HookAgentState). h.input_tokens) state.hook_agents % 2 ^ 64)
        × (shown.output_tokens
            ≡ sum_values (λ (h : HookAgentState). h.output_tokens) state.hook_agents % 2 ^ 64)
  unfolding snapshot totals
  snapshot_token_totals calls enabled now =
      let state = run floats config new_state calls in
      let keyed = run-IsKeyed floats config calls in
      (
        wrapping_sum-agents (λ a. a.input_tokens) (λ h. h.input_tokens) bare_input merged_input
            state keyed,
        wrapping_sum-agents (λ a. a.output_tokens) (λ h. h.output_tokens) bare_output merged_output
            state keyed,
      )
