-- ===== src/Runtime/Window.antt =====
-- The window of src/runtime/monitor.rs in which a hook is known.
use meta_agent_control_plane.Prelude.{
  ℕ, zero, suc, ◌+◌, ◌≤◌, ◌<◌, ◌≡◌, refl, ap, true, false, List, [], ◌∷◌, length, arith, Bool-cases,
  Checked, ok, err, inl, inr, Checked-cases,
}
use meta_agent_control_plane.Model.Numbers.{Uuid, DateTime}
use meta_agent_control_plane.Runtime.Data
use meta_agent_control_plane.Runtime.Data.{
  RuntimeHookEnvelope, ControlCommand, ControlCommandRequest, ControlCommandAck, RuntimeError,
}
use meta_agent_control_plane.Runtime.Validation.{validate_hook}
use meta_agent_control_plane.Runtime.Monitor.{
  RuntimeConfig, RuntimeState, Called, contains_id, truncate, accept_hook, ingest_hook,
}
use meta_agent_control_plane.Runtime.Sampling.{Floats, Collected, sampled, failed, collect_once}
use meta_agent_control_plane.Runtime.Run.{Call, serve, run, serve_elim}
use meta_agent_control_plane.Runtime.Tidy.{truncate-truncate}

module _ (floats : Floats) (config : RuntimeConfig) where
  -- The id is among the first n of the window.
  abbrev IsRecent : ℕ → Uuid → RuntimeState → Type 0
  IsRecent n id state = contains_id id (truncate n state.hook_ids) ≡ true

  longer :
      (n : ℕ) (id : Uuid) (ids : List Uuid)
      → contains_id id (truncate n ids) ≡ true
      → contains_id id (truncate (suc n) ids) ≡ true
  unfolding contains_id truncate
  longer zero id ids h = cc
  longer (suc n) id [] h = cc
  longer (suc n) id (i ∷ ids) h = ground (arith, longer n id ids)

  push_recent :
      (n : ℕ) (id new : Uuid) (ids : List Uuid)
      → suc n ≤ config.hook_capacity
      → contains_id id (truncate n ids) ≡ true
      → contains_id id (truncate (suc n) (truncate config.hook_capacity (new ∷ ids))) ≡ true
  unfolding contains_id truncate
  push_recent n id new ids room h =
      rw (truncate-truncate (suc n) config.hook_capacity (new ∷ ids) room) (ground arith)

  collect_once-hook_ids :
      (state : RuntimeState) (now : DateTime) (sample : Collected)
      → (collect_once floats state now sample).hook_ids ≡ state.hook_ids
  unfolding collect_once
  collect_once-hook_ids state now (sampled snapshot) = refl
  collect_once-hook_ids state now (failed error) = refl

  serve-IsRecent :
      (n : ℕ) (id : Uuid) (state : RuntimeState) (call : Call)
      → suc n ≤ config.hook_capacity
      → IsRecent n id state
      → IsRecent (suc n) id (serve floats config state call)
  serve-IsRecent n id state call room h =
      let stays = longer n id state.hook_ids h in
      serve_elim floats config (IsRecent (suc n) id) state call stays
        (λ hook good new.
          unfold accept_hook in push_recent n id hook.event_id state.hook_ids room h)
        (λ i now request capable. stays) (λ now ack command hit own. stays)
        (λ now sample. rw collect_once-hook_ids stays)

  run-IsRecent :
      (n : ℕ) (id : Uuid) (state : RuntimeState) (calls : List Call)
      → n + length calls ≤ config.hook_capacity
      → IsRecent n id state
      → IsRecent (n + length calls) id (run floats config state calls)
  unfolding run
  run-IsRecent n id state [] room h = let e : n ≡ n + 0 = omega arith in rw (← e) h
  run-IsRecent n id state (call ∷ calls) room h =
      let e : suc n + length calls ≡ n + suc (length calls) = omega arith in
      rw (← e) (
        run-IsRecent (suc n) id (serve floats config state call) calls (omega arith)
          (serve-IsRecent n id state call (omega arith) h))

  of_recent :
      (n : ℕ) (id : Uuid) (ids : List Uuid)
      → contains_id id (truncate n ids) ≡ true
      → contains_id id ids ≡ true
  unfolding contains_id truncate
  of_recent zero id ids h = cc
  of_recent (suc n) id [] h = cc
  of_recent (suc n) id (i ∷ ids) h = ground (arith, of_recent n id ids)

  ingest_hook_invalid :
      (state : RuntimeState) (hook : RuntimeHookEnvelope) (error : RuntimeError)
      → validate_hook hook ≡ err error
      → ingest_hook config state hook ≡ record { state = state; result = err error }
  unfolding ingest_hook
  ingest_hook_invalid state hook error bad = rw (bad, ingest_hook) refl

  ingest_hook_known :
      (state : RuntimeState) (hook : RuntimeHookEnvelope)
      → validate_hook hook ≡ ok
      → contains_id hook.event_id state.hook_ids ≡ true
      → ingest_hook config state hook ≡ record { state = state; result = err Data.duplicate_hook }
  unfolding ingest_hook
  ingest_hook_known state hook good old = rw (good, ingest_hook) (rw old refl)

  ingest_hook_new :
      (state : RuntimeState) (hook : RuntimeHookEnvelope)
      → validate_hook hook ≡ ok
      → contains_id hook.event_id state.hook_ids ≡ false
      → ingest_hook config state hook
        ≡ record { state = accept_hook config state hook; result = ok }
  unfolding ingest_hook
  ingest_hook_new state hook good new = rw (good, ingest_hook) (rw new refl)

  -- What an accepted hook leaves.
  pub accepted_state :
      (state : RuntimeState) (hook : RuntimeHookEnvelope)
      → (ingest_hook config state hook).result ≡ ok
      → (ingest_hook config state hook).state ≡ accept_hook config state hook
  accepted_state state hook e = elim (Checked-cases (validate_hook hook)) [
    | inr (error, bad) ↦
        let r =
          ap (λ (c : Called (Checked RuntimeError)). c.result)
            (ingest_hook_invalid state hook error bad) in
        cc
    | inl good ↦ elim (Bool-cases (contains_id hook.event_id state.hook_ids)) [
      | inl old ↦
          let r =
            ap (λ (c : Called (Checked RuntimeError)). c.result)
              (ingest_hook_known state hook good old) in
          cc
      | inr new ↦
          ap (λ (c : Called (Checked RuntimeError)). c.state) (ingest_hook_new state hook good new)
    ]
  ]

  -- A refused hook leaves the state as it was.
  pub refused_state :
      (state : RuntimeState) (hook : RuntimeHookEnvelope) (error : RuntimeError)
      → (ingest_hook config state hook).result ≡ err error
      → (ingest_hook config state hook).state ≡ state
  refused_state state hook error e = elim (Checked-cases (validate_hook hook)) [
    | inr (other, bad) ↦
        ap (λ (c : Called (Checked RuntimeError)). c.state)
          (ingest_hook_invalid state hook other bad)
    | inl good ↦ elim (Bool-cases (contains_id hook.event_id state.hook_ids)) [
      | inl old ↦
          ap (λ (c : Called (Checked RuntimeError)). c.state)
            (ingest_hook_known state hook good old)
      | inr new ↦
          let r =
            ap (λ (c : Called (Checked RuntimeError)). c.result)
              (ingest_hook_new state hook good new) in
          cc
    ]
  ]

  head_recent : (id : Uuid) (ids : List Uuid) → contains_id id (truncate 1 (id ∷ ids)) ≡ true
  unfolding contains_id truncate
  head_recent id ids = ground arith

  accept-IsRecent :
      (state : RuntimeState) (hook : RuntimeHookEnvelope)
      → 1 ≤ config.hook_capacity
      → IsRecent 1 hook.event_id (accept_hook config state hook)
  unfolding accept_hook
  accept-IsRecent state hook room =
      rw (truncate-truncate 1 config.hook_capacity (hook.event_id ∷ state.hook_ids) room)
        (head_recent hook.event_id state.hook_ids)

  -- A hook that the monitor accepted is known for as long as fewer calls follow than hooks are
  -- retained, whatever these calls are: another hook of its id that is valid is then refused as a
  -- duplicate, and the state stays as it is.
  pub recent_hook_refused :
      (state : RuntimeState) (hook again : RuntimeHookEnvelope) (calls : List Call)
      → (ingest_hook config state hook).result ≡ ok
      → length calls < config.hook_capacity
      → again.event_id ≡ hook.event_id
      → validate_hook again ≡ ok
      → let later = run floats config (ingest_hook config state hook).state calls in
        ((ingest_hook config later again).result ≡ err Data.duplicate_hook)
        × ((ingest_hook config later again).state ≡ later)
  recent_hook_refused state hook again calls accepted few same good =
      let recent = accept-IsRecent state hook (omega arith) in
      let kept =
        run-IsRecent 1 hook.event_id _ calls (omega arith)
          (rw (accepted_state state hook accepted) recent) in
      let known = of_recent (1 + length calls) hook.event_id _ kept in
      let answer =
        ingest_hook_known (run floats config (ingest_hook config state hook).state calls) again good
          (rw same known) in
      (
        ap (λ (c : Called (Checked RuntimeError)). c.result) answer,
        ap (λ (c : Called (Checked RuntimeError)). c.state) answer,
      )
