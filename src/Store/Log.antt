-- ===== src/Store/Log.antt =====
-- What the reducer leaves alone, and the revision of the store: its watermark, what it broadcasts,
-- and its counters.
use meta_agent_control_plane.Prelude.{
  ℕ, ◌≡◌, inl, inr, refl, ◌∙◌, String, Option, none, some, Bool-cases, Option-cases, is_some,
  string_eq, nat_eq,
}
use meta_agent_control_plane.Model.{
  DateTime, EventEnvelope, AgentEvent, agent_registered, heartbeat, goal_declared, task_created,
  task_started, progress_updated, reflection_recorded, lesson_learned, error_observed,
  task_completed, agent_status_changed, Uuid, TaskSpec,
}
use meta_agent_control_plane.Lru.{Lru}
use meta_agent_control_plane.Store.State.{
  ScopedId, scoped_eq, AgentState, TaskState, EventRecord, Counters, StoreInner,
}
use meta_agent_control_plane.Store.Tasks.{
  with_agent, note_evicted, insert_task, ensure_task, ensure_agent, push_with_eviction, new_agent,
}
use meta_agent_control_plane.Store.Writes.{scoped, applied}
use meta_agent_control_plane.Store.Reducer.{
  declare_goal, create_task, write_task, run_task, note_task, learn, dispatch, apply_event,
}

module _ (lru : Lru) where
  -- The parts of the store that the reducer does not touch.
  abbrev pub Ledger : Type 0
  Ledger = lru.LruCache Uuid EventRecord × lru.LruCache Uuid ℕ × Counters × ℕ × DateTime

  abbrev pub ledger : StoreInner lru → Ledger
  ledger inner =
      (inner.events, inner.seen_event_ids, inner.counters, inner.revision, inner.started_at)

  note_evicted-ledger :
      (old : Option TaskState) (inner : StoreInner lru)
      → ledger (note_evicted lru old inner) ≡ ledger inner
  unfolding note_evicted with_agent
  note_evicted-ledger none inner = refl
  note_evicted-ledger (some old) inner = refl

  insert_task-ledger :
      (inner : StoreInner lru) (key : ScopedId) (state : TaskState)
      → ledger (insert_task lru inner key state) ≡ ledger inner
  unfolding insert_task
  insert_task-ledger inner key state = note_evicted-ledger _ _

  ensure_task-ledger :
      (inner : StoreInner lru) (task_id agent_id : String) (at : DateTime)
      → ledger (ensure_task lru inner task_id agent_id at) ≡ ledger inner
  unfolding ensure_task
  ensure_task-ledger inner task_id agent_id at =
      elim (Bool-cases (is_some (lru.peek scoped_eq inner.tasks (scoped agent_id task_id)))) [
        | inl there ↦ rw there refl
        | inr absent ↦ rw absent (insert_task-ledger inner _ _)
      ]

  ensure_agent-ledger :
      (inner : StoreInner lru) (envelope : EventEnvelope)
      → ledger (ensure_agent lru inner envelope) ≡ ledger inner
  unfolding ensure_agent
  ensure_agent-ledger inner envelope =
      elim (Bool-cases (is_some (lru.peek string_eq inner.agents envelope.agent.agent_id))) [
        | inl there ↦ rw there refl
        | inr absent ↦
            elim (Bool-cases (
              is_some
                (push_with_eviction lru string_eq inner.agents envelope.agent.agent_id
                  (new_agent lru inner envelope)).1)) [
                    | inl full ↦ rw absent (rw full refl)
                    | inr room ↦ rw absent (rw room refl)
                  ]
      ]

  run_task-ledger :
      (inner : StoreInner lru) (a task_id : String) (at : DateTime) (write : TaskState → TaskState)
      (follow : TaskState → AgentState → AgentState)
      → ledger (run_task lru inner a task_id at write follow) ≡ ledger inner
  unfolding run_task write_task with_agent
  run_task-ledger inner a task_id at write follow =
      elim (Option-cases (
        applied at
          (lru.peek scoped_eq (ensure_task lru inner task_id a at).tasks (scoped a task_id)))) [
            | inl stale ↦ rw (stale, run_task) (ensure_task-ledger inner task_id a at)
            | inr (old, now) ↦ rw (now, run_task) (ensure_task-ledger inner task_id a at)
          ]

  note_task-ledger :
      (inner : StoreInner lru) (a : String) (task_id : Option String) (at : DateTime)
      (write : TaskState → TaskState)
      → ledger (note_task lru inner a task_id at write) ≡ ledger inner
  unfolding note_task write_task
  note_task-ledger inner a none at write = refl
  note_task-ledger inner a (some task_id) at write = ensure_task-ledger inner task_id a at

  create_task-ledger :
      (inner : StoreInner lru) (a : String) (at : DateTime) (task : TaskSpec)
      → ledger (create_task lru inner a at task) ≡ ledger inner
  unfolding create_task
  create_task-ledger inner a at task =
      elim (Bool-cases (is_some (lru.peek scoped_eq inner.tasks (scoped a task.task_id)))) [
        | inl there ↦ rw there refl
        | inr absent ↦ rw absent (insert_task-ledger inner _ _)
      ]

  dispatch-ledger :
      (inner : StoreInner lru) (a : String) (at : DateTime) (event : AgentEvent)
      → ledger (dispatch lru inner a at event) ≡ ledger inner
  unfolding dispatch with_agent declare_goal learn
  dispatch-ledger inner a at (agent_registered r) = refl
  dispatch-ledger inner a at (heartbeat h) = refl
  dispatch-ledger inner a at (goal_declared goal) = refl
  dispatch-ledger inner a at (task_created task) = create_task-ledger inner a at task
  dispatch-ledger inner a at (task_started started) = run_task-ledger inner a started.task_id at _ _
  dispatch-ledger inner a at (progress_updated p) = run_task-ledger inner a p.task_id at _ _
  dispatch-ledger inner a at (reflection_recorded r) = note_task-ledger inner a r.task_id at _
  dispatch-ledger inner a at (lesson_learned lesson) = refl
  dispatch-ledger inner a at (error_observed e) = note_task-ledger inner a e.task_id at _
  dispatch-ledger inner a at (task_completed c) = run_task-ledger inner a c.task_id at _ _
  dispatch-ledger inner a at (agent_status_changed change) = refl

  -- The reducer changes neither the recent events, the idempotency window, the counters, the
  -- revision nor the start time.
  pub apply_event-ledger :
      (inner : StoreInner lru) (envelope : EventEnvelope)
      → ledger (apply_event lru inner envelope) ≡ ledger inner
  unfolding apply_event with_agent
  apply_event-ledger inner envelope =
      dispatch-ledger _ envelope.agent.agent_id envelope.occurred_at envelope.event
      ∙ ensure_agent-ledger inner envelope
