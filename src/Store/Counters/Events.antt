-- ===== src/Store/Counters/Events.antt =====
-- Every event keeps the completion counters exact: the reducer, ingestion, and whole runs.
use meta_agent_control_plane.Prelude.{
  ◌≡◌, String, true, false, Option, none, some, List, string_eq, if◌then◌else◌, arith, Bool-cases,
  Option-cases, inl, inr, refl, ◌∙◌, sym, subst, is_some, none_of_is_some, leb,
}
use meta_agent_control_plane.Model.{
  TaskOutcome, DateTime, EventEnvelope, AgentEvent, agent_registered, heartbeat, goal_declared,
  task_created, task_started, progress_updated, reflection_recorded, lesson_learned, error_observed,
  task_completed, agent_status_changed, TaskSpec,
}
use meta_agent_control_plane.Lru.{Lru}
use meta_agent_control_plane.Lru.Assoc.{lookup}
use meta_agent_control_plane.Store.State.{ScopedId, scoped_eq, AgentState, TaskState, StoreInner}
use meta_agent_control_plane.Store.Tasks.{bucket_of, ensure_task, from_spec}
use meta_agent_control_plane.Store.Writes.{
  scoped, refresh, register, beat, take_goal, define_task, newer, start, advance, reflect, block,
  complete, applied,
}
use meta_agent_control_plane.Store.Reducer.{
  declare_goal, create_task, write_task, run_task, note_task, learn, dispatch, apply_event,
}
use meta_agent_control_plane.Store.Counters.{
  in_bucket, IsExact, IsReplaced, starts-IsExact, advances-IsExact, completes-IsExact,
}
use meta_agent_control_plane.Store.Counters.Ensure.{ensure_task-Sound, ensure_agent-Sound}
use meta_agent_control_plane.Store.Counters.Steps.{Sound, with_agent-Sound, insert_task-Sound}
use meta_agent_control_plane.Store.Counters.Written.{Found, put_task, put_task-Sound, settles-Sound}

applied-some :
    (at : DateTime) (o : Option TaskState) (task : TaskState)
    → applied at o ≡ some task
    → (o ≡ some task) × (leb task.updated_at at ≡ true)
unfolding applied
applied-some at none task h = cc
applied-some at (some old) task h = ground arith

applied-none :
    (at : DateTime) (o : Option TaskState) (task : TaskState)
    → applied at o ≡ none
    → o ≡ some task
    → leb task.updated_at at ≡ false
unfolding applied
applied-none at none task h e = cc
applied-none at (some old) task h e = ground arith

module _ (lru : Lru) where
  -- A write under the time test, which leaves the owner and the outcome alone.
  write_task-Sound :
      (inner : StoreInner lru) (key : ScopedId) (at : DateTime) (write : TaskState → TaskState)
      → ((task : TaskState) → (write task).agent_id ≡ task.agent_id)
      → ((task : TaskState) → (write task).outcome ≡ task.outcome)
      → Sound lru inner
      → Sound lru (write_task lru inner key at write)
  unfolding write_task newer
  write_task-Sound inner key at write own keep s =
      put_task-Sound lru inner key (λ task. if leb task.updated_at at then write task else task)
        (λ task hit. ground (arith, own task)) (λ task hit. ground (arith, keep task)) s

  -- A write that sets the outcome, followed by the agent's part where it applied.
  run_task-Sound :
      (inner : StoreInner lru) (a task_id : String) (at : DateTime) (write : TaskState → TaskState)
      (follow : TaskState → AgentState → AgentState) (outcome : Option TaskOutcome)
      → ((task : TaskState) → (write task).agent_id ≡ task.agent_id)
      → ((task : TaskState) → (write task).outcome ≡ outcome)
      → ((old : TaskState) (agent : AgentState) (tasks tasks' : List (ScopedId × TaskState))
          → IsExact a agent tasks
          → IsReplaced a old (λ b. in_bucket b (bucket_of outcome)) tasks tasks'
          → IsExact a (follow old agent) tasks')
      → Sound lru inner
      → Sound lru (run_task lru inner a task_id at write follow)
  unfolding run_task write_task newer
  run_task-Sound inner a task_id at write follow outcome own sets x s0 =
      elim (Option-cases (applied at (lru.peek scoped_eq ensured.tasks key))) [
        | inl stale ↦
            rw (stale, run_task)
              (put_task-Sound lru ensured key written owns
                (λ task hit. let old = applied-none at _ task stale (peeked ∙ hit) in ground arith)
                s)
        | inr (old, fresh) ↦
            let (seen, now) = applied-some at _ old fresh in
            let set : (written old).outcome ≡ outcome = rw now (sets old) in
            rw (fresh, run_task)
              (settles-Sound lru ensured key written old (follow old) (sym peeked ∙ seen) owns
                (λ agent exact replaced. x old agent _ _ exact (
                  subst
                    (λ (o : Option TaskOutcome).
                      IsReplaced a old (λ b. in_bucket b (bucket_of o)) (lru.iter ensured.tasks)
                        (lru.iter (put_task lru ensured key written).tasks))
                    set replaced))
                s)
      ]
    where
      ensured : StoreInner lru
      ensured = ensure_task lru inner task_id a at

      key : ScopedId
      key = scoped a task_id

      s : Sound lru ensured
      s = ensure_task-Sound lru inner task_id a at s0

      written : TaskState → TaskState
      written task = if leb task.updated_at at then write task else task

      peeked : lru.peek scoped_eq ensured.tasks key ≡ lookup key (lru.iter ensured.tasks)
      peeked = lru.peek-iter scoped_eq ensured.tasks key

      owns : Found lru ensured key written (λ old new. new.agent_id ≡ old.agent_id)
      owns task hit = ground (arith, own task)

  note_task-Sound :
      (inner : StoreInner lru) (a : String) (task_id : Option String) (at : DateTime)
      (write : TaskState → TaskState)
      → ((task : TaskState) → (write task).agent_id ≡ task.agent_id)
      → ((task : TaskState) → (write task).outcome ≡ task.outcome)
      → Sound lru inner
      → Sound lru (note_task lru inner a task_id at write)
  unfolding note_task
  note_task-Sound inner a none at write own keep s = s
  note_task-Sound inner a (some task_id) at write own keep s =
      write_task-Sound (ensure_task lru inner task_id a at) (scoped a task_id) at write own keep
        (ensure_task-Sound lru inner task_id a at s)

  create_task-Sound :
      (inner : StoreInner lru) (a : String) (at : DateTime) (task : TaskSpec)
      → Sound lru inner
      → Sound lru (create_task lru inner a at task)
  unfolding create_task from_spec
  create_task-Sound inner a at task s =
      elim (Bool-cases (is_some (lru.peek scoped_eq inner.tasks key))) [
        | inl there ↦ rw there (
            put_task-Sound lru inner key (define_task a at task)
              (λ old hit. let mine = s.owned key old hit in unfold define_task in ground arith)
              (λ old hit. unfold define_task in ground arith) s)
        | inr absent ↦ rw absent (
            insert_task-Sound lru inner key _
              (sym (lru.peek-iter scoped_eq inner.tasks key) ∙ none_of_is_some _ absent) refl refl
              s)
      ]
    where
      key : ScopedId
      key = scoped a task.task_id

  dispatch-Sound :
      (inner : StoreInner lru) (a : String) (at : DateTime) (event : AgentEvent)
      → Sound lru inner
      → Sound lru (dispatch lru inner a at event)
  unfolding dispatch declare_goal learn register beat take_goal start advance reflect block complete
  dispatch-Sound inner a at (agent_registered r) s =
      with_agent-Sound lru inner a _ (λ agent. refl) (λ agent. refl) s
  dispatch-Sound inner a at (heartbeat h) s =
      with_agent-Sound lru inner a _ (λ agent. refl) (λ agent. refl) s
  dispatch-Sound inner a at (goal_declared goal) s =
      with_agent-Sound lru _ a _ (λ agent. refl) (λ agent. refl) s
  dispatch-Sound inner a at (task_created task) s = create_task-Sound inner a at task s
  dispatch-Sound inner a at (task_started started) s =
      run_task-Sound inner a started.task_id at _ _ none (λ task. refl) (λ task. refl)
        (λ old agent tasks tasks'. starts-IsExact a agent old started.task_id) s
  dispatch-Sound inner a at (progress_updated progress) s =
      run_task-Sound inner a progress.task_id at _ _ none (λ task. refl) (λ task. refl)
        (λ old agent tasks tasks'. advances-IsExact a agent old progress) s
  dispatch-Sound inner a at (reflection_recorded reflection) s =
      with_agent-Sound lru _ a _ (λ agent. refl) (λ agent. refl)
        (note_task-Sound inner a reflection.task_id at _ (λ task. refl) (λ task. refl) s)
  dispatch-Sound inner a at (lesson_learned lesson) s = s
  dispatch-Sound inner a at (error_observed error) s =
      with_agent-Sound lru _ a _ (λ agent. refl) (λ agent. refl)
        (note_task-Sound inner a error.task_id at _ (λ task. refl) (λ task. refl) s)
  dispatch-Sound inner a at (task_completed c) s =
      run_task-Sound inner a c.task_id at _ _ (some c.outcome) (λ task. refl) (λ task. refl)
        (λ old agent tasks tasks'. completes-IsExact a agent old c.outcome) s
  dispatch-Sound inner a at (agent_status_changed change) s =
      with_agent-Sound lru inner a _ (λ agent. refl) (λ agent. refl) s

  pub apply_event-Sound :
      (inner : StoreInner lru) (envelope : EventEnvelope)
      → Sound lru inner
      → Sound lru (apply_event lru inner envelope)
  unfolding apply_event refresh
  apply_event-Sound inner envelope s =
      dispatch-Sound _ envelope.agent.agent_id envelope.occurred_at envelope.event (
        with_agent-Sound lru _ envelope.agent.agent_id _ (λ agent. refl) (λ agent. refl)
          (ensure_agent-Sound lru inner envelope s))
