-- ===== src/Store/Reducer.antt =====
-- `apply_event` of src/store.rs: what each kind of event does to the projections.
use meta_agent_control_plane.Prelude.{
  ℕ, String, false, Option, none, some, string_eq, if◌then◌else◌, is_some,
}
use meta_agent_control_plane.Model.{
  DateTime, saturating_suc, AgentStatus, AgentEvent, agent_registered, heartbeat, goal_declared,
  task_created, task_started, progress_updated, reflection_recorded, lesson_learned, error_observed,
  task_completed, agent_status_changed, Goal, TaskSpec, Lesson, EventEnvelope,
}
use meta_agent_control_plane.Lru.{Lru}
use meta_agent_control_plane.Store.State.{
  ScopedId, scoped_eq, AgentState, GoalState, TaskState, LessonState, StoreInner,
}
use meta_agent_control_plane.Store.Tasks.{
  from_spec, push_with_eviction, with_agent, insert_task, ensure_task, ensure_agent,
}
use meta_agent_control_plane.Store.Writes.{
  scoped, refresh, register, beat, take_goal, define_task, newer, start, advance, reflect, block,
  complete, agent_starts, agent_advances, agent_completes, applied,
}

-- The observations of a lesson, with the one that is being recorded.
abbrev pub observations_of : Option LessonState → ℕ
observations_of none = 1
observations_of (some state) = saturating_suc state.observations

module _ (lru : Lru) where
  unfoldable pub declare_goal : StoreInner lru → String → DateTime → Goal → StoreInner lru
  declare_goal inner agent_id occurred_at goal =
      let state : GoalState = record {
        goal = goal;
        agent_id = agent_id;
        declared_at = occurred_at;
      } in
      let (goals', evicted) =
        push_with_eviction lru scoped_eq inner.goals (scoped agent_id goal.goal_id) state in
      let evictions' =
        if is_some evicted
        then record inner.evictions { goals = saturating_suc inner.evictions.goals }
        else inner.evictions in
      with_agent lru (record inner { goals = goals'; evictions = evictions' }) agent_id
        (take_goal goal.goal_id)

  unfoldable pub create_task : StoreInner lru → String → DateTime → TaskSpec → StoreInner lru
  create_task inner agent_id occurred_at task =
      let key = scoped agent_id task.task_id in
      if is_some (lru.peek scoped_eq inner.tasks key)
      then record inner {
        tasks = lru.get_mut scoped_eq inner.tasks key (define_task agent_id occurred_at task);
      }
      else insert_task lru inner key (from_spec task agent_id occurred_at false)

  -- `get_mut` on the tasks with writes under `occurred_at >= task.updated_at`.
  unfoldable pub write_task :
      StoreInner lru → ScopedId → DateTime → (TaskState → TaskState) → StoreInner lru
  write_task inner key occurred_at write = record inner {
    tasks = lru.get_mut scoped_eq inner.tasks key (newer occurred_at write);
  }

  -- `ensure_task`, those writes, and, if they applied, the agent's part with the previous outcome.
  unfoldable pub run_task :
      StoreInner lru
      → String
      → String
      → DateTime
      → (TaskState → TaskState)
      → (TaskState → AgentState → AgentState)
      → StoreInner lru
  run_task inner agent_id task_id occurred_at write follow =
      let ensured = ensure_task lru inner task_id agent_id occurred_at in
      let key = scoped agent_id task_id in
      let written = write_task ensured key occurred_at write in
      elim (applied occurred_at (lru.peek scoped_eq ensured.tasks key)) [
        | none ↦ written
        | some previous ↦ with_agent lru written agent_id (follow previous)
      ]

  -- The task's part of a reflection or an error, which need not name a task.
  unfoldable pub note_task :
      StoreInner lru → String → Option String → DateTime → (TaskState → TaskState) → StoreInner lru
  note_task inner agent_id none occurred_at write = inner
  note_task inner agent_id (some task_id) occurred_at write =
      write_task (ensure_task lru inner task_id agent_id occurred_at) (scoped agent_id task_id)
        occurred_at write

  unfoldable pub learn : StoreInner lru → String → DateTime → Lesson → StoreInner lru
  learn inner agent_id occurred_at lesson =
      let key = scoped agent_id lesson.lesson_id in
      let state : LessonState = record {
        lesson = lesson;
        agent_id = agent_id;
        learned_at = occurred_at;
        observations = observations_of (lru.peek scoped_eq inner.lessons key);
      } in
      let (lessons', evicted) = push_with_eviction lru scoped_eq inner.lessons key state in
      let evictions' =
        if is_some evicted
        then record inner.evictions { lessons = saturating_suc inner.evictions.lessons }
        else inner.evictions in
      record inner { lessons = lessons'; evictions = evictions' }

  -- The `match` over the event, for the agent with the given id.
  unfoldable pub dispatch : StoreInner lru → String → DateTime → AgentEvent → StoreInner lru
  dispatch inner agent_id occurred_at (agent_registered registration) =
      with_agent lru inner agent_id (register occurred_at registration)
  dispatch inner agent_id occurred_at (heartbeat h) = with_agent lru inner agent_id (beat h)
  dispatch inner agent_id occurred_at (goal_declared goal) =
      declare_goal inner agent_id occurred_at goal
  dispatch inner agent_id occurred_at (task_created task) =
      create_task inner agent_id occurred_at task
  dispatch inner agent_id occurred_at (task_started started) =
      run_task inner agent_id started.task_id occurred_at (start occurred_at started)
        (λ previous. agent_starts started.task_id previous.outcome)
  dispatch inner agent_id occurred_at (progress_updated progress) =
      run_task inner agent_id progress.task_id occurred_at (advance occurred_at progress)
        (λ previous. agent_advances progress previous.outcome)
  dispatch inner agent_id occurred_at (reflection_recorded reflection) =
      with_agent lru
        (note_task inner agent_id reflection.task_id occurred_at (reflect occurred_at reflection))
        agent_id (λ agent. record agent { latest_reflection = some reflection })
  dispatch inner agent_id occurred_at (lesson_learned lesson) =
      learn inner agent_id occurred_at lesson
  dispatch inner agent_id occurred_at (error_observed error) =
      with_agent lru (note_task inner agent_id error.task_id occurred_at (block occurred_at error))
        agent_id (λ agent. record agent { latest_error = some error; status = AgentStatus.blocked })
  dispatch inner agent_id occurred_at (task_completed completed) =
      run_task inner agent_id completed.task_id occurred_at (complete occurred_at completed)
        (λ previous. agent_completes completed.outcome previous.outcome)
  dispatch inner agent_id occurred_at (agent_status_changed change) =
      with_agent lru inner agent_id (λ agent. record agent { status = change.status })

  unfoldable pub apply_event : StoreInner lru → EventEnvelope → StoreInner lru
  apply_event inner envelope =
      let agent_id = envelope.agent.agent_id in
      dispatch (with_agent lru (ensure_agent lru inner envelope) agent_id (refresh envelope))
        agent_id envelope.occurred_at envelope.event
