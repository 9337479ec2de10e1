-- ===== src/Store/Stale.antt =====
-- Events of src/store.rs that arrive late: what an event older than a task's last change leaves.
use meta_agent_control_plane.Prelude.{
  ◌<◌, ◌≡◌, refl, ap, ◌∙◌, String, none, some, subst, leb, arith, ==-self, Bool-cases, inl, inr,
  ◌||◌,
}
use meta_agent_control_plane.Model.{
  DateTime, EventEnvelope, AgentEvent, agent_registered, heartbeat, goal_declared, task_created,
  task_started, progress_updated, reflection_recorded, lesson_learned, error_observed,
  task_completed, agent_status_changed, TaskSpec, event_task_id,
}
use meta_agent_control_plane.Lru.{Lru}
use meta_agent_control_plane.Lru.Assoc.{lookup}
use meta_agent_control_plane.Lru.Laws.{lookup-modify}
use meta_agent_control_plane.Store.State.{ScopedId, scoped_eq, AgentState, TaskState, StoreInner}
use meta_agent_control_plane.Store.Tasks.{with_agent, ensure_task, ensure_agent}
use meta_agent_control_plane.Store.Writes.{scoped, applied, newer, define_task}
use meta_agent_control_plane.Store.Reducer.{
  create_task, write_task, run_task, note_task, learn, dispatch, apply_event,
}

-- How the work on a task stands: all but its definition and what is known of the definition.
pub record IsSameWork (old new : TaskState) : Type 0 where
  pub status : new.status ≡ old.status
  pub progress : new.progress ≡ old.progress
  pub attempt : new.attempt ≡ old.attempt
  pub plan_summary : new.plan_summary ≡ old.plan_summary
  pub progress_summary : new.progress_summary ≡ old.progress_summary
  pub blocker : new.blocker ≡ old.blocker
  pub next_action : new.next_action ≡ old.next_action
  pub latest_reflection : new.latest_reflection ≡ old.latest_reflection
  pub outcome : new.outcome ≡ old.outcome
  pub completion_summary : new.completion_summary ≡ old.completion_summary
  pub artifacts : new.artifacts ≡ old.artifacts
  pub started_at : new.started_at ≡ old.started_at
  pub completed_at : new.completed_at ≡ old.completed_at
  pub updated_at : new.updated_at ≡ old.updated_at

abbrev same : (task : TaskState) → IsSameWork task task
same task = record {
  status = refl;
  progress = refl;
  attempt = refl;
  plan_summary = refl;
  progress_summary = refl;
  blocker = refl;
  next_action = refl;
  latest_reflection = refl;
  outcome = refl;
  completion_summary = refl;
  artifacts = refl;
  started_at = refl;
  completed_at = refl;
  updated_at = refl;
}

define_task-IsSameWork :
    (a : String) (at : DateTime) (spec : TaskSpec) (task : TaskState)
    → at < task.updated_at
    → IsSameWork task (define_task a at spec task)
unfolding define_task
define_task-IsSameWork a at spec task late =
    elim (Bool-cases (task.inferred_from_out_of_order_event || leb task.definition_updated_at at)) [
      | inl fits ↦ rw fits (record {
        status = refl;
        progress = refl;
        attempt = refl;
        plan_summary = refl;
        progress_summary = refl;
        blocker = refl;
        next_action = refl;
        latest_reflection = refl;
        outcome = refl;
        completion_summary = refl;
        artifacts = refl;
        started_at = refl;
        completed_at = refl;
        updated_at = omega (arith, late);
      })
      | inr old ↦ rw old (same task)
    ]

newer_late :
    (at : DateTime) (write : TaskState → TaskState) (task : TaskState)
    → at < task.updated_at
    → newer at write task ≡ task
unfolding newer
newer_late at write task late = ground arith

applied_late :
    (at : DateTime) (task : TaskState) → at < task.updated_at → applied at (some task) ≡ none
unfolding applied
applied_late at task late = ground arith

ensure_agent-tasks :
    (lru : Lru) (inner : StoreInner lru) (envelope : EventEnvelope)
    → (ensure_agent lru inner envelope).tasks ≡ inner.tasks
unfolding ensure_agent
ensure_agent-tasks lru inner envelope = ground arith

module _ (lru : Lru) (a : String) (at : DateTime) (task : TaskState)
    (late : at < task.updated_at) where
  -- The cache holds the task, with the work as it was.
  abbrev pub Holds : StoreInner lru → ScopedId → Type 0
  Holds inner key =
      (new : TaskState) × (lookup key (lru.iter inner.tasks) ≡ some new) × IsSameWork task new

  module _ (inner : StoreInner lru) (id : String)
      (found : lookup (scoped a id) (lru.iter inner.tasks) ≡ some task) where
    there : lru.peek scoped_eq inner.tasks (scoped a id) ≡ some task
    there = lru.peek-iter scoped_eq inner.tasks (scoped a id) ∙ found

    get_mut_task :
        (write : TaskState → TaskState)
        → lookup (scoped a id) (lru.iter (lru.get_mut scoped_eq inner.tasks (scoped a id) write))
          ≡ some (write task)
    get_mut_task write = rw (lru.iter-get_mut, lookup-modify, ==-self (scoped a id), found) refl

    ensure_task_found : ensure_task lru inner id a at ≡ inner
    unfolding ensure_task
    ensure_task_found = rw there refl

    write_task-Holds :
        (write : TaskState → TaskState)
        → Holds (write_task lru inner (scoped a id) at write) (scoped a id)
    unfolding write_task
    write_task-Holds write =
        (task, get_mut_task (newer at write) ∙ ap some (newer_late at write task late), same task)

    run_task-Holds :
        (write : TaskState → TaskState) (follow : TaskState → AgentState → AgentState)
        → Holds (run_task lru inner a id at write follow) (scoped a id)
    unfolding run_task
    run_task-Holds write follow =
        rw (stopped, run_task) (rw ensure_task_found (write_task-Holds write))
      where
        stopped :
            applied at (lru.peek scoped_eq (ensure_task lru inner id a at).tasks (scoped a id))
            ≡ none
        stopped = rw (ensure_task_found, there) (applied_late at task late)

    note_task-Holds :
        (write : TaskState → TaskState)
        → Holds (note_task lru inner a (some id) at write) (scoped a id)
    unfolding note_task
    note_task-Holds write = rw ensure_task_found (write_task-Holds write)

  create_task-Holds :
      (inner : StoreInner lru) (spec : TaskSpec)
      → lookup (scoped a spec.task_id) (lru.iter inner.tasks) ≡ some task
      → Holds (create_task lru inner a at spec) (scoped a spec.task_id)
  unfolding create_task
  create_task-Holds inner spec found = rw (there inner spec.task_id found) (
    define_task a at spec task,
    get_mut_task inner spec.task_id found (define_task a at spec),
    define_task-IsSameWork a at spec task late,
  )

  dispatch-Holds :
      (inner : StoreInner lru) (id : String) (event : AgentEvent)
      → lookup (scoped a id) (lru.iter inner.tasks) ≡ some task
      → event_task_id event ≡ some id
      → Holds (dispatch lru inner a at event) (scoped a id)
  unfolding dispatch event_task_id with_agent learn
  dispatch-Holds inner id (agent_registered r) found names = cc
  dispatch-Holds inner id (heartbeat h) found names = cc
  dispatch-Holds inner id (goal_declared goal) found names = cc
  dispatch-Holds inner id (task_created spec) found names =
      let named : spec.task_id ≡ id = cc in
      subst (λ i. Holds (create_task lru inner a at spec) (scoped a i)) named
        (create_task-Holds inner spec (rw named found))
  dispatch-Holds inner id (task_started started) found names =
      let named : started.task_id ≡ id = cc in rw named (run_task-Holds inner id found _ _)
  dispatch-Holds inner id (progress_updated p) found names =
      let named : p.task_id ≡ id = cc in rw named (run_task-Holds inner id found _ _)
  dispatch-Holds inner id (reflection_recorded r) found names =
      rw names (note_task-Holds inner id found _)
  dispatch-Holds inner id (lesson_learned lesson) found names = (task, found, same task)
  dispatch-Holds inner id (error_observed e) found names =
      rw names (note_task-Holds inner id found _)
  dispatch-Holds inner id (task_completed c) found names =
      let named : c.task_id ≡ id = cc in rw named (run_task-Holds inner id found _ _)
  dispatch-Holds inner id (agent_status_changed change) found names = cc

-- An event that is older than the last change of the task that it names leaves the work on the task
-- as it was: the task stays in the projection, and status, progress, attempt, summaries, blocker,
-- next action, reflection, outcome, artifacts and times of the work are unchanged. (A definition may
-- still replace an older definition.)
pub stale_event_keeps_work :
    (lru : Lru) (inner : StoreInner lru) (envelope : EventEnvelope) (task : TaskState) {id : String}
    → envelope.occurred_at < task.updated_at
    → event_task_id envelope.event ≡ some id
    → lookup (scoped envelope.agent.agent_id id) (lru.iter inner.tasks) ≡ some task
    → (new : TaskState) × (lookup
          (scoped envelope.agent.agent_id id)
          (lru.iter (apply_event lru inner envelope).tasks)
        ≡ some new)
      × IsSameWork task new
unfolding apply_event with_agent
stale_event_keeps_work lru inner envelope task {id} late names found =
    dispatch-Holds lru envelope.agent.agent_id envelope.occurred_at task late _ id envelope.event
      (rw (ensure_agent-tasks lru inner envelope) found) names
