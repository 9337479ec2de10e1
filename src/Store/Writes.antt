-- ===== src/Store/Writes.antt =====
-- What `apply_event` of src/store.rs writes into an agent and into a task, for each kind of event.
use meta_agent_control_plane.Prelude.{
  String, Bool, true, false, ◌||◌, Option, none, some, [], min, max, leb, string_eq, if◌then◌else◌,
  is_some,
}
use meta_agent_control_plane.Model.{
  DateTime, f32_one, AgentRegistration, AgentStatus, Heartbeat, TaskSpec, TaskStarted,
  ProgressUpdate, Reflection, ErrorObservation, TaskCompleted, EventEnvelope, TaskOutcome,
}
use meta_agent_control_plane.Store.State.{ScopedId, scoped_eq, AgentState, TaskStatus, TaskState}
use meta_agent_control_plane.Store.Tasks.{remove_completion_counter, reconcile_completion_counters}

abbrev pub scoped : String → String → ScopedId
scoped agent_id entity_id = record { agent_id = agent_id; entity_id = entity_id }

-- `value.or(fallback)`: what `clone_from` under `if value.is_some()` leaves.
abbrev pub or_else {ℓ} : {A : Type ℓ} → Option A → Option A → Option A
or_else none fallback = fallback
or_else (some a) fallback = some a

-- What every event tells of its agent.
unfoldable pub refresh : EventEnvelope → AgentState → AgentState
refresh envelope agent = record agent {
  agent = envelope.agent;
  last_seen_at = max agent.last_seen_at envelope.occurred_at;
  session_id = or_else envelope.session_id agent.session_id;
}

abbrev pub status_if_idle : AgentStatus → AgentStatus → AgentStatus
status_if_idle AgentStatus.idle status = status
status_if_idle old status = old

unfoldable pub register : DateTime → AgentRegistration → AgentState → AgentState
register occurred_at registration agent = record agent {
  display_name = registration.display_name;
  capabilities = registration.capabilities;
  metadata = registration.metadata;
  status = status_if_idle agent.status registration.status;
  registered_at = min agent.registered_at occurred_at;
}

abbrev pub status_or : Option AgentStatus → AgentStatus → AgentStatus
status_or none old = old
status_or (some status) old = status

unfoldable pub beat : Heartbeat → AgentState → AgentState
beat h agent = record agent {
  status = status_or h.status agent.status;
  active_task_id = or_else h.active_task_id agent.active_task_id;
}

abbrev pub plan_status : AgentStatus → AgentStatus
plan_status AgentStatus.idle = AgentStatus.planning
plan_status AgentStatus.planning = AgentStatus.planning
plan_status old = old

unfoldable pub take_goal : String → AgentState → AgentState
take_goal goal_id agent = record agent {
  current_goal_id = some goal_id;
  status = plan_status agent.status;
}

-- A later definition replaces only what defines the task.
unfoldable pub define_task : String → DateTime → TaskSpec → TaskState → TaskState
define_task agent_id occurred_at task existing =
    if existing.inferred_from_out_of_order_event || leb existing.definition_updated_at occurred_at
    then record existing {
      task = task;
      agent_id = agent_id;
      inferred_from_out_of_order_event = false;
      definition_updated_at = occurred_at;
      created_at = min existing.created_at occurred_at;
      updated_at = max existing.updated_at occurred_at;
    }
    else existing

-- The writes under `occurred_at >= task.updated_at`.
unfoldable pub newer : DateTime → (TaskState → TaskState) → TaskState → TaskState
newer occurred_at write task = if leb task.updated_at occurred_at then write task else task

unfoldable pub start : DateTime → TaskStarted → TaskState → TaskState
start occurred_at started task = record task {
  outcome = none;
  status = TaskStatus.running;
  attempt = started.attempt;
  plan_summary = started.plan_summary;
  blocker = none;
  completion_summary = none;
  artifacts = [];
  completed_at = none;
  started_at = some occurred_at;
  updated_at = occurred_at;
}

unfoldable pub advance : DateTime → ProgressUpdate → TaskState → TaskState
advance occurred_at progress task = record task {
  outcome = none;
  progress = progress.progress;
  progress_summary = some progress.summary;
  blocker = progress.blocker;
  next_action = progress.next_action;
  status = if is_some progress.blocker then TaskStatus.blocked else TaskStatus.running;
  completion_summary = none;
  artifacts = [];
  completed_at = none;
  updated_at = occurred_at;
}

unfoldable pub reflect : DateTime → Reflection → TaskState → TaskState
reflect occurred_at reflection task = record task {
  latest_reflection = some reflection;
  next_action = reflection.next_action;
  updated_at = occurred_at;
}

unfoldable pub block : DateTime → ErrorObservation → TaskState → TaskState
block occurred_at error task = record task {
  blocker = some error.message;
  next_action = error.proposed_recovery;
  status = TaskStatus.blocked;
  updated_at = occurred_at;
}

unfoldable pub outcome_status : TaskOutcome → TaskStatus
outcome_status TaskOutcome.succeeded = TaskStatus.succeeded
outcome_status TaskOutcome.failed = TaskStatus.failed
outcome_status TaskOutcome.canceled = TaskStatus.canceled
outcome_status TaskOutcome.partial = TaskStatus.partial

abbrev pub is_succeeded : TaskOutcome → Bool
is_succeeded TaskOutcome.succeeded = true
is_succeeded _ = false

unfoldable pub complete : DateTime → TaskCompleted → TaskState → TaskState
complete occurred_at completed task = record task {
  status = outcome_status completed.outcome;
  progress = if is_succeeded completed.outcome then f32_one else task.progress;
  outcome = some completed.outcome;
  completion_summary = some completed.summary;
  artifacts = completed.artifacts;
  blocker = none;
  completed_at = some occurred_at;
  updated_at = occurred_at;
}

-- The agent's part of a start, of a progress report, of a completion, and of an error.
unfoldable pub agent_starts : String → Option TaskOutcome → AgentState → AgentState
agent_starts task_id previous_outcome agent =
    record (remove_completion_counter agent previous_outcome) {
      status = AgentStatus.running;
      active_task_id = some task_id;
    }

unfoldable pub agent_advances : ProgressUpdate → Option TaskOutcome → AgentState → AgentState
agent_advances progress previous_outcome agent =
    record (remove_completion_counter agent previous_outcome) {
      status = if is_some progress.blocker then AgentStatus.blocked else AgentStatus.running;
      active_task_id = some progress.task_id;
    }

unfoldable pub agent_completes : TaskOutcome → Option TaskOutcome → AgentState → AgentState
agent_completes outcome previous_outcome agent =
    reconcile_completion_counters (record agent { active_task_id = none }) previous_outcome outcome

-- The task that the writes apply to, if the cache holds it and the event is not older.
unfoldable pub applied : DateTime → Option TaskState → Option TaskState
applied occurred_at none = none
applied occurred_at (some task) = if leb task.updated_at occurred_at then some task else none
