-- ===== src/Store/Tasks.antt =====
-- The parts of src/store.rs below the reducer: eviction, completion counters, and the agents and
-- tasks that the reducer makes up when an event names one that the caches do not hold.
use Prim.Native.String.{◌++◌}
use meta_agent_control_plane.Prelude.{
  ℕ, String, Bool, true, false, Option, none, some, List, [], ◌∷◌, ◌==◌, string_eq, if◌then◌else◌,
  PartialEq, is_some,
}
use meta_agent_control_plane.Model.{
  DateTime, f32_zero, saturating_suc, saturating_pred, AgentStatus, EventEnvelope, TaskOutcome,
  TaskSpec,
}
use meta_agent_control_plane.Lru.{Lru}
use meta_agent_control_plane.Store.State.{
  ScopedId, scoped_eq, AgentState, TaskStatus, TaskState, StoreInner,
}

pub data CompletionBucket : Type 0 where
  completed failed : CompletionBucket

unfoldable pub completion_bucket : TaskOutcome → CompletionBucket
completion_bucket TaskOutcome.succeeded = completed
completion_bucket TaskOutcome.partial = completed
completion_bucket TaskOutcome.failed = failed
completion_bucket TaskOutcome.canceled = failed

abbrev pub bucket_eq : CompletionBucket → CompletionBucket → Bool
bucket_eq completed completed = true
bucket_eq failed failed = true
bucket_eq _ _ = false

-- `outcome.map(completion_bucket)`.
unfoldable pub bucket_of : Option TaskOutcome → Option CompletionBucket
unfolding completion_bucket
bucket_of none = none
bucket_of (some outcome) = some (completion_bucket outcome)

-- One more, or one less, in the counter of a bucket.
unfoldable pub count_one : CompletionBucket → AgentState → AgentState
count_one completed agent = record agent { completed_tasks = saturating_suc agent.completed_tasks }
count_one failed agent = record agent { failed_tasks = saturating_suc agent.failed_tasks }

unfoldable pub uncount_one : Option CompletionBucket → AgentState → AgentState
uncount_one none agent = agent
uncount_one (some completed) agent = record agent {
  completed_tasks = saturating_pred agent.completed_tasks;
}
uncount_one (some failed) agent = record agent { failed_tasks = saturating_pred agent.failed_tasks }

unfoldable pub remove_completion_counter : AgentState → Option TaskOutcome → AgentState
remove_completion_counter agent outcome = uncount_one (bucket_of outcome) agent

-- `previous_bucket != Some(current_bucket)`.
unfoldable pub moves_bucket : Option CompletionBucket → CompletionBucket → Bool
moves_bucket none current = true
moves_bucket (some completed) completed = false
moves_bucket (some failed) failed = false
moves_bucket (some _) _ = true

unfoldable pub bucket_status : CompletionBucket → AgentStatus
bucket_status completed = AgentStatus.completed
bucket_status failed = AgentStatus.failed

unfoldable pub reconcile_completion_counters :
    AgentState → Option TaskOutcome → TaskOutcome → AgentState
reconcile_completion_counters agent previous_outcome current_outcome =
    let current = completion_bucket current_outcome in
    let counted =
      if moves_bucket (bucket_of previous_outcome) current
      then count_one current (remove_completion_counter agent previous_outcome)
      else agent in
    record counted { status = bucket_status current }

-- One step of the fold in `task_counts`, over the completed and the failed tasks so far.
unfoldable pub add_outcome : Option CompletionBucket → ℕ × ℕ → ℕ × ℕ
add_outcome none (c, f) = (c, f)
add_outcome (some completed) (c, f) = (saturating_suc c, f)
add_outcome (some failed) (c, f) = (c, saturating_suc f)

-- The filter and the fold of `task_counts`, over the entries of the task cache.
unfoldable pub counts_from : String → ℕ × ℕ → List (ScopedId × TaskState) → ℕ × ℕ
counts_from agent_id acc [] = acc
counts_from agent_id acc ((_, task) ∷ entries) =
    counts_from agent_id
      (if task.agent_id == agent_id then add_outcome (bucket_of task.outcome) acc else acc) entries

-- `TaskState::from_spec`.
unfoldable pub from_spec : TaskSpec → String → DateTime → Bool → TaskState
from_spec task agent_id occurred_at inferred = record {
  task = task;
  agent_id = agent_id;
  status = TaskStatus.pending;
  progress = f32_zero;
  attempt = 0;
  plan_summary = none;
  progress_summary = none;
  blocker = none;
  next_action = none;
  latest_reflection = none;
  outcome = none;
  completion_summary = none;
  artifacts = [];
  inferred_from_out_of_order_event = inferred;
  definition_updated_at = occurred_at;
  created_at = occurred_at;
  started_at = none;
  completed_at = none;
  updated_at = occurred_at;
}

module _ (lru : Lru) where
  -- The value that a push displaced, if the key is new.
  unfoldable pub push_with_eviction :
      {K V : Type 0} → PartialEq K → lru.LruCache K V → K → V → lru.LruCache K V × Option V
  push_with_eviction e cache key value =
      let (cache', out) = lru.push e cache key value in
      (
        cache',
        if is_some (lru.peek e cache key)
            then none
            else elim out [ none ↦ none | some (_, v) ↦ some v ],
      )

  -- `if let Some(agent) = inner.agents.get_mut(agent_id) { ... }`.
  unfoldable pub with_agent : StoreInner lru → String → (AgentState → AgentState) → StoreInner lru
  with_agent inner agent_id write = record inner {
    agents = lru.get_mut string_eq inner.agents agent_id write;
  }

  unfoldable pub task_counts : StoreInner lru → String → ℕ × ℕ
  task_counts inner agent_id = counts_from agent_id (0, 0) (lru.iter inner.tasks)

  -- The counters after the task cache gave up a task.
  unfoldable pub note_evicted : Option TaskState → StoreInner lru → StoreInner lru
  note_evicted none inner = inner
  note_evicted (some task) inner =
      with_agent
        (record inner {
          evictions = record inner.evictions { tasks = saturating_suc inner.evictions.tasks };
        })
        task.agent_id (λ agent. remove_completion_counter agent task.outcome)

  unfoldable pub insert_task : StoreInner lru → ScopedId → TaskState → StoreInner lru
  insert_task inner key state =
      let (tasks', evicted) = push_with_eviction scoped_eq inner.tasks key state in
      note_evicted evicted (record inner { tasks = tasks' })

  -- The task that `ensure_task` makes up.
  unfoldable pub inferred_task : String → String → DateTime → TaskState
  inferred_task task_id agent_id occurred_at =
      from_spec
        (record {
          task_id = task_id;
          title = "Task " ++ task_id;
          goal_id = none;
          depends_on = [];
          tags = "inferred" ∷ [];
          expected_outcome = none;
        })
        agent_id occurred_at true

  unfoldable pub ensure_task : StoreInner lru → String → String → DateTime → StoreInner lru
  ensure_task inner task_id agent_id occurred_at =
      let key : ScopedId = record { agent_id = agent_id; entity_id = task_id } in
      if is_some (lru.peek scoped_eq inner.tasks key)
      then inner
      else insert_task inner key (inferred_task task_id agent_id occurred_at)

  -- The agent that `ensure_agent` makes up.
  unfoldable pub new_agent : StoreInner lru → EventEnvelope → AgentState
  new_agent inner envelope =
      let (completed_tasks, failed_tasks) = task_counts inner envelope.agent.agent_id in
      record {
        agent = envelope.agent;
        display_name = envelope.agent.agent_id;
        capabilities = [];
        metadata = [];
        status = AgentStatus.idle;
        session_id = envelope.session_id;
        current_goal_id = none;
        active_task_id = none;
        registered_at = envelope.occurred_at;
        last_seen_at = envelope.occurred_at;
        completed_tasks = completed_tasks;
        failed_tasks = failed_tasks;
        latest_reflection = none;
        latest_error = none;
      }

  unfoldable pub ensure_agent : StoreInner lru → EventEnvelope → StoreInner lru
  ensure_agent inner envelope =
      let key = envelope.agent.agent_id in
      let (agents', evicted) =
        push_with_eviction string_eq inner.agents key (new_agent inner envelope) in
      if is_some (lru.peek string_eq inner.agents key)
      then inner
      else if is_some evicted
      then record inner {
        agents = agents';
        evictions = record inner.evictions { agents = saturating_suc inner.evictions.agents };
      }
      else record inner { agents = agents' }
