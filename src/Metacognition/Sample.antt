-- ===== src/Metacognition/Sample.antt =====
-- Sample tasks and numbers for src/metacognition/ and src/coordination.rs.
use meta_agent_control_plane.Prelude.{◌-◌, ◌+◌, pos, String, false, none, List, [], ◌∷◌, ltb}
use meta_agent_control_plane.Store.State.{AgentState, TaskState, TaskStatus, Snapshot}
use meta_agent_control_plane.Metacognition.Outside.{Outside}
use meta_agent_control_plane.Store.Sample.{start}
use meta_agent_control_plane.Store.Ingest
use meta_agent_control_plane.Lru.Sample.{recency_lru}

abbrev pub task : String → List String → TaskState
task id depends_on = record {
  task = record {
    task_id = id;
    title = id;
    goal_id = none;
    depends_on = depends_on;
    tags = [];
    expected_outcome = none;
  };
  agent_id = "agent-a";
  status = TaskStatus.pending;
  progress = 0;
  attempt = 1;
  plan_summary = none;
  progress_summary = none;
  blocker = none;
  next_action = none;
  latest_reflection = none;
  outcome = none;
  completion_summary = none;
  artifacts = [];
  inferred_from_out_of_order_event = false;
  definition_updated_at = 1;
  created_at = 1;
  started_at = none;
  completed_at = none;
  updated_at = 1;
}

-- Floats that are not negative compare as their bits do.
abbrev pub outside : Outside
outside = record {
  is_less = λ a b. ltb a b;
  add = λ a b. a + b;
  div = λ a b. a;
  from_usize = λ n. n;
  num_seconds = λ now before. pos (now - before);
  number = λ n. "some";
  integer = λ i. "some";
  percent = λ f. "some";
}

-- A task that succeeded, one that waits for it, and one that waits for that.
abbrev pub chain_tasks : List TaskState
chain_tasks =
    task "a" ("b" ∷ [])
    ∷ task "b" ("c" ∷ [])
    ∷ record (task "c" []) { status = TaskStatus.succeeded }
    ∷ []

-- The snapshot of the tasks at a time at which they are stale.
abbrev pub chain_snapshot : List AgentState → Snapshot
chain_snapshot agents = record (Ingest.snapshot recency_lru start 2000) {
  agents = agents;
  tasks = chain_tasks;
}
