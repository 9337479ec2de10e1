-- ===== src/Store/Counters.antt =====
-- The completion counters of src/store.rs: what they should say, over the entries of the agent
-- and of the task cache, and how a change of either cache moves them.
pub mod Steps
pub mod Written
pub mod Ensure
pub mod Events
pub mod Exact
use meta_agent_control_plane.Prelude.{
  ℕ, ◌+◌, ◌≤◌, ◌<◌, ◌≡◌, String, Bool, true, false, Option, none, some, List, [], ◌∷◌, length, ◌==◌,
  string_eq, if◌then◌else◌, arith, Bool-cases, Option-cases, inl, inr, ◌∙◌, sym, PartialEq,
}
use mathlib.Core.Option
use meta_agent_control_plane.Model.{
  TaskOutcome, u64_max, saturating_suc, saturating_pred, ProgressUpdate,
}
use meta_agent_control_plane.Lru.Assoc.{lookup, modify, push_items}
use meta_agent_control_plane.Lru.Laws.{lookup-modify, lookup-push_items_self, lookup-push_items_ne}
use meta_agent_control_plane.Lru.Weights.{weigh}
use meta_agent_control_plane.Store.State.{ScopedId, AgentState, TaskState}
use meta_agent_control_plane.Store.Tasks.{
  CompletionBucket, completed, failed, bucket_of, count_one, uncount_one, remove_completion_counter,
  moves_bucket, reconcile_completion_counters, add_outcome, counts_from,
}
use meta_agent_control_plane.Store.Writes.{agent_starts, agent_advances, agent_completes}

abbrev pub in_bucket : CompletionBucket → Option CompletionBucket → ℕ
in_bucket completed (some completed) = 1
in_bucket failed (some failed) = 1
in_bucket _ _ = 0

-- 1 if the task is this agent's and its outcome falls in the bucket, else 0.
abbrev pub share : String → CompletionBucket → TaskState → ℕ
share agent_id bucket task =
    if task.agent_id == agent_id then in_bucket bucket (bucket_of task.outcome) else 0

-- The number of retained tasks of an agent whose outcome falls in a bucket.
abbrev pub tally : String → CompletionBucket → List (ScopedId × TaskState) → ℕ
tally agent_id bucket = weigh (share agent_id bucket)

-- An agent's counters say how many of its retained tasks completed and failed.
pub record IsExact (agent_id : String) (agent : AgentState) (tasks : List (ScopedId × TaskState))
    : Type 0 where
  pub completes : agent.completed_tasks ≡ tally agent_id completed tasks
  pub fails : agent.failed_tasks ≡ tally agent_id failed tasks

-- So they do for every retained agent.
pub record IsCounted (agents : List (String × AgentState)) (tasks : List (ScopedId × TaskState))
    : Type 0 where
  pub exact :
      (agent_id : String) (agent : AgentState)
      → lookup agent_id agents ≡ some agent
      → IsExact agent_id agent tasks

-- The tallies of one agent after a task of it was replaced, or taken out (`new` is then 0).
pub record IsReplaced (agent_id : String) (old : TaskState) (new : CompletionBucket → ℕ)
    (tasks tasks' : List (ScopedId × TaskState)) : Type 0 where
  pub completes :
      tally agent_id completed tasks' + in_bucket completed (bucket_of old.outcome)
      ≡ new completed + tally agent_id completed tasks
  pub fails :
      tally agent_id failed tasks' + in_bucket failed (bucket_of old.outcome)
      ≡ new failed + tally agent_id failed tasks
  pub completes_fits : tally agent_id completed tasks' ≤ u64_max
  pub fails_fits : tally agent_id failed tasks' ≤ u64_max

module _ (a : String) (agent : AgentState) (old : TaskState)
    {tasks tasks' : List (ScopedId × TaskState)} where
  pub remove-IsExact :
      IsExact a agent tasks
      → IsReplaced a old (λ _. 0) tasks tasks'
      → IsExact a (remove_completion_counter agent old.outcome) tasks'
  unfolding remove_completion_counter uncount_one bucket_of saturating_pred
  remove-IsExact x r = ground arith

  pub starts-IsExact :
      (task_id : String)
      → IsExact a agent tasks
      → IsReplaced a old (λ b. in_bucket b (bucket_of none)) tasks tasks'
      → IsExact a (agent_starts task_id old.outcome agent) tasks'
  unfolding bucket_of agent_starts
  starts-IsExact task_id x r =
      let exact = remove-IsExact x (record {
        completes = r.completes;
        fails = r.fails;
        completes_fits = r.completes_fits;
        fails_fits = r.fails_fits;
      }) in
      record { completes = exact.completes; fails = exact.fails }

  pub advances-IsExact :
      (progress : ProgressUpdate)
      → IsExact a agent tasks
      → IsReplaced a old (λ b. in_bucket b (bucket_of none)) tasks tasks'
      → IsExact a (agent_advances progress old.outcome agent) tasks'
  unfolding bucket_of agent_advances
  advances-IsExact progress x r =
      let exact = remove-IsExact x (record {
        completes = r.completes;
        fails = r.fails;
        completes_fits = r.completes_fits;
        fails_fits = r.fails_fits;
      }) in
      record { completes = exact.completes; fails = exact.fails }

  pub completes-IsExact :
      (outcome : TaskOutcome)
      → IsExact a agent tasks
      → IsReplaced a old (λ b. in_bucket b (bucket_of (some outcome))) tasks tasks'
      → IsExact a (agent_completes outcome old.outcome agent) tasks'
  unfolding agent_completes reconcile_completion_counters moves_bucket count_one
      remove_completion_counter uncount_one bucket_of saturating_pred saturating_suc
  completes-IsExact outcome x r = ground arith

-- Agents other than `owner` keep their tallies.
pub record KeepsOthers (owner : String) (tasks tasks' : List (ScopedId × TaskState)) : Type 0 where
  pub same :
      (a : String) (b : CompletionBucket)
      → (owner == a) ≡ false
      → tally a b tasks' ≡ tally a b tasks

module _ {agents : List (String × AgentState)} {tasks tasks' : List (ScopedId × TaskState)} where
  -- The owner's counters follow its tasks, and no one else's tallies move.
  pub modify-IsCounted :
      (owner : String) (write : AgentState → AgentState)
      → IsCounted agents tasks
      → KeepsOthers owner tasks tasks'
      → ((agent : AgentState) → IsExact owner agent tasks → IsExact owner (write agent) tasks')
      → IsCounted (modify owner write agents) tasks'
  modify-IsCounted owner write c k x = record {
    exact = λ a agent found. elim (Bool-cases (owner == a)) [
      | inl same ↦ own a agent found ((string_eq.is_same_iff owner a).0 same)
      | inr other ↦
          let before = c.exact a agent (ground (arith, lookup-modify a owner write agents)) in
          record {
            completes = before.completes ∙ sym (k.same a completed other);
            fails = before.fails ∙ sym (k.same a failed other);
          }
    ];
  }
    where
      own :
          (a : String) (agent : AgentState)
          → lookup a (modify owner write agents) ≡ some agent
          → owner ≡ a
          → IsExact a agent tasks'
      own a agent found e = elim (Option-cases (lookup a agents)) [
        | inl miss ↦ absurd (ground (arith, lookup-modify a owner write agents))
        | inr (before, hit) ↦
            let written : write before ≡ agent =
              ground (arith, lookup-modify a owner write agents, string_eq.is_same_iff owner a) in
            rw (← written, ← e) (x before (rw e (c.exact a before hit)))
      ]

module _ {agents : List (String × AgentState)} {tasks : List (ScopedId × TaskState)} where
  -- A retained agent comes in with exact counters; no other entry is invented.
  pub push-IsCounted :
      (capacity : ℕ) (owner : String) (agent : AgentState)
      → IsCounted agents tasks
      → IsExact owner agent tasks
      → IsCounted (push_items capacity owner agent agents) tasks
  push-IsCounted capacity owner new c x = record {
    exact = λ a agent found. elim (Bool-cases (owner == a)) [
      | inl same ↦
          let e = (string_eq.is_same_iff owner a).0 same in
          let is_new : new ≡ agent =
            ground (arith, rw e at (lookup-push_items_self capacity owner new agents)) in
          rw (← is_new, ← e) x
      | inr other ↦
          c.exact a agent (ground (arith, lookup-push_items_ne capacity a owner new agents other))
    ];
  }

pub tally-le-length :
    (a : String) (b : CompletionBucket) (tasks : List (ScopedId × TaskState))
    → tally a b tasks ≤ length tasks
tally-le-length a b [] = omega arith
tally-le-length a completed ((_, task) ∷ tasks) = ground (arith, tally-le-length a completed tasks)
tally-le-length a failed ((_, task) ∷ tasks) = ground (arith, tally-le-length a failed tasks)

-- The fold of `task_counts` computes the tallies, on top of where it starts.
pub counts_from-tally :
    (a : String) (c f : ℕ) (tasks : List (ScopedId × TaskState))
    → c + tally a completed tasks ≤ u64_max
    → f + tally a failed tasks ≤ u64_max
    → counts_from a (c, f) tasks ≡ (c + tally a completed tasks, f + tally a failed tasks)
unfolding counts_from add_outcome saturating_suc
counts_from-tally a c f [] p q = ground arith
counts_from-tally a c f ((k, task) ∷ tasks) p q = ground (
  arith,
  counts_from-tally a c f tasks,
  counts_from-tally a (c + 1) f tasks,
  counts_from-tally a c (f + 1) tasks,
)
