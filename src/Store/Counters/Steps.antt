-- ===== src/Store/Counters/Steps.antt =====
-- The pieces of the reducer keep every retained agent's counters equal to the tallies of its
-- retained tasks: insertion with eviction, `ensure_task`, `ensure_agent`, and task writes.
use meta_agent_control_plane.Prelude.{
  ℕ, ◌+◌, ◌≤◌, ◌<◌, ◌≡◌, String, Option, none, some, List, length, ◌==◌, string_eq, arith,
  Bool-cases, inl, inr, refl, ◌∙◌, sym,
}
use meta_agent_control_plane.Model.{u64_max}
use meta_agent_control_plane.Lru.{Lru}
use meta_agent_control_plane.Lru.Assoc.{lookup, push_items}
use meta_agent_control_plane.Lru.Laws.{
  lookup-push_items_self, lookup-push_items_ne, length-push_items,
}
use meta_agent_control_plane.Lru.Weights.{weigh_opt, weigh-push_items}
use meta_agent_control_plane.Store.State.{ScopedId, scoped_eq, AgentState, TaskState, StoreInner}
use meta_agent_control_plane.Store.Tasks.{
  CompletionBucket, completed, failed, bucket_of, remove_completion_counter, push_with_eviction,
  with_agent, note_evicted, insert_task,
}
use meta_agent_control_plane.Store.Eviction.{
  iter-push_with_eviction, cap-push_with_eviction, weigh-evicted,
}
use meta_agent_control_plane.Store.Counters.{
  share, tally, IsCounted, IsReplaced, KeepsOthers, remove-IsExact, modify-IsCounted,
  tally-le-length,
}

-- The agents' counters are exact, each task belongs to the agent that its key names, and the task
-- cache keeps within a capacity that a `usize` can hold.
pub record IsSound (lru : Lru) (agents : lru.LruCache String AgentState)
    (tasks : lru.LruCache ScopedId TaskState) : Type 0 where
  pub positive : 0 < lru.cap tasks
  pub word : lru.cap tasks ≤ u64_max
  pub fits : length (lru.iter tasks) ≤ lru.cap tasks
  pub owned :
      (k : ScopedId) (task : TaskState)
      → lookup k (lru.iter tasks) ≡ some task
      → task.agent_id ≡ k.agent_id
  pub counted : IsCounted (lru.iter agents) (lru.iter tasks)

module _ (lru : Lru) where
  abbrev pub Sound : StoreInner lru → Type 0
  Sound inner = IsSound lru inner.agents inner.tasks

  -- A write to one agent that leaves its counters alone.
  pub with_agent-Sound :
      (inner : StoreInner lru) (a : String) (write : AgentState → AgentState)
      → ((agent : AgentState) → (write agent).completed_tasks ≡ agent.completed_tasks)
      → ((agent : AgentState) → (write agent).failed_tasks ≡ agent.failed_tasks)
      → Sound inner
      → Sound (with_agent lru inner a write)
  unfolding with_agent
  with_agent-Sound inner a write c f s = record {
    positive = s.positive;
    word = s.word;
    fits = s.fits;
    owned = s.owned;
    counted = rw (lru.iter-get_mut string_eq inner.agents a write) (
        modify-IsCounted a write s.counted (record { same = λ x b h. refl })
          (λ agent x. record { completes = c agent ∙ x.completes; fails = f agent ∙ x.fails }));
  }

-- The tallies after a task left, if one did.
pub record IsShifted (old : Option TaskState) (tasks tasks' : List (ScopedId × TaskState))
    : Type 0 where
  pub at :
      (a : String) (b : CompletionBucket)
      → tally a b tasks' + weigh_opt (share a b) old ≡ tally a b tasks

shift-KeepsOthers :
    (old : TaskState) {tasks tasks' : List (ScopedId × TaskState)}
    → IsShifted (some old) tasks tasks'
    → KeepsOthers old.agent_id tasks tasks'
shift-KeepsOthers old s = record { same = λ a b h. ground (arith, s.at a b) }

shift-IsReplaced :
    (old : TaskState) {tasks tasks' : List (ScopedId × TaskState)}
    → IsShifted (some old) tasks tasks'
    → length tasks' ≤ u64_max
    → IsReplaced old.agent_id old (λ _. 0) tasks tasks'
shift-IsReplaced old {tasks} {tasks'} s h =
    let own = string_eq.is_same_iff old.agent_id old.agent_id in
    record {
      completes = ground (arith, own.1 refl, s.at old.agent_id completed);
      fails = ground (arith, own.1 refl, s.at old.agent_id failed);
      completes_fits = omega (arith, tally-le-length old.agent_id completed tasks');
      fails_fits = omega (arith, tally-le-length old.agent_id failed tasks');
    }

-- A task with no outcome counts for nothing.
fresh_share :
    (a : String) (b : CompletionBucket) (state : TaskState)
    → state.outcome ≡ none
    → share a b state ≡ 0
unfolding bucket_of
fresh_share a completed state fresh = ground arith
fresh_share a failed state fresh = ground arith

pub same-IsCounted :
    {agents : List (String × AgentState)} {tasks tasks' : List (ScopedId × TaskState)}
    → ((a : String) (b : CompletionBucket) → tally a b tasks' ≡ tally a b tasks)
    → IsCounted agents tasks
    → IsCounted agents tasks'
same-IsCounted same c = record {
  exact = λ a agent found.
      let x = c.exact a agent found in
      record {
        completes = x.completes ∙ sym (same a completed);
        fails = x.fails ∙ sym (same a failed);
      };
}

module _ (lru : Lru) where
  -- A new key with no outcome yet: the tallies lose what was evicted.
  insert-IsShifted :
      (cache : lru.LruCache ScopedId TaskState) (key : ScopedId) (state : TaskState)
      → lookup key (lru.iter cache) ≡ none
      → state.outcome ≡ none
      → let (tasks', evicted) = push_with_eviction lru scoped_eq cache key state in
        IsShifted evicted (lru.iter cache) (lru.iter tasks')
  insert-IsShifted cache key state miss fresh = record {
    at = λ a b.
        let room = weigh-push_items (share a b) (lru.cap cache) key state (lru.iter cache) in
        let gone = weigh-evicted lru scoped_eq cache key state (share a b) miss in
        let none_yet : share a b state ≡ 0 = fresh_share a b state fresh in
        rw (iter-push_with_eviction lru scoped_eq cache key state)
          (omega (arith, room, gone, none_yet));
  }

  note_evicted-IsCounted :
      (old : Option TaskState) (inner : StoreInner lru) {tasks : List (ScopedId × TaskState)}
      → IsCounted (lru.iter inner.agents) tasks
      → IsShifted old tasks (lru.iter inner.tasks)
      → length (lru.iter inner.tasks) ≤ u64_max
      → IsCounted (lru.iter (note_evicted lru old inner).agents) (lru.iter inner.tasks)
  unfolding note_evicted with_agent
  note_evicted-IsCounted none inner c s h = same-IsCounted (λ a b. omega (arith, s.at a b)) c
  note_evicted-IsCounted (some old) inner c s h =
      rw
        (lru.iter-get_mut string_eq inner.agents old.agent_id
          (λ agent. remove_completion_counter agent old.outcome))
        (modify-IsCounted old.agent_id _ c (shift-KeepsOthers old s)
          (λ agent x. remove-IsExact old.agent_id agent old x (shift-IsReplaced old s h)))

  -- What an insertion leaves in the task cache.
  tasks-note_evicted :
      (old : Option TaskState) (inner : StoreInner lru)
      → (note_evicted lru old inner).tasks ≡ inner.tasks
  unfolding note_evicted with_agent
  tasks-note_evicted none inner = refl
  tasks-note_evicted (some old) inner = refl

  pub tasks-insert_task :
      (inner : StoreInner lru) (key : ScopedId) (state : TaskState)
      → (insert_task lru inner key state).tasks
        ≡ (push_with_eviction lru scoped_eq inner.tasks key state).0
  unfolding insert_task
  tasks-insert_task inner key state = tasks-note_evicted _ _

  owned_after :
      (capacity : ℕ) (key : ScopedId) (state : TaskState) (l : List (ScopedId × TaskState))
      → state.agent_id ≡ key.agent_id
      → ((k : ScopedId) (task : TaskState) → lookup k l ≡ some task → task.agent_id ≡ k.agent_id)
      → (k : ScopedId) (task : TaskState) → lookup k (push_items capacity key state l) ≡ some task
      → task.agent_id ≡ k.agent_id
  owned_after capacity key state l own old k task found = elim (Bool-cases (key == k)) [
    | inl same ↦
        let e = (scoped_eq.is_same_iff key k).0 same in
        ground (arith, rw e at (lookup-push_items_self capacity key state l))
    | inr other ↦ old k task (ground (arith, lookup-push_items_ne capacity k key state l other))
  ]

  pub insert_task-Sound :
      (inner : StoreInner lru) (key : ScopedId) (state : TaskState)
      → lookup key (lru.iter inner.tasks) ≡ none
      → state.outcome ≡ none
      → state.agent_id ≡ key.agent_id
      → Sound lru inner
      → Sound lru (insert_task lru inner key state)
  insert_task-Sound inner key state miss fresh own s =
      let tasks' = (push_with_eviction lru scoped_eq inner.tasks key state).0 in
      let cap' = cap-push_with_eviction lru scoped_eq inner.tasks key state in
      let fits' : length (lru.iter tasks') ≤ lru.cap inner.tasks =
        rw (iter-push_with_eviction lru scoped_eq inner.tasks key state) (
          length-push_items (lru.cap inner.tasks) key state (lru.iter inner.tasks) s.positive
            s.fits) in
      rw (tasks-insert_task inner key state) (record {
        positive = rw cap' s.positive;
        word = rw cap' s.word;
        fits = rw cap' fits';
        owned =
            rw (iter-push_with_eviction lru scoped_eq inner.tasks key state)
              (owned_after (lru.cap inner.tasks) key state (lru.iter inner.tasks) own s.owned);
        counted =
            unfold insert_task in
            note_evicted-IsCounted _ (record inner { tasks = tasks' }) s.counted
              (insert-IsShifted inner.tasks key state miss fresh) (omega (arith, fits', s.word));
      })
