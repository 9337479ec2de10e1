-- ===== src/Store/Counters/Written.antt =====
-- Writes to a retained task, with the agent's part: the counters stay exact.
use meta_agent_control_plane.Prelude.{
  ◌+◌, ◌≤◌, ◌≡◌, String, false, Option, some, length, ◌==◌, string_eq, if◌then◌else◌, arith,
  Bool-cases, Option-cases, inl, inr, refl, ◌∙◌, sym, ap, ap₂,
}
use mathlib.Core.Option
use meta_agent_control_plane.Model.{TaskOutcome, u64_max}
use meta_agent_control_plane.Lru.{Lru}
use meta_agent_control_plane.Lru.Assoc.{lookup}
use meta_agent_control_plane.Lru.Laws.{lookup-modify, length-modify}
use meta_agent_control_plane.Lru.Weights.{weigh-modify}
use meta_agent_control_plane.Store.State.{ScopedId, scoped_eq, AgentState, TaskState, StoreInner}
use meta_agent_control_plane.Store.Tasks.{
  CompletionBucket, completed, failed, bucket_of, with_agent,
}
use meta_agent_control_plane.Store.Counters.{
  in_bucket, share, tally, IsExact, IsCounted, IsReplaced, modify-IsCounted, tally-le-length,
}
use meta_agent_control_plane.Store.Counters.Steps.{IsSound, Sound, same-IsCounted}

module _ (lru : Lru) (inner : StoreInner lru) (key : ScopedId) (write : TaskState → TaskState) where
  abbrev pub put_task : StoreInner lru
  put_task = record inner { tasks = lru.get_mut scoped_eq inner.tasks key write }

  -- What the write does to the task that it finds.
  abbrev pub Found : (TaskState → TaskState → Type 0) → Type 0
  Found R = (task : TaskState) → lookup key (lru.iter inner.tasks) ≡ some task → R task (write task)

  put_tally :
      (a : String) (b : CompletionBucket) (task : TaskState)
      → lookup key (lru.iter inner.tasks) ≡ some task
      → tally a b (lru.iter put_task.tasks) + share a b task
        ≡ share a b (write task) + tally a b (lru.iter inner.tasks)
  put_tally a b task hit =
      let law = weigh-modify (share a b) key write (lru.iter inner.tasks) in
      rw (lru.iter-get_mut scoped_eq inner.tasks key write) (rw hit at law)

  put_owned :
      Found (λ old new. new.agent_id ≡ old.agent_id)
      → Sound lru inner
      → (k : ScopedId) (task : TaskState) → lookup k (lru.iter put_task.tasks) ≡ some task
      → task.agent_id ≡ k.agent_id
  put_owned own s k task found = elim (Option-cases (lookup k (lru.iter inner.tasks))) [
    | inl miss ↦ absurd (ground (arith, found'))
    | inr (old, hit) ↦ elim (Bool-cases (scoped_eq.is_same key k)) [
      | inl same ↦
          let e = (scoped_eq.is_same_iff key k).0 same in
          let changed : write old ≡ task = ground (arith, found') in
          ap (λ (t : TaskState). t.agent_id) (sym changed) ∙ own old (rw e hit) ∙ s.owned k old hit
      | inr other ↦ s.owned k task (ground (arith, found'))
    ]
  ]
    where
      found' :
          (if scoped_eq.is_same key k
            then Option.map write (lookup k (lru.iter inner.tasks))
            else lookup k (lru.iter inner.tasks))
          ≡ some task
      found' =
          sym (
            rw (lru.iter-get_mut scoped_eq inner.tasks key write)
              (lookup-modify k key write (lru.iter inner.tasks)))
          ∙ found

  put_fits : Sound lru inner → length (lru.iter put_task.tasks) ≤ lru.cap inner.tasks
  put_fits s =
      rw (lru.iter-get_mut scoped_eq inner.tasks key write)
        (omega (arith, length-modify key write (lru.iter inner.tasks), s.fits))

  put-IsSound :
      (agents' : lru.LruCache String AgentState)
      → Found (λ old new. new.agent_id ≡ old.agent_id)
      → IsCounted (lru.iter agents') (lru.iter put_task.tasks)
      → Sound lru inner
      → IsSound lru agents' put_task.tasks
  put-IsSound agents' own c s =
      let cap' = lru.cap-get_mut scoped_eq inner.tasks key write in
      record {
        positive = rw cap' s.positive;
        word = rw cap' s.word;
        fits = rw cap' (put_fits s);
        owned = put_owned own s;
        counted = c;
      }

  -- A write that leaves the outcome alone.
  pub put_task-Sound :
      Found (λ old new. new.agent_id ≡ old.agent_id)
      → Found (λ old new. new.outcome ≡ old.outcome)
      → Sound lru inner
      → Sound lru put_task
  put_task-Sound own keep s = put-IsSound inner.agents own (same-IsCounted same s.counted) s
    where
      same :
          (a : String) (b : CompletionBucket)
          → tally a b (lru.iter put_task.tasks) ≡ tally a b (lru.iter inner.tasks)
      same a b = elim (Option-cases (lookup key (lru.iter inner.tasks))) [
        | inl miss ↦
            let law = weigh-modify (share a b) key write (lru.iter inner.tasks) in
            rw (lru.iter-get_mut scoped_eq inner.tasks key write) (omega (arith, rw miss at law))
        | inr (old, hit) ↦
            let equal : share a b (write old) ≡ share a b old =
              ap₂
                (λ (i : String) (o : Option TaskOutcome).
                  if i == a then in_bucket b (bucket_of o) else 0)
                (own old hit) (keep old hit) in
            omega (arith, put_tally a b old hit, equal)
      ]

  -- A write that changes the outcome, and what the owner then does to its counters.
  pub settles-Sound :
      (old : TaskState) (follow : AgentState → AgentState)
      → lookup key (lru.iter inner.tasks) ≡ some old
      → Found (λ old new. new.agent_id ≡ old.agent_id)
      → ((agent : AgentState)
          → IsExact key.agent_id agent (lru.iter inner.tasks)
          → IsReplaced key.agent_id old
              (λ b. in_bucket b (bucket_of (write old).outcome))
              (lru.iter inner.tasks)
              (lru.iter put_task.tasks)
          → IsExact key.agent_id (follow agent) (lru.iter put_task.tasks))
      → Sound lru inner
      → Sound lru (with_agent lru put_task key.agent_id follow)
  unfolding with_agent
  settles-Sound old follow hit own x s =
      put-IsSound _ own
        (rw (lru.iter-get_mut string_eq inner.agents key.agent_id follow) (
          modify-IsCounted key.agent_id follow s.counted (record { same = others })
            (λ agent exact. x agent exact replaced)))
        s
    where
      mine : old.agent_id ≡ key.agent_id
      mine = s.owned key old hit

      mine' : (write old).agent_id ≡ key.agent_id
      mine' = own old hit ∙ mine

      share_other :
          (a : String) (b : CompletionBucket) (task : TaskState)
          → task.agent_id ≡ key.agent_id
          → (key.agent_id == a) ≡ false
          → share a b task ≡ 0
      share_other a b task e h = rw (e, h) refl

      others :
          (a : String) (b : CompletionBucket)
          → (key.agent_id == a) ≡ false
          → tally a b (lru.iter put_task.tasks) ≡ tally a b (lru.iter inner.tasks)
      others a b h = omega (
        arith,
        put_tally a b old hit,
        share_other a b old mine h,
        share_other a b (write old) mine' h,
      )

      share_own :
          (b : CompletionBucket) (task : TaskState)
          → task.agent_id ≡ key.agent_id
          → share key.agent_id b task ≡ in_bucket b (bucket_of task.outcome)
      share_own b task e = rw (e, (string_eq.is_same_iff key.agent_id key.agent_id).1 refl) refl

      tally_own :
          (b : CompletionBucket)
          → tally key.agent_id b (lru.iter put_task.tasks) + in_bucket b (bucket_of old.outcome)
            ≡ in_bucket b (bucket_of (write old).outcome)
              + tally key.agent_id b (lru.iter inner.tasks)
      tally_own b = omega (
        arith,
        put_tally key.agent_id b old hit,
        share_own b old mine,
        share_own b (write old) mine',
      )

      bound : (b : CompletionBucket) → tally key.agent_id b (lru.iter put_task.tasks) ≤ u64_max
      bound b =
          omega
            (arith, tally-le-length key.agent_id b (lru.iter put_task.tasks), put_fits s, s.word)

      replaced :
          IsReplaced key.agent_id old
            (λ b. in_bucket b (bucket_of (write old).outcome))
            (lru.iter inner.tasks)
            (lru.iter put_task.tasks)
      replaced = record {
        completes = tally_own completed;
        fails = tally_own failed;
        completes_fits = bound completed;
        fails_fits = bound failed;
      }
