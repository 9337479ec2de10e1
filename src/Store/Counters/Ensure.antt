-- ===== src/Store/Counters/Ensure.antt =====
-- `ensure_task` and `ensure_agent` keep the completion counters exact: an agent that comes back
-- after its eviction is given the tallies of its retained tasks.
use meta_agent_control_plane.Prelude.{
  ℕ, String, string_eq, arith, Bool-cases, inl, inr, refl, ◌∙◌, sym, ap, is_some, none_of_is_some,
}
use meta_agent_control_plane.Model.{DateTime, EventEnvelope}
use meta_agent_control_plane.Lru.{Lru}
use meta_agent_control_plane.Store.State.{scoped_eq, AgentState, StoreInner}
use meta_agent_control_plane.Store.Tasks.{
  completed, failed, task_counts, inferred_task, ensure_task, new_agent, ensure_agent, from_spec,
  push_with_eviction,
}
use meta_agent_control_plane.Store.Writes.{scoped}
use meta_agent_control_plane.Store.Eviction.{iter-push_with_eviction}
use meta_agent_control_plane.Store.Counters.{
  IsExact, push-IsCounted, counts_from-tally, tally-le-length,
}
use meta_agent_control_plane.Store.Counters.Steps.{IsSound, Sound, insert_task-Sound}

module _ (lru : Lru) where
  pub ensure_task-Sound :
      (inner : StoreInner lru) (task_id agent_id : String) (at : DateTime)
      → Sound lru inner
      → Sound lru (ensure_task lru inner task_id agent_id at)
  unfolding ensure_task inferred_task from_spec
  ensure_task-Sound inner task_id agent_id at s =
      elim (Bool-cases (is_some (lru.peek scoped_eq inner.tasks (scoped agent_id task_id)))) [
        | inl there ↦ rw there s
        | inr absent ↦ rw absent (
            insert_task-Sound lru inner (scoped agent_id task_id) _
              (sym (lru.peek-iter scoped_eq inner.tasks (scoped agent_id task_id))
                ∙ none_of_is_some _ absent)
              refl refl s)
      ]

  new_agent-IsExact :
      (inner : StoreInner lru) (envelope : EventEnvelope)
      → Sound lru inner
      → IsExact envelope.agent.agent_id (new_agent lru inner envelope) (lru.iter inner.tasks)
  unfolding new_agent task_counts
  new_agent-IsExact inner envelope s =
      let a = envelope.agent.agent_id in
      let tasks = lru.iter inner.tasks in
      let c = tally-le-length a completed tasks in
      let f = tally-le-length a failed tasks in
      let folded =
        counts_from-tally a 0 0 tasks (omega (arith, c, s.fits, s.word))
          (omega (arith, f, s.fits, s.word)) in
      record {
        completes = ap (λ (p : ℕ × ℕ). p.0) folded ∙ omega arith;
        fails = ap (λ (p : ℕ × ℕ). p.1) folded ∙ omega arith;
      }

  pub ensure_agent-Sound :
      (inner : StoreInner lru) (envelope : EventEnvelope)
      → Sound lru inner
      → Sound lru (ensure_agent lru inner envelope)
  unfolding ensure_agent
  ensure_agent-Sound inner envelope s =
      elim (Bool-cases (is_some (lru.peek string_eq inner.agents a))) [
        | inl there ↦ rw there s
        | inr absent ↦
            rw absent
              (elim (Bool-cases (is_some (push_with_eviction lru string_eq inner.agents a new).1)) [
                | inl full ↦ rw full pushed
                | inr room ↦ rw room pushed
              ])
      ]
    where
      a : String
      a = envelope.agent.agent_id

      new : AgentState
      new = new_agent lru inner envelope

      pushed : IsSound lru (push_with_eviction lru string_eq inner.agents a new).0 inner.tasks
      pushed = record {
        positive = s.positive;
        word = s.word;
        fits = s.fits;
        owned = s.owned;
        counted = rw (iter-push_with_eviction lru string_eq inner.agents a new) (
            push-IsCounted (lru.cap inner.agents) a new s.counted
              (new_agent-IsExact inner envelope s));
      }
