-- ===== src/Store/Counters/Exact.antt =====
-- From the start of the daemon, whatever it receives, the completion counters are exact.
use meta_agent_control_plane.Prelude.{ℕ, ◌≤◌, ◌≡◌, ap, String, some, List, arith, string_eq, nat_eq}
use meta_agent_control_plane.Config.{CacheConfig}
use meta_agent_control_plane.Model.{u64_max, DateTime}
use meta_agent_control_plane.Lru.{Lru}
use meta_agent_control_plane.Lru.Assoc.{lookup}
use meta_agent_control_plane.Store.State.{AgentState, TaskState, ScopedId, scoped_eq, StoreInner}
use meta_agent_control_plane.Store.Tasks.{completed, failed}
use meta_agent_control_plane.Store.Ingest.{
  record_rejection, note_duplicate, count_accepted, remember_id, retain_event, accept,
}
use meta_agent_control_plane.Store.New.{Host, new_store}
use meta_agent_control_plane.Store.Fresh.{IsPositive, fresh, new_store_inversion}
use meta_agent_control_plane.Store.Run.{Request, serve, run, serve_elim, run_induction}
use meta_agent_control_plane.Store.Counters.{tally}
use meta_agent_control_plane.Store.Counters.Steps.{Sound}
use meta_agent_control_plane.Store.Counters.Events.{apply_event-Sound}

module _ (lru : Lru) where
  serve-Sound :
      (inner : StoreInner lru) (request : Request)
      → Sound lru inner
      → Sound lru (serve lru inner request)
  unfolding record_rejection note_duplicate accept count_accepted remember_id retain_event
  serve-Sound inner request s =
      serve_elim lru (Sound lru) inner request (λ transport. s) (λ event. s)
        (λ now event transport good new. apply_event-Sound lru _ event s)

  fresh-Sound :
      (config : CacheConfig) (now : DateTime)
      → config.tasks ≤ u64_max
      → IsPositive lru config
      → Sound lru (fresh lru config now)
  unfolding fresh lookup
  fresh-Sound config now word positive =
      let cap' = lru.cap-new {K = ScopedId} {V = TaskState} config.tasks in
      let empty = lru.iter-new {K = ScopedId} {V = TaskState} config.tasks in
      record {
        positive = rw cap' positive.tasks;
        word = rw cap' word;
        fits = rw empty (omega arith);
        owned = λ k task found. cc;
        counted = record {
          exact = λ a agent found.
              cc (found, ap (lookup a) (lru.iter-new {K = String} {V = AgentState} config.agents));
        };
      }

  new_store-Sound :
      (host : Host) (config : CacheConfig) (updates : ℕ) (now : DateTime) {start : StoreInner lru}
      → config.tasks ≤ u64_max
      → new_store lru host config updates now ≡ some start
      → Sound lru start
  new_store-Sound host config updates now word e =
      let (positive, started) = new_store_inversion lru host config updates now e in
      rw started (fresh-Sound config now word positive)

  -- From a new store, after any run of accepted, duplicate and rejected requests, a retained
  -- agent's counters are the numbers of its retained tasks whose outcome counts as completed and
  -- as failed. The capacity of the task cache fits a `usize`.
  pub run_counters_exact :
      (host : Host) (config : CacheConfig) (updates : ℕ) (now : DateTime) {start : StoreInner lru}
      (requests : List Request) (agent_id : String) (agent : AgentState)
      → config.tasks ≤ u64_max
      → new_store lru host config updates now ≡ some start
      → lookup agent_id (lru.iter (run lru start requests).agents) ≡ some agent
      → (agent.completed_tasks ≡ tally agent_id completed (lru.iter (run lru start requests).tasks))
        × (agent.failed_tasks ≡ tally agent_id failed (lru.iter (run lru start requests).tasks))
  run_counters_exact host config updates now {start} requests agent_id agent word e found =
      let sound =
        run_induction lru (Sound lru) serve-Sound start requests
          (new_store-Sound host config updates now word e) in
      let exact = sound.counted.exact agent_id agent found in (exact.completes, exact.fails)
