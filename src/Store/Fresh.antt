-- ===== src/Store/Fresh.antt =====
-- `Store::new` of src/store.rs: what it starts with, and that it panics on a capacity of zero.
use meta_agent_control_plane.Prelude.{ℕ, ◌<◌, ◌≡◌, some, arith}
use meta_agent_control_plane.Config.{CacheConfig}
use meta_agent_control_plane.Model.{DateTime}
use meta_agent_control_plane.Lru.{Lru}
use meta_agent_control_plane.Store.State.{StoreInner}
use meta_agent_control_plane.Store.New.{Host, new_store, no_counters, no_evictions}

module _ (lru : Lru) where
  unfoldable pub fresh : CacheConfig → DateTime → StoreInner lru
  fresh cache now = record {
    agents = lru.new cache.agents;
    goals = lru.new cache.goals;
    tasks = lru.new cache.tasks;
    lessons = lru.new cache.lessons;
    events = lru.new cache.events;
    seen_event_ids = lru.new cache.idempotency;
    evictions = no_evictions;
    counters = no_counters;
    revision = 0;
    started_at = now;
  }

  pub record IsPositive (cache : CacheConfig) : Type 0 where
    pub agents : 0 < cache.agents
    pub goals : 0 < cache.goals
    pub tasks : 0 < cache.tasks
    pub lessons : 0 < cache.lessons
    pub events : 0 < cache.events
    pub idempotency : 0 < cache.idempotency

  pub new_store_inversion :
      (host : Host) (cache : CacheConfig) (updates : ℕ) (now : DateTime) {start : StoreInner lru}
      → new_store lru host cache updates now ≡ some start
      → IsPositive cache × (start ≡ fresh cache now)
  unfolding new_store fresh
  new_store_inversion host cache updates now e = ground arith
