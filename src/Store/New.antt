-- ===== src/Store/New.antt =====
-- `Store::new` of src/store.rs.
use meta_agent_control_plane.Prelude.{
  ℕ, zero, suc, ◌<◌, ◌≡◌, Bool, true, false, Option, none, some, [],
}
use meta_agent_control_plane.Config.{CacheConfig}
use meta_agent_control_plane.Model.{DateTime}
use meta_agent_control_plane.Lru.{Lru}
use meta_agent_control_plane.Store.State.{Counters, EvictionCounters, StoreInner}

abbrev pub no_counters : Counters
no_counters = record {
  accepted = 0;
  duplicate = 0;
  rejected = 0;
  accepted_by_transport = [];
  rejected_by_transport = [];
}

abbrev pub no_evictions : EvictionCounters
no_evictions = record { agents = 0; goals = 0; tasks = 0; lessons = 0; events = 0; idempotency = 0 }

-- `usize::MAX / 2`.
abbrev pub channel_maximum : ℕ
channel_maximum = 9223372036854775807

-- Which calls of the third-party crates go through when the store is made: `broadcast::channel` of
-- tokio with a capacity, and `LruCache::new`, which allocates a table for the capacity. The first
-- documents that it panics on a capacity of 0 and on one above half of `usize::MAX`. What the memory
-- of the process allows is not known.
pub record Host : Type 0 where
  pub channel : ℕ → Bool
  pub allocates : ℕ → Bool
  pub channel-zero : channel 0 ≡ false
  pub channel-large : (n : ℕ) → channel_maximum < n → channel n ≡ false

-- The value of a call that goes through.
abbrev pub make : {A : Type 0} → Bool → A → Option A
make true a = some a
make false a = none

module _ (lru : Lru) where
  -- `new_cache`: `none` is the panic on a capacity of zero, or the failure to allocate the table.
  unfoldable pub new_cache : {K V : Type 0} → Host → ℕ → Option (lru.LruCache K V)
  new_cache host zero = none
  new_cache host (suc n) = make (host.allocates (suc n)) (lru.new (suc n))

  infixl 5 ◌>>=◌
  abbrev ◌>>=◌ : {A B : Type 0} → Option A → (A → Option B) → Option B
  none >>= f = none
  some a >>= f = f a

  -- `Store::new`, at the time when the daemon starts; `none` is a panic, or an abort for want
  -- of memory.
  unfoldable pub new_store : Host → CacheConfig → ℕ → DateTime → Option (StoreInner lru)
  unfolding new_cache
  new_store host cache update_channel_capacity now = do
    updates ← make (host.channel update_channel_capacity) (tt {0})
    agents ← new_cache host cache.agents
    goals ← new_cache host cache.goals
    tasks ← new_cache host cache.tasks
    lessons ← new_cache host cache.lessons
    events ← new_cache host cache.events
    seen_event_ids ← new_cache host cache.idempotency
    some (record {
      agents = agents;
      goals = goals;
      tasks = tasks;
      lessons = lessons;
      events = events;
      seen_event_ids = seen_event_ids;
      evictions = no_evictions;
      counters = no_counters;
      revision = 0;
      started_at = now;
    })
