-- ===== src/Store/Opens.antt =====
-- The settings of src/config.rs and `Store::new` of src/store.rs together.
use meta_agent_control_plane.Prelude.{
  ℕ, zero, suc, ◌<◌, ◌≤◌, ◌≡◌, ◌⊎◌, refl, Bool, true, false, ◌&&◌, ok, arith, none, some,
}
use meta_agent_control_plane.Config.{Config, CacheConfig, cache_config}
use meta_agent_control_plane.Config
use meta_agent_control_plane.Config.Limits.{config_validate_iff}
use meta_agent_control_plane.Model.{DateTime}
use meta_agent_control_plane.Lru.{Lru}
use meta_agent_control_plane.Store.New.{Host, channel_maximum, make, new_cache, new_store}
use meta_agent_control_plane.Store.Fresh.{fresh}

-- The channel can be made, and there is memory for each cache.
abbrev pub has_room : Host → Config → Bool
has_room host c =
    host.channel c.update_channel_capacity
    && host.allocates c.agent_capacity
    && host.allocates c.goal_capacity
    && host.allocates c.task_capacity
    && host.allocates c.lesson_capacity
    && host.allocates c.event_capacity
    && host.allocates c.idempotency_capacity

module _ (lru : Lru) (host : Host) where
  new_cache_positive :
      {K V : Type 0} (n : ℕ)
      → 0 < n
      → new_cache lru {K = K} {V = V} host n ≡ make (host.allocates n) (lru.new n)
  unfolding new_cache
  new_cache_positive zero h = absurd (omega arith)
  new_cache_positive (suc n) h = refl

  -- A channel that can be made is not too large.
  channel_le : (n : ℕ) → host.channel n ≡ true → n ≤ channel_maximum
  channel_le n made = ground (arith, host.channel-large n)

  -- A configuration that `validate` accepts opens a store if the channel of the updates can be made
  -- and there is memory for the caches: the store starts empty, with every cache at its configured
  -- capacity, and the capacity of the channel is at most half of `usize::MAX`. Otherwise, and so
  -- whenever the capacity of the channel is above that, `Store::new` does not return.
  pub valid_config_opens :
      (c : Config) (now : DateTime)
      → Config.validate c ≡ ok
      → ((has_room host c ≡ true)
          × (c.update_channel_capacity ≤ channel_maximum)
          × (new_store lru host (cache_config c) c.update_channel_capacity now
              ≡ some (fresh lru (cache_config c) now)))
        ⊎ ((has_room host c ≡ false)
            × (new_store lru host (cache_config c) c.update_channel_capacity now ≡ none))
  unfolding new_store fresh cache_config
  valid_config_opens c now h =
      let room = ((config_validate_iff c).0 h).first in
      rw
        (
          new_cache_positive c.agent_capacity room.agents,
          new_cache_positive c.goal_capacity room.goals,
          new_cache_positive c.task_capacity room.tasks,
          new_cache_positive c.lesson_capacity room.lessons,
          new_cache_positive c.event_capacity room.events,
          new_cache_positive c.idempotency_capacity room.idempotency,
        )
        (ground (arith, channel_le c.update_channel_capacity))
