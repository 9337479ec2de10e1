-- ===== src/Store/Eviction.antt =====
-- `push_with_eviction` of src/store.rs: what it leaves in the cache, and when it reports a value.
use meta_agent_control_plane.Prelude.{
  ℕ, ◌≡◌, Option, none, some, length, PartialEq, refl, is_some, if◌then◌else◌, ltb, arith,
  Option-cases, inl, inr,
}
use meta_agent_control_plane.Lru.{Lru}
use meta_agent_control_plane.Lru.Assoc.{last, lookup, push_items, displaced}
use meta_agent_control_plane.Lru.Weights.{weigh_opt, weigh_out}
use meta_agent_control_plane.Store.Tasks.{push_with_eviction}

-- The value of an entry that may be absent.
abbrev pub entry_value {ℓ} : {K V : Type ℓ} → Option (K × V) → Option V
entry_value none = none
entry_value (some (_, v)) = some v

weigh_entry_value :
    {K V : Type 0} (w : V → ℕ) (o : Option (K × V)) → weigh_opt w (entry_value o) ≡ weigh_out w o
weigh_entry_value w none = refl
weigh_entry_value w (some (k, v)) = refl

module _ (lru : Lru) {K V : Type 0} (e : PartialEq K) (c : lru.LruCache K V) (k : K) (v : V) where
  pub iter-push_with_eviction :
      lru.iter (push_with_eviction lru e c k v).0 ≡ push_items ⦃e = e⦄ (lru.cap c) k v (lru.iter c)
  unfolding push_with_eviction
  iter-push_with_eviction = lru.iter-push e c k v

  pub cap-push_with_eviction : lru.cap (push_with_eviction lru e c k v).0 ≡ lru.cap c
  unfolding push_with_eviction
  cap-push_with_eviction = lru.cap-push e c k v

  -- A push reports a value exactly when the key is new and the cache is full: the value of the
  -- least recently used entry. The value that an update of a key replaces is not reported.
  pub push_with_eviction_reports : (push_with_eviction lru e c k v).1 ≡ (
      if is_some (lookup ⦃e = e⦄ k (lru.iter c))
      then none
      else if ltb (length (lru.iter c)) (lru.cap c)
      then none
      else entry_value (last (lru.iter c)))
  unfolding push_with_eviction displaced
  push_with_eviction_reports =
      rw (lru.peek-iter, lru.push-displaced)
        (elim (Option-cases (lookup ⦃e = e⦄ k (lru.iter c))) [
          | inl miss ↦ rw (miss, displaced) (ground arith)
          | inr (old, hit) ↦ rw hit refl
        ])

  pub weigh-evicted :
      (w : V → ℕ)
      → lookup ⦃e = e⦄ k (lru.iter c) ≡ none
      → weigh_opt w (push_with_eviction lru e c k v).1
        ≡ weigh_out w (displaced ⦃e = e⦄ (lru.cap c) k (lru.iter c))
  unfolding push_with_eviction
  weigh-evicted w miss =
      rw (lru.peek-iter, miss, lru.push-displaced)
        (weigh_entry_value w (displaced ⦃e = e⦄ (lru.cap c) k (lru.iter c)))
