-- ===== src/Store/Ingest.antt =====
-- `Store` of src/store.rs: ingestion under the write lock, and the read models. A
-- call holds the lock from its first read to its last write, so each is one step on the store.
use meta_agent_control_plane.Prelude.{
  ℕ, zero, suc, String, Bool, true, false, Option, none, some, List, [], ◌∷◌, map, ◌==◌, string_eq,
  nat_eq, if◌then◌else◌, is_some, ok, err,
}
use meta_agent_control_plane.Model.{
  Uuid, DateTime, saturating_suc, wrapping_suc, kind, event_task_id, EventEnvelope, Transport,
  transport_as_str,
}
use meta_agent_control_plane.Model.Validation.{ValidationError, validate}
use meta_agent_control_plane.Lru.{Lru}
use meta_agent_control_plane.Store.State.{
  scoped_eq, EventRecord, StoreUpdate, IngestAck, StoreInner, CacheStats, CacheSnapshot,
  MetricsSnapshot, Snapshot, snapshot_event_limit,
}
use meta_agent_control_plane.Store.Tasks.{push_with_eviction}
use meta_agent_control_plane.Store.Reducer.{apply_event}

-- `*map.entry(key).or_default() += 1`.
unfoldable pub bump : String → List (String × ℕ) → List (String × ℕ)
bump key [] = (key, wrapping_suc 0) ∷ []
bump key ((name, n) ∷ counts) =
    if name == key then (name, wrapping_suc n) ∷ counts else (name, n) ∷ bump key counts

unfoldable pub take {ℓ} : {A : Type ℓ} → ℕ → List A → List A
take zero l = []
take (suc n) [] = []
take (suc n) (x ∷ l) = x ∷ take n l

-- `Result<IngestAck, StoreError>`.
pub data IngestResult : Type 0 where
  acknowledged : IngestAck → IngestResult
  invalid : ValidationError → IngestResult

unfoldable pub ack : Bool → EventEnvelope → ℕ → Transport → DateTime → IngestAck
ack duplicate event revision transport received_at = record {
  accepted = true;
  duplicate = duplicate;
  event_id = event.event_id;
  revision = revision;
  transport = transport;
  received_at = received_at;
}

unfoldable pub store_update : EventEnvelope → ℕ → Transport → DateTime → StoreUpdate
store_update event revision transport received_at = record {
  revision = revision;
  event_id = event.event_id;
  kind = kind event.event;
  agent_id = event.agent.agent_id;
  task_id = event_task_id event.event;
  transport = transport;
  received_at = received_at;
}

module _ (lru : Lru) where
  -- The store after a call of `ingest`, its result, and what it broadcast.
  pub record Ingested : Type 0 where
    pub inner : StoreInner lru
    pub result : IngestResult
    pub update : Option StoreUpdate

  unfoldable pub record_rejection : StoreInner lru → Transport → StoreInner lru
  record_rejection inner transport = record inner {
    counters = record inner.counters {
      rejected = saturating_suc inner.counters.rejected;
      rejected_by_transport =
          bump (transport_as_str transport) inner.counters.rejected_by_transport;
    };
  }

  -- The duplicate: the lookup made the id the most recent one, and a counter grows.
  unfoldable pub note_duplicate : StoreInner lru → EventEnvelope → StoreInner lru
  note_duplicate inner event = record inner {
    seen_event_ids = (lru.get nat_eq inner.seen_event_ids event.event_id).1;
    counters = record inner.counters { duplicate = saturating_suc inner.counters.duplicate };
  }

  -- The counters and the revision of an accepted event.
  unfoldable pub count_accepted : StoreInner lru → Transport → StoreInner lru
  count_accepted inner transport = record inner {
    revision = saturating_suc inner.revision;
    counters = record inner.counters {
      accepted = saturating_suc inner.counters.accepted;
      accepted_by_transport =
          bump (transport_as_str transport) inner.counters.accepted_by_transport;
    };
  }

  -- The event id enters the idempotency window with the revision.
  unfoldable pub remember_id : StoreInner lru → Uuid → StoreInner lru
  remember_id inner event_id =
      let (seen', evicted) =
        push_with_eviction lru nat_eq inner.seen_event_ids event_id inner.revision in
      let evictions' =
        if is_some evicted
        then record inner.evictions { idempotency = saturating_suc inner.evictions.idempotency }
        else inner.evictions in
      record inner { seen_event_ids = seen'; evictions = evictions' }

  unfoldable pub retain_event : StoreInner lru → EventRecord → StoreInner lru
  retain_event inner entry =
      let (events', evicted) =
        push_with_eviction lru nat_eq inner.events entry.event.event_id entry in
      let evictions' =
        if is_some evicted
        then record inner.evictions { events = saturating_suc inner.evictions.events }
        else inner.evictions in
      record inner { events = events'; evictions = evictions' }

  -- The store when the revision of a new event is known: `get` on the window, which finds nothing,
  -- the reducer, and the counters.
  unfoldable pub admit : StoreInner lru → EventEnvelope → Transport → StoreInner lru
  admit inner event transport =
      let looked = record inner {
        seen_event_ids = (lru.get nat_eq inner.seen_event_ids event.event_id).1;
      } in
      count_accepted (apply_event lru looked event) transport

  -- The two pushes that follow.
  unfoldable pub retain : StoreInner lru → DateTime → EventEnvelope → Transport → StoreInner lru
  retain inner received_at event transport =
      retain_event (remember_id inner event.event_id)
        (record { event = event; transport = transport; received_at = received_at })

  -- The store after a new event.
  unfoldable pub accept : StoreInner lru → DateTime → EventEnvelope → Transport → StoreInner lru
  unfolding admit retain
  accept inner received_at event transport =
      retain (admit inner event transport) received_at event transport

  -- The part of `ingest` under the lock.
  unfoldable pub ingest_valid : StoreInner lru → DateTime → EventEnvelope → Transport → Ingested
  unfolding admit retain
  ingest_valid inner received_at event transport =
      let admitted = admit inner event transport in
      let revision = admitted.revision in
      if is_some (lru.get nat_eq inner.seen_event_ids event.event_id).0
      then record {
        inner = note_duplicate inner event;
        result = acknowledged (ack true event inner.revision transport received_at);
        update = none;
      }
      else record {
        inner = retain admitted received_at event transport;
        result = acknowledged (ack false event revision transport received_at);
        update = some (store_update event revision transport received_at);
      }

  unfoldable pub ingest : StoreInner lru → DateTime → EventEnvelope → Transport → Ingested
  ingest inner received_at event transport = elim (validate event) [
    | ok ↦ ingest_valid inner received_at event transport
    | err error ↦ record {
      inner = record_rejection inner transport;
      result = invalid error;
      update = none;
    }
  ]

  -- `cache_stats`.
  unfoldable pub cache_stats : {K V : Type 0} → lru.LruCache K V → ℕ → CacheStats
  cache_stats cache evictions = record {
    length = lru.len cache;
    capacity = lru.cap cache;
    evictions = evictions;
    pressure = (lru.len cache, lru.cap cache);
  }

  unfoldable pub cache_snapshot : StoreInner lru → CacheSnapshot
  cache_snapshot inner = record {
    agents = cache_stats inner.agents inner.evictions.agents;
    goals = cache_stats inner.goals inner.evictions.goals;
    tasks = cache_stats inner.tasks inner.evictions.tasks;
    lessons = cache_stats inner.lessons inner.evictions.lessons;
    events = cache_stats inner.events inner.evictions.events;
    idempotency = cache_stats inner.seen_event_ids inner.evictions.idempotency;
  }

  abbrev pub values : {K V : Type 0} → lru.LruCache K V → List V
  values cache = map (λ e. e.1) (lru.iter cache)

  unfoldable pub snapshot : StoreInner lru → DateTime → Snapshot
  snapshot inner now = record {
    generated_at = now;
    started_at = inner.started_at;
    revision = inner.revision;
    agents = values inner.agents;
    goals = values inner.goals;
    tasks = values inner.tasks;
    lessons = values inner.lessons;
    recent_events = map (λ e. e.1) (take snapshot_event_limit (lru.iter inner.events));
    caches = cache_snapshot inner;
    counters = inner.counters;
  }

  unfoldable pub metrics_snapshot : StoreInner lru → MetricsSnapshot
  metrics_snapshot inner = record {
    revision = inner.revision;
    caches = cache_snapshot inner;
    counters = inner.counters;
    projection = record {
      agents = lru.len inner.agents;
      goals = lru.len inner.goals;
      tasks = lru.len inner.tasks;
      lessons = lru.len inner.lessons;
    };
  }
