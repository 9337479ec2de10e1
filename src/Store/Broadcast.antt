-- ===== src/Store/Broadcast.antt =====
-- The revision of src/store.rs: a coherent watermark of what was accepted and broadcast.
use meta_agent_control_plane.Prelude.{
  ℕ, ◌≡◌, inl, inr, refl, sym, ◌∙◌, ap, true, false, none, some, List, Bool-cases, is_some,
  string_eq, nat_eq, ok, err, Checked-cases, none_of_is_some, subst,
}
use meta_agent_control_plane.Config.{CacheConfig}
use meta_agent_control_plane.Model.{
  DateTime, EventEnvelope, Transport, saturating_suc, kind, event_task_id,
}
use meta_agent_control_plane.Model.Validation.{validate}
use meta_agent_control_plane.Lru.{Lru}
use meta_agent_control_plane.Lru.Assoc.{lookup}
use meta_agent_control_plane.Lru.Laws.{lookup-push_items_self}
use meta_agent_control_plane.Store.Eviction.{iter-push_with_eviction}
use meta_agent_control_plane.Store.State.{StoreInner, StoreUpdate, IngestAck}
use meta_agent_control_plane.Store.Ingest.{
  admit, retain, Ingested, acknowledged, invalid, record_rejection, note_duplicate, count_accepted,
  remember_id, retain_event, accept, ack, store_update, ingest_valid, ingest,
}
use meta_agent_control_plane.Store.New.{Host, new_store}
use meta_agent_control_plane.Store.Fresh.{fresh, new_store_inversion}
use meta_agent_control_plane.Store.Log.{apply_event-ledger}
use meta_agent_control_plane.Store.Run.{Request, serve_elim, serve, run, run_induction}

module _ (lru : Lru) where
  accept_revision :
      (inner : StoreInner lru) (now : DateTime) (event : EventEnvelope) (transport : Transport)
      → (accept lru inner now event transport).revision ≡ saturating_suc inner.revision
  unfolding accept admit retain count_accepted remember_id retain_event
  accept_revision inner now event transport =
      ap (λ (l : _). saturating_suc (l.3)) (apply_event-ledger lru _ event)

  accept_accepted :
      (inner : StoreInner lru) (now : DateTime) (event : EventEnvelope) (transport : Transport)
      → (accept lru inner now event transport).counters.accepted
        ≡ saturating_suc inner.counters.accepted
  unfolding accept admit retain count_accepted remember_id retain_event
  accept_accepted inner now event transport =
      ap (λ (l : _). saturating_suc (l.2).accepted) (apply_event-ledger lru _ event)

  -- From a new store, after any run, the revision is the number of accepted events (both saturate
  -- at the greatest u64).
  pub run_revision_accepted :
      (host : Host) (config : CacheConfig) (updates : ℕ) (now : DateTime) {start : StoreInner lru}
      (requests : List Request)
      → new_store lru host config updates now ≡ some start
      → (run lru start requests).revision ≡ (run lru start requests).counters.accepted
  run_revision_accepted host config updates now {start} requests e =
      run_induction lru InStep step start requests
        (rw ((new_store_inversion lru host config updates now e).1) (unfold fresh in refl))
    where
      InStep : StoreInner lru → Type 0
      InStep inner = inner.revision ≡ inner.counters.accepted

      step :
          (inner : StoreInner lru) (request : Request)
          → InStep inner
          → InStep (serve lru inner request)
      step inner request h =
          serve_elim lru InStep inner request (λ transport. unfold record_rejection in h)
            (λ event. unfold note_duplicate in h)
            (λ at event transport good new.
              accept_revision inner at event transport
              ∙ ap saturating_suc h
              ∙ sym (accept_accepted inner at event transport))

  -- Nothing that a reader is shown has changed, but for counters and the recency of an id.
  pub record IsQuiet (inner inner' : StoreInner lru) : Type 0 where
    pub agents : inner'.agents ≡ inner.agents
    pub goals : inner'.goals ≡ inner.goals
    pub tasks : inner'.tasks ≡ inner.tasks
    pub lessons : inner'.lessons ≡ inner.lessons
    pub events : inner'.events ≡ inner.events
    pub evictions : inner'.evictions ≡ inner.evictions
    pub revision : inner'.revision ≡ inner.revision

  -- What an update tells of the call that broadcast it.
  pub record Announces (inner : StoreInner lru) (now : DateTime) (event : EventEnvelope)
      (transport : Transport) (after : Ingested lru) (update : StoreUpdate) : Type 0 where
    pub valid : validate event ≡ ok
    pub unseen : lookup event.event_id (lru.iter inner.seen_event_ids) ≡ none
    pub next_revision : after.inner.revision ≡ saturating_suc inner.revision
    pub revision : update.revision ≡ after.inner.revision
    pub event_id : update.event_id ≡ event.event_id
    pub event_kind : update.kind ≡ kind event.event
    pub agent_id : update.agent_id ≡ event.agent.agent_id
    pub task_id : update.task_id ≡ event_task_id event.event
    pub update_transport : update.transport ≡ transport
    pub received_at : update.received_at ≡ now
    pub answer : IngestAck
    pub answered : after.result ≡ acknowledged answer
    pub accepted : answer.accepted ≡ true
    pub no_duplicate : answer.duplicate ≡ false
    pub answer_id : answer.event_id ≡ event.event_id
    pub answer_revision : answer.revision ≡ after.inner.revision
    pub remembered :
        lookup event.event_id (lru.iter after.inner.seen_event_ids) ≡ some after.inner.revision
    pub retained :
        lookup event.event_id (lru.iter after.inner.events)
        ≡ some (record { event = event; transport = transport; received_at = now })

  module _ (inner : StoreInner lru) (now : DateTime) (event : EventEnvelope)
      (transport : Transport) where
    abbrev done : Ingested lru
    done = ingest lru inner now event transport

    ingest_invalid :
        (error : _)
        → validate event ≡ err error
        → ingest lru inner now event transport ≡ record {
          inner = record_rejection lru inner transport;
          result = invalid error;
          update = none;
        }
    unfolding ingest
    ingest_invalid error bad = rw (bad, ingest) refl

    ingest_duplicate :
        validate event ≡ ok
        → is_some (lru.get nat_eq inner.seen_event_ids event.event_id).0 ≡ true
        → ingest lru inner now event transport ≡ record {
          inner = note_duplicate lru inner event;
          result = acknowledged (ack true event inner.revision transport now);
          update = none;
        }
    unfolding ingest ingest_valid
    ingest_duplicate good old = rw (good, ingest) (rw old refl)

    abbrev next : StoreInner lru
    next = accept lru inner now event transport

    abbrev told : StoreUpdate
    told = store_update event (admit lru inner event transport).revision transport now

    abbrev answer : IngestAck
    answer = ack false event (admit lru inner event transport).revision transport now

    ingest_new :
        validate event ≡ ok
        → is_some (lru.get nat_eq inner.seen_event_ids event.event_id).0 ≡ false
        → ingest lru inner now event transport
          ≡ record { inner = next; result = acknowledged answer; update = some told }
    unfolding ingest ingest_valid accept
    ingest_new good new = rw (good, ingest) (rw new refl)

    -- A call of `ingest` that broadcasts nothing leaves every projection, the recent events, the
    -- eviction counters and the revision as they were.
    pub IsQuiet-ingest_keeps : done.update ≡ none → IsQuiet inner done.inner
    unfolding record_rejection note_duplicate
    IsQuiet-ingest_keeps h = elim (Checked-cases (validate event)) [
      | inr (error, bad) ↦ rw (ingest_invalid error bad) (record {
        agents = refl;
        goals = refl;
        tasks = refl;
        lessons = refl;
        events = refl;
        evictions = refl;
        revision = refl;
      })
      | inl good ↦
          elim (Bool-cases (is_some (lru.get nat_eq inner.seen_event_ids event.event_id).0)) [
            | inl old ↦ rw (ingest_duplicate good old) (record {
              agents = refl;
              goals = refl;
              tasks = refl;
              lessons = refl;
              events = refl;
              evictions = refl;
              revision = refl;
            })
            | inr new ↦ let told = ap (λ (i : Ingested lru). i.update) (ingest_new good new) in cc
          ]
    ]

    -- The two pushes leave the revision that the update and the acknowledgement carry.
    next_revision : (admit lru inner event transport).revision ≡ next.revision
    unfolding accept retain remember_id retain_event
    next_revision = refl

    next_remembers : lookup event.event_id (lru.iter next.seen_event_ids) ≡ some next.revision
    unfolding accept retain remember_id retain_event
    next_remembers =
        rw (iter-push_with_eviction lru nat_eq) (lookup-push_items_self _ event.event_id _ _)

    next_retains :
        lookup event.event_id (lru.iter next.events)
        ≡ some (record { event = event; transport = transport; received_at = now })
    unfolding accept retain retain_event
    next_retains =
        rw (iter-push_with_eviction lru nat_eq) (lookup-push_items_self _ event.event_id _ _)

    Announces-new :
        validate event ≡ ok
        → is_some (lru.get nat_eq inner.seen_event_ids event.event_id).0 ≡ false
        → Announces inner now event transport
            (record { inner = next; result = acknowledged answer; update = some told })
            told
    unfolding ack store_update
    Announces-new good new = record {
      valid = good;
      unseen =
          sym (lru.get-iter nat_eq inner.seen_event_ids event.event_id)
          ∙ none_of_is_some (lru.get nat_eq inner.seen_event_ids event.event_id).0 new;
      next_revision = accept_revision inner now event transport;
      revision = next_revision;
      event_id = refl;
      event_kind = refl;
      agent_id = refl;
      task_id = refl;
      update_transport = refl;
      received_at = refl;
      answer = answer;
      answered = refl;
      accepted = refl;
      no_duplicate = refl;
      answer_id = refl;
      answer_revision = next_revision;
      remembered = next_remembers;
      retained = next_retains;
    }

    -- A call of `ingest` that broadcasts an update has accepted a valid event that was not in the
    -- idempotency window: the store's revision is one more, or saturated; the update and the
    -- acknowledgement, which is of no duplicate, carry the revision that the store has after the call
    -- and the id of the event; the update tells its kind, agent, task, transport and time; and the
    -- window has the event's id with that revision, and the recent events have the event.
    pub broadcast_tells_revision :
        {update : StoreUpdate}
        → done.update ≡ some update
        → Announces inner now event transport done update
    broadcast_tells_revision {update} h = elim (Checked-cases (validate event)) [
      | inr (error, bad) ↦
          let quiet = ap (λ (i : Ingested lru). i.update) (ingest_invalid error bad) in cc
      | inl good ↦
          elim (Bool-cases (is_some (lru.get nat_eq inner.seen_event_ids event.event_id).0)) [
            | inl old ↦
                let quiet = ap (λ (i : Ingested lru). i.update) (ingest_duplicate good old) in cc
            | inr new ↦
                let e = ingest_new good new in
                let same : some told ≡ some update =
                  sym (ap (λ (i : Ingested lru). i.update) e) ∙ h in
                let same' : told ≡ update = cc same in
                subst (λ u. Announces inner now event transport done u) same'
                  (rw e (Announces-new good new))
          ]
    ]
