-- ===== src/Store/Run.antt =====
-- Runs of the store: the calls that take the write lock, in the order in which they take it.
use meta_agent_control_plane.Prelude.{
  ℕ, ◌≡◌, inl, inr, sym, ◌∙◌, Option, none, List, [], ◌∷◌, Bool-cases, is_some, none_of_is_some,
  nat_eq, ok, Checked-cases,
}
use meta_agent_control_plane.Model.{DateTime, EventEnvelope, Transport}
use meta_agent_control_plane.Model.Validation.{validate}
use meta_agent_control_plane.Lru.{Lru}
use meta_agent_control_plane.Lru.Assoc.{lookup}
use meta_agent_control_plane.Store.State.{StoreInner}
use meta_agent_control_plane.Store.Ingest.{
  record_rejection, note_duplicate, accept, ingest_valid, ingest,
}

-- A call of `ingest` with the time when it is received, or a frame that a transport rejects.
pub data Request : Type 0 where
  event_received : DateTime → EventEnvelope → Transport → Request
  frame_rejected : Transport → Request

module _ (lru : Lru) where
  unfoldable pub serve : StoreInner lru → Request → StoreInner lru
  serve inner (event_received now event transport) = (ingest lru inner now event transport).inner
  serve inner (frame_rejected transport) = record_rejection lru inner transport

  unfoldable pub run : StoreInner lru → List Request → StoreInner lru
  run inner [] = inner
  run inner (request ∷ requests) = run (serve inner request) requests

  -- A call rejects a frame or an invalid event, notes a duplicate, or accepts a new event.
  pub serve_elim :
      (P : StoreInner lru → Type 0) (inner : StoreInner lru) (request : Request)
      → ((transport : Transport) → P (record_rejection lru inner transport))
      → ((event : EventEnvelope) → P (note_duplicate lru inner event))
      → ((now : DateTime) (event : EventEnvelope) (transport : Transport)
          → validate event ≡ ok
          → lookup event.event_id (lru.iter inner.seen_event_ids) ≡ none
          → P (accept lru inner now event transport))
      → P (serve inner request)
  unfolding serve ingest ingest_valid accept
  serve_elim P inner (frame_rejected transport) rejects repeats accepts = rejects transport
  serve_elim P inner (event_received now event transport) rejects repeats accepts =
      elim (Checked-cases (validate event)) [
        | inr (error, bad) ↦ rw (bad, serve) (rejects transport)
        | inl good ↦ elim (Bool-cases (is_some found)) [
          | inl old ↦ rw (good, serve) (rw old (repeats event))
          | inr new ↦
              rw (good, serve)
                (rw new (
                  accepts now event transport good (
                    sym (lru.get-iter nat_eq inner.seen_event_ids event.event_id)
                    ∙ none_of_is_some found new)))
        ]
      ]
    where
      found : Option ℕ
      found = (lru.get nat_eq inner.seen_event_ids event.event_id).0

  -- What every call keeps, a run keeps.
  pub run_induction :
      (P : StoreInner lru → Type 0)
      → ((inner : StoreInner lru) (request : Request) → P inner → P (serve inner request))
      → (inner : StoreInner lru) (requests : List Request) → P inner
      → P (run inner requests)
  unfolding run
  run_induction P step inner [] p = p
  run_induction P step inner (request ∷ requests) p =
      run_induction P step (serve inner request) requests (step inner request p)
