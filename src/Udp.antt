-- ===== src/Udp.antt =====
-- src/udp.rs: the datagram loop, one datagram at a time. `serde_json` parses the payload and is a
-- parameter; the socket, the log lines and the wording of the JSON answers are not modelled.
pub mod Gate
pub mod Refines
mod Tests
use meta_agent_control_plane.Prelude.{
  ℕ, suc, ◌+◌, String, Bool, true, false, Option, none, some, List, [], ◌∷◌, length, ltb,
  if◌then◌else◌,
}
use meta_agent_control_plane.Auth.{
  ConstantTime, AuthPolicy, Authorized, granted, denied, authorize_ingest,
}
use meta_agent_control_plane.Model.{
  DateTime, EventEnvelope, TransportPayload, into_parts, Transport, allowed_over_udp,
}
use meta_agent_control_plane.Lru.{Lru}
use meta_agent_control_plane.Store.State.{StoreInner}
use meta_agent_control_plane.Store.Ingest.{Ingested, IngestResult, take, record_rejection, ingest}

-- What is sent back: nothing, the policy error, or the result of `ingest`.
pub data Response : Type 0 where
  silence : Response
  transport_policy : Response
  ingested : IngestResult → Response

module _ (lru : Lru) (constant_time : ConstantTime) (parse : List ℕ → Option TransportPayload) where
  pub record Handled : Type 0 where
    pub inner : StoreInner lru
    pub response : Response

  -- A datagram that is dropped, or refused by the policy: a counter grows.
  unfoldable pub reject : StoreInner lru → Response → Handled
  reject inner response = record {
    inner = record_rejection lru inner Transport.udp;
    response = response;
  }

  unfoldable pub handle_event : StoreInner lru → DateTime → EventEnvelope → Handled
  unfolding reject
  handle_event inner now event =
      if allowed_over_udp event.event
      then (let done = ingest lru inner now event Transport.udp in
          record { inner = done.inner; response = ingested done.result })
      else reject inner transport_policy

  unfoldable pub handle_payload :
      AuthPolicy → StoreInner lru → DateTime → Option TransportPayload → Handled
  unfolding reject handle_event
  handle_payload auth inner now none = reject inner silence
  handle_payload auth inner now (some payload) =
      let (token, event) = into_parts payload in
      elim (authorize_ingest constant_time auth token) [
        | denied ↦ reject inner silence
        | granted ↦ handle_event inner now event
      ]

  -- One round of the loop of `serve`. The buffer has a byte more than the limit, so an oversized
  -- datagram is read up to one byte past the limit.
  unfoldable pub handle_datagram : AuthPolicy → ℕ → StoreInner lru → DateTime → List ℕ → Handled
  unfolding reject handle_payload
  handle_datagram auth max_payload_bytes inner now datagram =
      let received = take (suc max_payload_bytes) datagram in
      if ltb max_payload_bytes (length received)
      then reject inner silence
      else handle_payload auth inner now (parse received)

  -- The loop of `serve`, on the datagrams that it receives before it is cancelled or the socket fails,
  -- each with the time of its ingestion. It goes on also where an answer cannot be sent.
  unfoldable pub serve_datagrams :
      AuthPolicy → ℕ → StoreInner lru → List (DateTime × List ℕ) → StoreInner lru
  unfolding handle_datagram
  serve_datagrams auth max_payload_bytes inner [] = inner
  serve_datagrams auth max_payload_bytes inner ((now, datagram) ∷ datagrams) =
      serve_datagrams auth max_payload_bytes
        (handle_datagram auth max_payload_bytes inner now datagram).inner datagrams
