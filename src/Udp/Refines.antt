-- ===== src/Udp/Refines.antt =====
-- The datagrams that the listener of src/udp.rs serves, as a run of the store.
use meta_agent_control_plane.Prelude.{
  ℕ, suc, ◌≡◌, refl, true, false, Option, none, some, List, [], ◌∷◌, length, leb, ltb, arith, inl,
  inr, if◌then◌else◌, Bool-cases, map,
}
use meta_agent_control_plane.Auth.{
  ConstantTime, AuthPolicy, Authorized, granted, denied, authorize_ingest,
}
use meta_agent_control_plane.Auth.Laws.{Authorized-cases}
use meta_agent_control_plane.Model.{
  DateTime, EventEnvelope, TransportPayload, into_parts, Transport, allowed_over_udp,
}
use meta_agent_control_plane.Lru.{Lru}
use meta_agent_control_plane.Store.State.{StoreInner}
use meta_agent_control_plane.Store.Ingest.{take}
use meta_agent_control_plane.Store.Run.{Request, event_received, frame_rejected, serve, run}
use meta_agent_control_plane.Udp.{handle_event, handle_payload, handle_datagram, serve_datagrams}
use meta_agent_control_plane.Udp.Gate.{take_whole, length-take}

module _ (constant_time : ConstantTime) (parse : List ℕ → Option TransportPayload)
    (auth : AuthPolicy) (limit : ℕ) where
  -- The request that a parsed payload makes of the store: its event, if it carries the right token
  -- and is telemetry that UDP may carry.
  abbrev pub admit : DateTime → Authorized → EventEnvelope → Request
  admit now denied event = frame_rejected Transport.udp
  admit now granted event =
      if allowed_over_udp event.event
      then event_received now event Transport.udp
      else frame_rejected Transport.udp

  unfoldable pub request_of_payload : DateTime → Option TransportPayload → Request
  request_of_payload now none = frame_rejected Transport.udp
  request_of_payload now (some payload) =
      let (token, event) = into_parts payload in
      admit now (authorize_ingest constant_time auth token) event

  -- The request of a datagram, whatever its length is.
  unfoldable pub request_of : DateTime × List ℕ → Request
  unfolding request_of_payload
  request_of (now, datagram) =
      if leb (length datagram) limit
      then request_of_payload now (parse datagram)
      else frame_rejected Transport.udp

  module _ (lru : Lru) where
    handle_payload-serve :
        (inner : StoreInner lru) (now : DateTime) (payload : Option TransportPayload)
        → (handle_payload lru constant_time parse auth inner now payload).inner
          ≡ serve lru inner (request_of_payload now payload)
    unfolding handle_payload handle_event request_of_payload serve
    handle_payload-serve inner now none = refl
    handle_payload-serve inner now (some payload) =
        elim (Authorized-cases (authorize_ingest constant_time auth (into_parts payload).0)) [
          | inr no_entry ↦ rw (no_entry, handle_payload) refl
          | inl entry ↦ elim (Bool-cases (allowed_over_udp (into_parts payload).1.event)) [
            | inl light ↦ rw (entry, handle_payload) (rw light refl)
            | inr heavy ↦ rw (entry, handle_payload) (rw heavy refl)
          ]
        ]

    handle_datagram-serve :
        (inner : StoreInner lru) (now : DateTime) (datagram : List ℕ)
        → (handle_datagram lru constant_time parse auth limit inner now datagram).inner
          ≡ serve lru inner (request_of (now, datagram))
    unfolding handle_datagram request_of serve
    handle_datagram-serve inner now datagram = elim (Bool-cases (leb (length datagram) limit)) [
      | inl short ↦
          let whole = take_whole (suc limit) datagram (ground arith) in
          let fits : ltb limit (length datagram) ≡ false = ground arith in
          rw (whole, fits, short) (handle_payload-serve inner now (parse datagram))
      | inr long ↦
          let over : ltb limit (length (take (suc limit) datagram)) ≡ true =
            rw (length-take (suc limit) datagram (ground arith)) (ground arith) in
          rw (over, long) refl
    ]

    -- A UDP listener that has the store to itself leaves it as a run does, with one request for each
    -- datagram: its event, if the datagram is within the limit, parses, carries the right token and
    -- is telemetry that UDP may carry, and a rejected frame otherwise.
    pub datagrams_are_run :
        (inner : StoreInner lru) (datagrams : List (DateTime × List ℕ))
        → serve_datagrams lru constant_time parse auth limit inner datagrams
          ≡ run lru inner (map request_of datagrams)
    unfolding serve_datagrams run
    datagrams_are_run inner [] = refl
    datagrams_are_run inner ((now, datagram) ∷ datagrams) =
        rw (handle_datagram-serve inner now datagram)
          (datagrams_are_run (serve lru inner (request_of (now, datagram))) datagrams)
