-- ===== src/Tcp/Refines.antt =====
-- A TCP connection is a run of the store: what holds of every run holds of connections.
use meta_agent_control_plane.Prelude.{
  ◌≡◌, inl, inr, refl, String, Option, none, some, List, [], ◌∷◌, if◌then◌else◌, Bool-cases,
}
use meta_agent_control_plane.Auth.{
  ConstantTime, AuthPolicy, Authorized, granted, denied, authorize_ingest,
}
use meta_agent_control_plane.Auth.Laws.{Authorized-cases}
use meta_agent_control_plane.Model.{
  DateTime, EventEnvelope, TransportPayload, into_parts, Transport,
}
use meta_agent_control_plane.Lru.{Lru}
use meta_agent_control_plane.Store.State.{StoreInner}
use meta_agent_control_plane.Store.Run.{Request, event_received, frame_rejected, serve, run}
use meta_agent_control_plane.Tcp.{
  Frame, handle_payload, handle_line, handle_frame, handle_connection,
}

module _ (constant_time : ConstantTime) (parse : String → Option TransportPayload)
    (auth : AuthPolicy) where
  -- The request that a parsed payload makes of the store: its event, if it carries the right token.
  abbrev pub admit : DateTime → Authorized → EventEnvelope → Request
  admit now granted event = event_received now event Transport.tcp
  admit now denied event = frame_rejected Transport.tcp

  unfoldable pub request_of_payload : DateTime → Option TransportPayload → Request
  request_of_payload now none = frame_rejected Transport.tcp
  request_of_payload now (some payload) =
      let (token, event) = into_parts payload in
      admit now (authorize_ingest constant_time auth token) event

  unfoldable pub request_of_line : DateTime → Option String → Request
  unfolding request_of_payload
  request_of_line now none = frame_rejected Transport.tcp
  request_of_line now (some line) = request_of_payload now (parse line)

  -- The requests of the frames up to the first whose answer cannot be written.
  unfoldable pub requests_of : List Frame → List Request
  requests_of [] = []
  requests_of (frame ∷ frames) =
      let rest = requests_of frames in
      request_of_line frame.now frame.line ∷ (if frame.delivered then rest else [])

  module _ (lru : Lru) where
    handle_payload-serve :
        (inner : StoreInner lru) (now : DateTime) (payload : Option TransportPayload)
        → (handle_payload lru constant_time parse auth inner now payload).inner
          ≡ serve lru inner (request_of_payload now payload)
    unfolding handle_payload request_of_payload serve
    handle_payload-serve inner now none = refl
    handle_payload-serve inner now (some payload) =
        elim (Authorized-cases (authorize_ingest constant_time auth (into_parts payload).0)) [
          | inl entry ↦ rw (entry, handle_payload) refl
          | inr no_entry ↦ rw (no_entry, handle_payload) refl
        ]

    handle_line-serve :
        (inner : StoreInner lru) (now : DateTime) (line : Option String)
        → (handle_line lru constant_time parse auth inner now line).inner
          ≡ serve lru inner (request_of_line now line)
    unfolding handle_line request_of_line serve
    handle_line-serve inner now none = refl
    handle_line-serve inner now (some line) = handle_payload-serve inner now (parse line)

    -- A connection that has the store to itself leaves it as a run does: one request for each frame
    -- up to the first whose answer cannot be written, its event if the frame is a line that parses
    -- and carries the right token, and a rejected frame otherwise.
    pub connection_is_run :
        (inner : StoreInner lru) (frames : List Frame)
        → (handle_connection lru constant_time parse auth inner frames).inner
          ≡ run lru inner (requests_of frames)
    unfolding handle_connection handle_frame requests_of run
    connection_is_run inner [] = refl
    connection_is_run inner (frame ∷ frames) =
        let first = handle_line-serve inner frame.now frame.line in
        elim (Bool-cases frame.delivered) [
          | inl sent ↦
              rw (sent, first)
                (connection_is_run (serve lru inner (request_of_line frame.now frame.line)) frames)
          | inr lost ↦ rw (lost, first) refl
        ]
