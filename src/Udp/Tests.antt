-- ===== src/Udp/Tests.antt =====
-- Datagrams of src/udp.rs, and the theorems at them.
use meta_agent_control_plane.Prelude.{
  ℕ, ◌≡◌, ◌⊎◌, refl, false, Option, none, some, List, [], ◌∷◌, map,
}
use meta_agent_control_plane.Model
use meta_agent_control_plane.Model.{EventEnvelope, TransportPayload, frame, Transport}
use meta_agent_control_plane.Auth
use meta_agent_control_plane.Auth.{AuthPolicy}
use meta_agent_control_plane.Auth.Sample.{text_comparison}
use meta_agent_control_plane.Lru.Sample.{recency_lru}
use meta_agent_control_plane.Store.Run.{event_received, frame_rejected, run}
use meta_agent_control_plane.Store.Sample.{progress, start}
use meta_agent_control_plane.Udp
use meta_agent_control_plane.Udp.Refines
use meta_agent_control_plane.Udp.Refines.{request_of, datagrams_are_run}
use meta_agent_control_plane.Udp.Gate.{IsAdmitted, IsRefused, udp_refuses_rest}

abbrev report : EventEnvelope
report = progress 7 12 "agent-b" "task-b"

abbrev sent : TransportPayload
sent = frame (record { token = some "0123456789abcdef"; event = report })

abbrev policy : AuthPolicy
policy = record { token = some "0123456789abcdef"; protect_reads = false }

-- A parser that reads datagrams of two bytes only.
abbrev parse : List ℕ → Option TransportPayload
parse (_ ∷ _ ∷ []) = some sent
parse _ = none

program : Unit {0}
unfolding Model.into_parts Model.allowed_over_udp Auth.compare_tokens Auth.authorize
    Auth.authorize_ingest
program = tt

-- An admitted datagram, and one that does not parse.
abbrev datagrams : List (ℕ × List ℕ)
datagrams = (20, 1 ∷ 2 ∷ []) ∷ (21, 1 ∷ []) ∷ []

requests :
    map (request_of text_comparison parse policy 16) datagrams
    ≡ event_received 20 report Transport.udp ∷ frame_rejected Transport.udp ∷ []
unfolding program Refines.request_of_payload Refines.request_of
requests = refl

datagrams_are_run_example :
    Udp.serve_datagrams recency_lru text_comparison parse policy 16 start datagrams
    ≡ run recency_lru start (map (request_of text_comparison parse policy 16) datagrams)
datagrams_are_run_example =
    datagrams_are_run text_comparison parse policy 16 recency_lru start datagrams

udp_refuses_rest_example :
    IsRefused recency_lru text_comparison parse policy 16 start 20
      (Udp.handle_datagram recency_lru text_comparison parse policy 16 start 20 (1 ∷ []))
    ⊎ ((event : EventEnvelope) × IsAdmitted recency_lru text_comparison parse policy 16 start 20
          (1 ∷ [])
          event)
udp_refuses_rest_example =
    udp_refuses_rest recency_lru text_comparison parse policy 16 start 20 (1 ∷ [])
