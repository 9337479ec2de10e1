-- ===== src/Tcp/Tests.antt =====
-- A connection of src/tcp.rs, and the theorem at it.
use meta_agent_control_plane.Prelude.{◌≡◌, String, Option, true, false, none, some, List, [], ◌∷◌}
use meta_agent_control_plane.Model.{TransportPayload, frame}
use meta_agent_control_plane.Auth.{AuthPolicy}
use meta_agent_control_plane.Auth.Sample.{text_comparison}
use meta_agent_control_plane.Lru.Sample.{recency_lru}
use meta_agent_control_plane.Store.Run.{run}
use meta_agent_control_plane.Store.Sample.{progress, start}
use meta_agent_control_plane.Tcp.{Frame, handle_connection}
use meta_agent_control_plane.Tcp.Refines.{requests_of, connection_is_run}

abbrev policy : AuthPolicy
policy = record { token = some "0123456789abcdef"; protect_reads = false }

-- A parser that reads every line as the same authorized report.
abbrev parse : String → Option TransportPayload
parse line =
    some
      (frame (record { token = some "0123456789abcdef"; event = progress 7 12 "agent-b" "task-b" }))

abbrev frames : List Frame
frames =
    record { now = 20; line = some "report"; delivered = true }
    ∷ record { now = 21; line = none; delivered = true }
    ∷ record { now = 22; line = some "report"; delivered = false }
    ∷ record { now = 23; line = some "report"; delivered = true }
    ∷ []

connection_is_run_example :
    (handle_connection recency_lru text_comparison parse policy start frames).inner
    ≡ run recency_lru start (requests_of text_comparison parse policy frames)
connection_is_run_example = connection_is_run text_comparison parse policy recency_lru start frames
