-- ===== src/Store/Sample.antt =====
-- Sample events and a small store, for the tests and the witnesses.
use meta_agent_control_plane.Prelude.{String, none, some, List, [], ◌∷◌}
use meta_agent_control_plane.Config.{CacheConfig}
use meta_agent_control_plane.Model.{
  DateTime, Uuid, AgentRef, AgentEvent, task_created, progress_updated, task_completed, TaskOutcome,
  EventEnvelope, Transport,
}
use meta_agent_control_plane.Lru.Sample.{recency_lru}
use meta_agent_control_plane.Store.State.{StoreInner}
use meta_agent_control_plane.Store.Fresh.{fresh}
use meta_agent_control_plane.Store.Run.{Request, event_received, frame_rejected}

abbrev pub agent_ref : String → AgentRef
agent_ref id = record { agent_id = id; provider = "openai"; model = "gpt"; instance_id = none }

abbrev pub envelope : Uuid → DateTime → String → AgentEvent → EventEnvelope
envelope id at agent_id event = record {
  protocol_version = "v1";
  event_id = id;
  occurred_at = at;
  agent = agent_ref agent_id;
  session_id = none;
  correlation_id = none;
  sequence = none;
  event = event;
}

abbrev pub progress : Uuid → DateTime → String → String → EventEnvelope
progress id at agent_id task_id = envelope id at agent_id (
    progress_updated (record {
      task_id = task_id;
      progress = 0x3f000000;
      summary = "Made measurable progress.";
      blocker = none;
      next_action = some "Continue validation.";
    }))

abbrev pub completion : Uuid → DateTime → String → String → TaskOutcome → EventEnvelope
completion id at agent_id task_id outcome = envelope id at agent_id (
    task_completed (record {
      task_id = task_id;
      outcome = outcome;
      summary = "Recorded outcome.";
      artifacts = [];
      actual_result = none;
    }))

abbrev pub definition : Uuid → DateTime → String → String → String → EventEnvelope
definition id at agent_id task_id title = envelope id at agent_id (
    task_created (record {
      task_id = task_id;
      title = title;
      goal_id = none;
      depends_on = [];
      tags = [];
      expected_outcome = none;
    }))

abbrev pub small : CacheConfig
small = record { agents = 2; goals = 2; tasks = 2; lessons = 2; events = 2; idempotency = 4 }

abbrev pub start : StoreInner recency_lru
start = fresh recency_lru small 5

-- A failure that is corrected, a duplicate, a rejected frame, and a second agent's progress.
abbrev pub requests : List Request
requests =
    event_received 10 (completion 1 9 "agent-a" "task-a" TaskOutcome.failed) Transport.http
    ∷ event_received 11 (completion 2 9 "agent-a" "task-a" TaskOutcome.succeeded) Transport.tcp
    ∷ event_received 12 (completion 2 9 "agent-a" "task-a" TaskOutcome.succeeded) Transport.http
    ∷ frame_rejected Transport.udp
    ∷ event_received 13 (progress 3 12 "agent-b" "task-b") Transport.udp
    ∷ []
