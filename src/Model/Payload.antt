-- ===== src/Model/Payload.antt =====
-- The data of src/model.rs: the envelope, the payload of each event kind, and the transports.
use meta_agent_control_plane.Prelude.{
  ℕ, String, Bool, true, false, Option, none, some, List, [], ◌∷◌,
}
use meta_agent_control_plane.Model.Numbers.{Uuid, DateTime, F32}

pub data Transport : Type 0 where
  http web_socket tcp udp : Transport

pub data AgentStatus : Type 0 where
  idle planning running waiting blocked completed failed offline : AgentStatus

pub data TaskOutcome : Type 0 where
  succeeded failed canceled partial : TaskOutcome

pub record AgentRef : Type 0 where
  pub agent_id : String
  pub provider : String
  pub model : String
  pub instance_id : Option String

pub record AgentRegistration : Type 0 where
  pub display_name : String
  pub capabilities : List String
  pub metadata : List (String × String)
  pub status : AgentStatus

pub record Heartbeat : Type 0 where
  pub status : Option AgentStatus
  pub active_task_id : Option String
  pub load : Option F32

pub record Goal : Type 0 where
  pub goal_id : String
  pub title : String
  pub success_criteria : List String
  pub constraints : List String
  pub parent_goal_id : Option String

pub record TaskSpec : Type 0 where
  pub task_id : String
  pub title : String
  pub goal_id : Option String
  pub depends_on : List String
  pub tags : List String
  pub expected_outcome : Option String

pub record TaskStarted : Type 0 where
  pub task_id : String
  pub attempt : ℕ
  pub plan_summary : Option String

pub record ProgressUpdate : Type 0 where
  pub task_id : String
  pub progress : F32
  pub summary : String
  pub blocker : Option String
  pub next_action : Option String

pub record EvidenceReference : Type 0 where
  pub kind : String
  pub reference : String
  pub summary : Option String

pub record Reflection : Type 0 where
  pub task_id : Option String
  pub summary : String
  pub confidence : F32
  pub assumptions : List String
  pub evidence : List EvidenceReference
  pub alternatives_considered : List String
  pub risks : List String
  pub next_action : Option String

pub record Lesson : Type 0 where
  pub lesson_id : String
  pub statement : String
  pub confidence : F32
  pub source_task_id : Option String
  pub evidence : List EvidenceReference
  pub tags : List String
  pub applicability : Option String

pub record ErrorObservation : Type 0 where
  pub task_id : Option String
  pub code : String
  pub message : String
  pub recoverable : Bool
  pub proposed_recovery : Option String

pub record TaskCompleted : Type 0 where
  pub task_id : String
  pub outcome : TaskOutcome
  pub summary : String
  pub artifacts : List String
  pub actual_result : Option String

pub record StatusChange : Type 0 where
  pub status : AgentStatus
  pub reason : Option String

pub data AgentEvent : Type 0 where
  agent_registered : AgentRegistration → AgentEvent
  heartbeat : Heartbeat → AgentEvent
  goal_declared : Goal → AgentEvent
  task_created : TaskSpec → AgentEvent
  task_started : TaskStarted → AgentEvent
  progress_updated : ProgressUpdate → AgentEvent
  reflection_recorded : Reflection → AgentEvent
  lesson_learned : Lesson → AgentEvent
  error_observed : ErrorObservation → AgentEvent
  task_completed : TaskCompleted → AgentEvent
  agent_status_changed : StatusChange → AgentEvent

pub record EventEnvelope : Type 0 where
  pub protocol_version : String
  pub event_id : Uuid
  pub occurred_at : DateTime
  pub agent : AgentRef
  pub session_id : Option String
  pub correlation_id : Option String
  pub sequence : Option ℕ
  pub event : AgentEvent

pub record TransportFrame : Type 0 where
  pub token : Option String
  pub event : EventEnvelope

pub data TransportPayload : Type 0 where
  frame : TransportFrame → TransportPayload
  event : EventEnvelope → TransportPayload

-- `TransportPayload::into_parts`.
unfoldable pub into_parts : TransportPayload → Option String × EventEnvelope
into_parts (frame f) = (f.token, f.event)
into_parts (event e) = (none, e)

abbrev pub protocol_version : String
protocol_version = "v1"

unfoldable pub transport_as_str : Transport → String
transport_as_str Transport.http = "http"
transport_as_str Transport.web_socket = "websocket"
transport_as_str Transport.tcp = "tcp"
transport_as_str Transport.udp = "udp"

unfoldable pub kind : AgentEvent → String
kind (agent_registered _) = "agent_registered"
kind (heartbeat _) = "heartbeat"
kind (goal_declared _) = "goal_declared"
kind (task_created _) = "task_created"
kind (task_started _) = "task_started"
kind (progress_updated _) = "progress_updated"
kind (reflection_recorded _) = "reflection_recorded"
kind (lesson_learned _) = "lesson_learned"
kind (error_observed _) = "error_observed"
kind (task_completed _) = "task_completed"
kind (agent_status_changed _) = "agent_status_changed"

-- `AgentEvent::task_id`.
unfoldable pub event_task_id : AgentEvent → Option String
event_task_id (task_created value) = some value.task_id
event_task_id (task_started value) = some value.task_id
event_task_id (progress_updated value) = some value.task_id
event_task_id (reflection_recorded value) = value.task_id
event_task_id (lesson_learned value) = value.source_task_id
event_task_id (error_observed value) = value.task_id
event_task_id (task_completed value) = some value.task_id
event_task_id (agent_registered _) = none
event_task_id (heartbeat _) = none
event_task_id (goal_declared _) = none
event_task_id (agent_status_changed _) = none

unfoldable pub allowed_over_udp : AgentEvent → Bool
allowed_over_udp (heartbeat _) = true
allowed_over_udp (progress_updated _) = true
allowed_over_udp (reflection_recorded _) = true
allowed_over_udp (error_observed _) = true
allowed_over_udp (agent_status_changed _) = true
allowed_over_udp _ = false

abbrev pub event_kinds : List String
event_kinds =
    "agent_registered" ∷ "heartbeat" ∷ "goal_declared" ∷ "task_created" ∷ "task_started"
    ∷ "progress_updated" ∷ "reflection_recorded" ∷ "lesson_learned" ∷ "error_observed"
    ∷ "task_completed" ∷ "agent_status_changed" ∷ []

abbrev pub udp_event_kinds : List String
udp_event_kinds =
    "heartbeat" ∷ "progress_updated" ∷ "reflection_recorded" ∷ "error_observed"
    ∷ "agent_status_changed" ∷ []
