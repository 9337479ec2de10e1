-- ===== src/Runtime/Data.antt =====
-- The data of src/runtime/model.rs: hooks that agents report, control commands, and telemetry.
use meta_agent_control_plane.Prelude.{ℕ, String, Bool, Option, List}
use meta_agent_control_plane.Model.Numbers.{Uuid, DateTime, F32}

-- The 64 bits of a float: sign, eleven bits of exponent, 52 bits of mantissa.
abbrev pub F64 : Type 0
F64 = ℕ

pub record RuntimeAgentRef : Type 0 where
  pub agent_id : String
  pub provider : String
  pub model : String
  pub instance_id : Option String

pub data RuntimeHookKind : Type 0 where
  session_started heartbeat activity tool_started tool_finished : RuntimeHookKind
  model_response confidence_reported error_observed session_finished : RuntimeHookKind

-- `metadata` is a map in the order of its keys.
pub record RuntimeHookEnvelope : Type 0 where
  pub protocol_version : String
  pub event_id : Uuid
  pub occurred_at : DateTime
  pub agent : RuntimeAgentRef
  pub session_id : Option String
  pub pid : Option ℕ
  pub kind : RuntimeHookKind
  pub control_capable : Bool
  pub summary : Option String
  pub tool_name : Option String
  pub confidence : Option F32
  pub cpu_percent : Option F64
  pub rss_bytes : Option ℕ
  pub memory_percent : Option F64
  pub input_tokens_delta : ℕ
  pub output_tokens_delta : ℕ
  pub metadata : List (String × String)

pub data ControlAction : Type 0 where
  pause resume stop : ControlAction

pub data ControlStatus : Type 0 where
  pending acknowledged rejected : ControlStatus

pub record ControlCommandRequest : Type 0 where
  pub agent_id : String
  pub action : ControlAction

pub record ControlCommandAck : Type 0 where
  pub command_id : Uuid
  pub agent_id : String
  pub accepted : Bool
  pub message : Option String

pub record ControlCommand : Type 0 where
  pub command_id : Uuid
  pub created_at : DateTime
  pub agent_id : String
  pub action : ControlAction
  pub status : ControlStatus
  pub acknowledged_at : Option DateTime
  pub message : Option String

pub record RuntimeProcessTelemetry : Type 0 where
  pub pid : ℕ
  pub provider : String
  pub process_name : String
  pub matched_pattern : String
  pub process_state : String
  pub cpu_percent : Option F64
  pub rss_bytes : ℕ
  pub memory_percent : Option F64
  pub observed_at : DateTime

pub record RuntimeAgentTelemetry : Type 0 where
  pub agent_id : String
  pub provider : String
  pub model : String
  pub instance_id : Option String
  pub session_id : Option String
  pub pid : Option ℕ
  pub status : String
  pub current_activity : Option String
  pub current_tool : Option String
  pub reported_confidence : Option F32
  pub confidence_source : String
  pub cpu_percent : Option F64
  pub rss_bytes : Option ℕ
  pub memory_percent : Option F64
  pub resource_source : String
  pub input_tokens : ℕ
  pub output_tokens : ℕ
  pub process_backed : Bool
  pub hook_backed : Bool
  pub control_capable : Bool
  pub last_hook_at : Option DateTime
  pub last_process_sample_at : Option DateTime

pub record RuntimeTotals : Type 0 where
  pub agents : ℕ
  pub process_backed_agents : ℕ
  pub hook_backed_agents : ℕ
  pub cpu_percent : F64
  pub rss_bytes : ℕ
  pub input_tokens : ℕ
  pub output_tokens : ℕ
  pub confidence_reported_agents : ℕ
  pub confidence_unreported_agents : ℕ
  pub pending_commands : ℕ

pub record RuntimeCollectionStatus : Type 0 where
  pub configured : Bool
  pub enabled : Bool
  pub proc_root : String
  pub sample_interval_ms : ℕ
  pub process_patterns : List String
  pub cpu_count : ℕ
  pub memory_total_bytes : Option ℕ
  pub last_sample_at : Option DateTime
  pub last_error : Option String
  pub collection_errors : ℕ

pub record RuntimeSnapshot : Type 0 where
  pub generated_at : DateTime
  pub collection : RuntimeCollectionStatus
  pub totals : RuntimeTotals
  pub agents : List RuntimeAgentTelemetry
  pub processes : List RuntimeProcessTelemetry
  pub recent_hooks : List RuntimeHookEnvelope
  pub recent_commands : List ControlCommand

pub data RuntimeError : Type 0 where
  unsupported_protocol : RuntimeError
  invalid_field : String → RuntimeError
  missing_field : String → RuntimeError
  too_many_metadata_entries : RuntimeError
  forbidden_metadata_key : RuntimeError
  duplicate_hook : RuntimeError
  command_not_found : RuntimeError
  agent_not_hook_backed : RuntimeError
  command_agent_mismatch : RuntimeError
