-- ===== src/Model/Validation.antt =====
-- The checks of src/model.rs: `validate_text` and its kin, and `validate` of each payload.
use Prim.Native.Char.{code}
use Prim.Native.String.{len}
use meta_agent_control_plane.Prelude.{
  ℕ, String, Bool, true, ◌&&◌, ◌||◌, not, Option, none, some, List, [], ◌∷◌, length, leb, ltb,
  nat_beq, ◌==◌, string_eq, if◌then◌else◌, Checked, ok, err, ◌>>◌, reject_if,
}
use meta_agent_control_plane.Model.Numbers.{F32, is_finite, in_unit_range}
use meta_agent_control_plane.Model.Payload.{
  AgentEvent, agent_registered, heartbeat, goal_declared, task_created, task_started,
  progress_updated, reflection_recorded, lesson_learned, error_observed, task_completed,
  agent_status_changed, Goal, TaskSpec, TaskStarted, ProgressUpdate, EvidenceReference, Reflection,
  Lesson, ErrorObservation, TaskCompleted, EventEnvelope, protocol_version,
}

pub data ValidationError : Type 0 where
  unsupported_protocol : String → ValidationError
  nil_event_id : ValidationError
  empty_text : String → ValidationError
  text_too_long : String → ℕ → ValidationError
  too_many_values : String → ℕ → ValidationError
  invalid_unit_interval : String → ValidationError
  invalid_attempt : ValidationError

-- `Result<(), ValidationError>`.
abbrev pub Validated : Type 0
Validated = Checked ValidationError

-- `char::is_whitespace`: the code points with the property White_Space.
unfoldable pub is_whitespace : ℕ → Bool
is_whitespace c =
    (leb 0x9 c && leb c 0xd)
    || nat_beq c 0x20
    || nat_beq c 0x85
    || nat_beq c 0xa0
    || nat_beq c 0x1680
    || (leb 0x2000 c && leb c 0x200a)
    || nat_beq c 0x2028
    || nat_beq c 0x2029
    || nat_beq c 0x202f
    || nat_beq c 0x205f
    || nat_beq c 0x3000

-- `value.trim().is_empty()`.
unfoldable pub is_blank : String → Bool
is_blank String.[] = true
is_blank (String.◌∷◌ c s) = is_whitespace (code c) && is_blank s

unfoldable pub validate_text : String → String → ℕ → Validated
validate_text field value maximum =
    if is_blank value
    then err (empty_text field)
    else if ltb maximum (len value)
    then err (text_too_long field maximum)
    else ok

unfoldable pub validate_optional_text : String → Option String → ℕ → Validated
validate_optional_text field none maximum = ok
validate_optional_text field (some value) maximum = validate_text field value maximum

-- The loop of `validate_string_list`.
unfoldable pub validate_each : String → List String → ℕ → Validated
validate_each field [] maximum = ok
validate_each field (value ∷ values) maximum =
    validate_text field value maximum >> validate_each field values maximum

unfoldable pub validate_string_list : String → List String → ℕ → ℕ → Validated
validate_string_list field values maximum_values maximum_length = do
  reject_if (ltb maximum_values (length values)) (too_many_values field maximum_values)
  validate_each field values maximum_length

-- The loop of `validate_metadata`, over the entries in the order of their keys.
unfoldable pub validate_entries : List (String × String) → Validated
validate_entries [] = ok
validate_entries ((key, value) ∷ values) =
    validate_text "metadata.key" key 128
    >> validate_text "metadata.value" value 2048
    >> validate_entries values

unfoldable pub validate_metadata : List (String × String) → Validated
validate_metadata values = do
  reject_if (ltb 128 (length values)) (too_many_values "metadata" 128)
  validate_entries values

unfoldable pub validate_unit_interval : String → F32 → Validated
validate_unit_interval field value =
    if is_finite value && in_unit_range value then ok else err (invalid_unit_interval field)

unfoldable pub validate_optional_unit_interval : String → Option F32 → Validated
validate_optional_unit_interval field none = ok
validate_optional_unit_interval field (some value) = validate_unit_interval field value

unfoldable pub validate_reference : EvidenceReference → Validated
validate_reference r = do
  validate_text "evidence.kind" r.kind 128
  validate_text "evidence.reference" r.reference 4096
  validate_optional_text "evidence.summary" r.summary 4096

unfoldable pub validate_references : List EvidenceReference → Validated
validate_references [] = ok
validate_references (r ∷ rs) = validate_reference r >> validate_references rs

-- The length test and the loop over the evidence, of reflections and of lessons.
unfoldable pub validate_evidence : String → List EvidenceReference → Validated
validate_evidence field evidence = do
  reject_if (ltb 128 (length evidence)) (too_many_values field 128)
  validate_references evidence

unfoldable pub validate_goal : Goal → Validated
validate_goal g = do
  validate_text "goal_id" g.goal_id 256
  validate_text "goal.title" g.title 2048
  validate_string_list "success_criteria" g.success_criteria 64 2048
  validate_string_list "constraints" g.constraints 64 2048
  validate_optional_text "parent_goal_id" g.parent_goal_id 256

unfoldable pub validate_task_spec : TaskSpec → Validated
validate_task_spec t = do
  validate_text "task_id" t.task_id 256
  validate_text "task.title" t.title 2048
  validate_optional_text "goal_id" t.goal_id 256
  validate_string_list "depends_on" t.depends_on 128 256
  validate_string_list "tags" t.tags 128 256
  validate_optional_text "expected_outcome" t.expected_outcome 8192

unfoldable pub validate_started : TaskStarted → Validated
validate_started s = do
  validate_text "task_id" s.task_id 256
  reject_if (nat_beq s.attempt 0) invalid_attempt
  validate_optional_text "plan_summary" s.plan_summary 8192

unfoldable pub validate_progress : ProgressUpdate → Validated
validate_progress p = do
  validate_text "task_id" p.task_id 256
  validate_unit_interval "progress" p.progress
  validate_text "progress.summary" p.summary 16384
  validate_optional_text "blocker" p.blocker 8192
  validate_optional_text "next_action" p.next_action 8192

unfoldable pub validate_reflection : Reflection → Validated
validate_reflection r = do
  validate_optional_text "task_id" r.task_id 256
  validate_text "reflection.summary" r.summary 16384
  validate_unit_interval "confidence" r.confidence
  validate_string_list "assumptions" r.assumptions 64 4096
  validate_evidence "evidence" r.evidence
  validate_string_list "alternatives_considered" r.alternatives_considered 64 4096
  validate_string_list "risks" r.risks 64 4096
  validate_optional_text "next_action" r.next_action 8192

unfoldable pub validate_lesson : Lesson → Validated
validate_lesson l = do
  validate_text "lesson_id" l.lesson_id 256
  validate_text "lesson.statement" l.statement 16384
  validate_unit_interval "lesson.confidence" l.confidence
  validate_optional_text "source_task_id" l.source_task_id 256
  validate_evidence "lesson.evidence" l.evidence
  validate_string_list "lesson.tags" l.tags 128 256
  validate_optional_text "lesson.applicability" l.applicability 8192

unfoldable pub validate_error : ErrorObservation → Validated
validate_error e = do
  validate_optional_text "task_id" e.task_id 256
  validate_text "error.code" e.code 256
  validate_text "error.message" e.message 16384
  validate_optional_text "proposed_recovery" e.proposed_recovery 8192

unfoldable pub validate_completed : TaskCompleted → Validated
validate_completed c = do
  validate_text "task_id" c.task_id 256
  validate_text "completion.summary" c.summary 16384
  validate_string_list "artifacts" c.artifacts 256 4096
  validate_optional_text "actual_result" c.actual_result 16384

-- `AgentEvent::validate`.
unfoldable pub validate_event : AgentEvent → Validated
validate_event (agent_registered value) = do
  validate_text "display_name" value.display_name 256
  validate_string_list "capabilities" value.capabilities 128 256
  validate_metadata value.metadata
validate_event (heartbeat value) = do
  validate_optional_text "active_task_id" value.active_task_id 256
  validate_optional_unit_interval "load" value.load
validate_event (goal_declared value) = validate_goal value
validate_event (task_created value) = validate_task_spec value
validate_event (task_started value) = validate_started value
validate_event (progress_updated value) = validate_progress value
validate_event (reflection_recorded value) = validate_reflection value
validate_event (lesson_learned value) = validate_lesson value
validate_event (error_observed value) = validate_error value
validate_event (task_completed value) = validate_completed value
validate_event (agent_status_changed value) = validate_optional_text "reason" value.reason 4096

-- `EventEnvelope::validate`.
unfoldable pub validate : EventEnvelope → Validated
validate e = do
  reject_if (not (e.protocol_version == protocol_version)) (unsupported_protocol e.protocol_version)
  reject_if (nat_beq e.event_id 0) nil_event_id
  validate_text "agent.agent_id" e.agent.agent_id 256
  validate_text "agent.provider" e.agent.provider 128
  validate_text "agent.model" e.agent.model 256
  validate_optional_text "agent.instance_id" e.agent.instance_id 256
  validate_optional_text "session_id" e.session_id 256
  validate_optional_text "correlation_id" e.correlation_id 256
  validate_event e.event
