-- ===== src/Model/Tests.antt =====
-- The checks of src/model.rs on sample envelopes, and the theorems at them.
use mathlib.Core.List.{Memᴰ}
use meta_agent_control_plane.Prelude.{◌≡◌, ◌↔◌, refl, String, true, none, [], ok, err}
use meta_agent_control_plane.Model.Numbers.{F32, is_finite, in_unit_range}
use meta_agent_control_plane.Model.Payload.{
  AgentEvent, reflection_recorded, EventEnvelope, kind, allowed_over_udp, event_kinds,
  udp_event_kinds,
}
use meta_agent_control_plane.Model.Validation
use meta_agent_control_plane.Model.Validation.{invalid_unit_interval, empty_text, validate}
use meta_agent_control_plane.Model.Spec.{IsEnvelope}
use meta_agent_control_plane.Model.Accepts.{validate_iff}
use meta_agent_control_plane.Model.Policy.{IsKind, IsUdpKind, kinds_published}

abbrev reflection : F32 → AgentEvent
reflection confidence = reflection_recorded (record {
  task_id = none;
  summary = "Checked the outcome against the success criteria.";
  confidence = confidence;
  assumptions = [];
  evidence = [];
  alternatives_considered = [];
  risks = [];
  next_action = none;
})

abbrev envelope : String → F32 → EventEnvelope
envelope agent_id confidence = record {
  protocol_version = "v1";
  event_id = 1;
  occurred_at = 0;
  agent = record { agent_id = agent_id; provider = "openai"; model = "gpt"; instance_id = none };
  session_id = none;
  correlation_id = none;
  sequence = none;
  event = reflection confidence;
}

program : Unit {0}
unfolding is_finite in_unit_range Validation.is_whitespace Validation.is_blank
    Validation.validate_text Validation.validate_optional_text Validation.validate_each
    Validation.validate_string_list Validation.validate_unit_interval Validation.validate_references
    Validation.validate_evidence Validation.validate_reflection Validation.validate_event validate
program = tt

-- 1.2 is no confidence; 0.5, 1.0 and -0.0 are.
rejects_confidence :
    validate (envelope "agent-1" 0x3f99999a) ≡ err (invalid_unit_interval "confidence")
unfolding program
rejects_confidence = refl

accepts_confidence :
    (validate (envelope "agent-1" 0x3f000000) ≡ ok)
    × (validate (envelope "agent-1" 0x3f800000) ≡ ok)
    × (validate (envelope "agent-1" 0x80000000) ≡ ok)
unfolding program
accepts_confidence = (refl, refl, refl)

rejects_blank : validate (envelope "  " 0x3f000000) ≡ err (empty_text "agent.agent_id")
unfolding program
rejects_blank = refl

validate_iff_example :
    (validate (envelope "agent-1" 0x3f000000) ≡ ok) ↔ IsEnvelope (envelope "agent-1" 0x3f000000)
validate_iff_example = validate_iff (envelope "agent-1" 0x3f000000)

kinds_published_example :
    (Memᴰ "heartbeat" event_kinds ↔ IsKind "heartbeat")
    × (Memᴰ "heartbeat" udp_event_kinds ↔ IsUdpKind "heartbeat")
    × (Memᴰ (kind (reflection 0)) udp_event_kinds ↔ (allowed_over_udp (reflection 0) ≡ true))
kinds_published_example = kinds_published "heartbeat" (reflection 0)
