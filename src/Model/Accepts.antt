-- ===== src/Model/Accepts.antt =====
-- `AgentEvent::validate` and `EventEnvelope::validate` accept exactly what the protocol admits.
use meta_agent_control_plane.Prelude.{
  ℕ, ◌≤◌, ◌≡◌, ◌≢◌, ◌↔◌, String, not, nat_beq, arith, ◌==◌, string_eq, ok, reject_if, and_then,
  unless,
}
use meta_agent_control_plane.Model.Payload.{
  AgentEvent, agent_registered, heartbeat, goal_declared, task_created, task_started,
  progress_updated, reflection_recorded, lesson_learned, error_observed, task_completed,
  agent_status_changed, EventEnvelope, protocol_version,
}
use meta_agent_control_plane.Model.Validation.{
  invalid_attempt, nil_event_id, unsupported_protocol, validate_goal, validate_task_spec,
  validate_started, validate_progress, validate_reflection, validate_lesson, validate_error,
  validate_completed, validate_event, validate,
}
use meta_agent_control_plane.Model.Spec.{IsEvent, IsEnvelope}
use meta_agent_control_plane.Model.Checks.{
  IsText-iff, optional-IsText_iff, IsTextList-iff, IsMetadata-iff, IsUnitInterval-iff,
  optional-IsUnitInterval_iff, IsEvidence-iff,
}

attempt_iff : (n : ℕ) → (reject_if (nat_beq n 0) invalid_attempt ≡ ok) ↔ (1 ≤ n)
attempt_iff n = unless (nat_beq n 0) invalid_attempt (λ h. ground arith, λ h. ground arith)

id_iff : (n : ℕ) → (reject_if (nat_beq n 0) nil_event_id ≡ ok) ↔ (n ≢ 0)
id_iff n = unless (nat_beq n 0) nil_event_id (λ h. ground arith, λ h. ground arith)

version_iff :
    (s : String)
    → (reject_if (not (s == protocol_version)) (unsupported_protocol s) ≡ ok)
      ↔ (s ≡ protocol_version)
version_iff s =
    let e = string_eq.is_same_iff s protocol_version in
    unless (not (s == protocol_version)) (unsupported_protocol s)
      (λ h. e.0 (ground arith), λ h. let b = e.1 h in ground arith)

ruleset check_rules = (
  and_then, IsText-iff, optional-IsText_iff, IsTextList-iff, IsMetadata-iff, IsUnitInterval-iff,
  optional-IsUnitInterval_iff, IsEvidence-iff, attempt_iff, id_iff, version_iff,
)

IsEvent-iff : (e : AgentEvent) → (validate_event e ≡ ok) ↔ IsEvent e
unfolding validate_event validate_goal validate_task_spec validate_started validate_progress
    validate_reflection validate_lesson validate_error validate_completed
IsEvent-iff (agent_registered a) = search check_rules depth 12
IsEvent-iff (heartbeat a) = search check_rules depth 12
IsEvent-iff (goal_declared a) = search check_rules depth 12
IsEvent-iff (task_created a) = search check_rules depth 12
IsEvent-iff (task_started a) = search check_rules depth 12
IsEvent-iff (progress_updated a) = search check_rules depth 12
IsEvent-iff (reflection_recorded a) = search check_rules depth 12
IsEvent-iff (lesson_learned a) = search check_rules depth 12
IsEvent-iff (error_observed a) = search check_rules depth 12
IsEvent-iff (task_completed a) = search check_rules depth 12
IsEvent-iff (agent_status_changed a) = search check_rules depth 12

-- An envelope passes validation exactly when its protocol version is the supported one, its event
-- id is not nil, its texts have ink and fit their byte limits, its lists fit their counts, its
-- numbers lie in the unit interval and its attempt is at least 1.
pub validate_iff : (e : EventEnvelope) → (validate e ≡ ok) ↔ IsEnvelope e
unfolding validate
validate_iff e = search (check_rules, IsEvent-iff) depth 14
