-- ===== src/Model/Spec.antt =====
-- What the checks of src/model.rs promise, said without running them: which texts, lists,
-- numbers, payloads and envelopes the protocol admits.
use Prim.Native.Char.{Char, code}
use Prim.Native.String.{len}
use meta_agent_control_plane.Prelude.{
  ℕ, ◌≤◌, ◌≡◌, ◌≢◌, ◌⊎◌, String, false, Option, none, some, List, [], ◌∷◌, length, ◌&◌,
}
use meta_agent_control_plane.Model.Numbers.{F32, f32_one}
use meta_agent_control_plane.Model.Payload.{
  AgentEvent, agent_registered, heartbeat, goal_declared, task_created, task_started,
  progress_updated, reflection_recorded, lesson_learned, error_observed, task_completed,
  agent_status_changed, EvidenceReference, EventEnvelope, protocol_version,
}
use meta_agent_control_plane.Model.Validation.{is_whitespace}

-- A requirement on the value of an option, if there is one.
pub data Whenever {A : Type 0} (P : A → Type 0) : Option A → Type 0 where
  absent : Whenever P none
  present : {a : A} → P a → Whenever P (some a)

-- A requirement on every element.
pub data Every {A : Type 0} (P : A → Type 0) : List A → Type 0 where
  done : Every P []
  also : {a : A} {l : List A} → P a → Every P l → Every P (a ∷ l)

-- Some character is not white space.
pub data HasInk : String → Type 0 where
  here : {c : Char} {s : String} → is_whitespace (code c) ≡ false → HasInk (String.◌∷◌ c s)
  there : {c : Char} {s : String} → HasInk s → HasInk (String.◌∷◌ c s)

-- A text with ink, of at most so many bytes.
pub record IsText (maximum : ℕ) (s : String) : Type 0 where
  pub ink : HasInk s
  pub short : len s ≤ maximum

-- At most so many texts, each of at most so many bytes.
pub record IsTextList (maximum_values maximum_length : ℕ) (l : List String) : Type 0 where
  pub few : length l ≤ maximum_values
  pub each : Every (IsText maximum_length) l

-- The float 0.0 to 1.0 by its bits, or -0.0: so neither an infinity nor a NaN.
pub record IsUnitInterval (f : F32) : Type 0 where
  pub bits : (f ≤ f32_one) ⊎ (f ≡ 0x80000000)

pub record IsEntry (e : String × String) : Type 0 where
  pub key : IsText 128 e.0
  pub value : IsText 2048 e.1

pub record IsMetadata (l : List (String × String)) : Type 0 where
  pub few : length l ≤ 128
  pub each : Every IsEntry l

abbrev pub IsReference : EvidenceReference → Type 0
IsReference r = IsText 128 r.kind & IsText 4096 r.reference & Whenever (IsText 4096) r.summary

pub record IsEvidence (l : List EvidenceReference) : Type 0 where
  pub few : length l ≤ 128
  pub each : Every IsReference l

-- What each kind of event must satisfy.
abbrev pub IsEvent : AgentEvent → Type 0
IsEvent (agent_registered a) =
    IsText 256 a.display_name & IsTextList 128 256 a.capabilities & IsMetadata a.metadata
IsEvent (heartbeat h) = Whenever (IsText 256) h.active_task_id & Whenever IsUnitInterval h.load
IsEvent (goal_declared g) =
    IsText 256 g.goal_id
    & IsText 2048 g.title
    & IsTextList 64 2048 g.success_criteria
    & IsTextList 64 2048 g.constraints
    & Whenever (IsText 256) g.parent_goal_id
IsEvent (task_created t) =
    IsText 256 t.task_id
    & IsText 2048 t.title
    & Whenever (IsText 256) t.goal_id
    & IsTextList 128 256 t.depends_on
    & IsTextList 128 256 t.tags
    & Whenever (IsText 8192) t.expected_outcome
IsEvent (task_started s) =
    IsText 256 s.task_id & (1 ≤ s.attempt) & Whenever (IsText 8192) s.plan_summary
IsEvent (progress_updated p) =
    IsText 256 p.task_id
    & IsUnitInterval p.progress
    & IsText 16384 p.summary
    & Whenever (IsText 8192) p.blocker
    & Whenever (IsText 8192) p.next_action
IsEvent (reflection_recorded r) =
    Whenever (IsText 256) r.task_id
    & IsText 16384 r.summary
    & IsUnitInterval r.confidence
    & IsTextList 64 4096 r.assumptions
    & IsEvidence r.evidence
    & IsTextList 64 4096 r.alternatives_considered
    & IsTextList 64 4096 r.risks
    & Whenever (IsText 8192) r.next_action
IsEvent (lesson_learned l) =
    IsText 256 l.lesson_id
    & IsText 16384 l.statement
    & IsUnitInterval l.confidence
    & Whenever (IsText 256) l.source_task_id
    & IsEvidence l.evidence
    & IsTextList 128 256 l.tags
    & Whenever (IsText 8192) l.applicability
IsEvent (error_observed e) =
    Whenever (IsText 256) e.task_id
    & IsText 256 e.code
    & IsText 16384 e.message
    & Whenever (IsText 8192) e.proposed_recovery
IsEvent (task_completed c) =
    IsText 256 c.task_id
    & IsText 16384 c.summary
    & IsTextList 256 4096 c.artifacts
    & Whenever (IsText 16384) c.actual_result
IsEvent (agent_status_changed c) = Whenever (IsText 4096) c.reason

-- What the envelope must satisfy.
abbrev pub IsEnvelope : EventEnvelope → Type 0
IsEnvelope e =
    (e.protocol_version ≡ protocol_version)
    & (e.event_id ≢ 0)
    & IsText 256 e.agent.agent_id
    & IsText 128 e.agent.provider
    & IsText 256 e.agent.model
    & Whenever (IsText 256) e.agent.instance_id
    & Whenever (IsText 256) e.session_id
    & Whenever (IsText 256) e.correlation_id
    & IsEvent e.event
