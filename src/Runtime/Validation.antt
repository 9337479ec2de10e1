-- ===== src/Runtime/Validation.antt =====
-- The checks of src/runtime/model.rs on hooks, command requests and acknowledgements.
use Prim.Native.Char.{code}
use Prim.Native.String.{len}
use meta_agent_control_plane.Prelude.{
  ℕ, ◌+◌, ◌/◌, ◌%◌, String, Bool, true, false, ◌&&◌, ◌||◌, not, Option, none, some, List, [], ◌∷◌,
  map, length, leb, ltb, nat_beq, ◌==◌, string_eq, if◌then◌else◌, Checked, ok, ◌>>◌, reject_if,
}
use meta_agent_control_plane.Model.Numbers.{is_finite, in_unit_range}
use meta_agent_control_plane.Model.Validation.{is_whitespace, is_blank}
use meta_agent_control_plane.Runtime.Data.{
  F64, RuntimeHookKind, confidence_reported, RuntimeHookEnvelope, ControlCommandRequest,
  ControlCommandAck, RuntimeError, unsupported_protocol, invalid_field, missing_field,
  too_many_metadata_entries, forbidden_metadata_key,
}

abbrev pub runtime_protocol_version : String
runtime_protocol_version = "v1"

abbrev pub max_text_bytes : ℕ
max_text_bytes = 4096

abbrev pub max_metadata_entries : ℕ
max_metadata_entries = 32

abbrev pub max_metadata_key_bytes : ℕ
max_metadata_key_bytes = 128

abbrev pub max_metadata_value_bytes : ℕ
max_metadata_value_bytes = 1024

-- 100,000.0 and 100.0.
abbrev pub max_cpu_percent : F64
max_cpu_percent = 0x40f86a0000000000

abbrev pub f64_hundred : F64
f64_hundred = 0x4059000000000000

abbrev pub forbidden_metadata_key_fragments : List String
forbidden_metadata_key_fragments =
    "authorization" ∷ "chain_of_thought" ∷ "chain-of-thought" ∷ "cookie" ∷ "credential"
    ∷ "hidden_reasoning" ∷ "internal_reasoning" ∷ "api_key" ∷ "apikey" ∷ "prompt" ∷ "raw_response"
    ∷ "reasoning_content" ∷ "scratchpad" ∷ "secret" ∷ "token" ∷ []

-- `Result<(), RuntimeError>`.
abbrev pub RuntimeVerdict : Type 0
RuntimeVerdict = Checked RuntimeError

unfoldable pub validate_text : String → String → ℕ → RuntimeVerdict
validate_text field value maximum =
    reject_if (is_blank value || ltb maximum (len value)) (invalid_field field)

unfoldable pub validate_optional_text : String → Option String → ℕ → RuntimeVerdict
validate_optional_text field none maximum = ok
validate_optional_text field (some value) maximum = validate_text field value maximum

-- `value.is_finite()` on an f64: the exponent of an infinity or a NaN is all ones.
unfoldable pub is_finite_f64 : F64 → Bool
is_finite_f64 bits = not (nat_beq (bits / 0x10000000000000 % 0x800) 0x7ff)

-- `(0.0..=maximum).contains(&value)` for a positive maximum: the positive floats are ordered as
-- their bits are, and of the others only -0.0 lies in the range.
unfoldable pub in_range_f64 : F64 → F64 → Bool
in_range_f64 maximum bits = leb bits maximum || nat_beq bits 0x8000000000000000

-- `o.is_some_and(test)`.
abbrev pub is_some_and {ℓ} : {A : Type ℓ} → Option A → (A → Bool) → Bool
is_some_and none test = false
is_some_and (some a) test = test a

abbrev pub is_absent {ℓ} : {A : Type ℓ} → Option A → Bool
is_absent none = true
is_absent (some _) = false

abbrev pub reports_confidence : RuntimeHookKind → Bool
reports_confidence confidence_reported = true
reports_confidence _ = false

abbrev pub codes : String → List ℕ
codes String.[] = []
codes (String.◌∷◌ c s) = code c ∷ codes s

-- `str::trim`, on code points.
unfoldable pub trim_start : List ℕ → List ℕ
trim_start [] = []
trim_start (c ∷ cs) = let rest = trim_start cs in if is_whitespace c then rest else c ∷ cs

unfoldable pub trim_end : List ℕ → List ℕ
trim_end [] = []
trim_end (c ∷ cs) = elim (trim_end cs) [
  | [] ↦ if is_whitespace c then [] else c ∷ []
  | d ∷ ds ↦ c ∷ d ∷ ds
]

unfoldable pub to_ascii_lowercase : ℕ → ℕ
to_ascii_lowercase c = if leb b'A' c && leb c b'Z' then c + 32 else c

unfoldable pub starts_with : List ℕ → List ℕ → Bool
starts_with cs [] = true
starts_with [] (d ∷ ds) = false
starts_with (c ∷ cs) (d ∷ ds) = nat_beq c d && starts_with cs ds

-- `str::contains`.
unfoldable pub contains_text : List ℕ → List ℕ → Bool
contains_text [] ds = starts_with [] ds
contains_text (c ∷ cs) ds = starts_with (c ∷ cs) ds || contains_text cs ds

abbrev pub any {ℓ} : {A : Type ℓ} → (A → Bool) → List A → Bool
any test [] = false
any test (a ∷ l) = test a || any test l

unfoldable pub normalized_key : String → List ℕ
normalized_key key = map to_ascii_lowercase (trim_end (trim_start (codes key)))

unfoldable pub is_forbidden_key : String → Bool
is_forbidden_key key =
    any (λ fragment. contains_text (normalized_key key) (codes fragment))
      forbidden_metadata_key_fragments

-- The loop over the metadata.
unfoldable pub validate_metadata_entries : List (String × String) → RuntimeVerdict
validate_metadata_entries [] = ok
validate_metadata_entries ((key, value) ∷ entries) =
    validate_text "metadata.key" key max_metadata_key_bytes
    >> validate_text "metadata.value" value max_metadata_value_bytes
    >> reject_if (is_forbidden_key key) forbidden_metadata_key
    >> validate_metadata_entries entries

-- `RuntimeHookEnvelope::validate`.
unfoldable pub validate_hook : RuntimeHookEnvelope → RuntimeVerdict
validate_hook h = do
  reject_if (not (h.protocol_version == runtime_protocol_version)) unsupported_protocol
  reject_if (nat_beq h.event_id 0) (invalid_field "event_id")
  validate_text "agent.agent_id" h.agent.agent_id 256
  validate_text "agent.provider" h.agent.provider 128
  validate_text "agent.model" h.agent.model 256
  validate_optional_text "agent.instance_id" h.agent.instance_id 256
  validate_optional_text "session_id" h.session_id 256
  validate_optional_text "summary" h.summary max_text_bytes
  validate_optional_text "tool_name" h.tool_name 256
  reject_if (is_some_and h.pid (λ pid. nat_beq pid 0)) (invalid_field "pid")
  reject_if (is_some_and h.confidence (λ v. not (is_finite v) || not (in_unit_range v)))
      (invalid_field "confidence")
  reject_if (reports_confidence h.kind && is_absent h.confidence) (missing_field "confidence")
  reject_if
      (is_some_and h.cpu_percent
        (λ v. not (is_finite_f64 v) || not (in_range_f64 max_cpu_percent v)))
      (invalid_field "cpu_percent")
  reject_if
      (is_some_and h.memory_percent
        (λ v. not (is_finite_f64 v) || not (in_range_f64 f64_hundred v)))
      (invalid_field "memory_percent")
  reject_if (ltb max_metadata_entries (length h.metadata)) too_many_metadata_entries
  validate_metadata_entries h.metadata

-- `ControlCommandRequest::validate`.
unfoldable pub validate_request : ControlCommandRequest → RuntimeVerdict
validate_request r = validate_text "agent_id" r.agent_id 256

-- `ControlCommandAck::validate`.
unfoldable pub validate_ack : ControlCommandAck → RuntimeVerdict
validate_ack a = do
  reject_if (nat_beq a.command_id 0) (invalid_field "command_id")
  validate_text "agent_id" a.agent_id 256
  validate_optional_text "message" a.message 1024
