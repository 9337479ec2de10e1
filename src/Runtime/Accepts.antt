-- ===== src/Runtime/Accepts.antt =====
-- What the checks of src/runtime/model.rs admit, said without running them, and that they admit
-- exactly that.
use meta_agent_control_plane.Prelude.{
  ℕ, ◌≤◌, ◌<◌, ◌≡◌, ◌≢◌, ◌↔◌, ◌⊎◌, inl, inr, refl, ap, ap₂, String, Bool, true, false, ◌&&◌, ◌||◌,
  not, Option, none, some, List, [], ◌∷◌, ◌++◌, length, ltb, nat_beq, nat_beq_iff, arith,
  Bool-cases, string_eq, ◌==◌, ok, reject_if, ◌&◌, and_then, unless, All,
}
use meta_agent_control_plane.Model.Numbers.{F32, is_finite, in_unit_range}
use meta_agent_control_plane.Model.Spec.{
  IsText, IsUnitInterval, Whenever, absent, present, Every, done, also,
}
use meta_agent_control_plane.Model.Checks.{
  is_blank-HasInk, HasInk-is_blank, of_present, head_of, tail_of,
}
use meta_agent_control_plane.Runtime.Data
use meta_agent_control_plane.Runtime.Data.{
  F64, RuntimeHookKind, RuntimeHookEnvelope, ControlCommandAck, RuntimeError, confidence_reported,
}
use meta_agent_control_plane.Runtime.Validation.{
  validate_text, validate_optional_text, is_finite_f64, in_range_f64, is_some_and, is_absent,
  reports_confidence, codes, starts_with, contains_text, any, normalized_key, is_forbidden_key,
  forbidden_metadata_key_fragments, validate_metadata_entries, validate_hook, max_cpu_percent,
  f64_hundred, runtime_protocol_version,
}

-- The second text stands somewhere in the first.
abbrev pub Occurs : List ℕ → List ℕ → Type 0
Occurs cs ds = (before : List ℕ) × (after : List ℕ) × (cs ≡ before ++ (ds ++ after))

-- A float from 0.0 to a positive one by its bits, or -0.0: so neither an infinity nor a NaN.
pub record IsFloatUpTo (maximum : F64) (f : F64) : Type 0 where
  pub bits : (f ≤ maximum) ⊎ (f ≡ 0x8000000000000000)

-- The key, trimmed and in lower case, holds no forbidden fragment.
pub record IsPublicKey (key : String) : Type 0 where
  pub free :
      All
        (λ fragment. ¬ Occurs (normalized_key key) (codes fragment))
        forbidden_metadata_key_fragments

abbrev pub IsHookEntry : String × String → Type 0
IsHookEntry (key, value) = IsText 128 key & IsText 1024 value & IsPublicKey key

abbrev pub IsHook : RuntimeHookEnvelope → Type 0
IsHook h =
    (h.protocol_version ≡ runtime_protocol_version)
    & (h.event_id ≢ 0)
    & IsText 256 h.agent.agent_id
    & IsText 128 h.agent.provider
    & IsText 256 h.agent.model
    & Whenever (IsText 256) h.agent.instance_id
    & Whenever (IsText 256) h.session_id
    & Whenever (IsText 4096) h.summary
    & Whenever (IsText 256) h.tool_name
    & Whenever (λ pid. pid ≢ 0) h.pid
    & Whenever IsUnitInterval h.confidence
    & (h.kind ≡ confidence_reported → h.confidence ≢ none)
    & Whenever (IsFloatUpTo max_cpu_percent) h.cpu_percent
    & Whenever (IsFloatUpTo f64_hundred) h.memory_percent
    & (length h.metadata ≤ 32)
    & Every IsHookEntry h.metadata

starts_with_iff :
    (cs ds : List ℕ) → (starts_with cs ds ≡ true) ↔ ((after : List ℕ) × (cs ≡ ds ++ after))
unfolding starts_with
starts_with_iff cs [] = (λ h. (cs, refl), λ h. refl)
starts_with_iff [] (d ∷ ds) = (λ h. cc, λ (after, e). cc)
starts_with_iff (c ∷ cs) (d ∷ ds) =
    let rest = starts_with_iff cs ds in
    let head = nat_beq_iff c d in
    (
      λ h. let (after, e) = rest.0 (ground arith) in (after, ap₂ ◌∷◌ (head.0 (ground arith)) e),
      λ (after, e). let same = head.1 (cc) in let tail = rest.1 (after, cc) in ground arith,
    )

starts-Occurs : (cs ds : List ℕ) → starts_with cs ds ≡ true → Occurs cs ds
starts-Occurs cs ds h = let (after, e) = (starts_with_iff cs ds).0 h in ([], after, e)

contains_text_iff : (cs ds : List ℕ) → (contains_text cs ds ≡ true) ↔ Occurs cs ds
unfolding contains_text
contains_text_iff [] ds = (starts-Occurs [] ds, at_end)
  where
    at_end : Occurs [] ds → starts_with [] ds ≡ true
    at_end ([], after, e) = (starts_with_iff [] ds).1 (after, e)
    at_end (b ∷ before, after, e) = cc
contains_text_iff (c ∷ cs) ds = (found (contains_text_iff cs ds), occurs (contains_text_iff cs ds))
  where
    found :
        (contains_text cs ds ≡ true) ↔ Occurs cs ds
        → (starts_with (c ∷ cs) ds || contains_text cs ds) ≡ true
        → Occurs (c ∷ cs) ds
    found rest h = elim (Bool-cases (starts_with (c ∷ cs) ds)) [
      | inl here ↦ starts-Occurs (c ∷ cs) ds here
      | inr later ↦
          let (before, after, e) = rest.0 (ground arith) in (c ∷ before, after, ap (◌∷◌ c) e)
    ]

    occurs :
        (contains_text cs ds ≡ true) ↔ Occurs cs ds
        → Occurs (c ∷ cs) ds
        → (starts_with (c ∷ cs) ds || contains_text cs ds) ≡ true
    occurs rest ([], after, e) = let here = (starts_with_iff (c ∷ cs) ds).1 (after, e) in rw here
    occurs rest (b ∷ before, after, e) = let later = rest.1 (before, after, cc) in ground arith

-- No element passes the test.
none_pass :
    {P : String → Type 0} (test : String → Bool) (l : List String)
    → ((s : String) → (test s ≡ true) ↔ P s)
    → (any test l ≡ false) ↔ All (λ s. ¬ P s) l
none_pass test [] h = (λ e. tt, λ a. refl)
none_pass {P} test (s ∷ l) h =
    let rest = none_pass {P = P} test l h in
    (
      λ e. (λ p. let hit = (h s).1 p in cc (hit, e), rest.0 (ground arith)),
      λ (no_hit, others). elim (Bool-cases (test s)) [
        | inl hit ↦ absurd (no_hit ((h s).0 hit))
        | inr miss ↦ rw miss (rest.1 others)
      ],
    )

IsPublicKey-iff :
    (key : String) (e : RuntimeError) → (reject_if (is_forbidden_key key) e ≡ ok) ↔ IsPublicKey key
unfolding is_forbidden_key
IsPublicKey-iff key e =
    let free =
      none_pass (λ fragment. contains_text (normalized_key key) (codes fragment))
        forbidden_metadata_key_fragments
        (λ fragment. contains_text_iff (normalized_key key) (codes fragment)) in
    unless _ e (λ h. record { free = free.0 h }, λ k. free.1 k.free)

runtime-IsText_iff :
    (field value : String) (maximum : ℕ)
    → (validate_text field value maximum ≡ ok) ↔ IsText maximum value
unfolding validate_text
runtime-IsText_iff field value maximum = unless _ _ (
  λ h. record { ink = is_blank-HasInk value (ground arith); short = ground arith },
  λ t. let ink = HasInk-is_blank t.ink in let short = t.short in ground arith,
)

runtime_optional-IsText_iff :
    (field : String) (value : Option String) (maximum : ℕ)
    → (validate_optional_text field value maximum ≡ ok) ↔ Whenever (IsText maximum) value
unfolding validate_optional_text
runtime_optional-IsText_iff field none maximum = (λ h. absent, λ h. refl)
runtime_optional-IsText_iff field (some value) maximum =
    let text = runtime-IsText_iff field value maximum in
    (λ h. present (text.0 h), λ w. text.1 (of_present w))

-- A test on a value that is present rejects what does not meet the requirement.
Whenever-iff :
    {A : Type 0} {P : A → Type 0} (o : Option A) (test : A → Bool) (e : RuntimeError)
    → ((a : A) → (test a ≡ false) ↔ P a)
    → (reject_if (is_some_and o test) e ≡ ok) ↔ Whenever P o
Whenever-iff none test e h = (λ x. absent, λ w. refl)
Whenever-iff (some a) test e h =
    unless (test a) e ((λ x. present ((h a).0 x)), λ w. (h a).1 (of_present w))

pid_iff :
    (o : Option ℕ) (e : RuntimeError)
    → (reject_if (is_some_and o (λ pid. nat_beq pid 0)) e ≡ ok) ↔ Whenever (λ pid. pid ≢ 0) o
pid_iff o e = Whenever-iff o _ e (λ a. (λ h z. ground arith, λ h. ground arith))

confidence_iff :
    (o : Option F32) (e : RuntimeError)
    → (reject_if (is_some_and o (λ v. not (is_finite v) || not (in_unit_range v))) e ≡ ok)
      ↔ Whenever IsUnitInterval o
unfolding is_finite in_unit_range
confidence_iff o e =
    Whenever-iff o _ e
      (λ a. (λ h. record { bits = ground arith }, λ u. let bits = u.bits in ground arith))

float_iff :
    (maximum : F64)
    → maximum < 0x7ff0000000000000
    → (o : Option F64) (e : RuntimeError)
    → (reject_if (is_some_and o (λ v. not (is_finite_f64 v) || not (in_range_f64 maximum v))) e
        ≡ ok)
      ↔ Whenever (IsFloatUpTo maximum) o
unfolding is_finite_f64 in_range_f64
float_iff maximum small o e =
    Whenever-iff o _ e
      (λ a. (λ h. record { bits = ground arith }, λ u. let bits = u.bits in ground arith))

reports_false :
    (kind : RuntimeHookKind) → reports_confidence kind ≡ false → kind ≢ confidence_reported
reports_false kind h k = let report = ap reports_confidence k in cc

not_reports :
    (kind : RuntimeHookKind)
    → kind ≢ confidence_reported
    → (reports_confidence kind && true) ≡ false
not_reports confidence_reported h = absurd (h refl)
not_reports kind h = ground arith

reported_iff :
    (kind : RuntimeHookKind) (o : Option F32) (e : RuntimeError)
    → (reject_if (reports_confidence kind && is_absent o) e ≡ ok)
      ↔ (kind ≡ confidence_reported → o ≢ none)
reported_iff kind none e =
    unless _ e
      (λ h k. absurd (reports_false kind (ground arith) k), λ h. not_reports kind (λ k. h k refl))
reported_iff kind (some v) e = unless _ e (λ h k. ground arith, λ h. ground arith)

few_entries_iff : (n : ℕ) (e : RuntimeError) → (reject_if (ltb 32 n) e ≡ ok) ↔ (n ≤ 32)
few_entries_iff n e = unless _ e (λ h. ground arith, λ h. ground arith)

version_iff :
    (s : String) (e : RuntimeError)
    → (reject_if (not (s == runtime_protocol_version)) e ≡ ok) ↔ (s ≡ runtime_protocol_version)
version_iff s e =
    let same = string_eq.is_same_iff s runtime_protocol_version in
    unless _ e (λ h. same.0 (ground arith), λ h. let b = same.1 h in ground arith)

id_iff : (n : ℕ) (e : RuntimeError) → (reject_if (nat_beq n 0) e ≡ ok) ↔ (n ≢ 0)
id_iff n e = unless _ e (λ h z. ground arith, λ h. ground arith)

entries_iff :
    (l : List (String × String)) → (validate_metadata_entries l ≡ ok) ↔ Every IsHookEntry l
unfolding validate_metadata_entries
entries_iff [] = (λ h. done, λ e. refl)
entries_iff ((key, value) ∷ l) =
    let checks =
      and_then _ _
        (and_then _ _
          (and_then _ _ (runtime-IsText_iff "metadata.key" key 128)
            (runtime-IsText_iff "metadata.value" value 1024))
          (IsPublicKey-iff key Data.forbidden_metadata_key))
        (entries_iff l) in
    (
      λ h.
          let both = checks.0 h in
          let entry = both.first in
          also
            (record {
              first = entry.first.first;
              rest = record { first = entry.first.rest; rest = entry.rest };
            })
            both.rest,
      λ e.
          let entry = head_of e in
          checks.1 (record {
            first = record {
              first = record { first = entry.first; rest = entry.rest.first };
              rest = entry.rest.rest;
            };
            rest = tail_of e;
          }),
    )

-- A hook is admitted exactly when its protocol version is the supported one, its event id is not
-- nil, its texts have ink and fit their byte limits, its process id is not 0, its confidence lies in
-- the unit interval and is there if the hook reports it, its percentages lie in their ranges, and
-- its metadata has at most 32 entries, each with a key that, trimmed and in lower case, holds no
-- forbidden fragment.
pub validate_hook_iff : (h : RuntimeHookEnvelope) → (validate_hook h ≡ ok) ↔ IsHook h
unfolding validate_hook
validate_hook_iff h =
    search
      (
        and_then,
        version_iff,
        id_iff,
        runtime-IsText_iff,
        runtime_optional-IsText_iff,
        pid_iff,
        confidence_iff,
        reported_iff,
        float_iff max_cpu_percent (omega arith),
        float_iff f64_hundred (omega arith),
        few_entries_iff,
        entries_iff,
      )
      depth 20
