-- ===== src/Model/Checks.antt =====
-- Each check of src/model.rs accepts exactly what its requirement in Model/Spec.antt admits.
use Prim.Native.Char.{code}
use meta_agent_control_plane.Prelude.{
  ℕ, ◌≤◌, ◌≡◌, ◌↔◌, refl, inl, inr, String, false, Option, none, some, List, [], ◌∷◌, length, ltb,
  arith, Bool-cases, string_eq, ok, ◌>>◌, reject_if, and_then, unless,
}
use meta_agent_control_plane.Model.Numbers.{F32, is_finite, in_unit_range}
use meta_agent_control_plane.Model.Payload.{EvidenceReference}
use meta_agent_control_plane.Model.Validation.{
  Validated, ValidationError, is_whitespace, is_blank, validate_text, validate_optional_text,
  validate_each, validate_string_list, validate_entries, validate_metadata, validate_unit_interval,
  validate_optional_unit_interval, validate_reference, validate_references, validate_evidence,
}
use meta_agent_control_plane.Model.Spec.{
  Whenever, absent, present, Every, done, also, HasInk, here, there, IsText, IsTextList,
  IsUnitInterval, IsEntry, IsMetadata, IsReference, IsEvidence,
}

pub is_blank-HasInk : (s : String) → is_blank s ≡ false → HasInk s
unfolding is_blank
is_blank-HasInk String.[] h = cc
is_blank-HasInk (String.◌∷◌ c s) h = elim (Bool-cases (is_whitespace (code c))) [
  | inl white ↦ there (is_blank-HasInk s (ground arith))
  | inr ink ↦ here ink
]

pub HasInk-is_blank : {s : String} → HasInk s → is_blank s ≡ false
unfolding is_blank
HasInk-is_blank (here h) = rw h
HasInk-is_blank (there {c} h) = ground (arith, HasInk-is_blank h)

pub IsText-iff :
    (field value : String) (maximum : ℕ)
    → (validate_text field value maximum ≡ ok) ↔ IsText maximum value
unfolding validate_text
IsText-iff field value maximum = (
  λ h. record { ink = is_blank-HasInk value (ground arith); short = ground arith },
  λ t. let ink = HasInk-is_blank t.ink in let short = t.short in ground arith,
)

-- The value that is present meets the requirement.
pub of_present : {A : Type 0} {P : A → Type 0} {a : A} → Whenever P (some a) → P a
of_present (present p) = p

pub head_of : {A : Type 0} {P : A → Type 0} {a : A} {l : List A} → Every P (a ∷ l) → P a
head_of (also p ps) = p

pub tail_of : {A : Type 0} {P : A → Type 0} {a : A} {l : List A} → Every P (a ∷ l) → Every P l
tail_of (also p ps) = ps

-- A loop that checks each element accepts when each element meets the requirement.
every_cons :
    {A : Type 0} {P : A → Type 0} (a : A) (l : List A) (x y : Validated)
    → (x ≡ ok) ↔ P a
    → (y ≡ ok) ↔ Every P l
    → ((x >> y) ≡ ok) ↔ Every P (a ∷ l)
every_cons a l x y p q =
    let both = and_then x y p q in
    (
      λ h. also (both.0 h).first (both.0 h).rest,
      λ e. both.1 (record { first = head_of e; rest = tail_of e }),
    )

pub optional-IsText_iff :
    (field : String) (value : Option String) (maximum : ℕ)
    → (validate_optional_text field value maximum ≡ ok) ↔ Whenever (IsText maximum) value
unfolding validate_optional_text
optional-IsText_iff field none maximum = (λ h. absent, λ h. refl)
optional-IsText_iff field (some value) maximum =
    let text = IsText-iff field value maximum in
    (λ h. present (text.0 h), λ w. text.1 (of_present w))

each_iff :
    (field : String) (values : List String) (maximum : ℕ)
    → (validate_each field values maximum ≡ ok) ↔ Every (IsText maximum) values
unfolding validate_each
each_iff field [] maximum = (λ h. done, λ e. refl)
each_iff field (value ∷ values) maximum =
    every_cons value values _ _ (IsText-iff field value maximum) (each_iff field values maximum)

few_iff : (n maximum : ℕ) (e : ValidationError) → (reject_if (ltb maximum n) e ≡ ok) ↔ (n ≤ maximum)
few_iff n maximum e = unless (ltb maximum n) e (λ h. ground arith, λ h. ground arith)

pub IsTextList-iff :
    (field : String) (values : List String) (maximum_values maximum_length : ℕ)
    → (validate_string_list field values maximum_values maximum_length ≡ ok)
      ↔ IsTextList maximum_values maximum_length values
unfolding validate_string_list
IsTextList-iff field values maximum_values maximum_length =
    let both =
      and_then _ _ (few_iff (length values) maximum_values _)
        (each_iff field values maximum_length) in
    (
      λ h. record { few = (both.0 h).first; each = (both.0 h).rest },
      λ l. both.1 (record { first = l.few; rest = l.each }),
    )

IsEntry-iff :
    (key value : String)
    → ((validate_text "metadata.key" key 128 >> validate_text "metadata.value" value 2048) ≡ ok)
      ↔ IsEntry (key, value)
IsEntry-iff key value =
    let both =
      and_then _ _ (IsText-iff "metadata.key" key 128) (IsText-iff "metadata.value" value 2048) in
    (
      λ h. record { key = (both.0 h).first; value = (both.0 h).rest },
      λ e. both.1 (record { first = e.key; rest = e.value }),
    )

entries_iff : (l : List (String × String)) → (validate_entries l ≡ ok) ↔ Every IsEntry l
unfolding validate_entries
entries_iff [] = (λ h. done, λ e. refl)
entries_iff ((key, value) ∷ l) =
    every_cons (key, value) l _ _ (IsEntry-iff key value) (entries_iff l)

pub IsMetadata-iff : (l : List (String × String)) → (validate_metadata l ≡ ok) ↔ IsMetadata l
unfolding validate_metadata
IsMetadata-iff l =
    let both = and_then _ _ (few_iff (length l) 128 _) (entries_iff l) in
    (
      λ h. record { few = (both.0 h).first; each = (both.0 h).rest },
      λ m. both.1 (record { first = m.few; rest = m.each }),
    )

-- The test for a finite float changes nothing: what lies in the range is finite.
pub IsUnitInterval-iff :
    (field : String) (value : F32)
    → (validate_unit_interval field value ≡ ok) ↔ IsUnitInterval value
unfolding validate_unit_interval is_finite in_unit_range
IsUnitInterval-iff field value =
    (λ h. record { bits = ground arith }, λ u. let bits = u.bits in ground arith)

pub optional-IsUnitInterval_iff :
    (field : String) (value : Option F32)
    → (validate_optional_unit_interval field value ≡ ok) ↔ Whenever IsUnitInterval value
unfolding validate_optional_unit_interval
optional-IsUnitInterval_iff field none = (λ h. absent, λ h. refl)
optional-IsUnitInterval_iff field (some value) =
    let unit = IsUnitInterval-iff field value in
    (λ h. present (unit.0 h), λ w. unit.1 (of_present w))

IsReference-iff : (r : EvidenceReference) → (validate_reference r ≡ ok) ↔ IsReference r
unfolding validate_reference
IsReference-iff r = and_then _ _ (IsText-iff "evidence.kind" r.kind 128) (
    and_then _ _ (IsText-iff "evidence.reference" r.reference 4096)
      (optional-IsText_iff "evidence.summary" r.summary 4096))

references_iff : (l : List EvidenceReference) → (validate_references l ≡ ok) ↔ Every IsReference l
unfolding validate_references
references_iff [] = (λ h. done, λ e. refl)
references_iff (r ∷ l) = every_cons r l _ _ (IsReference-iff r) (references_iff l)

pub IsEvidence-iff :
    (field : String) (l : List EvidenceReference) → (validate_evidence field l ≡ ok) ↔ IsEvidence l
unfolding validate_evidence
IsEvidence-iff field l =
    let both = and_then _ _ (few_iff (length l) 128 _) (references_iff l) in
    (
      λ h. record { few = (both.0 h).first; each = (both.0 h).rest },
      λ e. both.1 (record { first = e.few; rest = e.each }),
    )
