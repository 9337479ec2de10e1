-- ===== src/Metacognition/Outside.antt =====
-- What src/metacognition/analysis.rs takes from the standard library and from chrono, and the policy of
-- src/metacognition/types.rs.
use meta_agent_control_plane.Prelude.{
  ℕ, ◌+◌, ◌*◌, ℤ, pos, negsuc, min, max, max_int, String, Bool, true, List, [], ◌∷◌, leb, nat_beq,
  if◌then◌else◌,
}
use meta_agent_control_plane.Model.Numbers.{
  DateTime, F32, f32_zero, f32_one, is_finite, saturating_suc,
}
use meta_agent_control_plane.Metacognition.Data.{AnalysisPolicy}

-- The operations of f32 and usize, `signed_duration_since(..).num_seconds()`, and the texts that
-- `format!` makes of numbers: `{}`, and `{:.0}` of a float times 100.
pub record Outside : Type 0 where
  pub is_less : F32 → F32 → Bool
  pub add : F32 → F32 → F32
  pub div : F32 → F32 → F32
  pub from_usize : ℕ → F32
  pub num_seconds : DateTime → DateTime → ℤ
  pub number : ℕ → String
  pub integer : ℤ → String
  pub percent : F32 → String

-- `AnalysisPolicy::default`. The threshold is 0.45.
abbrev pub default_analysis_policy : AnalysisPolicy
default_analysis_policy = record {
  stale_after_seconds = pos 900;
  retry_loop_attempts = 3;
  low_confidence_threshold = 0x3ee66666;
}

-- `n >= i` for an i64.
abbrev pub is_at_least : ℕ → ℤ → Bool
is_at_least n (pos m) = leb m n
is_at_least n (negsuc m) = true

-- `saturating_mul(2)` of i64.
abbrev pub saturating_double : ℤ → ℤ
saturating_double (pos m) = pos (min (m * 2) 9223372036854775807)
saturating_double (negsuc m) = negsuc (min (m * 2 + 1) 9223372036854775807)

module _ (outside : Outside) where
  open outside use {is_less, add, div, from_usize, num_seconds}

  -- `clamp(0.0, 1.0)`.
  unfoldable pub clamp_unit : F32 → F32
  clamp_unit value =
      if is_less value f32_zero then f32_zero else if is_less f32_one value then f32_one else value

  -- `AnalysisPolicy::normalized`.
  unfoldable pub normalized : AnalysisPolicy → AnalysisPolicy
  unfolding clamp_unit
  normalized policy = record {
    stale_after_seconds = pos (max_int policy.stale_after_seconds 1);
    retry_loop_attempts = max policy.retry_loop_attempts 2;
    low_confidence_threshold =
        if is_finite policy.low_confidence_threshold
        then clamp_unit policy.low_confidence_threshold
        else default_analysis_policy.low_confidence_threshold;
  }

  unfoldable pub age_seconds : DateTime → DateTime → ℕ
  age_seconds now before = max_int (num_seconds now before) 0

  unfoldable pub ratio : ℕ → ℕ → F32
  ratio numerator denominator =
      if nat_beq denominator 0
      then f32_zero
      else div (from_usize numerator) (from_usize denominator)

  -- The `fold` of `mean`, and what follows it.
  unfoldable pub mean_from : F32 → ℕ → List F32 → F32
  mean_from sum n [] = if nat_beq n 0 then f32_zero else div sum (from_usize n)
  mean_from sum n (value ∷ values) = mean_from (add sum value) (saturating_suc n) values

  unfoldable pub mean : List F32 → F32
  unfolding mean_from
  mean values = mean_from f32_zero 0 values
