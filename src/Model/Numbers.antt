-- ===== src/Model/Numbers.antt =====
-- The machine types of src/model.rs and src/store.rs: `f32` by its IEEE 754 bit pattern, `u64`
-- counters, `Uuid` by its 128-bit value, `DateTime<Utc>` by its place in the order of the values.
use meta_agent_control_plane.Prelude.{
  ℕ, ◌+◌, ◌-◌, ◌/◌, ◌%◌, ◌^◌, ◌≤◌, ◌<◌, ◌≡◌, Bool, ◌||◌, not, leb, ltb, nat_beq, arith,
  if◌then◌else◌,
}

abbrev pub Uuid : Type 0
Uuid = ℕ

abbrev pub DateTime : Type 0
DateTime = ℕ

-- The 32 bits: sign, eight bits of exponent, 23 bits of mantissa.
abbrev pub F32 : Type 0
F32 = ℕ

abbrev pub f32_zero : F32
f32_zero = 0x00000000

abbrev pub f32_one : F32
f32_one = 0x3f800000

-- The exponent of an infinity or a NaN is all ones.
unfoldable pub is_finite : F32 → Bool
is_finite bits = not (nat_beq (bits / 0x800000 % 0x100) 0xff)

-- `(0.0..=1.0).contains(&value)`: the positive floats are ordered as their bits are; of those
-- with the sign bit only -0.0, which equals 0.0, lies in the range; a NaN compares with nothing.
unfoldable pub in_unit_range : F32 → Bool
in_unit_range bits = leb bits f32_one || nat_beq bits 0x80000000

abbrev pub u64_max : ℕ
u64_max = 18446744073709551615

-- `n.saturating_add(1)` on a u64.
unfoldable pub saturating_suc : ℕ → ℕ
saturating_suc n = if ltb n u64_max then n + 1 else u64_max

-- `n.saturating_sub(1)`: subtraction on ℕ stops at 0 too.
unfoldable pub saturating_pred : ℕ → ℕ
saturating_pred n = n - 1

-- `*n += 1` on a u64, in the release build, where it wraps.
unfoldable pub wrapping_suc : ℕ → ℕ
wrapping_suc n = (n + 1) % 2 ^ 64

pub saturating_suc_below : (n : ℕ) → n < u64_max → saturating_suc n ≡ n + 1
unfolding saturating_suc
saturating_suc_below n h = ground arith

pub saturating_suc_le : (n : ℕ) → saturating_suc n ≤ u64_max
unfolding saturating_suc
saturating_suc_le n = ground arith
