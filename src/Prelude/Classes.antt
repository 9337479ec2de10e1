-- ===== src/Prelude/Classes.antt =====
-- Equality tests: `==` of Rust's `PartialEq` on the keys that the program compares.
use Prim.Native.Nat.{ℕ}
use Prim.Native.String.{String}
use text.Mathlib.Text.{◌==◌ as str_eq}
use text.Mathlib.TextEquality.{eq_iff}
use mathlib.Core.Bool.{Bool, true, ◌&&◌}
use mathlib.Core.Logic.{◌↔◌}
use mathlib.Core.Path.{◌≡◌, refl}
use native.Mathlib.Omega.{arith}
use meta_agent_control_plane.Prelude.Tests.{nat_beq, nat_beq_iff}

-- A type of keys with a Boolean test that decides equality.
pub record PartialEq {ℓ} (K : Type ℓ) : Type ℓ where
  pub is_same : K → K → Bool
  pub is_same_iff : (k k' : K) → (is_same k k' ≡ true) ↔ (k ≡ k')

infix 50 ◌==◌
abbrev pub ◌==◌ {ℓ} : {K : Type ℓ} ⦃test : PartialEq K⦄ → K → K → Bool
◌==◌ ⦃test⦄ k k' = test.is_same k k'

pub ==-self {ℓ} : {K : Type ℓ} ⦃test : PartialEq K⦄ (k : K) → (k == k) ≡ true
==-self ⦃test⦄ k = (test.is_same_iff k k).1 refl

instance abbrev pub string_eq : PartialEq String
string_eq = record { is_same = str_eq; is_same_iff = eq_iff }

instance abbrev pub nat_eq : PartialEq ℕ
nat_eq = record { is_same = nat_beq; is_same_iff = nat_beq_iff }

abbrev pub pair_beq : String × String → String × String → Bool
pair_beq (a, b) (c, d) = a == c && b == d

pub pair_beq_iff : (p q : String × String) → (pair_beq p q ≡ true) ↔ (p ≡ q)
pair_beq_iff (a, b) (c, d) =
    (λ h. ground (arith, eq_iff a c, eq_iff b d), λ h. ground (arith, eq_iff a c, eq_iff b d))

instance abbrev pub pair_eq : PartialEq (String × String)
pair_eq = record { is_same = pair_beq; is_same_iff = pair_beq_iff }
