-- ===== src/Prelude/Lists.antt =====
-- Lists over the native numbers: length, and a predicate on every element.
use Prim.Native.Nat.{ℕ, suc, ◌+◌}
use mathlib.Core.Bool.{Bool}
use meta_agent_control_plane.Prelude.Tests.{if◌then◌else◌}
use mathlib.Core.List.{List, [], ◌∷◌, ◌++◌, Memᴰ, map}
use mathlib.Core.List.Memᴰ
use mathlib.Core.Path.{◌≡◌, refl, sym, subst}
use mathlib.Core.Logic.{inl, inr}
use native.Mathlib.Omega.{arith}

module _ {ℓ} {A : Type ℓ} where
  abbrev pub length : List A → ℕ
  length [] = 0
  length (x ∷ xs) = suc (length xs)

  abbrev pub All {κ} : (A → Type κ) → List A → Type κ
  All P [] = Unit
  All P (x ∷ xs) = P x × All P xs

  pub length-append : (xs ys : List A) → length (xs ++ ys) ≡ length xs + length ys
  length-append [] ys = omega arith
  length-append (x ∷ xs) ys = omega (arith, length-append xs ys)

  -- The elements that pass a Boolean test.
  unfoldable pub filter : (A → Bool) → List A → List A
  filter test [] = []
  filter test (x ∷ xs) = let rest = filter test xs in if test x then x ∷ rest else rest

module _ {A : Type 0} where
  -- What holds of each member, and the members of which it holds.
  pub All-mem : (P : A → Type 0) (l : List A) → ((x : A) → Memᴰ x l → P x) → All P l
  All-mem P [] p = tt
  All-mem P (x ∷ l) p = (p x (Memᴰ.head refl), All-mem P l (λ t m. p t (Memᴰ.tail m)))

  pub of_All-mem : (P : A → Type 0) (x : A) (l : List A) → All P l → Memᴰ x l → P x
  of_All-mem P x [] all m = absurd (Memᴰ.not-nil m)
  of_All-mem P x (y ∷ l) all m = elim (Memᴰ.cases_cons m) [
    | inl e ↦ subst P (sym e) all.0
    | inr later ↦ of_All-mem P x l all.1 later
  ]

  pub All-imp : (P R : A → Type 0) (l : List A) → ((x : A) → P x → R x) → All P l → All R l
  All-imp P R [] f all = tt
  All-imp P R (x ∷ l) f all = (f x all.0, All-imp P R l f all.1)

  pub All-map :
      {B : Type 0} (P : B → Type 0) (f : A → B) (l : List A)
      → All (λ x. P (f x)) l
      → All P (map f l)
  All-map P f [] all = tt
  All-map P f (x ∷ l) all = (all.0, All-map P f l all.1)
