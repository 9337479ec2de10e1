-- ===== src/Prelude/Counts.antt =====
-- How many elements of a list pass a test.
use Prim.Native.Nat.{ℕ, ◌+◌, ◌≤◌}
use mathlib.Core.Bool.{Bool, true, false}
use mathlib.Core.List.{List, [], ◌∷◌, ◌++◌}
use mathlib.Core.Logic.{inl, inr}
use mathlib.Core.Path.{◌≡◌, refl}
use native.Mathlib.Omega.{arith}
use meta_agent_control_plane.Prelude.Tests.{Bool-cases}
use meta_agent_control_plane.Prelude.Lists.{length, filter}
use meta_agent_control_plane.Prelude.Sort.{insert_sorted, sort_by}

abbrev pub one_if : Bool → ℕ
one_if true = 1
one_if false = 0

module _ {A : Type 0} where
  abbrev pub count : (A → Bool) → List A → ℕ
  count test [] = 0
  count test (x ∷ l) = one_if (test x) + count test l

  pub count-append :
      (test : A → Bool) (l r : List A) → count test (l ++ r) ≡ count test l + count test r
  count-append test [] r = omega arith
  count-append test (x ∷ l) r = omega (arith, count-append test l r)

  pub count-all : (l : List A) → count (λ _. true) l ≡ length l
  count-all [] = refl
  count-all (x ∷ l) = omega (arith, count-all l)

  pub count-filter : (test : A → Bool) (l : List A) → length (filter test l) ≡ count test l
  unfolding filter
  count-filter test [] = refl
  count-filter test (x ∷ l) = elim (Bool-cases (test x)) [
    | inl pass ↦ rw pass (omega (arith, count-filter test l))
    | inr fail ↦ rw fail (omega (arith, count-filter test l))
  ]

  pub count-le-length : (test : A → Bool) (l : List A) → count test l ≤ length l
  count-le-length test [] = omega arith
  count-le-length test (x ∷ l) = ground (arith, count-le-length test l)

  count-insert_sorted :
      (before : A → A → Bool) (test : A → Bool) (x : A) (l : List A)
      → count test (insert_sorted before x l) ≡ one_if (test x) + count test l
  unfolding insert_sorted
  count-insert_sorted before test x [] = refl
  count-insert_sorted before test x (y ∷ l) = elim (Bool-cases (before y x)) [
    | inl deeper ↦ rw deeper (omega (arith, count-insert_sorted before test x l))
    | inr front ↦ rw front refl
  ]

  -- Sorting keeps what is counted.
  pub count-sort_by :
      (before : A → A → Bool) (test : A → Bool) (l : List A)
      → count test (sort_by before l) ≡ count test l
  unfolding sort_by
  count-sort_by before test [] = refl
  count-sort_by before test (x ∷ l) =
      omega
        (arith, count-insert_sorted before test x (sort_by before l), count-sort_by before test l)
