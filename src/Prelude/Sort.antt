-- ===== src/Prelude/Sort.antt =====
-- The stable sort of a vector by a test on its elements, which makes its result the one of insertion
-- from the back.
use mathlib.Core.List.{List, [], ◌∷◌}
use mathlib.Core.List.Perm
use mathlib.Core.List.{Perm}
use mathlib.Core.Bool.{Bool}
use mathlib.Core.Logic.{inl, inr}
use mathlib.Core.Path.{◌≡◌, refl}
use Prim.Native.Nat.{suc}
use native.Mathlib.Omega.{arith}
use meta_agent_control_plane.Prelude.Lists.{length, All}
use meta_agent_control_plane.Prelude.Tests.{if◌then◌else◌, Bool-cases}

module _ {A : Type 0} (before : A → A → Bool) where
  unfoldable pub insert_sorted : A → List A → List A
  insert_sorted x [] = x ∷ []
  insert_sorted x (y ∷ l) =
      let deeper = y ∷ insert_sorted x l in if before y x then deeper else x ∷ y ∷ l

  unfoldable pub sort_by : List A → List A
  unfolding insert_sorted
  sort_by [] = []
  sort_by (x ∷ l) = insert_sorted x (sort_by l)

  insert_sorted-perm : (x : A) (l : List A) → Perm (insert_sorted x l) (x ∷ l)
  unfolding insert_sorted
  insert_sorted-perm x [] = Perm.rfl
  insert_sorted-perm x (y ∷ l) = elim (Bool-cases (before y x)) [
    | inl deeper ↦ rw deeper (Perm.trans (Perm.cons y (insert_sorted-perm x l)) (Perm.swap x y l))
    | inr front ↦ rw front Perm.rfl
  ]

  pub sort_by-perm : (l : List A) → Perm (sort_by l) l
  unfolding sort_by
  sort_by-perm [] = Perm.rfl
  sort_by-perm (x ∷ l) =
      Perm.trans (insert_sorted-perm x (sort_by l)) (Perm.cons x (sort_by-perm l))

  pub All-insert_sorted :
      (P : A → Type 0) (x : A) (l : List A) → P x → All P l → All P (insert_sorted x l)
  unfolding insert_sorted
  All-insert_sorted P x [] p a = (p, a)
  All-insert_sorted P x (y ∷ l) p a = elim (Bool-cases (before y x)) [
    | inl deeper ↦ rw deeper (a.0, All-insert_sorted P x l p a.1)
    | inr front ↦ rw front (p, a)
  ]

  pub All-sort_by : (P : A → Type 0) (l : List A) → All P l → All P (sort_by l)
  unfolding sort_by
  All-sort_by P [] a = tt
  All-sort_by P (x ∷ l) a = All-insert_sorted P x (sort_by l) a.0 (All-sort_by P l a.1)

  length-insert_sorted : (x : A) (l : List A) → length (insert_sorted x l) ≡ suc (length l)
  unfolding insert_sorted
  length-insert_sorted x [] = refl
  length-insert_sorted x (y ∷ l) = ground (arith, length-insert_sorted x l)

  pub length-sort_by : (l : List A) → length (sort_by l) ≡ length l
  unfolding sort_by
  length-sort_by [] = refl
  length-sort_by (x ∷ l) = omega (arith, length-insert_sorted x (sort_by l), length-sort_by l)

  of_All-insert_sorted :
      (P : A → Type 0) (x : A) (l : List A) → All P (insert_sorted x l) → P x × All P l
  unfolding insert_sorted
  of_All-insert_sorted P x [] a = a
  of_All-insert_sorted P x (y ∷ l) a = elim (Bool-cases (before y x)) [
    | inl deeper ↦
        let both : P y × All P (insert_sorted x l) = rw deeper at a in
        let rest = of_All-insert_sorted P x l both.1 in (rest.0, (both.0, rest.1))
    | inr front ↦ rw front at a
  ]

  pub of_All-sort_by : (P : A → Type 0) (l : List A) → All P (sort_by l) → All P l
  unfolding sort_by
  of_All-sort_by P [] a = tt
  of_All-sort_by P (x ∷ l) a =
      let rest = of_All-insert_sorted P x (sort_by l) a in (rest.0, of_All-sort_by P l rest.1)
