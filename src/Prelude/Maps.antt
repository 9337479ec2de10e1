-- ===== src/Prelude/Maps.antt =====
-- Keyed maps as association lists. The order of the entries is the order in which the program goes
-- through the map where it does.
use mathlib.Core.List.{List, [], ◌∷◌, ◌++◌}
use mathlib.Core.Option.{Option, none, some}
use mathlib.Core.Path.{◌≡◌, refl, sym, subst}
use meta_agent_control_plane.Prelude.Lists.{All}
use native.Mathlib.Omega.{arith}
use mathlib.Core.Logic.{◌⊎◌, inl, inr}
use meta_agent_control_plane.Prelude.Tests.{if◌then◌else◌, Bool-cases}
use meta_agent_control_plane.Prelude.Classes.{PartialEq, ◌==◌}

module _ {K V : Type 0} ⦃e : PartialEq K⦄ where
  unfoldable pub map_get : K → List (K × V) → Option V
  map_get k [] = none
  map_get k ((j, v) ∷ entries) = if j == k then some v else map_get k entries

  -- The value of a key is replaced in place; a new key comes last.
  unfoldable pub map_insert : K → V → List (K × V) → List (K × V)
  map_insert k v [] = (k, v) ∷ []
  map_insert k v ((j, w) ∷ entries) =
      if j == k then (j, v) ∷ entries else (j, w) ∷ map_insert k v entries

  pub map_get-map_insert :
      (j k : K) (v : V) (entries : List (K × V))
      → map_get j (map_insert k v entries) ≡ (if k == j then some v else map_get j entries)
  unfolding map_get map_insert
  map_get-map_insert j k v [] = refl
  map_get-map_insert j k v ((i, w) ∷ entries) = ground (
    arith,
    map_get-map_insert j k v entries,
    e.is_same_iff k j,
    e.is_same_iff i k,
    e.is_same_iff i j,
  )

  -- A value that is found is that of the first entry, or is found further on.
  pub map_get-cases :
      (k j : K) (v w : V) (entries : List (K × V))
      → map_get k ((j, v) ∷ entries) ≡ some w
      → ((j ≡ k) × (v ≡ w)) ⊎ (map_get k entries ≡ some w)
  unfolding map_get
  map_get-cases k j v w entries found = elim (Bool-cases (j == k)) [
    | inl same ↦
        let q : some v ≡ some w = rw (same, map_get) at found in
        inl ((e.is_same_iff j k).0 same, cc)
    | inr apart ↦ inr (rw (apart, map_get) at found)
  ]

  pub All-map_insert :
      (P : K × V → Type 0) (k : K) (v : V) (entries : List (K × V))
      → P (k, v)
      → All P entries
      → All P (map_insert k v entries)
  unfolding map_insert
  All-map_insert P k v [] p all = (p, tt)
  All-map_insert P k v ((j, w) ∷ entries) p all = elim (Bool-cases (j == k)) [
    | inl same ↦ rw same (subst (λ i. P (i, v)) (sym ((e.is_same_iff j k).0 same)) p, all.1)
    | inr apart ↦ rw apart (all.0, All-map_insert P k v entries p all.1)
  ]

  pub All-map_get :
      (P : K × V → Type 0) (k : K) (v : V) (entries : List (K × V))
      → All P entries
      → map_get k entries ≡ some v
      → P (k, v)
  unfolding map_get
  All-map_get P k v [] all found = cc
  All-map_get P k v ((j, w) ∷ entries) all found = elim (map_get-cases k j w v entries found) [
    | inl (same, value) ↦ subst (λ i. P (i, v)) same (subst (λ x. P (j, x)) value all.0)
    | inr further ↦ All-map_get P k v entries all.1 further
  ]

module _ {K W : Type 0} ⦃e : PartialEq K⦄ where
  -- `entry(k).or_default().push(v)` on a map of queues.
  unfoldable pub map_push : K → W → List (K × List W) → List (K × List W)
  map_push k v [] = (k, v ∷ []) ∷ []
  map_push k v ((j, queue) ∷ entries) =
      if j == k then (j, queue ++ (v ∷ [])) ∷ entries else (j, queue) ∷ map_push k v entries
