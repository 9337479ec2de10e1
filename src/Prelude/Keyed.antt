-- ===== src/Prelude/Keyed.antt =====
-- Keyed maps whose keys differ: each entry is the one that is found under its key.
use mathlib.Core.Bool.{false}
use mathlib.Core.List.{List, [], ◌∷◌}
use mathlib.Core.Option.{some}
use mathlib.Core.Path.{◌≡◌, refl}
use mathlib.Core.Logic.{inl, inr}
use native.Mathlib.Omega.{arith}
use meta_agent_control_plane.Prelude.Lists.{All}
use meta_agent_control_plane.Prelude.Tests.{Bool-cases}
use meta_agent_control_plane.Prelude.Classes.{PartialEq, ◌==◌, ==-self}
use meta_agent_control_plane.Prelude.Maps.{map_get, map_insert}

apart_swap : {K : Type 0} ⦃eq : PartialEq K⦄ (j k : K) → (j == k) ≡ false → (k == j) ≡ false
apart_swap ⦃eq⦄ j k apart = ground (arith, eq.is_same_iff j k, eq.is_same_iff k j)

module _ {K V : Type 0} ⦃eq : PartialEq K⦄ where
  -- No entry has the key.
  abbrev pub AreApart : K → List (K × V) → Type 0
  AreApart k entries = All (λ (e : K × V). (e.0 == k) ≡ false) entries

  abbrev pub HasDistinctKeys : List (K × V) → Type 0
  HasDistinctKeys [] = Unit
  HasDistinctKeys (e ∷ entries) = AreApart e.0 entries × HasDistinctKeys entries

  AreApart-insert :
      (key k : K) (v : V) (entries : List (K × V))
      → (k == key) ≡ false
      → AreApart key entries
      → AreApart key (map_insert k v entries)
  unfolding map_insert
  AreApart-insert key k v [] other all = (other, tt)
  AreApart-insert key k v ((j, w) ∷ entries) other all = elim (Bool-cases (j == k)) [
    | inl same ↦ rw same (all.0, all.1)
    | inr apart ↦ rw apart (all.0, AreApart-insert key k v entries other all.1)
  ]

  pub HasDistinctKeys-insert :
      (k : K) (v : V) (entries : List (K × V))
      → HasDistinctKeys entries
      → HasDistinctKeys (map_insert k v entries)
  unfolding map_insert
  HasDistinctKeys-insert k v [] distinct = (tt, tt)
  HasDistinctKeys-insert k v ((j, w) ∷ entries) distinct = elim (Bool-cases (j == k)) [
    | inl same ↦ rw same (distinct.0, distinct.1)
    | inr apart ↦ rw apart (
      AreApart-insert j k v entries (apart_swap j k apart) distinct.0,
      HasDistinctKeys-insert k v entries distinct.1,
    )
  ]

  found_further :
      (k : K) (v : V) (all entries : List (K × V))
      → AreApart k entries
      → All (λ (e : K × V). map_get e.0 all ≡ some e.1) entries
      → All (λ (e : K × V). map_get e.0 ((k, v) ∷ all) ≡ some e.1) entries
  unfolding map_get
  found_further k v all [] apart found = tt
  found_further k v all (e ∷ entries) apart found = (
    rw (apart_swap e.0 k apart.0, map_get) found.0,
    found_further k v all entries apart.1 found.1,
  )

  -- Each entry is found under its key.
  pub All-found :
      (entries : List (K × V))
      → HasDistinctKeys entries
      → All (λ (e : K × V). map_get e.0 entries ≡ some e.1) entries
  unfolding map_get
  All-found [] distinct = tt
  All-found ((k, v) ∷ entries) distinct = (
    rw (==-self k, map_get) refl,
    found_further k v entries entries distinct.0 (All-found entries distinct.1),
  )
