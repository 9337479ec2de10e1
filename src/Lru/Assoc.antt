-- ===== src/Lru/Assoc.antt =====
-- Recency lists: what the operations of a least-recently-used cache do to the list of its entries.
use meta_agent_control_plane.Prelude.{
  ℕ, Option, none, some, List, [], ◌∷◌, length, PartialEq, ◌==◌, if◌then◌else◌, ltb,
}

module _ {ℓ} {A : Type ℓ} where
  -- Without the last element.
  unfoldable pub drop_last : List A → List A
  drop_last [] = []
  drop_last (x ∷ []) = []
  drop_last (x ∷ y ∷ l) = x ∷ drop_last (y ∷ l)

  unfoldable pub last : List A → Option A
  last [] = none
  last (x ∷ []) = some x
  last (x ∷ y ∷ l) = last (y ∷ l)

module _ {K V : Type 0} ⦃e : PartialEq K⦄ where
  unfoldable pub lookup : K → List (K × V) → Option V
  lookup k [] = none
  lookup k ((j, v) ∷ l) = if j == k then some v else lookup k l

  -- Without the entry of a key.
  unfoldable pub remove : K → List (K × V) → List (K × V)
  remove k [] = []
  remove k ((j, v) ∷ l) = let rest = remove k l in if j == k then l else (j, v) ∷ rest

  -- The entry of a key moved to the front, with its value changed; absent, nothing changes.
  unfoldable pub modify : K → (V → V) → List (K × V) → List (K × V)
  modify k f l = elim (lookup k l) [ none ↦ l | some v ↦ (k, f v) ∷ remove k l ]

  -- The entries after a push: a new key of a full cache takes the place of the last entry.
  unfoldable pub push_items : ℕ → K → V → List (K × V) → List (K × V)
  push_items capacity k v l = elim (lookup k l) [
    | some _ ↦ (k, v) ∷ remove k l
    | none ↦ (k, v) ∷ (if ltb (length l) capacity then l else drop_last l)
  ]

  -- What a push returns: the old entry of the key, or the entry that made room.
  unfoldable pub displaced : ℕ → K → List (K × V) → Option (K × V)
  displaced capacity k l = elim (lookup k l) [
    | some old ↦ some (k, old)
    | none ↦ if ltb (length l) capacity then none else last l
  ]
