-- ===== src/Lru/Laws.antt =====
-- Recency lists: what a lookup finds after an operation, and how long the list is.
use meta_agent_control_plane.Prelude.{
  ℕ, ◌+◌, ◌≤◌, ◌<◌, ◌≡◌, refl, false, none, some, List, [], ◌∷◌, length, PartialEq, ◌==◌,
  if◌then◌else◌, ltb, arith, Option-cases, inl, inr, is_some, ◌⊎◌,
}
use mathlib.Core.Option
use meta_agent_control_plane.Lru.Assoc.{drop_last, lookup, remove, modify, push_items}

pub length-drop_last {ℓ} : {A : Type ℓ} (x : A) (l : List A) → length (drop_last (x ∷ l)) ≡ length l
unfolding drop_last
length-drop_last x [] = refl
length-drop_last x (y ∷ l) = omega (arith, length-drop_last y l)

module _ {K V : Type 0} ⦃e : PartialEq K⦄ where
  pub lookup-remove_ne :
      (j k : K) (l : List (K × V)) → (k == j) ≡ false → lookup j (remove k l) ≡ lookup j l
  unfolding lookup remove
  lookup-remove_ne j k [] h = refl
  lookup-remove_ne j k ((i, v) ∷ l) h =
      ground
        (arith, lookup-remove_ne j k l h, e.is_same_iff i k, e.is_same_iff i j, e.is_same_iff k j)

  pub lookup-modify :
      (j k : K) (f : V → V) (l : List (K × V))
      → lookup j (modify k f l) ≡ (if k == j then Option.map f (lookup j l) else lookup j l)
  unfolding lookup modify
  lookup-modify j k f l = ground (arith, lookup-remove_ne j k l, e.is_same_iff k j)

  length-remove :
      (k : K) (l : List (K × V))
      → length l ≡ (if is_some (lookup k l) then 1 else 0) + length (remove k l)
  unfolding lookup remove
  length-remove k [] = refl
  length-remove k ((i, v) ∷ l) = ground (arith, length-remove k l)

  pub length-modify : (k : K) (f : V → V) (l : List (K × V)) → length (modify k f l) ≡ length l
  unfolding modify
  length-modify k f l = elim (Option-cases (lookup k l)) [
    | inl miss ↦ rw (miss, modify) refl
    | inr (v, hit) ↦ rw (hit, modify) (ground (arith, length-remove k l))
  ]

  -- Room is made for one more.
  length_room :
      (capacity : ℕ) (l : List (K × V))
      → 0 < capacity
      → length l ≤ capacity
      → length (if ltb (length l) capacity then l else drop_last l) < capacity
  unfolding drop_last
  length_room capacity [] p h = ground arith
  length_room capacity (x ∷ l) p h = ground (arith, length-drop_last x l)

  -- A push keeps within the capacity.
  pub length-push_items :
      (capacity : ℕ) (k : K) (v : V) (l : List (K × V))
      → 0 < capacity
      → length l ≤ capacity
      → length (push_items capacity k v l) ≤ capacity
  unfolding push_items
  length-push_items capacity k v l p h = elim (Option-cases (lookup k l)) [
    | inl miss ↦ rw (miss, push_items) (length_room capacity l p h)
    | inr (v', hit) ↦ rw (hit, push_items) (ground (arith, length-remove k l))
  ]

  pub lookup-push_items_self :
      (capacity : ℕ) (k : K) (v : V) (l : List (K × V))
      → lookup k (push_items capacity k v l) ≡ some v
  unfolding push_items lookup
  lookup-push_items_self capacity k v l = elim (Option-cases (lookup k l)) [
    | inl miss ↦ rw (miss, push_items) (ground (arith, e.is_same_iff k k))
    | inr (v', hit) ↦ rw (hit, push_items) (ground (arith, e.is_same_iff k k))
  ]

  lookup-drop_last :
      (j : K) (l : List (K × V))
      → (lookup j (drop_last l) ≡ none) ⊎ (lookup j (drop_last l) ≡ lookup j l)
  unfolding lookup drop_last
  lookup-drop_last j [] = inl refl
  lookup-drop_last j (x ∷ []) = inl refl
  lookup-drop_last j ((i, v) ∷ y ∷ l) = ground (arith, lookup-drop_last j (y ∷ l))

  -- A push invents no entry but its own.
  pub lookup-push_items_ne :
      (capacity : ℕ) (j k : K) (v : V) (l : List (K × V))
      → (k == j) ≡ false
      → (lookup j (push_items capacity k v l) ≡ none)
        ⊎ (lookup j (push_items capacity k v l) ≡ lookup j l)
  unfolding push_items lookup
  lookup-push_items_ne capacity j k v l h = elim (Option-cases (lookup k l)) [
    | inl miss ↦ rw (miss, push_items) (ground (arith, lookup-drop_last j l))
    | inr (v', hit) ↦ rw (hit, push_items) (ground (arith, lookup-remove_ne j k l h))
  ]
