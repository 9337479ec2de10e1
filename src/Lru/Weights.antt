-- ===== src/Lru/Weights.antt =====
-- Sums over the values of a recency list, and what each operation does to them.
use mathlib.Core.Option
use meta_agent_control_plane.Prelude.{
  ℕ, ◌+◌, ◌≡◌, refl, Bool, true, false, Option, none, some, List, [], ◌∷◌, length, PartialEq,
  if◌then◌else◌, ltb, arith, Option-cases, inl, inr,
}
use meta_agent_control_plane.Lru.Assoc.{
  drop_last, last, lookup, remove, modify, push_items, displaced,
}

-- The weight of a value that may be absent.
abbrev pub weigh_opt : {V : Type 0} → (V → ℕ) → Option V → ℕ
weigh_opt w none = 0
weigh_opt w (some v) = w v

module _ {K V : Type 0} (w : V → ℕ) where
  abbrev pub weigh : List (K × V) → ℕ
  weigh [] = 0
  weigh ((_, v) ∷ l) = w v + weigh l

  abbrev pub weigh_out : Option (K × V) → ℕ
  weigh_out none = 0
  weigh_out (some (_, v)) = w v

module _ {K V : Type 0} (w : V → ℕ) ⦃e : PartialEq K⦄ where
  pub weigh-remove :
      (k : K) (l : List (K × V)) → weigh w l ≡ weigh_opt w (lookup k l) + weigh w (remove k l)
  unfolding lookup remove
  weigh-remove k [] = refl
  weigh-remove k ((i, v) ∷ l) = ground (arith, weigh-remove k l)

  -- A write changes the weight by what it does to the value.
  pub weigh-modify :
      (k : K) (f : V → V) (l : List (K × V))
      → weigh w (modify k f l) + weigh_opt w (lookup k l)
        ≡ weigh_opt w (Option.map f (lookup k l)) + weigh w l
  unfolding modify
  weigh-modify k f l = elim (Option-cases (lookup k l)) [
    | inl miss ↦ rw (miss, modify) (omega arith)
    | inr (v, hit) ↦ rw (hit, modify) (ground (arith, weigh-remove k l))
  ]

  weigh-drop_last :
      (x : K × V) (l : List (K × V))
      → weigh w (drop_last (x ∷ l)) + weigh_out w (last (x ∷ l)) ≡ weigh w (x ∷ l)
  unfolding drop_last last
  weigh-drop_last x [] = omega arith
  weigh-drop_last x (y ∷ l) = omega (arith, weigh-drop_last y l)

  -- Making room takes off the weight of the last entry.
  weigh_room :
      (full : Bool) (l : List (K × V))
      → weigh w (if full then l else drop_last l) + weigh_out w (if full then none else last l)
        ≡ weigh w l
  unfolding drop_last last
  weigh_room true l = omega arith
  weigh_room false [] = refl
  weigh_room false (x ∷ l) = weigh-drop_last x l

  -- A push adds the weight of its value and takes off that of the entry that it displaces.
  pub weigh-push_items :
      (capacity : ℕ) (k : K) (v : V) (l : List (K × V))
      → weigh w (push_items capacity k v l) + weigh_out w (displaced capacity k l) ≡ w v + weigh w l
  unfolding push_items displaced
  weigh-push_items capacity k v l = elim (Option-cases (lookup k l)) [
    | inl miss ↦
        rw (miss, push_items, displaced) (omega (arith, weigh_room (ltb (length l) capacity) l))
    | inr (old, hit) ↦
        rw (hit, push_items, displaced) (unfold lookup in ground (arith, weigh-remove k l))
  ]
