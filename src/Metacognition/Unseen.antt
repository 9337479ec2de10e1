-- ===== src/Metacognition/Unseen.antt =====
-- How many keys of one map another map lacks: what the recursions of src/metacognition/graph.rs go by.
use meta_agent_control_plane.Prelude.{
  ℕ, ◌≤◌, ◌<◌, ◌≡◌, refl, ap, ◌∙◌, Bool, true, false, not, none, some, is_some, List, [], ◌∷◌,
  arith, Bool-cases, inl, inr, PartialEq, ◌==◌, ==-self, if◌then◌else◌, map_get, map_insert,
  map_get-map_insert, map_get-cases, count, one_if, length,
}

module _ {K V W : Type 0} ⦃eq : PartialEq K⦄ where
  abbrev pub is_new : List (K × V) → K × W → Bool
  is_new states e = not (is_some (map_get e.0 states))

  -- The tasks of the graph that were not visited.
  abbrev pub unvisited : List (K × W) → List (K × V) → ℕ
  unvisited graph states = count (is_new states) graph

  is_new-insert :
      (id : K) (v : V) (states : List (K × V)) (e : K × W)
      → is_new (map_insert id v states) e ≡ (if id == e.0 then false else is_new states e)
  is_new-insert id v states e =
      ap (λ o. not (is_some o)) (map_get-map_insert e.0 id v states)
      ∙ elim (Bool-cases (id == e.0)) [ inl same ↦ rw same refl | inr other ↦ rw other refl ]

  pub unvisited-insert :
      (graph : List (K × W)) (id : K) (v : V) (states : List (K × V))
      → unvisited graph (map_insert id v states) ≤ unvisited graph states
  unvisited-insert [] id v states = omega arith
  unvisited-insert (e ∷ graph) id v states = elim (Bool-cases (id == e.0)) [
    | inl same ↦
        rw (is_new-insert id v states e)
          (rw same (omega (arith, unvisited-insert graph id v states)))
    | inr other ↦
        rw (is_new-insert id v states e)
          (rw other (omega (arith, unvisited-insert graph id v states)))
  ]

  -- A task of the graph that is marked for the first time is one less.
  pub unvisited-first :
      (graph : List (K × W)) (id : K) (v : V) (states : List (K × V)) (dependencies : W)
      → map_get id graph ≡ some dependencies
      → map_get id states ≡ none
      → unvisited graph (map_insert id v states) < unvisited graph states
  unvisited-first [] id v states dependencies found first = unfold map_get in cc
  unvisited-first ((k, d) ∷ graph) id v states dependencies found first =
      let rest = unvisited-insert graph id v states in
      elim (map_get-cases id k d dependencies graph found) [
        | inl (e, _) ↦
            let same : (id == k) ≡ true = rw e (==-self id) in
            let before : is_new states (k, d) ≡ true = rw e (rw first refl) in
            let after : is_new (map_insert id v states) (k, d) ≡ false =
              is_new-insert id v states (k, d) ∙ rw same refl in
            omega (arith, rest, ap one_if before, ap one_if after)
        | inr further ↦ elim (Bool-cases (id == k)) [
          | inl same ↦
              let after : is_new (map_insert id v states) (k, d) ≡ false =
                is_new-insert id v states (k, d) ∙ rw same refl in
              omega (
                arith,
                unvisited-first graph id v states dependencies further first,
                ap one_if after,
              )
          | inr other ↦
              let after : is_new (map_insert id v states) (k, d) ≡ is_new states (k, d) =
                is_new-insert id v states (k, d) ∙ rw other refl in
              omega (
                arith,
                unvisited-first graph id v states dependencies further first,
                ap one_if after,
              )
        ]
      ]

-- Nothing is in the empty map.
pub unvisited-none :
    {K W : Type 0} (V : Type 0) ⦃eq : PartialEq K⦄ (graph : List (K × W))
    → unvisited {V = V} graph [] ≡ length graph
unfolding map_get
unvisited-none V [] = refl
unvisited-none V (e ∷ graph) = omega (arith, unvisited-none V graph)
