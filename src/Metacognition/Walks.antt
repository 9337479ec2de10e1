-- ===== src/Metacognition/Walks.antt =====
-- Walks along a relation, and the walk that the stack of src/metacognition/graph.rs is.
use meta_agent_control_plane.Prelude.{
  ◌≡◌, refl, String, List, [], ◌∷◌, ◌++◌, All, Bool-cases, inl, inr, ◌==◌, string_eq, subst, sym,
  ap,
}
use meta_agent_control_plane.Metacognition.Cycles.{from_position, pop_last}

module _ (Edge : String → String → Type 0) where
  -- One edge or more.
  pub data Walk : String → String → Type 0 where
    one : {x y : String} → Edge x y → Walk x y
    more : {x y z : String} → Edge x y → Walk y z → Walk x z

  Walk-trans : {x y z : String} → Walk x y → Walk y z → Walk x z
  Walk-trans (one e) w = more e w
  Walk-trans (more e v) w = more e (Walk-trans v w)

  -- Each element has an edge to the next.
  abbrev pub IsWalk : List String → Type 0
  IsWalk [] = Unit
  IsWalk (x ∷ []) = Unit
  IsWalk (x ∷ y ∷ l) = Edge x y × IsWalk (y ∷ l)

  pub IsWalk-concat :
      (l : List String) (x y : String)
      → IsWalk (l ++ (x ∷ []))
      → Edge x y
      → IsWalk ((l ++ (x ∷ [])) ++ (y ∷ []))
  IsWalk-concat [] x y w e = (e, tt)
  IsWalk-concat (a ∷ []) x y w e = (w.0, (e, tt))
  IsWalk-concat (a ∷ b ∷ l) x y w e = (w.0, IsWalk-concat (b ∷ l) x y w.1 e)

  IsWalk-tail : (a : String) (l : List String) → IsWalk (a ∷ l) → IsWalk l
  IsWalk-tail a [] w = tt
  IsWalk-tail a (b ∷ l) w = w.1

  All-more :
      {x y : String} (l : List String)
      → Edge x y
      → All (λ (z : String). Walk y z) l
      → All (λ (z : String). Walk x z) l
  All-more [] e all = tt
  All-more (z ∷ l) e all = (more e all.0, All-more l e all.1)

  -- From each element to the end, and from the first to each later one.
  to_end :
      (h : String) (l : List String) (e : String)
      → IsWalk (h ∷ (l ++ (e ∷ [])))
      → All (λ (x : String). Walk x e) (h ∷ l)
  to_end h [] e w = (one w.0, tt)
  to_end h (y ∷ l) e w = let rest = to_end y l e w.1 in (more w.0 rest.0, rest)

  from_start :
      (h : String) (l : List String) (e : String)
      → IsWalk (h ∷ (l ++ (e ∷ [])))
      → All (λ (x : String). Walk h x) l
  from_start h [] e w = tt
  from_start h (y ∷ l) e w = (one w.0, All-more l w.0 (from_start y l e w.1))

  closed-All :
      (h : String) (l : List String)
      → All (λ (x : String). Walk x h) l
      → All (λ (x : String). Walk h x) l
      → All (λ (x : String). Walk x x) l
  closed-All h [] a b = tt
  closed-All h (x ∷ l) a b = (Walk-trans a.0 b.0, closed-All h l a.1 b.1)

  -- A walk that ends where it starts closes at each of its elements.
  closed :
      (h : String) (l : List String)
      → IsWalk (h ∷ (l ++ (h ∷ [])))
      → All (λ (x : String). Walk x x) (h ∷ l)
  closed h l w = let ends = to_end h l h w in (ends.0, closed-All h l ends.1 (from_start h l h w))

  -- The part of the stack that `visit_cycle` takes lies on a cycle.
  pub from_position_closed :
      (id : String) (stack : List String)
      → IsWalk (stack ++ (id ∷ []))
      → All (λ (x : String). Walk x x) (from_position id stack)
  unfolding from_position
  from_position_closed id [] w = tt
  from_position_closed id (x ∷ stack) w = elim (Bool-cases (x == id)) [
    | inl same ↦
        let e = (string_eq.is_same_iff x id).0 same in
        rw same
          (closed x stack (subst (λ (i : String). IsWalk (x ∷ (stack ++ (i ∷ [])))) (sym e) w))
    | inr other ↦ rw other (from_position_closed id stack (IsWalk-tail x (stack ++ (id ∷ [])) w))
  ]

pub pop_last-concat : (l : List String) (x : String) → pop_last (l ++ (x ∷ [])) ≡ l
unfolding pop_last
pop_last-concat [] x = refl
pop_last-concat (a ∷ []) x = refl
pop_last-concat (a ∷ b ∷ l) x = ap (λ (r : List String). a ∷ r) (pop_last-concat (b ∷ l) x)
