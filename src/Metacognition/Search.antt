-- ===== src/Metacognition/Search.antt =====
-- What a visit of the search in src/metacognition/graph.rs does to the states, the stack and the members.
use mathlib.Core.List.{Memᴰ}
use meta_agent_control_plane.Prelude.{
  ℕ, zero, suc, ◌≤◌, ◌<◌, ◌≡◌, ◌≢◌, refl, ap, sym, ◌∙◌, String, Option, none, some, List, [], ◌∷◌,
  ◌++◌, length, All, arith, Bool-cases, Option-cases, inl, inr, string_eq, pair_eq, map_get, subst,
}
use meta_agent_control_plane.Metacognition.Lookup.{TaskKey}
use meta_agent_control_plane.Metacognition.Cycles.{
  Graph, VisitState, visiting, done, Search, contains_key, insert_member, insert_members,
  from_position, pop_last, close_cycle, enter, leave, visit_each, dependencies_of, visit_cycle,
  search_agent,
}
use meta_agent_control_plane.Metacognition.Unseen.{
  unvisited, unvisited-insert, unvisited-first, unvisited-none,
}
use meta_agent_control_plane.Metacognition.Walks.{
  Walk, IsWalk, IsWalk-concat, from_position_closed, pop_last-concat,
}

module _ (agent_id : String) (graph : Graph) (P : TaskKey → Type 0) where
  -- A dependency in the graph.
  abbrev pub Edge : String → String → Type 0
  Edge x y =
      (dependencies : List String) × (map_get x graph ≡ some dependencies) × Memᴰ y dependencies

  -- What a visit under the given stack does.
  pub record Visits (id : String) (s t : Search) : Type 0 where
    pub fewer : unvisited graph t.states ≤ unvisited graph s.states
    pub same_stack : t.stack ≡ s.stack
    pub sound : IsWalk Edge (s.stack ++ (id ∷ [])) → All P s.members → All P t.members

  record VisitsEach (ids : List String) (s t : Search) : Type 0 where
    fewer : unvisited graph t.states ≤ unvisited graph s.states
    same_stack : t.stack ≡ s.stack
    sound :
        All (λ (id : String). IsWalk Edge (s.stack ++ (id ∷ []))) ids
        → All P s.members
        → All P t.members

  module _ (visit : String → Search → Option Search) (bound : ℕ)
      (ends : (id : String) (s : Search)
        → unvisited graph s.states < bound
        → (t : Search) × (visit id s ≡ some t) × Visits id s t) where
    visit_each_ends :
        (ids : List String) (s : Search)
        → unvisited graph s.states < bound
        → (t : Search) × (visit_each visit ids s ≡ some t) × VisitsEach ids s t
    unfolding visit_each
    visit_each_ends [] s h =
        (s, refl, record { fewer = omega arith; same_stack = refl; sound = λ w all. all })
    visit_each_ends (id ∷ ids) s h =
        let (middle, hit, first) = ends id s h in
        let (t, rest_hit, rest) = visit_each_ends ids middle (omega (arith, first.fewer)) in
        (
          t,
          rw (hit, visit_each) rest_hit,
          record {
            fewer = omega (arith, first.fewer, rest.fewer);
            same_stack = rest.same_stack ∙ first.same_stack;
            sound = λ w all.
                rest.sound
                  (subst
                    (λ (stack : List String).
                      All (λ (i : String). IsWalk Edge (stack ++ (i ∷ []))) ids)
                    (sym first.same_stack) w.1)
                  (first.sound w.0 all);
          },
        )

  insert_members-All :
      (ids : List String) (members : List TaskKey)
      → All (λ (x : String). P (agent_id, x)) ids
      → All P members
      → All P (insert_members agent_id ids members)
  unfolding insert_members insert_member
  insert_members-All [] members new all = all
  insert_members-All (id ∷ ids) members new all =
      elim (Bool-cases (contains_key (agent_id, id) members)) [
        | inl old ↦ rw old (insert_members-All ids members new.1 all)
        | inr fresh ↦
            rw fresh (insert_members-All ids ((agent_id, id) ∷ members) new.1 (new.0, all))
      ]

  module _ (closes : (x : String) → Walk Edge x x → P (agent_id, x)) where
    All-closes :
        (l : List String)
        → All (λ (x : String). Walk Edge x x) l
        → All (λ (x : String). P (agent_id, x)) l
    All-closes [] all = tt
    All-closes (x ∷ l) all = (closes x all.0, All-closes l all.1)

    close_cycle-Visits : (id : String) (s : Search) → Visits id s (close_cycle agent_id id s)
    unfolding close_cycle
    close_cycle-Visits id s = record {
      fewer = omega arith;
      same_stack = refl;
      sound = λ w all.
          insert_members-All (from_position id s.stack) s.members
            (All-closes _ (from_position_closed Edge id s.stack w)) all;
    }

    -- Each dependency continues the walk.
    each_continues :
        (id : String) (stack : List String) (dependencies ids : List String)
        → map_get id graph ≡ some dependencies
        → ((y : String) → Memᴰ y ids → Memᴰ y dependencies)
        → IsWalk Edge (stack ++ (id ∷ []))
        → All (λ (y : String). IsWalk Edge ((stack ++ (id ∷ [])) ++ (y ∷ []))) ids
    each_continues id stack dependencies [] found sub w = tt
    each_continues id stack dependencies (y ∷ ids) found sub w = (
      IsWalk-concat Edge stack id y w (dependencies, found, sub y (Memᴰ.head refl)),
      each_continues id stack dependencies ids found (λ z m. sub z (Memᴰ.tail m)) w,
    )

    open_walks :
        (id : String) (stack : List String)
        → IsWalk Edge (stack ++ (id ∷ []))
        → All
            (λ (y : String). IsWalk Edge ((stack ++ (id ∷ [])) ++ (y ∷ [])))
            (dependencies_of (map_get id graph))
    open_walks id stack w = elim (Option-cases (map_get id graph)) [
      | inl missing ↦ rw (missing, dependencies_of) tt
      | inr (dependencies, found) ↦
          rw (found, dependencies_of)
            (each_continues id stack dependencies dependencies found (λ y m. m) w)
    ]

    left_Visits :
        (id : String) (s t : Search)
        → map_get id s.states ≡ none
        → VisitsEach (dependencies_of (map_get id graph)) (enter id s) t
        → Visits id s (leave id t)
    unfolding enter leave
    left_Visits id s t first each = record {
      fewer = omega (
        arith,
        each.fewer,
        unvisited-insert graph id done t.states,
        unvisited-insert graph id visiting s.states,
      );
      same_stack = ap pop_last each.same_stack ∙ pop_last-concat s.stack id;
      sound = λ w all. each.sound (open_walks id s.stack w) all;
    }

    enter_ends :
        (visit : String → Search → Option Search) (bound : ℕ)
        → ((i : String) (u : Search)
            → unvisited graph u.states < bound
            → (t : Search) × (visit i u ≡ some t) × Visits i u t)
        → (id : String) (s : Search) → unvisited graph s.states < suc bound
        → map_get id s.states ≡ none
        → (t : Search) × (visit_each visit (dependencies_of (map_get id graph)) (enter id s)
            ≡ some t)
          × VisitsEach (dependencies_of (map_get id graph)) (enter id s) t
    unfolding visit_each enter
    enter_ends visit bound ends id s h first = elim (Option-cases (map_get id graph)) [
      | inl missing ↦ rw missing (
        enter id s,
        refl,
        record { fewer = omega arith; same_stack = refl; sound = λ w all. all },
      )
      | inr (dependencies, found) ↦
          let less = unvisited-first graph id visiting s.states dependencies found first in
          rw found
            (visit_each_ends visit bound ends dependencies (enter id s) (omega (arith, less)))
    ]

    -- With more fuel than the graph has tasks that were not visited, a visit ends.
    visit_cycle_ends :
        (fuel : ℕ) (id : String) (s : Search)
        → unvisited graph s.states < fuel
        → (t : Search) × (visit_cycle agent_id graph fuel id s ≡ some t) × Visits id s t
    unfolding visit_cycle
    visit_cycle_ends zero id s h = absurd (omega arith)
    visit_cycle_ends (suc fuel) id s h = elim (Option-cases (map_get id s.states)) [
      | inr (visiting, seen) ↦
          (close_cycle agent_id id s, rw (seen, visit_cycle) refl, close_cycle-Visits id s)
      | inr (done, seen) ↦ (
        s,
        rw (seen, visit_cycle) refl,
        record { fewer = omega arith; same_stack = refl; sound = λ w all. all },
      )
      | inl first ↦
          let (t, hit, each) =
            enter_ends (visit_cycle agent_id graph fuel) fuel (visit_cycle_ends fuel) id s h
              first in
          (leave id t, rw (first, visit_cycle) (rw hit refl), left_Visits id s t first each)
    ]

    lone_walks : (ids : List String) → All (λ (i : String). IsWalk Edge ([] ++ (i ∷ []))) ids
    lone_walks [] = tt
    lone_walks (i ∷ ids) = (tt, lone_walks ids)

    -- The search of an agent ends, and adds members on cycles only.
    pub search_agent_ends :
        (members : List TaskKey)
        → (t : Search) × (search_agent agent_id graph members ≡ some t)
          × (All P members → All P t.members)
    unfolding search_agent
    search_agent_ends members =
        let (t, hit, each) =
          visit_each_ends (visit_cycle agent_id graph (suc (length graph))) (suc (length graph))
            (visit_cycle_ends (suc (length graph))) _
            (record { states = []; stack = []; members = members })
            (omega (arith, unvisited-none VisitState graph)) in
        (t, hit, each.sound (lone_walks _))

-- The search for cycles among the tasks of an agent ends, whatever the dependencies are: its fuel, one
-- more than the tasks, is enough.
pub search_agent_terminates :
    (agent_id : String) (graph : Graph) (members : List TaskKey)
    → search_agent agent_id graph members ≢ none
search_agent_terminates agent_id graph members stuck =
    let ends = search_agent_ends agent_id graph (λ _. Unit {0}) (λ x w. tt) members in cc
