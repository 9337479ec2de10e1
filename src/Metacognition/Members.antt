-- ===== src/Metacognition/Members.antt =====
-- The cycle members of src/metacognition/graph.rs, and the dependencies between retained tasks.
use mathlib.Core.List.{Memᴰ}
use mathlib.Core.List.Memᴰ
use meta_agent_control_plane.Prelude.{
  ◌≡◌, refl, ap, ◌∙◌, String, Bool, true, is_some, List, [], ◌∷◌, All, Bool-cases, Option-cases,
  inl, inr, string_eq, pair_eq, filter, map_get, All-map_insert, All-map_get, All-sort_by, subst,
}
use meta_agent_control_plane.Store.State.{TaskState}
use meta_agent_control_plane.Metacognition.Lookup.{TaskKey, TaskLookup}
use meta_agent_control_plane.Metacognition.Cycles.{
  Graph, retained_dependencies, graph_or_empty, by_agent, members_of, search_all,
  dependency_cycle_members,
}
use meta_agent_control_plane.Metacognition.Walks.{Walk, one, more}
use meta_agent_control_plane.Metacognition.Search.{Edge, search_agent_ends}

module _ (lookup : TaskLookup) where
  -- The task of the agent names the other among its dependencies, and that is retained too.
  pub record DependsOn (agent_id x y : String) : Type 0 where
    pub task : TaskState
    pub retained : Memᴰ ((agent_id, x), task) lookup
    pub named : Memᴰ y task.task.depends_on
    pub known : is_some (map_get (agent_id, y) lookup) ≡ true

  -- The task depends on itself, through one or more dependencies.
  abbrev pub IsOnCycle : TaskKey → Type 0
  IsOnCycle key = Walk (DependsOn key.0) key.1 key.1

  -- An entry of the graph of an agent is made of a retained task.
  abbrev IsMade : String → String × List String → Type 0
  IsMade agent_id e =
      (task : TaskState) × Memᴰ ((agent_id, e.0), task) lookup
      × (e.1 ≡ retained_dependencies lookup agent_id task.task.depends_on)

  abbrev AreMade : String × Graph → Type 0
  AreMade e = All (IsMade e.0) e.1

  of_filter :
      (test : String → Bool) (y : String) (l : List String)
      → Memᴰ y (filter test l)
      → Memᴰ y l × (test y ≡ true)
  unfolding filter
  of_filter test y [] m = absurd (Memᴰ.not-nil m)
  of_filter test y (x ∷ l) m = elim (Bool-cases (test x)) [
    | inr fail ↦ let rest = of_filter test y l (rw fail at m) in (Memᴰ.tail rest.0, rest.1)
    | inl pass ↦ elim (Memᴰ.cases_cons (rw pass at m)) [
      | inl e ↦ (Memᴰ.head e, ap test e ∙ pass)
      | inr later ↦ let rest = of_filter test y l later in (Memᴰ.tail rest.0, rest.1)
    ]
  ]

  Edge-DependsOn :
      (agent_id : String) (graph : Graph) (x y : String)
      → All (IsMade agent_id) graph
      → Edge agent_id graph (λ _. Unit {0}) x y
      → DependsOn agent_id x y
  Edge-DependsOn agent_id graph x y made (dependencies, found, m) =
      let (task, retained, same) = All-map_get (IsMade agent_id) x dependencies graph made found in
      let listed =
        of_filter (λ (id : String). is_some (map_get (agent_id, id) lookup)) y task.task.depends_on
          (subst (Memᴰ y) same m) in
      record { task = task; retained = retained; named = listed.0; known = listed.1 }

  Walk-map :
      (E D : String → String → Type 0) {x y : String}
      → ((a b : String) → E a b → D a b)
      → Walk E x y
      → Walk D x y
  Walk-map E D f (one {x} {y} e) = one (f x y e)
  Walk-map E D f (more {x} {y} e w) = more (f x y e) (Walk-map E D f w)

  own-IsMade :
      (agent_id : String) (graphs : List (String × Graph))
      → All AreMade graphs
      → All (IsMade agent_id) (graph_or_empty (map_get agent_id graphs))
  own-IsMade agent_id graphs all = elim (Option-cases (map_get agent_id graphs)) [
    | inl missing ↦ rw (missing, graph_or_empty) tt
    | inr (graph, found) ↦
        rw (found, graph_or_empty) (All-map_get AreMade agent_id graph graphs all found)
  ]

  by_agent-AreMade :
      (entries : TaskLookup) (graphs : List (String × Graph))
      → All (λ (e : TaskKey × TaskState). Memᴰ e lookup) entries
      → All AreMade graphs
      → All AreMade (by_agent lookup entries graphs)
  unfolding by_agent
  by_agent-AreMade [] graphs listed all = all
  by_agent-AreMade (((agent_id, task_id), task) ∷ entries) graphs listed all =
      by_agent-AreMade entries _ listed.1 (
        All-map_insert AreMade agent_id _ graphs
          (All-map_insert (IsMade agent_id) task_id _ (graph_or_empty (map_get agent_id graphs))
            (task, listed.0, refl) (own-IsMade agent_id graphs all))
          all)

  search_all-IsOnCycle :
      (graphs : List (String × Graph)) (members : List TaskKey)
      → All AreMade graphs
      → All IsOnCycle members
      → All IsOnCycle (search_all graphs members)
  unfolding search_all
  search_all-IsOnCycle [] members made all = all
  search_all-IsOnCycle ((agent_id, graph) ∷ graphs) members made all =
      let (t, hit, sound) =
        search_agent_ends agent_id graph IsOnCycle
          (λ x w.
            Walk-map (Edge agent_id graph IsOnCycle) (DependsOn agent_id)
              (λ a b e. Edge-DependsOn agent_id graph a b made.0 e) w)
          members in
      search_all-IsOnCycle graphs _ made.1 (rw (hit, members_of) (sound all))

  All-listed :
      (entries : TaskLookup)
      → ((e : TaskKey × TaskState) → Memᴰ e entries → Memᴰ e lookup)
      → All (λ (e : TaskKey × TaskState). Memᴰ e lookup) entries
  All-listed [] sub = tt
  All-listed (e ∷ entries) sub =
      (sub e (Memᴰ.head refl), All-listed entries (λ f m. sub f (Memᴰ.tail m)))

  -- Every task that the search reports as a cycle member depends on itself, through one or more
  -- dependencies between retained tasks of its agent.
  pub cycle_members_sound : All IsOnCycle (dependency_cycle_members lookup)
  unfolding dependency_cycle_members
  cycle_members_sound =
      search_all-IsOnCycle _ []
        (All-sort_by _ AreMade _ (
          by_agent-AreMade _ []
            (All-sort_by _ (λ (e : TaskKey × TaskState). Memᴰ e lookup) lookup
              (All-listed lookup (λ e m. m)))
            tt))
        tt
