-- ===== src/Metacognition/Cycles.antt =====
-- `dependency_cycle_members` and `visit_cycle` of src/metacognition/graph.rs: a depth-first search for
-- the tasks on dependency cycles. The search is on fuel, and `none` says that it ran out: a visit that
-- goes deeper marks a task of the graph, so one more than the tasks of the graph is enough.
use meta_agent_control_plane.Prelude.{
  ℕ, zero, suc, String, Bool, false, ◌||◌, Option, none, some, is_some, List, [], ◌∷◌, ◌++◌, map,
  length, ◌==◌, string_eq, pair_eq, if◌then◌else◌, filter, compare_text, compare_pair, sort_with,
  map_get, map_insert,
}
use meta_agent_control_plane.Store.State.{TaskState}
use meta_agent_control_plane.Metacognition.Lookup.{TaskKey, TaskLookup}

-- The tasks of an agent, each with its dependencies.
abbrev pub Graph : Type 0
Graph = List (String × List String)

pub data VisitState : Type 0 where
  visiting done : VisitState

abbrev pub States : Type 0
States = List (String × VisitState)

-- What `visit_cycle` changes. The stack has its top last.
pub record Search : Type 0 where
  pub states : States
  pub stack : List String
  pub members : List TaskKey

unfoldable pub contains_key : TaskKey → List TaskKey → Bool
contains_key key [] = false
contains_key key (k ∷ keys) = k == key || contains_key key keys

-- `BTreeSet::insert`.
unfoldable pub insert_member : TaskKey → List TaskKey → List TaskKey
unfolding contains_key
insert_member key members = if contains_key key members then members else key ∷ members

unfoldable pub insert_members : String → List String → List TaskKey → List TaskKey
unfolding insert_member
insert_members agent_id [] members = members
insert_members agent_id (id ∷ ids) members =
    insert_members agent_id ids (insert_member (agent_id, id) members)

-- `&stack[position..]` from the first position of the task; nothing where it is not on the stack.
unfoldable pub from_position : String → List String → List String
from_position id [] = []
from_position id (x ∷ stack) =
    let rest = from_position id stack in if x == id then x ∷ stack else rest

-- `stack.pop()`.
unfoldable pub pop_last : List String → List String
pop_last [] = []
pop_last (x ∷ []) = []
pop_last (x ∷ y ∷ l) = x ∷ pop_last (y ∷ l)

-- The arm for a task that is being visited.
unfoldable pub close_cycle : String → String → Search → Search
unfolding from_position insert_members
close_cycle agent_id id s = record s {
  members = insert_members agent_id (from_position id s.stack) s.members;
}

unfoldable pub enter : String → Search → Search
enter id s = record s { states = map_insert id visiting s.states; stack = s.stack ++ (id ∷ []) }

unfoldable pub leave : String → Search → Search
unfolding pop_last
leave id s = record s { stack = pop_last s.stack; states = map_insert id done s.states }

abbrev pub leave_if : String → Option Search → Option Search
leave_if id none = none
leave_if id (some s) = some (leave id s)

-- A loop that visits each task in turn.
unfoldable pub visit_each : (String → Search → Option Search) → List String → Search → Option Search
visit_each visit [] s = some s
visit_each visit (id ∷ ids) s = elim (visit id s) [ none ↦ none | some t ↦ visit_each visit ids t ]

abbrev pub dependencies_of : Option (List String) → List String
dependencies_of none = []
dependencies_of (some dependencies) = dependencies

module _ (agent_id : String) (graph : Graph) where
  unfoldable pub visit_cycle : ℕ → String → Search → Option Search
  unfolding close_cycle enter leave
  visit_cycle zero id s = none
  visit_cycle (suc fuel) id s = elim (map_get id s.states) [
    | some done ↦ some s
    | some visiting ↦ some (close_cycle agent_id id s)
    | none ↦
        leave_if id
          (visit_each (visit_cycle fuel) (dependencies_of (map_get id graph)) (enter id s))
  ]

  -- The search of the graph of an agent, from each task in the order of the ids.
  unfoldable pub search_agent : List TaskKey → Option Search
  unfolding visit_each
  search_agent members =
      visit_each (visit_cycle (suc (length graph)))
        (sort_with compare_text (map (λ (e : String × List String). e.0) graph))
        (record { states = []; stack = []; members = members })

-- The dependencies that are retained.
abbrev pub retained_dependencies : TaskLookup → String → List String → List String
retained_dependencies lookup agent_id ids =
    filter (λ (id : String). is_some (map_get (agent_id, id) lookup)) ids

abbrev pub graph_or_empty : Option Graph → Graph
graph_or_empty none = []
graph_or_empty (some graph) = graph

-- `by_agent`, filled in the order of the keys.
unfoldable pub by_agent : TaskLookup → TaskLookup → List (String × Graph) → List (String × Graph)
by_agent lookup [] graphs = graphs
by_agent lookup (((agent_id, task_id), task) ∷ entries) graphs =
    let own =
      map_insert task_id (retained_dependencies lookup agent_id task.task.depends_on)
        (graph_or_empty (map_get agent_id graphs)) in
    by_agent lookup entries (map_insert agent_id own graphs)

abbrev pub members_of : Option Search → List TaskKey
members_of none = []
members_of (some s) = s.members

unfoldable pub search_all : List (String × Graph) → List TaskKey → List TaskKey
unfolding search_agent
search_all [] members = members
search_all ((agent_id, graph) ∷ graphs) members =
    search_all graphs (members_of (search_agent agent_id graph members))

unfoldable pub dependency_cycle_members : TaskLookup → List TaskKey
unfolding by_agent search_all
dependency_cycle_members lookup =
    search_all
      (sort_with (λ (a b : String × Graph). compare_text a.0 b.0)
        (by_agent lookup (sort_with (λ (a b : TaskKey × TaskState). compare_pair a.0 b.0) lookup)
          []))
      []
