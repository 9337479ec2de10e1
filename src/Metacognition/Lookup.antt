-- ===== src/Metacognition/Lookup.antt =====
-- The tasks of a snapshot by agent and task id, as src/metacognition/analysis.rs and
-- src/coordination.rs collect them, and what src/metacognition/graph.rs reads of one task.
use meta_agent_control_plane.Prelude.{
  String, Bool, true, false, Option, none, some, List, [], ◌∷◌, pair_eq, compare_text, sort_with,
  map_get, map_insert,
}
use meta_agent_control_plane.Store.State.{TaskState, TaskStatus}

abbrev pub TaskKey : Type 0
TaskKey = String × String

abbrev pub TaskLookup : Type 0
TaskLookup = List (TaskKey × TaskState)

abbrev pub key_of : TaskState → TaskKey
key_of task = (task.agent_id, task.task.task_id)

-- `collect::<BTreeMap<_, _>>()`: of two tasks with one key, the later stands.
unfoldable pub task_lookup : List TaskState → TaskLookup → TaskLookup
task_lookup [] entries = entries
task_lookup (task ∷ tasks) entries = task_lookup tasks (map_insert (key_of task) task entries)

abbrev pub has_succeeded : TaskStatus → Bool
has_succeeded TaskStatus.succeeded = true
has_succeeded _ = false

-- A dependency is complete, or not, or its task is not retained.
pub data Dependency : Type 0 where
  complete unresolved missing : Dependency

unfoldable pub dependency_kind : Option TaskState → Dependency
dependency_kind none = missing
dependency_kind (some task) = elim (has_succeeded task.status) [
  | true ↦ complete
  | false ↦ unresolved
]

-- The two vectors of `dependency_state`.
pub record Dependencies : Type 0 where
  pub unresolved : List String
  pub missing : List String

abbrev pub add_dependency : String → Dependency → Dependencies → Dependencies
add_dependency id complete d = d
add_dependency id unresolved d = record d { unresolved = id ∷ d.unresolved }
add_dependency id missing d = record d { missing = id ∷ d.missing }

unfoldable pub sort_dependencies : TaskLookup → String → List String → Dependencies
unfolding dependency_kind
sort_dependencies lookup agent_id [] = record { unresolved = []; missing = [] }
sort_dependencies lookup agent_id (id ∷ ids) =
    add_dependency id (dependency_kind (map_get (agent_id, id) lookup))
      (sort_dependencies lookup agent_id ids)

unfoldable pub dependency_state : TaskState → TaskLookup → Dependencies
unfolding sort_dependencies
dependency_state task lookup =
    let d = sort_dependencies lookup task.agent_id task.task.depends_on in
    record {
      unresolved = sort_with compare_text d.unresolved;
      missing = sort_with compare_text d.missing;
    }
