-- ===== src/Metacognition/Depth.antt =====
-- `remaining_depths` and `critical_paths` of src/metacognition/graph.rs. The recursion is on fuel, and
-- `none` says that it ran out: a call that goes deeper puts a task into the memo, so one more than
-- the tasks is enough.
use meta_agent_control_plane.Prelude.{
  ℕ, zero, suc, max, String, Bool, false, ◌||◌, ◌&&◌, Option, none, some, is_some, List, [], ◌∷◌,
  map, length, ltb, nat_beq, string_eq, pair_eq, if◌then◌else◌, filter, compare_pair, sort_with,
  map_get, map_insert, map_push,
}
use meta_agent_control_plane.Model.Numbers.{saturating_suc}
use meta_agent_control_plane.Store.State.{TaskState}
use meta_agent_control_plane.Metacognition.Lookup.{TaskKey, TaskLookup, key_of, has_succeeded}
use meta_agent_control_plane.Metacognition.Cycles.{contains_key, insert_member}

abbrev pub Depths : Type 0
Depths = List (TaskKey × ℕ)

-- A depth, and the memo after the call.
abbrev pub Found : Type 0
Found = ℕ × Depths

-- The iterator's `max` over the dependencies, with the memo passed along.
unfoldable pub deepest :
    (TaskKey → Depths → Option Found) → List TaskKey → ℕ → Depths → Option Found
deepest visit [] depth memo = some (depth, memo)
deepest visit (key ∷ keys) depth memo = elim (visit key memo) [
  | none ↦ none
  | some (d, memo') ↦ deepest visit keys (max depth d) memo'
]

-- What is left to do after the dependencies.
abbrev pub store_depth : TaskKey → Option Found → Option Found
store_depth key none = none
store_depth key (some (d, memo)) = some (saturating_suc d, map_insert key (saturating_suc d) memo)

module _ (lookup : TaskLookup) (cycle_members : List TaskKey) where
  -- The keys of the dependencies that are retained.
  abbrev pub dependency_keys : TaskState → String → List TaskKey
  dependency_keys task agent_id =
      filter (λ (key : TaskKey). is_some (map_get key lookup))
        (map (λ (id : String). (agent_id, id)) task.task.depends_on)

  -- The body for a task that is not in the memo.
  abbrev pub visit_task :
      (TaskKey → Depths → Option Found) → TaskKey → Option TaskState → Depths → Option Found
  visit_task visit key none memo = some (0, memo)
  visit_task visit key (some task) memo =
      if has_succeeded task.status
      then some (0, map_insert key 0 memo)
      else if contains_key key cycle_members
      then some (1, map_insert key 1 memo)
      else store_depth key (deepest visit (dependency_keys task key.0) 0 (map_insert key 1 memo))

  unfoldable pub remaining_depth : ℕ → TaskKey → Depths → Option Found
  remaining_depth zero key memo = none
  remaining_depth (suc fuel) key memo = elim (map_get key memo) [
    | some depth ↦ some (depth, memo)
    | none ↦ visit_task (remaining_depth fuel) key (map_get key lookup) memo
  ]

  unfoldable pub depths_of : List TaskKey → Depths → Option Depths
  unfolding remaining_depth
  depths_of [] memo = some memo
  depths_of (key ∷ keys) memo = elim (remaining_depth (suc (length lookup)) key memo) [
    | none ↦ none
    | some (d, memo') ↦ depths_of keys memo'
  ]

  unfoldable pub remaining_depths : Option Depths
  unfolding depths_of
  remaining_depths =
      depths_of (sort_with compare_pair (map (λ (e : TaskKey × TaskState). e.0) lookup)) []

-- The tasks of each goal.
unfoldable pub group_by_goal :
    List TaskState → List (TaskKey × List TaskKey) → List (TaskKey × List TaskKey)
group_by_goal [] grouped = grouped
group_by_goal (task ∷ tasks) grouped = group_by_goal tasks (elim task.task.goal_id [
  | none ↦ grouped
  | some goal_id ↦ map_push (task.agent_id, goal_id) (key_of task) grouped
])

-- `CriticalPathResult`.
pub record CriticalPaths : Type 0 where
  pub critical_tasks : List TaskKey
  pub remaining : List (TaskKey × Option ℕ)

unfoldable pub any_member : List TaskKey → List TaskKey → Bool
any_member cycle_members [] = false
any_member cycle_members (key ∷ keys) =
    contains_key key cycle_members || any_member cycle_members keys

abbrev pub or_no_depth : Option ℕ → ℕ
or_no_depth none = 0
or_no_depth (some d) = d

unfoldable pub max_depth : Depths → List TaskKey → ℕ
max_depth depths [] = 0
max_depth depths (key ∷ keys) = max (or_no_depth (map_get key depths)) (max_depth depths keys)

abbrev pub is_deepest : Option ℕ → ℕ → Bool
is_deepest none depth = false
is_deepest (some d) depth = nat_beq d depth

unfoldable pub add_critical : Depths → ℕ → List TaskKey → List TaskKey → List TaskKey
add_critical depths depth [] critical = critical
add_critical depths depth (key ∷ keys) critical = add_critical depths depth keys (
    if ltb 0 depth && is_deepest (map_get key depths) depth
    then insert_member key critical
    else critical)

-- The loop over the goals.
unfoldable pub goal_paths :
    List TaskKey → Depths → List (TaskKey × List TaskKey) → CriticalPaths → CriticalPaths
unfolding any_member max_depth add_critical
goal_paths cycle_members depths [] paths = paths
goal_paths cycle_members depths ((goal, keys) ∷ goals) paths =
    goal_paths cycle_members depths goals (
      if any_member cycle_members keys
      then record paths { remaining = map_insert goal none paths.remaining }
      else record {
        critical_tasks = add_critical depths (max_depth depths keys) keys paths.critical_tasks;
        remaining = map_insert goal (some (max_depth depths keys)) paths.remaining;
      })

unfoldable pub critical_paths : List TaskState → List TaskKey → Depths → CriticalPaths
unfolding group_by_goal goal_paths
critical_paths tasks cycle_members depths =
    goal_paths cycle_members depths
      (sort_with (λ (a b : TaskKey × List TaskKey). compare_pair a.0 b.0) (group_by_goal tasks []))
      (record { critical_tasks = []; remaining = [] })
