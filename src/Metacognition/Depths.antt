-- ===== src/Metacognition/Depths.antt =====
-- How the recursion for the depths in src/metacognition/graph.rs ends.
use meta_agent_control_plane.Prelude.{
  ℕ, zero, suc, max, ◌≤◌, ◌<◌, ◌≡◌, ◌≢◌, refl, Option, none, some, List, [], ◌∷◌, map, length,
  arith, Bool-cases, Option-cases, inl, inr, string_eq, pair_eq, map_get, map_insert, compare_pair,
  sort_with,
}
use meta_agent_control_plane.Model.Numbers.{saturating_suc}
use meta_agent_control_plane.Store.State.{TaskState}
use meta_agent_control_plane.Metacognition.Lookup.{TaskKey, TaskLookup, has_succeeded}
use meta_agent_control_plane.Metacognition.Cycles.{contains_key}
use meta_agent_control_plane.Metacognition.Depth.{
  Depths, Found, deepest, store_depth, dependency_keys, visit_task, remaining_depth, depths_of,
  remaining_depths,
}
use meta_agent_control_plane.Metacognition.Unseen.{
  unvisited, unvisited-insert, unvisited-first, unvisited-none,
}

module _ (lookup : TaskLookup) (cycle_members : List TaskKey) where
  -- A result, with no task taken out of the memo.
  abbrev Ends : Depths → Option Found → Type 0
  Ends memo r =
      (found : Found) × (r ≡ some found) × (unvisited lookup found.1 ≤ unvisited lookup memo)

  module _ (visit : TaskKey → Depths → Option Found) (bound : ℕ)
      (ends : (key : TaskKey) (memo : Depths)
        → unvisited lookup memo < bound
        → Ends memo (visit key memo)) where
    deepest-Ends :
        (keys : List TaskKey) (depth : ℕ) (memo : Depths)
        → unvisited lookup memo < bound
        → Ends memo (deepest visit keys depth memo)
    unfolding deepest
    deepest-Ends [] depth memo h = ((depth, memo), refl, omega arith)
    deepest-Ends (key ∷ keys) depth memo h =
        let ((d, memo'), hit, fewer) = ends key memo h in
        let (found, rest_hit, rest) =
          deepest-Ends keys (max depth d) memo' (omega (arith, fewer)) in
        (found, rw (hit, deepest) rest_hit, omega (arith, fewer, rest))

    visit_task-Ends :
        (key : TaskKey) (memo : Depths)
        → unvisited lookup memo < suc bound
        → map_get key memo ≡ none
        → Ends memo (visit_task lookup cycle_members visit key (map_get key lookup) memo)
    visit_task-Ends key memo h first = elim (Option-cases (map_get key lookup)) [
      | inl missing ↦ rw (missing, visit_task) ((0, memo), refl, omega arith)
      | inr (task, found) ↦ elim (Bool-cases (has_succeeded task.status)) [
        | inl finished ↦
            rw (found, visit_task)
              (rw finished ((0, map_insert key 0 memo), refl, unvisited-insert lookup key 0 memo))
        | inr left ↦ elim (Bool-cases (contains_key key cycle_members)) [
          | inl member ↦
              rw (found, visit_task)
                (rw left (
                  rw member ((1, map_insert key 1 memo), refl, unvisited-insert lookup key 1 memo)))
          | inr free ↦
              let less = unvisited-first lookup key 1 memo task found first in
              let ((d, memo'), hit, fewer) =
                deepest-Ends (dependency_keys lookup cycle_members task key.0) 0
                  (map_insert key 1 memo) (omega (arith, less)) in
              rw (found, visit_task)
                (rw left (
                  rw free (
                    rw (hit, store_depth)
                      (
                        (saturating_suc d, map_insert key (saturating_suc d) memo'),
                        refl,
                        omega (
                          arith,
                          less,
                          fewer,
                          unvisited-insert lookup key (saturating_suc d) memo',
                        ),
                      ))))
        ]
      ]
    ]

  remaining_depth-Ends :
      (fuel : ℕ) (key : TaskKey) (memo : Depths)
      → unvisited lookup memo < fuel
      → Ends memo (remaining_depth lookup cycle_members fuel key memo)
  unfolding remaining_depth
  remaining_depth-Ends zero key memo h = absurd (omega arith)
  remaining_depth-Ends (suc fuel) key memo h = elim (Option-cases (map_get key memo)) [
    | inr (depth, seen) ↦ rw (seen, remaining_depth) ((depth, memo), refl, omega arith)
    | inl first ↦
        rw (first, remaining_depth)
          (visit_task-Ends (remaining_depth lookup cycle_members fuel) fuel
            (remaining_depth-Ends fuel) key memo h first)
  ]

  depths_of_ends :
      (keys : List TaskKey) (memo : Depths)
      → unvisited lookup memo ≤ length lookup
      → (found : Depths) × (depths_of lookup cycle_members keys memo ≡ some found)
  unfolding depths_of
  depths_of_ends [] memo h = (memo, refl)
  depths_of_ends (key ∷ keys) memo h =
      let ((d, memo'), hit, fewer) =
        remaining_depth-Ends (suc (length lookup)) key memo (omega arith) in
      let (found, rest_hit) = depths_of_ends keys memo' (omega (arith, fewer)) in
      (found, rw (hit, depths_of) rest_hit)

-- The depths of the tasks are found for every dependency graph and whatever tasks are said to be on
-- cycles: the fuel, one more than the tasks, is enough.
pub remaining_depths_terminates :
    (lookup : TaskLookup) (cycle_members : List TaskKey)
    → remaining_depths lookup cycle_members ≢ none
unfolding remaining_depths
remaining_depths_terminates lookup cycle_members stuck =
    let keys = sort_with compare_pair (map (λ (e : TaskKey × TaskState). e.0) lookup) in
    let (found, hit) =
      depths_of_ends lookup cycle_members keys [] (omega (arith, unvisited-none ℕ lookup)) in
    cc (hit, stuck)
