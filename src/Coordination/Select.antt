-- ===== src/Coordination/Select.antt =====
-- `select_assignments` of src/coordination.rs: the agents are served in turn, by the priority of
-- their first candidates, until the plan is full or a round serves none. The loop is on fuel: each
-- round that goes on serves a candidate, so one more round than candidates is enough.
use meta_agent_control_plane.Prelude.{
  ℕ, zero, suc, Ordering, compare, String, Bool, true, false, ◌||◌, not, Option, none, some, List,
  [], ◌∷◌, ◌++◌, map, length, leb, ◌==◌, string_eq, if◌then◌else◌, then_with, compare_text,
  sort_with, map_get, map_insert, map_push,
}
use meta_agent_control_plane.Coordination.Data.{Assignment, assignment_order}

abbrev pub Groups : Type 0
Groups = List (String × List Assignment)

abbrev pub Counted : Type 0
Counted = List (String × ℕ)

-- The variables of the loop.
pub record Selection : Type 0 where
  pub selected : List Assignment
  pub selected_per_agent : Counted
  pub grouped : Groups
  pub made_progress : Bool

unfoldable pub group : List Assignment → Groups → Groups
group [] grouped = grouped
group (candidate ∷ candidates) grouped =
    group candidates (map_push candidate.agent_id candidate grouped)

abbrev pub front_priority : Option (List Assignment) → ℕ
front_priority (some (c ∷ _)) = c.priority
front_priority _ = 0

abbrev pub agent_before : Groups → String → String → Ordering
agent_before grouped left right =
    then_with
      (compare (front_priority (map_get right grouped)) (front_priority (map_get left grouped)))
      (compare_text left right)

-- The keys of a `BTreeMap` come in their order, and are then sorted by priority.
unfoldable pub agent_order : Groups → List String
agent_order grouped =
    sort_with (agent_before grouped)
      (sort_with compare_text (map (λ (e : String × List Assignment). e.0) grouped))

abbrev pub or_zero : Option ℕ → ℕ
or_zero none = 0
or_zero (some n) = n

-- `selected_per_agent.get(agent_id).copied().unwrap_or(0)`.
unfoldable pub count_of : String → Counted → ℕ
count_of agent_id counts = or_zero (map_get agent_id counts)

abbrev pub pop_here : String → List Assignment → Groups → Option (Assignment × Groups)
pop_here key [] grouped = none
pop_here key (c ∷ queue) grouped = some (c, (key, queue) ∷ grouped)

abbrev pub put_back :
    String × List Assignment → Option (Assignment × Groups) → Option (Assignment × Groups)
put_back entry none = none
put_back entry (some (c, grouped)) = some (c, entry ∷ grouped)

-- `grouped.get_mut(agent_id).and_then(VecDeque::pop_front)`.
unfoldable pub pop_front : String → Groups → Option (Assignment × Groups)
pop_front agent_id [] = none
pop_front agent_id ((key, queue) ∷ grouped) =
    let further = put_back (key, queue) (pop_front agent_id grouped) in
    if key == agent_id then pop_here key queue grouped else further

unfoldable pub serve_from : String → Selection → Option (Assignment × Groups) → Selection
serve_from agent_id s none = s
serve_from agent_id s (some (candidate, grouped)) = record {
  selected = s.selected ++ (candidate ∷ []);
  selected_per_agent =
      map_insert agent_id (suc (count_of agent_id s.selected_per_agent)) s.selected_per_agent;
  grouped = grouped;
  made_progress = true;
}

-- The body of the inner loop, after the test of the maximum.
unfoldable pub serve_agent : ℕ → String → Selection → Selection
unfolding serve_from
serve_agent maximum_per_agent agent_id s =
    if leb maximum_per_agent (count_of agent_id s.selected_per_agent)
    then s
    else serve_from agent_id s (pop_front agent_id s.grouped)

module _ (maximum maximum_per_agent : ℕ) where
  -- The inner loop.
  unfoldable pub serve_round : List String → Selection → Selection
  serve_round [] s = s
  serve_round (agent_id ∷ agents) s = elim (leb maximum (length s.selected)) [
    | true ↦ s
    | false ↦ serve_round agents (serve_agent maximum_per_agent agent_id s)
  ]

  abbrev pub is_over : Selection → Bool
  is_over s = leb maximum (length s.selected) || not s.made_progress

  abbrev pub fresh : Selection → Selection
  fresh s = record s { made_progress = false }

  -- The outer loop.
  unfoldable pub serve_rounds : ℕ → List String → Selection → Selection
  serve_rounds zero order s = s
  serve_rounds (suc fuel) order s = elim (is_over (serve_round order (fresh s))) [
    | true ↦ serve_round order (fresh s)
    | false ↦ serve_rounds fuel order (serve_round order (fresh s))
  ]

abbrev pub flat : Groups → List Assignment
flat [] = []
flat ((key, queue) ∷ grouped) = queue ++ flat grouped

abbrev pub no_selection : Groups → Selection
no_selection grouped = record {
  selected = [];
  selected_per_agent = [];
  grouped = grouped;
  made_progress = false;
}

-- The queues that are left are flattened in the order of their keys, and then sorted.
abbrev pub entry_order : String × List Assignment → String × List Assignment → Ordering
entry_order a b = compare_text a.0 b.0

unfoldable pub suppressed : Selection → List Assignment
suppressed s = sort_with assignment_order (flat (sort_with entry_order s.grouped))

unfoldable pub selection : List Assignment → ℕ → ℕ → Selection
unfolding group agent_order
selection candidates maximum maximum_per_agent =
    let grouped = group candidates [] in
    serve_rounds maximum maximum_per_agent (suc (length candidates)) (agent_order grouped)
      (no_selection grouped)

unfoldable pub select_assignments : List Assignment → ℕ → ℕ → List Assignment × List Assignment
unfolding selection suppressed
select_assignments candidates maximum maximum_per_agent =
    let s = selection candidates maximum maximum_per_agent in (s.selected, suppressed s)
