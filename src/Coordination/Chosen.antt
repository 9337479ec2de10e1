-- ===== src/Coordination/Chosen.antt =====
-- What `select_assignments` of src/coordination.rs promises.
use meta_agent_control_plane.Prelude.{
  ℕ, suc, ◌+◌, ◌≤◌, ◌≡◌, refl, sym, ◌∙◌, String, Bool, List, [], ◌∷◌, ◌++◌, map, All, length, arith,
  Bool-cases, inl, inr, ◌⊎◌, count, count-append, count-sort_by, insert_sorted, sort_by,
  All-sort_by, of_All-sort_by, is_less, subst, map_get,
}
use meta_agent_control_plane.Coordination.Data.{Assignment}
use meta_agent_control_plane.Coordination.Select.{
  Groups, Selection, group, agent_order, count_of, flat, no_selection, entry_order, suppressed,
  selection, select_assignments,
}
use meta_agent_control_plane.Coordination.Queues.{
  queued, group-queued, IsFiled, AreFiled, group-AreFiled, keys, AreApart, group-AreApart, HasNone,
  AreApart-HasNone,
}
use meta_agent_control_plane.Coordination.Rounds.{is_for}
use meta_agent_control_plane.Coordination.Fair.{Kept, IsOut, IsEnd, serve_rounds-IsEnd}

-- A selection is fair to the candidates: it parts them, as counted by any test; it keeps to the
-- limits, in all and for each agent; and a candidate is left out only if one of them is reached.
pub record IsFair (candidates : List Assignment) (maximum maximum_per_agent : ℕ)
    (selected left : List Assignment) : Type 0 where
  pub parts :
      (test : Assignment → Bool) → count test selected + count test left ≡ count test candidates
  pub limited : length selected ≤ maximum
  pub capped : (agent_id : String) → count (is_for agent_id) selected ≤ maximum_per_agent
  pub maximal :
      All
        (λ (a : Assignment).
          (maximum ≤ length selected) ⊎ (maximum_per_agent ≤ count (is_for a.agent_id) selected))
        left

abbrev entry_before : String × List Assignment → String × List Assignment → Bool
entry_before a b = is_less (entry_order a b)

-- The order in which the queues are flattened is of no account for counts.
insert_sorted-queued :
    (test : Assignment → Bool) (k : String) (queue : List Assignment) (grouped : Groups)
    → queued test (insert_sorted entry_before (k, queue) grouped)
      ≡ count test queue + queued test grouped
unfolding insert_sorted
insert_sorted-queued test k queue [] = count-append test queue []
insert_sorted-queued test k queue ((j, q) ∷ grouped) =
    elim (Bool-cases (is_less (entry_order (j, q) (k, queue)))) [
      | inl deeper ↦ rw deeper (
          omega (
            arith,
            count-append test q (flat (insert_sorted entry_before (k, queue) grouped)),
            count-append test q (flat grouped),
            insert_sorted-queued test k queue grouped,
          ))
      | inr front ↦ rw front (count-append test queue (q ++ flat grouped))
    ]

sorted-queued :
    (test : Assignment → Bool) (grouped : Groups)
    → queued test (sort_by entry_before grouped) ≡ queued test grouped
unfolding sort_by
sorted-queued test [] = refl
sorted-queued test ((k, queue) ∷ grouped) = omega (
  arith,
  insert_sorted-queued test k queue (sort_by entry_before grouped),
  sorted-queued test grouped,
  count-append test queue (flat grouped),
)

All-every : (Q : Assignment → Type 0) → ((a : Assignment) → Q a) → (l : List Assignment) → All Q l
All-every Q q [] = tt
All-every Q q (a ∷ l) = (q a, All-every Q q l)

All-append : (Q : Assignment → Type 0) (l r : List Assignment) → All Q l → All Q r → All Q (l ++ r)
All-append Q [] r a b = b
All-append Q (x ∷ l) r a b = (a.0, All-append Q l r a.1 b)

All-flat :
    (Q : Assignment → Type 0) (grouped : Groups)
    → All (λ (e : String × List Assignment). All Q e.1) grouped
    → All Q (flat grouped)
All-flat Q [] a = tt
All-flat Q ((k, queue) ∷ grouped) a = All-append Q queue (flat grouped) a.0 (All-flat Q grouped a.1)

count-suppressed :
    (test : Assignment → Bool) (s : Selection) → count test (suppressed s) ≡ queued test s.grouped
unfolding suppressed
count-suppressed test s =
    count-sort_by _ test (flat (sort_by entry_before s.grouped)) ∙ sorted-queued test s.grouped

module _ (P : Assignment → Type 0) (candidates : List Assignment)
    (maximum maximum_per_agent : ℕ) where
  abbrev groups : Groups
  groups = group candidates []

  abbrev IsLeft : Selection → Assignment → Type 0
  IsLeft s a =
      (maximum ≤ length s.selected) ⊎ (maximum_per_agent ≤ count (is_for a.agent_id) s.selected)

  pub start-Inv :
      All P candidates
      → Kept P candidates (keys groups) maximum maximum_per_agent (no_selection groups)
  start-Inv all = record {
    kept = λ test. omega (arith, group-queued test candidates []);
    counted = λ a. unfold count_of map_get in refl;
    capped = λ a. omega arith;
    limited = omega arith;
    holds = tt;
    filed = group-AreFiled P candidates [] all tt;
    same_keys = refl;
  }

  -- The invariant at the end, and the reason for the end.
  pub selection-IsEnd :
      All P candidates
      → Kept P candidates
          (keys groups)
          maximum
          maximum_per_agent
          (selection candidates maximum maximum_per_agent)
        × IsEnd P candidates
            (keys groups)
            maximum
            maximum_per_agent
            (agent_order groups)
            (selection candidates maximum maximum_per_agent)
  unfolding selection
  selection-IsEnd all =
      serve_rounds-IsEnd P candidates (keys groups) maximum maximum_per_agent
        (suc (length candidates)) (agent_order groups) (no_selection groups) (start-Inv all)
        (omega arith)

  of_keys :
      (Q : String → Type 0) (grouped : Groups)
      → All Q (map (λ (e : String × List Assignment). e.0) grouped)
      → All Q (keys grouped)
  of_keys Q [] a = tt
  of_keys Q ((k, queue) ∷ grouped) a = (a.0, of_keys Q grouped a.1)

  ordered_keys : (Q : String → Type 0) → All Q (agent_order groups) → All Q (keys groups)
  unfolding agent_order
  ordered_keys Q a = of_keys Q groups (of_All-sort_by _ Q _ (of_All-sort_by _ Q _ a))

  -- An entry of the map at the end: its agent is out, its queue is then empty or its agent is at
  -- the limit.
  IsLeft-entry :
      (s : Selection)
      → Kept P candidates (keys groups) maximum maximum_per_agent s
      → (e : String × List Assignment)
      → IsOut P candidates (keys groups) maximum maximum_per_agent s e.0
      → HasNone s.grouped e
      → All (IsFiled P e.0) e.1
      → All (IsLeft s) e.1
  IsLeft-entry s kept (k, []) out none filed = tt
  IsLeft-entry s kept (k, c ∷ queue) (inr gone) none filed = let e = none gone in cc
  IsLeft-entry s kept (k, c ∷ queue) (inl full) none filed = all_full (c ∷ queue) filed
    where
      all_full : (l : List Assignment) → All (IsFiled P k) l → All (IsLeft s) l
      all_full [] f = tt
      all_full (d ∷ l) f = (inr (rw f.0.0 (omega (arith, kept.counted k))), all_full l f.1)

  IsLeft-entries :
      (s : Selection)
      → Kept P candidates (keys groups) maximum maximum_per_agent s
      → (entries : Groups)
      → All (IsOut P candidates (keys groups) maximum maximum_per_agent s) (keys entries)
      → All (HasNone s.grouped) entries
      → AreFiled P entries
      → All (λ (e : String × List Assignment). All (IsLeft s) e.1) entries
  IsLeft-entries s kept [] out none filed = tt
  IsLeft-entries s kept ((k, queue) ∷ entries) out none filed = (
    IsLeft-entry s kept (k, queue) out.0 none.0 filed.0,
    IsLeft-entries s kept entries out.1 none.1 filed.1,
  )

  -- What is queued at the end is left out for a reason.
  queued-IsLeft :
      (s : Selection)
      → Kept P candidates (keys groups) maximum maximum_per_agent s
      → IsEnd P candidates (keys groups) maximum maximum_per_agent (agent_order groups) s
      → All (λ (e : String × List Assignment). All (IsLeft s) e.1) s.grouped
  queued-IsLeft s kept (inl full) = every s.grouped
    where
      every :
          (entries : Groups) → All (λ (e : String × List Assignment). All (IsLeft s) e.1) entries
      every [] = tt
      every ((k, queue) ∷ entries) = (All-every (IsLeft s) (λ a. inl full) queue, every entries)
  queued-IsLeft s kept (inr out) =
      let apart = group-AreApart candidates [] tt in
      IsLeft-entries s kept s.grouped
        (subst (All (IsOut P candidates (keys groups) maximum maximum_per_agent s))
          (sym kept.same_keys) (ordered_keys _ out))
        (AreApart-HasNone s.grouped (subst AreApart (sym kept.same_keys) apart)) kept.filed

  suppressed-IsLeft :
      (s : Selection)
      → All (λ (e : String × List Assignment). All (IsLeft s) e.1) s.grouped
      → All (IsLeft s) (suppressed s)
  unfolding suppressed
  suppressed-IsLeft s all = All-sort_by _ (IsLeft s) (flat (sort_by entry_before s.grouped)) (
      All-flat (IsLeft s) (sort_by entry_before s.grouped)
        (All-sort_by entry_before _ s.grouped all))

  selection-holds :
      All P candidates → All P (selection candidates maximum maximum_per_agent).selected
  selection-holds all = (selection-IsEnd all).0.holds

-- The selected candidates have every property that all candidates have.
pub All-selected :
    (P : Assignment → Type 0) (candidates : List Assignment) (maximum maximum_per_agent : ℕ)
    → All P candidates
    → All P (select_assignments candidates maximum maximum_per_agent).0
unfolding select_assignments
All-selected P candidates maximum maximum_per_agent all =
    selection-holds P candidates maximum maximum_per_agent all

-- The selection of assignments ends and is fair: each candidate is selected or suppressed, as counted
-- by any test; no more than the maximum are selected, and no more than the maximum for an agent; and
-- a candidate is suppressed only if the plan is full or its agent has as many as it may.
pub select_assignments-IsFair :
    (candidates : List Assignment) (maximum maximum_per_agent : ℕ)
    → IsFair candidates maximum maximum_per_agent
        (select_assignments candidates maximum maximum_per_agent).0
        (select_assignments candidates maximum maximum_per_agent).1
unfolding select_assignments
select_assignments-IsFair candidates maximum maximum_per_agent =
    let P = λ (a : Assignment). Unit {0} in
    let all = All-every P (λ a. tt) candidates in
    let (kept, end) = selection-IsEnd P candidates maximum maximum_per_agent all in
    let s = selection candidates maximum maximum_per_agent in
    record {
      parts = λ test. omega (arith, kept.kept test, count-suppressed test s);
      limited = kept.limited;
      capped = kept.capped;
      maximal =
          suppressed-IsLeft P candidates maximum maximum_per_agent s
            (queued-IsLeft P candidates maximum maximum_per_agent s kept end);
    }
