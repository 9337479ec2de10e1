-- ===== src/Timeline/Order.antt =====
-- The order of a timeline of src/timeline.rs: newest first, ties by the greater event id.
use mathlib.Core.List.{Perm}
use meta_agent_control_plane.Prelude.{
  length, ◌≡◌, Bool, true, false, ◌&&◌, ◌||◌, List, [], ◌∷◌, ltb, nat_beq, arith, Bool-cases, inl,
  inr, All, sort_by, insert_sorted, sort_by-perm, All-sort_by, All-insert_sorted, length-sort_by,
}
use meta_agent_control_plane.Model.Numbers.{Uuid, DateTime}
use meta_agent_control_plane.Store.State.{EventRecord}

-- A later time, or the same time with a greater id.
unfoldable pub is_newer : DateTime → Uuid → DateTime → Uuid → Bool
is_newer at id at' id' = ltb at' at || (nat_beq at at' && ltb id' id)

abbrev pub precedes : EventRecord → EventRecord → Bool
precedes left right =
    is_newer left.event.occurred_at left.event.event_id right.event.occurred_at right.event.event_id

unfoldable pub sort_records : List EventRecord → List EventRecord
sort_records records = sort_by precedes records

pub sort_records-perm : (l : List EventRecord) → Perm (sort_records l) l
unfolding sort_records
sort_records-perm l = sort_by-perm precedes l

-- Each precedes all that follow.
abbrev pub IsNewestFirst : List EventRecord → Type 0
IsNewestFirst [] = Unit
IsNewestFirst (r ∷ records) = All (λ s. precedes r s ≡ true) records × IsNewestFirst records

-- No two records are of one event.
abbrev pub AreApart : List EventRecord → Type 0
AreApart [] = Unit
AreApart (r ∷ records) =
    All (λ s. nat_beq r.event.event_id s.event.event_id ≡ false) records × AreApart records

precedes_trans :
    (r s t : EventRecord) → precedes r s ≡ true → precedes s t ≡ true → precedes r t ≡ true
unfolding is_newer
precedes_trans r s t h k = ground arith

precedes_total :
    (r s : EventRecord)
    → nat_beq r.event.event_id s.event.event_id ≡ false
    → precedes s r ≡ false
    → precedes r s ≡ true
unfolding is_newer
precedes_total r s h k = ground arith

All-after :
    (r s : EventRecord) (l : List EventRecord)
    → precedes r s ≡ true
    → All (λ t. precedes s t ≡ true) l
    → All (λ t. precedes r t ≡ true) l
All-after r s [] h a = tt
All-after r s (t ∷ l) h a = (precedes_trans r s t h a.0, All-after r s l h a.1)

insert_sorted-IsNewestFirst :
    (r : EventRecord) (l : List EventRecord)
    → All (λ s. nat_beq r.event.event_id s.event.event_id ≡ false) l
    → IsNewestFirst l
    → IsNewestFirst (insert_sorted precedes r l)
unfolding insert_sorted
insert_sorted-IsNewestFirst r [] apart n = (tt, tt)
insert_sorted-IsNewestFirst r (s ∷ l) apart n = elim (Bool-cases (precedes s r)) [
  | inl deeper ↦ rw deeper (
    All-insert_sorted precedes (λ t. precedes s t ≡ true) r l deeper n.0,
    insert_sorted-IsNewestFirst r l apart.1 n.1,
  )
  | inr front ↦
      let first = precedes_total r s apart.0 front in
      rw front ((first, All-after r s l first n.0), n)
]

pub All-sorted :
    (P : EventRecord → Type 0) (l : List EventRecord) → All P l → All P (sort_records l)
unfolding sort_records
All-sorted P l a = All-sort_by precedes P l a

newest_first : (l : List EventRecord) → AreApart l → IsNewestFirst (sort_by precedes l)
unfolding sort_by
newest_first [] apart = tt
newest_first (r ∷ l) apart =
    insert_sorted-IsNewestFirst r (sort_by precedes l) (All-sort_by precedes _ l apart.0)
      (newest_first l apart.1)

pub sort_records-IsNewestFirst :
    (l : List EventRecord) → AreApart l → IsNewestFirst (sort_records l)
unfolding sort_records
sort_records-IsNewestFirst l apart = newest_first l apart

pub length-sort_records : (l : List EventRecord) → length (sort_records l) ≡ length l
unfolding sort_records
length-sort_records l = length-sort_by precedes l
