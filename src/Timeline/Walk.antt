-- ===== src/Timeline/Walk.antt =====
-- Following the cursors of src/timeline.rs lists every retained event once, newest first.
use mathlib.Core.List.{Perm, append_assoc}
use meta_agent_control_plane.Prelude.{
  ℕ, zero, suc, ◌<◌, ◌≡◌, refl, ap, subst, sym, ◌∙◌, true, false, Option, none, some, List, [], ◌∷◌,
  ◌++◌, length, length-append, ltb, filter, arith, Bool-cases, inl, inr, All,
}
use meta_agent_control_plane.Store.State.{EventRecord, Snapshot}
use meta_agent_control_plane.Timeline.Hex.{Text}
use meta_agent_control_plane.Timeline.Order.{
  is_newer, precedes, sort_records, sort_records-perm, IsNewestFirst, AreApart, All-sorted,
  sort_records-IsNewestFirst, length-sort_records,
}
use meta_agent_control_plane.Timeline.Build.{
  cursor_at, is_past, is_foreign, page_of, build_timeline_page,
}
use meta_agent_control_plane.Timeline.Pages.{Cut, cut, take_all}
use meta_agent_control_plane.Timeline.Cursor.{parse-encode}
use meta_agent_control_plane.Timeline.{
  Formats, TimelinePolicy, TimelineCursor, TimelinePage, Paged, uuid_bound, page, refused,
  is_bad_limit, encode, parse,
}

-- A cursor at an event passes exactly what follows it.
filter_following :
    (p : EventRecord) (l : List EventRecord)
    → All (λ s. precedes p s ≡ true) l
    → filter (precedes p) l ≡ l
unfolding filter
filter_following p [] a = refl
filter_following p (s ∷ l) a = rw (a.0, filter_following p l a.1) refl

precedes_self : (p : EventRecord) → precedes p p ≡ false
unfolding is_newer
precedes_self p = ground arith

precedes_asym : (p s : EventRecord) → precedes s p ≡ true → precedes p s ≡ false
unfolding is_newer
precedes_asym p s h = ground arith

all_middle :
    (P : EventRecord → Type 0) (front : List EventRecord) (p : EventRecord)
    (rest : List EventRecord)
    → All P (front ++ (p ∷ rest))
    → P p
all_middle P [] p rest a = a.0
all_middle P (x ∷ front) p rest a = all_middle P front p rest a.1

filter_past :
    (front : List EventRecord) (p : EventRecord) (rest : List EventRecord)
    → IsNewestFirst (front ++ (p ∷ rest))
    → filter (precedes p) (front ++ (p ∷ rest)) ≡ rest
unfolding filter
filter_past [] p rest n = rw (precedes_self p) (filter_following p rest n.0)
filter_past (x ∷ front) p rest n =
    let before = all_middle (λ s. precedes x s ≡ true) front p rest n.0 in
    rw (precedes_asym p x before) (filter_past front p rest n.1)

filter_every : (l : List EventRecord) → filter (λ r. true) l ≡ l
unfolding filter
filter_every [] = refl
filter_every (r ∷ l) = ap (◌∷◌ r) (filter_every l)

-- A client that follows the cursors on one snapshot, for at most so many pages: `none` when a page or
-- a cursor is refused or the pages run out.
module _ (formats : Formats) (snapshot : Snapshot) (policy : TimelinePolicy) where
  abbrev join : List EventRecord → Option (List EventRecord) → Option (List EventRecord)
  join events none = none
  join events (some later) = some (events ++ later)

  abbrev continue :
      (TimelineCursor → Option (List EventRecord))
      → List EventRecord
      → Paged TimelineCursor
      → Option (List EventRecord)
  continue rest events (refused _) = none
  continue rest events (page cursor) = join events (rest cursor)

  abbrev follow :
      (TimelineCursor → Option (List EventRecord))
      → List EventRecord
      → Option Text
      → Option (List EventRecord)
  follow rest events none = some events
  follow rest events (some text) = continue rest events (parse formats text)

  abbrev visit :
      (TimelineCursor → Option (List EventRecord)) → Paged TimelinePage → Option (List EventRecord)
  visit rest (refused _) = none
  visit rest (page p) = follow rest p.events p.next_cursor

  unfoldable pub walk : ℕ → Option TimelineCursor → Option (List EventRecord)
  walk zero cursor = none
  walk (suc pages) cursor =
      visit (λ next. walk pages (some next)) (build_timeline_page formats snapshot policy cursor)

  -- The time and the id of the event are ones that the crates represent, and the time lies in no leap
  -- second.
  abbrev pub IsPlain : EventRecord → Type 0
  IsPlain r =
      (r.event.occurred_at < formats.time_bound)
      × (r.event.event_id < uuid_bound)
      × (formats.timestamp_subsec_nanos r.event.occurred_at < 1000000000)

  abbrev sorted : List EventRecord
  sorted = sort_records snapshot.recent_events

  module _ (good : is_bad_limit policy ≡ false) (word : snapshot.revision < 18446744073709551616)
      (plain : All IsPlain sorted) (newest : IsNewestFirst sorted) where
    build_own :
        (cursor : Option TimelineCursor) (left : List EventRecord)
        → is_foreign snapshot cursor ≡ false
        → filter (is_past cursor) sorted ≡ left
        → build_timeline_page formats snapshot policy cursor
          ≡ page (page_of formats snapshot policy (length sorted) left)
    unfolding build_timeline_page
    build_own cursor left own e = rw (good, own, e) refl

    own_cursor :
        (r : EventRecord) → is_foreign snapshot (some (cursor_at snapshot.revision r)) ≡ false
    unfolding cursor_at
    own_cursor r = ground arith

    parse_own :
        (r : EventRecord)
        → IsPlain r
        → parse formats (encode formats (cursor_at snapshot.revision r))
          ≡ page (cursor_at snapshot.revision r)
    unfolding cursor_at
    parse_own r p =
        let early : ltb (formats.timestamp_subsec_nanos r.event.occurred_at) 1000000000 ≡ true =
          ground arith in
        parse-encode formats (cursor_at snapshot.revision r) word p.0 p.1 ∙ rw early refl

    last_page :
        (rest : TimelineCursor → Option (List EventRecord)) (left : List EventRecord)
        → ltb policy.limit (length left) ≡ false
        → visit rest (page (page_of formats snapshot policy (length sorted) left)) ≡ some left
    unfolding page_of
    last_page rest left less = rw (less, take_all policy.limit left (ground arith)) refl

    -- From a cursor that belongs to the snapshot, the pages list what is left.
    abbrev Walks : ℕ → Type 0
    Walks pages =
        (cursor : Option TimelineCursor) (seen left : List EventRecord)
        → is_foreign snapshot cursor ≡ false
        → filter (is_past cursor) sorted ≡ left
        → sorted ≡ seen ++ left
        → length left < pages
        → walk pages cursor ≡ some left

    full_page :
        (pages : ℕ) (seen left : List EventRecord)
        → Walks pages
        → (c : Cut policy.limit left) → sorted ≡ seen ++ left
        → length left < suc pages
        → ltb policy.limit (length left) ≡ true
        → visit
            (λ next. walk pages (some next))
            (page (page_of formats snapshot policy (length sorted) left))
          ≡ some left
    unfolding page_of
    full_page pages seen left walks c whole enough more =
        let split : sorted ≡ (seen ++ c.front) ++ (c.end ∷ c.rest) =
          whole ∙ ap (λ l. seen ++ l) c.whole ∙ sym (append_assoc seen c.front (c.end ∷ c.rest)) in
        let regroup : sorted ≡ (seen ++ (c.front ++ (c.end ∷ []))) ++ c.rest =
          whole ∙ ap (λ l. seen ++ l) c.whole ∙ simp append_assoc in
        let here =
          all_middle IsPlain (seen ++ c.front) c.end c.rest (subst (All IsPlain) split plain) in
        let past : filter (precedes c.end) sorted ≡ c.rest =
          ap (filter (precedes c.end)) split
          ∙ filter_past (seen ++ c.front) c.end c.rest (subst IsNewestFirst split newest) in
        let later =
          walks (some (cursor_at snapshot.revision c.end)) (seen ++ (c.front ++ (c.end ∷ [])))
            c.rest (own_cursor c.end) (unfold cursor_at in past) regroup
            (omega (arith, ap length c.whole, length-append c.front (c.end ∷ c.rest))) in
        rw (more, c.ends, parse_own c.end here, later, c.taken)
          (ap some (append_assoc c.front (c.end ∷ []) c.rest ∙ sym c.whole))

    walk_left : (pages : ℕ) → Walks pages
    unfolding walk is_bad_limit
    walk_left zero cursor seen left own e whole enough = absurd (omega arith)
    walk_left (suc pages) cursor seen left own e whole enough =
        rw (build_own cursor left own e) (elim (Bool-cases (ltb policy.limit (length left))) [
          | inr less ↦ last_page _ left less
          | inl more ↦
              full_page pages seen left (walk_left pages)
                (cut policy.limit left (ground arith) (ground arith)) whole enough more
        ])

-- Following the cursors of the pages of one snapshot, with a valid policy, lists every retained event
-- once, newest first, and ends by itself: no page and no cursor is refused on the way. The retained
-- events have different ids, and no time of theirs lies in a leap second; the revision is a u64.
pub walk_lists-All :
    (formats : Formats) (snapshot : Snapshot) (policy : TimelinePolicy) (pages : ℕ)
    → is_bad_limit policy ≡ false
    → snapshot.revision < 18446744073709551616
    → AreApart snapshot.recent_events
    → All (IsPlain formats snapshot policy) snapshot.recent_events
    → length snapshot.recent_events < pages
    → (l : List EventRecord) × (walk formats snapshot policy pages none ≡ some l)
      × Perm l snapshot.recent_events
      × IsNewestFirst l
walk_lists-All formats snapshot policy pages good word apart plain enough =
    let newest = sort_records-IsNewestFirst snapshot.recent_events apart in
    (
      sort_records snapshot.recent_events,
      walk_left formats snapshot policy good word (All-sorted _ snapshot.recent_events plain) newest
          pages none [] (sort_records snapshot.recent_events) refl (filter_every _) refl
          (omega (arith, length-sort_records snapshot.recent_events)),
      sort_records-perm snapshot.recent_events,
      newest,
    )
