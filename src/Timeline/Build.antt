-- ===== src/Timeline/Build.antt =====
-- `build_timeline_page` of src/timeline.rs.
use meta_agent_control_plane.Prelude.{
  ℕ, ◌+◌, ◌-◌, Bool, true, false, not, Option, none, some, List, length, ltb, nat_beq,
  if◌then◌else◌, filter,
}
use meta_agent_control_plane.Store.State.{EventRecord, Snapshot}
use meta_agent_control_plane.Store.Ingest.{take}
use meta_agent_control_plane.Lru.Assoc.{last}
use meta_agent_control_plane.Timeline.Hex.{Text}
use meta_agent_control_plane.Timeline.Order.{is_newer, sort_records}
use meta_agent_control_plane.Timeline.{
  Formats, TimelinePolicy, TimelineCursor, TimelinePage, Paged, page, refused, invalid_limit,
  revision_changed, is_bad_limit, encode,
}

-- The key of a record, as a cursor at the given revision.
unfoldable pub cursor_at : ℕ → EventRecord → TimelineCursor
cursor_at revision record' = record {
  revision = revision;
  occurred_at = record'.event.occurred_at;
  event_id = record'.event.event_id;
}

-- The test of the filter.
abbrev pub is_past : Option TimelineCursor → EventRecord → Bool
is_past none r = true
is_past (some cursor) r =
    is_newer cursor.occurred_at cursor.event_id r.event.occurred_at r.event.event_id

-- `cursor.revision != snapshot.revision`.
abbrev pub is_foreign : Snapshot → Option TimelineCursor → Bool
is_foreign snapshot none = false
is_foreign snapshot (some cursor) = not (nat_beq cursor.revision snapshot.revision)

abbrev pub requested : Option TimelineCursor → ℕ
requested none = 0
requested (some cursor) = cursor.revision

module _ (formats : Formats) where
  abbrev pub encode_last : ℕ → Option EventRecord → Option Text
  encode_last revision none = none
  encode_last revision (some r) = some (encode formats (cursor_at revision r))

  -- The page of the eligible events. Their counts are far below the greatest usize, so `checked_add`
  -- yields the sum. The `expect` on the last event of a page cannot fail, since a
  -- valid limit is positive.
  unfoldable pub page_of : Snapshot → TimelinePolicy → ℕ → List EventRecord → TimelinePage
  page_of snapshot policy retained_total eligible =
      let newer = retained_total - length eligible in
      let has_more = ltb policy.limit (length eligible) in
      let events = take policy.limit eligible in
      record {
        generated_at = snapshot.generated_at;
        started_at = snapshot.started_at;
        revision = snapshot.revision;
        events = events;
        next_cursor = if has_more then encode_last snapshot.revision (last events) else none;
        retained_total = retained_total;
        returned = length events;
        remaining_older = if has_more then retained_total - (newer + length events) else 0;
        newer_retained_events_skipped = newer;
        event_cache_evictions = snapshot.caches.events.evictions;
        policy = policy;
      }

  unfoldable pub build_timeline_page :
      Snapshot → TimelinePolicy → Option TimelineCursor → Paged TimelinePage
  unfolding page_of
  build_timeline_page snapshot policy cursor =
      if is_bad_limit policy
      then refused invalid_limit
      else if is_foreign snapshot cursor
      then refused (revision_changed (requested cursor) snapshot.revision)
      else (let retained = sort_records snapshot.recent_events in
          page (page_of snapshot policy (length retained) (filter (is_past cursor) retained)))
