-- ===== src/Explorer/Tests.antt =====
-- A view of a sample snapshot by src/explorer.rs, and the theorem at it.
use meta_agent_control_plane.Prelude.{
  ℕ, ◌≡◌, ◌-◌, ℤ, pos, refl, String, some, List, [], ◌∷◌, map, sort_by, insert_sorted, map_get,
  map_insert,
}
use meta_agent_control_plane.Model.{
  DateTime, Uuid, Transport, event_task_id, kind, transport_as_str, saturating_suc, wrapping_suc,
}
use meta_agent_control_plane.Lru.Sample.{recency_lru}
use meta_agent_control_plane.Store.State.{EventRecord, Snapshot}
use meta_agent_control_plane.Store.Sample.{progress, start}
use meta_agent_control_plane.Store.Ingest
use meta_agent_control_plane.Explorer.Build
use meta_agent_control_plane.Explorer.Build.{view}
use meta_agent_control_plane.Explorer.Data.{SessionSummary, default_explorer_policy}

abbrev entry : Uuid → DateTime → String → String → EventRecord
entry id at session task = record {
  event = record (progress id at "agent-a" task) { session_id = some session };
  transport = Transport.tcp;
  received_at = at;
}

abbrev snapshot : Snapshot
snapshot = record (Ingest.snapshot recency_lru start 2000) {
  recent_events =
      entry 1 10 "s1" "t1"
      ∷ entry 2 30 "s2" "t1"
      ∷ entry 3 20 "s1" "t2"
      ∷ record (entry 4 40 "s1" "t1") { event = progress 4 40 "agent-a" "t1" }
      ∷ [];
}

abbrev id_text : Uuid → String
id_text id = "some"

abbrev num_seconds : DateTime → DateTime → ℤ
num_seconds now before = pos (now - before)

-- The session with the latest event comes first, and an event without a session counts for none.
shown_sessions :
    map {B = String × ℕ × List String}
      (λ (s : SessionSummary). (s.session_id, s.event_count, s.task_ids))
      (view id_text snapshot default_explorer_policy (pos 0)).sessions
    ≡ ("s2", 1, "t1" ∷ []) ∷ ("s1", 2, "t1" ∷ "t2" ∷ []) ∷ []
unfolding view Build.sessions_of Build.file_all Build.observe Build.note_event Build.set_latest
    Build.new_session Build.finish Build.has_text Ingest.take event_task_id kind transport_as_str
    saturating_suc wrapping_suc sort_by insert_sorted map_get map_insert
shown_sessions = refl
