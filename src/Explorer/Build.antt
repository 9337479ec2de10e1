-- ===== src/Explorer/Build.antt =====
-- `build_explorer` of src/explorer.rs. The text of a Uuid is what the crate uuid makes of it.
use meta_agent_control_plane.Prelude.{
  ℕ, ◌-◌, min, max_int, ℤ, Ordering, compare, String, Bool, true, false, ◌||◌, ◌&&◌, Option, none,
  some, List, [], ◌∷◌, map, length, ltb, nat_beq, ◌==◌, string_eq, if◌then◌else◌, ok, err,
  then_with, compare_text, sort_with, map_get, map_insert,
}
use meta_agent_control_plane.Model.{
  event_task_id, kind, transport_as_str, DateTime, Uuid, saturating_suc, wrapping_suc,
}
use meta_agent_control_plane.Store.State.{AgentState, EventRecord, LessonState, Snapshot}
use meta_agent_control_plane.Store.Ingest.{take}
use meta_agent_control_plane.Explorer.Data.{
  ExplorerPolicy, ExplorerError, validate_explorer, Tally, SessionSummary, ExplorerSnapshot,
  SessionAccumulator,
}

unfoldable pub has_text : String → List String → Bool
has_text s [] = false
has_text s (t ∷ texts) = t == s || has_text s texts

-- `BTreeSet::insert`.
abbrev pub insert_text : String → List String → List String
insert_text s texts = if has_text s texts then texts else s ∷ texts

abbrev pub insert_task_id : Option String → List String → List String
insert_task_id none texts = texts
insert_task_id (some id) texts = insert_text id texts

abbrev pub tally_of : Option ℕ → ℕ
tally_of none = 0
tally_of (some n) = n

-- `*entry(key).or_default() += 1`, in the release build.
abbrev pub count_up : String → Tally → Tally
count_up key tally = map_insert key (wrapping_suc (tally_of (map_get key tally))) tally

abbrev pub is_after : String → String → Bool
is_after left right = elim (compare_text left right) [
  | Ordering.gt ↦ true
  | Ordering.eq ↦ false
  | Ordering.lt ↦ false
]

-- The greatest comes first.
abbrev pub newest_first : EventRecord → EventRecord → Ordering
newest_first left right =
    then_with (compare right.event.occurred_at left.event.occurred_at)
      (compare right.event.event_id left.event.event_id)

abbrev pub lesson_order : LessonState → LessonState → Ordering
lesson_order left right = then_with (compare right.learned_at left.learned_at) (
    then_with (compare_text left.agent_id right.agent_id)
      (compare_text left.lesson.lesson_id right.lesson.lesson_id))

abbrev pub session_order : SessionSummary → SessionSummary → Ordering
session_order left right =
    then_with (compare right.last_occurred_at left.last_occurred_at)
      (compare_text left.session_id right.session_id)

abbrev pub agent_id_order : AgentState → AgentState → Ordering
agent_id_order left right = compare_text left.agent.agent_id right.agent.agent_id

-- `SessionAccumulator::finish`. The sets come in the order of their elements, as the sessions do.
unfoldable pub finish : String × SessionAccumulator → SessionSummary
finish (session_id, a) = record {
  session_id = session_id;
  agent_ids = sort_with compare_text a.agent_ids;
  task_ids = sort_with compare_text a.task_ids;
  event_kinds = a.event_kinds;
  transports = a.transports;
  event_count = a.event_count;
  first_occurred_at = a.first_occurred_at;
  last_occurred_at = a.last_occurred_at;
  latest_event_id = a.latest_event_id;
  latest_event_kind = a.latest_event_kind;
  latest_task_id = a.latest_task_id;
}

abbrev pub Sessions : Type 0
Sessions = List (String × SessionAccumulator)

abbrev pub session_entry_order :
    String × SessionAccumulator → String × SessionAccumulator → Ordering
session_entry_order a b = compare_text a.0 b.0

module _ (id_text : Uuid → String) where
  -- `SessionAccumulator::new`.
  unfoldable pub new_session : EventRecord → SessionAccumulator
  new_session r = record {
    agent_ids = r.event.agent.agent_id ∷ [];
    task_ids = insert_task_id (event_task_id r.event.event) [];
    event_kinds = (kind r.event.event, 1) ∷ [];
    transports = (transport_as_str r.transport, 1) ∷ [];
    event_count = 1;
    first_occurred_at = r.event.occurred_at;
    last_occurred_at = r.event.occurred_at;
    latest_event_id = id_text r.event.event_id;
    latest_event_kind = kind r.event.event;
    latest_task_id = event_task_id r.event.event;
  }

  -- The test for a later event, or for one of the same time and a greater id.
  abbrev pub is_latest : EventRecord → SessionAccumulator → Bool
  is_latest r a =
      ltb a.last_occurred_at r.event.occurred_at
      || (nat_beq r.event.occurred_at a.last_occurred_at
          && is_after (id_text r.event.event_id) a.latest_event_id)

  unfoldable pub set_latest : EventRecord → SessionAccumulator → SessionAccumulator
  set_latest r a = record a {
    last_occurred_at = r.event.occurred_at;
    latest_event_id = id_text r.event.event_id;
    latest_event_kind = kind r.event.event;
    latest_task_id = event_task_id r.event.event;
  }

  unfoldable pub note_event : EventRecord → SessionAccumulator → SessionAccumulator
  note_event r a = record a {
    agent_ids = insert_text r.event.agent.agent_id a.agent_ids;
    task_ids = insert_task_id (event_task_id r.event.event) a.task_ids;
    event_kinds = count_up (kind r.event.event) a.event_kinds;
    transports = count_up (transport_as_str r.transport) a.transports;
    event_count = saturating_suc a.event_count;
    first_occurred_at = min a.first_occurred_at r.event.occurred_at;
  }

  -- `SessionAccumulator::observe`.
  unfoldable pub observe : EventRecord → SessionAccumulator → SessionAccumulator
  unfolding set_latest note_event
  observe r a = if is_latest r a then set_latest r (note_event r a) else note_event r a

  abbrev pub observed : EventRecord → Option SessionAccumulator → SessionAccumulator
  observed r none = new_session r
  observed r (some a) = observe r a

  abbrev pub file : EventRecord → Option String → Sessions → Sessions
  file r none sessions = sessions
  file r (some session_id) sessions =
      map_insert session_id (observed r (map_get session_id sessions)) sessions

  -- The loop over the timeline.
  unfoldable pub file_all : List EventRecord → Sessions → Sessions
  file_all [] sessions = sessions
  file_all (r ∷ records) sessions = file_all records (file r r.event.session_id sessions)

  unfoldable pub sessions_of : List EventRecord → List SessionSummary
  unfolding file_all
  sessions_of timeline =
      sort_with session_order (map finish (sort_with session_entry_order (file_all timeline [])))

  -- The view, under a valid policy. The last argument is the time of the snapshot since the start, in
  -- seconds, as chrono counts it.
  unfoldable pub view : Snapshot → ExplorerPolicy → ℤ → ExplorerSnapshot
  unfolding sessions_of
  view snapshot policy uptime =
      let lessons = sort_with lesson_order snapshot.lessons in
      let timeline = sort_with newest_first snapshot.recent_events in
      let sessions = sessions_of timeline in
      let shown_lessons = take policy.lesson_limit lessons in
      let shown_timeline = take policy.timeline_limit timeline in
      let shown_sessions = take policy.session_limit sessions in
      record {
        generated_at = snapshot.generated_at;
        started_at = snapshot.started_at;
        revision = snapshot.revision;
        agents = sort_with agent_id_order snapshot.agents;
        sessions = shown_sessions;
        lessons = shown_lessons;
        timeline = shown_timeline;
        system = record {
          uptime_seconds = max_int uptime 0;
          agents = length snapshot.agents;
          goals = length snapshot.goals;
          tasks = length snapshot.tasks;
          lessons = length snapshot.lessons;
          retained_events = length timeline;
          retained_sessions = length sessions;
          caches = snapshot.caches;
          counters = snapshot.counters;
        };
        retention = record {
          total_timeline_events = length timeline;
          returned_timeline_events = length shown_timeline;
          omitted_timeline_events = length timeline - length shown_timeline;
          total_sessions = length sessions;
          returned_sessions = length shown_sessions;
          omitted_sessions = length sessions - length shown_sessions;
          total_lessons = length lessons;
          returned_lessons = length shown_lessons;
          omitted_lessons = length lessons - length shown_lessons;
        };
        policy = policy;
      }

-- `Result<ExplorerSnapshot, ExplorerError>`.
pub data Explored : Type 0 where
  explored : ExplorerSnapshot → Explored
  rejected : ExplorerError → Explored

unfoldable pub build_explorer :
    (Uuid → String) → (DateTime → DateTime → ℤ) → Snapshot → ExplorerPolicy → Explored
build_explorer id_text num_seconds snapshot policy = elim (validate_explorer policy) [
  | err e ↦ rejected e
  | ok ↦
      explored
        (view id_text snapshot policy (num_seconds snapshot.generated_at snapshot.started_at))
]
