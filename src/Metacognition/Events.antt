-- ===== src/Metacognition/Events.antt =====
-- The events of each task, as src/metacognition/graph.rs indexes them.
use meta_agent_control_plane.Prelude.{
  Ordering, compare, String, Option, none, some, List, [], ◌∷◌, ◌++◌, map, string_eq, pair_eq,
  then_with, sort_with, map_push,
}
use meta_agent_control_plane.Model.{event_task_id}
use meta_agent_control_plane.Model.Numbers.{Uuid}
use meta_agent_control_plane.Store.State.{EventRecord}
use meta_agent_control_plane.Store.Ingest.{take}
use meta_agent_control_plane.Metacognition.Lookup.{TaskKey}

-- `rev()`.
unfoldable pub last_first : List EventRecord → List EventRecord
last_first [] = []
last_first (record' ∷ records) = last_first records ++ (record' ∷ [])

-- `TaskEventIndex`.
abbrev pub TaskEvents : Type 0
TaskEvents = List (TaskKey × List EventRecord)

abbrev pub push_event : EventRecord → Option String → TaskEvents → TaskEvents
push_event e none indexed = indexed
push_event e (some task_id) indexed = map_push (e.event.agent.agent_id, task_id) e indexed

unfoldable pub index_events : List EventRecord → TaskEvents → TaskEvents
index_events [] indexed = indexed
index_events (e ∷ events) indexed =
    index_events events (push_event e (event_task_id e.event.event) indexed)

abbrev pub record_order : EventRecord → EventRecord → Ordering
record_order left right =
    then_with (compare left.event.occurred_at right.event.occurred_at)
      (compare left.event.event_id right.event.event_id)

unfoldable pub index_task_events : List EventRecord → TaskEvents
unfolding index_events
index_task_events events =
    map (λ (e : TaskKey × List EventRecord). (e.0, sort_with record_order e.1))
      (index_events events [])

-- The ids of the latest events, at most `MAX_SOURCE_EVENT_IDS`.
unfoldable pub source_event_ids : Option (List EventRecord) → List Uuid
unfolding last_first
source_event_ids none = []
source_event_ids (some records) =
    map (λ (e : EventRecord). e.event.event_id) (take 12 (last_first records))
