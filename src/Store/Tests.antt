-- ===== src/Store/Tests.antt =====
-- Runs of the store on the sample events, and the theorems at them.
use meta_agent_control_plane.Prelude.{◌≡◌, refl, false, none, some, [], arith, string_eq}
use meta_agent_control_plane.Model
use meta_agent_control_plane.Model.Validation
use meta_agent_control_plane.Model.{AgentStatus, TaskOutcome, Transport, EventEnvelope}
use meta_agent_control_plane.Lru.Sample.{recency_lru}
use meta_agent_control_plane.Lru.Assoc.{
  drop_last, last, lookup, remove, modify, push_items, displaced,
}
use meta_agent_control_plane.Store.State.{AgentState, StoreInner}
use meta_agent_control_plane.Store.Tasks
use meta_agent_control_plane.Store.Tasks.{completed, failed}
use meta_agent_control_plane.Store.Writes
use meta_agent_control_plane.Store.Reducer
use meta_agent_control_plane.Store.Ingest
use meta_agent_control_plane.Store.Fresh.{fresh}
use meta_agent_control_plane.Store.Run.{serve, run}
use meta_agent_control_plane.Store.Sample.{agent_ref, start, requests, small}
use meta_agent_control_plane.Store.Counters.{tally}
use meta_agent_control_plane.Store.Counters.Exact.{run_counters_exact}
use meta_agent_control_plane.Prelude.{is_some, if◌then◌else◌, ltb, length, nat_eq}
use meta_agent_control_plane.Config.{Config, v4, cache_config}
use meta_agent_control_plane.Config.Tests.{settings, local_accepted, too_large}
use meta_agent_control_plane.Store.State.{TaskState, scoped_eq}
use meta_agent_control_plane.Store.Writes.{scoped}
use meta_agent_control_plane.Store.Stale.{IsSameWork, stale_event_keeps_work}
use meta_agent_control_plane.Prelude.{◌<◌, ◌≤◌, ◌⊎◌, not, nat_beq, leb, ◌&&◌, true}
use meta_agent_control_plane.Store.Opens.{has_room, valid_config_opens}
use meta_agent_control_plane.Store.New
use meta_agent_control_plane.Store.New.{Host, channel_maximum}
use meta_agent_control_plane.Store.Eviction.{entry_value, push_with_eviction_reports}
use meta_agent_control_plane.Store.Log.{ledger, apply_event-ledger}
use meta_agent_control_plane.Store.Broadcast.{
  IsQuiet, Announces, run_revision_accepted, IsQuiet-ingest_keeps, broadcast_tells_revision,
}
use meta_agent_control_plane.Store.Sample.{progress, completion}

-- Opens the whole program, for runs.
program : Unit {0}
unfolding Validation.is_whitespace Validation.is_blank Validation.validate_text
    Validation.validate_optional_text Validation.validate_each Validation.validate_string_list
    Validation.validate_unit_interval Validation.validate_progress Validation.validate_completed
    Validation.validate_task_spec Validation.validate_event Validation.validate Model.is_finite
    Model.in_unit_range Model.saturating_suc Model.saturating_pred Model.wrapping_suc Model.kind
    Model.event_task_id Model.transport_as_str drop_last last lookup remove modify push_items
    displaced Tasks.bucket_of Tasks.count_one Tasks.uncount_one Tasks.remove_completion_counter
    Tasks.moves_bucket Tasks.bucket_status Tasks.reconcile_completion_counters Tasks.add_outcome
    Tasks.counts_from Tasks.from_spec Tasks.push_with_eviction Tasks.with_agent Tasks.task_counts
    Tasks.note_evicted Tasks.insert_task Tasks.inferred_task Tasks.ensure_task Tasks.new_agent
    Tasks.ensure_agent Writes.refresh Writes.define_task Writes.newer Writes.advance
    Writes.outcome_status Writes.complete Writes.agent_advances Writes.agent_completes
    Writes.applied Reducer.create_task Reducer.write_task Reducer.run_task Reducer.dispatch
    Reducer.apply_event Ingest.bump Ingest.record_rejection Ingest.note_duplicate
    Ingest.count_accepted Ingest.remember_id Ingest.retain_event Ingest.accept Ingest.ack
    Ingest.admit Ingest.retain Ingest.store_update Ingest.ingest_valid Ingest.ingest New.new_store
    New.new_cache fresh serve run
program = tt

after : StoreInner recency_lru
after = run recency_lru start requests

-- Each request was counted once.
counted :
    (after.counters.accepted ≡ 3) × (after.counters.duplicate ≡ 1) × (after.counters.rejected ≡ 1)
unfolding program after
counted = (refl, refl, refl)

abbrev seen_a : AgentState
seen_a = record {
  agent = agent_ref "agent-a";
  display_name = "agent-a";
  capabilities = [];
  metadata = [];
  status = AgentStatus.completed;
  session_id = none;
  current_goal_id = none;
  active_task_id = none;
  registered_at = 9;
  last_seen_at = 9;
  completed_tasks = 1;
  failed_tasks = 0;
  latest_reflection = none;
  latest_error = none;
}

-- A process with memory for a million entries.
abbrev host : Host
host = record {
  channel = λ n. not (nat_beq n 0) && leb n 9223372036854775807;
  allocates = λ n. leb n 1000000;
  channel-zero = refl;
  channel-large = λ n h. ground arith;
}

opened : New.new_store recency_lru host small 64 5 ≡ some start
unfolding program
opened = refl

found_a : lookup "agent-a" (run recency_lru start requests).agents.items ≡ some seen_a
unfolding program
found_a = refl

run_counters_exact_example :
    (seen_a.completed_tasks
      ≡ tally "agent-a" completed (run recency_lru start requests).tasks.items)
    × (seen_a.failed_tasks ≡ tally "agent-a" failed (run recency_lru start requests).tasks.items)
run_counters_exact_example =
    run_counters_exact recency_lru host small 64 5 requests "agent-a" seen_a (omega arith) opened
      found_a

run_revision_accepted_example :
    (run recency_lru start requests).revision ≡ (run recency_lru start requests).counters.accepted
run_revision_accepted_example = run_revision_accepted recency_lru host small 64 5 requests opened

abbrev report : EventEnvelope
report = progress 9 20 "agent-b" "task-b"

-- The third request, a duplicate, broadcasts nothing.
repeated :
    (Ingest.ingest recency_lru after 14
      (completion 2 9 "agent-a" "task-a" TaskOutcome.succeeded)
      Transport.http).update
    ≡ none
unfolding program after
repeated = refl

IsQuiet-ingest_keeps_example :
    IsQuiet recency_lru after
      (Ingest.ingest recency_lru after 14
        (completion 2 9 "agent-a" "task-a" TaskOutcome.succeeded)
        Transport.http).inner
IsQuiet-ingest_keeps_example =
    IsQuiet-ingest_keeps recency_lru after 14
      (completion 2 9 "agent-a" "task-a" TaskOutcome.succeeded) Transport.http repeated

told :
    (Ingest.ingest recency_lru start 21 report Transport.udp).update
    ≡ some (Ingest.store_update report 1 Transport.udp 21)
unfolding program
told = refl

broadcast_tells_revision_example :
    Announces recency_lru start 21 report Transport.udp
      (Ingest.ingest recency_lru start 21 report Transport.udp)
      (Ingest.store_update report 1 Transport.udp 21)
broadcast_tells_revision_example =
    broadcast_tells_revision recency_lru start 21 report Transport.udp told

push_with_eviction_reports_example :
    (Tasks.push_with_eviction recency_lru string_eq after.agents "agent-c" seen_a).1 ≡ (
      if is_some (lookup "agent-c" after.agents.items)
      then none
      else if ltb (length after.agents.items) after.agents.capacity
      then none
      else entry_value (last after.agents.items))
push_with_eviction_reports_example =
    push_with_eviction_reports recency_lru string_eq after.agents "agent-c" seen_a

apply_event-ledger_example :
    ledger recency_lru (Reducer.apply_event recency_lru after report) ≡ ledger recency_lru after
apply_event-ledger_example = apply_event-ledger recency_lru after report

abbrev local : Config
local = settings (v4 127 0 0 1) none false

valid_config_opens_example :
    ((has_room host local ≡ true)
      × (local.update_channel_capacity ≤ channel_maximum)
      × (New.new_store recency_lru host (cache_config local) local.update_channel_capacity 5
          ≡ some (fresh recency_lru (cache_config local) 5)))
    ⊎ ((has_room host local ≡ false)
        × (New.new_store recency_lru host (cache_config local) local.update_channel_capacity 5
            ≡ none))
valid_config_opens_example = valid_config_opens recency_lru host local 5 local_accepted

-- Settings with a channel that is too large are accepted too, and the daemon panics.
too_large_panics :
    New.new_store recency_lru host (cache_config too_large) too_large.update_channel_capacity 5
    ≡ none
unfolding program
too_large_panics = refl

abbrev started_b : TaskState
started_b =
    Writes.advance 12
      (record {
        task_id = "task-b";
        progress = 0x3f000000;
        summary = "Made measurable progress.";
        blocker = none;
        next_action = some "Continue validation.";
      })
      (Tasks.inferred_task recency_lru "task-b" "agent-b" 12)

found_b : lookup (scoped "agent-b" "task-b") after.tasks.items ≡ some started_b
unfolding program after
found_b = refl

late : 3 < started_b.updated_at
unfolding program
late = omega arith

named : Model.event_task_id (progress 9 3 "agent-b" "task-b").event ≡ some "task-b"
unfolding program
named = refl

-- A report of time 3 on a task that changed at time 12.
stale_event_keeps_work_example :
    (new : TaskState) × (lookup
        (scoped "agent-b" "task-b")
        (Reducer.apply_event recency_lru after (progress 9 3 "agent-b" "task-b")).tasks.items
      ≡ some new)
    × IsSameWork started_b new
stale_event_keeps_work_example =
    stale_event_keeps_work recency_lru after (progress 9 3 "agent-b" "task-b") started_b late named
      found_b
