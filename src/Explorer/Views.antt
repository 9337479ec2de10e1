-- ===== src/Explorer/Views.antt =====
-- What a view of src/explorer.rs shows of a snapshot.
use meta_agent_control_plane.Prelude.{◌+◌, ◌≤◌, ◌<◌, min, ◌≡◌, length, All, count}
use meta_agent_control_plane.Model.{u64_max}
use meta_agent_control_plane.Store.State.{Snapshot}
use meta_agent_control_plane.Explorer.Build.{Explored, explored, rejected}
use meta_agent_control_plane.Explorer.Data.{ExplorerPolicy, SessionSummary, ExplorerSnapshot}
use meta_agent_control_plane.Explorer.Sessions.{in_session}

-- The limits that the policy may have.
pub record IsInRange (policy : ExplorerPolicy) : Type 0 where
  pub timeline : (0 < policy.timeline_limit) × (policy.timeline_limit ≤ 250)
  pub sessions : (0 < policy.session_limit) × (policy.session_limit ≤ 250)
  pub lessons : (0 < policy.lesson_limit) × (policy.lesson_limit ≤ 1000)

-- The view keeps to its limits, its counts add up to what the snapshot retains, and each session
-- counts the events of the snapshot that belong to it, also those that the timeline omits.
pub record Shows (snapshot : Snapshot) (policy : ExplorerPolicy) (e : ExplorerSnapshot)
    : Type 0 where
  pub timeline_fits : length e.timeline ≤ policy.timeline_limit
  pub sessions_fit : length e.sessions ≤ policy.session_limit
  pub lessons_fit : length e.lessons ≤ policy.lesson_limit
  pub events :
      length e.timeline + e.retention.omitted_timeline_events ≡ length snapshot.recent_events
  pub lessons : length e.lessons + e.retention.omitted_lessons ≡ length snapshot.lessons
  pub sessions : length e.sessions + e.retention.omitted_sessions ≡ e.system.retained_sessions
  pub session_events :
      All
        (λ (s : SessionSummary).
          s.event_count ≡ min (count (in_session s.session_id) snapshot.recent_events) u64_max)
        e.sessions

abbrev pub IsExplored : Snapshot → ExplorerPolicy → Explored → Type 0
IsExplored snapshot policy (explored e) = IsInRange policy × Shows snapshot policy e
IsExplored snapshot policy (rejected e) = ¬ IsInRange policy
