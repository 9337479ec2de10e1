-- ===== src/Model/Policy.antt =====
-- The kinds of src/model.rs: the two lists that the documentation and the API publish, against the
-- events and the test that the UDP listener makes.
use mathlib.Core.List.{Memᴰ}
use mathlib.Core.List.Memᴰ
use meta_agent_control_plane.Prelude.{
  ◌≡◌, ◌↔◌, refl, sym, ◌∙◌, String, Bool, true, false, ◌||◌, none, List, [], ◌∷◌, ◌==◌, string_eq,
  ==-self, All, of_All-mem, Bool-cases, inl, inr, subst,
}
use meta_agent_control_plane.Model.Payload.{
  AgentEvent, agent_registered, heartbeat, goal_declared, task_created, task_started,
  progress_updated, reflection_recorded, lesson_learned, error_observed, task_completed,
  agent_status_changed, AgentStatus, TaskOutcome, kind, allowed_over_udp, event_kinds,
  udp_event_kinds,
}

abbrev contains : List String → String → Bool
contains [] s = false
contains (x ∷ xs) s = x == s || contains xs s

kind_published :
    (e : AgentEvent)
    → (contains event_kinds (kind e) ≡ true)
      × (contains udp_event_kinds (kind e) ≡ allowed_over_udp e)
unfolding kind allowed_over_udp
kind_published (agent_registered _) = (refl, refl)
kind_published (heartbeat _) = (refl, refl)
kind_published (goal_declared _) = (refl, refl)
kind_published (task_created _) = (refl, refl)
kind_published (task_started _) = (refl, refl)
kind_published (progress_updated _) = (refl, refl)
kind_published (reflection_recorded _) = (refl, refl)
kind_published (lesson_learned _) = (refl, refl)
kind_published (error_observed _) = (refl, refl)
kind_published (task_completed _) = (refl, refl)
kind_published (agent_status_changed _) = (refl, refl)

of_contains : (l : List String) (s : String) → contains l s ≡ true → Memᴰ s l
of_contains [] s h = cc
of_contains (x ∷ l) s h = elim (Bool-cases (x == s)) [
  | inl same ↦ Memᴰ.head (sym ((string_eq.is_same_iff x s).0 same))
  | inr other ↦ Memᴰ.tail (of_contains l s (rw other at h))
]

contains_member : (l : List String) (s : String) → Memᴰ s l → contains l s ≡ true
contains_member [] s m = absurd (Memᴰ.not-nil m)
contains_member (x ∷ l) s m = elim (Memᴰ.cases_cons m) [
  | inl e ↦ rw e (rw (==-self x) refl)
  | inr later ↦ elim (Bool-cases (x == s)) [
    | inl same ↦ rw same refl
    | inr other ↦ rw other (contains_member l s later)
  ]
]

-- An event of each kind.
abbrev registration : AgentEvent
registration =
    agent_registered
      (record { display_name = ""; capabilities = []; metadata = []; status = AgentStatus.idle })

abbrev beat : AgentEvent
beat = heartbeat (record { status = none; active_task_id = none; load = none })

abbrev goal : AgentEvent
goal = goal_declared (record {
  goal_id = "";
  title = "";
  success_criteria = [];
  constraints = [];
  parent_goal_id = none;
})

abbrev creation : AgentEvent
creation = task_created (record {
  task_id = "";
  title = "";
  goal_id = none;
  depends_on = [];
  tags = [];
  expected_outcome = none;
})

abbrev beginning : AgentEvent
beginning = task_started (record { task_id = ""; attempt = 1; plan_summary = none })

abbrev progress : AgentEvent
progress =
    progress_updated
      (record { task_id = ""; progress = 0; summary = ""; blocker = none; next_action = none })

abbrev reflection : AgentEvent
reflection = reflection_recorded (record {
  task_id = none;
  summary = "";
  confidence = 0;
  assumptions = [];
  evidence = [];
  alternatives_considered = [];
  risks = [];
  next_action = none;
})

abbrev lesson : AgentEvent
lesson = lesson_learned (record {
  lesson_id = "";
  statement = "";
  confidence = 0;
  source_task_id = none;
  evidence = [];
  tags = [];
  applicability = none;
})

abbrev failure : AgentEvent
failure = error_observed (record {
  task_id = none;
  code = "";
  message = "";
  recoverable = true;
  proposed_recovery = none;
})

abbrev completion : AgentEvent
completion = task_completed (record {
  task_id = "";
  outcome = TaskOutcome.succeeded;
  summary = "";
  artifacts = [];
  actual_result = none;
})

abbrev change : AgentEvent
change = agent_status_changed (record { status = AgentStatus.idle; reason = none })

-- There is an event of the kind, and one that UDP may carry.
abbrev pub IsKind : String → Type 0
IsKind k = (e : AgentEvent) × (kind e ≡ k)

abbrev pub IsUdpKind : String → Type 0
IsUdpKind k = (e : AgentEvent) × (kind e ≡ k) × (allowed_over_udp e ≡ true)

All-IsKind : All IsKind event_kinds
unfolding kind
All-IsKind = (
  (registration, refl),
  (
    (beat, refl),
    (
      (goal, refl),
      (
        (creation, refl),
        (
          (beginning, refl),
          (
            (progress, refl),
            (
              (reflection, refl),
              ((lesson, refl), ((failure, refl), ((completion, refl), ((change, refl), tt)))),
            ),
          ),
        ),
      ),
    ),
  ),
)

All-IsUdpKind : All IsUdpKind udp_event_kinds
unfolding kind allowed_over_udp
All-IsUdpKind = (
  (beat, refl, refl),
  (
    (progress, refl, refl),
    ((reflection, refl, refl), ((failure, refl, refl), ((change, refl, refl), tt))),
  ),
)

-- A kind is in the published list exactly when it is the kind of some event, and in the published
-- list for UDP exactly when it is the kind of some event that UDP may carry; and an event may be
-- carried by UDP exactly when its kind is in that list.
pub kinds_published :
    (k : String) (e : AgentEvent)
    → (Memᴰ k event_kinds ↔ IsKind k)
      × (Memᴰ k udp_event_kinds ↔ IsUdpKind k)
      × (Memᴰ (kind e) udp_event_kinds ↔ (allowed_over_udp e ≡ true))
kinds_published k e = (
  (
    of_All-mem IsKind k event_kinds All-IsKind,
    λ known.
        subst (λ s. Memᴰ s event_kinds) known.1
          (of_contains event_kinds (kind known.0) (kind_published known.0).0),
  ),
  (
    of_All-mem IsUdpKind k udp_event_kinds All-IsUdpKind,
    λ known.
        subst (λ s. Memᴰ s udp_event_kinds) known.1
          (of_contains udp_event_kinds (kind known.0) ((kind_published known.0).1 ∙ known.2)),
  ),
  (
    λ listed. sym (kind_published e).1 ∙ contains_member udp_event_kinds (kind e) listed,
    λ allowed. of_contains udp_event_kinds (kind e) ((kind_published e).1 ∙ allowed),
  ),
)
