-- ===== src/Metacognition/Findings.antt =====
-- The diagnostics of src/metacognition/analysis.rs for one task.
use meta_agent_control_plane.Prelude.{
  ◌∷◌, [], List, String, Bool, not, ◌||◌, ◌&&◌, Option, none, some, is_some, leb, nat_beq,
  if◌then◌else◌, concat, join, string_eq, pair_eq, Ordering, compare, compare_text, then_with,
}
use meta_agent_control_plane.Model.Numbers.{F32, f32_zero, f32_one}
use meta_agent_control_plane.Store.State.{TaskState}
use meta_agent_control_plane.Metacognition.Data.{
  AnalysisPolicy, Diagnostic, DiagnosticRule, DiagnosticSeverity, severity_rank,
}
use meta_agent_control_plane.Metacognition.Outside.{Outside, is_at_least, saturating_double}
use meta_agent_control_plane.Metacognition.Facts.{
  is_active, is_terminal, has_blocked, has_running, has_closed, status_debug, outcome_debug,
  is_completion_mismatch, Facts, Finding, raise, is_nothing, is_retained, diagnostic_id, task_text,
}

module _ (outside : Outside) (policy : AnalysisPolicy) (task : TaskState) (facts : Facts) where
  open outside use {is_less, number, integer, percent}

  abbrev pub is_stale : Bool
  is_stale = is_at_least facts.stale_for_seconds policy.stale_after_seconds

  unfoldable pub stalled_task : Finding
  stalled_task = record {
    rule = DiagnosticRule.stalled_task;
    severity =
        if has_blocked task.status
          && is_at_least facts.stale_for_seconds (saturating_double policy.stale_after_seconds)
        then DiagnosticSeverity.critical
        else DiagnosticSeverity.warning;
    summary = task_text task " has stopped producing observable progress";
    explanation = concat (
        "The task is "
        ∷ status_debug task.status
        ∷ " and its latest retained state is "
        ∷ number facts.stale_for_seconds
        ∷ " seconds old; the configured stall threshold is "
        ∷ integer policy.stale_after_seconds
        ∷ " seconds."
        ∷ []);
    recommended_action = "Request a checkpoint, verify the blocker, or revise the plan.";
  }

  unfoldable pub retry_loop : Finding
  retry_loop = record {
    rule = DiagnosticRule.retry_loop;
    severity = DiagnosticSeverity.warning;
    summary = task_text task " is in a repeated-attempt loop";
    explanation = concat (
        "The task is on attempt "
        ∷ number task.attempt
        ∷ ". The retry-loop threshold is "
        ∷ number policy.retry_loop_attempts
        ∷ " attempts."
        ∷ []);
    recommended_action = "Change a causal variable before retrying again and record the result.";
  }

  unfoldable pub blocked_dependency : Finding
  blocked_dependency = record {
    rule = DiagnosticRule.blocked_dependency;
    severity = DiagnosticSeverity.warning;
    summary = task_text task " is running before its dependencies are complete";
    explanation =
        concat ("Unresolved dependencies: " ∷ join ", " facts.dependencies.unresolved ∷ "." ∷ []);
    recommended_action = "Pause the task or explicitly revise the dependency graph.";
  }

  unfoldable pub orphan_dependency : Finding
  orphan_dependency = record {
    rule = DiagnosticRule.orphan_dependency;
    severity = DiagnosticSeverity.critical;
    summary = task_text task " references unknown dependencies";
    explanation =
        concat
          ("Missing scoped task definitions: " ∷ join ", " facts.dependencies.missing ∷ "." ∷ []);
    recommended_action = "Declare the missing tasks or remove the stale dependency references.";
  }

  unfoldable pub dependency_cycle : Finding
  dependency_cycle = record {
    rule = DiagnosticRule.dependency_cycle;
    severity = DiagnosticSeverity.critical;
    summary = task_text task " participates in a dependency cycle";
    explanation =
        "The scoped task graph cannot produce a finite critical path while this cycle exists.";
    recommended_action = "Break the cycle by revising at least one dependency edge.";
  }

  unfoldable pub orphan_goal : String → Finding
  orphan_goal goal_id = record {
    rule = DiagnosticRule.orphan_goal;
    severity = DiagnosticSeverity.warning;
    summary = task_text task " references an unknown goal";
    explanation = concat (
        "Goal " ∷ goal_id ∷ " has not been retained or was never declared for agent "
        ∷ task.agent_id ∷ "." ∷ []);
    recommended_action = "Declare the goal or reassign the task to a retained goal.";
  }

  unfoldable pub missing_evidence : Finding
  missing_evidence = record {
    rule = DiagnosticRule.missing_evidence;
    severity =
        if is_terminal task.status then DiagnosticSeverity.warning else DiagnosticSeverity.info;
    summary = task_text task " has progress without retained evidence";
    explanation = concat (
        "Self-reported progress is "
        ∷ percent task.progress
        ∷ "% but no reflection evidence or completion artifact is retained."
        ∷ []);
    recommended_action =
        "Attach a test, artifact, measurement, or other visible evidence reference.";
  }

  unfoldable pub low_confidence : F32 → Finding
  low_confidence confidence = record {
    rule = DiagnosticRule.low_confidence;
    severity = DiagnosticSeverity.warning;
    summary = task_text task " has low declared confidence";
    explanation = concat (
        "Latest declared confidence is "
        ∷ percent confidence
        ∷ "%; the policy threshold is "
        ∷ percent policy.low_confidence_threshold
        ∷ "%."
        ∷ []);
    recommended_action = "Gather another independent signal or narrow the claim before acting.";
  }

  unfoldable pub missing_next_action : Finding
  missing_next_action = record {
    rule = DiagnosticRule.missing_next_action;
    severity =
        if has_blocked task.status then DiagnosticSeverity.warning else DiagnosticSeverity.info;
    summary = task_text task " has no explicit next action";
    explanation = "The latest retained state does not identify the next observable step.";
    recommended_action = "Record one concrete, testable next action.";
  }

  unfoldable pub completion_mismatch : Finding
  completion_mismatch = record {
    rule = DiagnosticRule.completion_mismatch;
    severity = DiagnosticSeverity.critical;
    summary = task_text task " has contradictory completion state";
    explanation = concat (
        "Status "
        ∷ status_debug task.status
        ∷ ", outcome "
        ∷ outcome_debug task.outcome
        ∷ ", and progress "
        ∷ percent task.progress
        ∷ "% do not form a consistent terminal projection."
        ∷ []);
    recommended_action = "Replay the causal events and publish a corrected authoritative state.";
  }

  -- The two rules under an `if let`.
  abbrev pub raise_goal : Option String → List Finding → List Finding
  raise_goal none rest = rest
  raise_goal (some goal_id) rest = raise (not facts.goal_is_known) (orphan_goal goal_id) rest

  abbrev pub raise_confidence : Option F32 → List Finding → List Finding
  raise_confidence none rest = rest
  raise_confidence (some c) rest =
      raise (is_less c policy.low_confidence_threshold) (low_confidence c) rest

  abbrev pub is_unproven : Bool
  is_unproven =
      (is_less f32_zero task.progress || is_terminal task.status) && nat_beq facts.evidence_count 0

  -- The rules in the order of the loop.
  unfoldable pub findings : List Finding
  findings = raise (is_active task.status && is_stale) stalled_task (
      raise (leb policy.retry_loop_attempts task.attempt && not (has_closed task.status)) retry_loop
        (raise (has_running task.status && not (is_nothing facts.dependencies.unresolved))
          blocked_dependency
          (raise (not (is_nothing facts.dependencies.missing)) orphan_dependency (
            raise facts.on_cycle dependency_cycle (
              raise_goal task.task.goal_id (
                raise is_unproven missing_evidence (
                  raise_confidence facts.confidence (
                    raise (is_active task.status && not (is_some task.next_action))
                      missing_next_action
                      (raise
                        (is_completion_mismatch (is_less task.progress f32_one) task.status
                          task.outcome)
                        completion_mismatch [])))))))))

  -- `add`.
  unfoldable pub diagnostic : Finding → Diagnostic
  unfolding diagnostic_id
  diagnostic f = record {
    diagnostic_id = diagnostic_id f.rule task.agent_id task.task.task_id;
    rule = f.rule;
    severity = f.severity;
    agent_id = task.agent_id;
    goal_id = task.task.goal_id;
    task_id = some task.task.task_id;
    summary = f.summary;
    explanation = f.explanation;
    recommended_action = some f.recommended_action;
    source_event_ids = facts.source_event_ids;
    source_events_retained = is_retained facts.source_event_ids;
  }

-- Worse diagnostics come first.
unfoldable pub severity_order : Diagnostic → Diagnostic → Ordering
severity_order left right =
    then_with (compare (severity_rank right.severity) (severity_rank left.severity))
      (compare_text left.diagnostic_id right.diagnostic_id)
