-- ===== src/Monitor/Route.antt =====
-- src/orchestrator/monitor.rs, the routing of a verdict.
use multi_agent_orchestrator.Prelude.{
  ℕ, Bool, true, false, ◌&&◌, Option, none, some, String, [], ◌∷◌, is_some, leb, map_option,
  unwrap_or,
}
use multi_agent_orchestrator.Prelude.Show.{format}
use multi_agent_orchestrator.Constants.{outbox_finalizing_kill_sec}
use multi_agent_orchestrator.Time.{after}
use multi_agent_orchestrator.State.{
  AgentRole, executor, reviewer, AttemptState, RunState, class_debug,
}
use multi_agent_orchestrator.Signals.{ProviderErrorMatch}
use multi_agent_orchestrator.Context.{AttemptStateData, OrchestratorCtx, stop_child}
use multi_agent_orchestrator.Context.Exec.{
  Exec, ◌>>=◌, ◌>>◌, pure, gets, modify, emit, when, push_failure,
}
use multi_agent_orchestrator.Phases.Retry.{count_failure, update_attempt, set_attempt_state}
use multi_agent_orchestrator.Monitor.Probe.{ProbeSignals}
use multi_agent_orchestrator.Monitor.Contract.{outbox_written, soft_success_allowed}

-- A child that was spawned is sent SIGTERM, and SIGKILL after `CANCEL_CHILD_WAIT_SEC`.
unfoldable pub terminate_active_child : Exec (Unit {0})
terminate_active_child = do
  spawned ← gets (λ c. is_some c.active_process)
  when spawned (emit stop_child)

abbrev pub release_lock : AgentRole → OrchestratorCtx → OrchestratorCtx
release_lock executor c = record c { executor_lock = false }
release_lock reviewer c = record c { reviewer_lock = false }

abbrev pub set_run_state : RunState → OrchestratorCtx → OrchestratorCtx
set_run_state s c = record c { run_state = s }

abbrev pub collect_state : AgentRole → RunState
collect_state executor = RunState.executor_output_collect
collect_state reviewer = RunState.reviewer_output_collect

-- An attempt that has ended with output, if the workflow allows its route.
abbrev pub finish_attempt : AgentRole → Bool → OrchestratorCtx → OrchestratorCtx
finish_attempt role true c = set_run_state (collect_state role) (release_lock role c)
finish_attempt role false c =
    push_failure "soft_success not allowed for this workflow/artifact state"
      (set_run_state RunState.run_failed_protocol c)

abbrev access_failure : Option ProviderErrorMatch → String
access_failure (some m) = format (
    "provider access error: class="
    ∷ class_debug m.error_class
    ∷ " pattern="
    ∷ m.matched_pattern
    ∷ " fragment="
    ∷ m.fragment
    ∷ [])
access_failure none = "provider access error: matched by classifier (pattern/fragment unavailable)"

-- A failure that is retried.
abbrev pub fail_attempt : AgentRole → OrchestratorCtx → OrchestratorCtx
fail_attempt role c =
    set_run_state RunState.round_retry_decide (count_failure (release_lock role c))

-- The outbox was written in this attempt and the time for the process to exit is over.
unfoldable pub finalizing_over : AttemptStateData → ProbeSignals → ℕ → Bool
finalizing_over a s now = unwrap_or false (
    map_option
      (λ m. leb a.dispatch_ts m.mtime && leb (after m.mtime outbox_finalizing_kill_sec) now)
      s.outbox_meta)

-- Whether the monitor returns: `true` on each `return Ok(())`, `false` where it loops.
unfoldable pub route :
    AgentRole
    → AttemptStateData
    → ProbeSignals
    → Option ProviderErrorMatch
    → ℕ
    → AttemptState
    → Exec Bool
unfolding terminate_active_child
route role a s error now AttemptState.success = do
  modify λ c. finish_attempt role true (record c { outbox_present = outbox_written s })
  pure true
route role a s error now AttemptState.soft_success = do
  modify λ c.
      finish_attempt role (soft_success_allowed c.args.workflow_type c.artifact_map)
        (record c { outbox_present = outbox_written s })
  pure true
route role a s error now AttemptState.failed_service_cap = do
  modify (λ c. set_run_state RunState.run_failed_service_cap (release_lock role c))
  pure true
route role a s error now AttemptState.failed_provider_access = do
  modify λ c.
      set_run_state RunState.run_failed_provider_access
        (push_failure (access_failure error) (release_lock role c))
  pure true
route role a s error now AttemptState.failed_transport = do modify (fail_attempt role); pure true
route role a s error now AttemptState.failed_silent = do modify (fail_attempt role); pure true
route role a s error now AttemptState.failed_protocol = do modify (fail_attempt role); pure true
route role a s error now AttemptState.hang_confirmed = do
  modify (set_attempt_state AttemptState.terminating_stale)
  terminate_active_child
  modify (fail_attempt role)
  pure true
route role a s error now AttemptState.finalizing = do
  when (finalizing_over a s now)
      do terminate_active_child; modify (update_attempt (λ b. record b { pid = none }))
  pure false
route role a s error now AttemptState.cancelled = do
  terminate_active_child
  modify (λ c. set_run_state RunState.run_aborted (release_lock role c))
  pure true
route role a s error now _ = pure false
