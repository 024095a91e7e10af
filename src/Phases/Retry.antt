-- ===== src/Phases/Retry.antt =====
-- src/orchestrator/phases.rs, ROUND_RETRY_DECIDE, and the failure count.
use multi_agent_orchestrator.Prelude.{
  ◌+◌, ◌%◌, ◌^◌, [], ◌∷◌, leb, if◌then◌else◌, map_option, unwrap_or,
}
use multi_agent_orchestrator.Prelude.Show.{format, show}
use multi_agent_orchestrator.Constants.{consecutive_failure_limit}
use multi_agent_orchestrator.State.{AgentRole, executor, reviewer, RunState, AttemptState}
use multi_agent_orchestrator.Context.{AttemptStateData, OrchestratorCtx}
use multi_agent_orchestrator.Context.Exec.{Exec, modify, push_failure}

-- `consecutive_failure_count += 1`, on `u32`
unfoldable pub count_failure : OrchestratorCtx → OrchestratorCtx
count_failure c = record c {
  consecutive_failure_count = (c.consecutive_failure_count + 1) % 2 ^ 32;
}

-- `if let Some(attempt) = ctx.attempt.as_mut() { attempt.state = s }`
abbrev pub update_attempt :
    (AttemptStateData → AttemptStateData) → OrchestratorCtx → OrchestratorCtx
update_attempt f c = record c { attempt = map_option f c.attempt }

abbrev pub set_attempt_state : AttemptState → OrchestratorCtx → OrchestratorCtx
set_attempt_state s = update_attempt (λ a. record a { state = s })

abbrev pub dispatch_state : AgentRole → RunState
dispatch_state executor = RunState.executor_dispatch
dispatch_state reviewer = RunState.reviewer_dispatch

abbrev pub retries_exhausted : OrchestratorCtx → OrchestratorCtx
retries_exhausted c =
    push_failure
      (format (
        "consecutive failure limit reached ("
        ∷ show c.consecutive_failure_count
        ∷ "/"
        ∷ show consecutive_failure_limit
        ∷ ")"
        ∷ []))
      (record (set_attempt_state AttemptState.retry_exhausted c) {
        run_state = RunState.run_failed_consecutive_failure_limit;
      })

-- The attempt is made again in the role that failed.
abbrev pub retry_again : OrchestratorCtx → OrchestratorCtx
retry_again c = record (set_attempt_state AttemptState.retry_pending c) {
  run_state = dispatch_state (unwrap_or executor c.current_role);
}

-- The function's body, which cannot fail.
unfoldable pub round_retry_decide : OrchestratorCtx → OrchestratorCtx
round_retry_decide c =
    if leb consecutive_failure_limit c.consecutive_failure_count
    then retries_exhausted c
    else retry_again c

unfoldable pub do_round_retry_decide : Exec (Unit {0})
do_round_retry_decide = modify round_retry_decide
