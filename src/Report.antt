-- ===== src/Report.antt =====
-- src/report.rs: the reason codes of the final report, and main.rs's exit status.
pub mod Codes
use multi_agent_orchestrator.Prelude.{ℕ, Bool, true, false, if◌then◌else◌}
use multi_agent_orchestrator.State
use multi_agent_orchestrator.State.{RunState}

pub data ReasonCode : Type 0 where
  done_quality_reached stopped_irreconcilable_disagreement stopped_service_cap : ReasonCode
  stopped_provider_access stopped_poisoned_session stopped_session_locked : ReasonCode
  stopped_consecutive_failure_limit stopped_external_blocker stopped_dirty_worktree : ReasonCode
  failed_session_bind failed_invalid_input failed_protocol cancelled_by_operator : ReasonCode
  internal_error : ReasonCode

unfoldable pub is_success : ReasonCode → Bool
is_success done_quality_reached = true
is_success _ = false

unfoldable pub reason_code_for_state : RunState → ReasonCode
reason_code_for_state RunState.run_done = done_quality_reached
reason_code_for_state RunState.run_aborted = cancelled_by_operator
reason_code_for_state RunState.run_failed_invalid_input = failed_invalid_input
reason_code_for_state RunState.run_failed_dirty_worktree = stopped_dirty_worktree
reason_code_for_state RunState.run_failed_session_bind = failed_session_bind
reason_code_for_state RunState.run_failed_service_cap = stopped_service_cap
reason_code_for_state RunState.run_failed_provider_access = stopped_provider_access
reason_code_for_state RunState.run_failed_consecutive_failure_limit =
    stopped_consecutive_failure_limit
reason_code_for_state RunState.run_failed_external_blocker = stopped_external_blocker
reason_code_for_state RunState.run_failed_irreconcilable_disagreement =
    stopped_irreconcilable_disagreement
reason_code_for_state RunState.run_failed_poisoned_session = stopped_poisoned_session
reason_code_for_state RunState.run_failed_protocol = failed_protocol
reason_code_for_state RunState.run_failed_session_locked = stopped_session_locked
reason_code_for_state RunState.run_failed_internal = internal_error
reason_code_for_state _ = internal_error
