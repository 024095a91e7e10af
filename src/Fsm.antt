-- ===== src/Fsm.antt =====
-- src/fsm.rs: the classifier of one probe.
pub mod Priority
use multi_agent_orchestrator.Prelude.{
  ℕ, Bool, true, false, ◌&&◌, Option, none, some, if◌then◌else◌, map_option, unwrap_or,
}
use multi_agent_orchestrator.Snapshot.{
  ProbeSnapshot, hang_confirmed, grace_active, final_result_boundary_reached,
}
use multi_agent_orchestrator.State.{
  AttemptState, ProviderErrorClass, service_cap, permission, auth, transport,
}

-- The `matches!` tests.
abbrev pub is_service_cap : ProviderErrorClass → Bool
is_service_cap service_cap = true
is_service_cap _ = false

abbrev pub is_access : ProviderErrorClass → Bool
is_access permission = true
is_access auth = true
is_access _ = false

abbrev pub is_transport : ProviderErrorClass → Bool
is_transport transport = true
is_transport _ = false

abbrev pub error_is : (ProviderErrorClass → Bool) → Option ProviderErrorClass → Bool
error_is test e = unwrap_or false (map_option test e)

unfoldable pub classify : ProbeSnapshot → ℕ → AttemptState
classify s now =
    if s.cancelled
    then AttemptState.cancelled
    else if error_is is_service_cap s.provider_error
    then AttemptState.failed_service_cap
    else if error_is is_access s.provider_error
    then AttemptState.failed_provider_access
    else if error_is is_transport s.provider_error
    then AttemptState.failed_transport
    else if s.success_contract
    then AttemptState.success
    else if s.soft_success_contract
    then AttemptState.soft_success
    else if s.protocol_invalid && final_result_boundary_reached s now
    then AttemptState.failed_protocol
    else if grace_active s.grace_deadline now
    then AttemptState.waiting_output
    else if s.process_exited && s.provider_activity_after_exit_is_fresh
    then AttemptState.waiting_output
    else if s.process_exited
    then AttemptState.failed_silent
    else if hang_confirmed s now
    then AttemptState.hang_confirmed
    else if s.hang_max_with_work_signals_exceeded && s.provider_stale
    then AttemptState.hang_confirmed
    else if s.process_alive && s.outbox_present
    then AttemptState.finalizing
    else if s.work_signals_changed
    then AttemptState.running
    else if s.process_alive
    then AttemptState.waiting_output
    else AttemptState.unknown
