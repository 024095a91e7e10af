-- ===== src/Snapshot.antt =====
-- src/state.rs, `ProbeSnapshot`: the signals of one probe that the classifier reads.
use multi_agent_orchestrator.Prelude.{
  ℕ, Bool, true, false, not, ◌&&◌, Option, none, some, ltb, leb, if◌then◌else◌, map_option,
  unwrap_or,
}
use multi_agent_orchestrator.Constants.{hang_confirm_sec}
use multi_agent_orchestrator.State.{ProviderErrorClass}
use multi_agent_orchestrator.Time.{seconds_since}

pub record ProbeSnapshot : Type 0 where
  pub cancelled : Bool
  pub process_exited : Bool
  pub process_alive : Bool
  pub outbox_present : Bool
  pub provider_error : Option ProviderErrorClass
  pub success_contract : Bool
  pub soft_success_contract : Bool
  pub protocol_invalid : Bool
  pub provider_activity_after_exit_is_fresh : Bool
  pub work_signals_changed : Bool
  pub last_work_signal_ts : Option ℕ
  pub provider_stale : Bool
  pub grace_deadline : Option ℕ
  pub hang_max_with_work_signals_exceeded : Bool

unfoldable pub hang_confirmed : ProbeSnapshot → ℕ → Bool
hang_confirmed s now =
    s.process_alive
    && unwrap_or false
        (map_option (λ t. leb hang_confirm_sec (seconds_since now t)) s.last_work_signal_ts)
    && s.provider_stale

-- The last test, on a deadline that is not in the future, by the deadline.
abbrev deadline_passed : Option ℕ → ℕ → Bool
deadline_passed none now = false
deadline_passed (some deadline) now = leb deadline now

abbrev pub grace_active : Option ℕ → ℕ → Bool
grace_active none now = false
grace_active (some deadline) now = ltb now deadline

unfoldable pub final_result_boundary_reached : ProbeSnapshot → ℕ → Bool
final_result_boundary_reached s now =
    if grace_active s.grace_deadline now
    then false
    else if s.process_exited && not s.provider_activity_after_exit_is_fresh
    then true
    else deadline_passed s.grace_deadline now
