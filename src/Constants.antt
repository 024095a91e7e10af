-- ===== src/Constants.antt =====
-- src/constants.rs: the timing and policy constants. Seconds, bytes and counts are numbers.
use multi_agent_orchestrator.Prelude.{ℕ}
use multi_agent_orchestrator.Prelude.Float.{F64, of_ℕ}

abbrev pub probe_interval_sec : ℕ
probe_interval_sec = 1

abbrev pub heartbeat_interval_sec : ℕ
heartbeat_interval_sec = 300

abbrev pub hang_confirm_sec : ℕ
hang_confirm_sec = 420

abbrev pub hang_max_with_work_signals_sec : ℕ
hang_max_with_work_signals_sec = 2400

abbrev pub commit_grace_sec : ℕ
commit_grace_sec = 180

abbrev pub outbox_grace_sec : ℕ
outbox_grace_sec = 180

abbrev pub outbox_finalizing_kill_sec : ℕ
outbox_finalizing_kill_sec = 60

abbrev pub consecutive_failure_limit : ℕ
consecutive_failure_limit = 5

abbrev pub min_accept_score : F64
min_accept_score = of_ℕ 8

abbrev pub phase_separator_wait_sec : ℕ
phase_separator_wait_sec = 5
