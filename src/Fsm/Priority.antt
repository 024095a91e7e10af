-- ===== src/Fsm/Priority.antt =====
-- What each verdict of the classifier (src/fsm.rs) stands for.
use multi_agent_orchestrator.Prelude.{
  ℕ, Bool, ◌≡◌, ◌≢◌, ◌⊎◌, ◌↔◌, ◌≤◌, inl, inr, true, false, Option, none, some, arith, leb,
  map_option, unwrap_or,
}
use multi_agent_orchestrator.Constants.{hang_confirm_sec}
use multi_agent_orchestrator.Time.{seconds_since}
use multi_agent_orchestrator.Snapshot.{
  ProbeSnapshot, hang_confirmed, grace_active, final_result_boundary_reached,
}
use multi_agent_orchestrator.State.{AttemptState}
use multi_agent_orchestrator.Fsm.{classify}

-- Work has been silent for the confirmation time.
abbrev pub WorkStale : Option ℕ → ℕ → Type 0
WorkStale none now = ⊥
WorkStale (some t) now = hang_confirm_sec ≤ seconds_since now t

WorkStale-iff :
    (ts : Option ℕ) (now : ℕ)
    → (unwrap_or false (map_option (λ t. leb hang_confirm_sec (seconds_since now t)) ts) ≡ true)
      ↔ WorkStale ts now
WorkStale-iff none now = (λ h. cc, λ h. absurd h)
WorkStale-iff (some t) now = (λ h. ground arith, λ h. ground arith)

hang_confirmed_iff :
    (s : ProbeSnapshot) (now : ℕ)
    → (hang_confirmed s now ≡ true)
      ↔ ((s.process_alive ≡ true) × WorkStale s.last_work_signal_ts now × (s.provider_stale ≡ true))
unfolding hang_confirmed
hang_confirmed_iff s now =
    let (to, from) = WorkStale-iff s.last_work_signal_ts now in
    (
      λ h. (ground arith, to (ground arith), ground arith),
      λ (alive, stale, log). rw (alive, from stale, log),
    )

-- What no verdict of higher priority than a hang leaves room for.
abbrev pub NothingBefore : ProbeSnapshot → ℕ → Type 0
NothingBefore s now =
    (s.cancelled ≡ false)
    × (s.provider_error ≡ none)
    × (s.success_contract ≡ false)
    × (s.soft_success_contract ≡ false)
    × (grace_active s.grace_deadline now ≡ false)
    × ((s.protocol_invalid ≡ false) ⊎ (s.grace_deadline ≡ none))

confirmed_by :
    (s : ProbeSnapshot) (now : ℕ)
    → (classify s now ≡ AttemptState.hang_confirmed) ↔ (
        NothingBefore s now
        × (s.process_exited ≡ false)
        × ((hang_confirmed s now ≡ true)
            ⊎ ((s.hang_max_with_work_signals_exceeded ≡ true) × (s.provider_stale ≡ true))))
unfolding classify final_result_boundary_reached
confirmed_by s now = (λ h. ground arith, λ h. ground arith)

-- A hang is confirmed exactly when nothing of higher priority holds, no grace period is active, the
-- process is not known to have exited, its provider log is stale, and either the process is alive
-- and its last work signal is at least 420 seconds old, or the ceiling on the attempt's age is
-- exceeded. Invalid output stands in the way only where a grace period has run out.
pub classify-hang_confirmed_iff :
    (s : ProbeSnapshot) (now : ℕ)
    → (classify s now ≡ AttemptState.hang_confirmed) ↔ (
        NothingBefore s now
        × (s.process_exited ≡ false)
        × (s.provider_stale ≡ true)
        × (((s.process_alive ≡ true) × WorkStale s.last_work_signal_ts now)
            ⊎ (s.hang_max_with_work_signals_exceeded ≡ true)))
classify-hang_confirmed_iff s now = (
  λ h.
      let (before, running, why) = (confirmed_by s now).0 h in
      (
        before,
        running,
        elim why [ inl c ↦ ((hang_confirmed_iff s now).0 c).2 | inr c ↦ c.1 ],
        elim why [
          | inl c ↦ inl (((hang_confirmed_iff s now).0 c).0, ((hang_confirmed_iff s now).0 c).1)
          | inr c ↦ inr c.0
        ],
      ),
  λ (before, running, log, why). (confirmed_by s now).1 (
    before,
    running,
    elim why [ inl c ↦ inl ((hang_confirmed_iff s now).1 (c.0, c.1, log)) | inr c ↦ inr (c, log) ],
  ),
)

-- Silence is a failure exactly when the process has exited with a stale provider log and no active
-- grace period, nothing of higher priority holds, and the protocol check passed.
pub classify-failed_silent_iff :
    (s : ProbeSnapshot) (now : ℕ)
    → (classify s now ≡ AttemptState.failed_silent) ↔ (
        (s.cancelled ≡ false)
        × (s.provider_error ≡ none)
        × (s.success_contract ≡ false)
        × (s.soft_success_contract ≡ false)
        × (s.protocol_invalid ≡ false)
        × (grace_active s.grace_deadline now ≡ false)
        × (s.process_exited ≡ true)
        × (s.provider_activity_after_exit_is_fresh ≡ false))
unfolding classify hang_confirmed final_result_boundary_reached
classify-failed_silent_iff s now = (λ h. ground arith, λ h. ground arith)

-- The verdict is a failed protocol exactly when the output is invalid and the boundary of the
-- final result is reached, without success, provider error or cancellation.
pub classify-failed_protocol_iff :
    (s : ProbeSnapshot) (now : ℕ)
    → (classify s now ≡ AttemptState.failed_protocol) ↔ (
        (s.cancelled ≡ false)
        × (s.provider_error ≡ none)
        × (s.success_contract ≡ false)
        × (s.soft_success_contract ≡ false)
        × (s.protocol_invalid ≡ true)
        × (final_result_boundary_reached s now ≡ true))
unfolding classify
classify-failed_protocol_iff s now = (λ h. ground arith, λ h. ground arith)

-- The states that routing assigns later are never a verdict of the classifier.
pub classify_range :
    (s : ProbeSnapshot) (now : ℕ)
    → (classify s now ≢ AttemptState.dispatching)
      × (classify s now ≢ AttemptState.terminating_stale)
      × (classify s now ≢ AttemptState.retry_pending)
      × (classify s now ≢ AttemptState.retry_exhausted)
unfolding classify
classify_range s now = (λ h. ground arith, λ h. ground arith, λ h. ground arith, λ h. ground arith)

-- The verdicts on which the monitor leaves its loop.
abbrev pub is_decisive : AttemptState → Bool
is_decisive AttemptState.running = false
is_decisive AttemptState.waiting_output = false
is_decisive AttemptState.finalizing = false
is_decisive AttemptState.unknown = false
is_decisive _ = true

-- Past the ceiling on its age, an attempt whose provider log is stale, so that the probe does not
-- count it as fresh, and that has no active grace period gets a verdict that ends the monitoring.
pub classify_decides :
    (s : ProbeSnapshot) (now : ℕ)
    → s.hang_max_with_work_signals_exceeded ≡ true
    → s.provider_stale ≡ true
    → s.provider_activity_after_exit_is_fresh ≡ false
    → grace_active s.grace_deadline now ≡ false
    → is_decisive (classify s now) ≡ true
unfolding classify
classify_decides s now a b c d = ground arith

-- Whether work was seen in the probe itself plays no part in the verdict of a hang.
pub classify-hang_ignores_work :
    (s : ProbeSnapshot) (now : ℕ) (changed : Bool)
    → classify s now ≡ AttemptState.hang_confirmed
    → classify (record s { work_signals_changed = changed }) now ≡ AttemptState.hang_confirmed
unfolding classify hang_confirmed final_result_boundary_reached
classify-hang_ignores_work s now changed h = ground arith
