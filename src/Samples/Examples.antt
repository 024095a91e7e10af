-- ===== src/Samples/Examples.antt =====
-- The theorems on single steps, probes and texts at small concrete data.
use multi_agent_orchestrator.Prelude.{
  ◌≡◌, refl, ◌≢◌, ◌⊎◌, inl, ◌<◌, arith, true, false, List, [], ◌∷◌, none, some,
}
use multi_agent_orchestrator.State.{RunState, AttemptState, is_terminal}
use multi_agent_orchestrator.Errors.{ok, is_ok}
use multi_agent_orchestrator.Context.{OrchestratorCtx, new}
use multi_agent_orchestrator.Context.Triple.{Ends}
use multi_agent_orchestrator.Samples.{sample_args, sample_step, sample_yaml, sample_verdict}
use multi_agent_orchestrator.Run.{step, step_at}
use multi_agent_orchestrator.Run.Core.{core, Stopped}
use multi_agent_orchestrator.Run.Steps.{AfterStep, step-Moved}
use multi_agent_orchestrator.Run.Failures.{Bounded}
use multi_agent_orchestrator.Run.Progress.{budget, step-progress}
use multi_agent_orchestrator.Context.Exec.{◌>>=◌, continue, modify, pure}
use multi_agent_orchestrator.Phases.Collect.{do_orch_verify}
use multi_agent_orchestrator.Prelude.Float.{le_f64, lt_f64}
use multi_agent_orchestrator.Prelude.Text.{trim, trim_start, is_whitespace, contains, starts_with}
use multi_agent_orchestrator.Review.{
  validate_reviewer_yaml, validate_decision, prescan_reviewer_yaml, deserialize,
  parse_reviewer_yaml,
}
use multi_agent_orchestrator.Review.Valid.{IsValid, validate_iff, parse_iff}
use multi_agent_orchestrator.Snapshot.{ProbeSnapshot, hang_confirmed, final_result_boundary_reached}
use multi_agent_orchestrator.Fsm.{classify}
use multi_agent_orchestrator.Fsm.Priority.{
  WorkStale, NothingBefore, is_decisive, classify-hang_confirmed_iff, classify-hang_ignores_work,
  classify-failed_silent_iff, classify-failed_protocol_iff, classify_decides,
}
use multi_agent_orchestrator.Grace.{apply_grace_transitions}
use multi_agent_orchestrator.Grace.Windows.{
  Sight, OnePeriod, grace_run, windows, first_committed, first_dirty, grace_run-windows,
  grace-OnePeriod,
}

abbrev at_verify : OrchestratorCtx
at_verify = record (new sample_args) { run_state = RunState.orch_verify }

step-Moved_example :
    Ends
      (AfterStep at_verify.run_state (core at_verify))
      (λ d. Stopped (core at_verify) (core d))
      (step sample_step at_verify).0
      (step sample_step at_verify).1
step-Moved_example = step-Moved sample_step at_verify

sample_step-returns :
    (is_terminal at_verify.run_state ≡ false)
    × (at_verify.run_state ≢ RunState.run_init)
    × Bounded at_verify.run_state at_verify.consecutive_failure_count
    × ((step sample_step at_verify).0 ≡ ok true)
    × ((step sample_step at_verify).1.run_state ≢ RunState.round_feedback_prep)
unfolding new is_terminal step step_at do_orch_verify ◌>>=◌ continue modify pure
sample_step-returns = (refl, λ e. cc, omega arith, refl, λ e. cc)

step-progress_example :
    budget
      (step sample_step at_verify).1.run_state
      (step sample_step at_verify).1.consecutive_failure_count
    < budget at_verify.run_state at_verify.consecutive_failure_count
step-progress_example =
    step-progress sample_step at_verify sample_step-returns.0 sample_step-returns.1
      sample_step-returns.2 sample_step-returns.3 sample_step-returns.4

validate_iff_example : IsValid sample_verdict
unfolding validate_reviewer_yaml validate_decision le_f64 lt_f64 trim trim_start is_whitespace
validate_iff_example = (validate_iff sample_yaml sample_verdict).0 refl

parse_iff_example :
    (is_ok (prescan_reviewer_yaml sample_yaml "ok") ≡ true)
    × (sample_yaml.from_str "ok" ≡ inl sample_verdict)
    × IsValid sample_verdict
unfolding parse_reviewer_yaml prescan_reviewer_yaml deserialize validate_reviewer_yaml
    validate_decision le_f64 lt_f64 trim trim_start is_whitespace contains starts_with
parse_iff_example = (parse_iff sample_yaml "ok" sample_verdict).0 refl

-- A process that runs on without any sign of work.
abbrev hung : ProbeSnapshot
hung = record {
  cancelled = false;
  process_exited = false;
  process_alive = true;
  outbox_present = false;
  provider_error = none;
  success_contract = false;
  soft_success_contract = false;
  protocol_invalid = false;
  provider_activity_after_exit_is_fresh = false;
  work_signals_changed = false;
  last_work_signal_ts = some 100;
  provider_stale = true;
  grace_deadline = none;
  hang_max_with_work_signals_exceeded = true;
}

abbrev silent : ProbeSnapshot
silent = record hung { process_exited = true; process_alive = false }

classify-hang_confirmed_iff_example :
    NothingBefore hung 600
    × (hung.process_exited ≡ false)
    × (hung.provider_stale ≡ true)
    × (((hung.process_alive ≡ true) × WorkStale hung.last_work_signal_ts 600)
        ⊎ (hung.hang_max_with_work_signals_exceeded ≡ true))
unfolding classify hang_confirmed final_result_boundary_reached
classify-hang_confirmed_iff_example = (classify-hang_confirmed_iff hung 600).0 refl

classify-hang_ignores_work_example :
    classify (record hung { work_signals_changed = true }) 600 ≡ AttemptState.hang_confirmed
unfolding classify hang_confirmed final_result_boundary_reached
classify-hang_ignores_work_example = classify-hang_ignores_work hung 600 true refl

classify-failed_silent_iff_example : classify silent 600 ≡ AttemptState.failed_silent
classify-failed_silent_iff_example =
    (classify-failed_silent_iff silent 600).1 (refl, refl, refl, refl, refl, refl, refl, refl)

classify-failed_protocol_iff_example :
    classify (record silent { protocol_invalid = true }) 600 ≡ AttemptState.failed_protocol
unfolding final_result_boundary_reached
classify-failed_protocol_iff_example =
    (classify-failed_protocol_iff (record silent { protocol_invalid = true }) 600).1
      (refl, refl, refl, refl, refl, refl)

classify_decides_example : is_decisive (classify hung 3000) ≡ true
classify_decides_example = classify_decides hung 3000 refl refl refl refl

-- A probe of a dirty worktree, and one that saw a commit.
abbrev seen : List Sight
seen = (true, false, 100) ∷ (true, false, 110) ∷ (true, true, 120) ∷ []

grace_run-windows_example :
    grace_run (none, none) seen ≡ windows (first_committed seen) (first_dirty seen)
grace_run-windows_example = grace_run-windows seen

grace-OnePeriod_example : OnePeriod (apply_grace_transitions true true false (some 280, none) 120)
grace-OnePeriod_example = grace-OnePeriod true true false (some 280, none) 120 tt
