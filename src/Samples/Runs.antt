-- ===== src/Samples/Runs.antt =====
-- The theorems on whole runs, at a run that succeeds in its first round.
use multi_agent_orchestrator.Run.Report.{ReportsAccept, build_report, run-ReportsAccept}
use multi_agent_orchestrator.Report.{is_success, reason_code_for_state}
use multi_agent_orchestrator.Prelude.{ap}
use multi_agent_orchestrator.Prelude.{◌≡◌, ◌≢◌, refl, ◌≤◌}
use multi_agent_orchestrator.State.{RunState, is_terminal}
use multi_agent_orchestrator.Env.{run_git}
use multi_agent_orchestrator.Context.{OrchestratorCtx, new}
use multi_agent_orchestrator.Context.Exec.{◌>>=◌, pure, lift, gets, modify, emit, require, when}
use multi_agent_orchestrator.Git.{collect_set, status_lines, trimmed_lines, difference}
use multi_agent_orchestrator.Fsm.{classify}
use multi_agent_orchestrator.Signals.{
  first_matching_pattern, match_class, classify_provider_error_with_match,
}
use multi_agent_orchestrator.Review.{
  prescan_reviewer_yaml, validate_decision, validate_reviewer_yaml, deserialize,
  parse_reviewer_yaml,
}
use multi_agent_orchestrator.Prelude.Text.{trim, lines, contains}
use multi_agent_orchestrator.Prelude.Float.{le_f64, lt_f64}
use multi_agent_orchestrator.Phases.Inputs.{validate_model_option, validate_inputs}
use multi_agent_orchestrator.Phases.GitState.{
  find_lock_file, validate_git_worktree, canonicalize_existing_path, validate_git_top_level,
  resolve_git_path, check_absent, validate_no_git_locks, validate_no_git_operation_in_progress,
  validate_no_unmerged_index, current_branch_name, current_head_required,
}
use multi_agent_orchestrator.Phases.Start.{do_context_prep, do_session_bind}
use multi_agent_orchestrator.Phases.Request.{
  build_template_values, reset_attempt_git_telemetry, capture_baseline, new_attempt,
  prepare_request,
}
use multi_agent_orchestrator.Phases.Dispatch.{
  dispatch_role, do_executor_dispatch, do_reviewer_dispatch,
}
use multi_agent_orchestrator.Phases.Collect.{
  collect_artifacts, do_executor_output_collect, do_orch_verify,
}
use multi_agent_orchestrator.Phases.Verdict.{
  enforce_reviewer_notion_policy, dirty_from, reviewer_workspace_dirty_lines,
  reviewer_workspace_dirty_reason,
}
use multi_agent_orchestrator.Phases.Gate.{
  take_verdict, check_workspace, snapshot_reviewer_outbox, read_verdict, collect_verdict,
  do_reviewer_output_collect, quality_gate, do_quality_gate,
}
use multi_agent_orchestrator.Monitor.Probe.{note_exit, git_committed, persist_baselines}
use multi_agent_orchestrator.Monitor.Contract.{
  check_success_contract, update_grace_periods, detect_provider_error, build_snapshot,
}
use multi_agent_orchestrator.Monitor.Observe.{note_action, after_probe}
use multi_agent_orchestrator.Monitor.Route.{route}
use multi_agent_orchestrator.Monitor.Loop.{
  unwrap, note_commits, refreshed, read_provider_diagnostics, observe, probe, round, do_monitor,
}
use multi_agent_orchestrator.Run.{Outcome, step_at, step, check_cancel, run_loop, run}
use multi_agent_orchestrator.Constants.{consecutive_failure_limit}
use multi_agent_orchestrator.Run.Accepted.{Accepts, run-Accepts}
use multi_agent_orchestrator.Run.Failures.{run-failure_limit}
use multi_agent_orchestrator.Run.Unreached.{run-no_access}
use multi_agent_orchestrator.Samples.{sample_run, sample_args}

abbrev sample_end : OrchestratorCtx
sample_end = (run sample_run sample_args).1

sample_run-finished :
    (run sample_run sample_args ≡ (Outcome.finished, sample_end))
    × (sample_end.run_state ≡ RunState.run_done)
unfolding is_terminal run_git new ◌>>=◌ pure lift gets modify emit require when collect_set
    status_lines trimmed_lines difference classify first_matching_pattern match_class
    classify_provider_error_with_match prescan_reviewer_yaml validate_decision
    validate_reviewer_yaml deserialize parse_reviewer_yaml trim lines contains le_f64 lt_f64
    validate_model_option validate_inputs find_lock_file validate_git_worktree
    canonicalize_existing_path validate_git_top_level resolve_git_path check_absent
    validate_no_git_locks validate_no_git_operation_in_progress validate_no_unmerged_index
    current_branch_name current_head_required do_context_prep do_session_bind build_template_values
    reset_attempt_git_telemetry capture_baseline new_attempt prepare_request dispatch_role
    do_executor_dispatch do_reviewer_dispatch collect_artifacts do_executor_output_collect
    do_orch_verify enforce_reviewer_notion_policy dirty_from reviewer_workspace_dirty_lines
    reviewer_workspace_dirty_reason take_verdict check_workspace snapshot_reviewer_outbox
    read_verdict collect_verdict do_reviewer_output_collect quality_gate do_quality_gate note_exit
    git_committed persist_baselines check_success_contract update_grace_periods
    detect_provider_error build_snapshot note_action after_probe route unwrap note_commits refreshed
    read_provider_diagnostics observe probe round do_monitor step_at step check_cancel run_loop run
sample_run-finished = (refl, refl)

run-Accepts_example : Accepts sample_end.args sample_end.review_result
run-Accepts_example =
    run-Accepts sample_run sample_args sample_end sample_run-finished.0 sample_run-finished.1

run-failure_limit_example :
    (sample_end.consecutive_failure_count ≤ consecutive_failure_limit)
    × (sample_end.run_state ≡ RunState.run_failed_consecutive_failure_limit
        → sample_end.consecutive_failure_count ≡ consecutive_failure_limit)
run-failure_limit_example =
    run-failure_limit sample_run sample_args sample_end sample_run-finished.0

run-no_access_example : sample_end.run_state ≢ RunState.run_failed_provider_access
run-no_access_example = run-no_access sample_run sample_args sample_end sample_run-finished.0

run-ReportsAccept_example : ReportsAccept (build_report sample_end)
unfolding build_report is_success reason_code_for_state
run-ReportsAccept_example =
    run-ReportsAccept sample_run sample_args sample_end sample_run-finished.0
      (ap (λ s. is_success (reason_code_for_state s)) sample_run-finished.1)
