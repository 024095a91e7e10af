-- ===== src/Samples/Attempts.antt =====
-- The theorems on attempts, reviews and names at small concrete data.
use multi_agent_orchestrator.Prelude.{arith, ◌≡◌, refl, true, [], ◌∷◌, none, some, inl, inr}
use multi_agent_orchestrator.Prelude.Text.{
  lines, trim, trim_start, is_whitespace, byte_len, drop_bytes,
}
use multi_agent_orchestrator.Prelude.Map.{get}
use multi_agent_orchestrator.State.{
  RunState, AttemptState, implement, investigate, plan, reviewer, executor, workflow_of_str,
}
use multi_agent_orchestrator.State.Names.{workflow_of_str_iff}
use multi_agent_orchestrator.Context.{OrchestratorCtx, AttemptStateData, new}
use multi_agent_orchestrator.Fsm.{classify}
use multi_agent_orchestrator.Phases.Request.{
  new_attempt, capture_baseline, build_template_values, reset_attempt_git_telemetry,
  prepare_request,
}
use multi_agent_orchestrator.Phases.Dispatch.{dispatch_role}
use multi_agent_orchestrator.Phases.Start.{do_session_bind}
use multi_agent_orchestrator.Phases.Sessions.{Distinct, do_session_bind-Distinct}
use multi_agent_orchestrator.Phases.Order.{Dispatched, dispatch_role-Dispatched}
use multi_agent_orchestrator.Context.Exec.{
  ◌>>=◌, continue, pure, lift, gets, modify, emit, require, when,
}
use multi_agent_orchestrator.Env.{run_git}
use multi_agent_orchestrator.Phases.Verdict.{path_part, dirty_from, reviewer_workspace_dirty_lines}
use multi_agent_orchestrator.Phases.Workspace.{AllExpected, dirty_lines-AllExpected}
use multi_agent_orchestrator.Phases.Gate.{do_reviewer_output_collect}
use multi_agent_orchestrator.Phases.Passes.Enough.{do_reviewer_output_collect_iff}
use multi_agent_orchestrator.Monitor.Probe.{ProbeSignals}
use multi_agent_orchestrator.Monitor.Contract.{
  check_protocol_invalid, build_snapshot, soft_success_allowed, check_success_contract,
  check_soft_success_contract, soft_success_artifact,
}
use multi_agent_orchestrator.Monitor.Verdicts.{
  build_snapshot-soft_success, build_snapshot-success_iff,
}
use multi_agent_orchestrator.Errors.{ok}
use multi_agent_orchestrator.Samples.{
  sample_args, sample_probe, sample_signals, sample_verdict, sample_verdict_env, sample_dispatch,
  sample_step,
}

-- The attempt of a reviewer that has exited, and of an executor that left only a plan.
abbrev exited_attempt : AttemptStateData
exited_attempt = new_attempt reviewer 10 none "" (some 20) "" [] "h0"

abbrev planned_attempt : AttemptStateData
planned_attempt = record exited_attempt { grace_until_outbox = some 25 }

-- A reviewer that wrote its outbox again, and whose verdict is saved already.
abbrev at_collect : OrchestratorCtx
at_collect = record (new sample_args) {
  run_state = RunState.reviewer_output_collect;
  attempt = some (record exited_attempt { pre_reviewer_outbox_mtime = some 19 });
  review_result = some sample_verdict;
}

do_reviewer_output_collect_iff_example :
    ((do_reviewer_output_collect sample_verdict_env at_collect).0 ≡ ok tt)
    × ((do_reviewer_output_collect sample_verdict_env at_collect).1.run_state
        ≡ RunState.quality_gate)
unfolding new_attempt new lines run_git
do_reviewer_output_collect_iff_example =
    (do_reviewer_output_collect_iff sample_verdict_env at_collect).1
      ((some 20, refl, inr (λ e. ground arith)), (none, refl), inl refl, ("", refl, tt))

build_snapshot-success_iff_example :
    classify
      (build_snapshot sample_probe reviewer implement exited_attempt sample_signals true true none)
      sample_probe.now
    ≡ AttemptState.success
unfolding new_attempt
build_snapshot-success_iff_example =
    (build_snapshot-success_iff sample_probe reviewer implement exited_attempt sample_signals true
        true none).1
      (refl, refl, refl, ground arith)

abbrev plan_signals : ProbeSignals
plan_signals = record sample_signals { outbox_meta = none; artifact_map = ("PLAN.md", true) ∷ [] }

build_snapshot-soft_success_example : soft_success_allowed plan plan_signals.artifact_map ≡ true
unfolding new_attempt classify build_snapshot check_success_contract check_soft_success_contract
    soft_success_artifact check_protocol_invalid get
build_snapshot-soft_success_example =
    build_snapshot-soft_success sample_probe executor plan planned_attempt plan_signals true true
      none refl

dirty_lines-AllExpected_example : AllExpected (lines " M a") "out" (lines " M a\n?? out")
unfolding reviewer_workspace_dirty_lines dirty_from path_part lines trim trim_start is_whitespace
    byte_len drop_bytes
dirty_lines-AllExpected_example = (dirty_lines-AllExpected " M a" " M a\n?? out" "out").0 refl

workflow_of_str_iff_example : workflow_of_str "inv" ≡ some investigate
workflow_of_str_iff_example = (workflow_of_str_iff "inv" investigate).1 (inr (inl (refl, refl)))

-- A reviewer whose session is bound.
abbrev bound_reviewer : OrchestratorCtx
bound_reviewer = record (new sample_args) { reviewer_session_id = some "r" }

dispatch_role-Dispatched_example :
    Dispatched sample_dispatch reviewer bound_reviewer
      (dispatch_role sample_dispatch reviewer bound_reviewer).1
unfolding new dispatch_role prepare_request capture_baseline build_template_values ◌>>=◌ continue
    pure lift gets modify emit require when run_git reset_attempt_git_telemetry
dispatch_role-Dispatched_example =
    dispatch_role-Dispatched sample_dispatch reviewer bound_reviewer refl

do_session_bind-Distinct_example : Distinct (do_session_bind sample_step.bind (new sample_args)).1
unfolding new do_session_bind ◌>>=◌ continue lift gets modify emit when
do_session_bind-Distinct_example = do_session_bind-Distinct sample_step.bind (new sample_args) refl
