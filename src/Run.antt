-- ===== src/Run.antt =====
-- src/orchestrator/mod.rs: the main loop, one step of the state machine, and errors that end a run.
pub mod Core
pub mod Steps
pub mod Invariant
pub mod Progress
pub mod Unreached
pub mod Accepted
pub mod Failures
pub mod Moves
pub mod Report
use multi_agent_orchestrator.Prelude.{
  Bool, true, false, not, ◌&&◌, String, List, [], ◌∷◌, if◌then◌else◌,
}
use multi_agent_orchestrator.State.{executor, reviewer, RunState, is_terminal}
use multi_agent_orchestrator.Errors.{
  OrchestratorError, transport_reset_failed, io, json, yaml, command_failed, session_bind_failed,
  session_locked, invalid_input, dirty_worktree, artifact_contract, request_changed_abort_retry,
  error_text, Result, ok, err, panic,
}
use multi_agent_orchestrator.Context.{CliArgs, OrchestratorCtx, new}
use multi_agent_orchestrator.Context.Exec.{Exec, ◌>>=◌, ◌>>◌, pure, push_failure}
use multi_agent_orchestrator.Phases.Inputs.{InputsEnv, validate_inputs}
use multi_agent_orchestrator.Phases.GitState.{PrepEnv}
use multi_agent_orchestrator.Phases.Start.{BindEnv, do_context_prep, do_session_bind}
use multi_agent_orchestrator.Phases.Request.{DispatchEnv}
use multi_agent_orchestrator.Phases.Dispatch.{do_executor_dispatch, do_reviewer_dispatch}
use multi_agent_orchestrator.Phases.Retry.{do_round_retry_decide}
use multi_agent_orchestrator.Phases.Collect.{CollectEnv, do_executor_output_collect, do_orch_verify}
use multi_agent_orchestrator.Phases.Verdict.{VerdictEnv}
use multi_agent_orchestrator.Phases.Gate.{
  do_reviewer_output_collect, do_quality_gate, do_round_feedback_prep,
}
use multi_agent_orchestrator.Monitor.Probe.{ProbeEnv}
use multi_agent_orchestrator.Monitor.Loop.{do_monitor}

-- What is outside during one iteration of the main loop; the phase that runs takes its part.
pub record StepEnv : Type 0 where
  pub cancelled : Bool
  pub prep : PrepEnv
  pub bind : BindEnv
  pub dispatch : DispatchEnv
  pub probes : List ProbeEnv
  pub collect : CollectEnv
  pub verdict : VerdictEnv

unfoldable pub error_to_run_state : OrchestratorError → RunState
error_to_run_state (invalid_input field reason) = RunState.run_failed_invalid_input
error_to_run_state (dirty_worktree status) = RunState.run_failed_dirty_worktree
error_to_run_state (session_bind_failed role provider reason) = RunState.run_failed_session_bind
error_to_run_state (session_locked provider session_id) = RunState.run_failed_session_locked
error_to_run_state (artifact_contract contract) = RunState.run_failed_protocol
error_to_run_state _ = RunState.run_failed_internal

-- A phase that returns.
abbrev pub returns : Exec (Unit {0}) → Exec Bool
returns m = m >>= λ _. pure true

-- The `match` on the state; `false` where the monitor has not returned yet.
unfoldable pub step_at : RunState → StepEnv → Exec Bool
step_at RunState.context_prep e = returns (do_context_prep e.prep)
step_at RunState.session_bind e = returns (do_session_bind e.bind)
step_at RunState.executor_dispatch e = returns (do_executor_dispatch e.dispatch)
step_at RunState.executor_monitor e = do_monitor e.probes executor
step_at RunState.round_retry_decide e = returns do_round_retry_decide
step_at RunState.executor_output_collect e = returns (do_executor_output_collect e.collect)
step_at RunState.orch_verify e = returns do_orch_verify
step_at RunState.reviewer_dispatch e = returns (do_reviewer_dispatch e.dispatch)
step_at RunState.reviewer_monitor e = do_monitor e.probes reviewer
step_at RunState.reviewer_output_collect e = returns (do_reviewer_output_collect e.verdict)
step_at RunState.quality_gate e = returns do_quality_gate
step_at RunState.round_feedback_prep e = returns do_round_feedback_prep
step_at _ e = pure true

unfoldable pub step : StepEnv → Exec Bool
step e c = step_at c.run_state e c

-- `finished` is the end of the loop, `waiting` that the given observations ended first.
pub data Outcome : Type 0 where
  finished waiting panicked : Outcome

-- The error branch of the loop.
unfoldable pub on_error : OrchestratorError → OrchestratorCtx → OrchestratorCtx
on_error e c =
    let c' = push_failure (error_text e) c in
    if is_terminal c.run_state then c' else record c' { run_state = error_to_run_state e }

unfoldable pub check_cancel : Bool → OrchestratorCtx → OrchestratorCtx
check_cancel cancelled c =
    if cancelled && not (is_terminal c.run_state)
    then record c { run_state = RunState.run_aborted }
    else c

-- What follows a step, with the rest of the loop.
abbrev pub loop_after :
    Result Bool
    → (OrchestratorCtx → Outcome × OrchestratorCtx)
    → OrchestratorCtx
    → Outcome × OrchestratorCtx
loop_after (ok true) next c = next c
loop_after (ok false) next c = (Outcome.waiting, c)
loop_after (err x) next c = next (on_error x c)
loop_after panic next c = (Outcome.panicked, c)

abbrev pub loop_at :
    Bool
    → Result Bool × OrchestratorCtx
    → (OrchestratorCtx → Outcome × OrchestratorCtx)
    → OrchestratorCtx
    → Outcome × OrchestratorCtx
loop_at true stepped next c = (Outcome.finished, c)
loop_at false (r, d) next c = loop_after r next d

-- The loop of `run`, over the iterations that are observed.
unfoldable pub run_loop : List StepEnv → OrchestratorCtx → Outcome × OrchestratorCtx
run_loop [] c = (if is_terminal c.run_state then Outcome.finished else Outcome.waiting, c)
run_loop (e ∷ es) c =
    let c1 = check_cancel e.cancelled c in
    loop_at (is_terminal c1.run_state) (step e c1) (run_loop es) c1

pub record RunEnv : Type 0 where
  pub inputs : InputsEnv
  -- `validate_provider_models`
  pub models : Result (Unit {0})
  pub steps : List StepEnv

abbrev pub rejected : OrchestratorError → OrchestratorCtx → Outcome × OrchestratorCtx
rejected e c = (
  Outcome.finished,
  push_failure (error_text e) (record c { run_state = RunState.run_failed_invalid_input }),
)

abbrev pub with_models :
    Result (Unit {0}) → List StepEnv → OrchestratorCtx → Outcome × OrchestratorCtx
with_models (ok u) steps c = run_loop steps (record c { run_state = RunState.context_prep })
with_models (err e) steps c = rejected e c
with_models panic steps c = (Outcome.panicked, c)

abbrev pub run_validated : Result (Unit {0}) × OrchestratorCtx → RunEnv → Outcome × OrchestratorCtx
run_validated (ok u, c) env = with_models env.models env.steps c
run_validated (err e, c) env = rejected e c
run_validated (panic, c) env = (Outcome.panicked, c)

unfoldable pub run : RunEnv → CliArgs → Outcome × OrchestratorCtx
run env args = run_validated (validate_inputs env.inputs (new args)) env
