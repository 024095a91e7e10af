-- ===== src/Run/Steps.antt =====
-- One step of the run (`step` in src/orchestrator/mod.rs): what it may change, phase by phase.
use multi_agent_orchestrator.Prelude.{◌≡◌, ◌∙◌, refl, ap, subst, inl, Bool, true, false, none}
use multi_agent_orchestrator.State.{executor, reviewer, RunState}
use multi_agent_orchestrator.Context.{OrchestratorCtx}
use multi_agent_orchestrator.Context.Exec.{Exec}
use multi_agent_orchestrator.Context.Triple.{
  Pred, Ends, Triple, follow, weaken, pure_lem, modify_lem,
}
use multi_agent_orchestrator.Phases.Collect.{do_orch_verify}
use multi_agent_orchestrator.Phases.Retry.{round_retry_decide, do_round_retry_decide}
use multi_agent_orchestrator.Phases.Gate.{do_quality_gate}
use multi_agent_orchestrator.Run.Core.{Core, core, to, gated, Moved, Stopped}
use multi_agent_orchestrator.Run.Moves.{Is}
use multi_agent_orchestrator.Run.Moves.Dispatch.{
  MovesTo, context_prep_moves, session_bind_moves, executor_dispatch_moves, reviewer_dispatch_moves,
}
use multi_agent_orchestrator.Run.Moves.Collect.{
  executor_collect_moves, feedback_prep_moves, retry_decide_moves, quality_gate_moves,
}
use multi_agent_orchestrator.Run.Moves.Gate.{reviewer_collect_moves}
use multi_agent_orchestrator.Run.Moves.Routes.{AfterRound}
use multi_agent_orchestrator.Run.Moves.Monitor.{monitor_moves}
use multi_agent_orchestrator.Run.{StepEnv, returns, step_at, step}

-- After a step: it has moved as its phase does, or it waits or has stopped.
abbrev pub AfterStep : RunState → Core → Bool → OrchestratorCtx → Type 0
AfterStep s k true c = Moved s k (core c)
AfterStep s k false c = Stopped k (core c)

unchanged : (x y : Core) → y ≡ x → Stopped x y
unchanged x y h = rw h (inl refl, refl)

module _ (k : Core) where
  abbrev Steps : RunState → Exec Bool → Type 0
  Steps s m = Triple (Is k) m (AfterStep s k) (λ c. Stopped k (core c))

  returned :
      (s : RunState) {m : Exec (Unit {0})}
      → Triple (Is k) m (λ a c. Moved s k (core c)) (λ c. Stopped k (core c))
      → Steps s (returns m)
  returned s h = follow h λ u. pure_lem _ (λ c x. x)

  moved :
      (s t : RunState) {m : Exec (Unit {0})}
      → MovesTo t m
      → ((c : OrchestratorCtx) → core c ≡ to t k → Moved s k (core c))
      → Steps s (returns m)
  moved s t h e = returned s (weaken (h k) (λ u. e) (λ c x. unchanged k (core c) x))

  waited :
      (s : RunState) {m : Exec Bool} {Q : Bool → Pred}
      → Triple (Is k) m Q (Is k)
      → ((b : Bool) (c : OrchestratorCtx) → Q b c → AfterStep s k b c)
      → Steps s m
  waited s h q = weaken h q (λ c x. unchanged k (core c) x)

  ends_executor :
      (b : Bool) (c : OrchestratorCtx)
      → AfterRound executor k b c
      → AfterStep RunState.executor_monitor k b c
  ends_executor true c h = h
  ends_executor false c h = unchanged k (core c) h

  ends_reviewer :
      (b : Bool) (c : OrchestratorCtx)
      → AfterRound reviewer k b c
      → AfterStep RunState.reviewer_monitor k b c
  ends_reviewer true c h = h
  ends_reviewer false c h = unchanged k (core c) h

  pub step_at_moves : (s : RunState) (e : StepEnv) → Steps s (step_at s e)
  unfolding step_at do_orch_verify do_round_retry_decide do_quality_gate
  step_at_moves RunState.context_prep e =
      moved RunState.context_prep RunState.session_bind (context_prep_moves e.prep) (λ c h. h)
  step_at_moves RunState.session_bind e =
      moved RunState.session_bind RunState.executor_dispatch (session_bind_moves e.bind) (λ c h. h)
  step_at_moves RunState.executor_dispatch e =
      moved RunState.executor_dispatch RunState.executor_monitor
        (executor_dispatch_moves e.dispatch) (λ c h. h)
  step_at_moves RunState.executor_monitor e =
      waited RunState.executor_monitor (monitor_moves k e.probes executor) ends_executor
  step_at_moves RunState.round_retry_decide e = returned RunState.round_retry_decide (
      modify_lem _ (λ c h.
        subst (λ x. Moved RunState.round_retry_decide x (core (round_retry_decide c))) h
          (retry_decide_moves c)))
  step_at_moves RunState.executor_output_collect e =
      moved RunState.executor_output_collect RunState.orch_verify (executor_collect_moves e.collect)
        (λ c h. h)
  step_at_moves RunState.orch_verify e = returned RunState.orch_verify (
      modify_lem _
        (λ c h. ap (λ (x : Core). to RunState.reviewer_dispatch (record x { verdict = none })) h))
  step_at_moves RunState.reviewer_dispatch e =
      moved RunState.reviewer_dispatch RunState.reviewer_monitor
        (reviewer_dispatch_moves e.dispatch) (λ c h. h)
  step_at_moves RunState.reviewer_monitor e =
      waited RunState.reviewer_monitor (monitor_moves k e.probes reviewer) ends_reviewer
  step_at_moves RunState.reviewer_output_collect e =
      returned RunState.reviewer_output_collect (reviewer_collect_moves e.verdict k)
  step_at_moves RunState.quality_gate e =
      returned RunState.quality_gate
        (modify_lem _ (λ c h. quality_gate_moves c ∙ ap (λ (x : Core). gated x.verdict x) h))
  step_at_moves RunState.round_feedback_prep e =
      moved RunState.round_feedback_prep RunState.executor_dispatch feedback_prep_moves (λ c h. h)
  step_at_moves RunState.run_init e = pure_lem _ (λ c h. h)
  step_at_moves RunState.run_done e = pure_lem _ (λ c h. h)
  step_at_moves RunState.run_aborted e = pure_lem _ (λ c h. h)
  step_at_moves RunState.run_failed_invalid_input e = pure_lem _ (λ c h. h)
  step_at_moves RunState.run_failed_dirty_worktree e = pure_lem _ (λ c h. h)
  step_at_moves RunState.run_failed_session_bind e = pure_lem _ (λ c h. h)
  step_at_moves RunState.run_failed_service_cap e = pure_lem _ (λ c h. h)
  step_at_moves RunState.run_failed_provider_access e = pure_lem _ (λ c h. h)
  step_at_moves RunState.run_failed_consecutive_failure_limit e = pure_lem _ (λ c h. h)
  step_at_moves RunState.run_failed_external_blocker e = pure_lem _ (λ c h. h)
  step_at_moves RunState.run_failed_irreconcilable_disagreement e = pure_lem _ (λ c h. h)
  step_at_moves RunState.run_failed_poisoned_session e = pure_lem _ (λ c h. h)
  step_at_moves RunState.run_failed_protocol e = pure_lem _ (λ c h. h)
  step_at_moves RunState.run_failed_session_locked e = pure_lem _ (λ c h. h)
  step_at_moves RunState.run_failed_internal e = pure_lem _ (λ c h. h)

-- Every step does to the state, the saved verdict, the arguments and the failure count what
-- `Moved` says of the phase of the state; a step that stops or waits changes none of them, but
-- that it may have saved a checked verdict.
pub step-Moved :
    (e : StepEnv) (c : OrchestratorCtx)
    → Ends
        (AfterStep c.run_state (core c))
        (λ d. Stopped (core c) (core d))
        (step e c).0
        (step e c).1
unfolding step
step-Moved e c = (step_at_moves (core c) c.run_state e).at c refl
