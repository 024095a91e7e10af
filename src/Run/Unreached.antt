-- ===== src/Run/Unreached.antt =====
-- The terminal state of a provider access failure (`error_to_run_state` and `step` in
-- src/orchestrator/mod.rs, the routing in src/orchestrator/monitor.rs) over whole runs.
use multi_agent_orchestrator.Prelude.{
  ◌≡◌, refl, subst, sym, inl, inr, ◌≢◌, false, Option, none, some,
}
use multi_agent_orchestrator.State.{RunState, is_terminal}
use multi_agent_orchestrator.Errors.{
  OrchestratorError, transport_reset_failed, io, json, yaml, command_failed, session_bind_failed,
  session_locked, invalid_input, dirty_worktree, artifact_contract, request_changed_abort_retry,
}
use multi_agent_orchestrator.Review.{
  ReviewerYaml, ReviewDecision, accept, revise, blocked, irreconcilable_disagreement,
  poisoned_session,
}
use multi_agent_orchestrator.Context.{CliArgs, OrchestratorCtx}
use multi_agent_orchestrator.Run.Core.{
  Core, to, gated_by, gated, RetryTarget, Ended, Settled, Moved,
}
use multi_agent_orchestrator.Run.{error_to_run_state, Outcome, RunEnv, run}
use multi_agent_orchestrator.Run.Invariant.{Invariant, AtEnd, run_holds}

abbrev Reached : RunState → Type 0
Reached RunState.run_failed_provider_access = ⊥
Reached _ = Unit

-- A state that is reached after the state of `z`.
Reached-along : (y z : Core) → Reached z.state → y ≡ z → Reached y.state
Reached-along y z h e = subst (λ (t : Core). Reached t.state) (sym e) h

gated-Reached : (v : Option ReviewerYaml) (x : Core) → Reached (gated v x).state
gated-Reached none x = tt
gated-Reached (some r) x = by_decision r.decision
  where
    by_decision : (d : ReviewDecision) → Reached (gated_by d x).state
    by_decision accept = tt
    by_decision revise = tt
    by_decision blocked = tt
    by_decision irreconcilable_disagreement = tt
    by_decision poisoned_session = tt

module _ (x y : Core) where
  Ended-Reached : (s : RunState) → Reached s → Ended s x y → Reached y.state
  Ended-Reached s h (inl e) = Reached-along y (to s x) h e
  Ended-Reached s h (inr (inl e)) = Reached-along y _ tt e
  Ended-Reached s h (inr (inr (inl e))) = Reached-along y _ tt e
  Ended-Reached s h (inr (inr (inr e))) = Reached-along y _ tt e

  Settled-Reached : Settled x y → Reached y.state
  Settled-Reached (v, inl e) = Reached-along y _ tt e
  Settled-Reached (v, inr (e, n)) = Reached-along y _ tt e

  retry-Reached : (y ≡ to y.state x) × RetryTarget x.failures y.state → Reached y.state
  retry-Reached (e, inl (l, s)) = subst Reached (sym s) tt
  retry-Reached (e, inr (l, inl s)) = subst Reached (sym s) tt
  retry-Reached (e, inr (l, inr s)) = subst Reached (sym s) tt

  Moved-Reached :
      (s : RunState) → is_terminal s ≡ false → x.state ≡ s → Moved s x y → Reached y.state
  unfolding is_terminal
  Moved-Reached RunState.context_prep t a e = Reached-along y _ tt e
  Moved-Reached RunState.session_bind t a e = Reached-along y _ tt e
  Moved-Reached RunState.executor_dispatch t a e = Reached-along y _ tt e
  Moved-Reached RunState.executor_monitor t a e =
      Ended-Reached RunState.executor_output_collect tt e
  Moved-Reached RunState.round_retry_decide t a e = retry-Reached e
  Moved-Reached RunState.executor_output_collect t a e = Reached-along y _ tt e
  Moved-Reached RunState.orch_verify t a e = Reached-along y _ tt e
  Moved-Reached RunState.reviewer_dispatch t a e = Reached-along y _ tt e
  Moved-Reached RunState.reviewer_monitor t a e =
      Ended-Reached RunState.reviewer_output_collect tt e
  Moved-Reached RunState.reviewer_output_collect t a e = Settled-Reached e
  Moved-Reached RunState.quality_gate t a e =
      Reached-along y (gated x.verdict x) (gated-Reached x.verdict x) e
  Moved-Reached RunState.round_feedback_prep t a e = Reached-along y _ tt e
  Moved-Reached RunState.run_init t a e = Reached-along y x (subst Reached (sym a) tt) e
  Moved-Reached _ t a e = cc

error-Reached : (e : OrchestratorError) → Reached (error_to_run_state e)
unfolding error_to_run_state
error-Reached (transport_reset_failed p) = tt
error-Reached (io k s) = tt
error-Reached (json s) = tt
error-Reached (yaml s) = tt
error-Reached (command_failed p s) = tt
error-Reached (session_bind_failed r p s) = tt
error-Reached (session_locked p s) = tt
error-Reached (invalid_input f r) = tt
error-Reached (dirty_worktree s) = tt
error-Reached (artifact_contract s) = tt
error-Reached request_changed_abort_retry = tt

abbrev reaching : Invariant
reaching = record {
  Holds = λ x. Reached x.state;
  moves = λ x y t h m. Moved-Reached x y x.state t refl m;
  fails = λ x y e t h m. error-Reached e;
  aborts = λ x h. tt;
}

-- No run ends in the state of a provider access failure.
pub run-no_access :
    (env : RunEnv) (args : CliArgs) (c : OrchestratorCtx)
    → run env args ≡ (Outcome.finished, c)
    → c.run_state ≢ RunState.run_failed_provider_access
run-no_access env args c e s =
    let ended : AtEnd (λ x. Reached x.state) (Outcome.finished, c) =
      subst (AtEnd (λ x. Reached x.state)) e (run_holds reaching (λ a. tt) (λ a. tt) env args) in
    subst Reached s ended.0
