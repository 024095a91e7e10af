-- ===== src/Run/Progress.antt =====
-- A measure of the steps of a run (`run` and `step` of src/orchestrator/mod.rs).
use multi_agent_orchestrator.Prelude.{
  ◌≡◌, refl, ap, subst, sym, inl, inr, ◌≢◌, ℕ, ◌≤◌, ◌<◌, ◌+◌, ◌-◌, ◌*◌, arith, Bool, true, false,
  Option, none, some,
}
use multi_agent_orchestrator.Constants.{consecutive_failure_limit}
use multi_agent_orchestrator.State.{RunState, is_terminal}
use multi_agent_orchestrator.Errors.{Result, ok}
use multi_agent_orchestrator.Review.{
  ReviewerYaml, ReviewDecision, accept, revise, blocked, irreconcilable_disagreement,
  poisoned_session,
}
use multi_agent_orchestrator.Context.{OrchestratorCtx}
use multi_agent_orchestrator.Context.Triple.{Ends}
use multi_agent_orchestrator.Run.Core.{
  Core, core, to, retried, gated_by, gated, RetryTarget, Ended, Settled, Moved, Stopped,
}
use multi_agent_orchestrator.Run.{StepEnv, step}
use multi_agent_orchestrator.Run.Steps.{AfterStep, step-Moved}
use multi_agent_orchestrator.Run.Failures.{Bounded}

-- The steps that are left if no attempt fails any more and nobody asks for a revision: the length
-- of the way to the quality gate, and 16 for each failure that is still allowed.
abbrev pub budget : RunState → ℕ → ℕ
budget RunState.run_init f = 0
budget RunState.context_prep f = (consecutive_failure_limit - f) * 16 + 12
budget RunState.session_bind f = (consecutive_failure_limit - f) * 16 + 11
budget RunState.round_retry_decide f = (consecutive_failure_limit - f) * 16 + 10
budget RunState.round_feedback_prep f = (consecutive_failure_limit - f) * 16 + 10
budget RunState.executor_dispatch f = (consecutive_failure_limit - f) * 16 + 9
budget RunState.executor_monitor f = (consecutive_failure_limit - f) * 16 + 8
budget RunState.executor_output_collect f = (consecutive_failure_limit - f) * 16 + 7
budget RunState.orch_verify f = (consecutive_failure_limit - f) * 16 + 6
budget RunState.reviewer_dispatch f = (consecutive_failure_limit - f) * 16 + 5
budget RunState.reviewer_monitor f = (consecutive_failure_limit - f) * 16 + 4
budget RunState.reviewer_output_collect f = (consecutive_failure_limit - f) * 16 + 3
budget RunState.quality_gate f = (consecutive_failure_limit - f) * 16 + 2
budget _ f = 0

abbrev left : Core → ℕ
left x = budget x.state x.failures

module _ (x y : Core) where
  -- The step from `x` to `y` uses up some of the budget `b`.
  abbrev Less : ℕ → Type 0
  Less b = left y < b

  reaches : (z : Core) (b : ℕ) → left z < b → y ≡ z → Less b
  reaches z b h e = subst (λ (t : Core). left t < b) (sym e) h

  Ended-Less :
      (s : RunState) (b : ℕ)
      → x.failures < consecutive_failure_limit
      → budget s x.failures < b
      → (consecutive_failure_limit - x.failures) * 16 + 4 ≤ b
      → Ended s x y
      → Less b
  Ended-Less s b n l m (inl e) = reaches (to s x) b l e
  Ended-Less s b n l m (inr (inl e)) = reaches (retried x) b (omega arith) e
  Ended-Less s b n l m (inr (inr (inl e))) =
      reaches (to RunState.run_failed_service_cap x) b (omega arith) e
  Ended-Less s b n l m (inr (inr (inr e))) = reaches (to RunState.run_aborted x) b (omega arith) e

  Settled-Less :
      x.failures < consecutive_failure_limit
      → Settled x y
      → Less (budget RunState.reviewer_output_collect x.failures)
  Settled-Less n (v, inl e) = reaches (retried (record x { verdict = y.verdict })) _ (omega arith) e
  Settled-Less n (v, inr (e, w)) =
      reaches (to RunState.quality_gate (record x { verdict = y.verdict })) _ (omega arith) e

  retry-Less :
      (y ≡ to y.state x) × RetryTarget x.failures y.state
      → Less (budget RunState.round_retry_decide x.failures)
  retry-Less (e, inl (l, s)) = reaches (to y.state x) _ (rw s (omega arith)) e
  retry-Less (e, inr (l, inl s)) = reaches (to y.state x) _ (rw s (omega arith)) e
  retry-Less (e, inr (l, inr s)) = reaches (to y.state x) _ (rw s (omega arith)) e

  gated-Less :
      (v : Option ReviewerYaml)
      → y ≡ gated v x
      → y.state ≢ RunState.round_feedback_prep
      → Less (budget RunState.quality_gate x.failures)
  gated-Less none e n = reaches (gated none x) _ (omega arith) e
  gated-Less (some r) e n = by_decision r.decision e
    where
      by_decision :
          (d : ReviewDecision) → y ≡ gated_by d x → Less (budget RunState.quality_gate x.failures)
      by_decision accept e = reaches (gated_by accept x) _ (omega arith) e
      by_decision revise e = absurd (n (ap Core.state e))
      by_decision blocked e = reaches (gated_by blocked x) _ (omega arith) e
      by_decision irreconcilable_disagreement e =
          reaches (gated_by irreconcilable_disagreement x) _ (omega arith) e
      by_decision poisoned_session e = reaches (gated_by poisoned_session x) _ (omega arith) e

  Moved-Less :
      (s : RunState)
      → is_terminal s ≡ false
      → s ≢ RunState.run_init
      → Bounded s x.failures
      → y.state ≢ RunState.round_feedback_prep
      → Moved s x y
      → Less (budget s x.failures)
  unfolding is_terminal
  Moved-Less RunState.run_init t i n r e = absurd (i refl)
  Moved-Less RunState.context_prep t i n r e =
      reaches (to RunState.session_bind x) _ (omega arith) e
  Moved-Less RunState.session_bind t i n r e =
      reaches (to RunState.executor_dispatch x) _ (omega arith) e
  Moved-Less RunState.executor_dispatch t i n r e =
      reaches (to RunState.executor_monitor x) _ (omega arith) e
  Moved-Less RunState.executor_monitor t i n r e =
      Ended-Less RunState.executor_output_collect _ n (omega arith) (omega arith) e
  Moved-Less RunState.round_retry_decide t i n r e = retry-Less e
  Moved-Less RunState.executor_output_collect t i n r e =
      reaches (to RunState.orch_verify x) _ (omega arith) e
  Moved-Less RunState.orch_verify t i n r e =
      reaches (to RunState.reviewer_dispatch (record x { verdict = none })) _ (omega arith) e
  Moved-Less RunState.reviewer_dispatch t i n r e =
      reaches (to RunState.reviewer_monitor x) _ (omega arith) e
  Moved-Less RunState.reviewer_monitor t i n r e =
      Ended-Less RunState.reviewer_output_collect _ n (omega arith) (omega arith) e
  Moved-Less RunState.reviewer_output_collect t i n r e = Settled-Less n e
  Moved-Less RunState.quality_gate t i n r e = gated-Less x.verdict e r
  Moved-Less RunState.round_feedback_prep t i n r e =
      reaches (to RunState.executor_dispatch x) _ (omega arith) e
  Moved-Less _ t i n r e = cc

step_less :
    (r : Result Bool) (x : Core) (d : OrchestratorCtx)
    → r ≡ ok true
    → is_terminal x.state ≡ false
    → x.state ≢ RunState.run_init
    → Bounded x.state x.failures
    → d.run_state ≢ RunState.round_feedback_prep
    → Ends (AfterStep x.state x) (λ d. Stopped x (core d)) r d
    → left (core d) < left x
step_less (ok true) x d e t i n f m = Moved-Less x (core d) x.state t i n f m
step_less _ x d e t i n f m = cc

-- Each step that returns, from a state that is neither terminal nor the initial one and with
-- the count of failures in its bound, uses up some of the budget, unless it asks for a
-- revision.
pub step-progress :
    (e : StepEnv) (c : OrchestratorCtx)
    → is_terminal c.run_state ≡ false
    → c.run_state ≢ RunState.run_init
    → Bounded c.run_state c.consecutive_failure_count
    → (step e c).0 ≡ ok true
    → (step e c).1.run_state ≢ RunState.round_feedback_prep
    → budget (step e c).1.run_state (step e c).1.consecutive_failure_count
      < budget c.run_state c.consecutive_failure_count
step-progress e c t i n r f =
    step_less (step e c).0 (core c) (step e c).1 r t i n f (step-Moved e c)
