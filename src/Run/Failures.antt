-- ===== src/Run/Failures.antt =====
-- The count of failures in a row, over a whole run.
use multi_agent_orchestrator.Prelude.{
  ◌≡◌, refl, subst, sym, inl, inr, ℕ, ◌≤◌, ◌<◌, arith, false, Option, none, some,
}
use multi_agent_orchestrator.Constants.{consecutive_failure_limit}
use multi_agent_orchestrator.State.{RunState, is_terminal}
use multi_agent_orchestrator.Errors.{
  OrchestratorError, transport_reset_failed, io, json, yaml, command_failed, session_bind_failed,
  session_locked, invalid_input, dirty_worktree, artifact_contract, request_changed_abort_retry,
}
use multi_agent_orchestrator.Review.{
  ReviewerYaml, ReviewDecision, accept, revise, blocked, irreconcilable_disagreement,
  poisoned_session,
}
use multi_agent_orchestrator.Context.{CliArgs, OrchestratorCtx}
use multi_agent_orchestrator.Run.Core.{
  Core, to, retried, gated_by, gated, RetryTarget, Ended, Settled, Moved,
}
use multi_agent_orchestrator.Run.{error_to_run_state, Outcome, RunEnv, run}
use multi_agent_orchestrator.Run.Invariant.{Invariant, AtEnd, run_holds}

-- The bound on the count in each state: below the limit wherever an attempt can still be made.
abbrev pub Bounded : RunState → ℕ → Type 0
Bounded RunState.run_init n = n < consecutive_failure_limit
Bounded RunState.context_prep n = n < consecutive_failure_limit
Bounded RunState.session_bind n = n < consecutive_failure_limit
Bounded RunState.executor_dispatch n = n < consecutive_failure_limit
Bounded RunState.executor_monitor n = n < consecutive_failure_limit
Bounded RunState.executor_output_collect n = n < consecutive_failure_limit
Bounded RunState.orch_verify n = n < consecutive_failure_limit
Bounded RunState.reviewer_dispatch n = n < consecutive_failure_limit
Bounded RunState.reviewer_monitor n = n < consecutive_failure_limit
Bounded RunState.reviewer_output_collect n = n < consecutive_failure_limit
Bounded RunState.quality_gate n = n < consecutive_failure_limit
Bounded RunState.round_feedback_prep n = n < consecutive_failure_limit
Bounded RunState.run_failed_consecutive_failure_limit n = n ≡ consecutive_failure_limit
Bounded _ n = n ≤ consecutive_failure_limit

abbrev Counted : Core → Type 0
Counted x = Bounded x.state x.failures

below : (s : RunState) (n : ℕ) → Bounded s n → n ≤ consecutive_failure_limit
below RunState.run_init n h = omega arith
below RunState.context_prep n h = omega arith
below RunState.session_bind n h = omega arith
below RunState.executor_dispatch n h = omega arith
below RunState.executor_monitor n h = omega arith
below RunState.round_retry_decide n h = omega arith
below RunState.executor_output_collect n h = omega arith
below RunState.orch_verify n h = omega arith
below RunState.reviewer_dispatch n h = omega arith
below RunState.reviewer_monitor n h = omega arith
below RunState.reviewer_output_collect n h = omega arith
below RunState.quality_gate n h = omega arith
below RunState.round_feedback_prep n h = omega arith
below RunState.run_done n h = omega arith
below RunState.run_aborted n h = omega arith
below RunState.run_failed_invalid_input n h = omega arith
below RunState.run_failed_dirty_worktree n h = omega arith
below RunState.run_failed_session_bind n h = omega arith
below RunState.run_failed_service_cap n h = omega arith
below RunState.run_failed_provider_access n h = omega arith
below RunState.run_failed_consecutive_failure_limit n h = omega arith
below RunState.run_failed_external_blocker n h = omega arith
below RunState.run_failed_irreconcilable_disagreement n h = omega arith
below RunState.run_failed_poisoned_session n h = omega arith
below RunState.run_failed_protocol n h = omega arith
below RunState.run_failed_session_locked n h = omega arith
below RunState.run_failed_internal n h = omega arith

module _ (x : Core) (n : x.failures < consecutive_failure_limit) where
  becomes : (z y : Core) → Counted z → y ≡ z → Counted y
  becomes z y s e = subst Counted (sym e) s

  retried-Counted : (z : Core) → z.failures ≡ x.failures → Counted (retried z)
  retried-Counted z e = omega arith

  Ended-Counted : (s : RunState) (y : Core) → Bounded s x.failures → Ended s x y → Counted y
  Ended-Counted s y b (inl e) = becomes (to s x) y b e
  Ended-Counted s y b (inr (inl e)) = becomes (retried x) y (retried-Counted x refl) e
  Ended-Counted s y b (inr (inr (inl e))) =
      becomes (to RunState.run_failed_service_cap x) y (omega arith) e
  Ended-Counted s y b (inr (inr (inr e))) = becomes (to RunState.run_aborted x) y (omega arith) e

  Settled-Counted : (y : Core) → Settled x y → Counted y
  Settled-Counted y (v, inl e) =
      becomes (retried (record x { verdict = y.verdict })) y
        (retried-Counted (record x { verdict = y.verdict }) refl) e
  Settled-Counted y (v, inr (e, w)) =
      becomes (to RunState.quality_gate (record x { verdict = y.verdict })) y n e

gated-Counted :
    (v : Option ReviewerYaml) (x : Core)
    → x.failures < consecutive_failure_limit
    → Counted (gated v x)
gated-Counted none x n = omega arith
gated-Counted (some y) x n = by_decision y.decision
  where
    by_decision : (d : ReviewDecision) → Counted (gated_by d x)
    by_decision accept = omega arith
    by_decision revise = omega arith
    by_decision blocked = omega arith
    by_decision irreconcilable_disagreement = omega arith
    by_decision poisoned_session = omega arith

retry-Counted :
    (x y : Core)
    → x.failures ≤ consecutive_failure_limit
    → (y ≡ to y.state x) × RetryTarget x.failures y.state
    → Counted y
retry-Counted x y n (e, inl (l, s)) =
    subst Counted (sym e) (subst (λ t. Bounded t x.failures) (sym s) (omega arith))
retry-Counted x y n (e, inr (l, inl s)) =
    subst Counted (sym e) (subst (λ t. Bounded t x.failures) (sym s) l)
retry-Counted x y n (e, inr (l, inr s)) =
    subst Counted (sym e) (subst (λ t. Bounded t x.failures) (sym s) l)

Moved-Counted :
    (s : RunState) (x y : Core)
    → is_terminal s ≡ false
    → Bounded s x.failures
    → x.state ≡ s
    → Moved s x y
    → Counted y
unfolding is_terminal
Moved-Counted RunState.context_prep x y t n a e = becomes x n (to RunState.session_bind x) y n e
Moved-Counted RunState.session_bind x y t n a e =
    becomes x n (to RunState.executor_dispatch x) y n e
Moved-Counted RunState.executor_dispatch x y t n a e =
    becomes x n (to RunState.executor_monitor x) y n e
Moved-Counted RunState.executor_monitor x y t n a e =
    Ended-Counted x n RunState.executor_output_collect y n e
Moved-Counted RunState.round_retry_decide x y t n a e = retry-Counted x y n e
Moved-Counted RunState.executor_output_collect x y t n a e =
    becomes x n (to RunState.orch_verify x) y n e
Moved-Counted RunState.orch_verify x y t n a e =
    becomes x n (to RunState.reviewer_dispatch (record x { verdict = none })) y n e
Moved-Counted RunState.reviewer_dispatch x y t n a e =
    becomes x n (to RunState.reviewer_monitor x) y n e
Moved-Counted RunState.reviewer_monitor x y t n a e =
    Ended-Counted x n RunState.reviewer_output_collect y n e
Moved-Counted RunState.reviewer_output_collect x y t n a e = Settled-Counted x n y e
Moved-Counted RunState.quality_gate x y t n a e =
    becomes x n (gated x.verdict x) y (gated-Counted x.verdict x n) e
Moved-Counted RunState.round_feedback_prep x y t n a e =
    becomes x n (to RunState.executor_dispatch x) y n e
Moved-Counted RunState.run_init x y t n a e =
    becomes x n x y (subst (λ s. Bounded s x.failures) (sym a) n) e
Moved-Counted _ x y t n a e = cc

error-Bounded :
    (e : OrchestratorError) (n : ℕ)
    → n ≤ consecutive_failure_limit
    → Bounded (error_to_run_state e) n
unfolding error_to_run_state
error-Bounded (transport_reset_failed p) n h = h
error-Bounded (io k s) n h = h
error-Bounded (json s) n h = h
error-Bounded (yaml s) n h = h
error-Bounded (command_failed p s) n h = h
error-Bounded (session_bind_failed r p s) n h = h
error-Bounded (session_locked p s) n h = h
error-Bounded (invalid_input f r) n h = h
error-Bounded (dirty_worktree s) n h = h
error-Bounded (artifact_contract s) n h = h
error-Bounded request_changed_abort_retry n h = h

abbrev counting : Invariant
counting = record {
  Holds = Counted;
  moves = λ x y t h m. Moved-Counted x.state x y t h refl m;
  fails = λ x y e t h m. error-Bounded e y.failures (
      subst (λ (z : Core). z.failures ≤ consecutive_failure_limit) (sym m.1)
        (below x.state x.failures h));
  aborts = λ x h. below x.state x.failures h;
}

-- When a run has ended, the failures in a row are at most the limit of 5, and it has ended in
-- the state of the limit only with exactly 5.
pub run-failure_limit :
    (env : RunEnv) (args : CliArgs) (c : OrchestratorCtx)
    → run env args ≡ (Outcome.finished, c)
    → (c.consecutive_failure_count ≤ consecutive_failure_limit)
      × (c.run_state ≡ RunState.run_failed_consecutive_failure_limit
          → c.consecutive_failure_count ≡ consecutive_failure_limit)
run-failure_limit env args c e =
    let ended : AtEnd Counted (Outcome.finished, c) =
      subst (AtEnd Counted) e (run_holds counting (λ a. omega arith) (λ a. omega arith) env args) in
    (
      below c.run_state c.consecutive_failure_count ended.0,
      λ s. subst (λ t. Bounded t c.consecutive_failure_count) s ended.0,
    )
