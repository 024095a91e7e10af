-- ===== src/Run/Accepted.antt =====
-- A run ends in success only with an accepted verdict.
use multi_agent_orchestrator.Prelude.{◌≡◌, refl, subst, sym, inl, inr, false, Option, none, some}
use multi_agent_orchestrator.State.{RunState, is_terminal}
use multi_agent_orchestrator.Errors.{
  OrchestratorError, transport_reset_failed, io, json, yaml, command_failed, session_bind_failed,
  session_locked, invalid_input, dirty_worktree, artifact_contract, request_changed_abort_retry,
}
use multi_agent_orchestrator.Review.{
  ReviewerYaml, ReviewDecision, accept, revise, blocked, irreconcilable_disagreement,
  poisoned_session,
}
use multi_agent_orchestrator.Review.Valid.{IsValid}
use multi_agent_orchestrator.Context.{CliArgs, OrchestratorCtx}
use multi_agent_orchestrator.Run.Core.{
  Core, to, retried, NotionSettled, Checked, gated_by, gated, RetryTarget, Ended, Saved, Settled,
  Moved,
}
use multi_agent_orchestrator.Run.{error_to_run_state, Outcome, RunEnv, run}
use multi_agent_orchestrator.Run.Invariant.{Invariant, AtEnd, run_holds}

-- The verdict with which a run succeeds: valid, accepting, and settling the Notion policy.
abbrev pub Accepts : CliArgs → Option ReviewerYaml → Type 0
Accepts a none = ⊥
Accepts a (some y) = IsValid y × NotionSettled a.notion_policy y × (y.decision ≡ accept)

abbrev Backed : RunState → CliArgs → Option ReviewerYaml → Type 0
Backed RunState.run_done a v = Accepts a v
Backed _ a v = Unit

-- Every saved verdict is checked, and success is backed by an accepting one.
abbrev Sound : Core → Type 0
Sound x = Checked x.args x.verdict × Backed x.state x.args x.verdict

Saved-Checked :
    (x : Core) (v : Option ReviewerYaml) → Checked x.args x.verdict → Saved x v → Checked x.args v
Saved-Checked x v h (inl e) = subst (Checked x.args) (sym e) h
Saved-Checked x v h (inr c) = c.0

gated-Sound :
    (v : Option ReviewerYaml) (x : Core) → Checked x.args v → x.verdict ≡ v → Sound (gated v x)
gated-Sound none x h e = (subst (Checked x.args) (sym e) h, tt)
gated-Sound (some y) x h e = by_decision y.decision refl
  where
    by_decision : (d : ReviewDecision) → y.decision ≡ d → Sound (gated_by d x)
    by_decision accept s =
        (subst (Checked x.args) (sym e) h, subst (Accepts x.args) (sym e) (h.0, h.1, s))
    by_decision revise s = (subst (Checked x.args) (sym e) h, tt)
    by_decision blocked s = (subst (Checked x.args) (sym e) h, tt)
    by_decision irreconcilable_disagreement s = (subst (Checked x.args) (sym e) h, tt)
    by_decision poisoned_session s = (subst (Checked x.args) (sym e) h, tt)

module _ (x : Core) (h : Checked x.args x.verdict) where
  abbrev Becomes : Core → Type 0
  Becomes y = Sound y

  becomes : (z y : Core) → Sound z → y ≡ z → Sound y
  becomes z y s e = subst Sound (sym e) s

  Ended-Sound : (s : RunState) (y : Core) → Backed s x.args x.verdict → Ended s x y → Sound y
  Ended-Sound s y b (inl e) = becomes (to s x) y (h, b) e
  Ended-Sound s y b (inr (inl e)) = becomes (retried x) y (h, tt) e
  Ended-Sound s y b (inr (inr (inl e))) = becomes (to RunState.run_failed_service_cap x) y (h, tt) e
  Ended-Sound s y b (inr (inr (inr e))) = becomes (to RunState.run_aborted x) y (h, tt) e

  Settled-Sound : (y : Core) → Settled x y → Sound y
  Settled-Sound y (v, inl e) =
      becomes (retried (record x { verdict = y.verdict })) y (Saved-Checked x y.verdict h v, tt) e
  Settled-Sound y (v, inr (e, n)) =
      becomes (to RunState.quality_gate (record x { verdict = y.verdict })) y
        (Saved-Checked x y.verdict h v, tt) e

  retry-Sound : (y : Core) → (y ≡ to y.state x) × RetryTarget x.failures y.state → Sound y
  retry-Sound y (e, inl (l, s)) = subst Sound (sym e) (h, rw s tt)
  retry-Sound y (e, inr (l, inl s)) = subst Sound (sym e) (h, rw s tt)
  retry-Sound y (e, inr (l, inr s)) = subst Sound (sym e) (h, rw s tt)

  Moved-Sound :
      (s : RunState) (y : Core) → is_terminal s ≡ false → Moved s x y → x.state ≡ s → Sound y
  unfolding is_terminal
  Moved-Sound RunState.context_prep y t e a = becomes (to RunState.session_bind x) y (h, tt) e
  Moved-Sound RunState.session_bind y t e a = becomes (to RunState.executor_dispatch x) y (h, tt) e
  Moved-Sound RunState.executor_dispatch y t e a =
      becomes (to RunState.executor_monitor x) y (h, tt) e
  Moved-Sound RunState.executor_monitor y t e a =
      Ended-Sound RunState.executor_output_collect y tt e
  Moved-Sound RunState.round_retry_decide y t e a = retry-Sound y e
  Moved-Sound RunState.executor_output_collect y t e a =
      becomes (to RunState.orch_verify x) y (h, tt) e
  Moved-Sound RunState.orch_verify y t e a =
      becomes (to RunState.reviewer_dispatch (record x { verdict = none })) y (tt, tt) e
  Moved-Sound RunState.reviewer_dispatch y t e a =
      becomes (to RunState.reviewer_monitor x) y (h, tt) e
  Moved-Sound RunState.reviewer_monitor y t e a =
      Ended-Sound RunState.reviewer_output_collect y tt e
  Moved-Sound RunState.reviewer_output_collect y t e a = Settled-Sound y e
  Moved-Sound RunState.quality_gate y t e a =
      becomes (gated x.verdict x) y (gated-Sound x.verdict x h refl) e
  Moved-Sound RunState.round_feedback_prep y t e a =
      becomes (to RunState.executor_dispatch x) y (h, tt) e
  Moved-Sound RunState.run_init y t e a = subst Sound (sym e) (h, rw a tt)
  Moved-Sound _ y t e a = cc

error-Backed :
    (e : OrchestratorError) (a : CliArgs) (v : Option ReviewerYaml)
    → Backed (error_to_run_state e) a v
unfolding error_to_run_state
error-Backed (transport_reset_failed p) a v = tt
error-Backed (io k s) a v = tt
error-Backed (json s) a v = tt
error-Backed (yaml s) a v = tt
error-Backed (command_failed p s) a v = tt
error-Backed (session_bind_failed r p s) a v = tt
error-Backed (session_locked p s) a v = tt
error-Backed (invalid_input f r) a v = tt
error-Backed (dirty_worktree s) a v = tt
error-Backed (artifact_contract s) a v = tt
error-Backed request_changed_abort_retry a v = tt

abbrev soundness : Invariant
soundness = record {
  Holds = Sound;
  moves = λ x y t h m. Moved-Sound x h.0 x.state y t m refl;
  fails = λ x y e t h m. (
    subst (λ (z : Core). Checked z.args y.verdict) (sym m.1) (Saved-Checked x y.verdict h.0 m.0),
    error-Backed e y.args y.verdict,
  );
  aborts = λ x h. (h.0, tt);
}

-- A run that ends in success has saved an accepting verdict that passed every check: a score of at
-- least 8, the documented rules of an acceptance, and, with the required Notion policy, the
-- reviewer's word that its demands are met.
pub run-Accepts :
    (env : RunEnv) (args : CliArgs) (c : OrchestratorCtx)
    → run env args ≡ (Outcome.finished, c)
    → c.run_state ≡ RunState.run_done
    → Accepts c.args c.review_result
run-Accepts env args c e s =
    let ended : AtEnd Sound (Outcome.finished, c) =
      subst (AtEnd Sound) e (run_holds soundness (λ a. (tt, tt)) (λ a. (tt, tt)) env args) in
    subst (λ t. Backed t c.args c.review_result) s ended.0.1
