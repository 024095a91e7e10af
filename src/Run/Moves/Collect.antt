-- ===== src/Run/Moves/Collect.antt =====
-- The phases between an executor's attempt and a reviewer's, and the retry decision.
use multi_agent_orchestrator.Prelude.{
  ◌≡◌, refl, ap, ◌⊎◌, inl, inr, arith, Bool, true, false, leb, String, List, [], ◌∷◌, if◌then◌else◌,
  Option, none, some, unwrap_or,
}
use multi_agent_orchestrator.Constants.{consecutive_failure_limit}
use multi_agent_orchestrator.State.{AgentRole, executor, reviewer, RunState}
use multi_agent_orchestrator.Review.{
  ReviewerYaml, ReviewDecision, accept, revise, blocked, irreconcilable_disagreement,
  poisoned_session,
}
use multi_agent_orchestrator.Context.{OrchestratorCtx}
use multi_agent_orchestrator.Context.Triple.{follow, modify_lem, emit_lem}
use multi_agent_orchestrator.Phases.Collect.{
  CollectEnv, collect_artifacts, artifact_names, do_executor_output_collect,
}
use multi_agent_orchestrator.Phases.Retry.{
  dispatch_state, retries_exhausted, retry_again, round_retry_decide,
}
use multi_agent_orchestrator.Phases.Gate.{decide, gate, quality_gate, do_round_feedback_prep}
use multi_agent_orchestrator.Run.Core.{core, to, gated_by, gated, Moved}
use multi_agent_orchestrator.Run.Moves.{
  Keeps, Keeps-then, Keeps-lift, Keeps-pure, Keeps-gets, Keeps-modify,
}
use multi_agent_orchestrator.Run.Moves.Dispatch.{MovesTo}

artifacts_keep : (env : CollectEnv) (names : List String) → Keeps (collect_artifacts env names)
unfolding collect_artifacts
artifacts_keep env [] = Keeps-pure _
artifacts_keep env (name ∷ names) =
    Keeps-then (Keeps-lift _)
      λ exists. Keeps-then (Keeps-modify _ (λ c. refl)) λ _. artifacts_keep env names

pub executor_collect_moves :
    (env : CollectEnv) → MovesTo RunState.orch_verify (do_executor_output_collect env)
unfolding do_executor_output_collect
executor_collect_moves env k = follow (Keeps-gets _ k) λ args. follow (Keeps-gets _ k) λ bound.
    follow (Keeps-lift _ k) λ outbox. follow (Keeps-modify _ (λ c. refl) k) λ _.
      follow (artifacts_keep env (artifact_names args.workflow_type) k) λ _.
        follow (Keeps-gets _ k) λ base. follow (Keeps-lift _ k) λ log_out.
          follow (modify_lem _ (λ c h. ap (to RunState.orch_verify) h)) λ _. emit_lem _ (λ c h. h)

pub feedback_prep_moves : MovesTo RunState.executor_dispatch do_round_feedback_prep
unfolding do_round_feedback_prep
feedback_prep_moves k =
    follow (modify_lem _ (λ c h. ap (to RunState.executor_dispatch) h)) λ _. emit_lem _ (λ c h. h)

dispatch_state_cases :
    (role : AgentRole)
    → (dispatch_state role ≡ RunState.executor_dispatch)
      ⊎ (dispatch_state role ≡ RunState.reviewer_dispatch)
dispatch_state_cases executor = inl refl
dispatch_state_cases reviewer = inr refl

retry_by :
    (b : Bool) (c : OrchestratorCtx)
    → leb consecutive_failure_limit c.consecutive_failure_count ≡ b
    → Moved RunState.round_retry_decide
        (core c)
        (core (if b then retries_exhausted c else retry_again c))
retry_by true c h = (refl, inl (ground arith, refl))
retry_by false c h =
    (refl, inr (ground arith, dispatch_state_cases (unwrap_or executor c.current_role)))

pub retry_decide_moves :
    (c : OrchestratorCtx) → Moved RunState.round_retry_decide (core c) (core (round_retry_decide c))
unfolding round_retry_decide
retry_decide_moves c = retry_by (leb consecutive_failure_limit c.consecutive_failure_count) c refl

decide_by :
    (d : ReviewDecision) (r : ReviewerYaml) (c : OrchestratorCtx)
    → core (decide d r (record c { consecutive_failure_count = 0 })) ≡ gated_by d (core c)
unfolding decide
decide_by accept r c = refl
decide_by revise r c = refl
decide_by blocked r c = refl
decide_by irreconcilable_disagreement r c = refl
decide_by poisoned_session r c = refl

gate_by : (o : Option ReviewerYaml) (c : OrchestratorCtx) → core (gate o c) ≡ gated o (core c)
gate_by none c = refl
gate_by (some r) c = decide_by r.decision r c

pub quality_gate_moves :
    (c : OrchestratorCtx) → core (quality_gate c) ≡ gated c.review_result (core c)
unfolding quality_gate
quality_gate_moves c = gate_by c.review_result c
