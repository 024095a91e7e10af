-- ===== src/Phases/Gate.antt =====
-- src/orchestrator/phases.rs, REVIEWER_OUTPUT_COLLECT, QUALITY_GATE and ROUND_FEEDBACK_PREP.
use multi_agent_orchestrator.Prelude.{
  ℕ, ◌==◌, Bool, true, false, ◌&&◌, Option, none, some, String, [], ◌∷◌, is_some, unwrap_or,
}
use multi_agent_orchestrator.Prelude.Show.{format}
use multi_agent_orchestrator.State.{reviewer, RunState}
use multi_agent_orchestrator.Errors.{OrchestratorError, error_text, Result, ok, err, panic}
use multi_agent_orchestrator.Review.{
  accept, revise, blocked, irreconcilable_disagreement, poisoned_session, ReviewDecision,
  ReviewerYaml, parse_reviewer_yaml,
}
use multi_agent_orchestrator.Context.{AttemptStateData, OrchestratorCtx}
use multi_agent_orchestrator.Context.Exec.{Exec, ◌>>=◌, ◌>>◌, pure, lift, gets, modify}
use multi_agent_orchestrator.Phases.Start.{phase_separator_wait}
use multi_agent_orchestrator.Phases.Verdict.{
  VerdictEnv, retry_reviewer_output_failure, enforce_reviewer_notion_policy,
  reviewer_workspace_dirty_reason,
}

-- `==` on optional times
abbrev pub same_time : Option ℕ → Option ℕ → Bool
same_time none none = true
same_time (some a) (some b) = a == b
same_time _ _ = false

abbrev pub mtime_of : Option AttemptStateData → Option ℕ
mtime_of none = none
mtime_of (some a) = a.pre_reviewer_outbox_mtime

-- `ctx.reviewer_yaml_rejection = Some(..); retry_reviewer_output_failure(..)`
abbrev pub reject_yaml : OrchestratorError → OrchestratorCtx → OrchestratorCtx
reject_yaml e c =
    retry_reviewer_output_failure (format ("reviewer YAML parse failed: " ∷ error_text e ∷ []))
      (record c { reviewer_yaml_rejection = some (error_text e) })

abbrev pub save_verdict : String → ReviewerYaml → OrchestratorCtx → OrchestratorCtx
save_verdict raw y c = record c {
  reviewer_yaml_rejection = none;
  review_result_yaml_raw = some raw;
  review_result = some y;
}

-- The `match` on the Notion policy's check of a verdict. A panic is none of the program's.
abbrev pub take_enforced : Result (Unit {0}) → String → ReviewerYaml → Exec Bool
take_enforced (ok u) raw y c = (ok true, save_verdict raw y c)
take_enforced (err e) raw y c = (ok false, reject_yaml e c)
take_enforced panic raw y c = (panic, c)

-- The `match` on the parsed text.
abbrev pub take_parsed : Result ReviewerYaml → String → Exec Bool
take_parsed (ok y) raw c =
    take_enforced (enforce_reviewer_notion_policy c.args.notion_policy y) raw y c
take_parsed (err e) raw c = (ok false, reject_yaml e c)
take_parsed panic raw c = (panic, c)

-- Whether a verdict is now at hand.
unfoldable pub take_verdict : VerdictEnv → String → Exec Bool
take_verdict env raw c = take_parsed (parse_reviewer_yaml env.yaml raw) raw c

-- The workspace check and what follows it.
unfoldable pub check_workspace : VerdictEnv → Exec (Unit {0})
check_workspace env = do
  dirty ← reviewer_workspace_dirty_reason env
  elim dirty [
    | some reason ↦ modify λ c.
        retry_reviewer_output_failure
          (format ("reviewer workspace cleanup required: " ∷ reason ∷ []))
          (record c { reviewer_workspace_rejection = some reason })
    | none ↦ do
      modify
          λ c. record c { reviewer_workspace_rejection = none; run_state = RunState.quality_gate }
      phase_separator_wait
  ]

unfoldable pub snapshot_reviewer_outbox : VerdictEnv → Exec (Unit {0})
snapshot_reviewer_outbox env = do
  c ← gets (λ c. c)
  outbox ←
      lift (
        env.snapshot reviewer c.args.reviewer_provider
          (unwrap_or "<unbound>" c.reviewer_session_id))
  modify (λ c. record c { reviewer_outbox_snapshot = outbox })

-- The reading of the outbox.
unfoldable pub read_verdict : VerdictEnv → Option String → Exec (Unit {0})
read_verdict env none = modify (retry_reviewer_output_failure "reviewer outbox not readable")
read_verdict env (some raw) = do
  snapshot_reviewer_outbox env
  found ← take_verdict env raw
  elim found [ true ↦ check_workspace env | false ↦ pure tt ]

-- A saved verdict is not read again.
unfoldable pub collect_verdict : VerdictEnv → Exec (Unit {0})
collect_verdict env = do
  saved ← gets (λ c. is_some c.review_result)
  elim saved [
    | true ↦ do snapshot_reviewer_outbox env; check_workspace env
    | false ↦ read_verdict env env.read_outbox
  ]

-- What follows the test of the outbox's mtime, `true` where it is unchanged.
abbrev pub settle_output : Bool → VerdictEnv → Exec (Unit {0})
settle_output true env = modify (
    retry_reviewer_output_failure
      "reviewer outbox mtime unchanged after reviewer exit — retrying reviewer")
settle_output false env = collect_verdict env

unfoldable pub do_reviewer_output_collect : VerdictEnv → Exec (Unit {0})
do_reviewer_output_collect env = do
  attempt ← gets (λ c. c.attempt)
  current_mtime ← lift env.outbox_mtime
  settle_output (same_time (mtime_of attempt) current_mtime && is_some (mtime_of attempt)) env

-- The `match` of the quality gate on the decision.
unfoldable pub decide : ReviewDecision → ReviewerYaml → OrchestratorCtx → OrchestratorCtx
decide accept r c = record c { run_state = RunState.run_done; next_action_required = none }
decide revise r c = record c { run_state = RunState.round_feedback_prep }
decide blocked r c = record c {
  run_state = RunState.run_failed_external_blocker;
  next_action_required = r.blocking_reason;
}
decide irreconcilable_disagreement r c = record c {
  run_state = RunState.run_failed_irreconcilable_disagreement;
  next_action_required = r.irreconcilable_reason;
}
decide poisoned_session r c = record c {
  run_state = RunState.run_failed_poisoned_session;
  next_action_required = r.poisoned_session_reason;
}

abbrev pub gate : Option ReviewerYaml → OrchestratorCtx → OrchestratorCtx
gate none c = record c { run_state = RunState.run_failed_protocol }
gate (some r) c = decide r.decision r (record c { consecutive_failure_count = 0 })

unfoldable pub quality_gate : OrchestratorCtx → OrchestratorCtx
unfolding decide
quality_gate c = gate c.review_result c

unfoldable pub do_quality_gate : Exec (Unit {0})
do_quality_gate = modify quality_gate

unfoldable pub do_round_feedback_prep : Exec (Unit {0})
do_round_feedback_prep = do
  modify (λ c. record c { run_state = RunState.executor_dispatch })
  phase_separator_wait
