-- ===== src/Phases/Passes.antt =====
-- REVIEWER_OUTPUT_COLLECT of src/orchestrator/phases.rs: what an output needs to reach the quality
-- gate.
pub mod Needed
pub mod Enough
use multi_agent_orchestrator.Prelude.{
  ℕ, ◌==◌, ◌≡◌, ◌≢◌, ◌⊎◌, ◌↔◌, inl, inr, refl, ap, sym, subst, ◌∙◌, ◌&&◌, Bool, true, false, Option,
  none, some, String, is_some, unwrap_or, map_option, arith,
}
use multi_agent_orchestrator.Prelude.Text.{lines}
use multi_agent_orchestrator.State.{reviewer, RunState}
use multi_agent_orchestrator.Errors.{Result, ok, err, panic}
use multi_agent_orchestrator.Review.{ReviewerYaml, parse_reviewer_yaml}
use multi_agent_orchestrator.Context.{AttemptStateData, OrchestratorCtx, TransportBodyReport}
use multi_agent_orchestrator.Context.Exec.{
  Exec, ◌>>=◌, ◌>>◌, continue, gets, lift, modify, pure, emit,
}
use multi_agent_orchestrator.Context.Triple.{
  Pred, Ends, Ends-ok, Triple, follow, follow_known, pull, pure_lem, lift_is, modify_lem,
}
use multi_agent_orchestrator.Phases.Request.{status_all}
use multi_agent_orchestrator.Phases.Verdict.{
  VerdictEnv, retry_reviewer_output_failure, enforce_reviewer_notion_policy,
  reviewer_workspace_dirty_lines, reviewer_workspace_dirty_reason,
}
use multi_agent_orchestrator.Phases.Retry.{count_failure}
use multi_agent_orchestrator.Phases.Gate.{
  same_time, mtime_of, settle_output, collect_verdict, read_verdict, take_verdict, take_parsed,
  save_verdict, take_enforced, check_workspace, snapshot_reviewer_outbox,
  do_reviewer_output_collect,
}
use multi_agent_orchestrator.Phases.Workspace.{AllExpected}

-- The test of the mtime of the dispatch against the one now.
abbrev pub unchanged_mtime : Option ℕ → Option ℕ → Bool
unchanged_mtime before now = same_time before now && is_some before

pub changed_iff :
    (before now : Option ℕ)
    → (unchanged_mtime before now ≡ false) ↔ ((before ≡ none) ⊎ (before ≢ now))
changed_iff none none = (λ h. inl refl, λ h. refl)
changed_iff none (some t) = (λ h. inl refl, λ h. refl)
changed_iff (some t) none = (λ h. inr (λ e. cc), λ h. refl)
changed_iff (some t) (some u) = (λ h. inr (λ e. ground arith), λ h. ground arith)

module _ (env : VerdictEnv) (c0 : OrchestratorCtx) where
  -- The outbox was written again: its mtime could be asked for and is not that of the dispatch, which
  -- does not count where the dispatch saw no outbox.
  abbrev pub Rewritten : Type 0
  Rewritten =
      (t : Option ℕ) × (env.outbox_mtime ≡ ok t)
      × ((mtime_of c0.attempt ≡ none) ⊎ (mtime_of c0.attempt ≢ t))

  abbrev pub Snapshotted : Type 0
  Snapshotted =
      (o : Option TransportBodyReport) × (env.snapshot reviewer c0.args.reviewer_provider
          (unwrap_or "<unbound>" c0.reviewer_session_id)
        ≡ ok o)

  -- A verdict is at hand: one that was saved before, or one that is read now, is valid and settles
  -- the Notion policy.
  abbrev pub AtHand : Type 0
  AtHand =
      (is_some c0.review_result ≡ true)
      ⊎ ((raw : String) × (y : ReviewerYaml) × (c0.review_result ≡ none)
          × (env.read_outbox ≡ some raw)
          × (parse_reviewer_yaml env.yaml raw ≡ ok y)
          × (enforce_reviewer_notion_policy c0.args.notion_policy y ≡ ok tt))

  -- Each line of the workspace's status stood there before the review or is of the outbox.
  abbrev pub CleanWorkspace : Type 0
  CleanWorkspace =
      (status : String) × (status_all env.git ≡ ok status)
      × AllExpected (lines (unwrap_or "" c0.pre_reviewer_git_status)) ".agent-io/outbox.txt"
          (lines status)

  abbrev pub Passes : Type 0
  Passes = Rewritten × Snapshotted × AtHand × CleanWorkspace
