-- ===== src/Phases/Passes/Enough.antt =====
-- REVIEWER_OUTPUT_COLLECT of src/orchestrator/phases.rs, on to the quality gate.
use multi_agent_orchestrator.Prelude.{
  ◌≡◌, ◌↔◌, inl, inr, refl, ap, sym, subst, Option, some, String, is_some, unwrap_or,
}
use multi_agent_orchestrator.State.{reviewer, RunState}
use multi_agent_orchestrator.Errors.{Result, ok}
use multi_agent_orchestrator.Review.{ReviewerYaml, parse_reviewer_yaml}
use multi_agent_orchestrator.Context.{OrchestratorCtx, TransportBodyReport}
use multi_agent_orchestrator.Context.Exec.{◌>>=◌, continue, gets, lift, modify, pure, emit}
use multi_agent_orchestrator.Context.Triple.{Ends-ok}
use multi_agent_orchestrator.Phases.Verdict.{
  VerdictEnv, enforce_reviewer_notion_policy, reviewer_workspace_dirty_reason,
}
use multi_agent_orchestrator.Phases.Gate.{
  mtime_of, settle_output, collect_verdict, read_verdict, take_verdict, save_verdict,
  check_workspace, snapshot_reviewer_outbox, do_reviewer_output_collect,
}
use multi_agent_orchestrator.Phases.Passes.{
  unchanged_mtime, changed_iff, Snapshotted, AtHand, CleanWorkspace, Passes,
}
use multi_agent_orchestrator.Phases.Workspace.{dirty_lines-AllExpected}
use multi_agent_orchestrator.Phases.Passes.Needed.{Any, AtGate, collect-Passes}

module _ (env : VerdictEnv) (c0 : OrchestratorCtx) where
  abbrev Reached : Result (Unit {0}) × OrchestratorCtx → Type 0
  Reached (r, c) = (r ≡ ok tt) × (c.run_state ≡ RunState.quality_gate)

  workspace-Reached :
      (c : OrchestratorCtx)
      → c.pre_reviewer_git_status ≡ c0.pre_reviewer_git_status
      → (CleanWorkspace env c0)
      → Reached (check_workspace env c)
  unfolding check_workspace reviewer_workspace_dirty_reason ◌>>=◌ continue gets lift modify pure
      emit
  workspace-Reached c same (status, asked, clean) =
      let none_left =
        (dirty_lines-AllExpected (unwrap_or "" c0.pre_reviewer_git_status) status
            ".agent-io/outbox.txt").1
          clean in
      rw (asked, same, none_left) (refl, refl)

  read-Reached :
      (o : Option TransportBodyReport)
      → env.snapshot reviewer c0.args.reviewer_provider
          (unwrap_or "<unbound>" c0.reviewer_session_id)
        ≡ ok o
      → (raw : String) (y : ReviewerYaml) → parse_reviewer_yaml env.yaml raw ≡ ok y
      → enforce_reviewer_notion_policy c0.args.notion_policy y ≡ ok tt
      → (CleanWorkspace env c0)
      → Reached (read_verdict env (some raw) c0)
  unfolding read_verdict snapshot_reviewer_outbox take_verdict ◌>>=◌ continue gets lift modify
  read-Reached o snap raw y p n clean =
      rw (snap, p, n)
        (workspace-Reached (save_verdict raw y (record c0 { reviewer_outbox_snapshot = o })) refl
          clean)

  collected-Reached :
      (Snapshotted env c0)
      → (AtHand env c0)
      → (CleanWorkspace env c0)
      → Reached (collect_verdict env c0)
  unfolding collect_verdict snapshot_reviewer_outbox ◌>>=◌ continue gets lift modify
  collected-Reached (o, snap) (inl saved) clean =
      rw (saved, snap) (workspace-Reached (record c0 { reviewer_outbox_snapshot = o }) refl clean)
  collected-Reached (o, snap) (inr (raw, y, unsaved, text, p, n)) clean = rw (ap is_some unsaved) (
      subst (λ t. Reached (read_verdict env t c0)) (sym text) (read-Reached o snap raw y p n clean))

  passes-Reached : (Passes env c0) → Reached (do_reviewer_output_collect env c0)
  unfolding do_reviewer_output_collect ◌>>=◌ continue gets lift
  passes-Reached ((t, asked, changed), snap, verdict, clean) =
      subst
        (λ r.
          Reached
            (continue r (λ now. settle_output (unchanged_mtime (mtime_of c0.attempt) now) env) c0))
        (sym asked)
        (subst (λ b. Reached (settle_output b env c0))
          (sym ((changed_iff (mtime_of c0.attempt) t).1 changed))
          (collected-Reached snap verdict clean))

-- The collection of a reviewer's output returns at the quality gate exactly when the outbox's mtime
-- is not the one that the dispatch saw, if it saw one, a snapshot of the outbox could be taken, a
-- verdict is saved already or a valid one that settles the Notion policy is read now, and each line
-- of the workspace's status stood there before the review or is of the outbox.
pub do_reviewer_output_collect_iff :
    (env : VerdictEnv) (c : OrchestratorCtx)
    → (((do_reviewer_output_collect env c).0 ≡ ok tt)
        × ((do_reviewer_output_collect env c).1.run_state ≡ RunState.quality_gate))
      ↔ Passes env c
do_reviewer_output_collect_iff env c = (
  λ (e, at_gate).
      Ends-ok (λ u. AtGate env c (Passes env c)) (Any env c) (do_reviewer_output_collect env c).1 e
        ((collect-Passes env c).at c refl) at_gate,
  passes-Reached env c,
)
