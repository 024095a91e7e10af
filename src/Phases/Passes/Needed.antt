-- ===== src/Phases/Passes/Needed.antt =====
-- REVIEWER_OUTPUT_COLLECT of src/orchestrator/phases.rs, from the quality gate back to what came before it.
use multi_agent_orchestrator.Prelude.{
  ℕ, ◌≡◌, inl, inr, refl, ap, sym, ◌∙◌, Bool, true, false, Option, none, some, String, is_some,
  unwrap_or, map_option, arith,
}
use multi_agent_orchestrator.State.{RunState}
use multi_agent_orchestrator.Errors.{Result, ok, err, panic}
use multi_agent_orchestrator.Review.{ReviewerYaml, parse_reviewer_yaml}
use multi_agent_orchestrator.Context.{OrchestratorCtx}
use multi_agent_orchestrator.Context.Exec.{Exec, ◌>>◌, modify, pure}
use multi_agent_orchestrator.Context.Triple.{
  Pred, Ends, Triple, follow, follow_known, pull, pure_lem, lift_is, modify_lem,
}
use multi_agent_orchestrator.Phases.Verdict.{
  VerdictEnv, retry_reviewer_output_failure, enforce_reviewer_notion_policy,
  reviewer_workspace_dirty_reason,
}
use multi_agent_orchestrator.Phases.Gate.{
  mtime_of, settle_output, collect_verdict, read_verdict, take_verdict, take_parsed, take_enforced,
  check_workspace, snapshot_reviewer_outbox, do_reviewer_output_collect,
}
use multi_agent_orchestrator.Phases.Passes.{
  unchanged_mtime, changed_iff, Snapshotted, AtHand, CleanWorkspace, Passes,
}
use multi_agent_orchestrator.Phases.Workspace.{dirty_lines-AllExpected}

module _ (env : VerdictEnv) (c0 : OrchestratorCtx) where
  abbrev pub Any : Pred
  Any c = Unit

  abbrev pub AtGate : Type 0 → Pred
  AtGate K c = c.run_state ≡ RunState.quality_gate → K

  Ends-known :
      {A : Type 0} {K : Type 0} (r : Result A) (c : OrchestratorCtx)
      → K
      → Ends (λ a. AtGate K) Any r c
  Ends-known (ok a) c k = λ e. k
  Ends-known (err e) c k = tt
  Ends-known panic c k = tt

  known : {A : Type 0} {K : Type 0} {P : Pred} (m : Exec A) → K → Triple P m (λ a. AtGate K) Any
  known m k = record { at = λ c h. Ends-known (m c).0 (m c).1 k }

  retried :
      {K : Type 0} {P : Pred} (g : OrchestratorCtx → OrchestratorCtx) (reason : String)
      → Triple P (modify (λ c. retry_reviewer_output_failure reason (g c))) (λ u. AtGate K) Any
  unfolding retry_reviewer_output_failure
  retried g reason = modify_lem _ (λ c h e. cc)

  -- What a collection reads of the context is not written before it is read.
  abbrev Kept : Pred
  Kept c = (c.pre_reviewer_git_status ≡ c0.pre_reviewer_git_status) × (c.args ≡ c0.args)

  map_none : {A B : Type 0} (f : A → B) (o : Option A) → map_option f o ≡ none → o ≡ none
  map_none f none e = refl
  map_none f (some a) e = cc

  dirty-Clean :
      Triple Kept
        (reviewer_workspace_dirty_reason env)
        (λ d c. d ≡ none → (CleanWorkspace env c0))
        Any
  unfolding reviewer_workspace_dirty_reason
  dirty-Clean = follow (lift_is _ (λ c h. tt)) λ status. pull λ asked.
      follow_known _ (unwrap_or "" c0.pre_reviewer_git_status) (λ c h. ap (unwrap_or "") (sym h.0))
        (follow (lift_is _ (λ c h. tt)) λ found. pull λ got. pure_lem _ (λ c h e. (
          status,
          asked,
          (dirty_lines-AllExpected (unwrap_or "" c0.pre_reviewer_git_status) status
                ".agent-io/outbox.txt").0
              (got ∙ ap ok (map_none _ found e)),
        )))

  -- A constant fact before an action is a hypothesis.
  from_fact :
      {A : Type 0} {X : Type 0} {Q : A → Pred} {m : Exec A}
      → (X → Triple Any m Q Any)
      → Triple (λ c. X) m Q Any
  from_fact h = record { at = λ c x. (h x).at c tt }

  by_option :
      (P : Option String → Pred) {Q : Unit {0} → Pred} (k : Option String → Exec (Unit {0}))
      → Triple (P none) (k none) Q Any
      → ((reason : String) → Triple (P (some reason)) (k (some reason)) Q Any)
      → (o : Option String) → Triple (P o) (k o) Q Any
  by_option P k at_none at_some none = at_none
  by_option P k at_none at_some (some reason) = at_some reason

  workspace-Clean :
      {K : Type 0}
      → ((CleanWorkspace env c0) → K)
      → Triple Kept (check_workspace env) (λ u. AtGate K) Any
  unfolding check_workspace
  workspace-Clean k = follow dirty-Clean (
      by_option (λ dirty c. dirty ≡ none → (CleanWorkspace env c0)) _
        (from_fact λ clean. known _ (k (clean refl)))
        (λ reason. retried (λ c. record c { reviewer_workspace_rejection = some reason }) _))

  snapshot-Snapshotted :
      Triple (λ c. c ≡ c0) (snapshot_reviewer_outbox env) (λ u c. Kept c × (Snapshotted env c0)) Any
  unfolding snapshot_reviewer_outbox
  snapshot-Snapshotted =
      follow_known _ c0 (λ c h. sym h)
        (follow (lift_is _ (λ c h. tt)) λ o.
          modify_lem _
            (λ c (h, got). ((ap (λ d. d.pre_reviewer_git_status) h, ap (λ d. d.args) h), (o, got))))

  abbrev ReadNow : String → Type 0
  ReadNow raw =
      (y : ReviewerYaml) × (parse_reviewer_yaml env.yaml raw ≡ ok y)
      × (enforce_reviewer_notion_policy c0.args.notion_policy y ≡ ok tt)

  -- After the reading of a text: a verdict, or a failure that is counted.
  abbrev Taken : String → Bool → Pred
  Taken raw true c = Kept c × ReadNow raw
  Taken raw false c = c.run_state ≡ RunState.round_retry_decide

  enforced_at :
      (raw : String) (y : ReviewerYaml) (r : Result (Unit {0})) (c : OrchestratorCtx)
      → parse_reviewer_yaml env.yaml raw ≡ ok y
      → enforce_reviewer_notion_policy c.args.notion_policy y ≡ r
      → Kept c
      → Ends (Taken raw) Any (take_enforced r raw y c).0 (take_enforced r raw y c).1
  unfolding retry_reviewer_output_failure
  enforced_at raw y (ok u) c p e kept =
      (kept, (y, p, ap (λ a. enforce_reviewer_notion_policy a.notion_policy y) (sym kept.1) ∙ e))
  enforced_at raw y (err x) c p e kept = refl
  enforced_at raw y panic c p e kept = tt

  parsed_at :
      (raw : String) (r : Result ReviewerYaml) (c : OrchestratorCtx)
      → parse_reviewer_yaml env.yaml raw ≡ r
      → Kept c
      → Ends (Taken raw) Any (take_parsed r raw c).0 (take_parsed r raw c).1
  unfolding retry_reviewer_output_failure
  parsed_at raw (ok y) c p kept = enforced_at raw y _ c p refl kept
  parsed_at raw (err x) c p kept = refl
  parsed_at raw panic c p kept = tt

  take-Taken : (raw : String) → Triple Kept (take_verdict env raw) (Taken raw) Any
  unfolding take_verdict
  take-Taken raw = record { at = λ c kept. parsed_at raw _ c refl kept }

  collected :
      {K : Type 0}
      → ((Snapshotted env c0) → (AtHand env c0) → (CleanWorkspace env c0) → K)
      → Triple (λ c. c ≡ c0) (collect_verdict env) (λ u. AtGate K) Any
  unfolding collect_verdict read_verdict
  collected {K = K} k =
      follow_known _ (is_some c0.review_result) (λ c h. ap (λ d. is_some d.review_result) (sym h))
        (by_saved (is_some c0.review_result) refl)
    where
      by_found :
          (raw : String) (found : Bool)
          → (ReadNow raw → (CleanWorkspace env c0) → K)
          → Triple
              (Taken raw found)
              (elim found [ true ↦ check_workspace env | false ↦ pure tt ])
              (λ u. AtGate K)
              Any
      by_found raw true f = pull λ read. workspace-Clean (f read)
      by_found raw false f = pure_lem _ (λ c h e. cc)

      by_text :
          (text : Option String)
          → env.read_outbox ≡ text
          → c0.review_result ≡ none
          → Triple (λ c. c ≡ c0) (read_verdict env text) (λ u. AtGate K) Any
      by_text none e unsaved = retried (λ c. c) _
      by_text (some raw) e unsaved = follow snapshot-Snapshotted λ _. pull λ snap.
          follow (take-Taken raw)
            λ found. by_found raw found (λ (y, p, n). k snap (inr (raw, y, unsaved, e, p, n)))

      by_saved :
          (saved : Bool)
          → is_some c0.review_result ≡ saved
          → Triple
              (λ c. c ≡ c0)
              (elim saved [
                | true ↦ snapshot_reviewer_outbox env >> check_workspace env
                | false ↦ read_verdict env env.read_outbox
              ])
              (λ u. AtGate K)
              Any
      by_saved true e =
          follow snapshot-Snapshotted λ _. pull λ snap. workspace-Clean (k snap (inl e))
      by_saved false e = by_text env.read_outbox refl (ground arith)

  pub collect-Passes :
      Triple (λ c. c ≡ c0) (do_reviewer_output_collect env) (λ u. AtGate (Passes env c0)) Any
  unfolding do_reviewer_output_collect
  collect-Passes =
      follow_known _ c0.attempt (λ c h. ap (λ d. d.attempt) (sym h))
        (follow (lift_is _ (λ c h. tt))
          λ t. pull λ asked. by_test t asked (unchanged_mtime (mtime_of c0.attempt) t) refl)
    where
      by_test :
          (t : Option ℕ)
          → env.outbox_mtime ≡ ok t
          → (b : Bool) → unchanged_mtime (mtime_of c0.attempt) t ≡ b
          → Triple (λ c. c ≡ c0) (settle_output b env) (λ u. AtGate (Passes env c0)) Any
      by_test t asked true e = retried (λ c. c) _
      by_test t asked false e = collected λ snap verdict clean.
          ((t, asked, (changed_iff (mtime_of c0.attempt) t).0 e), snap, verdict, clean)
