-- ===== src/Run/Moves/Gate.antt =====
-- REVIEWER_OUTPUT_COLLECT: the only place where a verdict is saved, and only a checked one.
use multi_agent_orchestrator.Prelude.{
  ◌≡◌, refl, ap, inl, inr, ◌≢◌, ◌&&◌, arith, Bool, true, false, String, Option, none, some, is_some,
}
use multi_agent_orchestrator.State.{NotionPolicy, optional, required, RunState}
use multi_agent_orchestrator.Errors.{OrchestratorError, Result, ok, err, panic}
use multi_agent_orchestrator.Review.{ReviewerYaml, parse_reviewer_yaml}
use multi_agent_orchestrator.Review.Valid.{IsValid, parse_iff}
use multi_agent_orchestrator.Context.{OrchestratorCtx}
use multi_agent_orchestrator.Context.Triple.{
  Ends, Triple, follow, weaken, given, pure_lem, gets_is, gets_lem, lift_lem, modify_lem, emit_lem,
}
use multi_agent_orchestrator.Phases.Verdict.{
  VerdictEnv, retry_reviewer_output_failure, enforce_reviewer_notion_policy,
  reviewer_workspace_dirty_reason,
}
use multi_agent_orchestrator.Phases.Gate.{
  reject_yaml, take_enforced, take_parsed, take_verdict, check_workspace, snapshot_reviewer_outbox,
  read_verdict, same_time, mtime_of, settle_output, collect_verdict, do_reviewer_output_collect,
}
use multi_agent_orchestrator.Phases.Retry.{count_failure}
use multi_agent_orchestrator.Run.Core.{
  Core, core, to, retried, NotionSettled, Checked, Settled, Stopped,
}
use multi_agent_orchestrator.Run.Moves.{
  Is, Keeps, Keeps-any, Keeps-then, Keeps-lift, Keeps-pure, Keeps-gets, Keeps-modify,
}

-- The check of the Notion policy passes exactly the verdicts that settle it.
notion_passed :
    (p : NotionPolicy) (y : ReviewerYaml)
    → enforce_reviewer_notion_policy p y ≡ ok tt
    → NotionSettled p y
unfolding enforce_reviewer_notion_policy
notion_passed optional y h = tt
notion_passed required y h = ground arith

retry_counts :
    (reason : String) (c : OrchestratorCtx)
    → core (retry_reviewer_output_failure reason c) ≡ retried (core c)
unfolding retry_reviewer_output_failure count_failure
retry_counts reason c = refl

-- A verdict is at hand, and nothing else of the core has changed.
abbrev AtHand : Core → Core → Type 0
AtHand k y = Stopped k y × (y.verdict ≢ none)

abbrev AfterTake : Core → Bool → OrchestratorCtx → Type 0
AfterTake k true c = AtHand k (core c)
AfterTake k false c = Settled k (core c)

stop_unchanged : (x y : Core) → y ≡ x → Stopped x y
stop_unchanged x y h = rw h (inl refl, refl)

settle_retry : (x y : Core) → y ≡ x → Settled x (retried y)
settle_retry x y h = rw h (inl refl, inl refl)

rejected_moves :
    (k : Core) (e : OrchestratorError) (c : OrchestratorCtx)
    → core c ≡ k
    → Settled k (core (reject_yaml e c))
unfolding retry_reviewer_output_failure count_failure
rejected_moves k e c h = settle_retry k (core c) h

enforced_moves :
    (r : Result (Unit {0})) (raw : String) (y : ReviewerYaml) (k : Core) (c : OrchestratorCtx)
    → (r ≡ ok tt → Checked k.args (some y))
    → core c ≡ k
    → Ends
        (AfterTake k)
        (λ c. Stopped k (core c))
        (take_enforced r raw y c).0
        (take_enforced r raw y c).1
enforced_moves (ok u) raw y k c p h =
    ((inr (p refl, λ e. cc), ap (λ (x : Core). record x { verdict = some y }) h), λ e. cc)
enforced_moves (err e) raw y k c p h = rejected_moves k e c h
enforced_moves panic raw y k c p h = stop_unchanged k (core c) h

parsed_moves :
    (r : Result ReviewerYaml) (raw : String) (k : Core) (c : OrchestratorCtx)
    → ((y : ReviewerYaml) → r ≡ ok y → IsValid y)
    → core c ≡ k
    → Ends (AfterTake k) (λ c. Stopped k (core c)) (take_parsed r raw c).0 (take_parsed r raw c).1
parsed_moves (ok y) raw k c p h =
    enforced_moves (enforce_reviewer_notion_policy c.args.notion_policy y) raw y k c
      (λ e. (p y refl, rw (ap Core.args h) at (notion_passed c.args.notion_policy y e))) h
parsed_moves (err e) raw k c p h = rejected_moves k e c h
parsed_moves panic raw k c p h = stop_unchanged k (core c) h

take_moves :
    (env : VerdictEnv) (raw : String) (k : Core)
    → Triple (Is k) (take_verdict env raw) (AfterTake k) (λ c. Stopped k (core c))
unfolding take_verdict
take_moves env raw k = record {
  at = λ c h.
      parsed_moves (parse_reviewer_yaml env.yaml raw) raw k c
        (λ y e. ((parse_iff env.yaml raw y).0 e).2) h;
}

dirty-Keeps : (env : VerdictEnv) → Keeps (reviewer_workspace_dirty_reason env)
unfolding reviewer_workspace_dirty_reason
dirty-Keeps env =
    Keeps-then (Keeps-lift _) λ status.
      Keeps-then (Keeps-gets _) λ baseline. Keeps-then (Keeps-lift _) λ found. Keeps-pure _

workspace_moves :
    (env : VerdictEnv) (k : Core)
    → Triple
        (λ c. AtHand k (core c))
        (check_workspace env)
        (λ a c. Settled k (core c))
        (λ c. Stopped k (core c))
unfolding check_workspace retry_reviewer_output_failure count_failure
workspace_moves env k =
    follow (weaken (Keeps-any (AtHand k) _ (dirty-Keeps env)) (λ a c h. h) (λ c h. h.0)) (elim [
      | none ↦
          follow
            (modify_lem {Q = λ c. Settled k (core c)} _
              (λ c h. (h.0.0, inr (ap (to RunState.quality_gate) h.0.1, h.1))))
            (λ _. emit_lem _ (λ c h. h))
      | some reason ↦ modify_lem _ (λ c h. (h.0.0, inl (ap retried h.0.1)))
    ])

outbox-Keeps : (env : VerdictEnv) → Keeps (snapshot_reviewer_outbox env)
unfolding snapshot_reviewer_outbox
outbox-Keeps env =
    Keeps-then (Keeps-gets _) λ c. Keeps-then (Keeps-lift _) λ outbox. Keeps-modify _ (λ c. refl)

at_hand : (k y : Core) → (y ≡ k) × (is_some y.verdict ≡ true) → AtHand k y
at_hand k y (e, s) = (stop_unchanged k y e, λ none_left. cc)

read_moves :
    (env : VerdictEnv) (k : Core) (text : Option String)
    → Triple (Is k) (read_verdict env text) (λ a c. Settled k (core c)) (λ c. Stopped k (core c))
unfolding read_verdict retry_reviewer_output_failure count_failure
read_moves env k none = modify_lem _ (λ c h. settle_retry k (core c) h)
read_moves env k (some raw) =
    follow (weaken (outbox-Keeps env k) (λ a c h. h) (λ c h. stop_unchanged k (core c) h)) λ _.
      follow (take_moves env raw k)
        (elim [ true ↦ workspace_moves env k | false ↦ pure_lem _ (λ c h. h) ])

collect_moves :
    (env : VerdictEnv) (k : Core)
    → Triple (Is k) (collect_verdict env) (λ a c. Settled k (core c)) (λ c. Stopped k (core c))
unfolding collect_verdict
collect_moves env k = follow (gets_is (λ c. is_some c.review_result)) (elim [
  | true ↦
      given {P = λ c. AtHand k (core c)} (λ c h. at_hand k (core c) h)
        (follow (weaken (Keeps-any (AtHand k) _ (outbox-Keeps env)) (λ a c h. h) (λ c h. h.0))
          (λ _. workspace_moves env k))
  | false ↦ given {P = Is k} (λ c h. h.0) (read_moves env k env.read_outbox)
])

-- From the saved verdict and the failure count alone: the reviewer's output is settled by a counted
-- failure or by the quality gate, with a checked verdict.
pub reviewer_collect_moves :
    (env : VerdictEnv) (k : Core)
    → Triple
        (Is k)
        (do_reviewer_output_collect env)
        (λ a c. Settled k (core c))
        (λ c. Stopped k (core c))
unfolding do_reviewer_output_collect retry_reviewer_output_failure count_failure
reviewer_collect_moves env k = follow (gets_lem _) λ attempt.
    follow (lift_lem _ (λ c h. stop_unchanged k (core c) h))
      λ current. by_mtime (same_time (mtime_of attempt) current && is_some (mtime_of attempt))
  where
    by_mtime :
        (b : Bool)
        → Triple (Is k) (settle_output b env) (λ a c. Settled k (core c)) (λ c. Stopped k (core c))
    by_mtime true = modify_lem _ (λ c h. settle_retry k (core c) h)
    by_mtime false = collect_moves env k
