-- ===== src/Run/Report.antt =====
-- src/orchestrator/mod.rs, `build_report`, with the report of src/report.rs.
use multi_agent_orchestrator.Prelude.{
  ◌≡◌, refl, ap, ◌∙◌, subst, ◌≢◌, ℕ, true, Option, none, some, String, List, map_option, and_then,
}
use multi_agent_orchestrator.Prelude.Float.{F64}
use multi_agent_orchestrator.State.{
  ProviderKind, RunState, WorkflowType, NotionPolicy, RemoteNetworkPolicy,
}
use multi_agent_orchestrator.Review.{ReviewerYaml, decision_as_str}
use multi_agent_orchestrator.Review.Valid.{ScoreIn, DecisionRules}
use multi_agent_orchestrator.Prelude.Text.{trim}
use multi_agent_orchestrator.Report.{ReasonCode, reason_code_for_state, is_success}
use multi_agent_orchestrator.Report.Codes.{is_success_iff}
use multi_agent_orchestrator.Context.{CliArgs, TransportBodyReport, OrchestratorCtx}
use multi_agent_orchestrator.Run.{Outcome, RunEnv, run}
use multi_agent_orchestrator.Run.Accepted.{Accepts, run-Accepts}

-- The report's fields, in the source's order. JSON payloads stand as their serialized texts.
pub record FinalReport : Type 0 where
  pub workflow_type : WorkflowType
  pub state : RunState
  pub reason_code : ReasonCode
  pub workspace_root : String
  pub branch : String
  pub notion_policy : NotionPolicy
  pub remote_network_policy : RemoteNetworkPolicy
  pub executor_provider : Option ProviderKind
  pub executor_session_id : Option String
  pub executor_thread_name : String
  pub executor_model : Option String
  pub reviewer_provider : Option ProviderKind
  pub reviewer_session_id : Option String
  pub reviewer_thread_name : String
  pub reviewer_model : Option String
  pub consecutive_failure_count : ℕ
  pub quality_score : Option F64
  pub reviewer_decision : Option String
  pub reviewer_rationale : Option String
  pub reviewer_findings : Option String
  pub reviewer_checks : Option String
  pub reviewer_verification_commands : Option String
  pub artifact_paths : List String
  pub commit_hashes : List String
  pub warnings : List String
  pub failures : List String
  pub next_action_required : Option String
  pub last_inbox : Option TransportBodyReport
  pub executor_outbox : Option TransportBodyReport
  pub reviewer_outbox : Option TransportBodyReport
  pub detail : Option String

-- `serde_json::to_value(v).ok()` is taken to succeed with the payload's text.
unfoldable pub build_report : OrchestratorCtx → FinalReport
build_report c =
    let review = c.review_result in
    record {
      workflow_type = c.args.workflow_type;
      state = c.run_state;
      reason_code = reason_code_for_state c.run_state;
      workspace_root = c.args.workspace_root;
      branch = c.branch;
      notion_policy = c.args.notion_policy;
      remote_network_policy = c.args.remote_network_policy;
      executor_provider = some c.args.executor_provider;
      executor_session_id = c.executor_session_id;
      executor_thread_name = c.args.executor_thread_name;
      executor_model = c.args.executor_model;
      reviewer_provider = some c.args.reviewer_provider;
      reviewer_session_id = c.reviewer_session_id;
      reviewer_thread_name = c.args.reviewer_thread_name;
      reviewer_model = c.args.reviewer_model;
      consecutive_failure_count = c.consecutive_failure_count;
      quality_score = map_option (λ r. r.quality_score) review;
      reviewer_decision = map_option (λ r. decision_as_str r.decision) review;
      reviewer_rationale = map_option (λ r. r.rationale) review;
      reviewer_findings = and_then review (λ r. r.findings);
      reviewer_checks = and_then review (λ r. r.checks_performed);
      reviewer_verification_commands = and_then review (λ r. r.verification_commands);
      artifact_paths = c.artifact_paths;
      commit_hashes = c.commit_hashes;
      warnings = c.warnings;
      failures = c.failures;
      next_action_required = c.next_action_required;
      last_inbox = c.last_inbox_snapshot;
      executor_outbox = c.executor_outbox_snapshot;
      reviewer_outbox = c.reviewer_outbox_snapshot;
      detail = c.detail;
    }

-- The report of a success: the reviewer accepted, with a score of 8 to 10 and a rationale.
abbrev pub ReportsAccept : FinalReport → Type 0
ReportsAccept f =
    (score : F64) × (rationale : String) × (f.quality_score ≡ some score)
    × ScoreIn 8 10 score
    × (f.reviewer_decision ≡ some "accept")
    × (f.reviewer_rationale ≡ some rationale)
    × (trim rationale ≢ "")

accepted-ReportsAccept :
    (c : OrchestratorCtx) (review : Option ReviewerYaml)
    → c.review_result ≡ review
    → Accepts c.args review
    → ReportsAccept (build_report c)
unfolding build_report decision_as_str
accepted-ReportsAccept c none e a = absurd a
accepted-ReportsAccept c (some y) e (valid, settled, decision) = (
  y.quality_score,
  y.rationale,
  ap (map_option (λ r. r.quality_score)) e,
  (subst (λ d. DecisionRules d y) decision valid.rules).0,
  ap (map_option (λ r. decision_as_str r.decision)) e ∙ ap (λ d. some (decision_as_str d)) decision,
  ap (map_option (λ r. r.rationale)) e,
  valid.rationale,
)

-- When a run's report has a reason code of success, the report says that the reviewer accepted, with
-- a score of 8 to 10 and a rationale that is not blank.
pub run-ReportsAccept :
    (env : RunEnv) (args : CliArgs) (c : OrchestratorCtx)
    → run env args ≡ (Outcome.finished, c)
    → is_success (build_report c).reason_code ≡ true
    → ReportsAccept (build_report c)
unfolding build_report
run-ReportsAccept env args c e s =
    accepted-ReportsAccept c c.review_result refl
      (run-Accepts env args c e ((is_success_iff c.run_state).0 s))
