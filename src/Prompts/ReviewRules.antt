-- ===== src/Prompts/ReviewRules.antt =====
-- src/workflow.rs: the rules that only the reviewer is given.
use multi_agent_orchestrator.Prelude.{String, [], ◌∷◌}
use multi_agent_orchestrator.Prelude.Show.{format}
use multi_agent_orchestrator.State.{
  WorkflowType, plan, investigate, implement, ProviderKind, claude, opencode, codex,
}

unfoldable pub reviewer_format_check_rule : String
reviewer_format_check_rule =
    "- The reviewer must not run mutating formatters/fixers/auto-fixers. For formatting verification, use only non-mutating check commands from the relevant project profile or local repo docs. If formatting fails, return a finding/feedback; do not fix formatting yourself.\n"

unfoldable pub opencode_reviewer_outbox_read_rule : ProviderKind → String → String
opencode_reviewer_outbox_read_rule opencode outbox_path = format (
    "- If you are OpenCode: read `" ∷ outbox_path
    ∷ "` with the Read tool before any truncate/write.\n" ∷ [])
opencode_reviewer_outbox_read_rule claude outbox_path = ""
opencode_reviewer_outbox_read_rule codex outbox_path = ""

unfoldable pub reviewer_artifact_compliance_requirements : WorkflowType → String
reviewer_artifact_compliance_requirements plan = format (
    "- For workflow `plan` (track A), verify the required `PLAN.md` structure:\n"
    ∷ "- Verify that all required sections exist, are substantive (not placeholders), and are coherent: Affected components <-> Implementation steps <-> Testing strategy.\n"
    ∷ "- Verify that `Implementation steps` are concrete materializable actions with expected outcomes: change a file/module/function, add/update a test, add a migration/schema/DTO/contract, or run a specific check.\n"
    ∷ "- Verify that `PLAN.md` contains `Detected stack/profiles`, `Repo-approved commands found`, and `Verification plan`, and that selected checks match the relevant project profiles.\n"
    ∷ "- Verify that each implementation step names concrete files and code anchors: functions/types/endpoints/modules/test names; if relevant lines are known after investigation, file:line refs must be present.\n"
    ∷ "- For non-trivial logic, API/DTO/DB contracts, algorithms, and ambiguous areas, verify short code snippets or pseudocode; snippets must capture intent and contract, not replace the full implementation.\n"
    ∷ "- Standalone implementation steps such as `assess`, `study`, `investigate`, `figure out`, `look into`, `find out`, or `check whether possible` are findings: they defer discovery instead of planning implementation.\n"
    ∷ "- `decision=accept` is forbidden if a substantial part of `Implementation steps` is non-materializable discovery or leaves solution choice to implementation without an explicit blocker/open question.\n"
    ∷ "- `Testing strategy` must plan automated testing (unit/integration/e2e where applicable), not manual checks.\n"
    ∷ "- Manual checks are allowed only as fallback and only with an explicit explanation of why an automated test is objectively impossible in the current context (explicit gap + reason).\n"
    ∷ [])
reviewer_artifact_compliance_requirements investigate = format (
    "- For workflow `investigate` (track A), verify the required `INVESTIGATION.md` structure:\n"
    ∷ "- Verify that all required sections exist, are substantive (not placeholders), and are coherent: Research questions <-> Evidence <-> Findings <-> Conclusions.\n"
    ∷ "- Verify that `INVESTIGATION.md` contains `Detected stack/profiles`, `Repo-approved commands found`, and steps to verify/falsify findings when applicable to the task.\n"
    ∷ "- Do not require an automated test plan from investigation; if tests are mentioned, they must be only a brief follow-up implication, not an implementation checklist.\n"
    ∷ "- Verify that the main conclusion does not stop at a top-level/immediate cause: each primary hypothesis must have a causal chain like observed symptom -> immediate technical cause -> why that happened -> why that condition was possible -> actionable root cause or explicit unresolved boundary.\n"
    ∷ "- Verify that each causal-chain link is backed by evidence; if the chain stops, it must be recorded as an unresolved boundary with specific missing data/commands.\n"
    ∷ "- Verify that each key claim/conclusion is backed by a verifiable evidence reference: file:line refs for code, commit hashes for git history, command/log excerpts for logs/CLI.\n"
    ∷ "- `decision=accept` is forbidden if key conclusions rely on paraphrase without verifiable links to primary sources.\n"
    ∷ "- `decision=accept` is forbidden if investigation explains only \"what happened\" or the immediate cause, but not \"why it became possible\", when available sources allow deeper analysis.\n"
    ∷ "- Each research question from the user prompt must be closed by a conclusion or explicitly marked unresolved with a verifiable reason.\n"
    ∷ [])
reviewer_artifact_compliance_requirements implement = ""

unfoldable pub reviewer_investigate_independent_validation_rule : WorkflowType → String
reviewer_investigate_independent_validation_rule investigate = format (
    "- For workflow `investigate`, independently verify every key claim/conclusion and every key piece of evidence from `INVESTIGATION.md` against the primary source (code, git history, logs, commands), not only the artifact text.\n"
    ∷ "- For code evidence, require file:line refs; for git history, commit hashes; for logs/CLI, concrete command/log excerpts.\n"
    ∷ "- For each primary hypothesis, independently verify the causal chain: do not accept a conclusion that proves only the top-level cause without cause-of-cause when available sources allow deeper analysis.\n"
    ∷ "- Do not confirm a conclusion without verifiable evidence; if verification failed, explicitly mark this as a gap/uncertainty in findings.\n"
    ∷ [])
reviewer_investigate_independent_validation_rule plan = ""
reviewer_investigate_independent_validation_rule implement = ""

unfoldable pub reviewer_workflow_coverage_rule : WorkflowType → String
reviewer_workflow_coverage_rule investigate = format (
    "- For workflow `investigate`: independently formulate research questions from the user prompt and compare them with `INVESTIGATION.md`.\n"
    ∷ "- Check beyond what the executor mentioned: assess whether important questions, code paths, sources, alternative explanations, risks, or limitations were missed.\n"
    ∷ [])
reviewer_workflow_coverage_rule plan = format (
    "- For workflow `plan`: independently verify that `PLAN.md` covers the user prompt and `INVESTIGATION.md` (if present), including affected components, implementation steps, risks/tradeoffs, and automated tests.\n"
    ∷ "- Check beyond what the executor mentioned: assess whether important components, edge cases, migrations/data, integrations, risks, or test scenarios were missed.\n"
    ∷ [])
reviewer_workflow_coverage_rule implement = format (
    "- For workflow `implement`: besides every changed file, check relevant neighboring call sites, contracts, integrations, and invariants that may have broken because of the changes.\n"
    ∷ "- Check beyond what the executor mentioned: assess whether related files, edge cases, tests, migrations/data, runtime paths, or backward compatibility were missed.\n"
    ∷ [])
