-- ===== src/Prompts/Rules.antt =====
-- src/workflow.rs: the fixed texts and the rules that depend on the workflow, the provider or a policy.
use multi_agent_orchestrator.Prelude.{String, [], ◌∷◌}
use multi_agent_orchestrator.Prelude.Show.{format}
use multi_agent_orchestrator.State.{
  WorkflowType, plan, investigate, implement, ProviderKind, claude, opencode, codex,
  RemoteNetworkPolicy, forbidden, read_only, operational,
}

unfoldable pub git_history_rewrite_rule : String
git_history_rewrite_rule = format (
    "- Do not use `git commit --amend`, `git rebase`, `git reset`, `git push --force`, or any other history-rewriting operation without a direct user command. If another fix is needed after a previous commit, create a new local commit.\n"
    ∷ "- Do not create commits while in detached HEAD mode.\n" ∷ [])

abbrev claude_subagent_text : String
claude_subagent_text =
    "- If you are Claude: delegate as many independent subtasks as practical to subagents (search, reading related files, checking hypotheses, reviewing code areas), while personally validating their outputs and assembling the final result.\n"

unfoldable pub artifact_reread_rule : String
artifact_reread_rule =
    "- Before using `PLAN.md` or `INVESTIGATION.md`, reread the corresponding file from `workspace_root` right now, even if you think you already know its contents from a previous round or session context.\n"

unfoldable pub reviewer_yaml_schema : String
reviewer_yaml_schema = format (
    "quality_score: 0\n" ∷ "decision: \"revise\"\n" ∷ "rationale: |-\n"
    ∷ "  English user-readable rationale.\n" ∷ "contract_satisfied: false\n"
    ∷ "hard_blockers_present: false\n" ∷ "notion_requirements_satisfied: true\n"
    ∷ "feedback_for_executor:\n" ∷ "  - |-\n"
    ∷ "    A concrete instruction or observation for the executor to evaluate.\n"
    ∷ "checks_performed: \"free_form_or_object_or_array\"\n"
    ∷ "findings: \"free_form_or_object_or_array\"\n"
    ∷ "verification_commands: \"free_form_or_object_or_array\"\n" ∷ "blocking_reason: null\n"
    ∷ "irreconcilable_reason: null\n" ∷ "poisoned_session_reason: null" ∷ [])

unfoldable pub workflow_contract_text : WorkflowType → String
workflow_contract_text plan =
    "Required: PLAN.md exists, non-empty, structurally valid; local commit when git-tracked files in workspace changed; executor outbox exists and is non-empty. SOFT_SUCCESS allowed when PLAN.md exists but outbox is missing after grace period."
workflow_contract_text investigate =
    "Required: INVESTIGATION.md exists, non-empty, structurally valid; local commit when git-tracked files in workspace changed; executor outbox exists and is non-empty. SOFT_SUCCESS allowed when INVESTIGATION.md exists but outbox is missing after grace."
workflow_contract_text implement =
    "Required: local commit for git-tracked workspace changes; clean worktree; executor outbox exists and is non-empty; requested tests/markers validate when deterministic command status is available. SOFT_SUCCESS routes to reviewer when outbox is missing after grace; the reviewer must verify commit presence, worktree cleanliness, tests, and implementation quality."

unfoldable pub artifact_structure_name : WorkflowType → String
artifact_structure_name plan = "`PLAN.md`"
artifact_structure_name investigate = "`INVESTIGATION.md`"
artifact_structure_name implement = ""

unfoldable pub artifact_structure_items : WorkflowType → String
artifact_structure_items plan = format (
    "- Context\n" ∷ "- Investigation context (if `INVESTIGATION.md` exists)\n"
    ∷ "- Detected stack/profiles\n" ∷ "- Repo-approved commands found\n" ∷ "- Affected components\n"
    ∷ "- Implementation steps (numbered, with file paths; each item must have a concrete materializable result)\n"
    ∷ "- Verification plan\n"
    ∷ "- Testing strategy (categories 1/2/3: no refactoring / light / heavy)\n"
    ∷ "- Risks and tradeoffs\n" ∷ "- Open questions\n" ∷ [])
artifact_structure_items investigate = format (
    "- Context/Task\n" ∷ "- Research questions\n" ∷ "- Scope and constraints\n"
    ∷ "- Detected stack/profiles\n" ∷ "- Repo-approved commands found\n" ∷ "- Observed symptom\n"
    ∷ "- Immediate cause\n" ∷ "- Causal chain / why chain\n" ∷ "- Evidence per causal link\n"
    ∷ "- Root cause / unresolved boundary\n" ∷ "- Sources checked\n" ∷ "- Evidence\n"
    ∷ "- Evidence references (file:line refs for code, commit hashes for git history, command/log excerpts for logs/CLI)\n"
    ∷ "- Findings\n" ∷ "- Relevant code paths\n" ∷ "- Timeline/history (if applicable)\n"
    ∷ "- Hypotheses/alternatives (if applicable)\n" ∷ "- Risk/impact\n" ∷ "- Conclusions\n"
    ∷ "- Recommendations/next steps\n" ∷ "- Verification/falsification steps for findings\n"
    ∷ "- Follow-up verification implications (if applicable; do not format this as an automated test plan)\n"
    ∷ "- Open questions\n" ∷ [])
artifact_structure_items implement = ""

unfoldable pub executor_breakage_block_rule : WorkflowType → String
executor_breakage_block_rule plan =
    "- A `What Could Break` block is required: list potential regressions/risks after changes (behavior, API/contracts, data/DB, integrations, performance/resources) and how to verify them.\n"
executor_breakage_block_rule implement =
    "- A `What Could Break` block is required: list potential regressions/risks after changes (behavior, API/contracts, data/DB, integrations, performance/resources) and how to verify them.\n"
executor_breakage_block_rule investigate = ""

unfoldable pub executor_implement_verification_scope_rule : WorkflowType → String
executor_implement_verification_scope_rule plan = ""
executor_implement_verification_scope_rule investigate = ""
executor_implement_verification_scope_rule implement =
    "- A full build is not required after all work if the relevant project profile or repo-approved checks already provide sufficient compile/lint verification for your scope; explicitly state the selected check in outbox.\n"

unfoldable pub executor_plan_test_coverage_rule : WorkflowType → String
executor_plan_test_coverage_rule plan = format (
    "- For workflow `plan`, do not defer discovery/assessment to implementation: before writing `PLAN.md`, read the relevant files, call sites, schemas, tests, migrations, configs, and existing patterns yourself.\n"
    ∷ "- `Implementation steps` must be concrete and materializable: change a file/module/function, add/update a test, add a migration/schema/DTO/contract, or run a specific check. Each item must have a clear expected outcome.\n"
    ∷ "- For each implementation step, name concrete files and code anchors: functions/types/endpoints/modules/test names. If relevant lines are known after investigation, add file:line refs.\n"
    ∷ "- Add short code snippets or pseudocode for non-trivial logic, API/DTO/DB contracts, algorithms, and places where an example prevents ambiguous implementation.\n"
    ∷ "- Do not turn `PLAN.md` into a full implementation: snippets must capture intent and contract, not replace code.\n"
    ∷ "- Do not use vague standalone implementation steps such as `assess`, `study`, `investigate`, `figure out`, `look into`, `find out`, or `check whether possible`.\n"
    ∷ "- If a solution cannot be chosen without additional information, do not hide that in `Implementation steps`: either perform the check now during planning, or put it in `Open questions` / `Blockers` with the exact question, blocking reason, and required unblocking input.\n"
    ∷ "- Workflow `plan` must plan automated tests (unit/integration/e2e where applicable), not manual checks.\n"
    ∷ "- Manual checks are allowed only as fallback when an automated test is objectively impossible in the current context.\n"
    ∷ "- For the automated test plan: cover happy-path + negative-path + edge-case as far as reasonable; if something is not covered by automated tests, explicitly record the gap and reason.\n"
    ∷ [])
executor_plan_test_coverage_rule investigate = ""
executor_plan_test_coverage_rule implement = ""

unfoldable pub executor_investigation_causal_chain_rule : WorkflowType → String
executor_investigation_causal_chain_rule plan = ""
executor_investigation_causal_chain_rule investigate = format (
    "- For workflow `investigate`, do not stop at the top-level cause / immediate cause. For the main hypothesis, build a causal chain: observed symptom -> immediate technical cause -> why that happened -> why that condition was possible -> actionable root cause or explicit unresolved boundary.\n"
    ∷ "- For each causal-chain link, provide evidence: file:line, log excerpt, command output, data example, or commit reference.\n"
    ∷ "- If deeper analysis requires unavailable data, do not guess: explicitly mark an unresolved boundary and state which concrete data/commands are needed.\n"
    ∷ "- Do not use `main hypothesis` as the final conclusion if it explains only the top level. The final conclusion must answer `why this became possible`.\n"
    ∷ "- For each primary hypothesis, state the immediate cause, cause-of-cause, deeper/root cause, evidence per link, confidence, and what would falsify this hypothesis.\n"
    ∷ "- Do not require exactly five causality levels and do not force an artificial chain: go as deep as the actionable root cause or a proven unresolved boundary.\n"
    ∷ [])
executor_investigation_causal_chain_rule implement = ""

unfoldable pub remote_network_policy_section : RemoteNetworkPolicy → String
remote_network_policy_section forbidden = format (
    "Remote access policy:\n" ∷ "- Do not use SSH to access remote target systems.\n"
    ∷ "- Do not make HTTP requests to remote target systems.\n"
    ∷ "- Investigate only local code, local artifacts, and explicitly allowed local CLI tools.\n"
    ∷ "\n" ∷ [])
remote_network_policy_section read_only = format (
    "Remote access policy:\n"
    ∷ "- Only read-only access to remote target systems is allowed for investigation.\n"
    ∷ "- SSH is allowed only for reading: viewing logs, configs, statuses, metrics, versions, time, environment, and other diagnostic information.\n"
    ∷ "- HTTP is allowed only for read-only requests: GET/HEAD/OPTIONS and necessary auth requests to obtain read-only access.\n"
    ∷ "- Any changes to files, configs, processes, services, DBs, queues, caches, and runtime state are forbidden.\n"
    ∷ "- POST/PUT/PATCH/DELETE and any HTTP requests with side effects are forbidden, except explicitly necessary auth requests.\n"
    ∷ "- Service stop/restart/reload and any commands that change system state are forbidden.\n"
    ∷ "- Do not unpack log archives on a remote system; if compressed logs must be read, use streaming read/grep without creating files.\n"
    ∷ "- If a command may mutate state or is ambiguous, do not run it; first record the concern in outbox.\n"
    ∷ "- If you performed remote SSH/HTTP actions, list them in outbox with classification: read-only or mutating.\n"
    ∷ "\n" ∷ [])
remote_network_policy_section operational = format (
    "Remote access policy:\n"
    ∷ "- Operational actions are allowed on the remote target system explicitly named by the user.\n"
    ∷ "- Application config changes, read/write HTTP requests, enabling/disabling diagnostic settings, and application stop/restart/reload are allowed when needed for the task.\n"
    ∷ "- Reading DBs and running read-only SQL queries is allowed.\n"
    ∷ "- DB mutations are forbidden: INSERT/UPDATE/DELETE/TRUNCATE/ALTER/DROP/CREATE and any SQL/CLI actions with side effects.\n"
    ∷ "- Do not unpack log archives on a remote system; if compressed logs must be read, use streaming read/grep without creating files.\n"
    ∷ "- Use the minimum necessary changes: before any mutating action, understand the goal, expected effect, and how to roll back/verify the result.\n"
    ∷ "- Non-work, non-operational, and system-destructive actions are forbidden: installing/removing OS packages and tools, changing OS settings, users, firewall/network/systemd outside the application, clearing data without an explicit command, and destructive shell/git operations.\n"
    ∷ "- Actions outside the user-specified target system are forbidden.\n"
    ∷ "- List all mutating actions in outbox: command/request, goal, time, result, rollback, or why rollback is unnecessary.\n"
    ∷ "\n" ∷ [])

unfoldable pub claude_subagent_rule : ProviderKind → String
claude_subagent_rule claude = claude_subagent_text
claude_subagent_rule opencode = ""
claude_subagent_rule codex = ""

unfoldable pub opencode_outbox_write_rule : ProviderKind → String → String
opencode_outbox_write_rule opencode outbox_path = format (
    "- If you are OpenCode: first read `" ∷ outbox_path
    ∷ "` with the Read tool, then clear the file in-place via truncate, then write the result; do not delete `outbox.txt`.\n"
    ∷ [])
opencode_outbox_write_rule claude outbox_path = ""
opencode_outbox_write_rule codex outbox_path = ""

unfoldable pub plan_investigation_rule : WorkflowType → String
plan_investigation_rule plan =
    "- If `INVESTIGATION.md` exists in workspace_root, you must read it and use it as planning input.\n"
plan_investigation_rule investigate = ""
plan_investigation_rule implement = ""

unfoldable pub implement_plan_rule : WorkflowType → String
implement_plan_rule implement =
    "- If `PLAN.md` exists in workspace_root, you must read it and use it as implementation input.\n"
implement_plan_rule plan = ""
implement_plan_rule investigate = ""

unfoldable pub existing_artifact_refine_rule : WorkflowType → String
existing_artifact_refine_rule plan =
    "- If `PLAN.md` already exists, read it first and refine it as the current artifact instead of ignoring it.\n"
existing_artifact_refine_rule investigate =
    "- If `INVESTIGATION.md` already exists, read it first and refine/correct it as the current artifact instead of ignoring it.\n"
existing_artifact_refine_rule implement = ""
