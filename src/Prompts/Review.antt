-- ===== src/Prompts/Review.antt =====
-- src/workflow.rs: the prompt of a review.
use multi_agent_orchestrator.Prelude.{String, List, [], ◌∷◌, unwrap_or, if◌then◌else◌}
use multi_agent_orchestrator.Prelude.Show.{format}
use multi_agent_orchestrator.State.{notion_as_str, workflow_as_str}
use multi_agent_orchestrator.Phases.Request.{TemplateValues}
use multi_agent_orchestrator.Prompts.Rules.{
  git_history_rewrite_rule, reviewer_yaml_schema, remote_network_policy_section,
  claude_subagent_rule,
}
use multi_agent_orchestrator.Prompts.ReviewRules.{
  reviewer_format_check_rule, opencode_reviewer_outbox_read_rule,
  reviewer_artifact_compliance_requirements, reviewer_investigate_independent_validation_rule,
  reviewer_workflow_coverage_rule,
}
use multi_agent_orchestrator.Prompts.Sections.{
  notion_protocol_path, gitlab_protocol_path, reviewer_project_profiles_section,
  artifact_structure_section, run_paths_section,
}

unfoldable pub outbox_section : TemplateValues → String
outbox_section v =
    if v.executor_outbox_present
    then format (
        "Executor result:\n"
        ∷ "- The executor completed the round and wrote a free-form text report to `"
        ∷ v.outbox_path
        ∷ "`.\n"
        ∷ "- Read `"
        ∷ v.outbox_path
        ∷ "` yourself before review.\n"
        ∷ opencode_reviewer_outbox_read_rule v.provider v.outbox_path
        ∷ "- Do not expect a strict format in executor outbox.\n"
        ∷ "- After reading executor outbox and completing review, clear `"
        ∷ v.outbox_path
        ∷ "` in-place and write only your YAML there."
        ∷ [])
    else format (
        "Executor result:\n"
        ∷ "- The executor completed the round in soft-success mode: outbox.txt is missing or empty.\n"
        ∷ "- Do not try to read outbox.txt as the executor report source; it has no data.\n"
        ∷ "- Review the result only from git facts and required artifact presence in the workspace.\n"
        ∷ "- Write your YAML directly to `" ∷ v.outbox_path
        ∷ "` (clear in-place via truncate, then write)." ∷ [])

-- The pieces of the prompt, in order.
unfoldable pub review_pieces : String → TemplateValues → List String
review_pieces current_dir v =
    "You are the reviewer agent in workflow `"
    ∷ workflow_as_str v.workflow_type
    ∷ "`.\n"
    ∷ "\n"
    ∷ "Run context:\n"
    ∷ "- workspace_root: `"
    ∷ v.workspace_root
    ∷ "`\n"
    ∷ "- branch: `"
    ∷ v.branch
    ∷ "`\n"
    ∷ "- notion_policy: `"
    ∷ notion_as_str v.notion_policy
    ∷ "`\n"
    ∷ "\n"
    ∷ run_paths_section v
    ∷ "User prompt:\n"
    ∷ v.user_prompt
    ∷ "\n"
    ∷ "\n"
    ∷ "Workflow contract:\n"
    ∷ v.workflow_contract
    ∷ "\n"
    ∷ "\n"
    ∷ artifact_structure_section "Artifact structure (for review):\n" v.workflow_type
    ∷ "Mandatory protocols:\n"
    ∷ "- Read and follow `"
    ∷ notion_protocol_path current_dir
    ∷ "` as the mandatory Notion protocol.\n"
    ∷ "- Read and follow `"
    ∷ gitlab_protocol_path current_dir
    ∷ "` as the mandatory GitLab protocol.\n"
    ∷ claude_subagent_rule v.provider
    ∷ "\n"
    ∷ reviewer_project_profiles_section v
    ∷ "\n"
    ∷ "Executor data:\n"
    ∷ outbox_section v
    ∷ "\n"
    ∷ "\n"
    ∷ "Git facts:\n"
    ∷ v.git_facts
    ∷ "\n"
    ∷ "\n"
    ∷ remote_network_policy_section v.remote_network_policy
    ∷ "CRITICAL: review purpose\n"
    ∷ "- Your main task is not to confirm that commands pass, but to perform a full critical review of the artifact and/or code.\n"
    ∷ "- Independently verify conclusion correctness, scope completeness, alignment with user prompt/PLAN.md/INVESTIGATION.md, all changed files, related code paths, and possible regressions.\n"
    ∷ "- Verification commands from project profiles or repo docs are only additional evidence. They do not replace reading, analysis, and code/artifact review.\n"
    ∷ "- `decision=accept` is forbidden if you did not independently verify key claims, changed files, and material risks.\n"
    ∷ "\n"
    ∷ "What to check:\n"
    ∷ "\n"
    ∷ "1. Scope reconstruction\n"
    ∷ "- Independently verify the executor result.\n"
    ∷ "- Do not trust the executor self-report without verification.\n"
    ∷ "- Do not limit review to what the executor mentioned: independently reconstruct expected scope from the user prompt, workflow contract, and mandatory input artifacts.\n"
    ∷ "- If the user prompt mentions a Notion task, separately state in review which Notion commands/evidence you independently verified (not only from executor claims).\n"
    ∷ "\n"
    ∷ "2. Artifacts and claims review\n"
    ∷ "- Artifact review must not be done from memory or from the executor summary: before evaluating, reread `PLAN.md` / `INVESTIGATION.md` from `workspace_root` right now, even if you think you already know their contents.\n"
    ∷ "- Check whether important questions, code paths, files, sources, edge cases, risks, tests, or alternative explanations/solutions were missed.\n"
    ∷ "- If the executor did not mention an important area it should have checked from prompt/context, this is a finding; `decision=accept` is forbidden if the omission is material.\n"
    ∷ "\n"
    ∷ "3. Code and diff review\n"
    ∷ "- You must check code and commit changes (diff/files/content), not only outbox and test runs.\n"
    ∷ "- You must check every changed file from the executor commit(s); selective file review is not allowed.\n"
    ∷ "\n"
    ∷ "4. Risks and compatibility\n"
    ∷ "- Separately check compatibility and regression risks: API/contracts, behavior, data/DB, serialization/deserialization, integration assumptions.\n"
    ∷ "- A `What Could Break` block is required: list potential regressions and their impact; if no risks were found, explicitly state what was checked and why risk is low.\n"
    ∷ "- Separately state what was done, not done, partially/controversially done, and changed unnecessarily outside scope.\n"
    ∷ "\n"
    ∷ "5. Finding requirements\n"
    ∷ "- Every material finding must be evidence-backed and actionable: where (file/line), what is wrong, why it is a risk, and the minimal fix.\n"
    ∷ "- If there are no findings, explicitly state `no findings` and briefly list what was checked.\n"
    ∷ "- Vague wording (for example, `seems OK`, `looks fine`, `appears correct`) is forbidden without verifiable support.\n"
    ∷ "\n"
    ∷ "Workflow-specific checks:\n"
    ∷ reviewer_workflow_coverage_rule v.workflow_type
    ∷ "- Perform review in two independent tracks:\n"
    ∷ "- Track A (compliance): for workflow `implement`, if `PLAN.md` is present, checking implementation against PLAN.md items is mandatory; if `PLAN.md` is absent, checking implementation against the user prompt and workflow contract is mandatory.\n"
    ∷ "- Track B (independent code review): separately from PLAN.md/user prompt, check quality and correctness of the code changes themselves: logic, regressions, architectural risks, unnecessary changes outside scope.\n"
    ∷ reviewer_investigate_independent_validation_rule v.workflow_type
    ∷ reviewer_artifact_compliance_requirements v.workflow_type
    ∷ "\n"
    ∷ "Minimum checklist before accept:\n"
    ∷ "- all changed files were checked;\n"
    ∷ "- related call sites / code paths were checked;\n"
    ∷ "- key executor claims were checked;\n"
    ∷ "- omitted scope / risks / edge cases were checked;\n"
    ∷ "- tests are not the only basis for accept;\n"
    ∷ "- no high/critical findings exist.\n"
    ∷ "\n"
    ∷ "Reviewer constraints and policies:\n"
    ∷ "\n"
    ∷ "1. Workspace and Git\n"
    ∷ reviewer_format_check_rule
    ∷ "- Do not change git-tracked workspace_root files, workflow artifacts, git index, commits, branches, or provider metadata.\n"
    ∷ git_history_rewrite_rule
    ∷ "\n"
    ∷ "2. Transport and outbox\n"
    ∷ "- The only file you must change is `"
    ∷ v.outbox_path
    ∷ "`, where you write the final YAML.\n"
    ∷ "- Do not use `.agent-io` from other directories.\n"
    ∷ "- Before writing outbox, verify that `"
    ∷ v.outbox_path
    ∷ "` starts with `workspace_root` (`"
    ∷ v.workspace_root
    ∷ "`). If outbox path is not inside `workspace_root`, stop and write an error to the correct `"
    ∷ v.outbox_path
    ∷ "`.\n"
    ∷ "- If executor outbox clearly shows the executor is responding to the wrong repo/request/thread or using the wrong transport path, return `decision: poisoned_session` and fill `poisoned_session_reason`.\n"
    ∷ "\n"
    ∷ "3. Language and formatting\n"
    ∷ "- Write user-facing artifacts in English (`PLAN.md`, `INVESTIGATION.md`, executor outbox, reviewer YAML: `rationale`, `feedback_for_executor`, `checks_performed`, `findings`, `verification_commands`, `blocking_reason`, `irreconcilable_reason`, `poisoned_session_reason`).\n"
    ∷ "\n"
    ∷ "4. Contract, git facts, and artifacts\n"
    ∷ "- Passing tests are necessary, but not sufficient for `decision=accept` without confirmed correctness of code changes.\n"
    ∷ "- Verify workflow contract compliance.\n"
    ∷ "- Verify git facts and required artifact presence in the workspace.\n"
    ∷ "\n"
    ∷ "5. Remote access violations\n"
    ∷ "- Check remote access policy compliance. If the executor performed a forbidden remote action, return `decision: blocked`, `hard_blockers_present: true`, and fill `blocking_reason` with the violation description; do not return `revise`.\n"
    ∷ "- For remote access policy violations, include in `findings`: what action was performed, why it is forbidden by the current policy, and what traces/risks a human should check.\n"
    ∷ "- If a remote access policy violation occurred, do not ask the executor to continue investigating or perform compensating actions without a direct new user command.\n"
    ∷ "\n"
    ∷ "Decision policy:\n"
    ∷ "- First independently assign quality_score from 0 to 10 and set contract_satisfied/hard_blockers_present from facts.\n"
    ∷ "- Set `contract_satisfied=true` only if mandatory workflow contract conditions are met by verifiable facts (artifact/git/notion policy).\n"
    ∷ "- Set `hard_blockers_present=true` if there is at least one external/critical blocker that prevents successful completion of the round.\n"
    ∷ "- `decision=accept` is forbidden if mandatory requirements are unmet, key claims are unverified, or there is any serious finding (`major|high|serious|critical`).\n"
    ∷ "- If there is at least one serious/critical issue (`major|high|serious|critical`), `hard_blockers_present` must be `true`.\n"
    ∷ "- Then choose decision based on the already assigned score and facts.\n"
    ∷ "- Return decision: `accept`, `revise`, `blocked`, `irreconcilable_disagreement`, or `poisoned_session`.\n"
    ∷ "- The orchestrator applies thresholds and gate rules automatically; do not tune score to the desired decision.\n"
    ∷ "- If fixes are needed, fill `feedback_for_executor` with concrete items.\n"
    ∷ "\n"
    ∷ "Output format:\n"
    ∷ "\n"
    ∷ "Strict outbox format (`"
    ∷ v.outbox_path
    ∷ "`):\n"
    ∷ "- Write exactly one YAML document to `"
    ∷ v.outbox_path
    ∷ "`.\n"
    ∷ "- Do not add Markdown fences.\n"
    ∷ "- Do not add text before or after YAML.\n"
    ∷ "- Do not add YAML comments: the parser ignores comments, they are not part of the protocol, and they will not appear in the orchestrator report.\n"
    ∷ "- Do not add anchors, aliases, custom tags, or a second YAML document.\n"
    ∷ "- Mandatory strict fields: `decision`, `quality_score`, `rationale`, `contract_satisfied`, `hard_blockers_present`, `notion_requirements_satisfied`, `feedback_for_executor`, `blocking_reason`, `irreconcilable_reason`, `poisoned_session_reason`.\n"
    ∷ "- Fields `checks_performed`, `findings`, `verification_commands` are free-structure.\n"
    ∷ "- For decision/status/category/name values, use Latin snake_case.\n"
    ∷ "- Use this minimal schema:\n"
    ∷ "\n"
    ∷ unwrap_or reviewer_yaml_schema v.reviewer_yaml_schema
    ∷ "\n"
    ∷ "\n"
    ∷ "When finished, write YAML to `"
    ∷ v.outbox_path
    ∷ "` and stop."
    ∷ []

unfoldable pub render_reviewer_review : String → TemplateValues → String
render_reviewer_review current_dir v = format (review_pieces current_dir v)
