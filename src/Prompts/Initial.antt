-- ===== src/Prompts/Initial.antt =====
-- src/workflow.rs: the prompt of the executor's first round.
use multi_agent_orchestrator.Prelude.{String, List, [], ◌∷◌}
use multi_agent_orchestrator.Prelude.Show.{format}
use multi_agent_orchestrator.State.{notion_as_str, workflow_as_str}
use multi_agent_orchestrator.Phases.Request.{TemplateValues}
use multi_agent_orchestrator.Prompts.Rules.{
  git_history_rewrite_rule, artifact_reread_rule, plan_investigation_rule, implement_plan_rule,
  existing_artifact_refine_rule, executor_breakage_block_rule,
  executor_implement_verification_scope_rule, executor_plan_test_coverage_rule,
  executor_investigation_causal_chain_rule, remote_network_policy_section, claude_subagent_rule,
  opencode_outbox_write_rule,
}
use multi_agent_orchestrator.Prompts.Sections.{
  notion_protocol_path, gitlab_protocol_path, executor_project_profiles_section,
  artifact_structure_section, run_paths_section,
}

-- The pieces of the prompt, in order.
unfoldable pub initial_pieces : String → TemplateValues → List String
initial_pieces current_dir v =
    "You are the executor agent in workflow `"
    ∷ workflow_as_str v.workflow_type
    ∷ "`.\n"
    ∷ "\n"
    ∷ "Run context:\n"
    ∷ "- workspace_root: `"
    ∷ v.workspace_root
    ∷ "`\n"
    ∷ "- branch: `"
    ∷ v.branch
    ∷ "`\n"
    ∷ "- notion_policy: `"
    ∷ notion_as_str v.notion_policy
    ∷ "`\n"
    ∷ "\n"
    ∷ run_paths_section v
    ∷ "User prompt:\n"
    ∷ v.user_prompt
    ∷ "\n"
    ∷ "\n"
    ∷ "Workflow contract:\n"
    ∷ v.workflow_contract
    ∷ "\n"
    ∷ "\n"
    ∷ artifact_structure_section "Artifact structure:\n" v.workflow_type
    ∷ remote_network_policy_section v.remote_network_policy
    ∷ "Mandatory rules:\n"
    ∷ "- Read and follow `"
    ∷ notion_protocol_path current_dir
    ∷ "` as the mandatory Notion protocol.\n"
    ∷ "- Read and follow `"
    ∷ gitlab_protocol_path current_dir
    ∷ "` as the mandatory GitLab protocol.\n"
    ∷ claude_subagent_rule v.provider
    ∷ "\n"
    ∷ executor_project_profiles_section v
    ∷ "Executor working rules:\n"
    ∷ "\n"
    ∷ "1. Inputs and artifacts\n"
    ∷ "- Read inbox by absolute path: `"
    ∷ v.inbox_path
    ∷ "`.\n"
    ∷ artifact_reread_rule
    ∷ existing_artifact_refine_rule v.workflow_type
    ∷ plan_investigation_rule v.workflow_type
    ∷ implement_plan_rule v.workflow_type
    ∷ "\n"
    ∷ "2. Transport and outbox\n"
    ∷ "- Before the final response, clear outbox at absolute path `"
    ∷ v.outbox_path
    ∷ "` in-place via truncate and write the current round result there.\n"
    ∷ opencode_outbox_write_rule v.provider v.outbox_path
    ∷ "- Do not use `.agent-io` from other directories.\n"
    ∷ "- Before writing outbox, verify that `"
    ∷ v.outbox_path
    ∷ "` starts with `workspace_root` (`"
    ∷ v.workspace_root
    ∷ "`). If outbox path is not inside `workspace_root`, stop and write an error to the correct `"
    ∷ v.outbox_path
    ∷ "`.\n"
    ∷ "- Do not commit transport files: `"
    ∷ v.inbox_path
    ∷ "` and `"
    ∷ v.outbox_path
    ∷ "`.\n"
    ∷ "\n"
    ∷ "3. Git and workspace safety\n"
    ∷ "- Do not push commits without a direct user command.\n"
    ∷ git_history_rewrite_rule
    ∷ "- If you change git-tracked files in workspace_root (including `PLAN.md`/`INVESTIGATION.md`), create a local commit.\n"
    ∷ "- Do not run destructive git operations without a direct user command.\n"
    ∷ "\n"
    ∷ "4. Language and formatting\n"
    ∷ "- Write user-facing artifacts in English (`PLAN.md`, `INVESTIGATION.md`, executor outbox, reviewer YAML: `rationale`, `feedback_for_executor`, `checks_performed`, `findings`, `verification_commands`, `blocking_reason`, `irreconcilable_reason`, `poisoned_session_reason`).\n"
    ∷ "- Add/edit project code comments only in English.\n"
    ∷ "- In outbox, include commit hash and executed verification commands.\n"
    ∷ "\n"
    ∷ "5. Checks and unfinished work\n"
    ∷ "- If you add/change tests, run the new/changed tests and the relevant module/crate-level scope.\n"
    ∷ "- Placeholder tests do not count as valid tests.\n"
    ∷ "- Report any unfinished work, skipped checks, or failures in outbox.\n"
    ∷ executor_breakage_block_rule v.workflow_type
    ∷ executor_implement_verification_scope_rule v.workflow_type
    ∷ executor_plan_test_coverage_rule v.workflow_type
    ∷ executor_investigation_causal_chain_rule v.workflow_type
    ∷ "\n"
    ∷ "Outbox format:\n"
    ∷ "- For this role, outbox is free-form.\n"
    ∷ "- Write with enough detail for the reviewer to verify the result without guesses.\n"
    ∷ "\n"
    ∷ "When finished, write the result to outbox at absolute path `"
    ∷ v.outbox_path
    ∷ "` and stop."
    ∷ []

unfoldable pub render_executor_initial : String → TemplateValues → String
render_executor_initial current_dir v = format (initial_pieces current_dir v)
