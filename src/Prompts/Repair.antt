-- ===== src/Prompts/Repair.antt =====
-- src/workflow.rs: the prompts that ask the reviewer to repair its verdict or the workspace.
use multi_agent_orchestrator.Prelude.{String, List, [], ◌∷◌, unwrap_or}
use multi_agent_orchestrator.Prelude.Show.{format}
use multi_agent_orchestrator.State.{notion_as_str}
use multi_agent_orchestrator.Phases.Request.{TemplateValues}
use multi_agent_orchestrator.Prompts.Rules.{
  git_history_rewrite_rule, reviewer_yaml_schema, claude_subagent_rule,
}
use multi_agent_orchestrator.Prompts.Sections.{
  notion_protocol_path, gitlab_protocol_path, run_paths_section,
}

-- The pieces of the prompt, in order.
unfoldable pub repair_yaml_pieces : String → TemplateValues → List String
repair_yaml_pieces current_dir v =
    "You are the reviewer agent. The previous YAML was rejected by the orchestrator parser.\n"
    ∷ "\n"
    ∷ run_paths_section v
    ∷ "Task:\n"
    ∷ "- Your only task now: fix only the YAML protocol and overwrite `"
    ∷ v.outbox_path
    ∷ "`.\n"
    ∷ "- Do not reconsider review content unless required to fix the schema.\n"
    ∷ claude_subagent_rule v.provider
    ∷ "\n"
    ∷ "Transport and constraints:\n"
    ∷ "- Do not change the Notion protocol: it is defined in `"
    ∷ notion_protocol_path current_dir
    ∷ "`.\n"
    ∷ "- Do not change the GitLab protocol: it is defined in `"
    ∷ gitlab_protocol_path current_dir
    ∷ "`.\n"
    ∷ "- Do not use `.agent-io` from other directories.\n"
    ∷ "- Before writing outbox, verify that `"
    ∷ v.outbox_path
    ∷ "` starts with `workspace_root` (`"
    ∷ v.workspace_root
    ∷ "`). If outbox path is not inside `workspace_root`, stop and write an error to the correct `"
    ∷ v.outbox_path
    ∷ "`.\n"
    ∷ "- Write user-facing artifacts in English (`PLAN.md`, `INVESTIGATION.md`, executor outbox, reviewer YAML: `rationale`, `feedback_for_executor`, `checks_performed`, `findings`, `verification_commands`, `blocking_reason`, `irreconcilable_reason`, `poisoned_session_reason`).\n"
    ∷ "\n"
    ∷ "YAML_REJECTION:\n"
    ∷ "- previous_yaml_rejected: true\n"
    ∷ "- rejection_reason: "
    ∷ unwrap_or "(missing rejection reason)" v.reviewer_yaml_rejection
    ∷ "\n"
    ∷ "- keep_semantic_decision_if_still_valid: true\n"
    ∷ "\n"
    ∷ "STRICT_FIELDS_CHECKLIST:\n"
    ∷ "- decision: accept|revise|blocked|irreconcilable_disagreement|poisoned_session\n"
    ∷ "- quality_score: number from 0 to 10\n"
    ∷ "- contract_satisfied: true|false\n"
    ∷ "- hard_blockers_present: true|false\n"
    ∷ "- notion_requirements_satisfied: true|false\n"
    ∷ "- decision=accept: contract_satisfied=true and hard_blockers_present=false\n"
    ∷ "- decision=revise requires non-empty feedback_for_executor\n"
    ∷ "- decision=blocked requires non-empty blocking_reason\n"
    ∷ "- decision=irreconcilable_disagreement requires non-empty irreconcilable_reason\n"
    ∷ "- decision=poisoned_session requires non-empty poisoned_session_reason\n"
    ∷ "- exactly one YAML document, no markdown fences, no text before/after YAML\n"
    ∷ "\n"
    ∷ "notion_policy for the current run: `"
    ∷ notion_as_str v.notion_policy
    ∷ "`\n"
    ∷ "\n"
    ∷ "Schema:\n"
    ∷ "Use this minimal schema:\n"
    ∷ "\n"
    ∷ unwrap_or reviewer_yaml_schema v.reviewer_yaml_schema
    ∷ "\n"
    ∷ "\n"
    ∷ "Stop immediately after fixing it."
    ∷ []

unfoldable pub render_reviewer_repair_yaml : String → TemplateValues → String
render_reviewer_repair_yaml current_dir v = format (repair_yaml_pieces current_dir v)

-- The pieces of the prompt, in order.
unfoldable pub repair_workspace_pieces : String → TemplateValues → List String
repair_workspace_pieces current_dir v =
    "You are the reviewer agent. After the previous review attempt, the worktree remained dirty.\n"
    ∷ "\n"
    ∷ run_paths_section v
    ∷ "Cleanup task:\n"
    ∷ "- Your only task now: clean workspace_root from changes you left behind and stop.\n"
    ∷ "- Do not reconsider the review and do not rewrite the reviewer YAML verdict: the orchestrator already saved the valid YAML from the previous attempt.\n"
    ∷ claude_subagent_rule v.provider
    ∷ "\n"
    ∷ "Allowed:\n"
    ∷ "- Allowed cleanup methods: commit the leftover changes locally or revert/delete them. Choose based on the facts.\n"
    ∷ "\n"
    ∷ "Forbidden:\n"
    ∷ "- Do not change `"
    ∷ v.outbox_path
    ∷ "` unless cleanup requires it. If you accidentally changed `"
    ∷ v.outbox_path
    ∷ "`, restore the previous reviewer YAML verdict without semantic changes.\n"
    ∷ "- Do not push commits. Do not commit transport files: `"
    ∷ v.inbox_path
    ∷ "` and `"
    ∷ v.outbox_path
    ∷ "`.\n"
    ∷ git_history_rewrite_rule
    ∷ "\n"
    ∷ "Transport and protocols:\n"
    ∷ "- Do not use `.agent-io` from other directories.\n"
    ∷ "- If you still need to touch outbox, first verify that `"
    ∷ v.outbox_path
    ∷ "` starts with `workspace_root` (`"
    ∷ v.workspace_root
    ∷ "`). If outbox path is not inside `workspace_root`, stop and write an error to the correct `"
    ∷ v.outbox_path
    ∷ "`.\n"
    ∷ "- Do not change the Notion protocol: it is defined in `"
    ∷ notion_protocol_path current_dir
    ∷ "`.\n"
    ∷ "- Do not change the GitLab protocol: it is defined in `"
    ∷ gitlab_protocol_path current_dir
    ∷ "`.\n"
    ∷ "\n"
    ∷ "Cleanup checklist:\n"
    ∷ "- After cleanup, `git status --short --untracked-files=all` must not contain new dirty entries beyond those present before reviewer dispatch; `"
    ∷ v.outbox_path
    ∷ "` is not required to change mtime.\n"
    ∷ "\n"
    ∷ "WORKSPACE_CLEANUP_REQUIRED:\n"
    ∷ "- previous_workspace_dirty: true\n"
    ∷ "- cleanup_reason: "
    ∷ unwrap_or "(missing workspace cleanup reason)" v.reviewer_workspace_rejection
    ∷ "\n"
    ∷ "- commit_or_revert_allowed: true\n"
    ∷ "- push_allowed: false\n"
    ∷ "- rewrite_reviewer_yaml_verdict: false\n"
    ∷ "\n"
    ∷ "Stop immediately after cleanup."
    ∷ []

unfoldable pub render_reviewer_repair_workspace : String → TemplateValues → String
render_reviewer_repair_workspace current_dir v = format (repair_workspace_pieces current_dir v)
