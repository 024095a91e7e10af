-- ===== src/Phases/Verdict.antt =====
-- src/orchestrator/phases.rs, REVIEWER_OUTPUT_COLLECT, the parts: the Notion policy and the workspace check.
use multi_agent_orchestrator.Prelude.{
  ℕ, Bool, false, Option, none, some, String, List, [], ◌∷◌, ltb, any, str_eq, if◌then◌else◌,
  map_option, unwrap_or,
}
use multi_agent_orchestrator.Prelude.Show.{format, join}
use multi_agent_orchestrator.Prelude.Text.{trim, lines, drop_bytes, byte_len}
use multi_agent_orchestrator.State.{
  AgentRole, ProviderKind, NotionPolicy, required, optional, RunState,
}
use multi_agent_orchestrator.Errors.{artifact_contract, Result, ok, err, panic}
use multi_agent_orchestrator.Env.{Git}
use multi_agent_orchestrator.Review.{ReviewDecision, accept, ReviewerYaml, YamlLib}
use multi_agent_orchestrator.Context.{TransportBodyReport, OrchestratorCtx}
use multi_agent_orchestrator.Context.Exec.{Exec, ◌>>=◌, pure, lift, gets, push_failure}
use multi_agent_orchestrator.Phases.Request.{status_all}
use multi_agent_orchestrator.Phases.Retry.{count_failure}

pub record VerdictEnv : Type 0 where
  pub git : Git
  pub yaml : YamlLib
  -- `optional_file_mtime` of the outbox
  pub outbox_mtime : Result (Option ℕ)
  -- `read_to_string` of the outbox
  pub read_outbox : Option String
  -- `read_transport_snapshot` of the outbox
  pub snapshot : AgentRole → ProviderKind → String → Result (Option TransportBodyReport)

unfoldable pub retry_reviewer_output_failure : String → OrchestratorCtx → OrchestratorCtx
retry_reviewer_output_failure reason c = record (push_failure reason (count_failure c)) {
  run_state = RunState.round_retry_decide;
}

-- The test of an accepted verdict under the required policy.
abbrev check_notion : ReviewDecision → Bool → Result (Unit {0})
check_notion accept false = err (
    artifact_contract
      "decision=accept is forbidden when notion_policy=required and notion_requirements_satisfied=false")
check_notion _ _ = ok tt

abbrev check_explicit : ReviewDecision → Option Bool → Result (Unit {0})
check_explicit d none = err (
    artifact_contract
      "notion_policy=required requires explicit notion_requirements_satisfied=true|false in reviewer YAML")
check_explicit d (some notion_ok) = check_notion d notion_ok

unfoldable pub enforce_reviewer_notion_policy : NotionPolicy → ReviewerYaml → Result (Unit {0})
enforce_reviewer_notion_policy optional y = ok tt
enforce_reviewer_notion_policy required y =
    check_explicit y.decision y.notion_requirements_satisfied

-- The path in a line of `git status --short`; `none` where slicing the line panics.
unfoldable pub path_part : String → Option String
path_part line =
    if ltb 3 (byte_len line) then map_option trim (drop_bytes 3 line) else some (trim line)

abbrev pub is_line_of : List String → String → Bool
is_line_of ls l = any (λ k. str_eq k l) ls

-- The filter over the current lines.
unfoldable pub dirty_from : List String → String → List String → Result (List String)
dirty_from initial outbox_rel [] = ok []
dirty_from initial outbox_rel (l ∷ ls) =
    let rest = dirty_from initial outbox_rel ls in
    if is_line_of initial l then rest else elim (path_part l) [
      | none ↦ panic
      | some path ↦
          if str_eq path outbox_rel
          then rest
          else elim rest [ ok kept ↦ ok (l ∷ kept) | err e ↦ err e | panic ↦ panic ]
    ]

-- `None` where nothing is left.
abbrev pub some_lines : Result (List String) → Result (Option (List String))
some_lines (ok []) = ok none
some_lines (ok (l ∷ ls)) = ok (some (l ∷ ls))
some_lines (err e) = err e
some_lines panic = panic

unfoldable pub reviewer_workspace_dirty_lines :
    String → String → String → Result (Option (List String))
reviewer_workspace_dirty_lines initial current outbox_rel =
    some_lines (dirty_from (lines initial) outbox_rel (lines current))

abbrev dirty_text : List String → String
dirty_text ls = format (
    "reviewer left dirty worktree entries after review; clean by committing or reverting before writing final YAML: "
    ∷ join "; " ls
    ∷ [])

unfoldable pub reviewer_workspace_dirty_reason : VerdictEnv → Exec (Option String)
reviewer_workspace_dirty_reason env = do
  current_status ← lift (status_all env.git)
  baseline ← gets (λ c. unwrap_or "" c.pre_reviewer_git_status)
  found ← lift (reviewer_workspace_dirty_lines baseline current_status ".agent-io/outbox.txt")
  pure (map_option dirty_text found)
