-- ===== src/Phases/Start.antt =====
-- src/orchestrator/phases.rs, CONTEXT_PREP and SESSION_BIND.
use Prim.Native.Char.{code}
use multi_agent_orchestrator.Prelude.{
  ◌==◌, not, ◌&&◌, ◌||◌, none, some, String, [], ◌∷◌, str_eq, if◌then◌else◌,
}
use multi_agent_orchestrator.Prelude.Text.{trim, is_empty_text}
use multi_agent_orchestrator.Constants.{phase_separator_wait_sec}
use multi_agent_orchestrator.State.{
  AgentRole, executor, reviewer, ProviderKind, claude, same_provider, RunState,
}
use multi_agent_orchestrator.Errors.{session_bind_failed, dirty_worktree, Result}
use multi_agent_orchestrator.Env.{run_git}
use multi_agent_orchestrator.Context.{wait_seconds}
use multi_agent_orchestrator.Context.Exec.{Exec, ◌>>=◌, ◌>>◌, fail, lift, gets, modify, emit, when}
use multi_agent_orchestrator.Phases.GitState.{
  PrepEnv, validate_git_worktree, validate_git_top_level, validate_no_git_locks,
  validate_no_unmerged_index, validate_no_git_operation_in_progress, current_branch_name,
  current_head_required,
}

abbrev pub phase_separator_wait : Exec (Unit {0})
phase_separator_wait = emit (wait_seconds phase_separator_wait_sec)

-- src/sessions.rs, `claude_project_key`: every "/" becomes "-".
unfoldable pub claude_project_key : String → String
claude_project_key String.[] = String.[]
claude_project_key (String.◌∷◌ c s) =
    let rest = claude_project_key s in
    if code c == b'/' then String.◌∷◌ "-" rest else String.◌∷◌ c rest

-- The warnings of `log_git_start_warnings` only go to the log.
unfoldable pub do_context_prep : PrepEnv → Exec (Unit {0})
do_context_prep env = do
  args ← gets (λ c. c.args)
  let repo = args.workspace_root
  lift (validate_git_worktree env repo)
  lift (validate_git_top_level env repo)
  lift (validate_no_git_locks env repo)
  lift (validate_no_unmerged_index env repo)
  lift (validate_no_git_operation_in_progress env repo)
  lift env.exclude
  git_status ← lift (run_git env.git ("status" ∷ "--short" ∷ "--untracked-files=all" ∷ []))
  when (not (is_empty_text (trim git_status))) (fail (dirty_worktree git_status))
  branch ← lift (current_branch_name env.git)
  initial_git_head ← lift (current_head_required env.git)
  let uses_claude =
      same_provider args.executor_provider claude || same_provider args.reviewer_provider claude
  modify λ c. record c {
    branch = branch;
    initial_git_head = some initial_git_head;
    claude_project_key = if uses_claude then some (claude_project_key repo) else none;
    run_state = RunState.session_bind;
  }

pub record BindEnv : Type 0 where
  -- `discover_session`: the workspace, the thread's name, the role and the provider
  pub discover_session : String → String → AgentRole → ProviderKind → Result String

unfoldable pub do_session_bind : BindEnv → Exec (Unit {0})
do_session_bind env = do
  args ← gets (λ c. c.args)
  let repo = args.workspace_root
  executor_session_id ←
      lift (env.discover_session repo args.executor_thread_name executor args.executor_provider)
  reviewer_session_id ←
      lift (env.discover_session repo args.reviewer_thread_name reviewer args.reviewer_provider)
  when
      (same_provider args.executor_provider args.reviewer_provider
        && str_eq executor_session_id reviewer_session_id)
      (fail (
        session_bind_failed reviewer args.reviewer_provider
          "executor and reviewer resolved to the same (provider, session_id)"))
  modify λ c. record c {
    executor_session_id = some executor_session_id;
    reviewer_session_id = some reviewer_session_id;
    run_state = RunState.executor_dispatch;
  }
  phase_separator_wait
