-- ===== src/Providers/Discovery/Bound.antt =====
-- The sessions that SESSION_BIND binds, with the providers' own discoveries.
use multi_agent_orchestrator.Prelude.{◌≡◌, refl, sym, subst, Option, none, some, String, [], ◌∷◌}
use multi_agent_orchestrator.State.{
  AgentRole, executor, reviewer, ProviderKind, claude, opencode, codex,
}
use multi_agent_orchestrator.Errors.{ok, ◌>>=◌}
use multi_agent_orchestrator.Files.{join_all}
use multi_agent_orchestrator.Context.{OrchestratorCtx}
use multi_agent_orchestrator.Context.Triple.{
  Triple, follow, given, gets_is, lift_is, Ends-ok, modify_lem, emit_lem, when_lem, fail_lem,
}
use multi_agent_orchestrator.Phases.Start.{do_session_bind}
use multi_agent_orchestrator.Providers.Claude
use multi_agent_orchestrator.Providers.Claude.{projects_dir}
use multi_agent_orchestrator.Providers.Claude.Found.{FoundAt, discover_claude_iff}
use multi_agent_orchestrator.Providers.Codex
use multi_agent_orchestrator.Providers.Codex.{CodexSessionIndexRow}
use multi_agent_orchestrator.Providers.Codex.Found.{FoundIn, discover_codex_iff}
use multi_agent_orchestrator.Providers.Codex.Logs.{codex_session_cwd}
use multi_agent_orchestrator.Providers.Opencode.{session_list}
use multi_agent_orchestrator.Providers.Opencode.Found.{Lists, discover_opencode_iff}
use multi_agent_orchestrator.Providers.Discovery.{
  ProviderEnv, index_path_or_error, discover_codex, discover_session, bind_env,
}

module _ (env : ProviderEnv) (repo name : String) (role : AgentRole) where
  -- `id` is the one session of the provider that has the thread's name and belongs to the workspace.
  abbrev pub OnlyThread : ProviderKind → String → Type 0
  OnlyThread claude id =
      (home : String) × (env.home ≡ some home)
      × FoundAt env.files env.json_lib role name home repo id
  OnlyThread opencode id =
      Lists env.read_rows role repo name (env.run_opencode repo session_list) id
  OnlyThread codex id =
      (home : String) × (env.home ≡ some home)
      × FoundIn env.read_row env.files (join_all home (".codex" ∷ "session_index.jsonl" ∷ [])) name
          repo (λ i. codex_session_cwd env.files env.json_lib i env.home) id

  claude-OnlyThread :
      (home : Option String) (id : String)
      → env.home ≡ home
      → Claude.discover_by_thread env.files env.json_lib role name home repo ≡ ok id
      → OnlyThread claude id
  unfolding Claude.discover_by_thread Claude.home_dir
  claude-OnlyThread none id h e = cc
  claude-OnlyThread (some home) id h e =
      (home, h, (discover_claude_iff env.files env.json_lib role name home repo id).0 e)

  codex-OnlyThread :
      (home : Option String) (id : String)
      → env.home ≡ home
      → (index_path_or_error home >>= λ index_path.
          Codex.discover_by_thread_from_index_with_cwd_lookup env.read_row env.files index_path name
            role repo
            (λ i. codex_session_cwd env.files env.json_lib i env.home))
        ≡ ok id
      → OnlyThread codex id
  unfolding index_path_or_error
  codex-OnlyThread none id h e = cc
  codex-OnlyThread (some home) id h e = (
    home,
    h,
    (discover_codex_iff env.read_row env.files
          (join_all home (".codex" ∷ "session_index.jsonl" ∷ [])) name role repo
          (λ i. codex_session_cwd env.files env.json_lib i env.home) id).0
        e,
  )

  pub discover_session-OnlyThread :
      (provider : ProviderKind) (id : String)
      → discover_session env repo name role provider ≡ ok id
      → OnlyThread provider id
  unfolding discover_session discover_codex
  discover_session-OnlyThread claude id e = claude-OnlyThread env.home id refl e
  discover_session-OnlyThread opencode id e =
      (discover_opencode_iff env.read_rows role repo name (env.run_opencode repo) id).0 e
  discover_session-OnlyThread codex id e = codex-OnlyThread env.home id refl e

-- The context holds, for each role, the one session with the role's thread name.
abbrev pub BothFound : ProviderEnv → OrchestratorCtx → Type 0
BothFound env c =
    (e : String) × (r : String) × (c.executor_session_id ≡ some e)
    × (c.reviewer_session_id ≡ some r)
    × OnlyThread env c.args.workspace_root c.args.executor_thread_name executor
        c.args.executor_provider e
    × OnlyThread env c.args.workspace_root c.args.reviewer_thread_name reviewer
        c.args.reviewer_provider r

bind-BothFound :
    (env : ProviderEnv)
    → Triple (λ c. Unit) (do_session_bind (bind_env env)) (λ u. BothFound env) (λ c. Unit)
unfolding do_session_bind
bind-BothFound env = follow (gets_is (λ c. c.args)) λ args.
    follow (given (λ c h. h.1) (lift_is {P = λ c. c.args ≡ args} _ (λ c h. tt))) λ e.
      follow (lift_is _ (λ c h. tt)) λ r. follow (when_lem _ _ (fail_lem _ (λ c h. tt))) λ _.
        follow
          (modify_lem {Q = BothFound env} _ (λ c ((same, found_e), found_r). (
            e,
            r,
            refl,
            refl,
            subst
                (λ a.
                  OnlyThread env a.workspace_root a.executor_thread_name executor
                    a.executor_provider e)
                (sym same)
                (discover_session-OnlyThread env args.workspace_root args.executor_thread_name
                  executor args.executor_provider e found_e),
            subst
                (λ a.
                  OnlyThread env a.workspace_root a.reviewer_thread_name reviewer
                    a.reviewer_provider r)
                (sym same)
                (discover_session-OnlyThread env args.workspace_root args.reviewer_thread_name
                  reviewer args.reviewer_provider r found_r),
          )))
          (λ _. emit_lem _ (λ c h. h))

-- After a successful binding over the providers' discoveries, each role's session is the only one
-- of its provider with the role's thread name in the workspace.
pub do_session_bind-BothFound :
    (env : ProviderEnv) (c : OrchestratorCtx)
    → (do_session_bind (bind_env env) c).0 ≡ ok tt
    → BothFound env (do_session_bind (bind_env env) c).1
do_session_bind-BothFound env c e =
    Ends-ok (λ u. BothFound env) (λ d. Unit) (do_session_bind (bind_env env) c).1 e
      ((bind-BothFound env).at c tt)
