-- ===== src/Phases/Collect.antt =====
-- src/orchestrator/phases.rs, EXECUTOR_OUTPUT_COLLECT and ORCH_VERIFY.
use multi_agent_orchestrator.Prelude.{
  Bool, ◌||◌, Option, none, some, String, List, [], ◌∷◌, ◌++◌, any, str_eq, filter_by,
  if◌then◌else◌, unwrap_or,
}
use multi_agent_orchestrator.Prelude.Map
use multi_agent_orchestrator.Prelude.Show.{format}
use multi_agent_orchestrator.Prelude.Text.{lines, is_empty_text, first_word}
use multi_agent_orchestrator.Git.{has_text}
use multi_agent_orchestrator.State.{
  AgentRole, executor, ProviderKind, RunState, WorkflowType, plan, investigate, implement,
}
use multi_agent_orchestrator.Errors.{Result}
use multi_agent_orchestrator.Env.{Git, run_git}
use multi_agent_orchestrator.Context.{TransportBodyReport}
use multi_agent_orchestrator.Context.Exec.{Exec, ◌>>=◌, ◌>>◌, pure, lift, gets, modify}
use multi_agent_orchestrator.Phases.Start.{phase_separator_wait}

pub record CollectEnv : Type 0 where
  pub git : Git
  -- `read_transport_snapshot` of the outbox
  pub snapshot : AgentRole → ProviderKind → String → Result (Option TransportBodyReport)
  -- `artifact_file_present`
  pub artifact_present : String → Result Bool

abbrev pub artifact_names : WorkflowType → List String
artifact_names plan = "PLAN.md" ∷ []
artifact_names investigate = "INVESTIGATION.md" ∷ []
artifact_names implement = []

unfoldable pub collect_artifacts : CollectEnv → List String → Exec (Unit {0})
collect_artifacts env [] = pure tt
collect_artifacts env (name ∷ names) = do
  exists ← lift (env.artifact_present name)
  modify λ c. record c {
    artifact_map = Map.insert name exists c.artifact_map;
    artifact_paths = if exists then c.artifact_paths ++ name ∷ [] else c.artifact_paths;
  }
  collect_artifacts env names

-- The loop over the lines of the log: each new hash once, in the order of the log.
unfoldable pub add_hashes : List String → List String → List String
add_hashes hashes [] = hashes
add_hashes hashes (line ∷ rest) =
    let hash = first_word line in
    let skip = is_empty_text hash || any (λ h. str_eq h hash) hashes in
    add_hashes (if skip then hashes else hashes ++ hash ∷ []) rest

abbrev log_args : Option String → List String
log_args (some base) = "log" ∷ "--oneline" ∷ format (base ∷ "..HEAD" ∷ []) ∷ []
log_args none = "log" ∷ "--oneline" ∷ "-20" ∷ []

unfoldable pub do_executor_output_collect : CollectEnv → Exec (Unit {0})
do_executor_output_collect env = do
  args ← gets (λ c. c.args)
  bound ← gets (λ c. c.executor_session_id)
  outbox ← lift (env.snapshot executor args.executor_provider (unwrap_or "<unbound>" bound))
  modify (λ c. record c { executor_outbox_snapshot = outbox })
  collect_artifacts env (artifact_names args.workflow_type)
  base ← gets (λ c. c.initial_git_head)
  log_out ← lift (run_git env.git (log_args base))
  modify λ c. record c {
    commit_hashes = add_hashes c.commit_hashes (filter_by has_text (lines log_out));
    run_state = RunState.orch_verify;
  }
  phase_separator_wait

-- A new executor round drops the previous verdict.
unfoldable pub do_orch_verify : Exec (Unit {0})
do_orch_verify = modify λ c. record c {
  review_result = none;
  review_result_yaml_raw = none;
  reviewer_yaml_rejection = none;
  reviewer_workspace_rejection = none;
  run_state = RunState.reviewer_dispatch;
}
