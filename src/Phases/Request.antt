-- ===== src/Phases/Request.antt =====
-- src/orchestrator/phases.rs, the first part of `dispatch_role`: the request that is sent.
use multi_agent_orchestrator.Prelude.{
  ℕ, ◌+◌, Bool, true, false, Option, none, some, String, List, [], ◌∷◌, is_some, is_none, length,
  if◌then◌else◌, map_option,
}
use multi_agent_orchestrator.Prelude.Show.{format, join, show}
use multi_agent_orchestrator.State.{
  AgentRole, executor, reviewer, ProviderKind, WorkflowType, NotionPolicy, RemoteNetworkPolicy,
  AttemptState, TemplateId, executor_initial, executor_feedback, reviewer_review,
  reviewer_repair_yaml, reviewer_repair_workspace, role_debug,
}
use multi_agent_orchestrator.Errors.{OrchestratorError, invalid_input, Result}
use multi_agent_orchestrator.Env.{Git, run_git, path_join}
use multi_agent_orchestrator.Git.{status_lines}
use multi_agent_orchestrator.Review.{ReviewerYaml}
use multi_agent_orchestrator.Context.{
  provider_of, AttemptStateData, DispatchedProcess, TransportBodyReport, OrchestratorCtx,
  lock_session, reset_files, write_inbox,
}
use multi_agent_orchestrator.Context.Exec.{Exec, ◌>>=◌, ◌>>◌, pure, lift, gets, modify, emit, when}

-- src/state.rs, the values that a template is filled with.
pub record TemplateValues : Type 0 where
  pub provider : ProviderKind
  pub workflow_type : WorkflowType
  pub workspace_root : String
  pub transport_dir : String
  pub inbox_path : String
  pub outbox_path : String
  pub orchestrator_docs_dir : String
  pub branch : String
  pub user_prompt : String
  pub notion_policy : NotionPolicy
  pub remote_network_policy : RemoteNetworkPolicy
  pub workflow_contract : String
  pub git_facts : String
  pub executor_outbox_present : Bool
  pub reviewer_yaml_schema : Option String
  pub reviewer_yaml_rejection : Option String
  pub reviewer_workspace_rejection : Option String
  pub review_result_yaml : Option String
  pub feedback_for_executor : Option String

pub record DispatchEnv : Type 0 where
  pub git : Git
  -- `acquire_session_lock`
  pub lock : ProviderKind → String → Result (Unit {0})
  -- `verify_request_fingerprint` against the given fingerprint
  pub verify : String → Result (Unit {0})
  pub sha256_hex : String → String
  -- `git_head_hash`
  pub git_head : Result String
  -- `reset_transport`
  pub reset : AgentRole → Result (Unit {0})
  -- `optional_file_mtime` of the outbox
  pub outbox_mtime : Result (Option ℕ)
  -- `format_git_facts` from an initial head
  pub git_facts : Option String → Result String
  pub docs_dir : String
  -- the texts of src/workflow.rs
  pub workflow_contract_text : WorkflowType → String
  pub reviewer_yaml_schema : String
  pub render_template : TemplateId → TemplateValues → String
  -- `write_request`: the fingerprint of what was written
  pub write : String → Result String
  -- `read_transport_snapshot` of the inbox
  pub snapshot : AgentRole → ProviderKind → String → Result (Option TransportBodyReport)
  -- the provider's `dispatch`
  pub spawn : ProviderKind → String → Option String → Result DispatchedProcess
  pub now : ℕ

-- `"1. first\n2. second"`
unfoldable pub number_items : ℕ → List String → List String
number_items i [] = []
number_items i (s ∷ ss) = format (show (i + 1) ∷ ". " ∷ s ∷ []) ∷ number_items (i + 1) ss

abbrev pub feedback_text : ReviewerYaml → String
feedback_text r = join "\n" (number_items 0 r.feedback_for_executor)

abbrev pub transport_dir : OrchestratorCtx → String
transport_dir c = path_join c.args.workspace_root ".agent-io"

abbrev for_reviewer {ℓ} : {A : Type ℓ} → AgentRole → Option A → Option A
for_reviewer executor o = none
for_reviewer reviewer o = o

unfoldable pub template_values : DispatchEnv → AgentRole → OrchestratorCtx → String → TemplateValues
template_values env role c git_facts = record {
  provider = provider_of role c.args;
  workflow_type = c.args.workflow_type;
  workspace_root = c.args.workspace_root;
  transport_dir = transport_dir c;
  inbox_path = path_join (transport_dir c) "inbox.txt";
  outbox_path = path_join (transport_dir c) "outbox.txt";
  orchestrator_docs_dir = env.docs_dir;
  branch = c.branch;
  user_prompt = c.args.prompt;
  notion_policy = c.args.notion_policy;
  remote_network_policy = c.args.remote_network_policy;
  workflow_contract = env.workflow_contract_text c.args.workflow_type;
  git_facts = git_facts;
  executor_outbox_present = c.outbox_present;
  reviewer_yaml_schema = for_reviewer role (some env.reviewer_yaml_schema);
  reviewer_yaml_rejection = for_reviewer role c.reviewer_yaml_rejection;
  reviewer_workspace_rejection = for_reviewer role c.reviewer_workspace_rejection;
  review_result_yaml = c.review_result_yaml_raw;
  feedback_for_executor = map_option feedback_text c.review_result;
}

unfoldable pub build_template_values : DispatchEnv → AgentRole → Exec TemplateValues
build_template_values env role = do
  c ← gets (λ c. c)
  git_facts ← lift (env.git_facts c.initial_git_head)
  pure (template_values env role c git_facts)

-- Which template the next request is rendered from.
unfoldable pub template_id : AgentRole → OrchestratorCtx → TemplateId
template_id executor c = if is_some c.review_result then executor_feedback else executor_initial
template_id reviewer c =
    if is_some c.reviewer_workspace_rejection
    then reviewer_repair_workspace
    else if is_some c.reviewer_yaml_rejection
    then reviewer_repair_yaml
    else reviewer_review

unfoldable pub reset_attempt_git_telemetry : ℕ → OrchestratorCtx → OrchestratorCtx
reset_attempt_git_telemetry dirty_files_count c = record c {
  dirty_file_touch_counts = [];
  committed_file_touch_counts = [];
  last_dirty_files_count = dirty_files_count;
  committed_files_seen_count = 0;
}

abbrev pub hold_lock : AgentRole → OrchestratorCtx → OrchestratorCtx
hold_lock executor c = record c { executor_lock = true }
hold_lock reviewer c = record c { reviewer_lock = true }

-- `git status --short --untracked-files=all`
abbrev pub status_all : Git → Result String
status_all git = run_git git ("status" ∷ "--short" ∷ "--untracked-files=all" ∷ [])

-- For the reviewer: the outbox's mtime, and the baseline of its workspace checks, which a cleanup
-- retry keeps.
unfoldable pub capture_baseline : DispatchEnv → AgentRole → Exec (Option ℕ)
capture_baseline env executor = pure none
capture_baseline env reviewer = do
  mtime ← lift env.outbox_mtime
  fresh ← gets (λ c. is_none c.reviewer_workspace_rejection)
  when fresh do
    status ← lift (status_all env.git)
    modify (λ c. record c { pre_reviewer_git_status = some status })
  pure mtime

-- `if let Some(prev) = ctx.attempt { verify_request_fingerprint(..)? }`
abbrev pub verify_previous : DispatchEnv → Option AttemptStateData → Result (Unit {0})
verify_previous env none = Result.ok tt
verify_previous env (some prev) = env.verify prev.request_fingerprint

unfoldable pub new_attempt :
    AgentRole → ℕ → Option ℕ → String → Option ℕ → String → List String → String → AttemptStateData
new_attempt role now pid fingerprint mtime status_hash status_lines head_hash = record {
  state = AttemptState.dispatching;
  role = role;
  dispatch_ts = now;
  pid = pid;
  exit_code = none;
  request_fingerprint = fingerprint;
  last_work_signal_ts = some now;
  grace_until_commit = none;
  grace_until_outbox = none;
  pre_reviewer_outbox_mtime = mtime;
  next_probe_at = now;
  dispatch_git_status_hash = status_hash;
  prev_probe_git_status_hash = status_hash;
  prev_probe_git_status_lines = status_lines;
  dispatch_git_head_hash = head_hash;
  prev_probe_git_head_hash = head_hash;
  prev_probe_outbox_meta = none;
  prev_probe_log_mtime = none;
  provider_log_ever_seen = false;
  last_heartbeat_ts = none;
}

abbrev pub not_bound : AgentRole → OrchestratorError
not_bound role = invalid_input "session_id" (format (role_debug role ∷ " session not bound" ∷ []))

-- Everything up to the spawned process: locks, checks, baselines, the transport files, the request.
unfoldable pub prepare_request :
    DispatchEnv → AgentRole → String → Exec (Option ℕ × String × List String × String × String)
prepare_request env role sid = do
  provider ← gets (λ c. provider_of role c.args)
  lift (env.lock provider sid)
  emit (lock_session role provider sid)
  modify (hold_lock role)
  prev ← gets (λ c. c.attempt)
  lift (verify_previous env prev)
  status_out ← lift (run_git env.git ("status" ∷ "--short" ∷ []))
  let status_set = status_lines status_out
  head_hash ← lift env.git_head
  modify (reset_attempt_git_telemetry (length status_set))
  lift (env.reset role)
  emit (reset_files role)
  mtime ← capture_baseline env role
  template ← gets (template_id role)
  values ← build_template_values env role
  let prompt_text = env.render_template template values
  fingerprint ← lift (env.write prompt_text)
  emit (write_inbox prompt_text)
  pure (mtime, env.sha256_hex status_out, status_set, head_hash, fingerprint)
