-- ===== src/Context.antt =====
-- The state of a run: `OrchestratorCtx` and `CliArgs` of src/orchestrator/mod.rs, the attempt of
-- src/state.rs, and the records that they hold. Operations are actions over the context.
pub mod Exec
pub mod Triple
use multi_agent_orchestrator.Prelude.{ℕ, Bool, false, Option, none, String, List, []}
use multi_agent_orchestrator.State.{
  AgentRole, executor, reviewer, ProviderKind, AttemptState, RunState, WorkflowType, NotionPolicy,
  RemoteNetworkPolicy, TemplateId,
}
use multi_agent_orchestrator.Review.{ReviewerYaml}

pub record CliArgs : Type 0 where
  pub workflow_type : WorkflowType
  pub notion_policy : NotionPolicy
  pub remote_network_policy : RemoteNetworkPolicy
  pub workspace_root : String
  pub executor_thread_name : String
  pub reviewer_thread_name : String
  pub prompt : String
  pub executor_provider : ProviderKind
  pub reviewer_provider : ProviderKind
  pub executor_model : Option String
  pub reviewer_model : Option String

-- `args.executor_provider` or `args.reviewer_provider`
abbrev pub provider_of : AgentRole → CliArgs → ProviderKind
provider_of executor a = a.executor_provider
provider_of reviewer a = a.reviewer_provider

abbrev pub model_of : AgentRole → CliArgs → Option String
model_of executor a = a.executor_model
model_of reviewer a = a.reviewer_model

pub record FileMeta : Type 0 where
  pub size : ℕ
  pub mtime : ℕ

pub record AttemptStateData : Type 0 where
  pub state : AttemptState
  pub role : AgentRole
  pub dispatch_ts : ℕ
  pub pid : Option ℕ
  -- `ExitStatus::code()` as the operating system's byte
  pub exit_code : Option ℕ
  pub request_fingerprint : String
  pub last_work_signal_ts : Option ℕ
  pub grace_until_commit : Option ℕ
  pub grace_until_outbox : Option ℕ
  pub pre_reviewer_outbox_mtime : Option ℕ
  pub next_probe_at : ℕ
  pub dispatch_git_status_hash : String
  pub prev_probe_git_status_hash : String
  pub prev_probe_git_status_lines : List String
  pub dispatch_git_head_hash : String
  pub prev_probe_git_head_hash : String
  pub prev_probe_outbox_meta : Option FileMeta
  pub prev_probe_log_mtime : Option ℕ
  pub provider_log_ever_seen : Bool
  pub last_heartbeat_ts : Option ℕ

-- `Child` is known by the process id that it had when it was spawned.
pub record DispatchedProcess : Type 0 where
  pub child : Option ℕ
  pub stdout_path : String
  pub stderr_path : String

pub record TransportBodyReport : Type 0 where
  pub role : AgentRole
  pub provider : ProviderKind
  pub session_id : String
  pub path : String
  pub sha256 : String
  pub bytes : ℕ
  pub lines : ℕ
  pub utf8_lossy : Bool
  pub mtime : Option String
  pub body : String

-- What an operation does to the outside world, in the order in which it is done.
pub data Effect : Type 0 where
  lock_session : AgentRole → ProviderKind → String → Effect
  reset_files : AgentRole → Effect
  write_inbox : String → Effect
  spawn_provider : AgentRole → TemplateId → Effect
  stop_child : Effect
  wait_seconds : ℕ → Effect

-- `effects` is the log of what was done to the outside; every other field is the source's.
pub record OrchestratorCtx : Type 0 where
  pub args : CliArgs
  pub run_state : RunState
  pub consecutive_failure_count : ℕ
  pub current_role : Option AgentRole
  pub branch : String
  pub pre_reviewer_git_status : Option String
  pub initial_git_head : Option String
  pub claude_project_key : Option String
  pub executor_session_id : Option String
  pub reviewer_session_id : Option String
  -- whether the lock file is held
  pub executor_lock : Bool
  pub reviewer_lock : Bool
  pub attempt : Option AttemptStateData
  pub active_process : Option DispatchedProcess
  pub artifact_map : List (String × Bool)
  pub outbox_present : Bool
  pub review_result : Option ReviewerYaml
  pub review_result_yaml_raw : Option String
  pub reviewer_yaml_rejection : Option String
  pub reviewer_workspace_rejection : Option String
  pub last_inbox_snapshot : Option TransportBodyReport
  pub executor_outbox_snapshot : Option TransportBodyReport
  pub reviewer_outbox_snapshot : Option TransportBodyReport
  pub commit_hashes : List String
  pub artifact_paths : List String
  pub warnings : List String
  pub failures : List String
  pub dirty_file_touch_counts : List (String × ℕ)
  pub committed_file_touch_counts : List (String × ℕ)
  pub last_phase_hint : Option String
  pub last_dirty_files_count : ℕ
  pub committed_files_seen_count : ℕ
  pub last_provider_action : Option String
  pub last_provider_action_ts : Option ℕ
  pub detail : Option String
  pub next_action_required : Option String
  pub effects : List Effect

unfoldable pub new : CliArgs → OrchestratorCtx
new args = record {
  args = args;
  run_state = RunState.run_init;
  consecutive_failure_count = 0;
  current_role = none;
  branch = "";
  pre_reviewer_git_status = none;
  initial_git_head = none;
  claude_project_key = none;
  executor_session_id = none;
  reviewer_session_id = none;
  executor_lock = false;
  reviewer_lock = false;
  attempt = none;
  active_process = none;
  artifact_map = [];
  outbox_present = false;
  review_result = none;
  review_result_yaml_raw = none;
  reviewer_yaml_rejection = none;
  reviewer_workspace_rejection = none;
  last_inbox_snapshot = none;
  executor_outbox_snapshot = none;
  reviewer_outbox_snapshot = none;
  commit_hashes = [];
  artifact_paths = [];
  warnings = [];
  failures = [];
  dirty_file_touch_counts = [];
  committed_file_touch_counts = [];
  last_phase_hint = none;
  last_dirty_files_count = 0;
  committed_files_seen_count = 0;
  last_provider_action = none;
  last_provider_action_ts = none;
  detail = none;
  next_action_required = none;
  effects = [];
}

abbrev pub session_id : AgentRole → OrchestratorCtx → Option String
session_id executor c = c.executor_session_id
session_id reviewer c = c.reviewer_session_id

abbrev pub lock_of : AgentRole → OrchestratorCtx → Bool
lock_of executor c = c.executor_lock
lock_of reviewer c = c.reviewer_lock
