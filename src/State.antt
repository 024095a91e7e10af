-- ===== src/State.antt =====
-- src/state.rs, the enumerations: roles, providers, attempt and run states, policies.
pub mod Names
use multi_agent_orchestrator.Prelude.{
  Bool, true, false, ◌||◌, String, Option, none, some, str_eq, if◌then◌else◌,
}

pub data AgentRole : Type 0 where
  executor reviewer : AgentRole

abbrev pub is_executor : AgentRole → Bool
is_executor executor = true
is_executor reviewer = false

abbrev pub is_reviewer : AgentRole → Bool
is_reviewer executor = false
is_reviewer reviewer = true

pub data ProviderKind : Type 0 where
  claude opencode codex : ProviderKind

-- The derived `==`.
abbrev pub same_provider : ProviderKind → ProviderKind → Bool
same_provider claude claude = true
same_provider opencode opencode = true
same_provider codex codex = true
same_provider _ _ = false

pub data AttemptState : Type 0 where
  dispatching running waiting_output success soft_success failed_silent failed_service_cap :
      AttemptState
  failed_provider_access failed_transport failed_protocol hang_confirmed finalizing : AttemptState
  terminating_stale retry_pending retry_exhausted cancelled unknown : AttemptState

pub data RunState : Type 0 where
  run_init context_prep session_bind executor_dispatch executor_monitor round_retry_decide :
      RunState
  executor_output_collect orch_verify reviewer_dispatch reviewer_monitor : RunState
  reviewer_output_collect quality_gate round_feedback_prep run_done run_aborted : RunState
  run_failed_invalid_input run_failed_dirty_worktree run_failed_session_bind : RunState
  run_failed_service_cap run_failed_provider_access run_failed_consecutive_failure_limit : RunState
  run_failed_external_blocker run_failed_irreconcilable_disagreement : RunState
  run_failed_poisoned_session run_failed_protocol run_failed_session_locked : RunState
  run_failed_internal : RunState

unfoldable pub is_terminal : RunState → Bool
is_terminal run_done = true
is_terminal run_aborted = true
is_terminal run_failed_invalid_input = true
is_terminal run_failed_dirty_worktree = true
is_terminal run_failed_session_bind = true
is_terminal run_failed_service_cap = true
is_terminal run_failed_provider_access = true
is_terminal run_failed_consecutive_failure_limit = true
is_terminal run_failed_external_blocker = true
is_terminal run_failed_irreconcilable_disagreement = true
is_terminal run_failed_poisoned_session = true
is_terminal run_failed_protocol = true
is_terminal run_failed_session_locked = true
is_terminal run_failed_internal = true
is_terminal _ = false

pub data WorkflowType : Type 0 where
  plan investigate implement : WorkflowType

pub data NotionPolicy : Type 0 where
  required optional : NotionPolicy

pub data RemoteNetworkPolicy : Type 0 where
  forbidden read_only operational : RemoteNetworkPolicy

pub data ProviderErrorClass : Type 0 where
  service_cap permission auth transport : ProviderErrorClass

pub data TemplateId : Type 0 where
  executor_initial reviewer_review reviewer_repair_yaml reviewer_repair_workspace
        executor_feedback :
      TemplateId

-- `as_str` and `from_str` of the types that the command line reads; `none` is a refused text.
unfoldable pub provider_as_str : ProviderKind → String
provider_as_str claude = "claude"
provider_as_str opencode = "opencode"
provider_as_str codex = "codex"

unfoldable pub provider_of_str : String → Option ProviderKind
provider_of_str s =
    if str_eq s "claude"
    then some claude
    else if str_eq s "opencode"
    then some opencode
    else if str_eq s "codex"
    then some codex
    else none

unfoldable pub workflow_as_str : WorkflowType → String
workflow_as_str plan = "plan"
workflow_as_str investigate = "investigate"
workflow_as_str implement = "implement"

unfoldable pub workflow_of_str : String → Option WorkflowType
workflow_of_str s =
    if str_eq s "plan"
    then some plan
    else if str_eq s "investigate" || str_eq s "inv"
    then some investigate
    else if str_eq s "implement" || str_eq s "impl"
    then some implement
    else none

unfoldable pub notion_as_str : NotionPolicy → String
notion_as_str required = "required"
notion_as_str optional = "optional"

unfoldable pub notion_of_str : String → Option NotionPolicy
notion_of_str s =
    if str_eq s "required"
    then some required
    else if str_eq s "optional"
    then some optional
    else none

unfoldable pub network_as_str : RemoteNetworkPolicy → String
network_as_str forbidden = "forbidden"
network_as_str read_only = "read_only"
network_as_str operational = "operational"

unfoldable pub network_of_str : String → Option RemoteNetworkPolicy
network_of_str s =
    if str_eq s "forbidden"
    then some forbidden
    else if str_eq s "read_only"
    then some read_only
    else if str_eq s "operational"
    then some operational
    else none

-- The derived `Debug` of the types that messages show.
unfoldable pub role_debug : AgentRole → String
role_debug executor = "Executor"
role_debug reviewer = "Reviewer"

unfoldable pub provider_debug : ProviderKind → String
provider_debug claude = "Claude"
provider_debug opencode = "Opencode"
provider_debug codex = "Codex"

unfoldable pub class_debug : ProviderErrorClass → String
class_debug service_cap = "ServiceCap"
class_debug permission = "Permission"
class_debug auth = "Auth"
class_debug transport = "Transport"
