-- ===== src/Providers/Discovery.antt =====
-- src/orchestrator/phases.rs, `discover_session` and `validate_provider_models`, over the providers'
-- own discoveries.
pub mod Bound
use multi_agent_orchestrator.Prelude.{ℕ, Option, none, some, String, List, [], ◌∷◌}
use multi_agent_orchestrator.State.{AgentRole, ProviderKind, claude, opencode, codex}
use multi_agent_orchestrator.Errors.{invalid_input, Result, ok, err, ◌>>=◌, ◌>>◌}
use multi_agent_orchestrator.Env.{Output}
use multi_agent_orchestrator.Json.{JsonLib}
use multi_agent_orchestrator.Files.{Files, join_all}
use multi_agent_orchestrator.Phases.Start.{BindEnv}
use multi_agent_orchestrator.Providers.Codex.{
  RowReader, discover_by_thread_from_index_with_cwd_lookup,
}
use multi_agent_orchestrator.Providers.Codex.Logs.{codex_session_cwd}
use multi_agent_orchestrator.Providers.Opencode.{RowsReader, ensure_model_available}
use multi_agent_orchestrator.Providers.Claude
use multi_agent_orchestrator.Providers.Codex
use multi_agent_orchestrator.Providers.Opencode

-- What the discoveries take from outside. `run_opencode` is the command `opencode` in a directory.
pub record ProviderEnv : Type 0 where
  pub files : Files
  pub json_lib : JsonLib
  pub read_row : RowReader
  pub read_rows : RowsReader
  pub home : Option String
  pub run_opencode : String → List String → Output

unfoldable pub index_path_or_error : Option String → Result String
index_path_or_error (some home) = ok (join_all home (".codex" ∷ "session_index.jsonl" ∷ []))
index_path_or_error none =
    err (invalid_input "HOME" "HOME is not set; cannot locate ~/.codex/session_index.jsonl")

module _ (env : ProviderEnv) where
  unfoldable pub discover_codex : String → String → AgentRole → Result String
  discover_codex repo thread_name role = index_path_or_error env.home >>= λ index_path.
      discover_by_thread_from_index_with_cwd_lookup env.read_row env.files index_path thread_name
        role repo (λ id. codex_session_cwd env.files env.json_lib id env.home)

  unfoldable pub discover_session : String → String → AgentRole → ProviderKind → Result String
  discover_session repo thread_name role claude =
      Claude.discover_by_thread env.files env.json_lib role thread_name env.home repo
  discover_session repo thread_name role opencode =
      Opencode.discover_by_thread env.read_rows role repo thread_name (env.run_opencode repo)
  discover_session repo thread_name role codex = discover_codex repo thread_name role

  -- The binding's parameter, filled by the providers.
  abbrev pub bind_env : BindEnv
  bind_env = record { discover_session = discover_session }

  abbrev pub check_model : String → String → Option String → Result (Unit {0})
  check_model repo field none = ok tt
  check_model repo field (some model) = ensure_model_available (env.run_opencode repo) model field

  unfoldable pub validate_provider_models :
      String → Option String → Option String → Result (Unit {0})
  validate_provider_models repo executor_model reviewer_model =
      check_model repo "--executor-model" executor_model
      >> check_model repo "--reviewer-model" reviewer_model
