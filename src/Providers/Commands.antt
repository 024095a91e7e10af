-- ===== src/Providers/Commands.antt =====
-- src/providers: the commands that the providers are started with, src/providers/mod.rs, `dispatch`,
-- and the prompt of src/constants.rs.
pub mod Lines
use multi_agent_orchestrator.Prelude.{
  ℕ, Bool, true, false, Option, none, some, String, List, [], ◌∷◌, ◌++◌, if◌then◌else◌, unwrap_or,
}
use multi_agent_orchestrator.Prelude.Show.{format, join, show}
use multi_agent_orchestrator.Prelude.Text.{is_empty_text}
use multi_agent_orchestrator.State.{ProviderKind, claude, opencode, codex}
use multi_agent_orchestrator.Errors.{Result, ok, err, ◌>>=◌}
use multi_agent_orchestrator.Env.{Output, not_run, exited, path_join}
use multi_agent_orchestrator.Files.{IoResult, try_io}
use multi_agent_orchestrator.Context.{DispatchedProcess}

-- `trigger_prompt` of src/constants.rs
unfoldable pub trigger_prompt : String → String → String
trigger_prompt inbox_path outbox_path = format (
    "Read the inbox at absolute path `" ∷ inbox_path
    ∷ "` right now, even if you think you already know its contents, and follow it exactly. "
    ∷ "Write the required result to the outbox at absolute path `" ∷ outbox_path ∷ "`." ∷ [])

unfoldable pub build_run_args : String → String → Option String → List String
build_run_args session_id prompt none = "run" ∷ "-s" ∷ session_id ∷ prompt ∷ []
build_run_args session_id prompt (some model) =
    "run" ∷ "-s" ∷ session_id ∷ "--model" ∷ model ∷ prompt ∷ []

abbrev pub systemd_memory_high : String
systemd_memory_high = "MemoryHigh=18G"

abbrev pub systemd_memory_max : String
systemd_memory_max = "MemoryMax=20G"

abbrev pub systemd_memory_swap_max : String
systemd_memory_swap_max = "MemorySwapMax=2G"

unfoldable pub build_systemd_run_args : String → List String → List String
build_systemd_run_args unit opencode_args =
    ("--user"
      ∷ "--scope"
      ∷ "--collect"
      ∷ "--same-dir"
      ∷ "--quiet"
      ∷ format ("--unit=" ∷ unit ∷ [])
      ∷ "-p"
      ∷ systemd_memory_high
      ∷ "-p"
      ∷ systemd_memory_max
      ∷ "-p"
      ∷ systemd_memory_swap_max
      ∷ "opencode"
      ∷ [])
    ++ opencode_args

abbrev local_bin : Option String → List String
local_bin none = []
local_bin (some home) = format (home ∷ "/.local/bin" ∷ []) ∷ []

-- `enriched_path_for_agents`, from PATH and HOME.
unfoldable pub enriched_path_for_agents : Option String → Option String → Option String
enriched_path_for_agents path home =
    let current = unwrap_or "" path in
    let rest = if is_empty_text current then [] else current ∷ [] in
    some (join ":" (local_bin home ++ "/usr/local/bin" ∷ rest))

-- The machine at a dispatch: the clock's nanoseconds and formatted second, the process's id, the
-- directory of temporary files, and the environment.
pub record Machine : Type 0 where
  pub nanos : ℕ
  pub stamp : String
  pub process_id : ℕ
  pub temp_dir : String
  pub path : Option String
  pub home : Option String
  -- `File::create`
  pub create : String → IoResult (Unit {0})
  -- the probe of `systemd_run_available`
  pub systemd_run : List String → Output

-- A command to spawn, its streams going to files.
pub record Command : Type 0 where
  pub program : String
  pub args : List String
  pub current_dir : String
  pub stdout_path : String
  pub stderr_path : String
  pub path_env : Option String

module _ (machine : Machine) where
  unfoldable pub temp_log_path : String → String
  temp_log_path prefix = path_join machine.temp_dir (
      format (
        "orchestrate_"
        ∷ prefix
        ∷ "_"
        ∷ machine.stamp
        ∷ "_"
        ∷ show machine.process_id
        ∷ ".log"
        ∷ []))

  unfoldable pub unique_unit_suffix : String
  unique_unit_suffix = format (show machine.process_id ∷ "-" ∷ show machine.nanos ∷ [])

  unfoldable pub build_systemd_unit_name : String
  build_systemd_unit_name = format ("orchestrate-opencode-" ∷ unique_unit_suffix ∷ [])

  abbrev pub succeeded : Output → Bool
  succeeded (not_run kind source) = false
  succeeded (exited success status stdout stderr) = success

  unfoldable pub systemd_run_available : Bool
  systemd_run_available = succeeded (
      machine.systemd_run (
        "--user"
        ∷ "--scope"
        ∷ "--collect"
        ∷ "--same-dir"
        ∷ "--quiet"
        ∷ format ("--unit=orchestrate-opencode-probe-" ∷ unique_unit_suffix ∷ [])
        ∷ "true"
        ∷ []))

  -- The program and its arguments, for a session and a prompt.
  unfoldable pub command_line :
      ProviderKind → String → String → Option String → String × List String
  command_line claude session_id prompt model = (
    "claude",
    "-p" ∷ "--resume" ∷ session_id ∷ "--permission-mode" ∷ "bypassPermissions" ∷ prompt ∷ [],
  )
  command_line codex session_id prompt model = (
    "codex",
    "exec" ∷ "resume" ∷ "--json" ∷ "--dangerously-bypass-approvals-and-sandbox" ∷ session_id
        ∷ prompt ∷ [],
  )
  command_line opencode session_id prompt model =
      let args = build_run_args session_id prompt model in
      if systemd_run_available
      then ("systemd-run", build_systemd_run_args build_systemd_unit_name args)
      else ("opencode", args)

  abbrev pub log_prefix : ProviderKind → String → String
  log_prefix claude stream = format ("claude_" ∷ stream ∷ [])
  log_prefix opencode stream = format ("opencode_" ∷ stream ∷ [])
  log_prefix codex stream = format ("codex_" ∷ stream ∷ [])

  abbrev pub command : ProviderKind → String → String → String → Option String → Command
  command provider session_id repo prompt model =
      let (program, args) = command_line provider session_id prompt model in
      record {
        program = program;
        args = args;
        current_dir = repo;
        stdout_path = temp_log_path (log_prefix provider "stdout");
        stderr_path = temp_log_path (log_prefix provider "stderr");
        path_env = enriched_path_for_agents machine.path machine.home;
      }

  -- Both log files are created before the process is spawned.
  unfoldable pub dispatch :
      (Command → Result (Option ℕ))
      → ProviderKind
      → String
      → String
      → String
      → Option String
      → Result DispatchedProcess
  dispatch spawn provider session_id repo prompt model =
      try_io (machine.create (temp_log_path (log_prefix provider "stdout"))) >>= λ out.
      try_io (machine.create (temp_log_path (log_prefix provider "stderr"))) >>= λ errors.
      spawn (command provider session_id repo prompt model) >>= λ child. ok (record {
        child = child;
        stdout_path = temp_log_path (log_prefix provider "stdout");
        stderr_path = temp_log_path (log_prefix provider "stderr");
      })

-- `read_diagnostics`: the tails of both streams.
unfoldable pub read_diagnostics :
    (String → ℕ → Result String) → DispatchedProcess → Result (String × String)
read_diagnostics read_log_tail proc = read_log_tail proc.stdout_path 8192 >>= λ stdout.
    read_log_tail proc.stderr_path 8192 >>= λ stderr. ok (stdout, stderr)
