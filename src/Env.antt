-- ===== src/Env.antt =====
-- What the operations take from outside: subprocesses, files and the clock. Each phase of the run
-- is given a record with the answers of the calls that it makes.
use multi_agent_orchestrator.Prelude.{
  Bool, false, Option, none, some, String, List, [], ◌∷◌, if◌then◌else◌,
}
use multi_agent_orchestrator.Prelude.Show.{format, join}
use multi_agent_orchestrator.Prelude.Text.{starts_with}
use multi_agent_orchestrator.Errors.{IoKind, io, command_failed, Result, ok, err}

-- `tokio::process::Command::output().await`: an error, or the exit status and both streams.
pub data Output : Type 0 where
  not_run : (kind : IoKind) (source : String) → Output
  exited : (success : Bool) (status stdout stderr : String) → Output

-- `git` with some arguments, in the workspace.
abbrev pub Git : Type 0
Git = List String → Output

-- src/sessions.rs, `run_git`
unfoldable pub run_git : Git → List String → Result String
run_git git args = elim (git args) [
  | not_run kind source ↦ err (io kind source)
  | exited success status stdout stderr ↦
      if success
      then ok stdout
      else err (command_failed (format ("git " ∷ join " " args ∷ [])) status)
]

-- src/orchestrator/phases.rs, `try_run_git`
unfoldable pub try_run_git : Git → List String → Option String
try_run_git git args = elim (git args) [
  | not_run kind source ↦ none
  | exited success status stdout stderr ↦ if success then some stdout else none
]

ends_with_slash : String → Bool
ends_with_slash String.[] = false
ends_with_slash (String.◌∷◌ c String.[]) = starts_with (String.◌∷◌ c String.[]) "/"
ends_with_slash (String.◌∷◌ c (String.◌∷◌ d s)) = ends_with_slash (String.◌∷◌ d s)

-- `base.join(path)` on Unix.
unfoldable pub path_join : String → String → String
unfolding ends_with_slash
path_join base path =
    if starts_with path "/"
    then path
    else if ends_with_slash base
    then format (base ∷ path ∷ [])
    else format (base ∷ "/" ∷ path ∷ [])
