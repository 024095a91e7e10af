-- ===== src/Providers/Claude.antt =====
-- src/providers/claude.rs: the session logs of Claude, the titles in them, and the service caps.
pub mod Titles
pub mod Found
pub mod Caps
pub mod Since
use multi_agent_orchestrator.Prelude.{
  ◌⊎◌, inl, inr, ℕ, ltb, ◌==◌, Bool, true, false, ◌||◌, Option, none, some, String, List, [], ◌∷◌,
  ◌++◌, map, str_eq, if◌then◌else◌, and_then, or_else,
}
use Prim.Native.Char.{code}
use multi_agent_orchestrator.Prelude.Show.{format}
use multi_agent_orchestrator.Prelude.Text.{trim, lines, is_empty_text}
use multi_agent_orchestrator.State.{
  AgentRole, claude, service_cap, permission, auth, transport, ProviderErrorClass,
}
use multi_agent_orchestrator.Errors.{
  not_found, would_block, other_kind, OrchestratorError, io, session_bind_failed, invalid_input,
  error_text, Result, ok, err, panic, ◌>>=◌,
}
use multi_agent_orchestrator.Signals.{
  RegexLib, ProviderErrorMatch, classify_provider_error_with_match,
}
use multi_agent_orchestrator.Json.{Value, JsonLib, get, get_str, as_str, as_u64, as_bool, pointer}
use multi_agent_orchestrator.Files.{
  Files, IoResult, done, failed, try_io, Metadata, join_all, is_jsonl, file_stem,
}
use multi_agent_orchestrator.Phases.Start.{claude_project_key}
use multi_agent_orchestrator.Providers.Select.{one_session}

unfoldable pub home_dir : Option String → Result String
home_dir (some home) = ok home
home_dir none = err (invalid_input "HOME" "HOME environment variable is not set")

unfoldable pub projects_dir : String → String → String
projects_dir home repo = join_all home (".claude" ∷ "projects" ∷ claude_project_key repo ∷ [])

unfoldable pub session_log_path : String → String → String → String
session_log_path home repo session_id =
    join_all (projects_dir home repo) (format (session_id ∷ ".jsonl" ∷ []) ∷ [])

-- A missing log has no mtime.
unfoldable pub mtime_of : IoResult Metadata → Result (Option ℕ)
mtime_of (done meta) = try_io meta.modified >>= λ modified. ok (some modified)
mtime_of (failed not_found source) = ok none
mtime_of (failed would_block source) = err (io would_block source)
mtime_of (failed other_kind source) = err (io other_kind source)

unfoldable pub session_jsonl_mtime : Files → Option String → String → String → Result (Option ℕ)
session_jsonl_mtime files home repo session_id =
    home_dir home >>= λ h. mtime_of (files.metadata (session_log_path h repo session_id))

-- The titles seen so far: the custom title and the agent's name.
abbrev pub Titles : Type 0
Titles = Option String × Option String

abbrev pub note_title : Option String → Value → Titles → Titles
note_title none obj (custom_title, agent_name) = (custom_title, agent_name)
note_title (some t) obj (custom_title, agent_name) =
    if str_eq t "custom-title"
    then (get_str obj "customTitle", agent_name)
    else if str_eq t "agent-name"
    then (custom_title, get_str obj "agentName")
    else (custom_title, agent_name)

-- `line.bytes().all(|b| b == 0)`
unfoldable pub all_zero : String → Bool
all_zero String.[] = true
all_zero (String.◌∷◌ c s) = let rest = all_zero s in if code c == 0 then rest else false

module _ (lib : JsonLib) where
  abbrev pub note_parsed : String ⊎ Value → Titles → Titles
  note_parsed (inl e) titles = titles
  note_parsed (inr obj) titles = note_title (get_str obj "type") obj titles

  -- One line of the log; a line that is blank or is not JSON is skipped.
  unfoldable pub note_line : String → Titles → Titles
  note_line line titles =
      if is_empty_text (trim line) || all_zero line
      then titles
      else note_parsed (lib.from_str line) titles

  unfoldable pub title_loop : List String → Titles → Titles
  title_loop [] titles = titles
  title_loop (line ∷ rest) titles = title_loop rest (note_line line titles)

  abbrev pub effective : Titles → Option String
  effective (custom_title, agent_name) = or_else custom_title agent_name

  unfoldable pub claude_effective_title : Files → String → Result (Option String)
  claude_effective_title files path = try_io (files.read_to_string path) >>= λ content.
      ok (effective (title_loop (lines content) (none, none)))

module _ (files : Files) (lib : JsonLib) (role : AgentRole) (thread_name : String) where
  -- The session of a log with the thread's title.
  abbrev pub candidate_of : String → Result (Option String) → Result (Option String)
  candidate_of path panic = panic
  candidate_of path (err e) = err (
      session_bind_failed role claude
        (format ("failed to parse session log " ∷ path ∷ ": " ∷ error_text e ∷ [])))
  candidate_of path (ok none) = ok none
  candidate_of path (ok (some title)) =
      if str_eq title thread_name then ok (some (file_stem path)) else ok none

  unfoldable pub entry_candidate : String → Result (Option String)
  entry_candidate path =
      if is_jsonl path then candidate_of path (claude_effective_title lib files path) else ok none

  abbrev pub with_candidate : Option String → List String → List String
  with_candidate none ids = ids
  with_candidate (some id) ids = id ∷ ids

  -- `for entry in entries`
  unfoldable pub candidates : List (IoResult String) → Result (List String)
  candidates [] = ok []
  candidates (failed kind source ∷ entries) = err (io kind source)
  candidates (done path ∷ entries) = entry_candidate path >>= λ found.
      candidates entries >>= λ rest. ok (with_candidate found rest)

  abbrev pub project_entries :
      String → IoResult (List (IoResult String)) → Result (List (IoResult String))
  project_entries dir (done entries) = ok entries
  project_entries dir (failed kind source) =
      err (session_bind_failed role claude (format ("Claude project dir not found: " ∷ dir ∷ [])))

  unfoldable pub discover_by_thread : Option String → String → Result String
  discover_by_thread home repo = do
    h ← home_dir home
    entries ← project_entries (projects_dir h repo) (files.read_dir (projects_dir h repo))
    ids ← candidates entries
    one_session role claude thread_name ids
