-- ===== src/Providers/Opencode.antt =====
-- src/providers/opencode.rs: the session list and the model list of the OpenCode command.
pub mod Found
pub mod Models
use multi_agent_orchestrator.Prelude.{
  ◌⊎◌, inl, inr, ℕ, Bool, true, false, not, ◌&&◌, Option, none, some, String, List, [], ◌∷◌, any,
  is_empty, map, filter_by, str_eq, if◌then◌else◌, ◌==◌, ◌||◌,
}
use Prim.Native.Char.{code}
use multi_agent_orchestrator.Prelude.Show.{format}
use multi_agent_orchestrator.Prelude.Text.{trim, lines}
use multi_agent_orchestrator.State.{AgentRole, opencode}
use multi_agent_orchestrator.Errors.{
  OrchestratorError, io, json, command_failed, session_bind_failed, invalid_input, error_text,
  Result, ok, err, panic, ◌>>=◌, reject_if,
}
use multi_agent_orchestrator.Env.{Output, not_run, exited}
use multi_agent_orchestrator.Phases.Inputs.{parse_model_provider}
use multi_agent_orchestrator.Providers.Select.{one_session}

-- `updated` in nanoseconds since 1970, none for an earlier time.
pub record OpenCodeSessionRow : Type 0 where
  pub row_id : String
  pub title : String
  pub directory : String
  pub updated : Option ℕ

-- `serde_json::from_slice` of the rows: the error's text, or the rows.
abbrev pub RowsReader : Type 0
RowsReader = String → String ⊎ List OpenCodeSessionRow

-- `json.iter().all(u8::is_ascii_whitespace)`
unfoldable pub all_ascii_whitespace : String → Bool
all_ascii_whitespace String.[] = true
all_ascii_whitespace (String.◌∷◌ c s) =
    let rest = all_ascii_whitespace s in
    if code c == 32 || code c == 9 || code c == 10 || code c == 12 || code c == 13
    then rest
    else false

abbrev pub rows_or_error : String ⊎ List OpenCodeSessionRow → Result (List OpenCodeSessionRow)
rows_or_error (inl e) = err (json e)
rows_or_error (inr rows) = ok rows

abbrev pub bind_error :
    AgentRole → Result (List OpenCodeSessionRow) → Result (List OpenCodeSessionRow)
bind_error role (ok rows) = ok rows
bind_error role (err e) = err (
    session_bind_failed role opencode
      (format ("failed to parse opencode session list JSON: " ∷ error_text e ∷ [])))
bind_error role panic = panic

abbrev pub session_list : List String
session_list = "session" ∷ "list" ∷ "--format" ∷ "json" ∷ []

module _ (read_rows : RowsReader) where
  unfoldable pub parse_session_rows : String → Result (List OpenCodeSessionRow)
  parse_session_rows text =
      if all_ascii_whitespace text then ok [] else rows_or_error (read_rows text)

  unfoldable pub parse_session_rows_for_bind : String → AgentRole → Result (List OpenCodeSessionRow)
  parse_session_rows_for_bind text role = bind_error role (parse_session_rows text)

  -- `find(|r| r.id == session_id)` and the row's time.
  unfoldable pub updated_of : String → List OpenCodeSessionRow → Option ℕ
  updated_of session_id [] = none
  updated_of session_id (r ∷ rows) =
      let rest = updated_of session_id rows in
      if str_eq r.row_id session_id then r.updated else rest

  unfoldable pub parse_session_updated_bytes : String → String → Result (Option ℕ)
  parse_session_updated_bytes text session_id =
      parse_session_rows text >>= λ rows. ok (updated_of session_id rows)

  -- `opencode` with some arguments, in the workspace.
  unfoldable pub session_mtime : (List String → Output) → String → Result (Option ℕ)
  session_mtime run session_id = elim (run session_list) [
    | not_run kind source ↦ err (io kind source)
    | exited success status stdout stderr ↦
        if success
        then parse_session_updated_bytes stdout session_id
        else err (command_failed "opencode session list --format json" status)
  ]

  module _ (role : AgentRole) (repo thread_name : String) where
    abbrev pub is_candidate : OpenCodeSessionRow → Bool
    is_candidate r = str_eq r.directory repo && str_eq r.title thread_name

    unfoldable pub select_row : List OpenCodeSessionRow → Result String
    select_row [] = err (
        session_bind_failed role opencode
          "no OpenCode sessions found for workspace (empty session list)")
    select_row (r ∷ rows) =
        one_session role opencode thread_name
          (map (λ q. q.row_id) (filter_by is_candidate (r ∷ rows)))

    abbrev pub of_list : Output → Result String
    of_list (not_run kind source) = err (io kind source)
    of_list (exited success status stdout stderr) =
        if success
        then parse_session_rows_for_bind stdout role >>= select_row
        else err (
            session_bind_failed role opencode
              (format ("opencode session list failed (exit " ∷ status ∷ "): " ∷ trim stderr ∷ [])))

    unfoldable pub discover_by_thread : (List String → Output) → Result String
    discover_by_thread run = of_list (run session_list)

unfoldable pub model_list_contains : String → String → Bool
model_list_contains output model = any (λ line. str_eq (trim line) model) (lines output)

abbrev pub listed_model : String → String → String → Output → Result (Unit {0})
listed_model model field provider (not_run kind source) = err (io kind source)
listed_model model field provider (exited success status stdout stderr) =
    if not success
    then err (
        invalid_input field (
          format (
            "failed to list OpenCode models for provider '"
            ∷ provider
            ∷ "' (exit "
            ∷ status
            ∷ "): "
            ∷ trim stderr
            ∷ [])))
    else if model_list_contains stdout model
    then ok tt
    else err (
        invalid_input field (
          format (
            "OpenCode model '" ∷ model ∷ "' was not found in `opencode models " ∷ provider ∷ "`"
            ∷ [])))

abbrev pub checked_provider : String → String ⊎ String → Result String
checked_provider field (inl provider) = ok provider
checked_provider field (inr reason) = err (invalid_input field reason)

unfoldable pub ensure_model_available : (List String → Output) → String → String → Result (Unit {0})
ensure_model_available run model field =
    checked_provider field (parse_model_provider model) >>= λ provider.
    listed_model model field provider (run ("models" ∷ provider ∷ []))
