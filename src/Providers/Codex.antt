-- ===== src/Providers/Codex.antt =====
-- src/providers/codex.rs: the session index of Codex.
pub mod Latest
pub mod Unique
pub mod Index
pub mod Found
pub mod Logs
pub mod Walks
pub mod Mtime
use multi_agent_orchestrator.Prelude.{
  ◌⊎◌, inl, inr, ℕ, suc, Bool, true, false, not, ◌&&◌, Option, none, some, String, List, [], ◌∷◌,
  filter_by, map, str_eq, if◌then◌else◌, and_then, unwrap_or,
}
use multi_agent_orchestrator.Prelude.Map.{get, insert}
use multi_agent_orchestrator.Prelude.Show.{format, show}
use multi_agent_orchestrator.Prelude.Text.{trim, lines, is_empty_text}
use multi_agent_orchestrator.Prelude.Order.{at_least}
use multi_agent_orchestrator.State.{AgentRole, codex}
use multi_agent_orchestrator.Errors.{
  not_found, would_block, other_kind, IoKind, OrchestratorError, io, session_bind_failed,
  invalid_input, Result, ok, err, ◌>>=◌,
}
use multi_agent_orchestrator.Json
use multi_agent_orchestrator.Json.{JsonLib, get_str}
use multi_agent_orchestrator.Files.{
  Files, IoResult, done, failed, try_io, io_ok, Metadata, join_all, ends_with, is_jsonl, file_stem,
}
use multi_agent_orchestrator.Providers.Select.{one_session}

pub record CodexSessionIndexRow : Type 0 where
  pub id : String
  pub thread_name : String
  pub updated_at : String

-- The derived reading of a row from a line: the error's text, or the row.
abbrev pub RowReader : Type 0
RowReader = String → String ⊎ CodexSessionIndexRow

abbrev pub Latest : Type 0
Latest = List (String × CodexSessionIndexRow)

-- `match latest_by_id.get(&row.id)`
unfoldable pub keep_latest : CodexSessionIndexRow → Latest → Latest
keep_latest row latest = elim (get row.id latest) [
  | none ↦ insert row.id row latest
  | some prev ↦ if at_least prev.updated_at row.updated_at then latest else insert row.id row latest
]

module _ (role : AgentRole) (read_row : RowReader) where
  unfoldable pub parsed : ℕ → String ⊎ CodexSessionIndexRow → Result (Option CodexSessionIndexRow)
  parsed line_no (inl e) = err (
      session_bind_failed role codex (
        format
          ("failed to parse codex session_index.jsonl line " ∷ show (suc line_no) ∷ ": " ∷ e ∷ [])))
  parsed line_no (inr row) = ok (some row)

  -- The row of a line, none for a blank line.
  unfoldable pub index_line : ℕ → String → Result (Option CodexSessionIndexRow)
  index_line line_no line =
      if is_empty_text (trim line) then ok none else parsed line_no (read_row line)

  abbrev pub note_row : Option CodexSessionIndexRow → Latest → Latest
  note_row none latest = latest
  note_row (some row) latest = keep_latest row latest

  -- The loop over the lines of the index, from line `line_no` on.
  unfoldable pub read_index : ℕ → List String → Latest → Result Latest
  read_index line_no [] latest = ok latest
  read_index line_no (line ∷ rest) latest =
      index_line line_no line >>= λ row. read_index (suc line_no) rest (note_row row latest)

abbrev pub values : Latest → List CodexSessionIndexRow
values [] = []
values ((k, row) ∷ latest) = row ∷ values latest

module _ (cwd_lookup : String → Option String) (thread_name workspace_root : String) where
  -- The row is named as asked and its rollout was started in the workspace.
  unfoldable pub is_candidate : CodexSessionIndexRow → Bool
  is_candidate row =
      str_eq row.thread_name thread_name
      && elim (cwd_lookup row.id) [ none ↦ false | some cwd ↦ str_eq cwd workspace_root ]

  unfoldable pub select_codex : AgentRole → Latest → Result String
  select_codex role latest =
      one_session role codex thread_name (map (λ r. r.id) (filter_by is_candidate (values latest)))

-- The error of a session index that cannot be read.
unfoldable pub index_unreadable : AgentRole → IoKind → String → OrchestratorError
index_unreadable role not_found e =
    session_bind_failed role codex
      "~/.codex/session_index.jsonl not found; create a Codex session first"
index_unreadable role would_block e =
    session_bind_failed role codex
      (format ("failed to read ~/.codex/session_index.jsonl: " ∷ e ∷ []))
index_unreadable role other_kind e =
    session_bind_failed role codex
      (format ("failed to read ~/.codex/session_index.jsonl: " ∷ e ∷ []))

unfoldable pub read_content : AgentRole → IoResult String → Result String
read_content role (done content) = ok content
read_content role (failed kind e) = err (index_unreadable role kind e)

unfoldable pub discover_by_thread_from_index_with_cwd_lookup :
    RowReader
    → Files
    → String
    → String
    → AgentRole
    → String
    → (String → Option String)
    → Result String
discover_by_thread_from_index_with_cwd_lookup read_row files index_path thread_name role
      workspace_root cwd_lookup =
    do
      content ← read_content role (files.read_to_string index_path)
      latest ← read_index role read_row 0 (lines content) []
      select_codex cwd_lookup thread_name workspace_root role latest
