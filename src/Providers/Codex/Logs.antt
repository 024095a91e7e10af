-- ===== src/Providers/Codex/Logs.antt =====
-- src/providers/codex.rs: the walks over the rollout logs below `~/.codex/sessions`.
use multi_agent_orchestrator.Prelude.{
  ◌⊎◌, inl, inr, ℕ, Bool, false, Option, none, some, String, List, [], ◌∷◌, str_eq, if◌then◌else◌,
  and_then, unwrap_or,
}
use multi_agent_orchestrator.Prelude.Text.{lines}
use multi_agent_orchestrator.Errors.{
  not_found, would_block, other_kind, io, invalid_input, Result, ok, err, ◌>>=◌,
}
use multi_agent_orchestrator.Json.{Value, JsonLib, get, get_str}
use multi_agent_orchestrator.Files.{
  Files, IoResult, done, failed, try_io, join_all, ends_with, is_jsonl, file_stem,
}

abbrev pub sessions_dir : String → String
sessions_dir home = join_all home (".codex" ∷ "sessions" ∷ [])

-- The file is the log of the session, by its name.
unfoldable pub is_log_of : String → String → Bool
is_log_of session_id path = if is_jsonl path then ends_with (file_stem path) session_id else false

-- `.flatten()`: the entries that could be read.
abbrev pub readable : List (IoResult String) → List String
readable [] = []
readable (done path ∷ entries) = path ∷ readable entries
readable (failed kind source ∷ entries) = readable entries

-- A loop whose body may return from the function: what it returns, or none if it goes through.
abbrev pub first_return {ℓ} : {A : Type ℓ} → (String → Option A) → List String → Option A
first_return body [] = none
first_return body (path ∷ paths) = elim (body path) [
  | some r ↦ some r
  | none ↦ first_return body paths
]

abbrev pub dir_return :
    (String → Option (Option String)) → IoResult (List (IoResult String)) → Option (Option String)
dir_return body (done entries) = first_return body (readable entries)
dir_return body (failed kind source) = some none

-- The value of the metadata line, where the first line is one.
abbrev pub cwd_of_type : Option String → Value → Option (Option String)
cwd_of_type none obj = none
cwd_of_type (some t) obj =
    if str_eq t "session_meta"
    then some (and_then (get obj "payload") (λ p. get_str p "cwd"))
    else none

abbrev pub cwd_of_parsed : String ⊎ Value → Option (Option String)
cwd_of_parsed (inl e) = some none
cwd_of_parsed (inr obj) = cwd_of_type (get_str obj "type") obj

module _ (files : Files) (lib : JsonLib) (session_id : String) where
  abbrev pub cwd_of_lines : List String → Option (Option String)
  cwd_of_lines [] = some none
  cwd_of_lines (first ∷ rest) = cwd_of_parsed (lib.from_str first)

  abbrev pub cwd_of_read : IoResult String → Option (Option String)
  cwd_of_read (done content) = cwd_of_lines (lines content)
  cwd_of_read (failed kind source) = some none

  unfoldable pub cwd_of_file : String → Option (Option String)
  cwd_of_file path =
      if is_log_of session_id path then cwd_of_read (files.read_to_string path) else none

  -- `for entry in read_dir(dir).ok()?.flatten()`
  unfoldable pub in_dir : (String → Option (Option String)) → String → Option (Option String)
  in_dir body dir = dir_return body (files.read_dir dir)

  unfoldable pub codex_session_cwd : Option String → Option String
  codex_session_cwd none = none
  codex_session_cwd (some home) =
      unwrap_or none (in_dir (in_dir (in_dir (in_dir cwd_of_file))) (sessions_dir home))

-- A loop over entries whose body may fail or return.
abbrev pub search {ℓ} :
    {A : Type ℓ} → (String → Result (Option A)) → List (IoResult String) → Result (Option A)
search body [] = ok none
search body (failed kind source ∷ entries) = err (io kind source)
search body (done path ∷ entries) =
    body path >>= elim [ some r ↦ ok (some r) | none ↦ search body entries ]

unfoldable pub home_or_error : Option String → Result String
home_or_error (some home) = ok home
home_or_error none = err (invalid_input "HOME" "HOME is not set; cannot locate Codex session logs")

module _ {ℓ} {A : Type ℓ} (files : Files) (session_id : String) (of_file : String → Result A) where
  unfoldable pub visit_file : String → Result (Option A)
  visit_file path =
      if is_log_of session_id path then of_file path >>= (λ a. ok (some a)) else ok none

  unfoldable pub visit_dir : (String → Result (Option A)) → String → Result (Option A)
  visit_dir body dir = try_io (files.read_dir dir) >>= search body

  -- A missing sessions directory is no log; any other failure ends the walk.
  unfoldable pub visit_sessions : IoResult (List (IoResult String)) → Result (Option A)
  visit_sessions (done years) = search (visit_dir (visit_dir (visit_dir visit_file))) years
  visit_sessions (failed not_found source) = ok none
  visit_sessions (failed would_block source) = err (io would_block source)
  visit_sessions (failed other_kind source) = err (io other_kind source)

  unfoldable pub walk_sessions : Option String → Result (Option A)
  walk_sessions home = home_or_error home >>= λ h. visit_sessions (files.read_dir (sessions_dir h))

module _ (files : Files) (session_id : String) where
  unfoldable pub session_jsonl_mtime : Option String → Result (Option ℕ)
  session_jsonl_mtime =
      walk_sessions files session_id
        λ path. try_io (files.metadata path) >>= λ meta. try_io meta.modified

  -- Path, mtime and size.
  unfoldable pub find_session_jsonl_info : Option String → Result (Option (String × ℕ × ℕ))
  find_session_jsonl_info = walk_sessions files session_id λ path.
      try_io (files.metadata path) >>= λ meta.
      try_io meta.modified >>= λ modified. ok (path, modified, meta.size)
