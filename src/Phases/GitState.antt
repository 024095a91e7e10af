-- ===== src/Phases/GitState.antt =====
-- src/orchestrator/phases.rs, the checks that the repository is in a state to start from.
use multi_agent_orchestrator.Prelude.{
  ◌⊎◌, inl, inr, Bool, not, ◌&&◌, ◌||◌, Option, none, some, String, List, [], ◌∷◌, take, str_eq,
  if◌then◌else◌,
}
use multi_agent_orchestrator.Prelude.Show.{format, join}
use multi_agent_orchestrator.Prelude.Text.{trim, lines, contains, starts_with, is_empty_text}
use multi_agent_orchestrator.Env.{not_run, exited, Git, run_git, path_join}
use multi_agent_orchestrator.Errors.{
  IoKind, OrchestratorError, invalid_input, command_failed, io, Result, ok, err, ◌>>=◌, ◌>>◌,
  reject_if,
}

-- A directory as `read_dir` lists it: an entry that cannot be read ends the walk with an error.
mutual
  pub data Entry : Type 0 where
    file : (path : String) (is_lock : Bool) → Entry
    dir : Entries → Entry
    unreadable : (kind : IoKind) (source : String) → Entry

  pub data Entries : Type 0 where
    nil : Entries
    cons : Entry → Entries → Entries

pub record PrepEnv : Type 0 where
  pub git : Git
  -- `canonicalize()`: the path, or the error's text
  pub canonicalize : String → String ⊎ String
  pub exists : String → Bool
  -- the directory at a path, if there is one
  pub tree : String → Option Entries
  -- `ensure_agent_io_excluded`
  pub exclude : Result (Unit {0})

unfoldable pub git_state_invalid : String → OrchestratorError
git_state_invalid reason = invalid_input "--workspace-root" reason

-- `find_lock_file` below a directory that exists: the first lock file, depth first.
unfoldable mutual
  pub find_in_entry : Entry → Result (Option String)
  find_in_entry (file path is_lock) = if is_lock then ok (some path) else ok none
  find_in_entry (dir entries) = find_in_entries entries
  find_in_entry (unreadable kind source) = err (io kind source)

  pub find_in_entries : Entries → Result (Option String)
  find_in_entries nil = ok none
  find_in_entries (cons e es) =
      find_in_entry e >>= elim [ some path ↦ ok (some path) | none ↦ find_in_entries es ]

unfoldable pub find_lock_file : Option Entries → Result (Option String)
find_lock_file none = ok none
find_lock_file (some entries) = find_in_entries entries

module _ (env : PrepEnv) (repo : String) where
  unfoldable pub validate_git_worktree : Result (Unit {0})
  validate_git_worktree = elim (env.git ("rev-parse" ∷ "--is-inside-work-tree" ∷ [])) [
    | not_run kind source ↦ err (io kind source)
    | exited success status stdout stderr ↦
        reject_if (not success || not (str_eq (trim stdout) "true"))
          (invalid_input "--workspace-root" "must be an existing git worktree")
  ]

  unfoldable pub canonicalize_existing_path : String → String → Result String
  canonicalize_existing_path field path = elim (env.canonicalize path) [
    | inl p ↦ ok p
    | inr e ↦ err (invalid_input field (format ("cannot resolve path `" ∷ path ∷ "`: " ∷ e ∷ [])))
  ]

  unfoldable pub validate_git_top_level : Result (Unit {0})
  validate_git_top_level = do
    out ← run_git env.git ("rev-parse" ∷ "--show-toplevel" ∷ [])
    top_level ← canonicalize_existing_path "--workspace-root" (trim out)
    root ← canonicalize_existing_path "--workspace-root" repo
    reject_if (not (str_eq root top_level)) (
        invalid_input "--workspace-root" (
          format (
            "must be the git repository top-level; got `" ∷ root ∷ "`, top-level is `" ∷ top_level
            ∷ "`" ∷ [])))

  unfoldable pub resolve_git_path : String → Result String
  resolve_git_path path = do
    out ← run_git env.git ("rev-parse" ∷ "--git-path" ∷ path ∷ [])
    let p = trim out
    ok (if starts_with p "/" then p else path_join repo p)

  -- A loop over markers that must not exist; the texts stand round the path in the message.
  unfoldable pub check_absent : List (String × String × String) → Result (Unit {0})
  check_absent [] = ok tt
  check_absent ((git_path, before, after) ∷ rest) = do
    path ← resolve_git_path git_path
    reject_if (env.exists path) (git_state_invalid (format (before ∷ path ∷ after ∷ [])))
    check_absent rest

  unfoldable pub validate_no_git_locks : Result (Unit {0})
  validate_no_git_locks = do
    let text : String = "git lock file exists: `"
    check_absent (
        ("index.lock", text, "`") ∷ ("HEAD.lock", text, "`") ∷ ("packed-refs.lock", text, "`") ∷ [])
    refs ← resolve_git_path "refs"
    found ← find_lock_file (env.tree refs)
    elim found [
      | none ↦ ok tt
      | some path ↦
          err (git_state_invalid (format ("git refs lock file exists: `" ∷ path ∷ "`" ∷ [])))
    ]

  abbrev in_progress : String → String → String × String × String
  in_progress git_path state =
      (git_path, format ("git operation in progress: " ∷ state ∷ " marker `" ∷ []), "` exists")

  unfoldable pub validate_no_git_operation_in_progress : Result (Unit {0})
  validate_no_git_operation_in_progress = check_absent (
      in_progress "MERGE_HEAD" "merge"
      ∷ in_progress "rebase-merge" "rebase"
      ∷ in_progress "rebase-apply" "rebase"
      ∷ in_progress "CHERRY_PICK_HEAD" "cherry-pick"
      ∷ in_progress "REVERT_HEAD" "revert"
      ∷ in_progress "sequencer" "sequencer"
      ∷ in_progress "BISECT_LOG" "bisect"
      ∷ [])

  unfoldable pub validate_no_unmerged_index : Result (Unit {0})
  validate_no_unmerged_index = do
    unmerged ← run_git env.git ("ls-files" ∷ "-u" ∷ [])
    reject_if (not (is_empty_text (trim unmerged))) (
        git_state_invalid (
          format (
            "git index contains unmerged/conflicted entries: "
            ∷ join "; " (take 5 (lines unmerged))
            ∷ [])))

abbrev detached : OrchestratorError
detached = git_state_invalid "workspace must be on a named branch; detached HEAD is unsupported"

unfoldable pub current_branch_name : Git → Result String
current_branch_name git = elim (git ("symbolic-ref" ∷ "--quiet" ∷ "--short" ∷ "HEAD" ∷ [])) [
  | not_run kind source ↦ err (io kind source)
  | exited success status stdout stderr ↦
      if success && not (is_empty_text (trim stdout)) then ok (trim stdout) else err detached
]

abbrev head_failed : String → Result String
head_failed status = err (command_failed "git rev-parse --verify HEAD" status)

unfoldable pub current_head_required : Git → Result String
current_head_required git = elim (git ("rev-parse" ∷ "--verify" ∷ "HEAD" ∷ [])) [
  | not_run kind source ↦ err (io kind source)
  | exited success status stdout stderr ↦
      if success
      then (if is_empty_text (trim stdout) then head_failed status else ok (trim stdout))
      else if contains stderr "Needed a single revision" || contains stderr "unknown revision"
      then err (
          git_state_invalid
            "workspace must have a valid HEAD commit; unborn branches are unsupported")
      else head_failed status
]
