-- ===== src/Signals/Collecting.antt =====
-- src/signals.rs: what a probe collects, and the facts of git for a prompt.
use multi_agent_orchestrator.Prelude.{
  ℕ, ltb, ◌==◌, ◌-◌, Bool, false, Option, none, some, String, List, [], ◌∷◌, filter_by, length,
  is_empty, if◌then◌else◌,
}
use multi_agent_orchestrator.Prelude.Map.{insert}
use multi_agent_orchestrator.Prelude.Show.{format, show}
use multi_agent_orchestrator.Prelude.Text.{trim, lines, is_empty_text}
use multi_agent_orchestrator.State.{ProviderKind, claude, opencode, codex}
use multi_agent_orchestrator.Errors.{not_found, would_block, other_kind, io, Result, ok, err, ◌>>=◌}
use multi_agent_orchestrator.Env.{Git, run_git, path_join}
use multi_agent_orchestrator.Files.{Files, IoResult, done, failed, try_io, Metadata, join_all}
use multi_agent_orchestrator.Context.{FileMeta}
use multi_agent_orchestrator.Monitor.Probe.{ProbeSignals}
use multi_agent_orchestrator.Git.{has_text}

-- `file_meta` of src/transport.rs, from what `metadata` answered.
unfoldable pub file_meta : IoResult Metadata → Result (Option FileMeta)
file_meta (done meta) =
    try_io meta.modified >>= λ mtime. ok (some (record { size = meta.size; mtime = mtime }))
file_meta (failed not_found source) = ok none
file_meta (failed would_block source) = err (io would_block source)
file_meta (failed other_kind source) = err (io other_kind source)

abbrev pub is_present : IoResult Metadata → Result Bool
is_present (done meta) = ok (ltb 0 meta.size)
is_present (failed not_found source) = ok false
is_present (failed would_block source) = err (io would_block source)
is_present (failed other_kind source) = err (io other_kind source)

module _ (files : Files) (repo : String) where
  unfoldable pub probe_artifacts_from :
      List String → List (String × Bool) → Result (List (String × Bool))
  probe_artifacts_from [] found = ok found
  probe_artifacts_from (name ∷ names) found =
      is_present (files.metadata (path_join repo name)) >>= λ present.
      probe_artifacts_from names (insert name present found)

  unfoldable pub probe_artifacts : List String → Result (List (String × Bool))
  probe_artifacts names = probe_artifacts_from names []

-- The digest of the status, and the status.
unfoldable pub git_status_snapshot : Git → (String → String) → Result (String × String)
git_status_snapshot git sha256_hex =
    run_git git ("status" ∷ "--short" ∷ []) >>= λ status. ok (sha256_hex status, status)

unfoldable pub git_head_hash : Git → Result String
git_head_hash git = run_git git ("rev-parse" ∷ "HEAD" ∷ []) >>= λ head. ok (trim head)

-- The activity of a session, as each provider tells it.
pub record LogMtimes : Type 0 where
  pub claude_log : String → Result (Option ℕ)
  pub codex_log : String → Result (Option ℕ)
  pub opencode_list : String → Result (Option ℕ)

unfoldable pub provider_log_mtime : LogMtimes → ProviderKind → String → Result (Option ℕ)
provider_log_mtime logs claude session_id = logs.claude_log session_id
provider_log_mtime logs codex session_id = logs.codex_log session_id
provider_log_mtime logs opencode session_id = logs.opencode_list session_id

-- `pid.map(f).unwrap_or(false)`
abbrev of_pid : (ℕ → Bool) → Option ℕ → Bool
of_pid f none = false
of_pid f (some pid) = f pid

pub record CollectLibs : Type 0 where
  pub files : Files
  pub git : Git
  pub sha256_hex : String → String
  pub logs : LogMtimes
  pub is_process_alive : ℕ → Bool
  pub has_live_child_processes : ℕ → Bool

unfoldable pub collect_probe_signals :
    CollectLibs → String → Option ℕ → List String → ProviderKind → String → Result ProbeSignals
collect_probe_signals libs repo pid workflow_artifacts provider session_id = do
  outbox_meta ← file_meta (libs.files.metadata (join_all repo (".agent-io" ∷ "outbox.txt" ∷ [])))
  (git_status_hash, git_status_short) ← git_status_snapshot libs.git libs.sha256_hex
  git_head ← git_head_hash libs.git
  artifact_map ← probe_artifacts libs.files repo workflow_artifacts
  log_mtime ← provider_log_mtime libs.logs provider session_id
  ok (record {
    process_alive = of_pid libs.is_process_alive pid;
    outbox_meta = outbox_meta;
    git_status_hash = git_status_hash;
    git_status_short = git_status_short;
    git_head_hash = git_head;
    artifact_map = artifact_map;
    provider_log_mtime = log_mtime;
    has_child_processes = of_pid libs.has_live_child_processes pid;
  })

-- `saturating_sub` gives where the tail starts; `read_from` reads from there to the end.
unfoldable pub read_log_tail :
    (open_len : String → IoResult ℕ) (read_from : String → ℕ → IoResult String)
    → String
    → ℕ
    → Result String
read_log_tail open_len read_from path max_bytes = try_io (open_len path) >>= λ len.
    if len == 0 then ok "" else try_io (read_from path (len - max_bytes))

abbrev commit_lines : List String → List String
commit_lines [] = []
commit_lines (c ∷ cs) = "\n  - " ∷ c ∷ commit_lines cs

abbrev commits_text : List String → String
commits_text commits =
    if is_empty commits
    then "\nnew_commits: []"
    else format ("\nnew_commits:" ∷ commit_lines commits)

-- The facts with the commits since an initial head.
abbrev with_commits : Git → String → Option String → Result String
with_commits git facts none = ok facts
with_commits git facts (some base) =
    run_git git ("log" ∷ "--oneline" ∷ format (base ∷ "..HEAD" ∷ []) ∷ []) >>= λ log.
    let commits = filter_by has_text (lines log) in
    ok (
      format
        (facts ∷ "\ncommits_since_dispatch: " ∷ show (length commits) ∷ commits_text commits ∷ []))

unfoldable pub format_git_facts : Git → Option String → Result String
format_git_facts git initial_head = do
  status ← run_git git ("status" ∷ "--short" ∷ [])
  head ← run_git git ("log" ∷ "-1" ∷ "--oneline" ∷ [])
  let shown = if is_empty_text (trim status) then "(clean)" else trim status
  with_commits git (format ("git_status: " ∷ shown ∷ "\ngit_head: " ∷ trim head ∷ [])) initial_head
