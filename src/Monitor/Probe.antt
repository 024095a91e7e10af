-- ===== src/Monitor/Probe.antt =====
-- src/orchestrator/monitor.rs, what one round of the monitor takes from outside, and what it
-- records of it.
use multi_agent_orchestrator.Prelude.{
  ℕ, ◌+◌, ◌%◌, ◌^◌, ◌==◌, Bool, true, false, not, ◌&&◌, ◌||◌, Option, none, some, String, List, [],
  ◌∷◌, ◌++◌, is_some, is_none, is_empty, length, leb, str_eq, if◌then◌else◌, map_option, unwrap_or,
  and_then,
}
use multi_agent_orchestrator.Prelude.Map
use multi_agent_orchestrator.Constants.{hang_confirm_sec}
use multi_agent_orchestrator.Time.{elapsed_secs}
use multi_agent_orchestrator.Git.{
  trimmed_lines, difference, filter_map, parse_git_status_path, parse_git_name_status_path,
}
use multi_agent_orchestrator.Errors.{Result}
use multi_agent_orchestrator.Env.{Git}
use multi_agent_orchestrator.Signals.{RegexLib}
use multi_agent_orchestrator.Review.{YamlLib}
use multi_agent_orchestrator.Context.{FileMeta, AttemptStateData, OrchestratorCtx}
use multi_agent_orchestrator.Phases.Retry.{update_attempt}

-- src/state.rs
pub record ProbeSignals : Type 0 where
  pub process_alive : Bool
  pub outbox_meta : Option FileMeta
  pub git_status_hash : String
  pub git_status_short : String
  pub git_head_hash : String
  pub artifact_map : List (String × Bool)
  pub provider_log_mtime : Option ℕ
  pub has_child_processes : Bool

pub record ProbeEnv : Type 0 where
  -- the cancel flag, as it is read before the wait, after it and for the snapshot
  pub cancelled_before : Bool
  pub cancelled_after : Bool
  pub cancelled_now : Bool
  pub now : ℕ
  -- the clock that `elapsed()` reads
  pub system_now : ℕ
  -- `try_wait()`: the exit code of a process that has exited
  pub exited : Option (Option ℕ)
  -- `collect_probe_signals` for the process, with the session's id
  pub collect : Option ℕ → String → Result ProbeSignals
  pub git : Git
  -- the tails of the provider's stdout and stderr
  pub diagnostics : Result (String × String)
  pub regex : RegexLib
  -- `session_jsonl_service_cap_since`: pattern and fragment
  pub service_cap_since : String → ℕ → Result (Option (String × String))
  -- `extract_provider_action_tail`
  pub action_tail : String → String → Option String
  pub yaml : YamlLib
  -- `read_to_string` of the outbox
  pub read_outbox : Option String

-- The process has exited: its code is noted and its id dropped.
unfoldable pub note_exit : Option (Option ℕ) → OrchestratorCtx → OrchestratorCtx
note_exit none c = c
note_exit (some code) c =
    if is_some c.active_process
    then update_attempt (λ a. record a { exit_code = code; pid = none }) c
    else c

abbrev same_meta : Option FileMeta → Option FileMeta → Bool
same_meta none none = true
same_meta (some a) (some b) = a.size == b.size && a.mtime == b.mtime
same_meta _ _ = false

-- A first mtime is a change; a log that is gone is none.
abbrev log_changed : Option ℕ → Option ℕ → Bool
log_changed (some curr) (some prev) = not (curr == prev)
log_changed (some curr) none = true
log_changed none prev = false

unfoldable pub git_committed : AttemptStateData → ProbeSignals → Bool
git_committed a s = not (str_eq s.git_head_hash a.prev_probe_git_head_hash)

unfoldable pub work_signals_changed : AttemptStateData → ProbeSignals → Bool
unfolding git_committed
work_signals_changed a s =
    not (str_eq s.git_status_hash a.prev_probe_git_status_hash)
    || git_committed a s
    || not (same_meta s.outbox_meta a.prev_probe_outbox_meta)
    || log_changed s.provider_log_mtime a.prev_probe_log_mtime
    || s.has_child_processes

abbrev pub newly_changed : AttemptStateData → ProbeSignals → List String
newly_changed a s = difference (trimmed_lines s.git_status_short) a.prev_probe_git_status_lines

abbrev pub resolved : AttemptStateData → ProbeSignals → List String
resolved a s = difference a.prev_probe_git_status_lines (trimmed_lines s.git_status_short)

abbrev pub has_delta : AttemptStateData → ProbeSignals → Bool
has_delta a s = not (is_empty (newly_changed a s)) || not (is_empty (resolved a s))

-- `*counts.entry(path).or_insert(0) += 1` for each path
unfoldable pub touch : List String → List (String × ℕ) → List (String × ℕ)
touch [] counts = counts
touch (path ∷ paths) counts =
    touch paths (Map.insert path ((unwrap_or 0 (Map.get path counts) + 1) % 2 ^ 32) counts)

unfoldable pub note_dirty : AttemptStateData → ProbeSignals → OrchestratorCtx → OrchestratorCtx
note_dirty a s c = record c {
  dirty_file_touch_counts =
      touch (filter_map parse_git_status_path (newly_changed a s ++ resolved a s))
        c.dirty_file_touch_counts;
}

-- From the output of `git diff --name-status`.
unfoldable pub note_commit : String → OrchestratorCtx → OrchestratorCtx
note_commit raw c =
    let counts =
      touch (filter_map parse_git_name_status_path (trimmed_lines raw))
        c.committed_file_touch_counts in
    record c { committed_file_touch_counts = counts; committed_files_seen_count = length counts }

unfoldable pub persist_baselines : ProbeSignals → AttemptStateData → AttemptStateData
persist_baselines s a = record a {
  prev_probe_git_status_hash = s.git_status_hash;
  prev_probe_git_status_lines = trimmed_lines s.git_status_short;
  prev_probe_git_head_hash = s.git_head_hash;
  prev_probe_outbox_meta = s.outbox_meta;
  prev_probe_log_mtime = s.provider_log_mtime;
  provider_log_ever_seen = a.provider_log_ever_seen || is_some s.provider_log_mtime;
}

-- A log that was seen and is gone, or was never seen of a process that has exited, or is old.
unfoldable pub provider_stale : AttemptStateData → ProbeSignals → ℕ → Bool
provider_stale a s system_now =
    (a.provider_log_ever_seen && is_none s.provider_log_mtime)
    || (is_none a.pid && not a.provider_log_ever_seen)
    || unwrap_or false (
        map_option (λ d. leb hang_confirm_sec d)
          (and_then s.provider_log_mtime (λ t. elapsed_secs system_now t)))
