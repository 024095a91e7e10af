-- ===== src/Samples/Transports.antt =====
-- The theorems on files, locks, processes and actions at small concrete data.
use multi_agent_orchestrator.Prelude.Show.{format, join}
use multi_agent_orchestrator.Prelude.{
  ◌≡◌, refl, inl, ◌≤◌, ◌==◌, arith, true, false, is_some, String, [], ◌∷◌, none, some,
  if◌then◌else◌, unwrap_or,
}
use multi_agent_orchestrator.Prelude.Map.{get, insert}
use multi_agent_orchestrator.Prelude.Text.{byte_len, lines, split_whitespace, starts_with, trim}
use multi_agent_orchestrator.State.{executor, reviewer, claude, ProviderKind}
use multi_agent_orchestrator.Env.{Git, exited, path_join, run_git}
use multi_agent_orchestrator.Json.{JsonLib}
use multi_agent_orchestrator.Context.{OrchestratorCtx, new}
use multi_agent_orchestrator.Context.Exec.{
  ◌>>=◌, continue, pure, lift, gets, modify, emit, require, when,
}
use multi_agent_orchestrator.Phases.Request.{
  DispatchEnv, prepare_request, capture_baseline, build_template_values,
  reset_attempt_git_telemetry, new_attempt,
}
use multi_agent_orchestrator.Phases.Dispatch.{dispatch_role}
use multi_agent_orchestrator.Transport.Dispatches.{
  over_disk, sent_disk, InboxKept, dispatch_role-InboxKept,
}
use multi_agent_orchestrator.Samples.{sample_args, sample_dispatch}
use multi_agent_orchestrator.Transport.{
  Disk, DiskEnv, inbox, outbox, reset_transport, write_request, verify_request_fingerprint, others,
  read, reset_file, reset_files, stat, write,
}
use multi_agent_orchestrator.Transport.Requests.{request-unchanged_iff}
use multi_agent_orchestrator.Transport.Resets.{reset_transport-get}
use multi_agent_orchestrator.Transport.Exclude.{
  is_listed, excluded_disk, ensure_agent_io_excluded, ensure_agent_io_excluded-listed, append,
  exclude_at,
}
use multi_agent_orchestrator.Locks.Keys.{lock_key_text_injective}
use multi_agent_orchestrator.Signals.Processes.{
  ProcessTable, has_live_child_processes, scan_children, scan_tasks, walk_loop,
}
use multi_agent_orchestrator.Signals.Processes.Live.{LiveBelow, has_live_child_processes-LiveBelow}
use multi_agent_orchestrator.Signals.Processes.Enough.{has_live_child_processes-returns}
use multi_agent_orchestrator.Monitor.Actions.{
  extract_provider_action_tail, extract_action_from_json_line, extract_action_from_plain_line,
  first_action, newlines_to_spaces, normalize_provider_action,
}
use multi_agent_orchestrator.Monitor.Actions.Bounds.{extract_provider_action_tail-bounded}

abbrev sample_disk_env : DiskEnv
sample_disk_env = record {
  create_dir = λ path. none;
  write_fault = λ path. none;
  stat_fault = λ path. none;
  read_fault = λ path. none;
  meanwhile = λ d. d;
  sha256_hex = λ s. s;
}

abbrev sample_disk : Disk
sample_disk =
    (inbox sample_disk_env "/w", "old")
    ∷ (outbox sample_disk_env "/w", "done")
    ∷ ("/x", "foo\n")
    ∷ []

request-unchanged_iff_example :
    get (inbox sample_disk_env "/w") (write_request sample_disk_env "/w" "task" sample_disk).1
    ≡ get (inbox sample_disk_env "/w") (write_request sample_disk_env "/w" "task" sample_disk).1
unfolding write_request write others read get insert path_join starts_with format
    verify_request_fingerprint
request-unchanged_iff_example =
    (request-unchanged_iff sample_disk_env "/w" "task" "task" sample_disk
        (write_request sample_disk_env "/w" "task" sample_disk).1 refl (λ now written f g e. e)).0
      refl

abbrev bound_executor : OrchestratorCtx
bound_executor = record (new sample_args) { executor_session_id = some "e" }

-- An executor's request, and its retry on the disk that it left.
abbrev first_env : DispatchEnv
first_env = over_disk sample_disk_env "/w" executor sample_disk sample_dispatch

abbrev retry_disk : Disk
retry_disk = sent_disk sample_disk_env "/w" executor sample_disk "do it"

abbrev retry_ctx : OrchestratorCtx
retry_ctx = (dispatch_role first_env executor bound_executor).1

dispatch_role-InboxKept_example :
    InboxKept sample_disk_env "/w" executor sample_disk
      (dispatch_role first_env executor bound_executor).1
      retry_disk
unfolding new dispatch_role prepare_request capture_baseline build_template_values ◌>>=◌ continue
    pure lift gets modify emit require when run_git reset_attempt_git_telemetry new_attempt
    reset_transport reset_files reset_file write others stat read get insert path_join starts_with
    format byte_len write_request verify_request_fingerprint
dispatch_role-InboxKept_example =
    dispatch_role-InboxKept sample_disk_env "/w" sample_dispatch sample_dispatch executor executor
      sample_disk retry_disk bound_executor retry_ctx refl refl refl

reset_transport-get_example :
    get (outbox sample_disk_env "/w") (reset_transport sample_disk_env "/w" reviewer sample_disk).1
    ≡ some "done"
unfolding reset_transport reset_files reset_file write others stat get insert path_join starts_with
    format byte_len
reset_transport-get_example =
    reset_transport-get sample_disk_env (λ d. refl) "/w" reviewer sample_disk refl
      (outbox sample_disk_env "/w")

abbrev sample_git : Git
sample_git args = exited true "" "/x" ""

ensure_agent_io_excluded-listed_example :
    ((ensure_agent_io_excluded sample_disk_env sample_git "/w" sample_disk).1
      ≡ excluded_disk sample_disk_env "/w" "/x" sample_git sample_disk)
    × (is_listed (
          unwrap_or ""
            (get "/x" (ensure_agent_io_excluded sample_disk_env sample_git "/w" sample_disk).1))
        ≡ true)
unfolding path_join starts_with trim ensure_agent_io_excluded exclude_at is_listed lines get format
    append
ensure_agent_io_excluded-listed_example =
    ensure_agent_io_excluded-listed sample_disk_env "/w" "/x" sample_git sample_disk refl refl refl
      refl

-- A file that does not end in a line end: the entry is joined to its last line and not found again.
excluded_unlisted :
    is_listed (
      unwrap_or "" (
        get "/x" (ensure_agent_io_excluded sample_disk_env sample_git "/w" (("/x", "foo") ∷ [])).1))
    ≡ false
unfolding is_listed lines get ensure_agent_io_excluded exclude_at path_join starts_with trim append
    insert format
excluded_unlisted = refl

lock_key_text_injective_example : Path ProviderKind claude claude × Path String "s" "s"
lock_key_text_injective_example = lock_key_text_injective claude claude "s" "s" refl

-- Process 1 has the child 2, which has the children 1 and 3; 2 is a zombie and 3 runs.
abbrev sample_table : ProcessTable
sample_table = record {
  tasks = λ pid.
      if pid == 1
      then some (some (2 ∷ []) ∷ [])
      else if pid == 2
      then some (none ∷ some (1 ∷ 3 ∷ []) ∷ [])
      else none;
  state = λ pid. if pid == 2 then some b'Z' else if pid == 3 then some b'R' else none;
}

has_live_child_processes-LiveBelow_example : LiveBelow sample_table 1
unfolding has_live_child_processes walk_loop scan_tasks scan_children
has_live_child_processes-LiveBelow_example =
    has_live_child_processes-LiveBelow sample_table 1 5 refl

abbrev empty_table : ProcessTable
empty_table = record { tasks = λ pid. none; state = λ pid. none }

has_live_child_processes-returns_example : is_some (has_live_child_processes empty_table 3 1) ≡ true
has_live_child_processes-returns_example =
    has_live_child_processes-returns empty_table [] 3 1 (λ current ts child e i. cc) (omega arith)

abbrev plain_json : JsonLib
plain_json = record { from_str = λ line. inl "not JSON"; to_string = λ v. "" }

extract_provider_action_tail-bounded_example : byte_len "git log" ≤ 223
unfolding extract_provider_action_tail first_action lines format extract_action_from_json_line
    extract_action_from_plain_line trim starts_with normalize_provider_action byte_len join
    split_whitespace newlines_to_spaces
extract_provider_action_tail-bounded_example =
    extract_provider_action_tail-bounded plain_json "git log" "" "git log" refl
