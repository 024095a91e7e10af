-- ===== src/Samples/Providers.antt =====
-- The theorems on the providers at small concrete data.
use multi_agent_orchestrator.Providers.Codex
use multi_agent_orchestrator.Providers.Claude
use multi_agent_orchestrator.Providers.Opencode
use multi_agent_orchestrator.Prelude.Show.{format}
use multi_agent_orchestrator.Git.{after_last}
use multi_agent_orchestrator.Prelude.Map.{get, insert}
use multi_agent_orchestrator.Providers.Select.{one_session}
use multi_agent_orchestrator.Prelude.{
  ◌≡◌, refl, inr, true, String, List, [], ◌∷◌, none, some, or_else, str_eq, if◌then◌else◌,
}
use multi_agent_orchestrator.Prelude.Text.{lines, trim, starts_with, compare_text}
use multi_agent_orchestrator.State.{executor, claude, opencode}
use multi_agent_orchestrator.Errors.{ok}
use multi_agent_orchestrator.Env.{Output, exited}
use multi_agent_orchestrator.Json
use multi_agent_orchestrator.Json.{Value, JsonLib}
use multi_agent_orchestrator.Files.{Files, done, extension, file_stem}
use multi_agent_orchestrator.Context.{OrchestratorCtx, new}
use multi_agent_orchestrator.Samples.{sample_args}
use multi_agent_orchestrator.Providers.Codex.{
  CodexSessionIndexRow, RowReader, discover_by_thread_from_index_with_cwd_lookup, index_line,
  keep_latest, parsed, read_content, read_index, select_codex,
}
use multi_agent_orchestrator.Providers.Codex.Found.{FoundIn, discover_codex_iff}
use multi_agent_orchestrator.Providers.Claude.{
  claude_effective_title, all_zero, candidates, entry_candidate, home_dir, note_line, title_loop,
}
use multi_agent_orchestrator.Providers.Claude.Found.{FoundAt, discover_claude_iff}
use multi_agent_orchestrator.Providers.Claude.Titles.{title_in, claude_effective_title-last}
use multi_agent_orchestrator.Providers.Claude.Caps.{
  CapLibs, tail_service_cap_since, entry_signal, line_signal, scan_back,
}
use multi_agent_orchestrator.Providers.Claude.Since.{Reported, tail_service_cap_since_iff}
use multi_agent_orchestrator.Providers.Opencode.{
  OpenCodeSessionRow, RowsReader, session_list, all_ascii_whitespace, parse_session_rows,
  parse_session_rows_for_bind, select_row,
}
use multi_agent_orchestrator.Providers.Opencode.Found.{Lists, discover_opencode_iff}
use multi_agent_orchestrator.Providers.Discovery.{ProviderEnv, bind_env}
use multi_agent_orchestrator.Providers.Discovery.Bound.{BothFound, do_session_bind-BothFound}
use multi_agent_orchestrator.Providers.Commands.{Machine, command_line}
use multi_agent_orchestrator.Providers.Commands.Lines.{Resumes, command_line-Resumes}
use multi_agent_orchestrator.Phases.Start.{do_session_bind}
use multi_agent_orchestrator.Providers.Discovery.{discover_session}
use multi_agent_orchestrator.Context.Exec.{◌>>=◌, continue, gets, lift, when, modify, emit}

-- An index with a row for each of two threads, the executor's twice.
abbrev sample_row : RowReader
sample_row line =
    if str_eq line "a"
    then inr (record { id = "s1"; thread_name = "e"; updated_at = "2" })
    else if str_eq line "b"
    then inr (record { id = "s2"; thread_name = "r"; updated_at = "1" })
    else inr (record { id = "s1"; thread_name = "old"; updated_at = "1" })

abbrev sample_files : Files
sample_files = record {
  read_to_string = λ path. done "a\nb\nc";
  read_dir = λ path. done (done "/h/u1.jsonl" ∷ []);
  metadata = λ path. done (record { modified = done 1; size = 1 });
}

-- JSON of which each line is an event with a title and a service cap.
abbrev sample_event : Value
sample_event = Json.object (
    Json.field "type" (Json.string "custom-title") (
      Json.field "customTitle" (Json.string "e") (
        Json.field "timestamp" (Json.string "t")
          (Json.field "error" (Json.string "rate_limit") Json.no_fields))))

abbrev sample_json : JsonLib
sample_json = record { from_str = λ line. inr sample_event; to_string = λ v. "" }

discover_codex_iff_example : FoundIn sample_row sample_files "/i" "e" "/w" (λ id. some "/w") "s1"
unfolding discover_by_thread_from_index_with_cwd_lookup read_content read_index lines index_line
    trim parsed select_codex one_session keep_latest get insert compare_text Codex.is_candidate
discover_codex_iff_example =
    (discover_codex_iff sample_row sample_files "/i" "e" executor "/w" (λ id. some "/w") "s1").0
      refl

discover_claude_iff_example : FoundAt sample_files sample_json executor "e" "/h" "/w" "u1"
unfolding Claude.discover_by_thread home_dir candidates entry_candidate extension after_last
    starts_with claude_effective_title title_loop lines note_line trim all_zero one_session
    file_stem format
discover_claude_iff_example =
    (discover_claude_iff sample_files sample_json executor "e" "/h" "/w" "u1").0 refl

claude_effective_title-last_example :
    claude_effective_title sample_json sample_files "/h/u1.jsonl"
    ≡ ok (
        or_else
          (title_in sample_json "custom-title" "customTitle" "a\nb\nc")
          (title_in sample_json "agent-name" "agentName" "a\nb\nc"))
claude_effective_title-last_example =
    claude_effective_title-last sample_json sample_files "/h/u1.jsonl"

abbrev sample_caps : CapLibs
sample_caps = record {
  json = sample_json;
  regex = record { matches = λ patterns text. []; find = λ pattern text. none };
  parse_from_rfc3339 = λ t. some 5;
}

tail_service_cap_since_iff_example : Reported sample_caps 4 (lines "x")
unfolding tail_service_cap_since scan_back lines line_signal entry_signal
tail_service_cap_since_iff_example = (tail_service_cap_since_iff sample_caps "x" 4).0 refl

abbrev sample_rows : RowsReader
sample_rows text = inr (record { row_id = "o"; title = "e"; directory = "/w"; updated = none } ∷ [])

abbrev sample_opencode : List String → Output
sample_opencode args = exited true "" "rows" ""

discover_opencode_iff_example :
    Lists sample_rows executor "/w" "e" (sample_opencode session_list) "o"
unfolding Opencode.discover_by_thread parse_session_rows_for_bind parse_session_rows
    all_ascii_whitespace select_row one_session
discover_opencode_iff_example =
    (discover_opencode_iff sample_rows executor "/w" "e" sample_opencode "o").0 refl

abbrev sample_providers : ProviderEnv
sample_providers = record {
  files = sample_files;
  json_lib = sample_json;
  read_row = sample_row;
  read_rows = sample_rows;
  home = some "/h";
  run_opencode = λ repo. sample_opencode;
}

abbrev at_bind : OrchestratorCtx
at_bind = new (record sample_args {
  executor_provider = opencode;
  reviewer_provider = claude;
  reviewer_thread_name = "e";
})

do_session_bind-BothFound_example :
    BothFound sample_providers (do_session_bind (bind_env sample_providers) at_bind).1
unfolding new do_session_bind discover_session gets lift when modify emit ◌>>=◌ continue
    Claude.discover_by_thread home_dir candidates entry_candidate extension after_last starts_with
    claude_effective_title title_loop lines note_line trim all_zero one_session file_stem format
    Opencode.discover_by_thread parse_session_rows_for_bind parse_session_rows all_ascii_whitespace
    select_row
do_session_bind-BothFound_example = do_session_bind-BothFound sample_providers at_bind refl

abbrev sample_machine : Machine
sample_machine = record {
  nanos = 1;
  stamp = "0";
  process_id = 7;
  temp_dir = "/tmp";
  path = none;
  home = some "/h";
  create = λ path. done tt;
  systemd_run = λ args. exited true "" "" "";
}

command_line-Resumes_example :
    Resumes "s" "p" (command_line sample_machine opencode "s" "p" (some "a/b")).1
command_line-Resumes_example = command_line-Resumes sample_machine opencode "s" "p" (some "a/b")
