-- ===== src/Transport/Exclude.antt =====
-- src/transport.rs, `ensure_agent_io_excluded`: the entry in git's exclude file.
use multi_agent_orchestrator.Prelude.{
  ◌≡◌, refl, ap, ◌∙◌, Bool, true, false, Option, none, some, String, List, [], ◌∷◌, ◌++◌, any,
  str_eq, eq_iff, arith, if◌then◌else◌, unwrap_or, ◌||◌,
}
use Prim.Native.String
use text.Mathlib.TextLemmas.{nil-append}
use multi_agent_orchestrator.Prelude.Map.{get, insert, get-insert}
use multi_agent_orchestrator.Prelude.Show.{format}
use multi_agent_orchestrator.Prelude.Text.{
  trim, trim_start, trim_end, is_blank, is_whitespace, lines, lines_from, strip_cr, is_empty_text,
}
use multi_agent_orchestrator.Prelude.LineEnds.{ends_line, lines-append}
use multi_agent_orchestrator.Errors.{
  IoKind, not_found, would_block, other_kind, io, command_failed, Result, ok, err,
}
use multi_agent_orchestrator.Env.{Git, Output, not_run, exited, path_join}
use multi_agent_orchestrator.Transport.{Disk, OnDisk, continue, put, DiskEnv}

abbrev pub entry : String
entry = ".agent-io/"

-- The file that git names, relative to the workspace unless it is absolute.
abbrev pub exclude_path : String → Output → Result String
exclude_path repo (not_run kind source) = err (io kind source)
exclude_path repo (exited success status stdout stderr) =
    if success
    then ok (path_join repo (trim stdout))
    else err (command_failed "git rev-parse --git-path info/exclude" status)

unfoldable pub is_listed : String → Bool
is_listed content = any (λ line. str_eq (trim line) entry) (lines content)

module _ (env : DiskEnv) where
  -- `read_to_string`, a missing file being empty.
  abbrev pub fetch_or_empty : Option (IoKind × String) → Option String → Result String
  fetch_or_empty (some (not_found, source)) got = ok ""
  fetch_or_empty (some (would_block, source)) got = err (io would_block source)
  fetch_or_empty (some (other_kind, source)) got = err (io other_kind source)
  fetch_or_empty none got = ok (unwrap_or "" got)

  -- `append(true)` and `write_all`
  unfoldable pub append : String → String → OnDisk (Unit {0})
  append path text d =
      put (env.write_fault path) path (format (unwrap_or "" (get path d) ∷ text ∷ [])) d

  abbrev pub add_entry : String → Bool → OnDisk (Unit {0})
  add_entry path true d = (ok tt, d)
  add_entry path false d = append path ".agent-io/\n" d

  unfoldable pub exclude_at : String → OnDisk (Unit {0})
  exclude_at path d =
      continue (fetch_or_empty (env.read_fault path) (get path d))
        (λ content. add_entry path (is_listed content)) d

  unfoldable pub ensure_agent_io_excluded : Git → String → OnDisk (Unit {0})
  ensure_agent_io_excluded git repo d =
      continue (exclude_path repo (git ("rev-parse" ∷ "--git-path" ∷ "info/exclude" ∷ [])))
        exclude_at d

any-append : (p : String → Bool) (xs ys : List String) → any p (xs ++ ys) ≡ (any p xs || any p ys)
any-append p [] ys = refl
any-append p (x ∷ xs) ys = ground (arith, any-append p xs ys)

-- A file to which the entry can be appended as a line: nothing, or text that ends in a line end.
abbrev pub takes_lines : String → Bool
takes_lines content = is_empty_text content || ends_line content

or_true : (b : Bool) → (b || true) ≡ true
or_true true = refl
or_true false = refl

entry_line : any (λ line. str_eq (trim line) entry) (lines (String.◌++◌ ".agent-io/\n" "")) ≡ true
unfolding lines lines_from strip_cr trim trim_start trim_end is_blank is_whitespace
entry_line = refl

added :
    (content : String)
    → takes_lines content ≡ true
    → is_listed (format (content ∷ ".agent-io/\n" ∷ [])) ≡ true
unfolding is_listed format
added String.[] e =
    ap (λ t. any (λ line. str_eq (trim line) entry) (lines t))
      (nil-append (String.◌++◌ ".agent-io/\n" ""))
    ∙ entry_line
added (String.◌∷◌ c s) e =
    ap (any (λ line. str_eq (trim line) entry))
      (lines-append (String.◌∷◌ c s) (String.◌++◌ ".agent-io/\n" "") e)
    ∙ any-append (λ line. str_eq (trim line) entry) (lines (String.◌∷◌ c s))
        (lines (String.◌++◌ ".agent-io/\n" ""))
    ∙ ap (λ b. any (λ line. str_eq (trim line) entry) (lines (String.◌∷◌ c s)) || b) entry_line
    ∙ or_true (any (λ line. str_eq (trim line) entry) (lines (String.◌∷◌ c s)))

module _ (env : DiskEnv) (repo path : String) (git : Git) (d : Disk) where
  -- What the file has before the call.
  abbrev pub before_call : String
  before_call = unwrap_or "" (get path d)

  -- A file that has the entry, and the rest of the disk with it, stays as it was; to another one the
  -- entry is appended.
  abbrev pub excluded_disk : Disk
  excluded_disk =
      if is_listed before_call
      then d
      else insert path (format (before_call ∷ ".agent-io/\n" ∷ [])) d

  excluded_listed :
      (b : Bool)
      → is_listed before_call ≡ b
      → takes_lines before_call ≡ true
      → is_listed (
          unwrap_or "" (
            get path (if b then d else insert path (format (before_call ∷ ".agent-io/\n" ∷ [])) d)))
        ≡ true
  excluded_listed true h takes = h
  excluded_listed false h takes =
      ap (λ o. is_listed (unwrap_or "" o))
        (get-insert path path (format (before_call ∷ ".agent-io/\n" ∷ [])) d
          ∙ ap (λ b. if b then some (format (before_call ∷ ".agent-io/\n" ∷ [])) else get path d)
              ((eq_iff path path).1 refl))
      ∙ added before_call takes

  after_write :
      (f : Option (IoKind × String))
      → (put f path (format (before_call ∷ ".agent-io/\n" ∷ [])) d).0 ≡ ok tt
      → (put f path (format (before_call ∷ ".agent-io/\n" ∷ [])) d).1
        ≡ insert path (format (before_call ∷ ".agent-io/\n" ∷ [])) d
  after_write (some (kind, source)) e = cc
  after_write none e = refl

  -- After a call that succeeds, the entry is a line of the file that git names, where that file
  -- could be read and was empty, missing or ended in a line end. A file that has the entry is left
  -- as it was, to another one the entry is appended, and no other file is changed.
  pub ensure_agent_io_excluded-listed :
      exclude_path repo (git ("rev-parse" ∷ "--git-path" ∷ "info/exclude" ∷ [])) ≡ ok path
      → (ensure_agent_io_excluded env git repo d).0 ≡ ok tt
      → env.read_fault path ≡ none
      → takes_lines before_call ≡ true
      → ((ensure_agent_io_excluded env git repo d).1 ≡ excluded_disk)
        × (is_listed (unwrap_or "" (get path (ensure_agent_io_excluded env git repo d).1)) ≡ true)
  unfolding ensure_agent_io_excluded exclude_at append
  ensure_agent_io_excluded-listed named e readable takes =
      (disk, rw disk (excluded_listed (is_listed before_call) refl takes))
    where
      disk_by :
          (b : Bool)
          → is_listed before_call ≡ b
          → (ensure_agent_io_excluded env git repo d).1
            ≡ (if b then d else insert path (format (before_call ∷ ".agent-io/\n" ∷ [])) d)
      disk_by true h = rw (named, readable, h) refl
      disk_by false h =
          rw (named, readable, h)
            (after_write (env.write_fault path) (rw (named, readable, h) at e))

      disk : (ensure_agent_io_excluded env git repo d).1 ≡ excluded_disk
      disk = disk_by (is_listed before_call) refl
