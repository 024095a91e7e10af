-- ===== src/Providers/Codex/Mtime.antt =====
-- The two walks that look for the rollout log of a Codex session agree.
use multi_agent_orchestrator.Prelude.{
  ◌≡◌, refl, ap, ◌∙◌, ℕ, Bool, true, false, Option, none, some, String, List, [], ◌∷◌,
  if◌then◌else◌, map_option,
}
use multi_agent_orchestrator.Errors.{
  not_found, would_block, other_kind, Result, ok, err, panic, ◌>>=◌,
}
use multi_agent_orchestrator.Files.{Files, IoResult, done, failed, try_io, Metadata}
use multi_agent_orchestrator.Providers.Codex.Logs.{
  is_log_of, sessions_dir, search, home_or_error, visit_file, visit_dir, visit_sessions,
  walk_sessions, session_jsonl_mtime, find_session_jsonl_info,
}

-- The results of one walk, from those of another.
module _ {A B : Type 0} (f : B → A) where
  abbrev over : Result (Option B) → Result (Option A)
  over r = r >>= λ found. ok (map_option f found)

  over-next :
      (r : Result (Option B)) (rest : Result (Option A)) (rest' : Result (Option B))
      → rest ≡ over rest'
      → (over r >>= elim [ some a ↦ ok (some a) | none ↦ rest ])
        ≡ over (r >>= elim [ some b ↦ ok (some b) | none ↦ rest' ])
  over-next panic rest rest' e = refl
  over-next (err x) rest rest' e = refl
  over-next (ok none) rest rest' e = e
  over-next (ok (some b)) rest rest' e = refl

  search-over :
      (body : String → Result (Option A)) (body' : String → Result (Option B))
      (same : (path : String) → body path ≡ over (body' path)) (entries : List (IoResult String))
      → search body entries ≡ over (search body' entries)
  search-over body body' same [] = refl
  search-over body body' same (failed kind source ∷ entries) = refl
  search-over body body' same (done path ∷ entries) =
      ap (λ r. r >>= elim [ some a ↦ ok (some a) | none ↦ search body entries ]) (same path)
      ∙ over-next (body' path) (search body entries) (search body' entries)
          (search-over body body' same entries)

  module _ (files : Files) (session_id : String) (file : String → Result A)
      (file' : String → Result B)
      (same : (path : String) → file path ≡ (file' path >>= λ b. ok (f b))) where
    file_next :
        (y : Result B)
        → ((y >>= λ b. ok (f b)) >>= λ a. ok (some a)) ≡ over (y >>= λ b. ok (some b))
    file_next panic = refl
    file_next (err x) = refl
    file_next (ok b) = refl

    visit_case :
        (b : Bool) (x : Result A) (y : Result B)
        → x ≡ (y >>= λ b. ok (f b))
        → (if b then x >>= (λ a. ok (some a)) else ok none)
          ≡ over (if b then y >>= (λ a. ok (some a)) else ok none)
    visit_case true x y e = ap (λ r. r >>= λ a. ok (some a)) e ∙ file_next y
    visit_case false x y e = refl

    visit_file-over :
        (path : String)
        → visit_file files session_id file path ≡ over (visit_file files session_id file' path)
    unfolding visit_file
    visit_file-over path =
        visit_case (is_log_of session_id path) (file path) (file' path) (same path)

    read_next :
        (r : IoResult (List (IoResult String))) (body : String → Result (Option A))
        (body' : String → Result (Option B))
        → ((path : String) → body path ≡ over (body' path))
        → (try_io r >>= search body) ≡ over (try_io r >>= search body')
    read_next (done entries) body body' e = search-over body body' e entries
    read_next (failed kind source) body body' e = refl

    visit_dir-over :
        (body : String → Result (Option A)) (body' : String → Result (Option B))
        → ((path : String) → body path ≡ over (body' path))
        → (dir : String)
        → visit_dir files session_id file body dir
          ≡ over (visit_dir files session_id file' body' dir)
    unfolding visit_dir
    visit_dir-over body body' e dir = read_next (files.read_dir dir) body body' e

    visit_sessions-over :
        (r : IoResult (List (IoResult String)))
        → visit_sessions files session_id file r ≡ over (visit_sessions files session_id file' r)
    unfolding visit_sessions
    visit_sessions-over (done years) =
        search-over _ _
          (visit_dir-over _ _ (visit_dir-over _ _ (visit_dir-over _ _ visit_file-over))) years
    visit_sessions-over (failed not_found source) = refl
    visit_sessions-over (failed would_block source) = refl
    visit_sessions-over (failed other_kind source) = refl

    walk_sessions-over :
        (home : Option String)
        → walk_sessions files session_id file home
          ≡ over (walk_sessions files session_id file' home)
    unfolding walk_sessions home_or_error
    walk_sessions-over none = refl
    walk_sessions-over (some h) = visit_sessions-over (files.read_dir (sessions_dir h))

abbrev info_of : String → ℕ → ℕ → Result (String × ℕ × ℕ)
info_of path size modified = ok (path, modified, size)

read_meta :
    (path : String) (r : IoResult Metadata)
    → (try_io r >>= λ meta. try_io meta.modified) ≡ (
        (try_io r >>= λ meta. try_io meta.modified >>= λ modified. info_of path meta.size modified)
        >>= λ info. ok info.1)
read_meta path (failed kind source) = refl
read_meta path (done meta) = of_mtime meta.modified
  where
    of_mtime :
        (r : IoResult ℕ)
        → try_io r
          ≡ ((try_io r >>= λ modified. info_of path meta.size modified) >>= λ info. ok info.1)
    of_mtime (done t) = refl
    of_mtime (failed kind source) = refl

-- The two walks over the logs of Codex find the same log, and fail alike: the mtime is that of the
-- full information.
pub session_jsonl_mtime-info :
    (files : Files) (session_id : String) (home : Option String)
    → session_jsonl_mtime files session_id home ≡ (
        find_session_jsonl_info files session_id home >>= λ found.
        ok (map_option (λ info. info.1) found))
unfolding session_jsonl_mtime find_session_jsonl_info
session_jsonl_mtime-info files session_id home =
    walk_sessions-over (λ (info : String × ℕ × ℕ). info.1) files session_id _ _
      (λ path. read_meta path (files.metadata path)) home
