-- ===== src/Providers/Claude/Found.antt =====
-- Which session the discovery of Claude finds.
use multi_agent_orchestrator.Prelude.{
  ◌≡◌, refl, ap, ◌∙◌, inl, inr, ◌↔◌, Bool, true, false, Option, none, some, String, List, [], ◌∷◌,
  All, map, filter_by, arith, str_eq, if◌then◌else◌, Bool-cases,
}
use multi_agent_orchestrator.State.{AgentRole, claude}
use multi_agent_orchestrator.Errors.{Result, ok, err, panic, ◌>>=◌, >>=-eq-ok}
use multi_agent_orchestrator.Json.{JsonLib}
use multi_agent_orchestrator.Files.{Files, IoResult, done, failed, is_jsonl, file_stem}
use multi_agent_orchestrator.Providers.Select.{one_session, one_session-eq-ok, Only, filter_by-Only}
use multi_agent_orchestrator.Providers.Claude.{
  home_dir, projects_dir, claude_effective_title, candidate_of, entry_candidate, with_candidate,
  candidates, project_entries, discover_by_thread,
}

module _ (files : Files) (lib : JsonLib) (role : AgentRole) (thread_name : String) where
  abbrev is_title : Result (Option String) → Bool
  is_title (ok (some title)) = str_eq title thread_name
  is_title _ = false

  -- A log with the thread's title.
  abbrev pub has_title : String → Bool
  has_title path = if is_jsonl path then is_title (claude_effective_title lib files path) else false

  abbrev Succeeds : Result (Option String) → Type 0
  Succeeds r = (title : Option String) × (r ≡ ok title)

  -- Where the path is that of a log, the log can be read.
  abbrev pub CanRead : String → Type 0
  CanRead path = is_jsonl path ≡ true → Succeeds (claude_effective_title lib files path)

  -- What the loop collects from entries at these paths.
  abbrev stems : List String → List String
  stems paths = map file_stem (filter_by has_title paths)

  abbrev found_at : String → Option String
  found_at path = if has_title path then some (file_stem path) else none

  candidate_of-Succeeds :
      (path : String) (r : Result (Option String)) (found : Option String)
      → candidate_of files lib role thread_name path r ≡ ok found
      → Succeeds r
  candidate_of-Succeeds path panic found e = cc
  candidate_of-Succeeds path (err x) found e = cc
  candidate_of-Succeeds path (ok title) found e = (title, refl)

  Succeeds-candidate_of :
      (path : String) (r : Result (Option String))
      → Succeeds r
      → candidate_of files lib role thread_name path r
        ≡ ok (if is_title r then some (file_stem path) else none)
  Succeeds-candidate_of path panic (title, e) = cc
  Succeeds-candidate_of path (err x) (title, e) = cc
  Succeeds-candidate_of path (ok none) read = refl
  Succeeds-candidate_of path (ok (some title)) read = ground arith

  entry_candidate-CanRead :
      (path : String) (found : Option String)
      → entry_candidate files lib role thread_name path ≡ ok found
      → CanRead path
  unfolding entry_candidate
  entry_candidate-CanRead path found e is =
      candidate_of-Succeeds path (claude_effective_title lib files path) found (ground arith)

  CanRead-entry_candidate :
      (path : String)
      → CanRead path
      → entry_candidate files lib role thread_name path ≡ ok (found_at path)
  unfolding entry_candidate
  CanRead-entry_candidate path can = elim (Bool-cases (is_jsonl path)) [
    | inl is ↦
        let found = Succeeds-candidate_of path (claude_effective_title lib files path) (can is) in
        ground arith
    | inr out ↦ ground arith
  ]

  with_found :
      (b : Bool) (path : String) (paths : List String)
      → with_candidate files lib role thread_name
          (if b then some (file_stem path) else none)
          (map file_stem paths)
        ≡ map file_stem (if b then path ∷ paths else paths)
  with_found true path paths = refl
  with_found false path paths = refl

  CanRead-candidates :
      (paths : List String)
      → All CanRead paths
      → candidates files lib role thread_name (map done paths) ≡ ok (stems paths)
  unfolding candidates
  CanRead-candidates [] can = refl
  CanRead-candidates (path ∷ paths) (can, all) =
      rw (CanRead-entry_candidate path can, CanRead-candidates paths all)
        (ap ok (with_found (has_title path) path (filter_by has_title paths)))

  abbrev AllRead : List (IoResult String) → Type 0
  AllRead entries = (paths : List String) × (entries ≡ map done paths) × All CanRead paths

  candidates-AllRead :
      (entries : List (IoResult String)) (ids : List String)
      → candidates files lib role thread_name entries ≡ ok ids
      → AllRead entries
  unfolding candidates
  candidates-AllRead [] ids e = ([], refl, tt)
  candidates-AllRead (failed kind source ∷ entries) ids e = cc
  candidates-AllRead (done path ∷ entries) ids e =
      let (found, first, e1) =
        >>=-eq-ok (entry_candidate files lib role thread_name path)
          (λ found. candidates files lib role thread_name entries >>= λ rest.
            ok (with_candidate files lib role thread_name found rest))
          e in
      let (rest, second, e2) =
        >>=-eq-ok (candidates files lib role thread_name entries)
          (λ rest. ok (with_candidate files lib role thread_name found rest)) e1 in
      let (paths, split, all) = candidates-AllRead entries rest second in
      (
        path ∷ paths,
        ap (λ es. done path ∷ es) split,
        (entry_candidate-CanRead path found first, all),
      )

  project_entries-done :
      (dir : String) (r : IoResult (List (IoResult String))) (entries : List (IoResult String))
      → project_entries files lib role thread_name dir r ≡ ok entries
      → r ≡ done entries
  project_entries-done dir (done es) entries e = cc
  project_entries-done dir (failed kind source) entries e = cc

  -- One log of these, alone, has the title, and it is that of the session.
  abbrev pub OnlyTitled : List String → String → Type 0
  OnlyTitled paths id = (path : String) × Only has_title paths path × (file_stem path ≡ id)

  one_stem :
      (logs : List String) (id : String)
      → map file_stem logs ≡ id ∷ []
      → (path : String) × (logs ≡ path ∷ []) × (file_stem path ≡ id)
  one_stem [] id e = cc
  one_stem (a ∷ []) id e = (a, refl, cc)
  one_stem (a ∷ b ∷ logs) id e = cc

-- The project directory can be listed and each log in it read, and the session's log is the only
-- one with the title.
abbrev pub FoundAt : Files → JsonLib → AgentRole → String → String → String → String → Type 0
FoundAt files lib role name home repo id =
    (paths : List String) × (files.read_dir (projects_dir home repo) ≡ done (map done paths))
    × All (CanRead files lib role name) paths
    × OnlyTitled files lib role name paths id

-- Claude discovery returns a session exactly when the project directory can be listed, the title of
-- each log in it can be read, and the session's log is the only one with the thread's title.
pub discover_claude_iff :
    (files : Files) (lib : JsonLib) (role : AgentRole) (name home repo id : String)
    → (discover_by_thread files lib role name (some home) repo ≡ ok id)
      ↔ FoundAt files lib role name home repo id
unfolding discover_by_thread home_dir
discover_claude_iff files lib role name home repo id =
    let dir = projects_dir home repo in
    let has = has_title files lib role name in
    let one = one_session role claude name in
    (
      λ e.
          let (entries, listed, e1) =
            >>=-eq-ok (project_entries files lib role name dir (files.read_dir dir))
              (λ entries. candidates files lib role name entries >>= one) e in
          let (ids, got, e2) = >>=-eq-ok (candidates files lib role name entries) one e1 in
          let (paths, split, all) = candidates-AllRead files lib role name entries ids got in
          let same = CanRead-candidates files lib role name paths all in
          let (path, only, stem) = one_stem files lib role name (filter_by has paths) id (
            (one_session-eq-ok role claude name (map file_stem (filter_by has paths)) id).0
              (rw (split, same) at e1)) in
          (
            paths,
            project_entries-done files lib role name dir (files.read_dir dir) entries listed
                ∙ ap done split,
            all,
            (path, (filter_by-Only has paths path).0 only, stem),
          ),
      λ (paths, listed, all, (path, only, stem)).
          rw (listed, CanRead-candidates files lib role name paths all)
            ((one_session-eq-ok role claude name (map file_stem (filter_by has paths)) id).1 (
              ap (map file_stem) ((filter_by-Only has paths path).1 only) ∙ ap (λ i. i ∷ []) stem)),
    )
