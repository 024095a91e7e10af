-- ===== src/Providers/Codex/Walks.antt =====
-- What the walks over the rollout logs of Codex find.
use multi_agent_orchestrator.Prelude.{
  ◌≡◌, refl, ap, ◌⊎◌, inl, inr, true, Option, none, some, String, List, [], ◌∷◌, str_eq, eq_iff,
  arith, and_then, unwrap_or, Bool-cases, Option-cases,
}
use multi_agent_orchestrator.Prelude.Text.{lines}
use multi_agent_orchestrator.Json.{Value, JsonLib, get, get_str}
use multi_agent_orchestrator.Files.{Files, IoResult, done, failed}
use multi_agent_orchestrator.Providers.Codex.Logs.{
  is_log_of, readable, first_return, dir_return, cwd_of_type, cwd_of_parsed, cwd_of_lines,
  cwd_of_read, cwd_of_file, in_dir, sessions_dir, codex_session_cwd,
}

-- The file's name is that of the session's log, and its first line is the metadata with this
-- directory.
abbrev pub LogSays : Files → JsonLib → String → String → String → Type 0
LogSays files lib session_id path cwd =
    (is_log_of session_id path ≡ true)
    × ((content : String) × (first : String) × (rest : List String) × (obj : Value)
        × (payload : Value) × (files.read_to_string path ≡ done content)
        × (lines content ≡ first ∷ rest)
        × (lib.from_str first ≡ inr obj)
        × (get_str obj "type" ≡ some "session_meta")
        × (get obj "payload" ≡ some payload)
        × (get_str payload "cwd" ≡ some cwd))

first_return-eq-some :
    (body : String → Option (Option String)) (paths : List String) (r : Option String)
    → first_return body paths ≡ some r
    → (path : String) × (body path ≡ some r)
first_return-eq-some body [] r e = cc
first_return-eq-some body (path ∷ paths) r e = elim (Option-cases (body path)) [
  | inl h ↦ first_return-eq-some body paths r (ground arith)
  | inr (s, h) ↦ (path, ground arith)
]

dir_return-eq-some :
    (body : String → Option (Option String)) (r : IoResult (List (IoResult String))) (cwd : String)
    → dir_return body r ≡ some (some cwd)
    → (path : String) × (body path ≡ some (some cwd))
dir_return-eq-some body (done entries) cwd e =
    first_return-eq-some body (readable entries) (some cwd) e
dir_return-eq-some body (failed kind source) cwd e = cc

unwrap_none :
    (o : Option (Option String)) (cwd : String) → unwrap_or none o ≡ some cwd → o ≡ some (some cwd)
unwrap_none none cwd e = cc
unwrap_none (some o) cwd e = cc

and_then-eq-some :
    {A : Type 0} (o : Option A) (f : A → Option String) (s : String)
    → some (and_then o f) ≡ some (some s)
    → (a : A) × (o ≡ some a) × (f a ≡ some s)
and_then-eq-some none f s e = cc
and_then-eq-some (some a) f s e = (a, refl, cc)

module _ (files : Files) (lib : JsonLib) (session_id : String) where
  abbrev Rest : String → String → IoResult String → Type 0
  Rest path cwd read =
      (content : String) × (first : String) × (rest : List String) × (obj : Value)
      × (payload : Value) × (read ≡ done content)
      × (lines content ≡ first ∷ rest)
      × (lib.from_str first ≡ inr obj)
      × (get_str obj "type" ≡ some "session_meta")
      × (get obj "payload" ≡ some payload)
      × (get_str payload "cwd" ≡ some cwd)

  cwd_of_type-says :
      (t : Option String) (obj : Value) (cwd : String)
      → cwd_of_type t obj ≡ some (some cwd)
      → (payload : Value) × (t ≡ some "session_meta")
        × (get obj "payload" ≡ some payload)
        × (get_str payload "cwd" ≡ some cwd)
  cwd_of_type-says none obj cwd e = cc
  cwd_of_type-says (some t) obj cwd e = elim (Bool-cases (str_eq t "session_meta")) [
    | inl h ↦
        let (payload, got, says) =
          and_then-eq-some (get obj "payload") (λ p. get_str p "cwd") cwd (ground arith) in
        (payload, ap some ((eq_iff t "session_meta").0 h), got, says)
    | inr h ↦ absurd (ground arith)
  ]

  cwd_of_parsed-says :
      (parsed : String ⊎ Value) (cwd : String)
      → cwd_of_parsed parsed ≡ some (some cwd)
      → (obj : Value) × (payload : Value) × (parsed ≡ inr obj)
        × (get_str obj "type" ≡ some "session_meta")
        × (get obj "payload" ≡ some payload)
        × (get_str payload "cwd" ≡ some cwd)
  cwd_of_parsed-says (inl x) cwd e = cc
  cwd_of_parsed-says (inr obj) cwd e =
      let (payload, t, got, says) = cwd_of_type-says (get_str obj "type") obj cwd e in
      (obj, payload, refl, t, got, says)

  cwd_of_lines-says :
      (ls : List String) (cwd : String)
      → cwd_of_lines files lib session_id ls ≡ some (some cwd)
      → (first : String) × (rest : List String) × (obj : Value) × (payload : Value) × (ls
          ≡ first ∷ rest)
        × (lib.from_str first ≡ inr obj)
        × (get_str obj "type" ≡ some "session_meta")
        × (get obj "payload" ≡ some payload)
        × (get_str payload "cwd" ≡ some cwd)
  cwd_of_lines-says [] cwd e = cc
  cwd_of_lines-says (first ∷ rest) cwd e =
      let (obj, payload, p, t, got, says) = cwd_of_parsed-says (lib.from_str first) cwd e in
      (first, rest, obj, payload, refl, p, t, got, says)

  cwd_of_read-Rest :
      (path : String) (read : IoResult String) (cwd : String)
      → cwd_of_read files lib session_id read ≡ some (some cwd)
      → Rest path cwd read
  cwd_of_read-Rest path (done content) cwd e =
      let (first, rest, obj, payload, l, p, t, got, says) =
        cwd_of_lines-says (lines content) cwd e in
      (content, first, rest, obj, payload, refl, l, p, t, got, says)
  cwd_of_read-Rest path (failed kind source) cwd e = cc

  cwd_of_file-LogSays :
      (path cwd : String)
      → cwd_of_file files lib session_id path ≡ some (some cwd)
      → LogSays files lib session_id path cwd
  unfolding cwd_of_file
  cwd_of_file-LogSays path cwd e = elim (Bool-cases (is_log_of session_id path)) [
    | inl h ↦ (h, cwd_of_read-Rest path (files.read_to_string path) cwd (ground arith))
    | inr h ↦ absurd (ground arith)
  ]

  in_dir-found :
      (body : String → Option (Option String)) (dir cwd : String)
      → in_dir files lib session_id body dir ≡ some (some cwd)
      → (path : String) × (body path ≡ some (some cwd))
  unfolding in_dir
  in_dir-found body dir cwd e = dir_return-eq-some body (files.read_dir dir) cwd e

  -- A directory that the walk reports is the one that a log of the session names.
  pub codex_session_cwd-LogSays :
      (home cwd : String)
      → codex_session_cwd files lib session_id (some home) ≡ some cwd
      → (path : String) × LogSays files lib session_id path cwd
  unfolding codex_session_cwd
  codex_session_cwd-LogSays home cwd e =
      let in_dir' = in_dir files lib session_id in
      let file = cwd_of_file files lib session_id in
      let (year, y) =
        in_dir-found (in_dir' (in_dir' (in_dir' file))) (sessions_dir home) cwd
          (unwrap_none (in_dir' (in_dir' (in_dir' (in_dir' file))) (sessions_dir home)) cwd e) in
      let (month, m) = in_dir-found (in_dir' (in_dir' file)) year cwd y in
      let (day, d) = in_dir-found (in_dir' file) month cwd m in
      let (path, f) = in_dir-found file day cwd d in (path, cwd_of_file-LogSays path cwd f)
