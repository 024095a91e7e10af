-- ===== src/Files.antt =====
-- The file system that the providers' code reads, and the parts of paths.
use multi_agent_orchestrator.Prelude.{
  ℕ, Bool, false, Option, none, some, String, List, [], ◌∷◌, or_else, str_eq, if◌then◌else◌,
  unwrap_or, map_option, ◌||◌,
}
use multi_agent_orchestrator.Prelude.Text.{starts_with}
use multi_agent_orchestrator.Prelude.Show.{format}
use multi_agent_orchestrator.Git.{after_last}
use multi_agent_orchestrator.Env.{path_join}
use multi_agent_orchestrator.Errors.{IoKind, io, Result, ok, err}

-- `io::Result`, its error with the text that it displays.
pub data IoResult {ℓ} (A : Type ℓ) : Type ℓ where
  done : A → IoResult A
  failed : (kind : IoKind) (source : String) → IoResult A

-- `?` on an `io::Result` in a function that returns `OrchestratorResult`.
abbrev pub try_io {ℓ} : {A : Type ℓ} → IoResult A → Result A
try_io (done a) = ok a
try_io (failed kind source) = err (io kind source)

-- `.ok()`
abbrev pub io_ok {ℓ} : {A : Type ℓ} → IoResult A → Option A
io_ok (done a) = some a
io_ok (failed kind source) = none

pub record Metadata : Type 0 where
  pub modified : IoResult ℕ
  pub size : ℕ

-- The answers of the file system at one time; `read_dir` gives the paths of the entries.
pub record Files : Type 0 where
  pub read_to_string : String → IoResult String
  pub read_dir : String → IoResult (List (IoResult String))
  pub metadata : String → IoResult Metadata

-- `base.join(a).join(b)…`
unfoldable pub join_all : String → List String → String
join_all base [] = base
join_all base (part ∷ parts) = join_all (path_join base part) parts

-- `ends_with`
unfoldable pub ends_with : String → String → Bool
ends_with String.[] p = str_eq String.[] p
ends_with (String.◌∷◌ c s) p = str_eq (String.◌∷◌ c s) p || ends_with s p

abbrev file_name : String → String
file_name path = unwrap_or path (after_last "/" 1 path)

-- The part of a text before its last dot.
before_dot : String → Option String
before_dot String.[] = none
before_dot (String.◌∷◌ c s) =
    let here = if starts_with (String.◌∷◌ c s) "." then some String.[] else none in
    or_else (map_option (λ r. String.◌∷◌ c r) (before_dot s)) here

-- `path.extension()`: nothing where the only dot of the name is its first character.
unfoldable pub extension : String → Option String
unfolding before_dot
extension path = elim (before_dot (file_name path)) [
  | none ↦ none
  | some String.[] ↦ none
  | some (String.◌∷◌ c s) ↦ after_last "." 1 (file_name path)
]

-- `path.file_stem()`
unfoldable pub file_stem : String → String
unfolding before_dot
file_stem path = elim (before_dot (file_name path)) [
  | none ↦ file_name path
  | some String.[] ↦ file_name path
  | some (String.◌∷◌ c s) ↦ format (String.◌∷◌ c s ∷ [])
]

abbrev pub is_jsonl : String → Bool
is_jsonl path = elim (extension path) [ none ↦ false | some e ↦ str_eq e "jsonl" ]
