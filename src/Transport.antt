-- ===== src/Transport.antt =====
-- src/transport.rs: the transport files, over a disk of texts.
pub mod Requests
pub mod Resets
pub mod Exclude
pub mod Dispatches
use multi_agent_orchestrator.Prelude.{
  ℕ, ◌==◌, Bool, true, false, not, Option, none, some, String, List, [], ◌∷◌, any, str_eq,
  if◌then◌else◌,
}
use multi_agent_orchestrator.Prelude.Map.{get, insert}
use multi_agent_orchestrator.Prelude.Show.{format}
use multi_agent_orchestrator.Prelude.Text.{trim, lines, byte_len}
use multi_agent_orchestrator.State.{AgentRole, executor, reviewer}
use multi_agent_orchestrator.Errors.{
  IoKind, not_found, would_block, other_kind, OrchestratorError, io, transport_reset_failed,
  command_failed, request_changed_abort_retry, Result, ok, err, panic,
}
use multi_agent_orchestrator.Env.{Git, not_run, exited, path_join}

-- The files by their paths. Texts stand for the bytes.
abbrev pub Disk : Type 0
Disk = List (String × String)

-- An operation on the disk. What it wrote before it failed stays written.
abbrev pub OnDisk : Type 0 → Type 0
OnDisk A = Disk → Result A × Disk

abbrev pub continue : {A B : Type 0} → Result A → (A → OnDisk B) → OnDisk B
continue (ok a) f d = f a d
continue (err e) f d = (err e, d)
continue panic f d = (panic, d)

infixl 10 ◌>>=◌ ◌>>◌
abbrev pub ◌>>=◌ : {A B : Type 0} → OnDisk A → (A → OnDisk B) → OnDisk B
◌>>=◌ m f d = let (r, d') = m d in continue r f d'

abbrev pub ◌>>◌ : {A B : Type 0} → OnDisk A → OnDisk B → OnDisk B
m >> n = m >>= λ _. n

-- A call at a path: it may fail there, for any reason but that the file is missing.
abbrev pub Faults : Type 0
Faults = String → Option (IoKind × String)

-- The calls at a disk that may fail, and what other processes do between two of them.
pub record DiskEnv : Type 0 where
  pub create_dir : Faults
  pub write_fault : Faults
  pub stat_fault : Faults
  pub read_fault : Faults
  pub meanwhile : Disk → Disk
  pub sha256_hex : String → String

abbrev missing : OrchestratorError
missing = io not_found "No such file or directory (os error 2)"

-- A read, from the fault and the content at the path.
abbrev pub fetch : Option (IoKind × String) → Option String → OnDisk String
fetch (some (kind, source)) got d = (err (io kind source), d)
fetch none none d = (err missing, d)
fetch none (some s) d = (ok s, d)

abbrev pub measure : Option (IoKind × String) → Option String → OnDisk ℕ
measure (some (kind, source)) got d = (err (io kind source), d)
measure none none d = (err missing, d)
measure none (some s) d = (ok (byte_len s), d)

abbrev pub put : Option (IoKind × String) → String → String → OnDisk (Unit {0})
put (some (kind, source)) path text d = (err (io kind source), d)
put none path text d = (ok tt, insert path text d)

module _ (env : DiskEnv) where
  -- `create`, `write` and `truncate`, then `write_all` of the text
  unfoldable pub write : String → String → OnDisk (Unit {0})
  write path text = put (env.write_fault path) path text

  unfoldable pub read : String → OnDisk String
  read path d = fetch (env.read_fault path) (get path d) d

  -- `metadata(path).len()`
  unfoldable pub stat : String → OnDisk ℕ
  stat path d = measure (env.stat_fault path) (get path d) d

  unfoldable pub others : OnDisk (Unit {0})
  others d = (ok tt, env.meanwhile d)

  abbrev pub check_empty : String → ℕ → OnDisk (Unit {0})
  check_empty path len d = if len == 0 then (ok tt, d) else (err (transport_reset_failed path), d)

  -- The body of the loop of `reset_transport`.
  unfoldable pub reset_file : String → OnDisk (Unit {0})
  reset_file path = do write path ""; others; len ← stat path; check_empty path len

  unfoldable pub reset_files : List String → OnDisk (Unit {0})
  reset_files [] d = (ok tt, d)
  reset_files (path ∷ paths) d = (reset_file path >> reset_files paths) d

  module _ (repo : String) where
    abbrev pub transport_dir : String
    transport_dir = path_join repo ".agent-io"

    abbrev pub inbox : String
    inbox = path_join transport_dir "inbox.txt"

    abbrev pub outbox : String
    outbox = path_join transport_dir "outbox.txt"

    abbrev pub made_dir : Option (IoKind × String) → OnDisk (Unit {0}) → OnDisk (Unit {0})
    made_dir (some (kind, source)) m d = (err (io kind source), d)
    made_dir none m d = m d

    abbrev pub reset_paths : AgentRole → List String
    reset_paths executor = inbox ∷ outbox ∷ []
    reset_paths reviewer = inbox ∷ []

    unfoldable pub reset_transport : AgentRole → OnDisk (Unit {0})
    reset_transport role = made_dir (env.create_dir transport_dir) (reset_files (reset_paths role))

    abbrev pub fingerprint_of : String → OnDisk String
    fingerprint_of text d = (ok (env.sha256_hex text), d)

    -- The fingerprint of what is in the file after the write.
    unfoldable pub write_request : String → OnDisk String
    write_request content = do write inbox content; others; text ← read inbox; fingerprint_of text

    abbrev pub same_fingerprint : String → String → OnDisk (Unit {0})
    same_fingerprint original text d =
        if str_eq (env.sha256_hex text) original
        then (ok tt, d)
        else (err request_changed_abort_retry, d)

    unfoldable pub verify_request_fingerprint : String → OnDisk (Unit {0})
    verify_request_fingerprint original = read inbox >>= same_fingerprint original
