-- ===== src/Locks.antt =====
-- src/locks.rs: the lock file of a session.
pub mod Keys
use multi_agent_orchestrator.Prelude.{
  ℕ, Bool, true, false, Option, none, some, String, List, [], ◌∷◌, map_option, or_else,
}
use multi_agent_orchestrator.Prelude.Show.{format, show}
use multi_agent_orchestrator.State.{ProviderKind, provider_as_str}
use multi_agent_orchestrator.Errors.{
  IoKind, not_found, would_block, other_kind, OrchestratorError, io, invalid_input, session_locked,
  Result, ok, err, panic, ◌>>=◌, ◌>>◌,
}
use multi_agent_orchestrator.Env.{path_join}
use multi_agent_orchestrator.Files.{IoResult, done, failed, try_io, join_all}

-- The environment variables, and the calls at a lock file. The lock goes with the open file.
pub record LockEnv : Type 0 where
  pub xdg_runtime_dir : Option String
  pub home : Option String
  pub process_id : ℕ
  pub sha256_hex : String → String
  pub create_dir_all : String → IoResult (Unit {0})
  pub open_file : String → IoResult (Unit {0})
  pub try_lock_exclusive : String → IoResult (Unit {0})
  pub set_len : String → ℕ → IoResult (Unit {0})
  pub write : String → String → IoResult (Unit {0})

-- The text whose digest is the key.
unfoldable pub lock_key_text : ProviderKind → String → String
lock_key_text provider session_id = format (provider_as_str provider ∷ ":" ∷ session_id ∷ [])

abbrev pub ok_or {ℓ} : {A : Type ℓ} → Option A → OrchestratorError → Result A
ok_or (some a) e = ok a
ok_or none e = err e

-- The error of a lock that was not taken.
unfoldable pub lock_error : ProviderKind → String → IoResult (Unit {0}) → Result (Unit {0})
lock_error provider session_id (done u) = ok tt
lock_error provider session_id (failed would_block source) =
    err (session_locked provider session_id)
lock_error provider session_id (failed not_found source) = err (io not_found source)
lock_error provider session_id (failed other_kind source) = err (io other_kind source)

module _ (env : LockEnv) where
  unfoldable pub lock_dir : Result String
  lock_dir =
      ok_or (or_else env.xdg_runtime_dir (map_option (λ h. path_join h ".cache") env.home))
        (invalid_input "lock_dir" "XDG_RUNTIME_DIR and HOME are both unset")
      >>= λ base. ok (join_all base ("multi-agent-orchestrator" ∷ "session-locks" ∷ []))

  -- The key, which names the file.
  abbrev pub lock_key : ProviderKind → String → String
  lock_key provider session_id = env.sha256_hex (lock_key_text provider session_id)

  abbrev pub lock_file : ProviderKind → String → String → String
  lock_file provider session_id dir =
      path_join dir (format (lock_key provider session_id ∷ ".lock" ∷ []))

  unfoldable pub lock_file_path : ProviderKind → String → Result String
  lock_file_path provider session_id = lock_dir >>= λ dir. ok (lock_file provider session_id dir)

  -- The path of the lock that was taken.
  unfoldable pub acquire_session_lock : ProviderKind → String → Result String
  acquire_session_lock provider session_id = do
    dir ← lock_dir
    let path = lock_file provider session_id dir
    try_io (env.create_dir_all dir)
    try_io (env.open_file path)
    lock_error provider session_id (env.try_lock_exclusive path)
    try_io (env.set_len path 0)
    try_io (env.write path (show env.process_id))
    ok path
