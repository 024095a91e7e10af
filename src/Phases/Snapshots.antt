-- ===== src/Phases/Snapshots.antt =====
-- src/orchestrator/phases.rs, the utilities on files: mtimes, artifacts and transport snapshots.
use multi_agent_orchestrator.Prelude.{ℕ, Bool, Option, none, some, String, length, ltb, false}
use multi_agent_orchestrator.Prelude.Text.{lines}
use multi_agent_orchestrator.State.{AgentRole, ProviderKind}
use multi_agent_orchestrator.Errors.{not_found, would_block, other_kind, io, Result, ok, err, ◌>>=◌}
use multi_agent_orchestrator.Files.{IoResult, done, failed, try_io, Metadata}
use multi_agent_orchestrator.Context.{TransportBodyReport}

unfoldable pub optional_file_mtime : IoResult Metadata → Result (Option ℕ)
optional_file_mtime (done meta) = try_io meta.modified >>= λ mtime. ok (some mtime)
optional_file_mtime (failed not_found source) = ok none
optional_file_mtime (failed would_block source) = err (io would_block source)
optional_file_mtime (failed other_kind source) = err (io other_kind source)

unfoldable pub artifact_file_present : IoResult Metadata → Result Bool
artifact_file_present (done meta) = ok (ltb 0 meta.size)
artifact_file_present (failed not_found source) = ok false
artifact_file_present (failed would_block source) = err (io would_block source)
artifact_file_present (failed other_kind source) = err (io other_kind source)

-- The bytes of a file: their text with replacement characters, whether there are any, their number
-- and their digest.
pub record Bytes : Type 0 where
  pub text : String
  pub lossy : Bool
  pub count : ℕ
  pub digest : String

module _ (path : String) (metadata : IoResult Metadata) (to_rfc3339 : ℕ → String) (role : AgentRole)
    (provider : ProviderKind) (session_id : String) where
  -- What is reported of the bytes that were read.
  abbrev pub snapshot_of : Bytes → Result (Option TransportBodyReport)
  snapshot_of bytes = try_io metadata >>= λ meta. try_io meta.modified >>= λ modified. ok (
      some (record {
        role = role;
        provider = provider;
        session_id = session_id;
        path = path;
        sha256 = bytes.digest;
        bytes = bytes.count;
        lines = length (lines bytes.text);
        utf8_lossy = bytes.lossy;
        mtime = some (to_rfc3339 modified);
        body = bytes.text;
      }))

  unfoldable pub read_transport_snapshot : IoResult Bytes → Result (Option TransportBodyReport)
  read_transport_snapshot (done bytes) = snapshot_of bytes
  read_transport_snapshot (failed not_found source) = ok none
  read_transport_snapshot (failed would_block source) = err (io would_block source)
  read_transport_snapshot (failed other_kind source) = err (io other_kind source)
