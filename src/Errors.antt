-- ===== src/Errors.antt =====
-- src/errors.rs: the error type of every operation, and results. Texts of errors that come from
-- libraries (`io::Error`, JSON, YAML, an exit status) are kept as the texts that they display.
use multi_agent_orchestrator.Prelude.{◌≡◌, refl, Bool, true, false, String, [], ◌∷◌}
use multi_agent_orchestrator.Prelude.Show.{format}
use multi_agent_orchestrator.State.{AgentRole, ProviderKind, role_debug, provider_debug}

-- `io::ErrorKind`, as far as the program looks at it.
pub data IoKind : Type 0 where
  not_found would_block other_kind : IoKind

abbrev pub is_not_found : IoKind → Bool
is_not_found not_found = true
is_not_found _ = false

pub data OrchestratorError : Type 0 where
  transport_reset_failed : (path : String) → OrchestratorError
  io : (kind : IoKind) (source : String) → OrchestratorError
  json : (source : String) → OrchestratorError
  yaml : (source : String) → OrchestratorError
  command_failed : (program status : String) → OrchestratorError
  session_bind_failed :
      (role : AgentRole) (provider : ProviderKind) (reason : String) → OrchestratorError
  session_locked : (provider : ProviderKind) (session_id : String) → OrchestratorError
  invalid_input : (field reason : String) → OrchestratorError
  dirty_worktree : (status : String) → OrchestratorError
  artifact_contract : (contract : String) → OrchestratorError
  request_changed_abort_retry : OrchestratorError

-- The derived `Display`.
unfoldable pub error_text : OrchestratorError → String
error_text (transport_reset_failed path) = format ("transport reset failed for " ∷ path ∷ [])
error_text (io kind source) = format ("io error: " ∷ source ∷ [])
error_text (json source) = format ("json error: " ∷ source ∷ [])
error_text (yaml source) = format ("yaml parse error: " ∷ source ∷ [])
error_text (command_failed program status) =
    format ("command `" ∷ program ∷ "` failed: " ∷ status ∷ [])
error_text (session_bind_failed role provider reason) = format (
    "session bind failed for "
    ∷ role_debug role
    ∷ " "
    ∷ provider_debug provider
    ∷ ": "
    ∷ reason
    ∷ [])
error_text (session_locked provider session_id) =
    format ("session is locked: " ∷ provider_debug provider ∷ " " ∷ session_id ∷ [])
error_text (invalid_input field reason) = format ("invalid input `" ∷ field ∷ "`: " ∷ reason ∷ [])
error_text (dirty_worktree status) = format ("dirty worktree before orchestration:\n" ∷ status ∷ [])
error_text (artifact_contract contract) = format ("artifact contract failed: " ∷ contract ∷ [])
error_text request_changed_abort_retry = "request payload changed before retry — aborting retry"

-- `OrchestratorResult`. `panic` is an `unwrap()` of `None` or a slice off a character boundary.
pub data Result {ℓ} (A : Type ℓ) : Type ℓ where
  ok : A → Result A
  err : OrchestratorError → Result A
  panic : Result A

abbrev pub is_ok {ℓ} : {A : Type ℓ} → Result A → Bool
is_ok (ok a) = true
is_ok _ = false

-- `if bad { return Err(e) }`
abbrev pub reject_if : Bool → OrchestratorError → Result (Unit {0})
reject_if true e = err e
reject_if false e = ok tt

-- `?` on a result, with what the code does next; an error and a panic end it.
infixl 5 ◌>>=◌
abbrev pub ◌>>=◌ {ℓ κ} : {X : Type ℓ} {Y : Type κ} → Result X → (X → Result Y) → Result Y
panic >>= next = panic
err reason >>= next = err reason
ok value >>= next = next value

infixl 5 ◌>>◌
abbrev pub ◌>>◌ {κ} : {Y : Type κ} → Result (Unit {0}) → Result Y → Result Y
first >> after = first >>= (λ (u : Unit {0}). after)

module _ {ℓ κ} {X : Type ℓ} {Y : Type κ} where
  -- A chain that ends well had a first part that did.
  pub >>=-eq-ok :
      (first : Result X) (next : X → Result Y) {result : Y}
      → (first >>= next) ≡ ok result
      → (value : X) × (first ≡ ok value) × (next value ≡ ok result)
  >>=-eq-ok panic next e = cc
  >>=-eq-ok (err reason) next e = cc
  >>=-eq-ok (ok value) next e = (value, refl, e)
