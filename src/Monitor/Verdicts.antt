-- ===== src/Monitor/Verdicts.antt =====
-- What the monitor's own probes make of the classifier: which verdicts can come, and what the
-- contracts of src/orchestrator/monitor.rs guarantee when they do.
use multi_agent_orchestrator.Prelude.{
  ◌≡◌, refl, ap, ◌≢◌, ◌↔◌, ◌<◌, ℕ, ltb, is_none, ◌&&◌, map_option, unwrap_or, arith, Bool, true,
  false, Option, none, some,
}
use multi_agent_orchestrator.State.{
  AgentRole, executor, reviewer, AttemptState, WorkflowType, plan, investigate, implement,
  service_cap,
}
use multi_agent_orchestrator.Signals.{ProviderErrorMatch}
use multi_agent_orchestrator.Fsm.{classify}
use multi_agent_orchestrator.Snapshot.{ProbeSnapshot, final_result_boundary_reached}
use multi_agent_orchestrator.Context.{AttemptStateData, FileMeta}
use multi_agent_orchestrator.Monitor.Probe.{ProbeSignals, ProbeEnv}
use multi_agent_orchestrator.Monitor.Contract.{
  outbox_written, soft_success_allowed, soft_success_artifact, check_success_contract,
  check_soft_success_contract, build_snapshot,
}

-- The monitor reports no class of provider error but a service cap.
abbrev pub CapOnly : Option ProviderErrorMatch → Type 0
CapOnly none = Unit
CapOnly (some m) = m.error_class ≡ service_cap

module _ (s : ProbeSnapshot) (now : ℕ) where
  no_error_no_access :
      s.provider_error ≡ none → classify s now ≢ AttemptState.failed_provider_access
  unfolding classify
  no_error_no_access e h = ground arith

  cap_no_access :
      s.provider_error ≡ some service_cap → classify s now ≢ AttemptState.failed_provider_access
  unfolding classify
  cap_no_access e h = ground arith

  soft_contract : classify s now ≡ AttemptState.soft_success → s.soft_success_contract ≡ true
  unfolding classify
  soft_contract h = ground arith

  success_iff :
      (classify s now ≡ AttemptState.success)
      ↔ ((s.cancelled ≡ false) × (s.provider_error ≡ none) × (s.success_contract ≡ true))
  unfolding classify final_result_boundary_reached
  success_iff = (λ h. ground arith, λ h. ground arith)

-- The contract of a soft success asks for the artifact that the workflow's route asks for.
soft_success_routed :
    (w : WorkflowType) (a : AttemptStateData) (s : ProbeSignals) (role : AgentRole) (now : ℕ)
    → check_soft_success_contract w a s role now ≡ true
    → soft_success_allowed w s.artifact_map ≡ true
unfolding check_soft_success_contract soft_success_artifact soft_success_allowed
soft_success_routed plan a s executor now h = ground arith
soft_success_routed investigate a s executor now h = ground arith
soft_success_routed implement a s executor now h = refl
soft_success_routed w a s reviewer now h = cc

module _ (env : ProbeEnv) (role : AgentRole) (w : WorkflowType) (a : AttemptStateData)
    (s : ProbeSignals) (changed stale : Bool) where
  -- A probe with no provider error, or with a service cap, is not classified as an access
  -- failure.
  pub build_snapshot-no_access :
      (error : Option ProviderErrorMatch)
      → CapOnly error
      → classify (build_snapshot env role w a s changed stale error) env.now
        ≢ AttemptState.failed_provider_access
  unfolding build_snapshot
  build_snapshot-no_access none h = no_error_no_access _ env.now refl
  build_snapshot-no_access (some m) h = cap_no_access _ env.now (ap some h)

  -- A soft success is only given where the workflow allows its route.
  pub build_snapshot-soft_success :
      (error : Option ProviderErrorMatch)
      → classify (build_snapshot env role w a s changed stale error) env.now
        ≡ AttemptState.soft_success
      → soft_success_allowed w s.artifact_map ≡ true
  unfolding build_snapshot
  build_snapshot-soft_success error h =
      soft_success_routed w a s role env.now (soft_contract _ env.now h)

-- The outbox is there and not empty.
abbrev pub HasText : Option FileMeta → Type 0
HasText none = ⊥
HasText (some m) = 0 < m.size

HasText-iff :
    (o : Option FileMeta) → (unwrap_or false (map_option (λ m. ltb 0 m.size) o) ≡ true) ↔ HasText o
HasText-iff none = (λ h. cc, λ h. absurd h)
HasText-iff (some m) = (λ h. ground arith, λ h. ground arith)

exited_with_text :
    (a : AttemptStateData) (s : ProbeSignals)
    → ((is_none a.pid && outbox_written s) ≡ true) ↔ ((a.pid ≡ none) × HasText s.outbox_meta)
exited_with_text a s = (
  λ h. (ground arith, (HasText-iff s.outbox_meta).0 (ground arith)),
  λ (exited, text). rw (exited, (HasText-iff s.outbox_meta).1 text),
)

contract_iff :
    (a : AttemptStateData) (s : ProbeSignals) (role : AgentRole)
    → (check_success_contract a s role ≡ true) ↔ ((a.pid ≡ none) × HasText s.outbox_meta)
unfolding check_success_contract
contract_iff a s executor = exited_with_text a s
contract_iff a s reviewer = exited_with_text a s

no_class :
    (error : Option ProviderErrorMatch)
    → map_option (λ m. m.error_class) error ≡ none
    → error ≡ none
no_class none e = refl
no_class (some m) e = cc

-- A probe is a success exactly when it saw no cancellation and no provider error, the process has
-- exited, and the outbox is there and not empty: the same for both roles and all workflows, and
-- whether or not the outbox's text is a valid verdict.
pub build_snapshot-success_iff :
    (env : ProbeEnv) (role : AgentRole) (w : WorkflowType) (a : AttemptStateData) (s : ProbeSignals)
    (changed stale : Bool) (error : Option ProviderErrorMatch)
    → (classify (build_snapshot env role w a s changed stale error) env.now ≡ AttemptState.success)
      ↔ ((env.cancelled_now ≡ false) × (error ≡ none) × (a.pid ≡ none) × HasText s.outbox_meta)
unfolding build_snapshot
build_snapshot-success_iff env role w a s changed stale error = (
  λ h.
      let (going, fine, contract) =
        (success_iff (build_snapshot env role w a s changed stale error) env.now).0 h in
      let (exited, text) = (contract_iff a s role).0 contract in
      (going, no_class error fine, exited, text),
  λ (going, fine, exited, text).
      (success_iff (build_snapshot env role w a s changed stale error) env.now).1 (
        going,
        ap (map_option (λ m. m.error_class)) fine,
        (contract_iff a s role).1 (exited, text),
      ),
)
