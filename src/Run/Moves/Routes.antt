-- ===== src/Run/Moves/Routes.antt =====
-- The errors that the monitor acts on, and what the routing of a verdict does to the core.
use multi_agent_orchestrator.Prelude.{
  ◌≡◌, ◌∙◌, refl, ap, inl, inr, ◌≢◌, ℕ, Bool, true, false, String, List, Option, none, some,
}
use multi_agent_orchestrator.State.{
  AgentRole, executor, reviewer, RunState, AttemptState, ProviderErrorClass, service_cap,
  permission, auth, transport, claude, same_provider,
}
use multi_agent_orchestrator.Signals.{ProviderErrorMatch, classify_provider_error_with_match}
use multi_agent_orchestrator.Context.{CliArgs, AttemptStateData, OrchestratorCtx, provider_of}
use multi_agent_orchestrator.Context.Exec.{Exec, ◌>>=◌, ◌>>◌, pure, lift, modify}
use multi_agent_orchestrator.Context.Triple.{
  Pred, Triple, follow, given, pure_lem, gets_lem, lift_lem, modify_lem, emit_lem, when_lem,
}
use multi_agent_orchestrator.Phases.Retry.{count_failure}
use multi_agent_orchestrator.Monitor.Probe.{ProbeSignals, ProbeEnv}
use multi_agent_orchestrator.Monitor.Contract.{
  soft_success_allowed, claude_error, of_match, service_cap_match, warn_once, diagnostic,
  detect_provider_error,
}
use multi_agent_orchestrator.Monitor.Verdicts.{CapOnly}
use multi_agent_orchestrator.Monitor.Route.{
  release_lock, collect_state, finish_attempt, fail_attempt, finalizing_over,
  terminate_active_child, route,
}
use multi_agent_orchestrator.Run.Core.{Core, core, to, retried, Ended}
use multi_agent_orchestrator.Run.Moves.{Is, Keeps, Keeps-then, Keeps-modify, Keeps-when}

-- The core, and the artifacts that the last probe saw.
abbrev pub Seen : Core → List (String × Bool) → OrchestratorCtx → Type 0
Seen k artifacts c = (core c ≡ k) × (c.artifact_map ≡ artifacts)

abbrev pub AfterRound : AgentRole → Core → Bool → OrchestratorCtx → Type 0
AfterRound role k true c = Ended (collect_state role) k (core c)
AfterRound role k false c = core c ≡ k

module _ (k : Core) (artifacts : List (String × Bool)) where
  abbrev Finds : Exec (Option ProviderErrorMatch) → Type 0
  Finds m = Triple (Seen k artifacts) m (λ e c. Seen k artifacts c × CapOnly e) (Is k)

  match_of_signal : (signal : Option (String × String)) → CapOnly (service_cap_match signal)
  match_of_signal none = tt
  match_of_signal (some (pattern, fragment)) = refl

  claude-Finds : (env : ProbeEnv) (a : AttemptStateData) → Finds (claude_error env a)
  unfolding claude_error
  claude-Finds env a = follow (gets_lem _) λ args.
      follow (gets_lem _)
        λ bound. by_provider args bound (same_provider (provider_of a.role args) claude)
    where
      by_provider :
          (args : CliArgs) (bound : Option String) (b : Bool)
          → Finds (elim b [
            | false ↦ pure none
            | true ↦ elim bound [
              | none ↦ pure none
              | some sid ↦ do
                signal ← lift (env.service_cap_since sid a.dispatch_ts)
                pure (service_cap_match signal)
            ]
          ])
      by_provider args bound false = pure_lem _ (λ c h. (h, tt))
      by_provider args none true = pure_lem _ (λ c h. (h, tt))
      by_provider args (some sid) true =
          follow (lift_lem _ (λ c h. h.0)) λ signal. pure_lem _ (λ c h. (h, match_of_signal signal))

  match-Finds :
      (env : ProbeEnv) (a : AttemptStateData) (m : Option ProviderErrorMatch)
      → Finds (of_match env a m)
  unfolding of_match
  match-Finds env a none = claude-Finds env a
  match-Finds env a (some m) = by_class m.error_class refl
    where
      by_class :
          (x : ProviderErrorClass)
          → m.error_class ≡ x
          → Finds (elim x [
            | service_cap ↦ pure (some m)
            | _ ↦ do modify (warn_once (diagnostic m)); pure none
          ])
      by_class service_cap e = pure_lem _ (λ c h. (h, e))
      by_class permission e = follow (modify_lem _ (λ c h. h)) λ _. pure_lem _ (λ c h. (h, tt))
      by_class auth e = follow (modify_lem _ (λ c h. h)) λ _. pure_lem _ (λ c h. (h, tt))
      by_class transport e = follow (modify_lem _ (λ c h. h)) λ _. pure_lem _ (λ c h. (h, tt))

  -- Whatever the diagnostics say, the only error that the monitor acts on is a service cap.
  pub detect-Finds :
      (env : ProbeEnv) (a : AttemptStateData) (combined : String)
      → Finds (detect_provider_error env a combined)
  unfolding detect_provider_error
  detect-Finds env a combined =
      match-Finds env a (classify_provider_error_with_match env.regex combined)

-- Stopping the child never fails.
pub stop_child_total : (k : Core) {E : Pred} → Triple (Is k) terminate_active_child (λ a. Is k) E
unfolding terminate_active_child
stop_child_total k =
    follow (gets_lem _) λ spawned. when_lem spawned _ (emit_lem {Q = Is k} _ (λ c h. h))

pub stop_child-Keeps : Keeps terminate_active_child
stop_child-Keeps k = stop_child_total k

-- The role's lock is the only thing that `release_lock` changes.
released : (role : AgentRole) (c : OrchestratorCtx) → core (release_lock role c) ≡ core c
released executor c = refl
released reviewer c = refl

finished :
    (role : AgentRole) (c : OrchestratorCtx)
    → core (finish_attempt role true c) ≡ to (collect_state role) (core c)
finished executor c = refl
finished reviewer c = refl

failed : (role : AgentRole) (c : OrchestratorCtx) → core (fail_attempt role c) ≡ retried (core c)
unfolding count_failure
failed executor c = refl
failed reviewer c = refl

-- A soft success whose route the workflow allows ends the attempt with output.
soft_finishes :
    (role : AgentRole) (c : OrchestratorCtx) (k : Core) (artifacts : List (String × Bool))
    → Seen k artifacts c
    → soft_success_allowed k.args.workflow_type artifacts ≡ true
    → core (finish_attempt role (soft_success_allowed c.args.workflow_type c.artifact_map) c)
      ≡ to (collect_state role) k
soft_finishes role c k artifacts h e =
    let allowed : soft_success_allowed c.args.workflow_type c.artifact_map ≡ true =
      ap (λ (x : Core). soft_success_allowed x.args.workflow_type c.artifact_map) h.0
      ∙ (ap (soft_success_allowed k.args.workflow_type) h.1 ∙ e) in
    rw allowed (finished role c ∙ ap (to (collect_state role)) h.0)

module _ (role : AgentRole) (a : AttemptStateData) (s : ProbeSignals)
    (error : Option ProviderErrorMatch) (now : ℕ) (k : Core) where
  abbrev Routes : AttemptState → Type 0
  Routes v = Triple (Seen k s.artifact_map) (route role a s error now v) (AfterRound role k) (Is k)

  retries :
      (v : AttemptState)
      → route role a s error now v ≡ (modify (fail_attempt role) >> pure true)
      → Routes v
  retries v e = rw e (
      follow
        (modify_lem {Q = AfterRound role k true} _
          (λ c h. inr (inl (failed role c ∙ ap retried h.0))))
        λ _. pure_lem _ (λ c h. h))

  pub routes :
      (v : AttemptState)
      → v ≢ AttemptState.failed_provider_access
      → (v ≡ AttemptState.soft_success
          → soft_success_allowed k.args.workflow_type s.artifact_map ≡ true)
      → Routes v
  unfolding route
  routes AttemptState.success n f =
      follow
        (modify_lem {Q = AfterRound role k true} _
          (λ c h. inl (finished role _ ∙ ap (to (collect_state role)) h.0)))
        (λ _. pure_lem _ (λ c h. h))
  routes AttemptState.soft_success n f =
      follow
        (modify_lem {Q = AfterRound role k true} _
          (λ c h. inl (soft_finishes role _ k s.artifact_map h (f refl))))
        (λ _. pure_lem _ (λ c h. h))
  routes AttemptState.failed_service_cap n f =
      follow
        (modify_lem {Q = AfterRound role k true} _ (λ c h.
          inr (inr (inl (ap (to RunState.run_failed_service_cap) (released role c ∙ h.0))))))
        (λ _. pure_lem _ (λ c h. h))
  routes AttemptState.failed_provider_access n f = absurd (n refl)
  routes AttemptState.failed_transport n f = retries AttemptState.failed_transport refl
  routes AttemptState.failed_silent n f = retries AttemptState.failed_silent refl
  routes AttemptState.failed_protocol n f = retries AttemptState.failed_protocol refl
  routes AttemptState.hang_confirmed n f = follow (modify_lem {Q = Is k} _ (λ c h. h.0)) λ _.
      follow (stop_child-Keeps k) λ _.
        follow
          (modify_lem {Q = AfterRound role k true} _
            (λ c h. inr (inl (failed role c ∙ ap retried h))))
          (λ _. pure_lem _ (λ c h. h))
  routes AttemptState.finalizing n f =
      follow
        (given (λ c h. h.0)
          (Keeps-when (finalizing_over a s now) _
            (Keeps-then stop_child-Keeps λ _. Keeps-modify _ (λ c. refl)) k))
        (λ _. pure_lem _ (λ c h. h))
  routes AttemptState.cancelled n f = follow (given (λ c h. h.0) (stop_child-Keeps k)) λ _.
      follow
        (modify_lem {Q = AfterRound role k true} _
          (λ c h. inr (inr (inr (ap (to RunState.run_aborted) (released role c ∙ h))))))
        (λ _. pure_lem _ (λ c h. h))
  routes AttemptState.dispatching n f = pure_lem _ (λ c h. h.0)
  routes AttemptState.running n f = pure_lem _ (λ c h. h.0)
  routes AttemptState.waiting_output n f = pure_lem _ (λ c h. h.0)
  routes AttemptState.unknown n f = pure_lem _ (λ c h. h.0)
  routes AttemptState.terminating_stale n f = pure_lem _ (λ c h. h.0)
  routes AttemptState.retry_pending n f = pure_lem _ (λ c h. h.0)
  routes AttemptState.retry_exhausted n f = pure_lem _ (λ c h. h.0)
