-- ===== src/Run/Moves/Monitor.antt =====
-- The monitor ends an attempt in one of four ways, and changes nothing else of the core.
use multi_agent_orchestrator.Prelude.{
  ◌≡◌, ◌∙◌, sym, refl, ap, inr, ℕ, Bool, true, false, String, List, [], ◌∷◌, Option, none, some,
  map_option, unwrap_or, is_some, str_eq, if◌then◌else◌,
}
use multi_agent_orchestrator.State.{AgentRole, RunState}
use multi_agent_orchestrator.Context.{AttemptStateData, OrchestratorCtx}
use multi_agent_orchestrator.Context.Triple.{
  Triple, follow, pure_lem, gets_lem, lift_lem, modify_lem, when_lem, pull, gets_to,
}
use multi_agent_orchestrator.Phases.Retry.{update_attempt}
use multi_agent_orchestrator.Monitor.Probe.{
  ProbeSignals, ProbeEnv, note_exit, note_dirty, note_commit,
}
use multi_agent_orchestrator.Monitor.Verdicts.{
  build_snapshot-no_access, build_snapshot-soft_success,
}
use multi_agent_orchestrator.Monitor.Observe.{note_action}
use multi_agent_orchestrator.Monitor.Loop.{
  note_commits, unwrap, abort, observe, read_provider_diagnostics, probe, round, do_monitor,
}
use multi_agent_orchestrator.Run.Core.{Core, core, to}
use multi_agent_orchestrator.Run.Moves.{Is, Keeps-lift, Keeps-gets, Keeps-require}
use multi_agent_orchestrator.Run.Moves.Routes.{
  Seen, AfterRound, detect-Finds, stop_child_total, routes,
}

note_exit_keeps : (x : Option (Option ℕ)) (c : OrchestratorCtx) → core (note_exit x c) ≡ core c
unfolding note_exit
note_exit_keeps none c = refl
note_exit_keeps (some code) c = by_process (is_some c.active_process)
  where
    by_process :
        (b : Bool)
        → core (if b then update_attempt (λ a. record a { exit_code = code; pid = none }) c else c)
          ≡ core c
    by_process true = refl
    by_process false = refl

-- The core and the artifacts are those of another context.
abbrev SameView : OrchestratorCtx → OrchestratorCtx → Type 0
SameView d c = (core d ≡ core c) × (d.artifact_map ≡ c.artifact_map)

note_action_keeps :
    (x : Option String) (now : ℕ) (c : OrchestratorCtx) → SameView (note_action x now c) c
unfolding note_action
note_action_keeps none now c = (refl, refl)
note_action_keeps (some curr) now c =
    by_same (unwrap_or false (map_option (λ prev. str_eq prev curr) c.last_provider_action))
  where
    by_same :
        (b : Bool)
        → SameView
            (if b then c else record c {
              last_provider_action = some curr;
              last_provider_action_ts = some now;
            })
            c
    by_same true = (refl, refl)
    by_same false = (refl, refl)

module _ (k : Core) where
  abbrev Observed : AttemptStateData × AttemptStateData × ProbeSignals → OrchestratorCtx → Type 0
  Observed (a, b, s) c = Seen k s.artifact_map c

  unwrap_keeps :
      (o : Option AttemptStateData) (artifacts : List (String × Bool))
      → Triple (Seen k artifacts) (unwrap o) (λ a. Seen k artifacts) (Is k)
  unfolding unwrap
  unwrap_keeps none artifacts = lift_lem _ (λ c h. h.0)
  unwrap_keeps (some a) artifacts = pure_lem _ (λ c h. h)

  observe_sees :
      (env : ProbeEnv) (role : AgentRole) → Triple (Is k) (observe env role) Observed (Is k)
  unfolding observe note_commits note_dirty note_commit
  observe_sees env role =
      follow (modify_lem {Q = Is k} _ (λ c h. note_exit_keeps env.exited c ∙ h)) λ _.
        follow (Keeps-gets _ k) λ attempt. follow (Keeps-gets _ k) λ bound.
          follow (Keeps-require _ _ k) λ sid. follow (Keeps-lift _ k) λ s.
            follow (modify_lem {Q = Seen k s.artifact_map} _ (λ c h. (h, refl))) λ _.
              follow (unwrap_keeps attempt s.artifact_map) λ a.
                follow (when_lem _ _ (modify_lem {Q = Seen k s.artifact_map} _ (λ c h. h))) λ _.
                  follow
                    (when_lem _ _ (
                      follow (lift_lem _ (λ c h. h.0))
                        λ raw. modify_lem {Q = Seen k s.artifact_map} _ (λ c h. h)))
                    λ _.
                      follow (modify_lem {Q = Seen k s.artifact_map} _ (λ c h. h))
                        λ _. pure_lem _ (λ c h. h)

  diagnostics_keep :
      (env : ProbeEnv) (artifacts : List (String × Bool))
      → Triple (Seen k artifacts) (read_provider_diagnostics env) (λ a. Seen k artifacts) (Is k)
  unfolding read_provider_diagnostics
  diagnostics_keep env artifacts = follow (gets_lem _) λ spawned. lift_lem _ (λ c h. h.0)

  -- The verdict is routed in a context with the workflow and the artifacts that it was made from.
  probe_moves :
      (env : ProbeEnv) (role : AgentRole)
      → Triple (Is k) (probe env role) (AfterRound role k) (Is k)
  unfolding probe
  probe_moves env role = follow (observe_sees env role) λ (a, b, s).
      follow (diagnostics_keep env s.artifact_map) λ (stdout, stderr).
        follow (detect-Finds k s.artifact_map env b _) λ error. pull λ cap.
          follow
            (gets_to (λ c. c.args.workflow_type)
              (λ c h. ap (λ (x : Core). x.args.workflow_type) (sym h.0)))
            λ workflow. pull λ same.
              follow (modify_lem {Q = Seen k s.artifact_map} _ (λ c h. h)) λ _.
                follow
                  (modify_lem {Q = Seen k s.artifact_map} _ (λ c h. (
                    (note_action_keeps _ env.now c).0 ∙ h.0,
                    (note_action_keeps _ env.now c).1 ∙ h.1,
                  )))
                  λ _. follow (modify_lem {Q = Seen k s.artifact_map} _ (λ c h. h)) λ _.
                    routes role b s error env.now k _
                      (build_snapshot-no_access env role workflow b s _ _ error cap)
                      (λ e.
                        rw (← same) at
                          (build_snapshot-soft_success env role workflow b s _ _ error e))

  abort_moves : (role : AgentRole) → Triple (Is k) abort (AfterRound role k) (Is k)
  unfolding abort
  abort_moves role =
      follow
        (modify_lem {Q = Is (to RunState.run_aborted k)} _ (λ c h. ap (to RunState.run_aborted) h))
        λ _.
          follow (stop_child_total (to RunState.run_aborted k))
            λ _. pure_lem _ (λ c h. inr (inr (inr h)))

  round_moves :
      (env : ProbeEnv) (role : AgentRole)
      → Triple (Is k) (round env role) (AfterRound role k) (Is k)
  unfolding round
  round_moves env role = by_flags env.cancelled_before env.cancelled_after
    where
      by_flags :
          (b d : Bool)
          → Triple
              (Is k)
              (elim b [ true ↦ abort | false ↦ elim d [ true ↦ abort | false ↦ probe env role ] ])
              (AfterRound role k)
              (Is k)
      by_flags true d = abort_moves role
      by_flags false true = abort_moves role
      by_flags false false = probe_moves env role

  -- An attempt ends in the collection of its output, in a counted failure, by a service cap or by
  -- cancellation; while it is waited for, or when a probe stops, the core is as it was.
  pub monitor_moves :
      (envs : List ProbeEnv) (role : AgentRole)
      → Triple (Is k) (do_monitor envs role) (AfterRound role k) (Is k)
  unfolding do_monitor
  monitor_moves [] role = pure_lem _ (λ c h. h)
  monitor_moves (env ∷ envs) role =
      follow (round_moves env role)
        (elim [ true ↦ pure_lem _ (λ c h. h) | false ↦ monitor_moves envs role ])
