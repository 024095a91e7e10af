-- ===== src/Run/Invariant.antt =====
-- Invariants of the run's loop (`run` in src/orchestrator/mod.rs) from invariants of its steps.
use multi_agent_orchestrator.Prelude.{
  String, ◌≡◌, ◌∙◌, refl, ap, ◌⊎◌, inl, inr, Bool, true, false, not, ◌&&◌, none, List, [], ◌∷◌,
  if◌then◌else◌,
}
use multi_agent_orchestrator.State.{RunState, is_terminal}
use multi_agent_orchestrator.Errors.{OrchestratorError, Result, ok, err, panic}
use multi_agent_orchestrator.Context.{CliArgs, OrchestratorCtx, new}
use multi_agent_orchestrator.Context.Exec.{when, fail}
use multi_agent_orchestrator.Context.Triple.{
  Ends, Triple, follow, modify_lem, when_lem, fail_lem, gets_lem, lift_lem,
}
use multi_agent_orchestrator.Phases.Inputs.{InputsEnv, set_workspace_root, validate_inputs}
use multi_agent_orchestrator.Run.Core.{Core, core, to, Moved, Stopped}
use multi_agent_orchestrator.Run.Steps.{AfterStep, step-Moved}
use multi_agent_orchestrator.Run.{
  StepEnv, error_to_run_state, step, Outcome, on_error, check_cancel, loop_after, loop_at, run_loop,
  RunEnv, with_models, run_validated, run,
}

-- What holds of the core at the start of an iteration, with what each step and each way to stop
-- does to it.
pub record Invariant : Type 1 where
  pub Holds : Core → Type 0
  pub moves : (x y : Core) → is_terminal x.state ≡ false → Holds x → Moved x.state x y → Holds y
  pub fails :
      (x y : Core) (e : OrchestratorError)
      → is_terminal x.state ≡ false
      → Holds x
      → Stopped x y
      → Holds (to (error_to_run_state e) y)
  pub aborts : (x : Core) → Holds x → Holds (to RunState.run_aborted x)

-- An outcome in which the run has ended.
abbrev pub AtEnd : (Core → Type 0) → Outcome × OrchestratorCtx → Type 0
AtEnd H (Outcome.finished, c) = H (core c) × (is_terminal c.run_state ≡ true)
AtEnd H (Outcome.waiting, c) = Unit
AtEnd H (Outcome.panicked, c) = Unit

core-on_error :
    (e : OrchestratorError) (c : OrchestratorCtx)
    → is_terminal c.run_state ≡ false
    → core (on_error e c) ≡ to (error_to_run_state e) (core c)
unfolding on_error
core-on_error e c h = rw h refl

module _ (inv : Invariant) where
  cancel_holds :
      (b : Bool) (c : OrchestratorCtx) → inv.Holds (core c) → inv.Holds (core (check_cancel b c))
  unfolding check_cancel
  cancel_holds b c h = by_test (b && not (is_terminal c.run_state))
    where
      by_test :
          (t : Bool)
          → inv.Holds (core (if t then record c { run_state = RunState.run_aborted } else c))
      by_test true = inv.aborts (core c) h
      by_test false = h

  after_holds :
      (r : Result Bool) (next : OrchestratorCtx → Outcome × OrchestratorCtx) (x : Core)
      (d : OrchestratorCtx)
      → ((c : OrchestratorCtx) → inv.Holds (core c) → AtEnd inv.Holds (next c))
      → is_terminal x.state ≡ false
      → inv.Holds x
      → Ends (AfterStep x.state x) (λ d. Stopped x (core d)) r d
      → AtEnd inv.Holds (loop_after r next d)
  after_holds (ok true) next x d n t h m = n d (inv.moves x (core d) t h m)
  after_holds (ok false) next x d n t h m = tt
  after_holds (err e) next x d n t h m =
      let running : is_terminal d.run_state ≡ false =
        ap (λ (y : Core). is_terminal y.state) m.1 ∙ t in
      n (on_error e d) (rw (core-on_error e d running) (inv.fails x (core d) e t h m))
  after_holds panic next x d n t h m = tt

  pub loop_holds :
      (es : List StepEnv) (c : OrchestratorCtx)
      → inv.Holds (core c)
      → AtEnd inv.Holds (run_loop es c)
  unfolding run_loop
  loop_holds [] c h = at_once (is_terminal c.run_state) refl
    where
      at_once :
          (b : Bool)
          → is_terminal c.run_state ≡ b
          → AtEnd inv.Holds (if b then Outcome.finished else Outcome.waiting, c)
      at_once true e = (h, e)
      at_once false e = tt
  loop_holds (e ∷ es) c h =
      by_state (check_cancel e.cancelled c) (cancel_holds e.cancelled c h)
        (is_terminal (check_cancel e.cancelled c).run_state) refl (λ d. loop_holds es d)
    where
      by_state :
          (d : OrchestratorCtx)
          → inv.Holds (core d)
          → (b : Bool) → is_terminal d.run_state ≡ b
          → ((d : OrchestratorCtx) → inv.Holds (core d) → AtEnd inv.Holds (run_loop es d))
          → AtEnd inv.Holds (loop_at b (step e d) (run_loop es) d)
      by_state d h true t rest = (h, t)
      by_state d h false t rest =
          after_holds (step e d).0 (run_loop es) (core d) (step e d).1 rest t h (step-Moved e d)

-- A run that has just been set up: no verdict, no failure.
abbrev Fresh : OrchestratorCtx → Type 0
Fresh c = (c.review_result ≡ none) × (c.consecutive_failure_count ≡ 0)

must_be_keeps :
    (b : Bool) (e : OrchestratorError) → Triple Fresh (when b (fail e)) (λ u. Fresh) Fresh
must_be_keeps b e = when_lem b _ (fail_lem e (λ c h. h))

inputs-Fresh : (env : InputsEnv) → Triple Fresh (validate_inputs env) (λ u. Fresh) Fresh
unfolding validate_inputs
inputs-Fresh env = follow (gets_lem _) λ args. follow (must_be_keeps _ _) λ _.
    follow (must_be_keeps _ _) λ _. follow (must_be_keeps _ _) λ _.
      follow (lift_lem _ (λ c h. h)) λ _. follow (lift_lem _ (λ c h. h)) λ _.
        follow (must_be_keeps _ _) λ _.
          follow (root_fresh (env.canonicalize args.workspace_root))
            λ _. follow (gets_lem _) λ root. must_be_keeps _ _
  where
    root_fresh : (p : String ⊎ String) → Triple Fresh (set_workspace_root p) (λ u. Fresh) Fresh
    root_fresh (inl canonical) = modify_lem _ (λ c h. h)
    root_fresh (inr e) = fail_lem _ (λ c h. h)

abbrev start : RunState → CliArgs → Core
start s args = record { state = s; verdict = none; args = args; failures = 0 }

start-core :
    (s : RunState) (c : OrchestratorCtx)
    → Fresh c
    → core (record c { run_state = s }) ≡ start s c.args
start-core s c h = rw (h.0, h.1) refl

module _ (inv : Invariant) (begin : (args : CliArgs) → inv.Holds (start RunState.context_prep args))
    (refuse : (args : CliArgs) → inv.Holds (start RunState.run_failed_invalid_input args)) where
  models_hold :
      (r : Result (Unit {0})) (steps : List StepEnv) (c : OrchestratorCtx)
      → Fresh c
      → AtEnd inv.Holds (with_models r steps c)
  unfolding is_terminal
  models_hold (ok u) steps c h =
      loop_holds inv steps _ (rw (start-core RunState.context_prep c h) (begin c.args))
  models_hold (err e) steps c h =
      (rw (start-core RunState.run_failed_invalid_input c h) (refuse c.args), refl)
  models_hold panic steps c h = tt

  validated_holds :
      (r : Result (Unit {0})) (c : OrchestratorCtx) (env : RunEnv)
      → Ends (λ u. Fresh) Fresh r c
      → AtEnd inv.Holds (run_validated (r, c) env)
  validated_holds (ok u) c env h = models_hold env.models env.steps c h
  validated_holds (err e) c env h = models_hold (err e) env.steps c h
  validated_holds panic c env h = tt

  pub run_holds : (env : RunEnv) (args : CliArgs) → AtEnd inv.Holds (run env args)
  unfolding run new
  run_holds env args =
      validated_holds (validate_inputs env.inputs (new args)).0
        (validate_inputs env.inputs (new args)).1 env
        ((inputs-Fresh env.inputs).at (new args) (refl, refl))
