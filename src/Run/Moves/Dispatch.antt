-- ===== src/Run/Moves/Dispatch.antt =====
-- CONTEXT_PREP, SESSION_BIND and the two dispatches move the run to the next state and leave the
-- rest of the core alone.
use multi_agent_orchestrator.Prelude.{String, refl, ap}
use multi_agent_orchestrator.State.{AgentRole, executor, reviewer, RunState}
use multi_agent_orchestrator.Context.Exec.{Exec, modify}
use multi_agent_orchestrator.Context.Triple.{Triple, follow, modify_lem, emit_lem}
use multi_agent_orchestrator.Phases.GitState.{PrepEnv}
use multi_agent_orchestrator.Phases.Start.{BindEnv, do_context_prep, do_session_bind}
use multi_agent_orchestrator.Phases.Request.{
  DispatchEnv, capture_baseline, build_template_values, reset_attempt_git_telemetry, hold_lock,
  prepare_request,
}
use multi_agent_orchestrator.Phases.Dispatch.{
  dispatch_role, do_executor_dispatch, do_reviewer_dispatch,
}
use multi_agent_orchestrator.Run.Core.{Core, to}
use multi_agent_orchestrator.Run.Moves.{
  Is, Keeps, Keeps-then, Keeps-lift, Keeps-pure, Keeps-fail, Keeps-gets, Keeps-require,
  Keeps-modify, Keeps-emit, Keeps-when,
}

-- A phase that sets the state last and otherwise leaves the core alone.
abbrev pub MovesTo : RunState → Exec (Unit {0}) → Type 0
MovesTo s m = (k : Core) → Triple (Is k) m (λ a. Is (to s k)) (Is k)

pub context_prep_moves : (env : PrepEnv) → MovesTo RunState.session_bind (do_context_prep env)
unfolding do_context_prep
context_prep_moves env k = follow (Keeps-gets _ k) λ args. follow (Keeps-lift _ k) λ _.
    follow (Keeps-lift _ k) λ _. follow (Keeps-lift _ k) λ _. follow (Keeps-lift _ k) λ _.
      follow (Keeps-lift _ k) λ _. follow (Keeps-lift _ k) λ _.
        follow (Keeps-lift _ k) λ git_status. follow (Keeps-when _ _ (Keeps-fail _) k) λ _.
          follow (Keeps-lift _ k) λ branch.
            follow (Keeps-lift _ k) λ head. modify_lem _ (λ c h. ap (to RunState.session_bind) h)

pub session_bind_moves : (env : BindEnv) → MovesTo RunState.executor_dispatch (do_session_bind env)
unfolding do_session_bind
session_bind_moves env k = follow (Keeps-gets _ k) λ args. follow (Keeps-lift _ k) λ e.
    follow (Keeps-lift _ k) λ r. follow (Keeps-when _ _ (Keeps-fail _) k) λ _.
      follow (modify_lem _ (λ c h. ap (to RunState.executor_dispatch) h)) λ _. emit_lem _ (λ c h. h)

capture_baseline-Keeps : (env : DispatchEnv) (role : AgentRole) → Keeps (capture_baseline env role)
unfolding capture_baseline
capture_baseline-Keeps env executor = Keeps-pure _
capture_baseline-Keeps env reviewer = Keeps-then (Keeps-lift _) λ mtime.
    Keeps-then (Keeps-gets _) λ fresh.
      Keeps-then (Keeps-when _ _ (Keeps-then (Keeps-lift _) λ s. Keeps-modify _ (λ c. refl)))
        λ _. Keeps-pure _

values_keep : (env : DispatchEnv) (role : AgentRole) → Keeps (build_template_values env role)
unfolding build_template_values
values_keep env role = Keeps-then (Keeps-gets _) λ c. Keeps-then (Keeps-lift _) λ g. Keeps-pure _

hold_lock-Keeps : (role : AgentRole) → Keeps (modify (hold_lock role))
hold_lock-Keeps executor = Keeps-modify _ (λ c. refl)
hold_lock-Keeps reviewer = Keeps-modify _ (λ c. refl)

prepare-Keeps :
    (env : DispatchEnv) (role : AgentRole) (sid : String) → Keeps (prepare_request env role sid)
unfolding prepare_request reset_attempt_git_telemetry
prepare-Keeps env role sid = Keeps-then (Keeps-gets _) λ provider. Keeps-then (Keeps-lift _) λ _.
    Keeps-then (Keeps-emit _) λ _. Keeps-then (hold_lock-Keeps role) λ _.
      Keeps-then (Keeps-gets _) λ prev. Keeps-then (Keeps-lift _) λ _.
        Keeps-then (Keeps-lift _) λ status_out. Keeps-then (Keeps-lift _) λ head.
          Keeps-then (Keeps-modify _ (λ c. refl)) λ _. Keeps-then (Keeps-lift _) λ _.
            Keeps-then (Keeps-emit _) λ _. Keeps-then (capture_baseline-Keeps env role) λ mtime.
              Keeps-then (Keeps-gets _) λ template. Keeps-then (values_keep env role) λ values.
                Keeps-then (Keeps-lift _) λ fingerprint. Keeps-then (Keeps-emit _) λ _. Keeps-pure _

dispatch-Keeps : (env : DispatchEnv) (role : AgentRole) → Keeps (dispatch_role env role)
unfolding dispatch_role
dispatch-Keeps env role = Keeps-then (Keeps-gets _) λ bound. Keeps-then (Keeps-require _ _) λ sid.
    Keeps-then (Keeps-gets _) λ template. Keeps-then (prepare-Keeps env role sid) λ prepared.
      Keeps-then (Keeps-gets _) λ args. Keeps-then (Keeps-lift _) λ inbox.
        Keeps-then (Keeps-modify _ (λ c. refl)) λ _.
          Keeps-then (Keeps-lift _)
            λ process. Keeps-then (Keeps-emit _) λ _. Keeps-modify _ (λ c. refl)

pub executor_dispatch_moves :
    (env : DispatchEnv) → MovesTo RunState.executor_monitor (do_executor_dispatch env)
unfolding do_executor_dispatch
executor_dispatch_moves env k = follow (dispatch-Keeps env executor k) λ _.
    follow (modify_lem _ (λ c h. ap (to RunState.executor_monitor) h)) λ _. emit_lem _ (λ c h. h)

pub reviewer_dispatch_moves :
    (env : DispatchEnv) → MovesTo RunState.reviewer_monitor (do_reviewer_dispatch env)
unfolding do_reviewer_dispatch
reviewer_dispatch_moves env k = follow (dispatch-Keeps env reviewer k) λ _.
    follow (modify_lem _ (λ c h. ap (to RunState.reviewer_monitor) h)) λ _. emit_lem _ (λ c h. h)
