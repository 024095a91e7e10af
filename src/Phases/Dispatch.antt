-- ===== src/Phases/Dispatch.antt =====
-- src/orchestrator/phases.rs, EXECUTOR_DISPATCH and REVIEWER_DISPATCH.
use multi_agent_orchestrator.Prelude.{none, some}
use multi_agent_orchestrator.State.{AgentRole, executor, reviewer, RunState}
use multi_agent_orchestrator.Context.{provider_of, model_of, session_id, spawn_provider}
use multi_agent_orchestrator.Context.Exec.{Exec, ◌>>=◌, ◌>>◌, lift, gets, modify, emit, require}
use multi_agent_orchestrator.Phases.Start.{phase_separator_wait}
use multi_agent_orchestrator.Phases.Request.{
  DispatchEnv, not_bound, template_id, new_attempt, prepare_request,
}

unfoldable pub dispatch_role : DispatchEnv → AgentRole → Exec (Unit {0})
dispatch_role env role = do
  bound ← gets (session_id role)
  sid ← require bound (not_bound role)
  template ← gets (template_id role)
  (mtime, status_hash, status_set, head_hash, fingerprint) ← prepare_request env role sid
  args ← gets (λ c. c.args)
  inbox ← lift (env.snapshot role (provider_of role args) sid)
  modify (λ c. record c { last_inbox_snapshot = inbox })
  process ← lift (env.spawn (provider_of role args) sid (model_of role args))
  emit (spawn_provider role template)
  modify λ c. record c {
    attempt =
        some (
          new_attempt role env.now process.child fingerprint mtime status_hash status_set
            head_hash);
    active_process = some process;
    current_role = some role;
    last_provider_action = none;
    last_provider_action_ts = none;
  }

unfoldable pub do_executor_dispatch : DispatchEnv → Exec (Unit {0})
do_executor_dispatch env = do
  dispatch_role env executor
  modify (λ c. record c { run_state = RunState.executor_monitor })
  phase_separator_wait

unfoldable pub do_reviewer_dispatch : DispatchEnv → Exec (Unit {0})
do_reviewer_dispatch env = do
  dispatch_role env reviewer
  modify (λ c. record c { run_state = RunState.reviewer_monitor })
  phase_separator_wait
