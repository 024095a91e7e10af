-- ===== src/Monitor/Loop.antt =====
-- src/orchestrator/monitor.rs, `do_monitor`: the loop over probes.
use multi_agent_orchestrator.Prelude.{
  ℕ, Bool, true, false, Option, none, some, String, List, [], ◌∷◌, is_some, and_then, if◌then◌else◌,
}
use multi_agent_orchestrator.Prelude.Show.{format}
use multi_agent_orchestrator.State.{AgentRole, executor, reviewer, RunState}
use multi_agent_orchestrator.Errors.{ok, panic}
use multi_agent_orchestrator.Env.{run_git}
use multi_agent_orchestrator.Fsm.{classify}
use multi_agent_orchestrator.Context.{AttemptStateData, session_id}
use multi_agent_orchestrator.Context.Exec.{
  Exec, ◌>>=◌, ◌>>◌, pure, lift, gets, modify, require, when,
}
use multi_agent_orchestrator.Phases.Request.{not_bound}
use multi_agent_orchestrator.Monitor.Probe.{
  ProbeEnv, ProbeSignals, note_exit, work_signals_changed, git_committed, has_delta, note_dirty,
  note_commit, persist_baselines, provider_stale,
}
use multi_agent_orchestrator.Monitor.Contract.{
  update_grace_periods, detect_provider_error, build_snapshot,
}
use multi_agent_orchestrator.Monitor.Observe.{phase_hint, note_action, after_probe}
use multi_agent_orchestrator.Monitor.Route.{terminate_active_child, route}
use multi_agent_orchestrator.Git.{trimmed_lines}
use multi_agent_orchestrator.Prelude.{length}

-- `ctx.attempt.as_ref().unwrap()`
unfoldable pub unwrap : Option AttemptStateData → Exec AttemptStateData
unwrap none = lift panic
unwrap (some a) = pure a

abbrev pid_of : Option AttemptStateData → Option ℕ
pid_of attempt = and_then attempt (λ a. a.pid)

-- The files of the commits since the last probe.
unfoldable pub note_commits : ProbeEnv → AttemptStateData → ProbeSignals → Exec (Unit {0})
note_commits env a s = when (git_committed a s) do
  raw ← lift (
      run_git env.git (
        "diff"
        ∷ "--name-status"
        ∷ format (a.prev_probe_git_head_hash ∷ ".." ∷ s.git_head_hash ∷ [])
        ∷ []))
  modify (note_commit raw)

-- The attempt with the new baselines and, for the executor, its grace periods.
unfoldable pub refreshed : AgentRole → ProbeSignals → ℕ → AttemptStateData → AttemptStateData
refreshed executor s now a = update_grace_periods s now (persist_baselines s a)
refreshed reviewer s now a = persist_baselines s a

-- The provider's stdout and stderr; both are empty where no process was spawned.
unfoldable pub read_provider_diagnostics : ProbeEnv → Exec (String × String)
read_provider_diagnostics env = do
  spawned ← gets (λ c. is_some c.active_process)
  lift (if spawned then env.diagnostics else ok ("", ""))

-- What one round collects: the attempt as it was and as it is now, and the signals.
unfoldable pub observe :
    ProbeEnv → AgentRole → Exec (AttemptStateData × AttemptStateData × ProbeSignals)
observe env role = do
  modify (note_exit env.exited)
  attempt ← gets (λ c. c.attempt)
  bound ← gets (session_id role)
  sid ← require bound (not_bound role)
  s ← lift (env.collect (pid_of attempt) sid)
  modify (λ c. record c { artifact_map = s.artifact_map })
  a ← unwrap attempt
  when (has_delta a s) (modify (note_dirty a s))
  note_commits env a s
  let b = refreshed role s env.now a
  modify λ c. record c {
    attempt = some b;
    last_dirty_files_count = length (trimmed_lines s.git_status_short);
  }
  pure (a, b, s)

-- One round after the wait: observe, classify, record, route.
unfoldable pub probe : ProbeEnv → AgentRole → Exec Bool
probe env role = do
  (a, b, s) ← observe env role
  let changed = work_signals_changed a s
  (stdout, stderr) ← read_provider_diagnostics env
  error ← detect_provider_error env b (format (stdout ∷ "\n" ∷ stderr ∷ []))
  workflow ← gets (λ c. c.args.workflow_type)
  let stale = provider_stale b s env.system_now
  let verdict = classify (build_snapshot env role workflow b s changed stale error) env.now
  modify (λ c. record c { last_phase_hint = some (phase_hint s (has_delta a s)) })
  modify (note_action (env.action_tail stdout stderr) env.now)
  modify (λ c. record c { attempt = some (after_probe verdict changed env.now b) })
  route role b s error env.now verdict

unfoldable pub abort : Exec Bool
abort = do
  modify (λ c. record c { run_state = RunState.run_aborted })
  terminate_active_child
  pure true

unfoldable pub round : ProbeEnv → AgentRole → Exec Bool
unfolding abort
round env role = elim env.cancelled_before [
  | true ↦ abort
  | false ↦ elim env.cancelled_after [ true ↦ abort | false ↦ probe env role ]
]

-- The loop over the rounds of one attempt: `true` if the monitor has returned, `false` if it still
-- waits after the given rounds.
unfoldable pub do_monitor : List ProbeEnv → AgentRole → Exec Bool
do_monitor [] role = pure false
do_monitor (env ∷ envs) role = do
  done ← round env role
  elim done [ true ↦ pure true | false ↦ do_monitor envs role ]
