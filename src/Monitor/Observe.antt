-- ===== src/Monitor/Observe.antt =====
-- src/orchestrator/monitor.rs, what a probe leaves in the context once it is classified.
use multi_agent_orchestrator.Prelude.{
  ℕ, Bool, true, false, Option, none, some, String, leb, str_eq, if◌then◌else◌, map_option,
  unwrap_or,
}
use multi_agent_orchestrator.Constants.{heartbeat_interval_sec, probe_interval_sec}
use multi_agent_orchestrator.Time.{after, wrapped_seconds_since}
use multi_agent_orchestrator.State.{AttemptState}
use multi_agent_orchestrator.Context.{AttemptStateData, OrchestratorCtx}
use multi_agent_orchestrator.Monitor.Probe.{ProbeSignals}
use multi_agent_orchestrator.Monitor.Contract.{outbox_written}

unfoldable pub phase_hint : ProbeSignals → Bool → String
phase_hint s delta =
    if s.has_child_processes
    then "verify_or_build"
    else if delta
    then "editing"
    else if outbox_written s
    then "writing_or_finalizing_outbox"
    else "idle_or_reading"

-- The last command of the provider, with the time at which it was first seen.
unfoldable pub note_action : Option String → ℕ → OrchestratorCtx → OrchestratorCtx
note_action none now c = record c { last_provider_action = none; last_provider_action_ts = none }
note_action (some curr) now c =
    let same = unwrap_or false (map_option (λ prev. str_eq prev curr) c.last_provider_action) in
    let changed = record c {
      last_provider_action = some curr;
      last_provider_action_ts = some now;
    } in
    if same then c else changed

unfoldable pub heartbeat_due : AttemptStateData → ℕ → Bool
heartbeat_due a now =
    unwrap_or true (
      map_option (λ t. leb heartbeat_interval_sec (wrapped_seconds_since now t))
        a.last_heartbeat_ts)

-- The attempt after the probe: its state, the times of work, of the next probe and heartbeat.
unfoldable pub after_probe : AttemptState → Bool → ℕ → AttemptStateData → AttemptStateData
unfolding heartbeat_due
after_probe verdict changed now a = record a {
  state = verdict;
  last_work_signal_ts = if changed then some now else a.last_work_signal_ts;
  next_probe_at = after now probe_interval_sec;
  last_heartbeat_ts = if heartbeat_due a now then some now else a.last_heartbeat_ts;
}
