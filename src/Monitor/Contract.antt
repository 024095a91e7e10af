-- ===== src/Monitor/Contract.antt =====
-- src/orchestrator/monitor.rs, the contracts that a probe is checked against, and the snapshot.
use multi_agent_orchestrator.Prelude.{
  ℕ, Bool, true, false, not, ◌&&◌, ◌||◌, Option, none, some, String, List, [], ◌∷◌, ◌++◌, is_none,
  any, str_eq, ltb, leb, if◌then◌else◌, map_option, unwrap_or, or_else,
}
use multi_agent_orchestrator.Prelude.Map
use multi_agent_orchestrator.Prelude.Show.{format}
use multi_agent_orchestrator.Prelude.Text.{trim, is_empty_text}
use multi_agent_orchestrator.Constants.{hang_max_with_work_signals_sec}
use multi_agent_orchestrator.Time.{seconds_since}
use multi_agent_orchestrator.State.{
  AgentRole, executor, reviewer, claude, same_provider, WorkflowType, plan, investigate, implement,
  service_cap, class_debug,
}
use multi_agent_orchestrator.Snapshot.{ProbeSnapshot}
use multi_agent_orchestrator.Errors.{is_ok}
use multi_agent_orchestrator.Signals.{ProviderErrorMatch, classify_provider_error_with_match}
use multi_agent_orchestrator.Review.{YamlLib, parse_reviewer_yaml}
use multi_agent_orchestrator.Grace.{apply_grace_transitions}
use multi_agent_orchestrator.Context.{AttemptStateData, OrchestratorCtx, provider_of, session_id}
use multi_agent_orchestrator.Context.Exec.{Exec, ◌>>=◌, ◌>>◌, pure, lift, gets, modify}
use multi_agent_orchestrator.Monitor.Probe.{ProbeSignals, ProbeEnv}

-- `outbox_meta.map(|m| m.size > 0).unwrap_or(false)`
abbrev pub outbox_written : ProbeSignals → Bool
outbox_written s = unwrap_or false (map_option (λ m. ltb 0 m.size) s.outbox_meta)

-- `m.mtime >= dispatch`, and not empty
abbrev pub outbox_recent : AttemptStateData → ProbeSignals → Bool
outbox_recent a s =
    unwrap_or false (map_option (λ m. leb a.dispatch_ts m.mtime) s.outbox_meta) && outbox_written s

abbrev pub grace_deadline : AttemptStateData → Option ℕ
grace_deadline a = or_else a.grace_until_outbox a.grace_until_commit

abbrev pub has_artifact : String → List (String × Bool) → Bool
has_artifact name artifacts = unwrap_or false (Map.get name artifacts)

-- src/workflow.rs
unfoldable pub soft_success_allowed : WorkflowType → List (String × Bool) → Bool
soft_success_allowed plan artifacts = has_artifact "PLAN.md" artifacts
soft_success_allowed investigate artifacts = has_artifact "INVESTIGATION.md" artifacts
soft_success_allowed implement artifacts = true

unfoldable pub check_success_contract : AttemptStateData → ProbeSignals → AgentRole → Bool
check_success_contract a s executor = is_none a.pid && outbox_written s
check_success_contract a s reviewer = is_none a.pid && outbox_written s

-- The `match` on the workflow.
unfoldable pub soft_success_artifact : WorkflowType → ProbeSignals → Bool
soft_success_artifact plan s = not (outbox_written s) && has_artifact "PLAN.md" s.artifact_map
soft_success_artifact investigate s =
    not (outbox_written s) && has_artifact "INVESTIGATION.md" s.artifact_map
soft_success_artifact implement s = not (outbox_written s)

unfoldable pub check_soft_success_contract :
    WorkflowType → AttemptStateData → ProbeSignals → AgentRole → ℕ → Bool
unfolding soft_success_artifact
check_soft_success_contract w a s reviewer now = false
check_soft_success_contract w a s executor now =
    is_none a.pid
    && unwrap_or false (map_option (λ t. leb t now) (grace_deadline a))
    && soft_success_artifact w s

-- The outbox as it is read: blank or unreadable text is invalid too.
yaml_invalid : YamlLib → Option String → Bool
yaml_invalid lib none = true
yaml_invalid lib (some raw) = is_empty_text (trim raw) || not (is_ok (parse_reviewer_yaml lib raw))

unfoldable pub check_protocol_invalid :
    YamlLib → Option String → AttemptStateData → AgentRole → Bool
unfolding yaml_invalid
check_protocol_invalid lib text a executor = false
check_protocol_invalid lib text a reviewer = is_none a.pid && yaml_invalid lib text

-- `update_grace_periods`, on the attempt.
unfoldable pub update_grace_periods : ProbeSignals → ℕ → AttemptStateData → AttemptStateData
update_grace_periods s now a =
    let (commit, outbox) =
      apply_grace_transitions (not (str_eq s.git_status_hash a.dispatch_git_status_hash))
        (not (str_eq s.git_head_hash a.dispatch_git_head_hash)) (outbox_written s)
        (a.grace_until_commit, a.grace_until_outbox) now in
    record a { grace_until_commit = commit; grace_until_outbox = outbox }

abbrev pub diagnostic : ProviderErrorMatch → String
diagnostic m = format (
    "provider diagnostic (non-fatal): class="
    ∷ class_debug m.error_class
    ∷ " pattern="
    ∷ m.matched_pattern
    ∷ " fragment="
    ∷ m.fragment
    ∷ [])

-- A warning is kept once.
abbrev pub warn_once : String → OrchestratorCtx → OrchestratorCtx
warn_once w c = record c {
  warnings = if any (λ v. str_eq v w) c.warnings then c.warnings else c.warnings ++ w ∷ [];
}

abbrev pub service_cap_match : Option (String × String) → Option ProviderErrorMatch
service_cap_match none = none
service_cap_match (some (pattern, fragment)) =
    some (record { error_class = service_cap; matched_pattern = pattern; fragment = fragment })

-- Of Claude, the session's log is read too, for the attempt's own role.
unfoldable pub claude_error : ProbeEnv → AttemptStateData → Exec (Option ProviderErrorMatch)
claude_error env a = do
  args ← gets (λ c. c.args)
  bound ← gets (session_id a.role)
  elim (same_provider (provider_of a.role args) claude) [
    | false ↦ pure none
    | true ↦ elim bound [
      | none ↦ pure none
      | some sid ↦ do
        signal ← lift (env.service_cap_since sid a.dispatch_ts)
        pure (service_cap_match signal)
    ]
  ]

-- What the text of the diagnostics says: only a service cap is an error, the rest are warnings.
unfoldable pub of_match :
    ProbeEnv → AttemptStateData → Option ProviderErrorMatch → Exec (Option ProviderErrorMatch)
unfolding claude_error
of_match env a none = claude_error env a
of_match env a (some m) = elim m.error_class [
  | service_cap ↦ pure (some m)
  | _ ↦ do modify (warn_once (diagnostic m)); pure none
]

unfoldable pub detect_provider_error :
    ProbeEnv → AttemptStateData → String → Exec (Option ProviderErrorMatch)
unfolding of_match
detect_provider_error env a combined =
    of_match env a (classify_provider_error_with_match env.regex combined)

-- The classifier's input, from the attempt as the probe has left it.
unfoldable pub build_snapshot :
    ProbeEnv
    → AgentRole
    → WorkflowType
    → AttemptStateData
    → ProbeSignals
    → Bool
    → Bool
    → Option ProviderErrorMatch
    → ProbeSnapshot
build_snapshot env role w a s changed stale error = record {
  cancelled = env.cancelled_now;
  process_exited = is_none a.pid;
  process_alive = s.process_alive;
  outbox_present = outbox_recent a s;
  provider_error = map_option (λ m. m.error_class) error;
  success_contract = check_success_contract a s role;
  soft_success_contract = check_soft_success_contract w a s role env.now;
  protocol_invalid = check_protocol_invalid env.yaml env.read_outbox a role;
  provider_activity_after_exit_is_fresh = not stale;
  work_signals_changed = changed;
  last_work_signal_ts = a.last_work_signal_ts;
  provider_stale = stale;
  grace_deadline = grace_deadline a;
  hang_max_with_work_signals_exceeded =
      leb hang_max_with_work_signals_sec (seconds_since env.now a.dispatch_ts);
}
