-- ===== src/Phases/Order.antt =====
-- The order in which a dispatch (`dispatch_role` in src/orchestrator/phases.rs) acts on the outside.
use multi_agent_orchestrator.Prelude.{
  ◌≡◌, refl, ap, sym, ◌∙◌, false, none, some, String, List, [], ◌∷◌, ◌++◌,
}
use multi_agent_orchestrator.State.{AgentRole, executor, reviewer}
use multi_agent_orchestrator.Errors.{ok}
use multi_agent_orchestrator.Context.{
  AttemptStateData, DispatchedProcess, OrchestratorCtx, Effect, lock_session, reset_files,
  write_inbox, spawn_provider, provider_of, model_of, session_id,
}
use multi_agent_orchestrator.Context.Exec.{modify, emit}
use multi_agent_orchestrator.Context.Triple.{
  Ends-ok, Triple, follow, follow_known, pull, pure_lem, gets_lem, gets_is, lift_lem, lift_is,
  require_is, modify_lem, emit_lem, when_lem,
}
use multi_agent_orchestrator.Phases.Request.{
  DispatchEnv, TemplateValues, capture_baseline, template_id, template_values,
  build_template_values, reset_attempt_git_telemetry, hold_lock, prepare_request, verify_previous,
  new_attempt,
}
use multi_agent_orchestrator.Phases.Dispatch.{dispatch_role}

-- One more effect.
abbrev pub log : List Effect → Effect → List Effect
log done x = done ++ x ∷ []

abbrev Any : OrchestratorCtx → Type 0
Any c = Unit

-- The context without the fields that a dispatch writes before the process is spawned.
abbrev still : OrchestratorCtx → OrchestratorCtx
still c = record c {
  effects = [];
  executor_lock = false;
  reviewer_lock = false;
  pre_reviewer_git_status = none;
  dirty_file_touch_counts = [];
  committed_file_touch_counts = [];
  last_dirty_files_count = 0;
  committed_files_seen_count = 0;
  last_inbox_snapshot = none;
}

-- The prompt of a dispatch that starts in `c`: of the template and with the values of that context.
abbrev pub PromptOf : DispatchEnv → AgentRole → OrchestratorCtx → String → Type 0
PromptOf env role c prompt =
    (git_facts : String) × (env.git_facts c.initial_git_head ≡ ok git_facts)
    × (prompt ≡ env.render_template (template_id role c) (template_values env role c git_facts))

-- The calls before the spawn, for the session `sid`, each of which returned.
abbrev pub Called : DispatchEnv → AgentRole → OrchestratorCtx → String → String → String → Type 0
Called env role c sid prompt fingerprint =
    (env.lock (provider_of role c.args) sid ≡ ok tt)
    × (verify_previous env c.attempt ≡ ok tt)
    × (env.reset role ≡ ok tt)
    × PromptOf env role c prompt
    × (env.write prompt ≡ ok fingerprint)

-- The lock is taken, then the transport files are reset, then the request is written.
abbrev prepared_log : OrchestratorCtx → AgentRole → String → String → List Effect
prepared_log c role sid prompt =
    log (log (log c.effects (lock_session role (provider_of role c.args) sid)) (reset_files role))
      (write_inbox prompt)

-- What a dispatch from `c` leaves: it was of the role's own session and of the prompt of `c`.
abbrev pub Dispatched : DispatchEnv → AgentRole → OrchestratorCtx → OrchestratorCtx → Type 0
Dispatched env role c after =
    (sid : String) × (prompt : String) × (fingerprint : String) × (process : DispatchedProcess)
    × (attempt : AttemptStateData) × (session_id role c ≡ some sid)
    × Called env role c sid prompt fingerprint
    × (env.spawn (provider_of role c.args) sid (model_of role c.args) ≡ ok process)
    × (after.effects
        ≡ log (prepared_log c role sid prompt) (spawn_provider role (template_id role c)))
    × (after.attempt ≡ some attempt)
    × (attempt.request_fingerprint ≡ fingerprint)
    × (attempt.pid ≡ process.child)

module _ (env : DispatchEnv) (role : AgentRole) (c0 : OrchestratorCtx) where
  -- What has been done is `done`, and the rest of the context is that of the start.
  abbrev Did : List Effect → OrchestratorCtx → Type 0
  Did done c = (c.effects ≡ done) × (still c ≡ still c0)

  baseline-Did :
      (r : AgentRole) (done : List Effect)
      → Triple (Did done) (capture_baseline env r) (λ a. Did done) Any
  unfolding capture_baseline
  baseline-Did executor done = pure_lem _ (λ c h. h)
  baseline-Did reviewer done = follow (lift_lem _ (λ c h. tt)) λ mtime. follow (gets_lem _) λ fresh.
      follow
        (when_lem _ _
          (follow (lift_lem _ (λ c h. tt)) λ status. modify_lem {Q = Did done} _ (λ c h. h)))
        λ _. pure_lem _ (λ c h. h)

  -- The values are those of the start.
  abbrev ValuesOf : TemplateValues → Type 0
  ValuesOf values =
      (git_facts : String) × (env.git_facts c0.initial_git_head ≡ ok git_facts)
      × (values ≡ template_values env role c0 git_facts)

  values-Did :
      (done : List Effect)
      → Triple (Did done) (build_template_values env role) (λ v c. Did done c × ValuesOf v) Any
  unfolding build_template_values template_values
  values-Did done = follow (gets_is _) λ c. follow (lift_is _ (λ d h. tt)) λ git_facts.
      pure_lem _ (λ d ((h, same), got).
        let start : still c ≡ still c0 = ap still (sym same) ∙ h.1 in
        (
          h,
          (
            git_facts,
            ap (λ e. env.git_facts e.initial_git_head) (sym start) ∙ got,
            ap (λ e. template_values env role e git_facts) start,
          ),
        ))

  hold-Did :
      (r : AgentRole) (done : List Effect)
      → Triple (Did done) (modify (hold_lock r)) (λ a. Did done) Any
  hold-Did executor done = modify_lem _ (λ c h. h)
  hold-Did reviewer done = modify_lem _ (λ c h. h)

  done-Did :
      (done : List Effect) (x : Effect) → Triple (Did done) (emit x) (λ u. Did (log done x)) Any
  done-Did done x = emit_lem _ (λ c h. (ap (λ l. log l x) h.0, h.1))

  abbrev Prepared : String → String → OrchestratorCtx → Type 0
  Prepared sid fingerprint c =
      (prompt : String) × Did (prepared_log c0 role sid prompt) c
      × Called env role c0 sid prompt fingerprint

  abbrev Spawned : String → String → OrchestratorCtx → Type 0
  Spawned sid fingerprint c =
      (prompt : String) × (c.effects
        ≡ log (prepared_log c0 role sid prompt) (spawn_provider role (template_id role c0)))
      × Called env role c0 sid prompt fingerprint

  session_kept :
      (r : AgentRole) (c : OrchestratorCtx) → still c ≡ still c0 → session_id r c0 ≡ session_id r c
  session_kept executor c h = ap (λ d. d.executor_session_id) (sym h)
  session_kept reviewer c h = ap (λ d. d.reviewer_session_id) (sym h)

  template_kept :
      (r : AgentRole) (c : OrchestratorCtx)
      → still c ≡ still c0
      → template_id r c0 ≡ template_id r c
  unfolding template_id
  template_kept executor c h = ap (template_id executor) (sym h)
  template_kept reviewer c h = ap (template_id reviewer) (sym h)

  prepare-Did :
      (sid : String)
      → Triple
          (Did c0.effects)
          (prepare_request env role sid)
          (λ (mtime, status_hash, status_set, head_hash, fingerprint). Prepared sid fingerprint)
          Any
  unfolding prepare_request reset_attempt_git_telemetry template_id
  prepare-Did sid =
      follow_known _ (provider_of role c0.args) (λ c h. ap (λ d. provider_of role d.args) (sym h.1))
        (follow (lift_is _ (λ c h. tt)) λ _. pull λ locked. follow (done-Did _ _) λ _.
          follow (hold-Did role _) λ _.
            follow_known _ c0.attempt (λ c h. ap (λ d. d.attempt) (sym h.1))
              (follow (lift_is _ (λ c h. tt)) λ _. pull λ verified.
                follow (lift_lem _ (λ c h. tt)) λ status_out.
                  follow (lift_lem _ (λ c h. tt)) λ head.
                    follow (modify_lem {Q = Did _} _ (λ c h. h)) λ _.
                      follow (lift_is _ (λ c h. tt)) λ _. pull λ emptied. follow (done-Did _ _) λ _.
                        follow (baseline-Did role _) λ mtime.
                          follow_known _ (template_id role c0) (λ c h. template_kept role c h.1)
                            (follow (values-Did _) λ values. pull λ (git_facts, got, is).
                              follow (lift_is _ (λ c h. tt)) λ fingerprint. pull λ written.
                                follow (done-Did _ _) λ _. pure_lem _ (λ c h. (
                                  env.render_template (template_id role c0) values,
                                  h,
                                  (
                                    locked,
                                    verified,
                                    emptied,
                                    (
                                      git_facts,
                                      got,
                                      ap (env.render_template (template_id role c0)) is,
                                    ),
                                    written,
                                  ),
                                )))))

  dispatch-Did : Triple (Did c0.effects) (dispatch_role env role) (λ a. Dispatched env role c0) Any
  unfolding dispatch_role new_attempt
  dispatch-Did =
      follow_known _ (session_id role c0) (λ c h. session_kept role c h.1)
        (follow (require_is _ _ (λ c h. tt)) λ sid. pull λ bound.
          follow_known _ (template_id role c0) (λ c h. template_kept role c h.1)
            (follow (prepare-Did sid) λ (mtime, status_hash, status_set, head_hash, fingerprint).
              follow_known _ c0.args (λ c h. ap (λ d. d.args) (sym h.1.1))
                (follow (lift_lem _ (λ c h. tt)) λ inbox.
                  follow (modify_lem {Q = Prepared sid fingerprint} _ (λ c h. h)) λ _.
                    follow (lift_is _ (λ c h. tt)) λ process. pull λ spawned.
                      follow
                        (emit_lem {Q = Spawned sid fingerprint} _ (λ c (prompt, h, called). (
                          prompt,
                          ap (λ l. log l (spawn_provider role (template_id role c0))) h.0,
                          called,
                        )))
                        λ _. modify_lem _ (λ c (prompt, is, called). (
                          sid, prompt, fingerprint, process, _, bound, called, spawned, is, refl,
                          refl, refl,
                        )))))

-- A dispatch that succeeds does four things to the outside and no others, in this order: it locks
-- the role's bound session with the role's provider, resets the transport files, writes the prompt
-- that the template and the values of the context give, and spawns the provider for that session.
-- Each of the calls has succeeded, also the check of the previous request, and the attempt keeps
-- the request's fingerprint and the process.
pub dispatch_role-Dispatched :
    (env : DispatchEnv) (role : AgentRole) (c : OrchestratorCtx)
    → (dispatch_role env role c).0 ≡ ok tt
    → Dispatched env role c (dispatch_role env role c).1
dispatch_role-Dispatched env role c e =
    Ends-ok (λ u. Dispatched env role c) Any (dispatch_role env role c).1 e
      ((dispatch-Did env role c).at c (refl, refl))
