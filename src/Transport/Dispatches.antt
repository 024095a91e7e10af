-- ===== src/Transport/Dispatches.antt =====
-- `dispatch_role` of src/orchestrator/phases.rs over the transport files of src/transport.rs.
use multi_agent_orchestrator.Prelude.{◌≡◌, ap, ◌∙◌, sym, String, List}
use multi_agent_orchestrator.State.{AgentRole, TemplateId}
use multi_agent_orchestrator.Errors.{ok}
use multi_agent_orchestrator.Context.{
  OrchestratorCtx, Effect, lock_session, reset_files, write_inbox, spawn_provider, provider_of,
}
use multi_agent_orchestrator.Phases.Request.{DispatchEnv, template_id, verify_previous}
use multi_agent_orchestrator.Phases.Dispatch.{dispatch_role}
use multi_agent_orchestrator.Phases.Order.{log, dispatch_role-Dispatched}
use multi_agent_orchestrator.Transport.{
  Disk, DiskEnv, reset_transport, write_request, verify_request_fingerprint,
}
use multi_agent_orchestrator.Transport.Requests.{
  InboxIs, verify_request_fingerprint_iff, write_request-eq-ok,
}

module _ (env : DiskEnv) (repo : String) where
  -- The disk that a request is written to, when the dispatch started at `d`.
  abbrev reset_disk : AgentRole → Disk → Disk
  reset_disk role d = (reset_transport env repo role (env.meanwhile d)).1

  -- A dispatch's calls of the transport, when it starts at `d`.
  abbrev pub over_disk : AgentRole → Disk → DispatchEnv → DispatchEnv
  over_disk role d base = record base {
    verify = λ fingerprint. (verify_request_fingerprint env repo fingerprint d).0;
    reset = λ role. (reset_transport env repo role (env.meanwhile d)).0;
    write = λ prompt. (write_request env repo prompt (env.meanwhile (reset_disk role d))).0;
  }

  -- The disk after the request.
  abbrev pub sent_disk : AgentRole → Disk → String → Disk
  sent_disk role d prompt = (write_request env repo prompt (env.meanwhile (reset_disk role d))).1

  -- What the inbox has at `later` is by its digest what the last request of `c` left there.
  abbrev pub InboxKept : AgentRole → Disk → OrchestratorCtx → Disk → Type 0
  InboxKept role d c later =
      (prompt : String) × (written : String) × (now : String) × (done : List Effect)
      × (template : TemplateId) × (c.effects
          ≡ log (log done (write_inbox prompt)) (spawn_provider role template))
      × InboxIs env repo (sent_disk role d prompt) written
      × InboxIs env repo later now
      × (env.sha256_hex now ≡ env.sha256_hex written)

  -- Two dispatches in a row over the transport files: where both return and the second one starts
  -- with the attempt that the first one left, the inbox at the start of the second one has, by its
  -- digest, what the first one's request had left there.
  pub dispatch_role-InboxKept :
      (base base' : DispatchEnv) (role role' : AgentRole) (d later : Disk) (c c' : OrchestratorCtx)
      → (dispatch_role (over_disk role d base) role c).0 ≡ ok tt
      → c'.attempt ≡ (dispatch_role (over_disk role d base) role c).1.attempt
      → (dispatch_role (over_disk role' later base') role' c').0 ≡ ok tt
      → InboxKept role d (dispatch_role (over_disk role d base) role c).1 later
  dispatch_role-InboxKept base base' role role' d later c c' first kept second =
      let (
        sid, prompt, fingerprint, process, attempt, bound, called, spawned, effects, is, names, pid,
      ) =
        dispatch_role-Dispatched (over_disk role d base) role c first in
      let passed = (dispatch_role-Dispatched (over_disk role' later base') role' c' second).6.1 in
      let (locked, verified, emptied, of_prompt, wrote) = called in
      let (written, there, same, disk) =
        write_request-eq-ok env repo prompt fingerprint (env.meanwhile (reset_disk role d)) wrote in
      let (now, here, equal) =
        (verify_request_fingerprint_iff env repo attempt.request_fingerprint later).0
          (sym (ap (verify_previous (over_disk role' later base')) (kept ∙ is)) ∙ passed) in
      (
        prompt,
        written,
        now,
        log (log c.effects (lock_session role (provider_of role c.args) sid)) (reset_files role),
        template_id role c,
        effects,
        there,
        here,
        equal ∙ names ∙ sym same,
      )
