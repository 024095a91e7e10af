-- ===== src/Phases/Sessions.antt =====
-- The sessions that SESSION_BIND binds (`do_session_bind` in src/orchestrator/phases.rs).
use multi_agent_orchestrator.Prelude.{
  ◌≡◌, refl, subst, ◌≢◌, ◌&&◌, Bool, true, false, String, some, str_eq, eq_iff, arith,
}
use multi_agent_orchestrator.State.{same_provider}
use multi_agent_orchestrator.Errors.{OrchestratorError, Result, ok, err, panic}
use multi_agent_orchestrator.Context.{OrchestratorCtx}
use multi_agent_orchestrator.Context.Exec.{fail, when}
use multi_agent_orchestrator.Context.Triple.{
  Pred, Ends, Triple, follow, given, gets_is, lift_lem, modify_lem, emit_lem,
}
use multi_agent_orchestrator.Phases.Start.{BindEnv, do_session_bind}

-- Where both roles have the same provider, their sessions differ.
abbrev pub Distinct : OrchestratorCtx → Type 0
Distinct c =
    same_provider c.args.executor_provider c.args.reviewer_provider ≡ true
    → c.executor_session_id ≢ c.reviewer_session_id

abbrev Any : Pred
Any c = Unit

-- Past a test that fails on `true`.
when-fail :
    {P : Pred} (b : Bool) (e : OrchestratorError)
    → Triple P (when b (fail e)) (λ u c. P c × (b ≡ false)) Any
unfolding when fail
when-fail true e = record { at = λ c h. tt }
when-fail false e = record { at = λ c h. (h, refl) }

bound_apart : (p : Bool) (e r : String) → (p && str_eq e r) ≡ false → p ≡ true → some e ≢ some r
bound_apart p e r h t s = ground (arith, eq_iff e r)

bind-Distinct : (env : BindEnv) → Triple Any (do_session_bind env) (λ u. Distinct) Any
unfolding do_session_bind
bind-Distinct env = follow (gets_is (λ c. c.args)) λ args.
    follow (given (λ c h. h.1) (lift_lem {P = λ c. c.args ≡ args} _ (λ c h. tt))) λ e.
      follow (lift_lem _ (λ c h. tt)) λ r. follow (when-fail _ _) λ _.
        follow
          (modify_lem {Q = Distinct} _ (λ c h. λ same.
            bound_apart _ e r h.1
              (subst (λ a. same_provider a.executor_provider a.reviewer_provider ≡ true) h.0 same)))
          (λ _. emit_lem _ (λ c h. h))

after_bind :
    (r : Result (Unit {0})) (c : OrchestratorCtx)
    → r ≡ ok tt
    → Ends (λ u. Distinct) Any r c
    → Distinct c
after_bind (ok u) c e h = h
after_bind (err x) c e h = cc
after_bind panic c e h = cc

-- After a successful binding, two roles with the same provider have different sessions.
pub do_session_bind-Distinct :
    (env : BindEnv) (c : OrchestratorCtx)
    → (do_session_bind env c).0 ≡ ok tt
    → Distinct (do_session_bind env c).1
do_session_bind-Distinct env c e =
    after_bind (do_session_bind env c).0 (do_session_bind env c).1 e ((bind-Distinct env).at c tt)
