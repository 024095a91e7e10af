-- ===== src/Run/Moves.antt =====
-- How each phase changes the core: the rules for actions that leave it alone, and what is the same
-- for every phase.
pub mod Dispatch
pub mod Collect
pub mod Gate
pub mod Routes
pub mod Monitor
use multi_agent_orchestrator.Prelude.{◌≡◌, ◌∙◌, refl, ◌⊎◌, inl, inr, Bool, true, false, Option}
use multi_agent_orchestrator.Errors.{OrchestratorError, Result, ok, err, panic}
use multi_agent_orchestrator.Context.{OrchestratorCtx, Effect}
use multi_agent_orchestrator.Context.Exec.{
  Exec, ◌>>=◌, pure, fail, lift, gets, modify, emit, require, when,
}
use multi_agent_orchestrator.Context.Triple.{
  Pred, Ends, Triple, follow, pure_lem, fail_lem, lift_lem, gets_lem, require_lem, weaken,
  modify_lem, when_lem, emit_lem,
}
use multi_agent_orchestrator.Run.Core.{Core, core}

-- The core is `k`.
abbrev pub Is : Core → Pred
Is k c = core c ≡ k

-- An action that leaves the core alone, whether it returns or stops.
abbrev pub Keeps : {A : Type 0} → Exec A → Type 0
Keeps {A} m = (k : Core) → Triple (Is k) m (λ a. Is k) (Is k)

pub Keeps-then :
    {A B : Type 0} {m : Exec A} {f : A → Exec B}
    → Keeps m
    → ((a : A) → Keeps (f a))
    → Keeps (m >>= f)
Keeps-then hm hf k = follow (hm k) (λ a. hf a k)

pub Keeps-lift : {A : Type 0} (r : Result A) → Keeps (lift r)
Keeps-lift r k = lift_lem r (λ c h. h)

pub Keeps-pure : {A : Type 0} (a : A) → Keeps (pure a)
Keeps-pure a k = pure_lem a (λ c h. h)

pub Keeps-fail : {A : Type 0} (e : OrchestratorError) → Keeps (fail {A = A} e)
Keeps-fail e k = fail_lem e (λ c h. h)

pub Keeps-gets : {A : Type 0} (f : OrchestratorCtx → A) → Keeps (gets f)
Keeps-gets f k = gets_lem f

pub Keeps-require : {A : Type 0} (o : Option A) (e : OrchestratorError) → Keeps (require o e)
Keeps-require o e k = require_lem o e (λ c h. h)

pub Keeps-modify :
    (g : OrchestratorCtx → OrchestratorCtx)
    → ((c : OrchestratorCtx) → core (g c) ≡ core c)
    → Keeps (modify g)
Keeps-modify g h k = modify_lem g (λ c e. h c ∙ e)

pub Keeps-emit : (e : Effect) → Keeps (emit e)
Keeps-emit e k = emit_lem e (λ c h. h)

pub Keeps-when : (b : Bool) (m : Exec (Unit {0})) → Keeps m → Keeps (when b m)
Keeps-when b m h k = when_lem b m (h k)

Ends-Is :
    {A : Type 0} (F : Core → Type 0) (k : Core) (r : Result A) (c : OrchestratorCtx)
    → F k
    → Ends (λ a. Is k) (Is k) r c
    → Ends (λ a c. F (core c)) (λ c. F (core c)) r c
Ends-Is F k (ok a) c h e = rw (← e) at h
Ends-Is F k (err x) c h e = rw (← e) at h
Ends-Is F k panic c h e = rw (← e) at h

-- What is said of the core alone is kept too.
pub Keeps-any :
    {A : Type 0} (F : Core → Type 0) (m : Exec A)
    → Keeps m
    → Triple (λ c. F (core c)) m (λ a c. F (core c)) (λ c. F (core c))
Keeps-any F m h = record {
  at = λ c x. Ends-Is F (core c) (m c).0 (m c).1 x ((h (core c)).at c refl);
}
