-- ===== src/Context/Exec.antt =====
-- An operation that mutates the context and may fail. What it wrote before it failed stays written.
use multi_agent_orchestrator.Prelude.{Bool, true, false, String, [], ◌∷◌, ◌++◌, Option, some, none}
use multi_agent_orchestrator.Errors.{OrchestratorError, Result, ok, err, panic}
use multi_agent_orchestrator.Context.{OrchestratorCtx, Effect}

abbrev pub Exec : Type 0 → Type 0
Exec A = OrchestratorCtx → Result A × OrchestratorCtx

unfoldable pub continue : {A B : Type 0} → Result A → (A → Exec B) → Exec B
continue (ok a) f c = f a c
continue (err e) f c = (err e, c)
continue panic f c = (panic, c)

infixl 10 ◌>>=◌ ◌>>◌
unfoldable pub ◌>>=◌ : {A B : Type 0} → Exec A → (A → Exec B) → Exec B
unfolding continue
◌>>=◌ m f c = let (r, c') = m c in continue r f c'

abbrev pub ◌>>◌ : {A B : Type 0} → Exec A → Exec B → Exec B
m >> n = m >>= λ _. n

unfoldable pub pure : {A : Type 0} → A → Exec A
pure a c = (ok a, c)

unfoldable pub fail : {A : Type 0} → OrchestratorError → Exec A
fail e c = (err e, c)

-- A call whose outcome comes from outside, or that does not touch the context.
unfoldable pub lift : {A : Type 0} → Result A → Exec A
lift r c = (r, c)

unfoldable pub gets : {A : Type 0} → (OrchestratorCtx → A) → Exec A
gets f c = (ok (f c), c)

unfoldable pub modify : (OrchestratorCtx → OrchestratorCtx) → Exec (Unit {0})
modify f c = (ok tt, f c)

unfoldable pub emit : Effect → Exec (Unit {0})
emit e c = (ok tt, record c { effects = c.effects ++ e ∷ [] })

abbrev pub push_failure : String → OrchestratorCtx → OrchestratorCtx
push_failure reason c = record c { failures = c.failures ++ reason ∷ [] }

-- `opt.ok_or(e)?`
unfoldable pub require : {A : Type 0} → Option A → OrchestratorError → Exec A
require (some a) e c = (ok a, c)
require none e c = (err e, c)

unfoldable pub when : Bool → Exec (Unit {0}) → Exec (Unit {0})
when true m c = m c
when false m c = (ok tt, c)
