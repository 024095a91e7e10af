-- ===== src/Context/Triple.antt =====
-- Triples over actions on the context: what holds after an action that returns, and after one that
-- stops with an error or a panic. One rule for each way to build an action.
use multi_agent_orchestrator.Prelude.{
  ◌≡◌, refl, subst, Bool, true, false, Option, none, some, [], ◌∷◌, ◌++◌,
}
use multi_agent_orchestrator.Errors.{OrchestratorError, Result, ok, err, panic}
use multi_agent_orchestrator.Context.{OrchestratorCtx, Effect}
use multi_agent_orchestrator.Context.Exec.{
  Exec, continue, ◌>>=◌, pure, fail, lift, gets, modify, emit, require, when,
}

abbrev pub Pred : Type 1
Pred = OrchestratorCtx → Type 0

-- `Q` of the value that an action returned, `E` where it stopped.
abbrev pub Ends : {A : Type 0} → (A → Pred) → Pred → Result A → Pred
Ends Q E (ok a) c = Q a c
Ends Q E (err e) c = E c
Ends Q E panic c = E c

-- From a context with `P`, `m` ends with `Q`, or stops with `E`.
pub record Triple {A : Type 0} (P : Pred) (m : Exec A) (Q : A → Pred) (E : Pred) : Type 0 where
  pub at : (c : OrchestratorCtx) → P c → Ends Q E (m c).0 (m c).1

-- What holds after an action that is known to have returned.
pub Ends-ok :
    {A : Type 0} (Q : A → Pred) (E : Pred) {r : Result A} {a : A} (c : OrchestratorCtx)
    → r ≡ ok a
    → Ends Q E r c
    → Q a c
Ends-ok Q E c e h = subst (λ r. Ends Q E r c) e h

Ends-continue :
    {A B : Type 0} {Q : A → Pred} {R : B → Pred} {E : Pred} (r : Result A) (f : A → Exec B)
    (c : OrchestratorCtx)
    → ((a : A) → Triple (Q a) (f a) R E)
    → Ends Q E r c
    → Ends R E (continue r f c).0 (continue r f c).1
unfolding continue
Ends-continue (ok a) f c hf h = (hf a).at c h
Ends-continue (err e) f c hf h = h
Ends-continue panic f c hf h = h

pub follow :
    {A B : Type 0} {P : Pred} {Q : A → Pred} {E : Pred} {R : B → Pred} {m : Exec A} {f : A → Exec B}
    → Triple P m Q E
    → ((a : A) → Triple (Q a) (f a) R E)
    → Triple P (m >>= f) R E
unfolding ◌>>=◌
follow {m = m} {f = f} hm hf = record { at = λ c h. Ends-continue (m c).0 f (m c).1 hf (hm.at c h) }

Ends-lift :
    {A : Type 0} (P E : Pred) (r : Result A) (c : OrchestratorCtx) → P c → E c → Ends (λ a. P) E r c
Ends-lift P E (ok a) c h e = h
Ends-lift P E (err x) c h e = e
Ends-lift P E panic c h e = e

Ends-weaken :
    {A : Type 0} {Q R : A → Pred} {E F : Pred} (r : Result A) (c : OrchestratorCtx)
    → ((a : A) (c : OrchestratorCtx) → Q a c → R a c)
    → ((c : OrchestratorCtx) → E c → F c)
    → Ends Q E r c
    → Ends R F r c
Ends-weaken (ok a) c q e h = q a c h
Ends-weaken (err x) c q e h = e c h
Ends-weaken panic c q e h = e c h

pub weaken :
    {A : Type 0} {P : Pred} {Q R : A → Pred} {E F : Pred} {m : Exec A}
    → Triple P m Q E
    → ((a : A) (c : OrchestratorCtx) → Q a c → R a c)
    → ((c : OrchestratorCtx) → E c → F c)
    → Triple P m R F
weaken {m = m} h q e = record { at = λ c x. Ends-weaken (m c).0 (m c).1 q e (h.at c x) }

-- From more that holds before.
pub given :
    {A : Type 0} {P P' : Pred} {Q : A → Pred} {E : Pred} {m : Exec A}
    → ((c : OrchestratorCtx) → P' c → P c)
    → Triple P m Q E
    → Triple P' m Q E
given p h = record { at = λ c x. h.at c (p c x) }

-- What does not depend on the context is a hypothesis.
pub pull :
    {A : Type 0} {P : Pred} {X : Type 0} {Q : A → Pred} {E : Pred} {m : Exec A}
    → (X → Triple P m Q E)
    → Triple (λ c. P c × X) m Q E
pull h = record { at = λ c x. (h x.1).at c x.0 }

module _ {A : Type 0} {P : Pred} {E : Pred} where
  pub pure_lem :
      {Q : A → Pred} (a : A) → ((c : OrchestratorCtx) → P c → Q a c) → Triple P (pure a) Q E
  unfolding pure
  pure_lem a h = record { at = h }

  pub fail_lem :
      {Q : A → Pred} (e : OrchestratorError)
      → ((c : OrchestratorCtx) → P c → E c)
      → Triple P (fail e) Q E
  unfolding fail
  fail_lem e h = record { at = h }

  -- A call from outside keeps what holds.
  pub lift_lem : (r : Result A) → ((c : OrchestratorCtx) → P c → E c) → Triple P (lift r) (λ a. P) E
  unfolding lift
  lift_lem r e = record { at = λ c h. Ends-lift P E r c h (e c h) }

  -- The value of such a call is what it returned.
  pub lift_is :
      (r : Result A)
      → ((c : OrchestratorCtx) → P c → E c)
      → Triple P (lift r) (λ a c. P c × (r ≡ ok a)) E
  unfolding lift
  lift_is (ok a) e = record { at = λ c h. (h, refl) }
  lift_is (err x) e = record { at = e }
  lift_is panic e = record { at = e }

  pub gets_lem : (f : OrchestratorCtx → A) → Triple P (gets f) (λ a. P) E
  unfolding gets
  gets_lem f = record { at = λ c h. h }

  -- The value read is what the context holds.
  pub gets_is : (f : OrchestratorCtx → A) → Triple P (gets f) (λ a c. P c × (f c ≡ a)) E
  unfolding gets
  gets_is f = record { at = λ c h. (h, refl) }

  -- The value read is known already.
  pub gets_to :
      (f : OrchestratorCtx → A) {v : A}
      → ((c : OrchestratorCtx) → P c → v ≡ f c)
      → Triple P (gets f) (λ a c. P c × (v ≡ a)) E
  unfolding gets
  gets_to f h = record { at = λ c x. (x, h c x) }

  -- An option that is there, as it was given.
  pub require_is :
      (o : Option A) (e : OrchestratorError)
      → ((c : OrchestratorCtx) → P c → E c)
      → Triple P (require o e) (λ a c. P c × (o ≡ some a)) E
  unfolding require
  require_is (some a) x e = record { at = λ c h. (h, refl) }
  require_is none x e = record { at = e }

  -- A value read that is known is that value in what follows.
  pub follow_known :
      {B : Type 0} {R : B → Pred} {f : OrchestratorCtx → A} (k : A → Exec B) (v : A)
      → ((c : OrchestratorCtx) → P c → v ≡ f c)
      → Triple P (k v) R E
      → Triple P (gets f >>= k) R E
  unfolding gets ◌>>=◌ continue
  follow_known {R = R} k v h t = record {
    at = λ c x. subst (λ a. Ends R E (k a c).0 (k a c).1) (h c x) (t.at c x);
  }

  pub require_lem :
      (o : Option A) (e : OrchestratorError)
      → ((c : OrchestratorCtx) → P c → E c)
      → Triple P (require o e) (λ a. P) E
  unfolding require
  require_lem (some a) x e = record { at = λ c h. h }
  require_lem none x e = record { at = e }

module _ {P : Pred} {E : Pred} where
  pub modify_lem :
      {Q : Pred} (g : OrchestratorCtx → OrchestratorCtx)
      → ((c : OrchestratorCtx) → P c → Q (g c))
      → Triple P (modify g) (λ a. Q) E
  unfolding modify
  modify_lem g h = record { at = h }

  pub when_lem :
      (b : Bool) (m : Exec (Unit {0})) → Triple P m (λ a. P) E → Triple P (when b m) (λ a. P) E
  unfolding when
  when_lem true m h = h
  when_lem false m h = record { at = λ c x. x }

  pub emit_lem :
      {Q : Pred} (x : Effect)
      → ((c : OrchestratorCtx) → P c → Q (record c { effects = c.effects ++ x ∷ [] }))
      → Triple P (emit x) (λ a. Q) E
  unfolding emit
  emit_lem x h = record { at = h }
