-- ===== src/Providers/Opencode/Models.antt =====
-- When a model of OpenCode is accepted before the run.
use multi_agent_orchestrator.Prelude.{
  ◌≡◌, refl, ap, subst, ◌↔◌, ◌⊎◌, inl, inr, true, false, String, List, [], ◌∷◌, any, str_eq, eq_iff,
  arith, Bool-cases,
}
use multi_agent_orchestrator.Prelude.Text.{trim, lines}
use multi_agent_orchestrator.Prelude.Trim.{trim-trim}
use multi_agent_orchestrator.Errors.{ok, >>=-eq-ok}
use multi_agent_orchestrator.Env.{Output, not_run, exited}
use multi_agent_orchestrator.Phases.Inputs.{parse_model_provider}
use multi_agent_orchestrator.Providers.Opencode.{
  model_list_contains, listed_model, checked_provider, ensure_model_available,
}

-- A line of the text is the model, up to the spaces around it.
abbrev pub HasLine : List String → String → Type 0
HasLine [] model = ⊥
HasLine (line ∷ ls) model = (trim line ≡ model) ⊎ HasLine ls model

any-HasLine :
    (ls : List String) (model : String)
    → (any (λ line. str_eq (trim line) model) ls ≡ true) ↔ HasLine ls model
any-HasLine [] model = ((λ e. cc), absurd)
any-HasLine (line ∷ ls) model =
    let (to, from) = any-HasLine ls model in
    let (same, eq) = eq_iff (trim line) model in
    (
      λ e. elim (Bool-cases (str_eq (trim line) model)) [
        | inl h ↦ inl (same h)
        | inr h ↦ inr (to (ground arith))
      ],
      elim [ inl e ↦ let h = eq e in ground arith | inr l ↦ let h = from l in ground arith ],
    )

stdout_of : {s o e s' o' e' : String} → exited true s o e ≡ exited true s' o' e' → o' ≡ o
stdout_of same = cc

checked_provider-ok :
    (field provider : String) (r : String ⊎ String)
    → (checked_provider field r ≡ ok provider) ↔ (r ≡ inl provider)
checked_provider-ok field provider (inl p) = ((λ e. cc), (λ e. cc))
checked_provider-ok field provider (inr x) = ((λ e. cc), (λ e. cc))

-- The command succeeded and lists the model.
abbrev pub ListsModel : Output → String → Type 0
ListsModel output model =
    (status : String) × (stdout : String) × (stderr : String) × (output
      ≡ exited true status stdout stderr)
    × HasLine (lines stdout) model

listed_model_iff :
    (model field provider : String) (output : Output)
    → (listed_model model field provider output ≡ ok tt) ↔ ListsModel output model
unfolding model_list_contains
listed_model_iff model field provider (not_run kind source) = ((λ e. cc), λ (a, b, c, e, h). cc)
listed_model_iff model field provider (exited false status stdout stderr) =
    ((λ e. cc), λ (a, b, c, e, h). cc)
listed_model_iff model field provider (exited true status stdout stderr) =
    let (to, from) = any-HasLine (lines stdout) model in
    (
      λ e. (status, stdout, stderr, refl, to (ground arith)),
      λ (a, b, c, e, h).
          let same : lines b ≡ lines stdout = ap lines (stdout_of e) in
          let listed = from (subst (λ ls. HasLine ls model) same h) in ground arith,
    )

-- A model is accepted before the run exactly when it names its provider and a successful listing of
-- the provider's models has it on a line of its own, as it was given.
pub ensure_model_available_iff :
    (run_opencode : List String → Output) (model field : String)
    → (ensure_model_available run_opencode model field ≡ ok tt) ↔ (
        (provider : String) × (parse_model_provider model ≡ inl provider)
        × ListsModel (run_opencode ("models" ∷ provider ∷ [])) model)
unfolding ensure_model_available
ensure_model_available_iff run_opencode model field = (
  λ e.
      let (provider, checked, listed) =
        >>=-eq-ok (checked_provider field (parse_model_provider model))
          (λ provider. listed_model model field provider (run_opencode ("models" ∷ provider ∷ [])))
          e in
      (
        provider,
        (checked_provider-ok field provider (parse_model_provider model)).0 checked,
        (listed_model_iff model field provider (run_opencode ("models" ∷ provider ∷ []))).0 listed,
      ),
  λ (provider, parsed, listed).
      rw parsed (
        (listed_model_iff model field provider (run_opencode ("models" ∷ provider ∷ []))).1 listed),
)

HasLine-trimmed : (ls : List String) (model : String) → HasLine ls model → trim model ≡ model
HasLine-trimmed [] model h = absurd h
HasLine-trimmed (line ∷ ls) model (inl e) = subst (λ m. trim m ≡ m) e (trim-trim line)
HasLine-trimmed (line ∷ ls) model (inr h) = HasLine-trimmed ls model h

-- A model that is accepted has no spaces around it, although its provider is read from the trimmed
-- text.
pub ensure_model_available-trimmed :
    (run_opencode : List String → Output) (model field : String)
    → ensure_model_available run_opencode model field ≡ ok tt
    → trim model ≡ model
ensure_model_available-trimmed run_opencode model field e =
    let (provider, parsed, listed) = (ensure_model_available_iff run_opencode model field).0 e in
    HasLine-trimmed (lines listed.1) model listed.4
