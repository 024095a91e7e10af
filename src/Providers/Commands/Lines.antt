-- ===== src/Providers/Commands/Lines.antt =====
-- What every command line of a provider has.
use multi_agent_orchestrator.Prelude.{
  ◌≡◌, refl, ap, ◌∙◌, Bool, true, false, Option, none, some, String, List, [], ◌∷◌, ◌++◌,
  if◌then◌else◌,
}
use multi_agent_orchestrator.State.{ProviderKind, claude, opencode, codex}
use multi_agent_orchestrator.Providers.Commands.{
  Machine, build_run_args, build_systemd_run_args, systemd_run_available, build_systemd_unit_name,
  command_line,
}

-- The arguments name the session and end in the prompt.
abbrev pub Resumes : String → String → List String → Type 0
Resumes session_id prompt args =
    (before : List String) × (between : List String) × (args
      ≡ before ++ session_id ∷ (between ++ prompt ∷ []))

build_run_args-Resumes :
    (session_id prompt : String) (model : Option String)
    → Resumes session_id prompt (build_run_args session_id prompt model)
unfolding build_run_args
build_run_args-Resumes session_id prompt none = ("run" ∷ "-s" ∷ [], [], refl)
build_run_args-Resumes session_id prompt (some model) =
    ("run" ∷ "-s" ∷ [], "--model" ∷ model ∷ [], refl)

append_assoc : (xs ys zs : List String) → xs ++ (ys ++ zs) ≡ (xs ++ ys) ++ zs
append_assoc [] ys zs = refl
append_assoc (x ∷ xs) ys zs = ap (λ l. x ∷ l) (append_assoc xs ys zs)

abbrev either : Bool → (String × List String) → (String × List String) → String × List String
either b x y = if b then x else y

-- An agent is always resumed in its bound session: whatever the provider, and for OpenCode with or
-- without systemd and a model, the command's arguments name the session and end in the prompt.
pub command_line-Resumes :
    (machine : Machine) (provider : ProviderKind) (session_id prompt : String)
    (model : Option String)
    → Resumes session_id prompt (command_line machine provider session_id prompt model).1
unfolding command_line build_systemd_run_args
command_line-Resumes machine claude session_id prompt model =
    ("-p" ∷ "--resume" ∷ [], "--permission-mode" ∷ "bypassPermissions" ∷ [], refl)
command_line-Resumes machine codex session_id prompt model =
    ("exec" ∷ "resume" ∷ "--json" ∷ "--dangerously-bypass-approvals-and-sandbox" ∷ [], [], refl)
command_line-Resumes machine opencode session_id prompt model =
    by_scope (systemd_run_available machine)
  where
    front : List String
    front = build_systemd_run_args (build_systemd_unit_name machine) []

    args : List String
    args = build_run_args session_id prompt model

    by_scope :
        (scope : Bool)
        → Resumes session_id prompt
            (either scope
              ("systemd-run", build_systemd_run_args (build_systemd_unit_name machine) args)
              ("opencode", args)).1
    by_scope false = build_run_args-Resumes session_id prompt model
    by_scope true =
        let (before, between, e) = build_run_args-Resumes session_id prompt model in
        (
          front ++ before,
          between,
          ap (λ l. front ++ l) e
              ∙ append_assoc front before (session_id ∷ (between ++ prompt ∷ [])),
        )
