-- ===== src/Phases/Inputs.antt =====
-- src/orchestrator/phases.rs, the validation of the command line, with `parse_model_provider` of
-- src/providers/opencode.rs.
use multi_agent_orchestrator.Prelude.{
  ◌⊎◌, inl, inr, Bool, true, false, not, ◌&&◌, ◌||◌, Option, none, some, String, [], ◌∷◌, str_eq,
  if◌then◌else◌,
}
use multi_agent_orchestrator.Prelude.Show.{format}
use multi_agent_orchestrator.Prelude.Text.{trim, contains, is_empty_text}
use multi_agent_orchestrator.State.{ProviderKind, opencode, same_provider, provider_as_str}
use multi_agent_orchestrator.Errors.{invalid_input, Result, ok, err}
use multi_agent_orchestrator.Context.Exec.{Exec, ◌>>=◌, ◌>>◌, fail, lift, gets, modify, when}

-- `s.split_once(c)`
unfoldable pub split_once : String → String → Option (String × String)
split_once c String.[] = none
split_once c (String.◌∷◌ d s) =
    let rest = split_once c s in
    if str_eq (String.◌∷◌ d String.[]) c
    then some (String.[], s)
    else elim rest [ none ↦ none | some (a, b) ↦ some (String.◌∷◌ d a, b) ]

-- The provider, or the reason of the refusal.
unfoldable pub parse_model_provider : String → String ⊎ String
parse_model_provider model = elim (split_once "/" (trim model)) [
  | none ↦ inr "must use provider/model format, for example deepseek/deepseek-v4-flash"
  | some (provider, model_name) ↦
      if is_empty_text provider || is_empty_text model_name || contains model_name "/"
      then inr "must use provider/model format with exactly one '/' separator"
      else inl provider
]

abbrev is_opencode : ProviderKind → Bool
is_opencode opencode = true
is_opencode _ = false

-- `parse_model_provider(model).map_err(..)?`
check_model : String → String ⊎ String → Result (Unit {0})
check_model field (inl provider) = ok tt
check_model field (inr reason) = err (invalid_input field reason)

unfoldable pub validate_model_option : String → Option String → ProviderKind → Result (Unit {0})
unfolding check_model
validate_model_option field none provider = ok tt
validate_model_option field (some model) provider =
    if is_empty_text (trim model)
    then err (invalid_input field "must be non-empty when provided")
    else if not (is_opencode provider)
    then err (
        invalid_input field (
          format (
            "model override is currently supported only for opencode, got "
            ∷ provider_as_str provider
            ∷ [])))
    else check_model field (parse_model_provider model)

pub record InputsEnv : Type 0 where
  -- `canonicalize()`: the path, or the error's text
  pub canonicalize : String → String ⊎ String
  pub is_dir : String → Bool

abbrev must_be : String → String → Exec (Unit {0})
must_be field reason = fail (invalid_input field reason)

unfoldable pub set_workspace_root : String ⊎ String → Exec (Unit {0})
set_workspace_root (inl canonical) =
    modify (λ c. record c { args = record (c.args) { workspace_root = canonical } })
set_workspace_root (inr e) = must_be "--workspace-root" (format ("cannot resolve path: " ∷ e ∷ []))

unfoldable pub validate_inputs : InputsEnv → Exec (Unit {0})
unfolding set_workspace_root
validate_inputs env = do
  args ← gets (λ c. c.args)
  when (is_empty_text (trim args.prompt)) (must_be "--prompt" "must be non-empty")
  when (is_empty_text (trim args.executor_thread_name))
      (must_be "--executor-thread-name" "must be non-empty")
  when (is_empty_text (trim args.reviewer_thread_name))
      (must_be "--reviewer-thread-name" "must be non-empty")
  lift (validate_model_option "--executor-model" args.executor_model args.executor_provider)
  lift (validate_model_option "--reviewer-model" args.reviewer_model args.reviewer_provider)
  when
      (same_provider args.executor_provider args.reviewer_provider
        && str_eq args.executor_thread_name args.reviewer_thread_name)
      (must_be "--reviewer-thread-name"
        "executor and reviewer must not share the same (provider, thread_name) pair")
  set_workspace_root (env.canonicalize args.workspace_root)
  root ← gets (λ c. c.args.workspace_root)
  when (not (env.is_dir root)) (must_be "--workspace-root" "must be a directory")
