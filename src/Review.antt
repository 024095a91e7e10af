-- ===== src/Review.antt =====
-- src/yaml_check.rs: the reviewer's verdict, its pre-scan, parse and semantic validation.
pub mod Valid
use multi_agent_orchestrator.Prelude.{
  ℕ, ◌==◌, ◌⊎◌, inl, inr, Bool, true, not, ◌&&◌, Option, String, List, [], ◌∷◌, is_empty,
  map_option, unwrap_or,
}
use multi_agent_orchestrator.Prelude.Float.{F64, of_ℕ, le_f64, lt_f64}
use multi_agent_orchestrator.Prelude.Show.{format}
use multi_agent_orchestrator.Prelude.Text.{trim, contains, is_empty_text}
use multi_agent_orchestrator.Constants.{min_accept_score}
use multi_agent_orchestrator.Errors.{
  OrchestratorError, artifact_contract, yaml, Result, ok, err, ◌>>=◌, ◌>>◌, reject_if,
}

pub data ReviewDecision : Type 0 where
  accept revise blocked irreconcilable_disagreement poisoned_session : ReviewDecision

unfoldable pub decision_as_str : ReviewDecision → String
decision_as_str accept = "accept"
decision_as_str revise = "revise"
decision_as_str blocked = "blocked"
decision_as_str irreconcilable_disagreement = "irreconcilable_disagreement"
decision_as_str poisoned_session = "poisoned_session"

-- Free-form YAML values, which the program only hands on, stand as their serialized text.
pub record ReviewerYaml : Type 0 where
  pub quality_score : F64
  pub decision : ReviewDecision
  pub rationale : String
  pub contract_satisfied : Bool
  pub hard_blockers_present : Bool
  pub notion_requirements_satisfied : Option Bool
  pub feedback_for_executor : List String
  pub checks_performed : Option String
  pub findings : Option String
  pub verification_commands : Option String
  pub blocking_reason : Option String
  pub irreconcilable_reason : Option String
  pub poisoned_session_reason : Option String

-- What the program takes from `regex`, `yaml_rust2`, `serde_yaml` and the formatting of floats.
pub record YamlLib : Type 0 where
  -- the pattern, then the text
  pub is_match : String → String → Bool
  -- `YamlLoader::load_from_str`: the number of documents, or the error's text
  pub load_from_str : String → ℕ ⊎ String
  -- `serde_yaml::from_str`: the document, or the error's text
  pub from_str : String → ReviewerYaml ⊎ String
  pub show_f64 : F64 → String

abbrev anchor_pattern : String
anchor_pattern = "(?m)(?:^[ \\t]*(?:-[ \\t]+)?|:[ \\t]+|,[ \\t]*)&[a-zA-Z_][a-zA-Z0-9_-]*"

abbrev alias_pattern : String
alias_pattern = "(?m)(?:^[ \\t]*(?:-[ \\t]+)?|:[ \\t]+|,[ \\t]*)\\*[a-zA-Z_][a-zA-Z0-9_-]*"

abbrev tag_pattern : String
tag_pattern = "(?m)(?:^[ \\t]*(?:-[ \\t]+)?|:[ \\t]+|,[ \\t]*)!!?[a-zA-Z]"

abbrev contract : String → OrchestratorError
contract msg = artifact_contract msg

-- What follows `YamlLoader::load_from_str`.
check_documents : ℕ ⊎ String → Result (Unit {0})
check_documents (inl n) =
    reject_if (not (n == 1)) (contract "reviewer output must be exactly one YAML document")
check_documents (inr e) = err (contract (format ("YAML parse error in pre-scan: " ∷ e ∷ [])))

-- `reason.as_ref().map(|s| s.trim().is_empty()).unwrap_or(true)`
abbrev pub is_missing : Option String → Bool
is_missing reason = unwrap_or true (map_option (λ s. is_empty_text (trim s)) reason)

module _ (lib : YamlLib) where
  unfoldable pub prescan_reviewer_yaml : String → Result (Unit {0})
  unfolding check_documents
  prescan_reviewer_yaml raw = do
    reject_if (contains raw "```") (contract "markdown fence in reviewer YAML")
    reject_if (contains raw "\n---") (contract "multiple YAML documents in reviewer output")
    reject_if (lib.is_match anchor_pattern raw) (contract "YAML anchor in reviewer output")
    reject_if (lib.is_match alias_pattern raw) (contract "YAML alias in reviewer output")
    reject_if (lib.is_match tag_pattern raw) (contract "YAML tag in reviewer output")
    check_documents (lib.load_from_str raw)

  -- The rules of one decision: the `match` of `validate_reviewer_yaml`.
  unfoldable pub validate_decision : ReviewDecision → ReviewerYaml → Result (Unit {0})
  validate_decision accept y = do
    reject_if (lt_f64 y.quality_score min_accept_score) (
        contract (
          format (
            "decision=accept requires quality_score >= "
            ∷ lib.show_f64 min_accept_score
            ∷ ", got "
            ∷ lib.show_f64 y.quality_score
            ∷ [])))
    reject_if (not y.contract_satisfied)
        (contract "decision=accept requires contract_satisfied=true")
    reject_if y.hard_blockers_present
        (contract "decision=accept requires hard_blockers_present=false")
  validate_decision revise y =
      reject_if (is_empty y.feedback_for_executor)
        (contract "decision=revise requires non-empty feedback_for_executor")
  validate_decision blocked y =
      reject_if (is_missing y.blocking_reason)
        (contract "decision=blocked requires non-empty blocking_reason")
  validate_decision irreconcilable_disagreement y =
      reject_if (is_missing y.irreconcilable_reason)
        (contract "decision=irreconcilable_disagreement requires non-empty irreconcilable_reason")
  validate_decision poisoned_session y =
      reject_if (is_missing y.poisoned_session_reason)
        (contract "decision=poisoned_session requires non-empty poisoned_session_reason")

  unfoldable pub validate_reviewer_yaml : ReviewerYaml → Result (Unit {0})
  validate_reviewer_yaml y = do
    reject_if (not (le_f64 (of_ℕ 0) y.quality_score && le_f64 y.quality_score (of_ℕ 10))) (
        contract
          (format ("quality_score must be in [0, 10], got " ∷ lib.show_f64 y.quality_score ∷ [])))
    reject_if (is_empty_text (trim y.rationale)) (contract "rationale must not be empty")
    validate_decision y.decision y

  -- `serde_yaml::from_str(raw)?`
  unfoldable pub deserialize : String → Result ReviewerYaml
  deserialize raw = elim (lib.from_str raw) [ inl y ↦ ok y | inr e ↦ err (yaml e) ]

  unfoldable pub parse_reviewer_yaml : String → Result ReviewerYaml
  parse_reviewer_yaml raw = do
    prescan_reviewer_yaml raw
    y ← deserialize raw
    validate_reviewer_yaml y
    ok y
