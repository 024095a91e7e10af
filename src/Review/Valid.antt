-- ===== src/Review/Valid.antt =====
-- What a verdict that passes src/yaml_check.rs satisfies, stated without the checks.
use multi_agent_orchestrator.Prelude.{
  ℕ, ◌*◌, ◌^◌, ◌≤◌, ◌≡◌, refl, ap, ◌≢◌, inl, ◌↔◌, true, false, ◌&&◌, Option, none, some, String, [],
  arith,
}
use multi_agent_orchestrator.Prelude.Float.{F64, nan, finite, of_ℕ, le_f64, lt_f64}
use multi_agent_orchestrator.Prelude.Text.{trim, is_empty_text}
use multi_agent_orchestrator.Errors.{ok, >>=-eq-ok, is_ok}
use multi_agent_orchestrator.Review.{
  ReviewDecision, accept, revise, blocked, irreconcilable_disagreement, poisoned_session,
  ReviewerYaml, YamlLib, is_missing, prescan_reviewer_yaml, validate_decision,
  validate_reviewer_yaml, deserialize, parse_reviewer_yaml,
}

-- `lo ≤ score ≤ hi`, for a score that is a number: its sign is not negative, or it is a zero.
abbrev pub ScoreIn : ℕ → ℕ → F64 → Type 0
ScoreIn lo hi (finite false n p) = (lo * 2 ^ p ≤ n) × (n ≤ hi * 2 ^ p)
ScoreIn lo hi (finite true n p) = (lo ≡ 0) × (n ≡ 0)
ScoreIn lo hi _ = ⊥

abbrev pub IsGiven : Option String → Type 0
IsGiven none = ⊥
IsGiven (some s) = trim s ≢ ""

-- The rules of one decision.
abbrev pub DecisionRules : ReviewDecision → ReviewerYaml → Type 0
DecisionRules accept y =
    ScoreIn 8 10 y.quality_score × (y.contract_satisfied ≡ true) × (y.hard_blockers_present ≡ false)
DecisionRules revise y = y.feedback_for_executor ≢ []
DecisionRules blocked y = IsGiven y.blocking_reason
DecisionRules irreconcilable_disagreement y = IsGiven y.irreconcilable_reason
DecisionRules poisoned_session y = IsGiven y.poisoned_session_reason

pub record IsValid (y : ReviewerYaml) : Type 0 where
  pub score : ScoreIn 0 10 y.quality_score
  pub rationale : trim y.rationale ≢ ""
  pub rules : DecisionRules y.decision y

-- The two score tests of the code, read as bounds.
score_in : (x : F64) → ((le_f64 (of_ℕ 0) x && le_f64 x (of_ℕ 10)) ≡ true) ↔ ScoreIn 0 10 x
unfolding le_f64
score_in (finite false n p) = ground arith
score_in (finite true n p) = ground arith
score_in _ = ground arith

score_accept : (x : F64) → ScoreIn 0 10 x → (lt_f64 x (of_ℕ 8) ≡ false) ↔ ScoreIn 8 10 x
unfolding lt_f64
score_accept (finite false n p) h = ground arith
score_accept (finite true n p) h = ground arith
score_accept nan h = absurd h
score_accept _ h = absurd h

empty_text_iff : (s : String) → (is_empty_text s ≡ false) ↔ (s ≢ "")
empty_text_iff String.[] = ground arith
empty_text_iff (String.◌∷◌ c s) = (λ h e. cc, λ h. refl)

is_given : (o : Option String) → (is_missing o ≡ false) ↔ IsGiven o
is_given none = ground arith
is_given (some s) = empty_text_iff (trim s)

module _ (lib : YamlLib) where
  validate_decision_iff :
      (d : ReviewDecision) (y : ReviewerYaml)
      → ScoreIn 0 10 y.quality_score
      → (is_ok (validate_decision lib d y) ≡ true) ↔ DecisionRules d y
  unfolding validate_decision
  validate_decision_iff accept y h = ground (arith, score_accept y.quality_score h)
  validate_decision_iff revise y h = ground arith
  validate_decision_iff blocked y h = ground (arith, is_given y.blocking_reason)
  validate_decision_iff irreconcilable_disagreement y h =
      ground (arith, is_given y.irreconcilable_reason)
  validate_decision_iff poisoned_session y h = ground (arith, is_given y.poisoned_session_reason)

  -- Validation succeeds exactly for the verdicts that satisfy the documented rules.
  pub validate_iff : (y : ReviewerYaml) → (is_ok (validate_reviewer_yaml lib y) ≡ true) ↔ IsValid y
  unfolding validate_reviewer_yaml
  validate_iff y = (
    λ h. record {
      score = (score_in y.quality_score).0 (ground arith);
      rationale = ground (arith, empty_text_iff (trim y.rationale));
      rules = ground (arith, validate_decision_iff y.decision y, score_in y.quality_score);
    },
    λ v. ground (
      arith,
      score_in y.quality_score,
      empty_text_iff (trim y.rationale),
      validate_decision_iff y.decision y v.score,
      v.score,
      v.rationale,
      v.rules,
    ),
  )

  -- The text of a reviewer is read as the verdict `y` exactly when the pre-scan lets it through, the
  -- YAML library reads `y` from it, and `y` satisfies the documented rules.
  pub parse_iff :
      (raw : String) (y : ReviewerYaml)
      → (parse_reviewer_yaml lib raw ≡ ok y)
        ↔ ((is_ok (prescan_reviewer_yaml lib raw) ≡ true) × (lib.from_str raw ≡ inl y) × IsValid y)
  unfolding parse_reviewer_yaml deserialize
  parse_iff raw y = (
    λ h.
        let (_, scan, h1) = >>=-eq-ok (prescan_reviewer_yaml lib raw) _ h in
        let (z, read, h2) = >>=-eq-ok (deserialize lib raw) _ h1 in
        let (_, passed, same) = >>=-eq-ok (validate_reviewer_yaml lib z) _ h2 in
        let eq : z ≡ y = cc in
        (ap is_ok scan, ground arith, rw eq at ((validate_iff z).0 (ap is_ok passed))),
    λ h. ground (arith, h.0, h.1, (validate_iff y).1 h.2),
  )
