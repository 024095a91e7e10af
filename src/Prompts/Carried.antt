-- ===== src/Prompts/Carried.antt =====
-- What the next prompt carries over from the round before (`template_id` and `template_values` of
-- src/orchestrator/phases.rs with `render_template` of src/workflow.rs).
use Prim.Native.String
use text.Mathlib.TextLemmas.{append_assoc, nil-append}
use multi_agent_orchestrator.Prelude.{
  ℕ, zero, suc, ◌≡◌, refl, ap, sym, ◌∙◌, ◌⊎◌, inl, inr, Option, none, some, String, List, [], ◌∷◌,
}
use multi_agent_orchestrator.Prelude.Show.{format}
use multi_agent_orchestrator.State.{
  AgentRole, executor, reviewer, TemplateId, executor_initial, executor_feedback, reviewer_review,
  reviewer_repair_yaml, reviewer_repair_workspace,
}
use multi_agent_orchestrator.Review.{ReviewerYaml}
use multi_agent_orchestrator.Context.{OrchestratorCtx}
use multi_agent_orchestrator.Phases.Request.{
  DispatchEnv, TemplateValues, feedback_text, transport_dir, template_id, template_values,
}
use multi_agent_orchestrator.Env.{path_join}
use multi_agent_orchestrator.Prompts.Repair.{
  repair_yaml_pieces, render_reviewer_repair_yaml, repair_workspace_pieces,
  render_reviewer_repair_workspace,
}
use multi_agent_orchestrator.Prompts.Feedback.{feedback_pieces, render_executor_feedback}
use multi_agent_orchestrator.Prompts.Render.{render_template, with_prompts}
use multi_agent_orchestrator.Prompts.Initial.{initial_pieces, render_executor_initial}
use multi_agent_orchestrator.Prompts.Review.{review_pieces, render_reviewer_review}

-- `t` stands in `s`.
abbrev pub Within : String → String → Type 0
Within t s = (before : String) × (after : String) × (s ≡ String.◌++◌ before (String.◌++◌ t after))

piece : ℕ → List String → Option String
piece n [] = none
piece zero (s ∷ ss) = some s
piece (suc n) (s ∷ ss) = piece n ss

unwrap_some : {A : Type 0} {a b : A} → some a ≡ some b → a ≡ b
unwrap_some e = cc

format-piece-Within :
    (n : ℕ) (ss : List String) {t : String} → piece n ss ≡ some t → Within t (format ss)
unfolding format piece
format-piece-Within n [] e = cc
format-piece-Within zero (s ∷ ss) {t = t} e = (
  "",
  format ss,
  ap (λ x. String.◌++◌ x (format ss)) (unwrap_some e)
      ∙ sym (nil-append (String.◌++◌ t (format ss))),
)
format-piece-Within (suc n) (s ∷ ss) {t = t} e =
    let (before, after, is) = format-piece-Within n ss e in
    (
      String.◌++◌ s before,
      after,
      ap (String.◌++◌ s) is ∙ sym (append_assoc s before (String.◌++◌ t after)),
    )

-- What the role has to put right: the executor the feedback of the saved verdict, the reviewer the
-- workspace or else its verdict.
abbrev pub ToPutRight : AgentRole → OrchestratorCtx → String → Type 0
ToPutRight executor c t = (r : ReviewerYaml) × (c.review_result ≡ some r) × (feedback_text r ≡ t)
ToPutRight reviewer c t =
    (c.reviewer_workspace_rejection ≡ some t)
    ⊎ ((c.reviewer_workspace_rejection ≡ none) × (c.reviewer_yaml_rejection ≡ some t))

-- Every prompt names the outbox of the run.
render_template-outbox :
    (current_dir : String) (id : TemplateId) (v : TemplateValues)
    → Within v.outbox_path (render_template current_dir id v)
unfolding render_template render_executor_initial initial_pieces render_reviewer_review
    review_pieces render_reviewer_repair_yaml repair_yaml_pieces render_reviewer_repair_workspace
    repair_workspace_pieces render_executor_feedback feedback_pieces piece
render_template-outbox current_dir executor_initial v =
    format-piece-Within 49 (initial_pieces current_dir v) refl
render_template-outbox current_dir reviewer_review v =
    format-piece-Within 103 (review_pieces current_dir v) refl
render_template-outbox current_dir reviewer_repair_yaml v =
    format-piece-Within 5 (repair_yaml_pieces current_dir v) refl
render_template-outbox current_dir reviewer_repair_workspace v =
    format-piece-Within 13 (repair_workspace_pieces current_dir v) refl
render_template-outbox current_dir executor_feedback v =
    format-piece-Within 60 (feedback_pieces v) refl

-- The prompt that a dispatch renders for the role.
abbrev pub prompt_for : String → DispatchEnv → AgentRole → OrchestratorCtx → String → String
prompt_for current_dir env role c git_facts =
    render_template current_dir (template_id role c)
      (template_values (with_prompts current_dir env) role c git_facts)

prompt-Within :
    (current_dir : String) (env : DispatchEnv) (role : AgentRole) (c : OrchestratorCtx)
    (git_facts t : String)
    → ToPutRight role c t
    → Within t (prompt_for current_dir env role c git_facts)
unfolding template_id template_values render_template render_executor_feedback feedback_pieces
    render_reviewer_repair_yaml repair_yaml_pieces render_reviewer_repair_workspace
    repair_workspace_pieces piece
prompt-Within current_dir env executor c git_facts t (r, have, is) =
    rw have (format-piece-Within 34 (feedback_pieces _) (ap some is))
prompt-Within current_dir env reviewer c git_facts t (inl have) =
    rw have (format-piece-Within 48 (repair_workspace_pieces current_dir _) refl)
prompt-Within current_dir env reviewer c git_facts t (inr (clean, have)) =
    rw (clean, have) (format-piece-Within 30 (repair_yaml_pieces current_dir _) refl)

-- The next prompt of a role with something to put right has the whole text of it, and names the
-- outbox of the run.
pub prompt_for-Carries :
    (current_dir : String) (env : DispatchEnv) (role : AgentRole) (c : OrchestratorCtx)
    (git_facts t : String)
    → ToPutRight role c t
    → Within t (prompt_for current_dir env role c git_facts)
      × Within
          (path_join (transport_dir c) "outbox.txt")
          (prompt_for current_dir env role c git_facts)
unfolding template_values
prompt_for-Carries current_dir env role c git_facts t wrong = (
  prompt-Within current_dir env role c git_facts t wrong,
  render_template-outbox current_dir (template_id role c) _,
)
