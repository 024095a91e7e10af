-- ===== src/Prompts/Render.antt =====
-- src/workflow.rs, `render_template`, and a dispatch's parameters that the prompts fill.
use multi_agent_orchestrator.Prelude.{String}
use multi_agent_orchestrator.State.{
  TemplateId, executor_initial, executor_feedback, reviewer_review, reviewer_repair_yaml,
  reviewer_repair_workspace,
}
use multi_agent_orchestrator.Phases.Request.{TemplateValues, DispatchEnv}
use multi_agent_orchestrator.Prompts.Rules.{workflow_contract_text, reviewer_yaml_schema}
use multi_agent_orchestrator.Prompts.Initial.{render_executor_initial}
use multi_agent_orchestrator.Prompts.Review.{render_reviewer_review}
use multi_agent_orchestrator.Prompts.Repair.{
  render_reviewer_repair_yaml, render_reviewer_repair_workspace,
}
use multi_agent_orchestrator.Prompts.Feedback.{render_executor_feedback}

-- `current_dir` is the directory of the orchestrator's process, `"."` where it has none.
unfoldable pub render_template : String → TemplateId → TemplateValues → String
render_template current_dir executor_initial v = render_executor_initial current_dir v
render_template current_dir reviewer_review v = render_reviewer_review current_dir v
render_template current_dir reviewer_repair_yaml v = render_reviewer_repair_yaml current_dir v
render_template current_dir reviewer_repair_workspace v =
    render_reviewer_repair_workspace current_dir v
render_template current_dir executor_feedback v = render_executor_feedback v

abbrev pub with_prompts : String → DispatchEnv → DispatchEnv
with_prompts current_dir env = record env {
  workflow_contract_text = workflow_contract_text;
  reviewer_yaml_schema = reviewer_yaml_schema;
  render_template = render_template current_dir;
}
