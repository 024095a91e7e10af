-- ===== src/Samples/Prompts.antt =====
-- The result on prompts at a verdict that was rejected.
use multi_agent_orchestrator.Prelude.{some, refl, inr}
use multi_agent_orchestrator.State.{reviewer}
use multi_agent_orchestrator.Env.{path_join}
use multi_agent_orchestrator.Context.{OrchestratorCtx, new}
use multi_agent_orchestrator.Phases.Request.{transport_dir}
use multi_agent_orchestrator.Prompts.Carried.{Within, prompt_for, prompt_for-Carries}
use multi_agent_orchestrator.Samples.{sample_args, sample_dispatch}

abbrev rejected : OrchestratorCtx
rejected = record (new sample_args) { reviewer_yaml_rejection = some "no score" }

prompt_for-Carries_example :
    Within "no score" (prompt_for "/o" sample_dispatch reviewer rejected "")
    × Within
        (path_join (transport_dir rejected) "outbox.txt")
        (prompt_for "/o" sample_dispatch reviewer rejected "")
unfolding new
prompt_for-Carries_example =
    prompt_for-Carries "/o" sample_dispatch reviewer rejected "" "no score" (inr (refl, refl))
