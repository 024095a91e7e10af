-- ===== src/Samples.antt =====
-- A run on small concrete data, from the command line to success, and the parts of it that the
-- other examples use.
pub mod Examples
pub mod Attempts
pub mod Runs
pub mod Providers
pub mod Transports
pub mod Prompts
use multi_agent_orchestrator.Prelude.{
  ℕ, ◌≡◌, refl, ◌⊎◌, inl, inr, Bool, true, false, String, List, [], ◌∷◌, Option, none, some, str_eq,
  if◌then◌else◌,
}
use multi_agent_orchestrator.Prelude.Float.{of_ℕ}
use multi_agent_orchestrator.State.{
  codex, implement, required, forbidden, RunState, executor, reviewer, AgentRole, AttemptState,
}
use multi_agent_orchestrator.Errors.{Result, ok}
use multi_agent_orchestrator.Env.{Output, exited, Git}
use multi_agent_orchestrator.Review.{ReviewerYaml, YamlLib, accept}
use multi_agent_orchestrator.Signals.{RegexLib}
use multi_agent_orchestrator.Context.{
  CliArgs, FileMeta, AttemptStateData, DispatchedProcess, OrchestratorCtx, new,
}
use multi_agent_orchestrator.Phases.Inputs.{InputsEnv}
use multi_agent_orchestrator.Phases.GitState.{PrepEnv, nil}
use multi_agent_orchestrator.Phases.Start.{BindEnv}
use multi_agent_orchestrator.Phases.Request.{DispatchEnv, new_attempt}
use multi_agent_orchestrator.Phases.Collect.{CollectEnv}
use multi_agent_orchestrator.Phases.Verdict.{VerdictEnv}
use multi_agent_orchestrator.Monitor.Probe.{ProbeSignals, ProbeEnv}
use multi_agent_orchestrator.Run.{StepEnv, RunEnv}

abbrev pub sample_args : CliArgs
sample_args = record {
  workflow_type = implement;
  notion_policy = required;
  remote_network_policy = forbidden;
  workspace_root = "/w";
  executor_thread_name = "e";
  reviewer_thread_name = "r";
  prompt = "p";
  executor_provider = codex;
  reviewer_provider = codex;
  executor_model = none;
  reviewer_model = none;
}

-- `git` in a clean repository at "/w".
abbrev pub clean_git : Git
clean_git [] = exited true "" "" ""
clean_git (command ∷ []) = exited true "" "" ""
clean_git (command ∷ flag ∷ rest) =
    if str_eq flag "--is-inside-work-tree"
    then exited true "" "true" ""
    else if str_eq flag "--show-toplevel"
    then exited true "" "/w" ""
    else if str_eq flag "--git-path"
    then exited true "" "/w/.git/x" ""
    else if str_eq flag "--quiet"
    then exited true "" "main" ""
    else if str_eq flag "--verify"
    then exited true "" "h0" ""
    else exited true "" "" ""

abbrev pub sample_verdict : ReviewerYaml
sample_verdict = record {
  quality_score = of_ℕ 9;
  decision = accept;
  rationale = "fine";
  contract_satisfied = true;
  hard_blockers_present = false;
  notion_requirements_satisfied = some true;
  feedback_for_executor = [];
  checks_performed = none;
  findings = none;
  verification_commands = none;
  blocking_reason = none;
  irreconcilable_reason = none;
  poisoned_session_reason = none;
}

-- The libraries on the one text that is used here.
abbrev pub sample_yaml : YamlLib
sample_yaml = record {
  is_match = λ pattern text. false;
  load_from_str = λ text. inl 1;
  from_str = λ text. if str_eq text "ok" then inl sample_verdict else inr "bad";
  show_f64 = λ x. "";
}

abbrev pub sample_regex : RegexLib
sample_regex = record { matches = λ patterns text. []; find = λ pattern text. none }

abbrev pub sample_dispatch : DispatchEnv
sample_dispatch = record {
  git = clean_git;
  lock = λ provider sid. ok tt;
  verify = λ fingerprint. ok tt;
  sha256_hex = λ text. text;
  git_head = ok "h0";
  reset = λ role. ok tt;
  outbox_mtime = ok (some 5);
  git_facts = λ head. ok "";
  docs_dir = "";
  workflow_contract_text = λ w. "";
  reviewer_yaml_schema = "";
  render_template = λ t v. "do it";
  write = λ text. ok text;
  snapshot = λ role provider sid. ok none;
  spawn = λ provider sid model. ok (record { child = some 7; stdout_path = ""; stderr_path = "" });
  now = 10;
}

-- A process that has exited with text in the outbox.
abbrev pub sample_signals : ProbeSignals
sample_signals = record {
  process_alive = false;
  outbox_meta = some (record { size = 2; mtime = 20 });
  git_status_hash = "";
  git_status_short = "";
  git_head_hash = "h0";
  artifact_map = [];
  provider_log_mtime = none;
  has_child_processes = false;
}

abbrev pub sample_probe : ProbeEnv
sample_probe = record {
  cancelled_before = false;
  cancelled_after = false;
  cancelled_now = false;
  now = 30;
  system_now = 30;
  exited = some (some 0);
  collect = λ pid sid. ok sample_signals;
  git = clean_git;
  diagnostics = ok ("", "");
  regex = sample_regex;
  service_cap_since = λ sid t. ok none;
  action_tail = λ out error. none;
  yaml = sample_yaml;
  read_outbox = some "ok";
}

abbrev pub sample_verdict_env : VerdictEnv
sample_verdict_env = record {
  git = clean_git;
  yaml = sample_yaml;
  outbox_mtime = ok (some 20);
  read_outbox = some "ok";
  snapshot = λ role provider sid. ok none;
}

abbrev pub sample_step : StepEnv
sample_step = record {
  cancelled = false;
  prep = record {
    git = clean_git;
    canonicalize = λ path. inl "/w";
    exists = λ path. false;
    tree = λ path. none;
    exclude = ok tt;
  };
  bind = record { discover_session = λ workspace name role provider. ok name };
  dispatch = sample_dispatch;
  probes = sample_probe ∷ [];
  collect = record {
    git = clean_git;
    snapshot = λ role provider sid. ok none;
    artifact_present = λ name. ok false;
  };
  verdict = sample_verdict_env;
}

abbrev pub sample_inputs : InputsEnv
sample_inputs = record { canonicalize = λ path. inl "/w"; is_dir = λ path. true }

abbrev pub sample_run : RunEnv
sample_run = record {
  inputs = sample_inputs;
  models = ok tt;
  steps =
      sample_step ∷ sample_step ∷ sample_step ∷ sample_step ∷ sample_step ∷ sample_step
      ∷ sample_step ∷ sample_step ∷ sample_step ∷ sample_step ∷ sample_step ∷ [];
}
