-- ===== src/Prompts/Sections.antt =====
-- src/workflow.rs: the sections that several prompts share.
use multi_agent_orchestrator.Prelude.{String, [], ◌∷◌, str_eq, if◌then◌else◌}
use multi_agent_orchestrator.Prelude.Show.{format}
use multi_agent_orchestrator.State.{WorkflowType}
use multi_agent_orchestrator.Prompts.Rules.{artifact_structure_name, artifact_structure_items}
use multi_agent_orchestrator.Env.{path_join}
use multi_agent_orchestrator.Phases.Request.{TemplateValues}

-- From the directory of the process, `"."` where there is none.
unfoldable pub notion_protocol_path : String → String
notion_protocol_path current_dir = path_join current_dir "docs/notion_access_protocol.md"

-- From the directory of the process, `"."` where there is none.
unfoldable pub gitlab_protocol_path : String → String
gitlab_protocol_path current_dir = path_join current_dir "docs/gitlab_access_protocol.md"

unfoldable pub project_profiles_common_section : TemplateValues → String
project_profiles_common_section v = format (
    "Project-specific verification profiles:\n"
    ∷ "- Always read and strictly follow the common profile `"
    ∷ path_join v.orchestrator_docs_dir "project_profiles/generic.md"
    ∷ "`.\n"
    ∷ "- Independently identify the main workspace stack from manifest/build files and changed files.\n"
    ∷ "- If the project uses Rust (`Cargo.toml`, `Cargo.lock`, `.rs`), read and strictly follow `"
    ∷ path_join v.orchestrator_docs_dir "project_profiles/rust.md"
    ∷ "`.\n"
    ∷ "- If the project uses C/C++ (`CMakeLists.txt`, `CMakePresets.json`, `compile_commands.json`, `Makefile`, `.cpp/.hpp/.cc/.cxx/.h`), read and strictly follow `"
    ∷ path_join v.orchestrator_docs_dir "project_profiles/cpp.md"
    ∷ "`.\n"
    ∷ "- If the project is mixed-stack, apply all relevant profiles to the affected parts.\n"
    ∷ "- If the stack is not covered by profiles, choose repo-approved commands from local docs/Makefile/CI and explicitly explain the choice in outbox/YAML.\n"
    ∷ "- Do not invent verification commands: if a repo-approved command is ambiguous, explicitly record the skipped check and reason.\n"
    ∷ "\n"
    ∷ [])

unfoldable pub executor_project_profiles_section : TemplateValues → String
executor_project_profiles_section v = format (
    project_profiles_common_section v
    ∷ "Profile reporting:\n"
    ∷ "- In outbox, state which project profiles you read, why you selected them, which repo-approved commands you found, and which checks were skipped.\n"
    ∷ "\n"
    ∷ [])

unfoldable pub reviewer_project_profiles_section : TemplateValues → String
reviewer_project_profiles_section v = format (
    project_profiles_common_section v
    ∷ "Profile review reporting:\n"
    ∷ "- In `checks_performed`, state which project profiles you read and why you selected them.\n"
    ∷ "- Verify that the executor stated and applied the relevant profiles and repo-approved commands in outbox.\n"
    ∷ "- If the project is clearly Rust or C/C++ and the executor did not state reading/applying the relevant project profile, or its verification commands do not match the profile/repo docs, this is a finding.\n"
    ∷ "\n"
    ∷ [])

-- Under a heading; nothing for a workflow without an artifact.
unfoldable pub artifact_structure_section : String → WorkflowType → String
artifact_structure_section heading wf =
    if str_eq (artifact_structure_name wf) ""
    then ""
    else format (
        heading
        ∷ "- Required structure for "
        ∷ artifact_structure_name wf
        ∷ ":\n"
        ∷ artifact_structure_items wf
        ∷ "\n"
        ∷ [])

unfoldable pub run_paths_section : TemplateValues → String
run_paths_section v = format (
    "Paths for this run:\n" ∷ "- workspace_root: `" ∷ v.workspace_root ∷ "`\n"
    ∷ "- transport_dir: `" ∷ v.transport_dir ∷ "`\n" ∷ "- inbox_path: `" ∷ v.inbox_path ∷ "`\n"
    ∷ "- outbox_path: `" ∷ v.outbox_path ∷ "`\n" ∷ "- orchestrator_docs_dir: `"
    ∷ v.orchestrator_docs_dir ∷ "`\n" ∷ "\n"
    ∷ "All project files, `PLAN.md`, `INVESTIGATION.md`, `.agent-io/inbox.txt`, and `.agent-io/outbox.txt` belong only to `workspace_root`.\n"
    ∷ "The orchestrator docs directory is only for reading instructions; do not use it as the workspace and do not look for `.agent-io` there.\n"
    ∷ "Protocol files are in the orchestrator repository and are read only as instructions. They are not the task workspace. After reading protocols, perform all actions in `workspace_root`.\n"
    ∷ "\n" ∷ [])
