-- ===== src/Lib.antt =====
-- The multi-agent orchestrator: a program that lets two coding agents, an executor and a
-- reviewer, work on one git repository in turns until the reviewer accepts.
--
-- A run is a loop over a state machine (src/orchestrator/mod.rs). Each iteration looks at the
-- cancel flag, stops in a terminal state, and otherwise calls the phase of the current state,
-- which changes the context and sets the next state; an error of a phase is recorded and turned
-- into a terminal state.
--
-- How the parts are modelled. The context `OrchestratorCtx` is a record with the fields of the
-- source, and a log `effects` of what was done to the outside. An operation is an action `Exec`
-- (Context/Exec): from a context to a result (a value, an error or a panic) and the context as it
-- was left. What the code asks of the outside (git, files, clocks, subprocesses, the regex and
-- YAML libraries) is a field of a record that the operation takes: `PrepEnv`, `DispatchEnv`,
-- `ProbeEnv`, `CollectEnv`, `VerdictEnv` and so on. The theorems hold for all answers. Times are
-- numbers of nanoseconds, `u32` counters keep their wrap-around, and floating-point scores are
-- exact decimals with NaN and the infinities.
--
-- The files and the code that they stand for:
-- - State, Constants, Errors, Snapshot, Time: src/state.rs, src/constants.rs, src/errors.rs.
-- - Fsm: src/fsm.rs, `classify`. Grace: `apply_grace_transitions` of src/orchestrator/monitor.rs.
-- - Review: src/yaml_check.rs. Report: the reason codes of src/report.rs; Run/Report: its report.
--   Signals: src/signals.rs, the classification of diagnostics; Signals/Processes is the walk
--   over a process's descendants and Signals/Collecting the rest.
-- - Context: the context and the records that it holds. Env and Git: calls of git and the reading
--   of its output.
-- - Phases: one child for each group of functions of src/orchestrator/phases.rs.
-- - Monitor: src/orchestrator/monitor.rs, `do_monitor`. Probe collects, Contract checks, Observe
--   records, Route acts, Loop puts them together, Actions reads the last action of a provider.
-- - Json and Files: what the code uses of JSON values, of the file system and of paths.
-- - Providers: src/providers. Codex, Claude and Opencode have one child for each provider's
--   discovery, logs and theorems; Select is their common last step, Discovery is
--   `discover_session` of src/orchestrator/phases.rs over them, which fills the parameter of
--   SESSION_BIND, and Commands has the command lines.
-- - Transport: src/transport.rs over a disk of texts, on which calls may fail and other processes
--   may write. Locks: src/locks.rs.
-- - Prompts: src/workflow.rs. Rules and ReviewRules are its fixed texts and rules, Sections the
--   parts that prompts share, and Initial, Review, Repair and Feedback the five templates, each
--   as the list of its pieces, one for each line and each value put in.
-- - Run: src/orchestrator/mod.rs, `run`, `step` and `error_to_run_state`. Run/Core is an abstract
--   machine over four fields of the context, Run/Moves and Run/Steps show that every phase
--   follows it, and Run/Invariant carries invariants of that machine over the loop.
--   Context/Triple has the rules by which actions are reasoned about.
-- - Samples: one concrete run and other small data, with an example for each result.
--
-- Loops without a bound in the code, the main loop and the loop over probes, take the list of the
-- observations that they make, one for each round; a run whose observations end first is
-- `waiting`, and results on ended runs hold for every such list. The walk over processes takes
-- fuel, and fuel for all processes of the table is proved enough. All other loops are structural.
--
-- Not modelled: the command line (src/main.rs), the spawning of processes, the printing of JSON
-- and the logging. They are parameters or only write output. The phases take the transport files,
-- the locks and the collected signals as parameters of their own; Providers/Discovery fills the
-- binding with the modelled discoveries and Transport/Dispatches and Prompts/Render fill a
-- dispatch with the modelled transport files and prompts; Locks and Signals/Collecting stand
-- beside the phases.
pub mod Constants
pub mod Context
pub mod Env
pub mod Errors
pub mod Files
pub mod Fsm
pub mod Git
pub mod Grace
pub mod Json
pub mod Locks
pub mod Monitor
pub mod Phases
pub mod Prelude
pub mod Prompts
pub mod Providers
pub mod Report
pub mod Review
pub mod Run
pub mod Samples
pub mod Signals
pub mod Snapshot
pub mod State
pub mod Time
pub mod Transport
