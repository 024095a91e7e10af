-- ===== src/Run/Core.antt =====
-- The part of the context that the run's state machine turns on, and how one step may change it:
-- the `match` of `step` in src/orchestrator/mod.rs and the phases that it calls.
use multi_agent_orchestrator.Prelude.{
  ℕ, ◌+◌, ◌%◌, ◌^◌, ◌≤◌, ◌<◌, ◌≡◌, ◌⊎◌, true, false, Option, none, some,
}
use multi_agent_orchestrator.Constants.{consecutive_failure_limit}
use multi_agent_orchestrator.State.{RunState, NotionPolicy, optional, required}
use multi_agent_orchestrator.Review.{
  ReviewerYaml, ReviewDecision, accept, revise, blocked, irreconcilable_disagreement,
  poisoned_session,
}
use multi_agent_orchestrator.Review.Valid.{IsValid}
use multi_agent_orchestrator.Context.{CliArgs, OrchestratorCtx}

pub record Core : Type 0 where
  pub state : RunState
  pub verdict : Option ReviewerYaml
  pub args : CliArgs
  pub failures : ℕ

abbrev pub core : OrchestratorCtx → Core
core c = record {
  state = c.run_state;
  verdict = c.review_result;
  args = c.args;
  failures = c.consecutive_failure_count;
}

abbrev pub to : RunState → Core → Core
to s k = record k { state = s }

-- A failure that is counted and leads to the retry decision.
abbrev pub retried : Core → Core
retried k = record k { state = RunState.round_retry_decide; failures = (k.failures + 1) % 2 ^ 32 }

-- With the required Notion policy an accepted verdict has to say that its demands are met, and any
-- other verdict has to say whether they are.
abbrev pub NotionSettled : NotionPolicy → ReviewerYaml → Type 0
NotionSettled optional y = Unit
NotionSettled required y =
    (y.notion_requirements_satisfied ≡ some true)
    ⊎ ((y.notion_requirements_satisfied ≡ some false) × (y.decision ≡ accept → ⊥))

-- A verdict that was saved has passed every check.
abbrev pub Checked : CliArgs → Option ReviewerYaml → Type 0
Checked a none = Unit
Checked a (some y) = IsValid y × NotionSettled a.notion_policy y

-- What the quality gate does to the core.
abbrev pub gated_by : ReviewDecision → Core → Core
gated_by accept k = to RunState.run_done (record k { failures = 0 })
gated_by revise k = to RunState.round_feedback_prep (record k { failures = 0 })
gated_by blocked k = to RunState.run_failed_external_blocker (record k { failures = 0 })
gated_by irreconcilable_disagreement k =
    to RunState.run_failed_irreconcilable_disagreement (record k { failures = 0 })
gated_by poisoned_session k = to RunState.run_failed_poisoned_session (record k { failures = 0 })

abbrev pub gated : Option ReviewerYaml → Core → Core
gated none k = to RunState.run_failed_protocol k
gated (some y) k = gated_by y.decision k

-- Where the retry decision leads, by the number of failures in a row.
abbrev pub RetryTarget : ℕ → RunState → Type 0
RetryTarget n s =
    ((consecutive_failure_limit ≤ n) × (s ≡ RunState.run_failed_consecutive_failure_limit))
    ⊎ ((n < consecutive_failure_limit)
        × ((s ≡ RunState.executor_dispatch) ⊎ (s ≡ RunState.reviewer_dispatch)))

-- How the monitoring of an attempt ends.
abbrev pub Ended : RunState → Core → Core → Type 0
Ended collect x y =
    (y ≡ to collect x)
    ⊎ (y ≡ retried x)
    ⊎ (y ≡ to RunState.run_failed_service_cap x)
    ⊎ (y ≡ to RunState.run_aborted x)

-- The verdict is as it was, or was saved now and had passed every check.
abbrev pub Saved : Core → Option ReviewerYaml → Type 0
Saved x v = (v ≡ x.verdict) ⊎ (Checked x.args v × (v ≡ none → ⊥))

-- How the reviewer's output is settled.
abbrev pub Settled : Core → Core → Type 0
Settled x y =
    Saved x y.verdict
    × ((y ≡ retried (record x { verdict = y.verdict }))
        ⊎ ((y ≡ to RunState.quality_gate (record x { verdict = y.verdict }))
            × (y.verdict ≡ none → ⊥)))

-- What a phase that returned did, by the state that it was entered in.
abbrev pub Moved : RunState → Core → Core → Type 0
Moved RunState.context_prep x y = y ≡ to RunState.session_bind x
Moved RunState.session_bind x y = y ≡ to RunState.executor_dispatch x
Moved RunState.executor_dispatch x y = y ≡ to RunState.executor_monitor x
Moved RunState.executor_monitor x y = Ended RunState.executor_output_collect x y
Moved RunState.round_retry_decide x y = (y ≡ to y.state x) × RetryTarget x.failures y.state
Moved RunState.executor_output_collect x y = y ≡ to RunState.orch_verify x
Moved RunState.orch_verify x y = y ≡ to RunState.reviewer_dispatch (record x { verdict = none })
Moved RunState.reviewer_dispatch x y = y ≡ to RunState.reviewer_monitor x
Moved RunState.reviewer_monitor x y = Ended RunState.reviewer_output_collect x y
Moved RunState.reviewer_output_collect x y = Settled x y
Moved RunState.quality_gate x y = y ≡ gated x.verdict x
Moved RunState.round_feedback_prep x y = y ≡ to RunState.executor_dispatch x
Moved _ x y = y ≡ x

-- What a phase that stopped, or still waits, did: at most it saved a verdict.
abbrev pub Stopped : Core → Core → Type 0
Stopped x y = Saved x y.verdict × (y ≡ record x { verdict = y.verdict })
