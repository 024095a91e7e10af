-- ===== src/Report/Codes.antt =====
-- How reason codes stand to terminal states.
use multi_agent_orchestrator.Prelude.{◌≡◌, ◌↔◌, true, arith}
use multi_agent_orchestrator.State.{RunState, is_terminal}
use multi_agent_orchestrator.Report.{is_success, reason_code_for_state}

-- Two terminal states with the same reason code are the same state.
pub reason_code_injective :
    (s t : RunState)
    → is_terminal s ≡ true
    → is_terminal t ≡ true
    → reason_code_for_state s ≡ reason_code_for_state t
    → s ≡ t
unfolding is_terminal reason_code_for_state
reason_code_injective s t hs ht e = ground arith

-- Of all states exactly `run_done` is reported as a success.
pub is_success_iff :
    (s : RunState) → (is_success (reason_code_for_state s) ≡ true) ↔ (s ≡ RunState.run_done)
unfolding is_success reason_code_for_state
is_success_iff s = ground arith
