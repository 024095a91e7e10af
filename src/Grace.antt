-- ===== src/Grace.antt =====
-- src/orchestrator/monitor.rs, the grace periods of an executor that is finishing.
pub mod Windows
use multi_agent_orchestrator.Prelude.{
  ℕ, Bool, not, ◌&&◌, Option, none, some, is_none, if◌then◌else◌, or_else,
}
use multi_agent_orchestrator.Constants.{commit_grace_sec, outbox_grace_sec}
use multi_agent_orchestrator.Time.{after}

-- The two deadlines, for the commit and for the outbox.
abbrev pub Deadlines : Type 0
Deadlines = Option ℕ × Option ℕ

unfoldable pub apply_grace_transitions : Bool → Bool → Bool → Deadlines → ℕ → Deadlines
apply_grace_transitions git_dirty git_committed outbox_present (commit, outbox) now =
    if outbox_present
    then (none, none)
    else if git_committed
    then (none, if is_none outbox then some (after now outbox_grace_sec) else outbox)
    else if git_dirty && is_none commit && is_none outbox
    then (some (after now commit_grace_sec), outbox)
    else (commit, outbox)
