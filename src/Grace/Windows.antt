-- ===== src/Grace/Windows.antt =====
-- How long the grace periods can last.
use multi_agent_orchestrator.Prelude.{
  ℕ, ◌≡◌, refl, ◌∙◌, Bool, true, false, Option, none, some, List, [], ◌∷◌, if◌then◌else◌,
}
use multi_agent_orchestrator.Constants.{commit_grace_sec, outbox_grace_sec}
use multi_agent_orchestrator.Time.{after}
use multi_agent_orchestrator.Grace.{Deadlines, apply_grace_transitions}

-- At most one of the two periods is open.
abbrev pub OnePeriod : Deadlines → Type 0
OnePeriod (some c, some o) = ⊥
OnePeriod _ = Unit

-- A transition keeps at most one period open, whatever the probe saw.
pub grace-OnePeriod :
    (dirty committed outbox : Bool) (g : Deadlines) (now : ℕ)
    → OnePeriod g
    → OnePeriod (apply_grace_transitions dirty committed outbox g now)
unfolding apply_grace_transitions
grace-OnePeriod true true true g now h = tt
grace-OnePeriod true true false g now h = tt
grace-OnePeriod true false true g now h = tt
grace-OnePeriod true false false (none, none) now h = tt
grace-OnePeriod true false false (some c, none) now h = tt
grace-OnePeriod true false false (none, some o) now h = tt
grace-OnePeriod true false false (some c, some o) now h = absurd h
grace-OnePeriod false true true g now h = tt
grace-OnePeriod false true false g now h = tt
grace-OnePeriod false false true g now h = tt
grace-OnePeriod false false false g now h = h

-- What a probe without an outbox saw: a dirty worktree, a commit, and the time of the probe.
abbrev pub Sight : Type 0
Sight = Bool × Bool × ℕ

-- The deadlines after some probes that saw no outbox.
abbrev pub grace_run : Deadlines → List Sight → Deadlines
grace_run g [] = g
grace_run g ((dirty, committed, now) ∷ rest) =
    grace_run (apply_grace_transitions dirty committed false g now) rest

abbrev pub first_dirty : List Sight → Option ℕ
first_dirty [] = none
first_dirty ((dirty, committed, now) ∷ rest) = if dirty then some now else first_dirty rest

abbrev pub first_committed : List Sight → Option ℕ
first_committed [] = none
first_committed ((dirty, committed, now) ∷ rest) =
    if committed then some now else first_committed rest

-- The deadlines read off the whole history of an attempt.
abbrev pub windows : Option ℕ → Option ℕ → Deadlines
windows (some t) dirty = (none, some (after t outbox_grace_sec))
windows none none = (none, none)
windows none (some t) = (some (after t commit_grace_sec), none)

abbrev pub keep_commit : Option ℕ → ℕ → Deadlines
keep_commit (some t) c = (none, some (after t outbox_grace_sec))
keep_commit none c = (some c, none)

run_outbox : (o : ℕ) (seen : List Sight) → grace_run (none, some o) seen ≡ (none, some o)
unfolding apply_grace_transitions
run_outbox o [] = refl
run_outbox o ((true, true, now) ∷ rest) = run_outbox o rest
run_outbox o ((true, false, now) ∷ rest) = run_outbox o rest
run_outbox o ((false, true, now) ∷ rest) = run_outbox o rest
run_outbox o ((false, false, now) ∷ rest) = run_outbox o rest

run_commit :
    (c : ℕ) (seen : List Sight)
    → grace_run (some c, none) seen ≡ keep_commit (first_committed seen) c
unfolding apply_grace_transitions
run_commit c [] = refl
run_commit c ((true, true, now) ∷ rest) = run_outbox (after now outbox_grace_sec) rest
run_commit c ((true, false, now) ∷ rest) = run_commit c rest
run_commit c ((false, true, now) ∷ rest) = run_outbox (after now outbox_grace_sec) rest
run_commit c ((false, false, now) ∷ rest) = run_commit c rest

keep_commit-windows :
    (o : Option ℕ) (t : ℕ) → keep_commit o (after t commit_grace_sec) ≡ windows o (some t)
keep_commit-windows none t = refl
keep_commit-windows (some u) t = refl

-- While no outbox appears, the outbox deadline is 180 seconds after the first probe that saw a
-- commit and never moves; before any commit the commit deadline is 180 seconds after the first
-- probe that saw a dirty worktree and never moves.
pub grace_run-windows :
    (seen : List Sight)
    → grace_run (none, none) seen ≡ windows (first_committed seen) (first_dirty seen)
unfolding apply_grace_transitions
grace_run-windows [] = refl
grace_run-windows ((true, true, now) ∷ rest) = run_outbox (after now outbox_grace_sec) rest
grace_run-windows ((true, false, now) ∷ rest) =
    run_commit (after now commit_grace_sec) rest ∙ keep_commit-windows (first_committed rest) now
grace_run-windows ((false, true, now) ∷ rest) = run_outbox (after now outbox_grace_sec) rest
grace_run-windows ((false, false, now) ∷ rest) = grace_run-windows rest
