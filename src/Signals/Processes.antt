-- ===== src/Signals/Processes.antt =====
-- src/signals.rs, `has_live_child_processes`: the walk over a provider's descendants.
pub mod Live
pub mod Enough
use multi_agent_orchestrator.Prelude.{
  ℕ, zero, suc, ◌+◌, ltb, ◌==◌, Bool, true, false, not, ◌&&◌, ◌||◌, Option, none, some, List, [],
  ◌∷◌, any, if◌then◌else◌,
}

abbrev pub max_depth : ℕ
max_depth = 4

-- The process table: the tasks of a process, each with its children where they can be read, and the
-- state letter of a process.
pub record ProcessTable : Type 0 where
  pub tasks : ℕ → Option (List (Option (List ℕ)))
  pub state : ℕ → Option ℕ

-- The stack of processes to look at, each with its depth, the next one first; and those seen.
pub record Walk : Type 0 where
  pub queue : List (ℕ × ℕ)
  pub visited : List ℕ

abbrev pub has_seen : List ℕ → ℕ → Bool
has_seen visited pid = any (λ v. v == pid) visited

-- Neither a zombie, `Z`, nor dead, `X`.
abbrev pub is_active : Option ℕ → Bool
is_active none = false
is_active (some letter) = not (letter == b'Z') && not (letter == b'X')

-- What a loop over children leaves: a live one was found, or the walk goes on.
pub data Scan : Type 0 where
  live : Scan
  going : Walk → Scan

pub data Step : Type 0 where
  finished : Bool → Step
  more : Walk → Step

module _ (table : ProcessTable) where
  abbrev pub push : ℕ → ℕ → Walk → Walk
  push child depth w = record {
    queue = if ltb depth max_depth then (child, suc depth) ∷ w.queue else w.queue;
    visited = child ∷ w.visited;
  }

  -- A child that was not seen before.
  abbrev pub new_child : ℕ → ℕ → Walk → Scan
  new_child depth child w = elim (is_active (table.state child)) [
    | true ↦ live
    | false ↦ going (push child depth w)
  ]

  abbrev pub see_child : ℕ → ℕ → Walk → Scan
  see_child depth child w = elim (has_seen w.visited child) [
    | true ↦ going w
    | false ↦ new_child depth child w
  ]

  abbrev pub then_scan : Scan → (Walk → Scan) → Scan
  then_scan live f = live
  then_scan (going w) f = f w

  unfoldable pub scan_children : ℕ → List ℕ → Walk → Scan
  scan_children depth [] w = going w
  scan_children depth (child ∷ children) w =
      then_scan (see_child depth child w) (scan_children depth children)

  unfoldable pub scan_tasks : ℕ → List (Option (List ℕ)) → Walk → Scan
  scan_tasks depth [] w = going w
  scan_tasks depth (none ∷ ts) w = scan_tasks depth ts w
  scan_tasks depth (some children ∷ ts) w =
      then_scan (scan_children depth children w) (scan_tasks depth ts)

  abbrev pub scan_process : ℕ → Option (List (Option (List ℕ))) → Walk → Scan
  scan_process depth none w = going w
  scan_process depth (some ts) w = scan_tasks depth ts w

  abbrev pub after_scan : Scan → Step
  after_scan live = finished true
  after_scan (going w) = more w

  -- One iteration: the queue is empty, or its next process is looked at.
  abbrev pub iterate : List (ℕ × ℕ) → List ℕ → Step
  iterate [] visited = finished false
  iterate ((current, depth) ∷ queue) visited =
      after_scan
        (scan_process depth (table.tasks current) (record { queue = queue; visited = visited }))

  -- The loop on fuel; `none` where the fuel runs out.
  unfoldable pub walk_loop : ℕ → Walk → Option Bool
  walk_loop zero w = none
  walk_loop (suc fuel) w = elim (iterate w.queue w.visited) [
    | finished found ↦ some found
    | more next ↦ walk_loop fuel next
  ]

  abbrev pub start : ℕ → Walk
  start pid = record { queue = (pid, 0) ∷ []; visited = pid ∷ [] }

  unfoldable pub has_live_child_processes : ℕ → ℕ → Option Bool
  has_live_child_processes fuel pid = walk_loop fuel (start pid)
