-- ===== src/Signals/Processes/Live.antt =====
-- What the walk over the descendants reports.
use multi_agent_orchestrator.Prelude.{
  ◌≡◌, refl, ◌⊎◌, inl, inr, ℕ, zero, suc, ltb, Bool, true, false, Option, none, some, List, [], ◌∷◌,
  All, if◌then◌else◌,
}
use multi_agent_orchestrator.Signals.Processes.{
  ProcessTable, Walk, has_seen, is_active, Scan, live, going, Step, finished, more, push, new_child,
  see_child, then_scan, scan_children, scan_tasks, scan_process, after_scan, iterate, walk_loop,
  start, has_live_child_processes, max_depth,
}

-- `child` is among the children of a task that can be read.
abbrev pub In : ℕ → List ℕ → Type 0
In child [] = ⊥
In child (c ∷ cs) = (c ≡ child) ⊎ In child cs

abbrev pub InTasks : ℕ → List (Option (List ℕ)) → Type 0
InTasks child [] = ⊥
InTasks child (none ∷ ts) = InTasks child ts
InTasks child (some cs ∷ ts) = In child cs ⊎ InTasks child ts

module _ (table : ProcessTable) (pid : ℕ) where
  abbrev pub IsChild : ℕ → ℕ → Type 0
  IsChild child current =
      (ts : List (Option (List ℕ))) × (table.tasks current ≡ some ts) × InTasks child ts

  -- A descendant of the process.
  pub data Descends : ℕ → Type 0 where
    itself : Descends pid
    child_of : {current child : ℕ} → Descends current → IsChild child current → Descends child

  -- A descendant, other than by being the process itself, that is neither a zombie nor dead.
  abbrev pub LiveBelow : Type 0
  LiveBelow =
      (current : ℕ) × (child : ℕ) × Descends current
      × IsChild child current
      × (is_active (table.state child) ≡ true)

  abbrev Queued : List (ℕ × ℕ) → Type 0
  Queued queue = All (λ entry. Descends entry.0) queue

  -- What a scan leaves: a live descendant, or a queue of descendants.
  abbrev Sound : Scan → Type 0
  Sound live = LiveBelow
  Sound (going w) = Queued w.queue

  new_child-Sound :
      (depth child : ℕ) (w : Walk) {current : ℕ}
      → Descends current
      → IsChild child current
      → Queued w.queue
      → Sound (new_child table depth child w)
  new_child-Sound depth child w {current} below is queued =
      by_state (is_active (table.state child)) refl
    where
      by_depth : (b : Bool) → Queued (if b then (child, suc depth) ∷ w.queue else w.queue)
      by_depth true = (child_of below is, queued)
      by_depth false = queued

      by_state :
          (b : Bool)
          → is_active (table.state child) ≡ b
          → Sound (elim b [ true ↦ live | false ↦ going (push table child depth w) ])
      by_state true a = (current, child, below, is, a)
      by_state false a = by_depth (ltb depth max_depth)

  see_child-Sound :
      (depth child : ℕ) (w : Walk) {current : ℕ}
      → Descends current
      → IsChild child current
      → Queued w.queue
      → Sound (see_child table depth child w)
  see_child-Sound depth child w below is queued = by_seen (has_seen w.visited child)
    where
      by_seen :
          (b : Bool) → Sound (elim b [ true ↦ going w | false ↦ new_child table depth child w ])
      by_seen true = queued
      by_seen false = new_child-Sound depth child w below is queued

  then_scan-Sound :
      (s : Scan) (f : Walk → Scan)
      → Sound s
      → ((w : Walk) → Queued w.queue → Sound (f w))
      → Sound (then_scan table s f)
  then_scan-Sound live f s h = s
  then_scan-Sound (going w) f s h = h w s

  module _ (current : ℕ) (below : Descends current) (depth : ℕ) where
    scan_children-Sound :
        (cs : List ℕ)
        → ((child : ℕ) → In child cs → IsChild child current)
        → (w : Walk) → Queued w.queue
        → Sound (scan_children table depth cs w)
    unfolding scan_children
    scan_children-Sound [] is w queued = queued
    scan_children-Sound (c ∷ cs) is w queued =
        then_scan-Sound (see_child table depth c w) (scan_children table depth cs)
          (see_child-Sound depth c w below (is c (inl refl)) queued)
          (scan_children-Sound cs (λ child i. is child (inr i)))

    scan_tasks-Sound :
        (ts : List (Option (List ℕ)))
        → ((child : ℕ) → InTasks child ts → IsChild child current)
        → (w : Walk) → Queued w.queue
        → Sound (scan_tasks table depth ts w)
    unfolding scan_tasks
    scan_tasks-Sound [] is w queued = queued
    scan_tasks-Sound (none ∷ ts) is w queued = scan_tasks-Sound ts is w queued
    scan_tasks-Sound (some cs ∷ ts) is w queued =
        then_scan-Sound (scan_children table depth cs w) (scan_tasks table depth ts)
          (scan_children-Sound cs (λ child i. is child (inl i)) w queued)
          (scan_tasks-Sound ts (λ child i. is child (inr i)))

    scan_process-Sound :
        (o : Option (List (Option (List ℕ)))) (w : Walk)
        → table.tasks current ≡ o
        → Queued w.queue
        → Sound (scan_process table depth o w)
    scan_process-Sound none w e queued = queued
    scan_process-Sound (some ts) w e queued = scan_tasks-Sound ts (λ child i. (ts, e, i)) w queued

  abbrev After : Step → Type 0
  After (finished true) = LiveBelow
  After (finished false) = Unit
  After (more w) = Queued w.queue

  after_scan-After : (s : Scan) → Sound s → After (after_scan table s)
  after_scan-After live s = s
  after_scan-After (going w) s = s

  iterate-After :
      (queue : List (ℕ × ℕ)) (visited : List ℕ) → Queued queue → After (iterate table queue visited)
  iterate-After [] visited q = tt
  iterate-After ((current, depth) ∷ queue) visited (below, q) = after_scan-After _ (
      scan_process-Sound current below depth (table.tasks current)
        (record { queue = queue; visited = visited }) refl q)

  walk_loop-LiveBelow :
      (fuel : ℕ) (w : Walk) → Queued w.queue → walk_loop table fuel w ≡ some true → LiveBelow
  unfolding walk_loop
  walk_loop-LiveBelow zero w q e = cc
  walk_loop-LiveBelow (suc fuel) w q e =
      by_step (iterate table w.queue w.visited) (iterate-After w.queue w.visited q)
        (walk_loop-LiveBelow fuel) e
    where
      by_step :
          (s : Step)
          → After s
          → ((next : Walk) → Queued next.queue → walk_loop table fuel next ≡ some true → LiveBelow)
          → (elim s [ finished found ↦ some found | more next ↦ walk_loop table fuel next ])
            ≡ some true
          → LiveBelow
      by_step (finished true) a ih e = a
      by_step (finished false) a ih e = cc
      by_step (more next) a ih e = ih next a e

  -- The walk reports a live child only where a descendant of the process is neither a zombie nor
  -- dead.
  pub has_live_child_processes-LiveBelow :
      (fuel : ℕ) → has_live_child_processes table fuel pid ≡ some true → LiveBelow
  unfolding has_live_child_processes
  has_live_child_processes-LiveBelow fuel e =
      walk_loop-LiveBelow fuel (start table pid) (itself, tt) e
