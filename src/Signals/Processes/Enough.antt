-- ===== src/Signals/Processes/Enough.antt =====
-- The walk over the descendants ends: fuel for the processes there are is enough.
use multi_agent_orchestrator.Prelude.{
  ◌≡◌, refl, sym, subst, inl, inr, ℕ, zero, suc, ◌+◌, ◌≤◌, ◌<◌, ltb, Bool, true, false, Option,
  none, some, List, [], ◌∷◌, length, arith, if◌then◌else◌, is_some,
}
use multi_agent_orchestrator.Signals.Processes.{
  ProcessTable, Walk, has_seen, is_active, Scan, live, going, Step, finished, more, push, new_child,
  see_child, then_scan, scan_children, scan_tasks, scan_process, after_scan, iterate, walk_loop,
  start, has_live_child_processes, max_depth,
}
use multi_agent_orchestrator.Signals.Processes.Live.{In, InTasks}

-- The processes of a list that were not seen yet.
abbrev unseen : List ℕ → List ℕ → ℕ
unseen [] visited = 0
unseen (p ∷ ps) visited = if has_seen visited p then unseen ps visited else suc (unseen ps visited)

unseen-later : (ps visited : List ℕ) (c : ℕ) → unseen ps (c ∷ visited) ≤ unseen ps visited
unseen-later [] visited c = omega arith
unseen-later (p ∷ ps) visited c = ground (arith, unseen-later ps visited c)

unseen-next :
    (ps visited : List ℕ) (c : ℕ)
    → In c ps
    → has_seen visited c ≡ false
    → suc (unseen ps (c ∷ visited)) ≤ unseen ps visited
unseen-next [] visited c i new = absurd i
unseen-next (p ∷ ps) visited c (inl e) new =
    let seen : has_seen visited p ≡ false = subst (λ q. has_seen visited q ≡ false) (sym e) new in
    ground (arith, unseen-later ps visited c)
unseen-next (p ∷ ps) visited c (inr i) new = ground (arith, unseen-next ps visited c i new)

module _ (table : ProcessTable) (pids : List ℕ) where
  -- Every child that the table tells of is one of the processes.
  abbrev pub Closed : Type 0
  Closed =
      (current : ℕ) (ts : List (Option (List ℕ))) (child : ℕ)
      → table.tasks current ≡ some ts
      → InTasks child ts
      → In child pids

  abbrev measure : Walk → ℕ
  measure w = length w.queue + unseen pids w.visited

  abbrev Within : ℕ → Scan → Type 0
  Within n live = Unit
  Within n (going w) = measure w ≤ n

  see_child-Within :
      (depth child n : ℕ) (w : Walk)
      → In child pids
      → measure w ≤ n
      → Within n (see_child table depth child w)
  see_child-Within depth child n w i le = by_seen (has_seen w.visited child) refl
    where
      by_depth :
          (b : Bool)
          → has_seen w.visited child ≡ false
          → length (if b then (child, suc depth) ∷ w.queue else w.queue)
              + unseen pids (child ∷ w.visited)
            ≤ n
      by_depth true new = omega (arith, unseen-next pids w.visited child i new)
      by_depth false new = omega (arith, unseen-next pids w.visited child i new)

      by_state :
          (a : Bool)
          → has_seen w.visited child ≡ false
          → Within n (elim a [ true ↦ live | false ↦ going (push table child depth w) ])
      by_state true new = tt
      by_state false new = by_depth (ltb depth max_depth) new

      by_seen :
          (b : Bool)
          → has_seen w.visited child ≡ b
          → Within n (elim b [ true ↦ going w | false ↦ new_child table depth child w ])
      by_seen true seen = le
      by_seen false new = by_state (is_active (table.state child)) new

  then_scan-Within :
      (n : ℕ) (s : Scan) (f : Walk → Scan)
      → Within n s
      → ((w : Walk) → measure w ≤ n → Within n (f w))
      → Within n (then_scan table s f)
  then_scan-Within n live f s h = s
  then_scan-Within n (going w) f s h = h w s

  scan_children-Within :
      (depth n : ℕ) (cs : List ℕ)
      → ((child : ℕ) → In child cs → In child pids)
      → (w : Walk) → measure w ≤ n
      → Within n (scan_children table depth cs w)
  unfolding scan_children
  scan_children-Within depth n [] is w le = le
  scan_children-Within depth n (c ∷ cs) is w le =
      then_scan-Within n (see_child table depth c w) (scan_children table depth cs)
        (see_child-Within depth c n w (is c (inl refl)) le)
        (scan_children-Within depth n cs (λ child i. is child (inr i)))

  scan_tasks-Within :
      (depth n : ℕ) (ts : List (Option (List ℕ)))
      → ((child : ℕ) → InTasks child ts → In child pids)
      → (w : Walk) → measure w ≤ n
      → Within n (scan_tasks table depth ts w)
  unfolding scan_tasks
  scan_tasks-Within depth n [] is w le = le
  scan_tasks-Within depth n (none ∷ ts) is w le = scan_tasks-Within depth n ts is w le
  scan_tasks-Within depth n (some cs ∷ ts) is w le =
      then_scan-Within n (scan_children table depth cs w) (scan_tasks table depth ts)
        (scan_children-Within depth n cs (λ child i. is child (inl i)) w le)
        (scan_tasks-Within depth n ts (λ child i. is child (inr i)))

  abbrev Fits : ℕ → Step → Type 0
  Fits n (finished b) = Unit
  Fits n (more w) = suc (measure w) ≤ n

  Fits-more : {n m : ℕ} (s : Step) → n ≤ m → Fits n s → Fits m s
  Fits-more (finished b) le f = tt
  Fits-more (more w) le f = omega arith

  scanned-Fits : (n : ℕ) (s : Scan) → Within n s → Fits (suc n) (after_scan table s)
  scanned-Fits n live s = tt
  scanned-Fits n (going w) s = omega arith

  iterate-Fits :
      (closed : Closed) (queue : List (ℕ × ℕ)) (visited : List ℕ)
      → Fits (length queue + unseen pids visited) (iterate table queue visited)
  iterate-Fits closed [] visited = tt
  iterate-Fits closed ((current, depth) ∷ queue) visited = by_tasks (table.tasks current) refl
    where
      n : ℕ
      n = length queue + unseen pids visited

      w : Walk
      w = record { queue = queue; visited = visited }

      by_tasks :
          (o : Option (List (Option (List ℕ))))
          → table.tasks current ≡ o
          → Fits (suc (length queue) + unseen pids visited) (
              after_scan table
                (scan_process table depth o (record { queue = queue; visited = visited })))
      by_tasks none e = omega arith
      by_tasks (some ts) e =
          Fits-more (after_scan table (scan_process table depth (some ts) w)) (omega arith) (
            scanned-Fits n (scan_process table depth (some ts) w) (
              scan_tasks-Within depth n ts (λ child i. closed current ts child e i) w
                (omega arith)))

  walk_loop-returns :
      (closed : Closed) (fuel : ℕ) (w : Walk)
      → measure w < fuel
      → is_some (walk_loop table fuel w) ≡ true
  unfolding walk_loop
  walk_loop-returns closed zero w lt = absurd (omega arith)
  walk_loop-returns closed (suc fuel) w lt =
      by_step (iterate table w.queue w.visited) (iterate-Fits closed w.queue w.visited)
        (walk_loop-returns closed fuel)
    where
      by_step :
          (s : Step)
          → Fits (measure w) s
          → ((next : Walk) → measure next < fuel → is_some (walk_loop table fuel next) ≡ true)
          → is_some (elim s [ finished found ↦ some found | more next ↦ walk_loop table fuel next ])
            ≡ true
      by_step (finished b) f ih = refl
      by_step (more next) f ih = ih next (omega arith)

unseen-length : (ps visited : List ℕ) → unseen ps visited ≤ length ps
unseen-length [] visited = omega arith
unseen-length (p ∷ ps) visited = ground (arith, unseen-length ps visited)

-- The walk always ends, even where processes are each other's children: with more fuel than there
-- are processes, and one step for the first, it returns an answer.
pub has_live_child_processes-returns :
    (table : ProcessTable) (pids : List ℕ) (fuel pid : ℕ)
    → Closed table pids
    → length pids + 1 < fuel
    → is_some (has_live_child_processes table fuel pid) ≡ true
unfolding has_live_child_processes
has_live_child_processes-returns table pids fuel pid closed enough =
    walk_loop-returns table pids closed fuel (start table pid)
      (omega (arith, unseen-length pids (pid ∷ [])))
