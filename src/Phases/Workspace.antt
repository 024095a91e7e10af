-- ===== src/Phases/Workspace.antt =====
-- What the check of the reviewer's workspace lets through.
use multi_agent_orchestrator.Prelude.{
  ◌≡◌, ◌∙◌, ◌↔◌, refl, ap, ◌⊎◌, inl, inr, Bool, true, false, String, List, [], ◌∷◌, Option, none,
  some, str_eq, eq_iff, if◌then◌else◌, arith,
}
use multi_agent_orchestrator.Prelude.Text.{lines}
use multi_agent_orchestrator.Errors.{Result, ok, err, panic}
use multi_agent_orchestrator.Phases.Verdict.{
  is_line_of, path_part, dirty_from, some_lines, reviewer_workspace_dirty_lines,
}

-- A line that stood there before the review, or that is of the outbox.
abbrev pub Expected : List String → String → String → Type 0
Expected initial outbox_rel l = (is_line_of initial l ≡ true) ⊎ (path_part l ≡ some outbox_rel)

abbrev pub AllExpected : List String → String → List String → Type 0
AllExpected initial outbox_rel [] = Unit
AllExpected initial outbox_rel (l ∷ ls) =
    Expected initial outbox_rel l × AllExpected initial outbox_rel ls

Expected-by :
    (initial : List String) (outbox_rel l : String) (b : Bool)
    → is_line_of initial l ≡ b
    → (kept : Result (List String))
    → (if b then kept else elim (path_part l) [
      | none ↦ panic
      | some path ↦
          if str_eq path outbox_rel
          then kept
          else elim kept [ ok ks ↦ ok (l ∷ ks) | err e ↦ err e | panic ↦ panic ]
    ])
      ≡ ok []
    → Expected initial outbox_rel l × (kept ≡ ok [])
Expected-by initial rel l true e kept h = (inl e, h)
Expected-by initial rel l false e kept h = by_path (path_part l) refl h
  where
    by_path :
        (p : Option String)
        → path_part l ≡ p
        → (elim p [
          | none ↦ panic
          | some path ↦
              if str_eq path rel
              then kept
              else elim kept [ ok ks ↦ ok (l ∷ ks) | err e ↦ err e | panic ↦ panic ]
        ])
          ≡ ok []
        → Expected initial rel l × (kept ≡ ok [])
    by_path none q h = cc
    by_path (some path) q h = ground (arith, eq_iff path rel)

dirty_from-nil :
    (initial : List String) (outbox_rel : String) (ls : List String)
    → dirty_from initial outbox_rel ls ≡ ok []
    → AllExpected initial outbox_rel ls
unfolding dirty_from
dirty_from-nil initial rel [] h = tt
dirty_from-nil initial rel (l ∷ ls) h =
    let (a, b) =
      Expected-by initial rel l (is_line_of initial l) refl (dirty_from initial rel ls) h in
    (a, dirty_from-nil initial rel ls b)

lines_pass : (r : Result (List String)) → some_lines r ≡ ok none → r ≡ ok []
lines_pass (ok []) h = refl
lines_pass (ok (l ∷ ls)) h = cc
lines_pass (err e) h = cc
lines_pass panic h = cc

-- A line of the outbox is passed over.
passed_by :
    (outbox_rel l : String) (b : Bool) (kept : Result (List String))
    → path_part l ≡ some outbox_rel
    → (if b then kept else elim (path_part l) [
      | none ↦ panic
      | some path ↦
          if str_eq path outbox_rel
          then kept
          else elim kept [ ok ks ↦ ok (l ∷ ks) | err e ↦ err e | panic ↦ panic ]
    ])
      ≡ kept
passed_by rel l true kept e = refl
passed_by rel l false kept e = rw e (ground (arith, eq_iff rel rel))

dirty_from-AllExpected :
    (initial : List String) (outbox_rel : String) (ls : List String)
    → AllExpected initial outbox_rel ls
    → dirty_from initial outbox_rel ls ≡ ok []
unfolding dirty_from
dirty_from-AllExpected initial rel [] h = refl
dirty_from-AllExpected initial rel (l ∷ ls) (inl e, h) =
    rw e (dirty_from-AllExpected initial rel ls h)
dirty_from-AllExpected initial rel (l ∷ ls) (inr e, h) =
    passed_by rel l (is_line_of initial l) (dirty_from initial rel ls) e
    ∙ dirty_from-AllExpected initial rel ls h

-- The workspace passes the check after a review exactly when each line of the status stood there
-- before the review or is of the reviewer's outbox.
pub dirty_lines-AllExpected :
    (initial current outbox_rel : String)
    → (reviewer_workspace_dirty_lines initial current outbox_rel ≡ ok none)
      ↔ AllExpected (lines initial) outbox_rel (lines current)
unfolding reviewer_workspace_dirty_lines
dirty_lines-AllExpected initial current rel = (
  λ h.
      dirty_from-nil (lines initial) rel (lines current)
        (lines_pass (dirty_from (lines initial) rel (lines current)) h),
  λ h. ap some_lines (dirty_from-AllExpected (lines initial) rel (lines current) h),
)
