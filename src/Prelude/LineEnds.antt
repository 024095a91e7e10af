-- ===== src/Prelude/LineEnds.antt =====
-- The lines of a text that is appended to another.
use Prim.Native.Char.{Char, code}
use Prim.Native.String
use Prim.Native.String.{String, [], ◌∷◌}
use mathlib.Core.Path.{◌≡◌, refl, ap, ◌∙◌}
use mathlib.Core.Logic.{inl, inr}
use mathlib.Core.Bool.{Bool, true, false}
use mathlib.Core.List.{List}
use mathlib.Core.List
use text.Mathlib.TextLemmas.{cons-append, nil-append}
use multi_agent_orchestrator.Prelude.Tests.{◌==◌, Bool-cases, if◌then◌else◌}
use multi_agent_orchestrator.Prelude.Text.{strip_cr, lines_from, lines}

-- The text ends in a line end.
abbrev pub ends_line : String → Bool
ends_line [] = false
ends_line (c ∷ []) = code c == 10
ends_line (c ∷ d ∷ s) = ends_line (d ∷ s)

lines_from-cons :
    (cur : String) (c : Char) (s : String)
    → lines_from cur (c ∷ s) ≡ (
        if code c == 10
        then List.◌∷◌ (strip_cr cur) (lines_from [] s)
        else lines_from (String.◌++◌ cur (c ∷ [])) s)
unfolding lines_from
lines_from-cons [] c s = refl
lines_from-cons (a ∷ cur) c s = refl

nothing_left : lines_from [] [] ≡ List.[]
unfolding lines_from
nothing_left = refl

lines_from-append :
    (cur s t : String)
    → ends_line s ≡ true
    → lines_from cur (String.◌++◌ s t) ≡ List.◌++◌ (lines_from cur s) (lines_from [] t)
lines_from-append cur [] t e = cc
lines_from-append cur (c ∷ []) t e =
    ap (lines_from cur) (cons-append c [] t ∙ ap (λ u. c ∷ u) (nil-append t))
    ∙ rw (lines_from-cons cur c t, lines_from-cons cur c [], e, nothing_left)
lines_from-append cur (c ∷ d ∷ s) t e =
    ap (lines_from cur) (cons-append c (d ∷ s) t) ∙ elim (Bool-cases (code c == 10)) [
      | inl h ↦
          rw (lines_from-cons cur c (String.◌++◌ (d ∷ s) t), lines_from-cons cur c (d ∷ s), h)
            (ap (λ ls. List.◌∷◌ (strip_cr cur) ls) (lines_from-append [] (d ∷ s) t e))
      | inr h ↦
          rw (lines_from-cons cur c (String.◌++◌ (d ∷ s) t), lines_from-cons cur c (d ∷ s), h)
            (lines_from-append (String.◌++◌ cur (c ∷ [])) (d ∷ s) t e)
    ]

-- Behind a line end the lines of the rest begin.
pub lines-append :
    (s t : String) → ends_line s ≡ true → lines (String.◌++◌ s t) ≡ List.◌++◌ (lines s) (lines t)
unfolding lines
lines-append s t e = lines_from-append [] s t e
