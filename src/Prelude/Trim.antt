-- ===== src/Prelude/Trim.antt =====
-- A text that was trimmed has no whitespace left to trim.
use Prim.Native.Char.{Char, code}
use Prim.Native.String.{String, [], ◌∷◌}
use mathlib.Core.Path.{◌≡◌, refl, ap, sym, ◌∙◌}
use mathlib.Core.Logic.{inl, inr}
use mathlib.Core.Bool.{Bool, true, false, ◌&&◌}
use native.Mathlib.Omega.{arith}
use multi_agent_orchestrator.Prelude.Tests.{Bool-cases, if◌then◌else◌}
use multi_agent_orchestrator.Prelude.Text.{is_whitespace, is_blank, trim_start, trim_end, trim}

end_case :
    (c : Char) (s : String) (b : Bool)
    → is_blank (c ∷ s) ≡ b
    → trim_end (c ∷ s) ≡ (if b then [] else c ∷ trim_end s)
unfolding trim_end
end_case c s b e = ap (λ a. if a then [] else c ∷ trim_end s) e

blank-cons :
    (c : Char) (s t : String) → is_blank s ≡ is_blank t → is_blank (c ∷ s) ≡ is_blank (c ∷ t)
unfolding is_blank
blank-cons c s t e = ap (λ b. is_whitespace (code c) && b) e

nothing : is_blank [] ≡ true
unfolding is_blank
nothing = refl

is_blank-trim_end : (s : String) → is_blank (trim_end s) ≡ is_blank s
unfolding trim_end
is_blank-trim_end [] = refl
is_blank-trim_end (c ∷ s) = elim (Bool-cases (is_blank (c ∷ s))) [
  | inl h ↦ ap is_blank (end_case c s true h) ∙ nothing ∙ sym h
  | inr h ↦ ap is_blank (end_case c s false h) ∙ blank-cons c (trim_end s) s (is_blank-trim_end s)
]

trim_end_twice : (s : String) → trim_end (trim_end s) ≡ trim_end s
unfolding trim_end
trim_end_twice [] = refl
trim_end_twice (c ∷ s) = elim (Bool-cases (is_blank (c ∷ s))) [
  | inl h ↦ ap trim_end (end_case c s true h) ∙ sym (end_case c s true h)
  | inr h ↦
      ap trim_end (end_case c s false h)
      ∙ end_case c (trim_end s) false (blank-cons c (trim_end s) s (is_blank-trim_end s) ∙ h)
      ∙ ap (λ t. c ∷ t) (trim_end_twice s)
      ∙ sym (end_case c s false h)
]

trim_start-trim_end :
    (c : Char) (s : String)
    → is_whitespace (code c) ≡ false
    → trim_start (trim_end (c ∷ s)) ≡ trim_end (c ∷ s)
unfolding is_blank trim_start trim_end
trim_start-trim_end c s e = ground arith

trim_start_trim : (s : String) → trim_start (trim_end (trim_start s)) ≡ trim_end (trim_start s)
unfolding trim_start trim_end
trim_start_trim [] = refl
trim_start_trim (c ∷ s) = ground (arith, trim_start_trim s, trim_start-trim_end c s)

pub trim-trim : (s : String) → trim (trim s) ≡ trim s
unfolding trim
trim-trim s = ap trim_end (trim_start_trim s) ∙ trim_end_twice (trim_start s)
