-- ===== src/Prelude/Order.antt =====
-- The order of texts: `>=` is total and transitive.
use Prim.Native.String.{[], ◌∷◌}
use Prim.Native.Nat.{Ordering}
use mathlib.Core.Path.{◌≡◌, refl}
use mathlib.Core.Bool.{Bool, true, false}
use native.Mathlib.Omega.{arith}
use Prim.Native.String.{String}
use multi_agent_orchestrator.Prelude.Text.{compare_text}

-- `a >= b`
abbrev pub at_least : String → String → Bool
at_least a b = elim (compare_text a b) [ Ordering.lt ↦ false | _ ↦ true ]

pub at_least_total : (a b : String) → at_least a b ≡ false → at_least b a ≡ true
unfolding compare_text
at_least_total [] [] e = cc
at_least_total [] (d ∷ t) e = refl
at_least_total (c ∷ s) [] e = cc
at_least_total (c ∷ s) (d ∷ t) e = ground (arith, at_least_total s t)

pub at_least_trans :
    (a b c : String) → at_least a b ≡ true → at_least b c ≡ true → at_least a c ≡ true
unfolding compare_text
at_least_trans [] [] c e f = f
at_least_trans [] (y ∷ b) c e f = cc
at_least_trans (x ∷ a) b [] e f = refl
at_least_trans (x ∷ a) [] (z ∷ c) e f = cc
at_least_trans (x ∷ a) (y ∷ b) (z ∷ c) e f = ground (arith, at_least_trans a b c)
