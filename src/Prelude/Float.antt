-- ===== src/Prelude/Float.antt =====
-- `f64`: a finite value is a sign and a fraction `num / 2 ^ pow`, which every finite double is.
use Prim.Native.Nat.{ℕ, ◌*◌, ◌^◌, ◌+◌}
use mathlib.Core.Bool.{Bool, true, false}
use multi_agent_orchestrator.Prelude.Tests.{ltb, leb, ◌==◌}

-- `negative` is the sign bit; a zero has either sign.
pub data F64 : Type 0 where
  nan pos_inf neg_inf : F64
  finite : (negative : Bool) (num pow : ℕ) → F64

-- `a <= b`; false where either is not a number.
unfoldable pub le_f64 : F64 → F64 → Bool
le_f64 nan _ = false
le_f64 _ nan = false
le_f64 neg_inf _ = true
le_f64 _ pos_inf = true
le_f64 pos_inf _ = false
le_f64 _ neg_inf = false
le_f64 (finite false n p) (finite false m q) = leb (n * 2 ^ q) (m * 2 ^ p)
le_f64 (finite true n p) (finite true m q) = leb (m * 2 ^ p) (n * 2 ^ q)
le_f64 (finite true n p) (finite false m q) = true
le_f64 (finite false n p) (finite true m q) = n + m == 0

-- `a < b`; false where either is not a number.
unfoldable pub lt_f64 : F64 → F64 → Bool
lt_f64 nan _ = false
lt_f64 _ nan = false
lt_f64 pos_inf _ = false
lt_f64 _ neg_inf = false
lt_f64 neg_inf _ = true
lt_f64 _ pos_inf = true
lt_f64 (finite false n p) (finite false m q) = ltb (n * 2 ^ q) (m * 2 ^ p)
lt_f64 (finite true n p) (finite true m q) = ltb (m * 2 ^ p) (n * 2 ^ q)
lt_f64 (finite true n p) (finite false m q) = ltb 0 (n + m)
lt_f64 (finite false n p) (finite true m q) = false

abbrev pub of_ℕ : ℕ → F64
of_ℕ n = finite false n 0
