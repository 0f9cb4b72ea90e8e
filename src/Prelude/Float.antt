-- ===== src/Prelude/Float.antt =====
-- A float64 is a value of an abstract type with the operations that the program uses of it.
use mathlib.Core.Bool.{Bool, false}
use mathlib.Core.Path.{◌≡◌}
use Prim.Native.Nat.{ℕ}
use mathlib.Core.List.{List}

pub record Float64 (F : Type 0) : Type 0 where
  -- `a < b`; false where either is not a number.
  pub lt : F → F → Bool
  -- `a <= b`
  pub le : F → F → Bool
  pub zero_point_one : F
  pub zero : F
  pub one : F
  pub two : F
  -- `strconv.FormatFloat(x, 'f', 2, 64)`
  pub format2 : F → List ℕ

-- What the program relies on: the order of the constants, and that a number is not below itself.
pub record IsOrdered {F : Type 0} (fl : Float64 F) : Type 0 where
  pub lt_irrefl : (x : F) → fl.lt x x ≡ false
  pub low_lt_high : fl.lt fl.two fl.zero_point_one ≡ false
  pub one_pos : fl.le fl.one fl.zero ≡ false
