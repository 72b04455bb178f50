-- ===== src/Types/Sum.antt =====
-- `Add` and `Subtract` of the integer types give the exact result or throw.
use cmu.Common.{◌≡◌, false, arith}
use cmu.Common.Int.{ℤ, ◌+ℤ◌, ◌-ℤ◌}
use cmu.Types.Words.{Fits}
use cmu.Types.Value.{TypeId, half, Value}
use cmu.Types.Arith.{
  promoted, sum_overflows, difference_overflows, add, add_value, subtract, subtract_value,
}
use cmu.Types.Exact.{wider, checked, narrow-eq-checked}

sum_good : (x y : ℤ) → sum_overflows x y (x +ℤ y) ≡ false
unfolding ◌+ℤ◌
sum_good x y = ground arith

difference_good : (x y : ℤ) → difference_overflows x y (x -ℤ y) ≡ false
unfolding ◌-ℤ◌
difference_good x y = ground arith

module _ (overflow : TypeId → ℤ → ℤ) (l r : Value) (left : l.is_null ≡ false)
    (right : r.is_null ≡ false) where
  -- Let two integer values, of whatever integer types, not be NULL, and their sum be one that the
  -- type in which C++ adds them can hold, so that the addition is defined. Then Add gives the exact
  -- sum in the wider of the two types if that type can hold it, and else throws that it is out of
  -- range.
  pub add-eq-checked :
      Fits (half (promoted l.type_id r.type_id)) (l.number +ℤ r.number)
      → add overflow l r ≡ checked (wider l.type_id r.type_id) (l.number +ℤ r.number)
  unfolding add add_value
  add-eq-checked defined =
      rw (left, right)
        (narrow-eq-checked overflow l.type_id r.type_id (l.number +ℤ r.number)
          (sum_overflows l.number r.number) defined (sum_good l.number r.number))

  -- The same of Subtract and the exact difference.
  pub subtract-eq-checked :
      Fits (half (promoted l.type_id r.type_id)) (l.number -ℤ r.number)
      → subtract overflow l r ≡ checked (wider l.type_id r.type_id) (l.number -ℤ r.number)
  unfolding subtract subtract_value
  subtract-eq-checked defined =
      rw (left, right)
        (narrow-eq-checked overflow l.type_id r.type_id (l.number -ℤ r.number)
          (difference_overflows l.number r.number) defined (difference_good l.number r.number))
