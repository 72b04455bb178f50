-- ===== src/Types/Arith.antt =====
-- Arithmetic on values of the integer types: src/include/type/integer_parent_type.h and the methods of
-- src/type/integer_type.cpp that call it. The methods of the other three types have the same text but
-- for their own C++ type.
use cmu.Common.{Bool, leb, if◌then◌else◌, ◌&&◌, ◌||◌, not}
use cmu.Common.Int.{ℤ, pos, ltb_ℤ, ◌+ℤ◌, ◌-ℤ◌, ◌*ℤ◌, quot, rem}
use cmu.Types.Words.{fits, wrap}
use cmu.Types.Tinyint
use cmu.Types.Smallint
use cmu.Types.Integer
use cmu.Types.Bigint
use cmu.Types.Value.{
  TypeId, tinyint, smallint, integer, bigint, size_of, half, eqb_ℤ, Value, new_value, Result, ok,
  throw, out_of_range, divide_by_zero, is_zero,
}

-- The type of an operation on an `intN_t` and an `intM_t`: both are promoted to the larger of their
-- types and `int`.
unfoldable pub promoted : TypeId → TypeId → TypeId
promoted bigint u = bigint
promoted tinyint bigint = bigint
promoted smallint bigint = bigint
promoted integer bigint = bigint
promoted tinyint _ = integer
promoted smallint _ = integer
promoted integer _ = integer

-- `Value::OperateNull`.
unfoldable pub operate_null : TypeId → TypeId → Value
unfolding Tinyint.operate_null Smallint.operate_null Integer.operate_null Bigint.operate_null
operate_null tinyint u = Tinyint.operate_null u
operate_null smallint u = Smallint.operate_null u
operate_null integer u = Integer.operate_null u
operate_null bigint u = Bigint.operate_null u

abbrev pub positive : ℤ → Bool
positive z = ltb_ℤ (pos 0) z

abbrev pub negative : ℤ → Bool
negative z = ltb_ℤ z (pos 0)

-- The end of `AddValue`, `SubtractValue` and `MultiplyValue`: the casts to both types, the test that
-- one of them keeps the number, and the test for overflow on the cast to the larger type.
unfoldable pub narrow : TypeId → TypeId → ℤ → (ℤ → Bool) → Result Value
narrow t u result overflowed =
    let result₁ : ℤ = wrap (half t) result in
    let result₂ : ℤ = wrap (half u) result in
    if not (eqb_ℤ result result₁) && not (eqb_ℤ result result₂)
    then throw out_of_range
    else if leb (size_of u) (size_of t)
    then if overflowed result₁ then throw out_of_range else ok (new_value t result₁)
    else if overflowed result₂
    then throw out_of_range
    else ok (new_value u result₂)

-- The tests for overflow of `AddValue` and `SubtractValue`.
abbrev pub sum_overflows : ℤ → ℤ → ℤ → Bool
sum_overflows x y sum =
    positive x && positive y && negative sum || negative x && negative y && positive sum

abbrev pub difference_overflows : ℤ → ℤ → ℤ → Bool
difference_overflows x y diff =
    positive x && negative y && negative diff || negative x && positive y && positive diff

-- What a signed operation gives whose exact result its type cannot hold is undefined in C++: it is
-- the parameter `overflow`, of the type and the exact result.
module _ (overflow : TypeId → ℤ → ℤ) where
  unfoldable pub eval : TypeId → ℤ → ℤ
  eval p z = if fits (half p) z then z else overflow p z

  -- `AddValue`.
  unfoldable pub add_value : Value → Value → Result Value
  unfolding eval promoted narrow
  add_value left right =
      let x : ℤ = left.number in
      let y : ℤ = right.number in
      narrow left.type_id right.type_id (eval (promoted left.type_id right.type_id) (x +ℤ y))
        (sum_overflows x y)

  -- `SubtractValue`.
  unfoldable pub subtract_value : Value → Value → Result Value
  unfolding eval promoted narrow
  subtract_value left right =
      let x : ℤ = left.number in
      let y : ℤ = right.number in
      narrow left.type_id right.type_id (eval (promoted left.type_id right.type_id) (x -ℤ y))
        (difference_overflows x y)

  -- `MultiplyValue`, and its test for overflow.
  abbrev pub product_overflows : TypeId → ℤ → ℤ → ℤ → Bool
  product_overflows p x y prod = not (eqb_ℤ y (pos 0)) && not (eqb_ℤ (eval p (quot prod y)) x)

  unfoldable pub multiply_value : Value → Value → Result Value
  unfolding eval promoted narrow
  multiply_value left right =
      let x : ℤ = left.number in
      let y : ℤ = right.number in
      let p = promoted left.type_id right.type_id in
      narrow left.type_id right.type_id (eval p (x *ℤ y)) (product_overflows p x y)

  -- `DivideValue`.
  unfoldable pub divide_value : Value → Value → Result Value
  unfolding eval promoted
  divide_value left right =
      let x : ℤ = left.number in
      let y : ℤ = right.number in
      let quotient : ℤ = eval (promoted left.type_id right.type_id) (quot x y) in
      let quot₁ : ℤ = wrap (half left.type_id) quotient in
      let quot₂ : ℤ = wrap (half right.type_id) quotient in
      if eqb_ℤ y (pos 0)
      then throw divide_by_zero
      else if leb (size_of right.type_id) (size_of left.type_id)
      then ok (new_value left.type_id quot₁)
      else ok (new_value right.type_id quot₂)

  -- `ModuloValue`.
  unfoldable pub modulo_value : Value → Value → Result Value
  unfolding eval promoted
  modulo_value left right =
      let x : ℤ = left.number in
      let y : ℤ = right.number in
      let remainder : ℤ = eval (promoted left.type_id right.type_id) (rem x y) in
      let quot₁ : ℤ = wrap (half left.type_id) remainder in
      let quot₂ : ℤ = wrap (half right.type_id) remainder in
      if eqb_ℤ y (pos 0)
      then throw divide_by_zero
      else if leb (size_of right.type_id) (size_of left.type_id)
      then ok (new_value left.type_id quot₁)
      else ok (new_value right.type_id quot₂)

  -- `Add`, `Subtract`, `Multiply`, `Divide` and `Modulo`.
  unfoldable pub add : Value → Value → Result Value
  unfolding operate_null add_value
  add left right =
      if left.is_null || right.is_null
      then ok (operate_null left.type_id right.type_id)
      else add_value left right

  unfoldable pub subtract : Value → Value → Result Value
  unfolding operate_null subtract_value
  subtract left right =
      if left.is_null || right.is_null
      then ok (operate_null left.type_id right.type_id)
      else subtract_value left right

  unfoldable pub multiply : Value → Value → Result Value
  unfolding operate_null multiply_value
  multiply left right =
      if left.is_null || right.is_null
      then ok (operate_null left.type_id right.type_id)
      else multiply_value left right

  unfoldable pub divide : Value → Value → Result Value
  unfolding operate_null divide_value is_zero
  divide left right =
      if left.is_null || right.is_null
      then ok (operate_null left.type_id right.type_id)
      else if is_zero right
      then throw divide_by_zero
      else divide_value left right

  unfoldable pub modulo : Value → Value → Result Value
  unfolding operate_null modulo_value is_zero
  modulo left right =
      if left.is_null || right.is_null
      then ok (operate_null left.type_id right.type_id)
      else if is_zero right
      then throw divide_by_zero
      else modulo_value left right
