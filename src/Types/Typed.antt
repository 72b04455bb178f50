-- ===== src/Types/Typed.antt =====
-- The types of results of the arithmetic on integer values.
use cmu.Common.{◌≡◌, refl, Bool, true, false, if◌then◌else◌, ◌||◌, leb}
use cmu.Common.Int.{ℤ, ◌+ℤ◌, ◌-ℤ◌, ◌*ℤ◌}
use cmu.Types.Value.{
  TypeId, Value, IsValid, new_value, Result, ok, throw, out_of_range, divide_by_zero, size_of, half,
  null_number, is_zero,
}
use cmu.Types.Words.{wrap}
use cmu.Types.Arith.{
  promoted, eval, sum_overflows, difference_overflows, product_overflows, narrow, operate_null, add,
  add_value, subtract, subtract_value, multiply, multiply_value, divide, divide_value, modulo,
  modulo_value,
}
use cmu.Types.Exact.{wider, operate_null-eq, new_value-IsValid}

-- A result, if there is one, is a valid value of a type.
abbrev pub Returns : TypeId → Result Value → Type 0
Returns t (ok v) = IsValid v × (v.type_id ≡ t)
Returns t (throw _) = Unit {0}

if-Returns :
    (t : TypeId) (b : Bool) (x y : Result Value)
    → Returns t x
    → Returns t y
    → Returns t (if b then x else y)
if-Returns t true x y f g = f
if-Returns t false x y f g = g

of_wider :
    (t u : TypeId) (b : Bool) (x y : Result Value)
    → Returns t x
    → Returns u y
    → Returns (if b then t else u) (if b then x else y)
of_wider t u true x y f g = f
of_wider t u false x y f g = g

made : (t : TypeId) (z : ℤ) → Returns t (ok (new_value t z))
unfolding new_value
made t z = (new_value-IsValid t z, refl)

narrow-Returns : (t u : TypeId) (z : ℤ) (bad : ℤ → Bool) → Returns (wider t u) (narrow t u z bad)
unfolding narrow wider
narrow-Returns t u z bad = if-Returns _ _ (throw out_of_range) _ tt (
    of_wider t u (leb (size_of u) (size_of t)) _ _
      (if-Returns t (bad (wrap (half t) z)) (throw out_of_range) _ tt (made t (wrap (half t) z)))
      (if-Returns u (bad (wrap (half u) z)) (throw out_of_range) _ tt (made u (wrap (half u) z))))

module _ (overflow : TypeId → ℤ → ℤ) (l r : Value) where
  abbrev t : TypeId
  t = wider l.type_id r.type_id

  null-Returns :
      (x : Result Value)
      → Returns t x
      → Returns t (if l.is_null || r.is_null then ok (operate_null l.type_id r.type_id) else x)
  null-Returns x f =
      if-Returns t (l.is_null || r.is_null) (ok (operate_null l.type_id r.type_id)) x
        (rw (operate_null-eq l.type_id r.type_id) (made t (null_number t))) f

  divide-Returns : Returns t (divide overflow l r)
  unfolding divide divide_value wider
  divide-Returns = null-Returns _ (
      if-Returns t (is_zero r) (throw divide_by_zero) _ tt (
        if-Returns t _ (throw divide_by_zero) _ tt (
          of_wider l.type_id r.type_id (leb (size_of r.type_id) (size_of l.type_id)) _ _
            (made l.type_id _) (made r.type_id _))))

  modulo-Returns : Returns t (modulo overflow l r)
  unfolding modulo modulo_value wider
  modulo-Returns = null-Returns _ (
      if-Returns t (is_zero r) (throw divide_by_zero) _ tt (
        if-Returns t _ (throw divide_by_zero) _ tt (
          of_wider l.type_id r.type_id (leb (size_of r.type_id) (size_of l.type_id)) _ _
            (made l.type_id _) (made r.type_id _))))

-- Whatever an overflow gives, each of Add, Subtract, Multiply, Divide and Modulo of two integer
-- values throws, or returns a valid value of the wider of the two types, also where an operand is
-- NULL: its number is one that the type can hold, and it is NULL exactly if that is the smallest.
pub operations-Returns :
    (overflow : TypeId → ℤ → ℤ) (l r : Value)
    → let t : TypeId = wider l.type_id r.type_id in
      Returns t (add overflow l r)
      × Returns t (subtract overflow l r)
      × Returns t (multiply overflow l r)
      × Returns t (divide overflow l r)
      × Returns t (modulo overflow l r)
unfolding add add_value subtract subtract_value multiply multiply_value
operations-Returns overflow l r =
    let t : TypeId = l.type_id in
    let u : TypeId = r.type_id in
    let x : ℤ = l.number in
    let y : ℤ = r.number in
    let p : TypeId = promoted t u in
    let numbers = null-Returns overflow l r in
    (
      numbers (add_value overflow l r)
          (narrow-Returns t u (eval overflow p (x +ℤ y)) (sum_overflows x y)),
      numbers (subtract_value overflow l r)
          (narrow-Returns t u (eval overflow p (x -ℤ y)) (difference_overflows x y)),
      numbers (multiply_value overflow l r)
          (narrow-Returns t u (eval overflow p (x *ℤ y)) (product_overflows overflow p x y)),
      divide-Returns overflow l r,
      modulo-Returns overflow l r,
    )
