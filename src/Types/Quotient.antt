-- ===== src/Types/Quotient.antt =====
-- `Divide` and `Modulo` of the integer types, and what NULL and zero make of the five operations.
use cmu.Common.{
  ℕ, ◌≤◌, ◌<◌, ◌≡◌, ◌⊎◌, true, false, refl, ap, arith, ◌||◌, if◌then◌else◌, Bool-cases, inl, inr,
  leb,
}
use cmu.Common.Int.{
  ℤ, pos, negsuc, pos_part, neg_part, magnitude, ◌+ℤ◌, ◌*ℤ◌, quot, rem, quot-le, quot-rem, rem_lt,
  rem-le, rem_sign,
}
use cmu.Types.Words.{wrap, wrap_of_Fits}
use cmu.Types.Value.{
  TypeId, half, size_of, null_number, Value, new_value, IsValid, is_zero, ok, throw, divide_by_zero,
}
use cmu.Types.Arith.{
  promoted, eval, add, subtract, multiply, divide, divide_value, modulo, modulo_value,
}
use cmu.Types.Exact.{
  wider, sizes, IsSmall, number-IsSmall, operate_null-eq, new_value_of_small, null_value,
}

IsSmall-of_le : (H W : ℕ) (a b : ℤ) → H ≤ W → magnitude a ≤ magnitude b → IsSmall H b → IsSmall W a
IsSmall-of_le H W a (pos b) le h f = omega (arith, f.above, f.below)
IsSmall-of_le H W a (negsuc b) le h f = omega (arith, f.above, f.below)

-- How `DivideValue` and `ModuloValue` end.
in_wider :
    (overflow : TypeId → ℤ → ℤ) (t u : TypeId) (z : ℤ)
    → IsSmall (half (wider t u)) z
    → (if leb (size_of u) (size_of t)
        then ok (new_value t (wrap (half t) (eval overflow (promoted t u) z)))
        else ok (new_value u (wrap (half u) (eval overflow (promoted t u) z))))
      ≡ ok (record { type_id = wider t u; number = z; is_null = false })
unfolding wider
in_wider overflow t u z f =
    let e : eval overflow (promoted t u) z ≡ z =
      unfold eval in ground (arith, f.above, f.below, sizes t u) in
    rw e (elim (Bool-cases (leb (size_of u) (size_of t))) [
      | inl le ↦
          let g : IsSmall (half t) z = ground (arith, f.above, f.below) in
          rw
            (
              le,
              wrap_of_Fits (half t) z (omega (arith, g.above, g.below)),
              new_value_of_small t z g,
            )
            refl
      | inr gt ↦
          let g : IsSmall (half u) z = ground (arith, f.above, f.below) in
          rw
            (
              gt,
              wrap_of_Fits (half u) z (omega (arith, g.above, g.below)),
              new_value_of_small u z g,
            )
            refl
    ])

-- If one of two integer values is NULL, then Add, Subtract, Multiply, Divide and Modulo all return
-- the NULL of the wider of the two types, also where the other value is 0.
operations_on_null :
    (overflow : TypeId → ℤ → ℤ) (l r : Value)
    → l.is_null || r.is_null ≡ true
    → let nothing : Value =
        new_value (wider l.type_id r.type_id) (null_number (wider l.type_id r.type_id)) in
      (nothing.is_null ≡ true)
      × (add overflow l r ≡ ok nothing)
      × (subtract overflow l r ≡ ok nothing)
      × (multiply overflow l r ≡ ok nothing)
      × (divide overflow l r ≡ ok nothing)
      × (modulo overflow l r ≡ ok nothing)
unfolding add subtract multiply divide modulo
operations_on_null overflow l r h =
    let e = operate_null-eq l.type_id r.type_id in
    (
      ap (λ (v : Value). v.is_null) (null_value (wider l.type_id r.type_id)),
      rw (h, e) refl,
      rw (h, e) refl,
      rw (h, e) refl,
      rw (h, e) refl,
      rw (h, e) refl,
    )

-- A quotient and a remainder, of the wider type and not NULL, such that quotient times divisor plus
-- remainder is the dividend, and the remainder is nearer to 0 than the divisor, on the dividend's
-- side.
pub record Divided (overflow : TypeId → ℤ → ℤ) (l r : Value) : Type 0 where
  pub quotient : ℤ
  pub remainder : ℤ
  pub divides :
      divide overflow l r
      ≡ ok (record { type_id = wider l.type_id r.type_id; number = quotient; is_null = false })
  pub leaves :
      modulo overflow l r
      ≡ ok (record { type_id = wider l.type_id r.type_id; number = remainder; is_null = false })
  pub whole : quotient *ℤ r.number +ℤ remainder ≡ l.number
  pub smaller : magnitude remainder < magnitude r.number
  pub not_positive : pos_part l.number ≡ 0 → pos_part remainder ≡ 0
  pub not_negative : neg_part l.number ≡ 0 → neg_part remainder ≡ 0

divided :
    (overflow : TypeId → ℤ → ℤ) (l r : Value)
    → IsValid l
    → IsValid r
    → l.is_null ≡ false
    → r.is_null ≡ false
    → is_zero r ≡ false
    → Divided overflow l r
unfolding divide divide_value modulo modulo_value
divided overflow l r vl vr left right other =
    let x = number-IsSmall l vl left in
    let z = sizes l.type_id r.type_id in
    let some_divisor : 0 < magnitude r.number = unfold is_zero in ground (arith, other) in
    let q : ℤ = quot l.number r.number in
    let m : ℤ = rem l.number r.number in
    let q_le = quot-le l.number r.number in
    let m_le = rem-le l.number r.number in
    let q_small : IsSmall (half (wider l.type_id r.type_id)) q =
      IsSmall-of_le _ _ q l.number z.left q_le x in
    let m_small : IsSmall (half (wider l.type_id r.type_id)) m =
      IsSmall-of_le _ _ m l.number z.left m_le x in
    record {
      quotient = q;
      remainder = m;
      divides = rw (left, right, other) (in_wider overflow l.type_id r.type_id q q_small);
      leaves = rw (left, right, other) (in_wider overflow l.type_id r.type_id m m_small);
      whole = quot-rem l.number r.number some_divisor;
      smaller = rem_lt l.number r.number some_divisor;
      not_positive = (rem_sign l.number r.number).0;
      not_negative = (rem_sign l.number r.number).1;
    }

-- Of two valid integer values that are not NULL, Divide and Modulo both throw a division by zero if
-- the second is 0. Else, whatever an overflow gives, both return a number of the wider type that is
-- not NULL: the quotient times the divisor plus the remainder is the dividend, and the remainder is
-- smaller than the divisor and has the sign of the dividend or is 0.
pub divide-modulo :
    (overflow : TypeId → ℤ → ℤ) (l r : Value)
    → IsValid l
    → IsValid r
    → l.is_null ≡ false
    → r.is_null ≡ false
    → ((is_zero r ≡ true)
        × (divide overflow l r ≡ throw divide_by_zero)
        × (modulo overflow l r ≡ throw divide_by_zero))
      ⊎ ((is_zero r ≡ false) × Divided overflow l r)
unfolding divide divide_value modulo modulo_value
divide-modulo overflow l r vl vr left right = elim (Bool-cases (is_zero r)) [
  | inl zeroed ↦ inl (zeroed, rw (left, right, zeroed) refl, rw (left, right, zeroed) refl)
  | inr other ↦ inr (other, divided overflow l r vl vr left right other)
]
