-- ===== src/Types/Product.antt =====
-- `Multiply` of the integer types gives the exact result or throws.
use cmu.Common.{◌≡◌, inl, inr, false, refl, arith, Bool-cases}
use cmu.Common.Int.{ℤ, pos, ◌*ℤ◌, quot, quot-mul}
use cmu.Types.Words.{Fits}
use cmu.Types.Value.{TypeId, half, Value, IsValid, eqb_ℤ}
use cmu.Types.Arith.{promoted, eval, product_overflows, multiply, multiply_value}
use cmu.Types.Exact.{wider, checked, sizes, number-IsSmall, narrow-eq-checked, eval_of_fits}

module _ (overflow : TypeId → ℤ → ℤ) where
  -- The quotient that the test computes of an exact product is the first factor.
  product_good :
      (p : TypeId) (x y : ℤ) → Fits (half p) x → product_overflows overflow p x y (x *ℤ y) ≡ false
  product_good p x y f = elim (Bool-cases (eqb_ℤ y (pos 0))) [
    | inl zeroed ↦ rw zeroed refl
    | inr other ↦
        let back : eval overflow p (quot (x *ℤ y) y) ≡ x =
          rw (quot-mul x y (ground arith)) (eval_of_fits overflow p x f) in
        rw back (ground arith)
  ]

  -- Let two integer values not be NULL, the first be valid, and their product be one that the type
  -- in which C++ multiplies them can hold, so that the multiplication is defined. Then Multiply
  -- gives the exact product in the wider of the two types if that type can hold it, and else throws
  -- that it is out of range.
  pub multiply-eq-checked :
      (l r : Value)
      → IsValid l
      → l.is_null ≡ false
      → r.is_null ≡ false
      → Fits (half (promoted l.type_id r.type_id)) (l.number *ℤ r.number)
      → multiply overflow l r ≡ checked (wider l.type_id r.type_id) (l.number *ℤ r.number)
  unfolding multiply multiply_value
  multiply-eq-checked l r valid left right defined =
      let p : TypeId = promoted l.type_id r.type_id in
      let x = number-IsSmall l valid left in
      rw (left, right)
        (narrow-eq-checked overflow l.type_id r.type_id (l.number *ℤ r.number)
          (product_overflows overflow p l.number r.number) defined
          (product_good p l.number r.number
            (ground (arith, x.above, x.below, sizes l.type_id r.type_id))))
