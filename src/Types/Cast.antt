-- ===== src/Types/Cast.antt =====
-- `Value::CastAs` between the integer types.
use cmu.Common.{
  ◌≡◌, Bool, true, false, refl, arith, ap, ◌∙◌, sym, subst, ◌&&◌, if◌then◌else◌, ltb, ◌≢◌,
  Bool-cases, inl, inr,
}
use cmu.Common.Int.{ℤ, pos_part, neg_part, eq_of_parts}
use cmu.Types.Exact.{IsSmall, number-IsSmall, new_value_of_small, null_value, new_value-IsValid}
use cmu.Types.Tinyint
use cmu.Types.Smallint
use cmu.Types.Integer
use cmu.Types.Bigint
use cmu.Types.Value.{
  TypeId, tinyint, smallint, integer, bigint, half, null_number, Value, new_value, copy, IsValid,
  Error, Result, ok, throw, out_of_range,
}

unfoldable pub cast_as_by : TypeId → Value → TypeId → Result Value
unfolding Tinyint.cast_as Smallint.cast_as Integer.cast_as Bigint.cast_as
cast_as_by tinyint val t = Tinyint.cast_as val t
cast_as_by smallint val t = Smallint.cast_as val t
cast_as_by integer val t = Integer.cast_as val t
cast_as_by bigint val t = Bigint.cast_as val t

unfoldable pub cast_as : Value → TypeId → Result Value
unfolding cast_as_by
cast_as val t = cast_as_by val.type_id val t

-- Whether a type has a number, which its smallest number is not: that is NULL.
abbrev pub in_range : TypeId → ℤ → Bool
in_range t z = ltb (pos_part z) (half t) && ltb (neg_part z) (half t)

made :
    (u : TypeId) (z : ℤ)
    → in_range u z ≡ true
    → new_value u z ≡ record { type_id = u; number = z; is_null = false }
made u z h = new_value_of_small u z (ground arith)

number_cast :
    (t u : TypeId) (v : Value)
    → v.type_id ≡ t
    → IsSmall (half t) v.number
    → v.is_null ≡ false
    → cast_as_by t v u ≡ (
        if in_range u v.number
        then ok (record { type_id = u; number = v.number; is_null = false })
        else throw out_of_range)
unfolding cast_as_by copy
number_cast tinyint tinyint v same f h = rw (h, same) (ground (arith, f, made tinyint v.number))
number_cast tinyint smallint v same f h = ground (arith, f, h, made smallint v.number)
number_cast tinyint u v same f h = ground (arith, f, h, made u v.number)
number_cast smallint tinyint v same f h = ground (arith, f, h, made tinyint v.number)
number_cast smallint smallint v same f h = rw (h, same) (ground (arith, f, made smallint v.number))
number_cast smallint u v same f h = ground (arith, f, h, made u v.number)
number_cast integer tinyint v same f h = ground (arith, f, h, made tinyint v.number)
number_cast integer u v same f h = ground (arith, f, h, made u v.number)
number_cast bigint bigint v same f h = rw (h, same) (ground (arith, f, made bigint v.number))
number_cast bigint u v same f h = ground (arith, f, h, made u v.number)

null_cast :
    (t u : TypeId) (v : Value)
    → v.is_null ≡ true
    → cast_as_by t v u ≡ ok (record { type_id = u; number = null_number u; is_null = true })
unfolding cast_as_by
null_cast tinyint tinyint v h = rw h (ap ok (null_value tinyint))
null_cast tinyint u v h = rw h (ap ok (null_value u))
null_cast smallint tinyint v h = rw h (ap ok (null_value tinyint))
null_cast smallint u v h = rw h (ap ok (null_value u))
null_cast integer tinyint v h = rw h (ap ok (null_value tinyint))
null_cast integer u v h = rw h (ap ok (null_value u))
null_cast bigint tinyint v h = rw h (ap ok (null_value tinyint))
null_cast bigint u v h = rw h (ap ok (null_value u))

-- CastAs of a valid integer value to an integer type gives NULL for NULL, the same number if the
-- type has it beside its NULL, and else throws that it is out of range, although only casts to a
-- narrower type have a test.
pub cast_as-eq :
    (v : Value) (u : TypeId)
    → IsValid v
    → cast_as v u ≡ (
        if v.is_null
        then ok (record { type_id = u; number = null_number u; is_null = true })
        else if in_range u v.number
        then ok (record { type_id = u; number = v.number; is_null = false })
        else throw out_of_range)
unfolding cast_as
cast_as-eq v u valid = elim (Bool-cases v.is_null) [
  | inl nothing ↦ null_cast v.type_id u v nothing ∙ ground (arith, nothing)
  | inr number ↦
      number_cast v.type_id u v refl (number-IsSmall v valid number) number ∙ ground (arith, number)
]

ok-injective : (v w : Value) → ok v ≡ ok w → v ≡ w
ok-injective v w e = cc

ok-ne-throw : (w : Value) (x : Error) → ok w ≢ throw x
ok-ne-throw w x e = cc

abbrev Back : Value → TypeId → Value → Type 0
Back v u w = (w.type_id ≡ u) × IsValid w × (cast_as w v.type_id ≡ ok v)

null-Back :
    (v : Value) (u : TypeId)
    → IsValid v
    → v.is_null ≡ true
    → Back v u (record { type_id = u; number = null_number u; is_null = true })
null-Back v u valid nothing =
    let w : Value = record { type_id = u; number = null_number u; is_null = true } in
    let w_valid : IsValid w = subst IsValid (null_value u) (new_value-IsValid u (null_number u)) in
    let least : v.number ≡ null_number v.type_id = eq_of_parts _ _ (ground (arith, valid.null)) in
    (refl, w_valid, cast_as-eq w v.type_id w_valid ∙ ap ok (ground (arith, least, nothing)))

number-Back :
    (v : Value) (u : TypeId)
    → IsValid v
    → v.is_null ≡ false
    → in_range u v.number ≡ true
    → Back v u (record { type_id = u; number = v.number; is_null = false })
number-Back v u valid number inside =
    let w : Value = record { type_id = u; number = v.number; is_null = false } in
    let w_valid : IsValid w =
      subst IsValid (made u v.number inside) (new_value-IsValid u v.number) in
    let small = number-IsSmall v valid number in
    let here : in_range v.type_id v.number ≡ true = ground (arith, small.above, small.below) in
    (refl, w_valid, cast_as-eq w v.type_id w_valid ∙ ground (arith, here, number))

-- Where CastAs of a valid integer value to an integer type returns, it returns a valid value of that
-- type, and CastAs to the old type gives back the value.
pub cast_as_back :
    (v w : Value) (u : TypeId)
    → IsValid v
    → cast_as v u ≡ ok w
    → (w.type_id ≡ u) × IsValid w × (cast_as w v.type_id ≡ ok v)
cast_as_back v w u valid e = elim (Bool-cases v.is_null) [
  | inl nothing ↦
      subst (Back v u) (ok-injective _ _ (sym (cast_as-eq v u valid ∙ ground (arith, nothing)) ∙ e))
        (null-Back v u valid nothing)
  | inr number ↦ elim (Bool-cases (in_range u v.number)) [
    | inl inside ↦
        subst (Back v u)
          (ok-injective _ _ (sym (cast_as-eq v u valid ∙ ground (arith, number, inside)) ∙ e))
          (number-Back v u valid number inside)
    | inr outside ↦ absurd (
        ok-ne-throw w out_of_range (sym e ∙ cast_as-eq v u valid ∙ ground (arith, number, outside)))
  ]
]
