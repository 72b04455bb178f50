-- ===== src/Types/Tests.antt =====
-- Runs of the operations on integer values, and the theorems on concrete values.
use cmu.Common.{ℕ, ◌≡◌, refl, true, false, arith, ◌⊎◌, ◌≤◌}
use cmu.Common.Int.{ℤ, pos, negsuc, ◌+ℤ◌, ◌*ℤ◌, quot}
use cmu.Types.Words.{wrap}
use cmu.Types.Value.{
  TypeId, tinyint, smallint, integer, bigint, half, Value, new_value, IsValid, ok, throw,
  out_of_range, divide_by_zero, is_zero,
}
use cmu.Types.Arith.{promoted, add, subtract, multiply, divide, modulo}
use cmu.Types.Exact.{wider, checked}
use cmu.Types.Sum.{add-eq-checked}
use cmu.Types.Product.{multiply-eq-checked}
use cmu.Types.Quotient.{divide-modulo, Divided}
use cmu.Types.Typed.{operations-Returns, Returns}
use cmu.Types.Cast.{cast_as, cast_as-eq}
use cmu.Types.Storage.{serialize_to, deserialize_from, deserialize_from-serialize_to}

-- Two's complement, and an overflow that gives 0 whatever the operands.
abbrev around : TypeId → ℤ → ℤ
around t z = wrap (half t) z

abbrev to_zero : TypeId → ℤ → ℤ
to_zero t z = pos 0

abbrev value : TypeId → ℤ → Value
value t z = record { type_id = t; number = z; is_null = false }

abbrev big : Value
big = value integer (pos 2147483647)

abbrev tiny : Value
tiny = value tinyint (negsuc 99)

abbrev nothing : Value
nothing = record { type_id = smallint; number = negsuc 32767; is_null = true }

big-IsValid : IsValid big
big-IsValid = record { fits = omega arith; null = refl }

tiny-IsValid : IsValid tiny
tiny-IsValid = record { fits = omega arith; null = refl }

nothing-IsValid : IsValid nothing
nothing-IsValid = record { fits = omega arith; null = refl }

add_throws : add around big big ≡ throw out_of_range
unfolding add wrap ◌+ℤ◌
add_throws = refl

-- Where the overflow does not wrap around, the test of the sign does not see it.
add_misses : add to_zero big big ≡ ok (value integer (pos 0))
unfolding add wrap ◌+ℤ◌ new_value
add_misses = refl

-- A sum that is the smallest number of its type is NULL.
add_null :
    add around (value tinyint (negsuc 99)) (value tinyint (negsuc 27))
    ≡ ok (record { type_id = tinyint; number = negsuc 127; is_null = true })
unfolding add wrap ◌+ℤ◌ new_value
add_null = refl

divide_down :
    divide around (value smallint (negsuc 6)) (value bigint (pos 2)) ≡ ok (value bigint (negsuc 2))
unfolding divide wrap quot new_value
divide_down = refl

add-eq-checked_example : add to_zero big tiny ≡ ok (value integer (pos 2147483547))
unfolding checked wider promoted ◌+ℤ◌ new_value wrap
add-eq-checked_example = add-eq-checked to_zero big tiny refl refl (omega arith)

multiply-eq-checked_example : multiply to_zero tiny tiny ≡ throw out_of_range
unfolding checked wider promoted ◌*ℤ◌
multiply-eq-checked_example =
    multiply-eq-checked to_zero tiny tiny tiny-IsValid refl refl (omega arith)

divide-modulo_example :
    ((is_zero tiny ≡ true)
      × (divide around big tiny ≡ throw divide_by_zero)
      × (modulo around big tiny ≡ throw divide_by_zero))
    ⊎ ((is_zero tiny ≡ false) × Divided around big tiny)
divide-modulo_example = divide-modulo around big tiny big-IsValid tiny-IsValid refl refl

operations-Returns_example :
    Returns integer (add to_zero big tiny)
    × Returns integer (subtract to_zero big tiny)
    × Returns integer (multiply to_zero big tiny)
    × Returns integer (divide to_zero big tiny)
    × Returns integer (modulo to_zero big tiny)
unfolding wider
operations-Returns_example = operations-Returns to_zero big tiny

cast_as-eq_example : cast_as big smallint ≡ throw out_of_range
cast_as-eq_example = cast_as-eq big smallint big-IsValid

deserialize_from-serialize_to_example :
    (deserialize_from integer (serialize_to big (λ x. 7)) ≡ big)
    × ((x : ℕ) → 4 ≤ x → serialize_to big (λ x. 7) x ≡ 7)
deserialize_from-serialize_to_example = deserialize_from-serialize_to big (λ x. 7) big-IsValid
