-- ===== src/Types/Compare.antt =====
-- Comparisons of values of the integer types in src/type/integer_type.cpp, and `Min` and `Max` of
-- src/type/integer_parent_type.cpp. The comparisons of the other three types have the same text.
use cmu.Common.{
  ◌≡◌, ◌↔◌, ◌⊎◌, inl, inr, Bool, true, false, arith, ◌||◌, not, if◌then◌else◌, Bool-cases,
}
use cmu.Common.Int.{ltb_ℤ, leb_ℤ, ◌≤ℤ◌}
use cmu.Types.Words.{wrap_of_Fits}
use cmu.Types.Value.{
  Value, IsValid, half, new_value, copy, eqb_ℤ, CmpBool, cmp_true, cmp_false, cmp_null,
  get_cmp_bool,
}
use cmu.Types.Arith.{operate_null}

unfoldable pub compare_equals : Value → Value → CmpBool
unfolding get_cmp_bool
compare_equals left right =
    if left.is_null || right.is_null
    then cmp_null
    else get_cmp_bool (eqb_ℤ left.number right.number)

unfoldable pub compare_not_equals : Value → Value → CmpBool
unfolding get_cmp_bool
compare_not_equals left right =
    if left.is_null || right.is_null
    then cmp_null
    else get_cmp_bool (not (eqb_ℤ left.number right.number))

unfoldable pub compare_less_than : Value → Value → CmpBool
unfolding get_cmp_bool
compare_less_than left right =
    if left.is_null || right.is_null
    then cmp_null
    else get_cmp_bool (ltb_ℤ left.number right.number)

unfoldable pub compare_less_than_equals : Value → Value → CmpBool
unfolding get_cmp_bool
compare_less_than_equals left right =
    if left.is_null || right.is_null
    then cmp_null
    else get_cmp_bool (leb_ℤ left.number right.number)

unfoldable pub compare_greater_than : Value → Value → CmpBool
unfolding get_cmp_bool
compare_greater_than left right =
    if left.is_null || right.is_null
    then cmp_null
    else get_cmp_bool (ltb_ℤ right.number left.number)

unfoldable pub compare_greater_than_equals : Value → Value → CmpBool
unfolding get_cmp_bool
compare_greater_than_equals left right =
    if left.is_null || right.is_null
    then cmp_null
    else get_cmp_bool (leb_ℤ right.number left.number)

unfoldable pub is_true : CmpBool → Bool
is_true cmp_true = true
is_true cmp_false = false
is_true cmp_null = false

unfoldable pub min : Value → Value → Value
unfolding is_true operate_null compare_less_than
min left right =
    if left.is_null || right.is_null
    then operate_null left.type_id right.type_id
    else if is_true (compare_less_than left right)
    then copy left
    else copy right

unfoldable pub max : Value → Value → Value
unfolding is_true operate_null compare_greater_than_equals
max left right =
    if left.is_null || right.is_null
    then operate_null left.type_id right.type_id
    else if is_true (compare_greater_than_equals left right)
    then copy left
    else copy right

pub copy_lem : (v : Value) → IsValid v → copy v ≡ v
unfolding copy new_value
copy_lem v valid =
    rw (wrap_of_Fits (half v.type_id) v.number valid.fits) (ground (arith, valid.null))

-- Negation and the other two of SQL's three values.
abbrev pub negated : CmpBool → CmpBool
negated cmp_true = cmp_false
negated cmp_false = cmp_true
negated cmp_null = cmp_null

-- Of two valid integer values that are not NULL, Min and Max return the two as they are, one each, the
-- number of the first not above that of the second.
pub min-max :
    (l r : Value)
    → IsValid l
    → IsValid r
    → l.is_null ≡ false
    → r.is_null ≡ false
    → (l.number ≤ℤ r.number × (min l r ≡ l) × (max l r ≡ r))
      ⊎ (r.number ≤ℤ l.number × (min l r ≡ r) × (max l r ≡ l))
unfolding min max compare_less_than compare_greater_than_equals
min-max l r vl vr left right = elim (Bool-cases (ltb_ℤ l.number r.number)) [
  | inl lt ↦ inl (ground arith, ground (arith, copies), ground (arith, copies))
  | inr ge ↦ inr (ground arith, ground (arith, copies), ground (arith, copies))
]
  where
    copies : (copy l ≡ l) × (copy r ≡ r)
    copies = (copy_lem l vl, copy_lem r vr)

-- The comparisons of two integer values are those of one total order: each is another one turned
-- round or negated, NULL is neither true nor false, of two that are not NULL exactly one of less, equal
-- and greater is true, and less is transitive.
pub compare_laws :
    (l r : Value)
    → (compare_greater_than l r ≡ compare_less_than r l)
      × (compare_less_than_equals l r ≡ negated (compare_greater_than l r))
      × (compare_greater_than_equals l r ≡ negated (compare_less_than l r))
      × (compare_not_equals l r ≡ negated (compare_equals l r))
      × ((compare_less_than l r ≡ cmp_null) ↔ (l.is_null || r.is_null ≡ true))
      × ((compare_equals l r ≡ cmp_null) ↔ (l.is_null || r.is_null ≡ true))
      × (compare_less_than l r ≡ cmp_true
          → (compare_equals l r ≡ cmp_false) × (compare_greater_than l r ≡ cmp_false))
      × (compare_less_than l r ≡ cmp_false
          → compare_equals l r ≡ cmp_false
          → compare_greater_than l r ≡ cmp_true)
      × ((m : Value)
          → compare_less_than l r ≡ cmp_true
          → compare_less_than r m ≡ cmp_true
          → compare_less_than l m ≡ cmp_true)
unfolding compare_greater_than compare_less_than compare_less_than_equals
    compare_greater_than_equals compare_not_equals compare_equals
compare_laws l r = (
  ground arith,
  ground arith,
  ground arith,
  ground arith,
  ground arith,
  ground arith,
  λ p. (ground arith, ground arith),
  ground arith,
  λ m p q. ground arith,
)
