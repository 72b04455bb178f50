-- ===== src/Types/Value.antt =====
-- Values of the integer types, of src/include/type/value.h, src/type/value.cpp and
-- src/include/type/limits.h, and the tests on them.
use cmu.Common.{ℕ, ◌+◌, ◌≡◌, Bool, true, false, ◌==◌}
use cmu.Common.Int.{ℤ, pos, negsuc, pos_part, neg_part}
use cmu.Types.Words.{Fits, wrap}

-- The four integer types of `TypeId`.
pub data TypeId : Type 0 where
  tinyint : TypeId
  smallint : TypeId
  integer : TypeId
  bigint : TypeId

-- `sizeof` of the C++ type, in bytes, and half the number of its values.
abbrev pub size_of : TypeId → ℕ
size_of tinyint = 1
size_of smallint = 2
size_of integer = 4
size_of bigint = 8

abbrev pub half : TypeId → ℕ
half tinyint = 0x80
half smallint = 0x8000
half integer = 0x80000000
half bigint = 0x8000000000000000

-- `BUSTUB_INT8_NULL` and the others: the smallest number of the C++ type.
abbrev pub null_number : TypeId → ℤ
null_number tinyint = negsuc 0x7F
null_number smallint = negsuc 0x7FFF
null_number integer = negsuc 0x7FFFFFFF
null_number bigint = negsuc 0x7FFFFFFFFFFFFFFF

-- `BUSTUB_INT8_MIN` and the others.
abbrev pub min_number : TypeId → ℤ
min_number tinyint = negsuc 0x7E
min_number smallint = negsuc 0x7FFE
min_number integer = negsuc 0x7FFFFFFE
min_number bigint = negsuc 0x7FFFFFFFFFFFFFFE

-- `BUSTUB_INT8_MAX` and the others.
abbrev pub max_number : TypeId → ℤ
max_number tinyint = pos 0x7F
max_number smallint = pos 0x7FFF
max_number integer = pos 0x7FFFFFFF
max_number bigint = pos 0x7FFFFFFFFFFFFFFF

abbrev pub eqb_ℤ : ℤ → ℤ → Bool
eqb_ℤ a b = pos_part a + neg_part b == pos_part b + neg_part a

-- `value_` and `type_id_` of a value, and whether `size_.len_` is `BUSTUB_VALUE_NULL`.
pub record Value : Type 0 where
  pub type_id : TypeId
  pub number : ℤ
  pub is_null : Bool

-- The constructors `Value(TypeId, intN_t)` for an integer type: the assignment to the field of the
-- union casts.
unfoldable pub new_value : TypeId → ℤ → Value
new_value t i =
    let number : ℤ = wrap (half t) i in
    record { type_id = t; number = number; is_null = eqb_ℤ number (null_number t) }

pub data CmpBool : Type 0 where
  cmp_false : CmpBool
  cmp_true : CmpBool
  cmp_null : CmpBool

pub data Error : Type 0 where
  out_of_range : Error
  divide_by_zero : Error

-- What a method returns, or the exception that it throws.
pub data Result {ℓ} (A : Type ℓ) : Type ℓ where
  ok : A → Result A
  throw : Error → Result A

unfoldable pub get_cmp_bool : Bool → CmpBool
get_cmp_bool true = cmp_true
get_cmp_bool false = cmp_false

-- `IsZero` and `Copy` of the four types.
unfoldable pub is_zero : Value → Bool
is_zero v = eqb_ℤ v.number (pos 0)

unfoldable pub copy : Value → Value
unfolding new_value
copy v = new_value v.type_id v.number

-- A value as the constructors make it.
pub record IsValid (v : Value) : Type 0 where
  pub fits : Fits (half v.type_id) v.number
  pub null : v.is_null ≡ eqb_ℤ v.number (null_number v.type_id)
