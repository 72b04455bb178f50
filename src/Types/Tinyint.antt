-- ===== src/Types/Tinyint.antt =====
-- What src/type/tinyint_type.cpp has of its own: `OperateNull` and `CastAs` to the integer types.
use cmu.Common.{if◌then◌else◌}
use cmu.Types.Value.{
  TypeId, tinyint, smallint, integer, bigint, null_number, Value, new_value, copy, Result, ok,
}

-- By the type of the right operand.
unfoldable pub operate_null : TypeId → Value
unfolding new_value
operate_null tinyint = new_value tinyint (null_number tinyint)
operate_null smallint = new_value smallint (null_number smallint)
operate_null integer = new_value integer (null_number integer)
operate_null bigint = new_value bigint (null_number bigint)

unfoldable pub cast_as : Value → TypeId → Result Value
unfolding new_value copy
cast_as val tinyint =
    if val.is_null then ok (new_value tinyint (null_number tinyint)) else ok (copy val)
cast_as val smallint =
    if val.is_null
    then ok (new_value smallint (null_number smallint))
    else ok (new_value smallint val.number)
cast_as val integer =
    if val.is_null
    then ok (new_value integer (null_number integer))
    else ok (new_value integer val.number)
cast_as val bigint =
    if val.is_null
    then ok (new_value bigint (null_number bigint))
    else ok (new_value bigint val.number)
