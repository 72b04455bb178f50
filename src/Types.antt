-- ===== src/Types.antt =====
-- Values of the integer types and the operations on them, of src/type and src/include/type. The model
-- is in Value, Arith, Compare, Cast, Storage and the four modules of what each type has of its own.
pub mod Words
pub mod Value
pub mod Tinyint
pub mod Smallint
pub mod Integer
pub mod Bigint
pub mod Arith
pub mod Compare
pub mod Cast
pub mod Storage
pub mod Exact
pub mod Sum
pub mod Product
pub mod Quotient
pub mod Typed
mod Tests
