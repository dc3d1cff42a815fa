-- ===== src/Bignum.antt =====
-- The numbers of cxx/quickjs/libbf.c, on arrays of limbs.
pub mod Limbs
pub mod Decimal
