-- ===== src/Cutils.antt =====
-- The utilities of cxx/quickjs/cutils.c and cutils.h, one child for each family of functions.
pub mod Utf8
pub mod DynBuf
pub mod Strings
pub mod Exchange
