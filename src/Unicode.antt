-- ===== src/Unicode.antt =====
-- The character classes of cxx/quickjs/libunicode.c and libunicode.h.
pub mod CharRange
pub mod Tables
pub mod CaseConv
