-- ===== src/Regexp.antt =====
-- The engine of cxx/quickjs/libregexp.c, which runs the bytecode of a regular expression.
pub mod Chars
pub mod Range
pub mod Opcode
pub mod State
pub mod Ops
pub mod Exec
