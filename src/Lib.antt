-- ===== src/Lib.antt =====
-- A verification library for the C code of flutter_quickjs: the QuickJS engine that the plugin
-- builds and ships (cxx/quickjs).
--
-- The plugin's Dart side calls the exported functions of ios/Classes/ffi.cpp, which call the
-- engine, cxx/quickjs/quickjs.c. Of the engine itself, the passes of the cycle collector, the
-- tables of line numbers and some operations on strings are modelled. It stands on libraries of
-- its own, which are modelled too: `cutils` (byte buffers, UTF-8), `libunicode` (character sets
-- and case, for the regular expressions and the parser), `libregexp` (regular expressions),
-- `libbf` (big numbers) and the lists of `list.h`. The executor of `libregexp` reads sets that its
-- compiler has written from the sets of `libunicode`, and folds case by the tables of
-- `libunicode`.
--
-- Cutils.antt, cxx/quickjs/cutils.c and cutils.h:
--   Cutils/Utf8 has `unicode_to_utf8` and `unicode_from_utf8` over lists of bytes. A read past the
--   input is the result `out_of_bounds`.
--   Cutils/DynBuf has `DynBuf` as a record with its block as a list, and the `dbuf_` functions as
--   functions from the buffer to an outcome: 0, -1, or a fault, which is an access outside the
--   block. `realloc_func` is an argument, with its documented behaviour as the hypothesis
--   `IsRealloc`; `size_t` sums wrap at 2^64. What `vsnprintf` prints is an
--   argument, and so is what it returns, an `int` by its word of 32 bits.
--   Cutils/Strings has `pstrcpy`, `pstrcat`, `strstart`, `has_suffix` and `from_hex`.
--   Cutils/Exchange has the exchange functions and `exchange_func`, which chooses among them by size
--   and alignment, over a memory that is a function from addresses to bytes.
-- Unicode.antt, cxx/quickjs/libunicode.c and libunicode.h:
--   Unicode/CharRange has `CharRange` as its list of points and the size of its block, and the
--   `cr_` functions. Whether an allocation is granted is the argument `grant`; a store
--   outside of the block is the result `fault`. Lengths and sizes are `int` there and numbers here,
--   which agree up to 2^31 / 3 points. The loop of `cr_op` recurs on the points that are left of its
--   two inputs, which also is why it ends.
--   Unicode/Tables has `get_le24`, `get_index_pos` and `lre_is_in_table` over any table and index,
--   and Unicode/CaseConv has `lre_case_conv`, `lre_is_cased` and, from libregexp.c,
--   `lre_canonicalize`. The generated tables are arguments. The binary searches have a unit of fuel
--   for each entry at least, and each round drops an entry; the scan of a table has one for each byte
--   and one more, and each round reads a byte.
-- Bignum.antt, cxx/quickjs/libbf.c:
--   Bignum/Limbs has the `mp_` functions over lists of limbs, lowest first, with LIMB_BITS = 64,
--   and Bignum/Decimal their decimal versions with BF_DEC_BASE = 10^19. `limb_t` wraps at 2^64 and
--   `dlimb_t` at 2^128. The loops recur on the limbs.
-- Regexp.antt, cxx/quickjs/libregexp.c:
--   Regexp/Chars has the macros that read a subject forward and backward (`GET_CHAR` and its kin),
--   over lists of code units; a position counts units, and a read outside is `none`.
--   Regexp/Range has `re_emit_range`, which writes a character set into the bytecode, and the
--   lookups of `REOP_range` and `REOP_range32`, over lists of bytes. The binary search has fuel for
--   one round more than there are ranges, and each round drops one at least.
--   Regexp/Opcode has the opcodes and their sizes, Regexp/State the state of the executor and the
--   saved states, Regexp/Ops the cases of the `switch` and Regexp/Exec the loop,
--   `lre_exec_backtrack`, and `lre_exec`; Regexp/Exec/Literal has the bytecode that the compiler makes
--   of plain characters. A position counts code units of the subject, and `pc` counts
--   bytes of the bytecode with its header; `stack` is an array with `stack_len`; the saved states are
--   a list, the last one first, each with its own copy of the captures and the stack.
--   `lre_canonicalize` and whether an allocation is granted are arguments. One instruction, and one
--   round of a greedy quantifier, costs one unit of fuel. Bytecode can loop for ever, so fuel that is
--   spent is a result of its own, `out_of_fuel`. A read outside the bytecode or the subject is the
--   result `fault`. A position that is pushed on the stack stands for the pointer that is pushed.
-- Linked.antt, cxx/quickjs/list.h: the store holds the two links of every node, which are numbers.
--   Linked/Ring says what a ring is, and Linked/Lists relates the calls to lists.
-- Heap.antt, cxx/quickjs/quickjs.c: `mark_children`, `JS_MarkValue`, `JS_MarkContext` and the
--   `gc_mark` functions of the classes (Heap/Classes), as the list of the objects that an object
--   references. An object is a number, and a structure has the fields that are marked.
-- Gc.antt, cxx/quickjs/quickjs.c: `gc_decref` and `gc_scan` with the functions that they hand to
--   `mark_children`, and `JS_RunGC` up to `gc_free_cycles`. The two lists of objects are lists, in the
--   sense of Linked; reference counts and marks are functions of the object. A loop walks from an
--   object to the next one in the list as it is at that time, with one unit of fuel for each object
--   that the list can come to have. `IsHeap` says what the heap is, `IsReady` how the collector finds
--   it: the count of an object is that of the references in the heap and from outside.
-- Leb128.antt, cxx/quickjs/quickjs.c: the writers and readers of numbers of variable length, over a
--   `DynBuf` and over bytes; a word of 32 bits takes five rounds at most.
-- Lines.antt, cxx/quickjs/quickjs.c: `add_pc2line_info`, `compute_pc2line_info`, what
--   `js_create_function` keeps of the table, and `find_line_num`. An `int` is its word of 32 bits. A
--   block that is NULL is `none`; that a smaller block keeps its first bytes is the hypothesis
--   `Shrinks`. The lookup has a unit of fuel for each byte of the table, and each round reads one.
-- JsString.antt, cxx/quickjs/quickjs.c: `JSString` in 8 or 16 bits and `is_num_string`, and in
--   JsString/Compare `js_string_compare` with the loops that it uses. `memcmp` is an argument, with
--   its documented behaviour as the hypothesis `IsMemcmp`. JsString/Slice has `js_sub_string`
--   and JsString/Concat `JS_ConcatString` of two strings, with the `int` that wraps in the size that
--   it compares, and `outside_block` for a copy past the end of a block; whether memory is granted is
--   the argument `grant`, and how much of a block is usable is one too.
-- Intervals.antt has the sorted tables of intervals that two of the binary searches share.
-- Prelude.antt has what these share: comparisons as Boolean tests, arrays as lists over the native
-- numbers, and the bit operations as arithmetic.
--
-- All other loops are structural recursions.
--
-- Not modelled: the interpreter, the parser and the built-ins of quickjs.c, and the freeing of
-- objects (`gc_free_cycles`, `free_zero_refcount_objects` and the finalizers); the compiler of
-- regular expressions (the rest of libregexp.c), normalisation and the properties by name (the
-- rest of libunicode.c), the generated tables (libunicode-table.h), the floats and decimals that
-- stand on the limbs (the rest of libbf.c), the sorts of cutils.c, the host functions and programs
-- (quickjs-libc.c, qjs.c, qjsc.c, run-test262.c, unicode_gen.c), and the bindings (ffi.cpp, the
-- Dart, Kotlin and Swift code).
pub mod Prelude
pub mod Cutils
pub mod Unicode
pub mod Bignum
pub mod Gc
pub mod Heap
pub mod Intervals
pub mod JsString
pub mod Leb128
pub mod Lines
pub mod Linked
pub mod Regexp
