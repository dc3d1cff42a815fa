-- ===== src/Lines.antt =====
-- The table of line numbers of a function in cxx/quickjs/quickjs.c: `add_pc2line_info`,
-- `compute_pc2line_info`, what `js_create_function` keeps of it, and `find_line_num`.
-- An `int` is its word of 32 bits. What `dbuf_putc` returns is ignored there, as in Leb128.
pub mod Encoded
pub mod Lookup
pub mod Kept
pub mod Recorded
mod Runs
use flutter_quickjs.Prelude.{
  ℕ, zero, suc, ◌+◌, ◌-◌, ◌*◌, ◌/◌, ◌%◌, ◌^◌, Bool, true, false, ◌&&◌, ◌||◌, not, Option, none,
  some, List, [], ◌∷◌, ◌++◌, length, take, drop, if◌then◌else◌, ltb, leb, ◌==◌,
}
use flutter_quickjs.Cutils.DynBuf.{DynBuf, Realloc, dbuf_init, dbuf_putc}
use flutter_quickjs.Leb128.{ignoring, dbuf_put_leb128, dbuf_put_sleb128, get_leb128, get_sleb128}

-- `LineNumberSlot`
pub record Slot : Type 0 where
  pub pc : ℕ
  pub line_num : ℕ

-- The fields of `JSFunctionDef` for the slots; `line_number_count` is the length of their list.
pub record SlotInfo : Type 0 where
  pub has_slots : Bool
  pub line_number_slots : List Slot
  pub line_number_size : ℕ
  pub line_number_last_pc : ℕ
  pub line_number_last : ℕ

unfoldable pub add_pc2line_info : SlotInfo → (pc line_num : ℕ) → SlotInfo
add_pc2line_info s pc line_num =
    if s.has_slots
      && ltb (length s.line_number_slots) s.line_number_size
      && leb s.line_number_last_pc pc
      && not (line_num == s.line_number_last)
    then record s {
      line_number_slots = s.line_number_slots ++ record { pc = pc; line_num = line_num } ∷ [];
      line_number_last_pc = pc;
      line_number_last = line_num;
    }
    else s

-- `a < b` on `int`
abbrev pub int_ltb : ℕ → ℕ → Bool
int_ltb a b = ltb ((a + 2 ^ 31) % 2 ^ 32) ((b + 2 ^ 31) % 2 ^ 32)

-- `a - b` on words of 32 bits
abbrev pub minus : ℕ → ℕ → ℕ
minus a b = (a + 2 ^ 32 - b) % 2 ^ 32

-- `PC2LINE_BASE` is -1, `PC2LINE_RANGE` 5, `PC2LINE_OP_FIRST` 1 and `PC2LINE_DIFF_PC_MAX` 50.
unfoldable pub is_short : (diff_pc diff_line : ℕ) → Bool
is_short diff_pc diff_line =
    not (int_ltb diff_line (2 ^ 32 - 1)) && int_ltb diff_line 4 && not (int_ltb 50 diff_pc)

-- `(diff_line - PC2LINE_BASE) + diff_pc * PC2LINE_RANGE + PC2LINE_OP_FIRST`
unfoldable pub short_op : (diff_pc diff_line : ℕ) → ℕ
short_op diff_pc diff_line = (diff_line + 1 + diff_pc * 5 + 1) % 2 ^ 32

-- The tests that go to the next slot.
abbrev pub skips : (pc line_num last_pc last_line_num : ℕ) → Bool
skips pc line_num last_pc last_line_num =
    int_ltb line_num 0 || minus line_num last_line_num == 0 || int_ltb (minus pc last_pc) 0

module _ (realloc : Realloc) where
  -- `/* longer encoding */`
  unfoldable pub put_long : DynBuf → (diff_pc diff_line : ℕ) → Option DynBuf
  put_long s diff_pc diff_line = elim (ignoring (dbuf_putc realloc s 0)) [
    | none ↦ none
    | some s1 ↦ elim (dbuf_put_leb128 realloc s1 diff_pc) [
      | none ↦ none
      | some s2 ↦ dbuf_put_sleb128 realloc s2 diff_line
    ]
  ]

  unfoldable pub put_entry : DynBuf → (diff_pc diff_line : ℕ) → Option DynBuf
  put_entry s diff_pc diff_line =
      if is_short diff_pc diff_line
      then ignoring (dbuf_putc realloc s (short_op diff_pc diff_line))
      else put_long s diff_pc diff_line

  unfoldable pub pc2line_loop : List Slot → (last_pc last_line_num : ℕ) → DynBuf → Option DynBuf
  pc2line_loop [] last_pc last_line_num s = some s
  pc2line_loop (slot ∷ slots) last_pc last_line_num s =
      elim (skips slot.pc slot.line_num last_pc last_line_num) [
        | true ↦ pc2line_loop slots last_pc last_line_num s
        | false ↦ elim (put_entry s (minus slot.pc last_pc) (minus slot.line_num last_line_num)) [
          | none ↦ none
          | some s' ↦ pc2line_loop slots slot.pc slot.line_num s'
        ]
      ]

  -- `strip` is `s->js_mode & JS_MODE_STRIP`, and `pc2line` the buffer before the call.
  unfoldable pub compute_pc2line_info :
      (strip : Bool) → SlotInfo → (line_num : ℕ) (pc2line : DynBuf) → Option DynBuf
  compute_pc2line_info strip info line_num pc2line =
      if not strip && info.has_slots
      then pc2line_loop info.line_number_slots 0 line_num dbuf_init
      else some pc2line

module _ (first_line pc_value : ℕ) where
  -- The `while` loop over the bytes that are left; each round reads one at least. `fail:` returns the
  -- first line.
  unfoldable pub find_loop : (fuel : ℕ) → List ℕ → (pc line_num : ℕ) → Option ℕ
  find_loop fuel [] pc line_num = some line_num
  find_loop zero (op ∷ p) pc line_num = none
  find_loop (suc fuel) (op ∷ p) pc line_num = elim (op == 0) [
    | true ↦ elim (get_leb128 p) [
      | none ↦ some first_line
      | some first ↦ elim (get_sleb128 (drop first.1 p)) [
        | none ↦ some first_line
        | some second ↦
            let pc' = (pc + first.0) % 2 ^ 32 in
            elim (ltb pc_value pc') [
              | true ↦ some line_num
              | false ↦
                  find_loop fuel (drop second.1 (drop first.1 p)) pc'
                    ((line_num + second.0) % 2 ^ 32)
            ]
      ]
    ]
    | false ↦
        let pc' = (pc + (op - 1) / 5) % 2 ^ 32 in
        elim (ltb pc_value pc') [
          | true ↦ some line_num
          | false ↦ find_loop fuel p pc' (minus (line_num + (op - 1) % 5) 1)
        ]
  ]

-- The part of `JSFunctionBytecode` for debugging. `pc2line_buf` is a block, or `none` for NULL.
pub record Debug : Type 0 where
  pub has_debug : Bool
  pub pc2line_buf : Option (List ℕ)
  pub pc2line_len : ℕ
  pub line_num : ℕ

-- `js_def_realloc`: NULL for a size of 0; else `realloc` says what there is.
unfoldable pub js_realloc : Realloc → (ptr : List ℕ) (size : ℕ) → Option (List ℕ)
js_realloc realloc ptr size = if size == 0 then none else realloc ptr size

-- A pointer to a block; the empty block stands for NULL, as in `DynBuf`.
unfoldable pub pointer : List ℕ → Option (List ℕ)
pointer [] = none
pointer (b ∷ bs) = some (b ∷ bs)

-- The table in a block of its size, or in the one that it was written in.
unfoldable pub kept_buf : Realloc → DynBuf → Option (List ℕ)
kept_buf realloc pc2line = elim (js_realloc realloc pc2line.buf pc2line.size) [
  | none ↦ pointer pc2line.buf
  | some b ↦ some b
]

-- What `js_create_function` keeps of the table of a function that is not stripped.
unfoldable pub create_debug : Realloc → (pc2line : DynBuf) (line_num : ℕ) → Debug
create_debug realloc pc2line line_num = record {
  has_debug = true;
  pc2line_buf = kept_buf realloc pc2line;
  pc2line_len = pc2line.size;
  line_num = line_num;
}

-- -1 for a function without a table. The bytes from `p` to `p_end` are the first `pc2line_len`.
unfoldable pub find_line_num : Debug → (pc_value : ℕ) → Option ℕ
find_line_num b pc_value =
    if b.has_debug
    then elim (b.pc2line_buf) [
      | none ↦ some (2 ^ 32 - 1)
      | some buf ↦
          let bytes = take b.pc2line_len buf in
          find_loop b.line_num pc_value (length bytes) bytes 0 b.line_num
    ]
    else some (2 ^ 32 - 1)
