-- ===== src/Lines/Kept.antt =====
-- What `js_create_function` of cxx/quickjs/quickjs.c keeps of a table, and what is found in it.
use flutter_quickjs.Prelude.{◌-◌, ◌≢◌, take, take_all, length-take, Option-cases}
use flutter_quickjs.Prelude.{
  ℕ, ◌^◌, ◌<◌, ◌≤◌, ◌≡◌, arith, refl, ap, ◌∙◌, inl, inr, false, some, List, [], ◌∷◌, length,
  length-append, ◌==◌,
}
use flutter_quickjs.Cutils.DynBuf.{DynBuf, Realloc, dbuf_init}
use flutter_quickjs.Cutils.DynBuf.Append.{IsRealloc, IsValid, contents}
use flutter_quickjs.Leb128.Written.{length-contents}
use flutter_quickjs.Lines.{
  Slot, create_debug, kept_buf, js_realloc, pointer, pc2line_loop, find_line_num, find_loop, skips,
  minus,
}
use flutter_quickjs.Lines.Encoded.{entry_bytes, table_bytes, entry_not_empty}
use flutter_quickjs.Lines.Lookup.{Rising, line_at, find_loop-table_bytes}

-- The first slot has another line than the function begins at; before it, that line is the last one.
unfoldable pub IsApart : (line_num last : ℕ) → List Slot → Type 0
IsApart line_num last [] = last ≡ line_num
IsApart line_num last (slot ∷ slots) = slot.line_num ≢ line_num

-- A first slot that is apart has an entry.
table_not_empty :
    (slot : Slot) (slots : List Slot) (line : ℕ)
    → slot.pc < 2 ^ 31
    → slot.line_num < 2 ^ 31
    → line < 2 ^ 31
    → slot.line_num ≢ line
    → 0 < length (table_bytes (slot ∷ slots) 0 line)
unfolding table_bytes
table_not_empty slot slots line h k l apart =
    let dp : ℕ = minus slot.pc 0 in
    let dl : ℕ = minus slot.line_num line in
    let differs : dl ≢ 0 = λ e. apart (omega arith) in
    let kept : skips slot.pc slot.line_num 0 line ≡ false = ground (arith, differs) in
    rw (table_bytes, kept)
      (omega (
        arith,
        length-append (entry_bytes dp dl) (table_bytes slots slot.pc slot.line_num),
        entry_not_empty dp dl,
      ))

-- The line that is found for a pc: that of the last slot that is not behind it, or the first line of
-- the function; -1 where no slot was recorded.
unfoldable pub line_found : List Slot → (line_num pc_value : ℕ) → ℕ
line_found [] line_num pc_value = 2 ^ 32 - 1
line_found (slot ∷ slots) line_num pc_value = line_at (slot ∷ slots) line_num pc_value

-- What a smaller block keeps: a block that `realloc` gives for fewer bytes has the first of them.
pub record Shrinks (realloc : Realloc) : Type 0 where
  pub first_kept :
      (b : List ℕ) (n : ℕ) (b' : List ℕ) → n ≤ length b → realloc b n ≡ some b' → b' ≡ take n b

pointer-some : (b : List ℕ) → 0 < length b → pointer b ≡ some b
unfolding pointer
pointer-some [] h = absurd (omega arith)
pointer-some (x ∷ b) h = refl

module _ (realloc : Realloc) (k : Shrinks realloc) where
  kept_block :
      (t : DynBuf)
      → IsValid t
      → 0 < t.size
      → (b : List ℕ) × (kept_buf realloc t ≡ some b) × (take t.size b ≡ contents t)
  unfolding kept_buf js_realloc
  kept_block t v h =
      let some_size : (t.size == 0) ≡ false = ground arith in
      let asked : js_realloc realloc t.buf t.size ≡ realloc t.buf t.size =
        rw (js_realloc, some_size) refl in
      let inside : t.size ≤ length t.buf = omega (arith, v.block, v.within) in
      elim (Option-cases (realloc t.buf t.size)) [
        | inl n ↦ (t.buf, rw (kept_buf, asked ∙ n) (pointer-some t.buf (omega arith)), refl)
        | inr (b, e) ↦ (
          b,
          rw (kept_buf, asked ∙ e) refl,
          ap (take t.size) (k.first_kept t.buf t.size b inside e)
              ∙ take_all (contents t) t.size (omega (arith, length-take t.size t.buf)),
        )
      ]

  -- A table that is not empty is looked up in the bytes that were written.
  looked_up :
      (t : DynBuf) (line_num q : ℕ)
      → IsValid t
      → 0 < t.size
      → find_line_num (create_debug realloc t line_num) q
        ≡ find_loop line_num q (length (contents t)) (contents t) 0 line_num
  unfolding find_line_num create_debug
  looked_up t line_num q v h =
      let (b, e, same) = kept_block t v h in
      rw (find_line_num, e)
        (ap (λ (bytes : List ℕ). find_loop line_num q (length bytes) bytes 0 line_num) same)

no_table :
    (realloc : Realloc) (line_num q : ℕ)
    → find_line_num (create_debug realloc dbuf_init line_num) q ≡ some (2 ^ 32 - 1)
unfolding find_line_num create_debug kept_buf js_realloc pointer dbuf_init
no_table realloc line_num q = refl

module _ (realloc : Realloc) (r : IsRealloc realloc) (k : Shrinks realloc) (line_num : ℕ)
    (line_small : line_num < 2 ^ 31) where
  -- The lookup, whichever the slots are.
  pub found_in_table :
      (slots : List Slot) (last : ℕ) (t : DynBuf)
      → Rising 0 slots
      → IsApart line_num last slots
      → IsValid t
      → contents t ≡ table_bytes slots 0 line_num
      → (slots ≡ [] → t ≡ dbuf_init)
      → (pc_value : ℕ)
      → find_line_num (create_debug realloc t line_num) pc_value
        ≡ some (line_found slots line_num pc_value)
  unfolding line_found IsApart
  found_in_table [] last t rising apart v same first q =
      ap (λ (u : DynBuf). find_line_num (create_debug realloc u line_num) q) (first refl)
      ∙ no_table realloc line_num q
  found_in_table (slot ∷ slots) last t (le, pc_small, small, rising) apart v same first q =
      let bytes : List ℕ = table_bytes (slot ∷ slots) 0 line_num in
      let some_bytes : 0 < length bytes =
        table_not_empty slot slots line_num pc_small small line_small apart in
      let some_size : 0 < t.size = omega (arith, length-contents t v, ap length same) in
      looked_up realloc k t line_num q v some_size
      ∙ ap (λ (b : List ℕ). find_loop line_num q (length b) b 0 line_num) same
      ∙ find_loop-table_bytes line_num q (length bytes) (slot ∷ slots) 0 line_num
          (le, pc_small, small, rising) line_small (omega arith)

pub nothing_written :
    (realloc : Realloc) (slots : List Slot) (line_num : ℕ) (t : DynBuf)
    → pc2line_loop realloc slots 0 line_num dbuf_init ≡ some t
    → slots ≡ []
    → t ≡ dbuf_init
unfolding pc2line_loop
nothing_written realloc [] line_num t e h = cc
nothing_written realloc (slot ∷ slots) line_num t e h = absurd cc
