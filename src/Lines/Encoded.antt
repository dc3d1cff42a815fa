-- ===== src/Lines/Encoded.antt =====
-- The bytes that `compute_pc2line_info` of cxx/quickjs/quickjs.c appends.
use flutter_quickjs.Prelude.{
  ℕ, ◌^◌, ◌<◌, ◌≤◌, ◌≡◌, arith, refl, sym, ap, ◌∙◌, inl, inr, Bool, true, false, Option, none, some,
  List, [], ◌∷◌, ◌++◌, length, length-append, if◌then◌else◌, Option-cases, Bool-cases,
}
use flutter_quickjs.Cutils.DynBuf.{DynBuf, Realloc, dbuf_putc}
use flutter_quickjs.Leb128.{ignoring, dbuf_put_leb128, dbuf_put_sleb128, zigzag}
use flutter_quickjs.Leb128.RoundTrip.{leb128, zigzag-lt, length-leb128_bytes}
use flutter_quickjs.Leb128.Written.{putc_all, putc_all-one, putc_all-append, dbuf_put_leb128_lem}
use flutter_quickjs.Lines.{
  Slot, minus, is_short, short_op, put_long, put_entry, skips, pc2line_loop,
}

unfoldable pub long_bytes : (diff_pc diff_line : ℕ) → List ℕ
long_bytes diff_pc diff_line = 0 ∷ leb128 diff_pc ++ leb128 (zigzag diff_line)

unfoldable pub entry_bytes : (diff_pc diff_line : ℕ) → List ℕ
entry_bytes diff_pc diff_line =
    if is_short diff_pc diff_line
    then short_op diff_pc diff_line ∷ []
    else long_bytes diff_pc diff_line

unfoldable pub table_bytes : List Slot → (last_pc last_line_num : ℕ) → List ℕ
table_bytes [] last_pc last_line_num = []
table_bytes (slot ∷ slots) last_pc last_line_num =
    elim (skips slot.pc slot.line_num last_pc last_line_num) [
      | true ↦ table_bytes slots last_pc last_line_num
      | false ↦
          entry_bytes (minus slot.pc last_pc) (minus slot.line_num last_line_num)
          ++ table_bytes slots slot.pc slot.line_num
    ]

module _ (realloc : Realloc) where
  put_long_lem :
      (s : DynBuf) (diff_pc diff_line : ℕ)
      → diff_pc < 2 ^ 32
      → diff_line < 2 ^ 32
      → put_long realloc s diff_pc diff_line ≡ putc_all realloc s (long_bytes diff_pc diff_line)
  unfolding put_long long_bytes dbuf_put_sleb128 putc_all
  put_long_lem s diff_pc diff_line h k = elim (Option-cases (ignoring (dbuf_putc realloc s 0))) [
    | inl n ↦ rw (put_long, putc_all, n) refl
    | inr (s1, e1) ↦
        rw
          (
            put_long,
            putc_all,
            e1,
            putc_all-append realloc (leb128 diff_pc) (leb128 (zigzag diff_line)) s1,
            dbuf_put_leb128_lem realloc diff_pc s1 h,
          )
          (elim (Option-cases (putc_all realloc s1 (leb128 diff_pc))) [
            | inl n ↦ rw n refl
            | inr (s2, e2) ↦ rw e2 (second s2)
          ])
  ]
    where
      second :
          (t : DynBuf)
          → dbuf_put_leb128 realloc t (zigzag diff_line)
            ≡ putc_all realloc t (leb128 (zigzag diff_line))
      second t = dbuf_put_leb128_lem realloc (zigzag diff_line) t (zigzag-lt diff_line k)

  put_entry_lem :
      (s : DynBuf) (diff_pc diff_line : ℕ)
      → diff_pc < 2 ^ 32
      → diff_line < 2 ^ 32
      → put_entry realloc s diff_pc diff_line ≡ putc_all realloc s (entry_bytes diff_pc diff_line)
  unfolding put_entry entry_bytes
  put_entry_lem s diff_pc diff_line h k = either (is_short diff_pc diff_line)
    where
      either :
          (test : Bool)
          → (if test
              then ignoring (dbuf_putc realloc s (short_op diff_pc diff_line))
              else put_long realloc s diff_pc diff_line)
            ≡ putc_all realloc s
                (if test then short_op diff_pc diff_line ∷ [] else long_bytes diff_pc diff_line)
      either true = sym (putc_all-one realloc s (short_op diff_pc diff_line))
      either false = put_long_lem s diff_pc diff_line h k

  pub pc2line_loop_lem :
      (slots : List Slot) (last_pc last_line_num : ℕ) (s : DynBuf)
      → pc2line_loop realloc slots last_pc last_line_num s
        ≡ putc_all realloc s (table_bytes slots last_pc last_line_num)
  unfolding pc2line_loop table_bytes putc_all
  pc2line_loop_lem [] last_pc last_line_num s = refl
  pc2line_loop_lem (slot ∷ slots) last_pc last_line_num s =
      either (skips slot.pc slot.line_num last_pc last_line_num)
        (pc2line_loop_lem slots last_pc last_line_num s)
        (λ t. pc2line_loop_lem slots slot.pc slot.line_num t)
    where
      dp : ℕ
      dp = minus slot.pc last_pc

      dl : ℕ
      dl = minus slot.line_num last_line_num

      after : Option DynBuf → Option DynBuf
      after o = elim o [
        | none ↦ none
        | some t ↦ putc_all realloc t (table_bytes slots slot.pc slot.line_num)
      ]

      loop_after : Option DynBuf → Option DynBuf
      loop_after o = elim o [
        | none ↦ none
        | some t ↦ pc2line_loop realloc slots slot.pc slot.line_num t
      ]

      same_after :
          (o : Option DynBuf)
          → ((t : DynBuf)
              → pc2line_loop realloc slots slot.pc slot.line_num t
                ≡ putc_all realloc t (table_bytes slots slot.pc slot.line_num))
          → loop_after o ≡ after o
      same_after none again = refl
      same_after (some t) again = again t

      either :
          (test : Bool)
          → pc2line_loop realloc slots last_pc last_line_num s
            ≡ putc_all realloc s (table_bytes slots last_pc last_line_num)
          → ((t : DynBuf)
              → pc2line_loop realloc slots slot.pc slot.line_num t
                ≡ putc_all realloc t (table_bytes slots slot.pc slot.line_num))
          → elim test [
            | true ↦ pc2line_loop realloc slots last_pc last_line_num s
            | false ↦ loop_after (put_entry realloc s dp dl)
          ]
            ≡ putc_all realloc s (elim test [
              | true ↦ table_bytes slots last_pc last_line_num
              | false ↦ entry_bytes dp dl ++ table_bytes slots slot.pc slot.line_num
            ])
      either true again _ = again
      either false _ again =
          ap loop_after (put_entry_lem s dp dl (omega arith) (omega arith))
          ∙ same_after (putc_all realloc s (entry_bytes dp dl)) again
          ∙ sym (
              putc_all-append realloc (entry_bytes dp dl) (table_bytes slots slot.pc slot.line_num)
                s)

-- An entry has eleven bytes at most.
pub entry_length : (diff_pc diff_line : ℕ) → length (entry_bytes diff_pc diff_line) ≤ 11
unfolding entry_bytes long_bytes
entry_length diff_pc diff_line = either (is_short diff_pc diff_line)
  where
    either :
        (test : Bool)
        → length (
            if test
            then short_op diff_pc diff_line ∷ []
            else 0 ∷ leb128 diff_pc ++ leb128 (zigzag diff_line))
          ≤ 11
    either true = omega arith
    either false = omega (
      arith,
      length-append (leb128 diff_pc) (leb128 (zigzag diff_line)),
      length-leb128_bytes 5 diff_pc,
      length-leb128_bytes 5 (zigzag diff_line),
    )

pub entry_not_empty : (diff_pc diff_line : ℕ) → 0 < length (entry_bytes diff_pc diff_line)
unfolding entry_bytes long_bytes
entry_not_empty diff_pc diff_line = elim (Bool-cases (is_short diff_pc diff_line)) [
  | inl e ↦ rw e (omega arith)
  | inr e ↦ rw e (omega arith)
]
