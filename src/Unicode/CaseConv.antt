-- ===== src/Unicode/CaseConv.antt =====
-- Case conversion of cxx/quickjs/libunicode.c, `lre_case_conv` and `lre_is_cased`, and what
-- cxx/quickjs/libregexp.c makes of it, `lre_canonicalize`.
-- The generated tables are an argument. `res` is the list of the characters that are written, its
-- length the value that is returned; a read outside a table is `none`.
pub mod Lookup
pub mod Bounds
mod Runs
use flutter_quickjs.Prelude.{ℕ, zero, suc, ◌+◌, ◌-◌, ◌*◌, ◌/◌, ◌%◌, ◌^◌, bit_and, bit_or, bit_xor}
use flutter_quickjs.Prelude.{
  Bool, true, false, ◌&&◌, ◌||◌, Option, none, some, List, [], ◌∷◌, if◌then◌else◌, ltb, leb, ◌==◌,
  length, get_elem?, get_or,
}
use flutter_quickjs.Unicode.Tables.{lre_is_in_table}

-- The tables of libunicode-table.h.
pub record CaseTables : Type 0 where
  pub case_conv_table1 : List ℕ
  pub case_conv_table2 : List ℕ
  pub case_conv_ext : List ℕ

-- The `RUN_TYPE_` constants.
pub data RunType : Type 0 where
  run_type_u run_type_l run_type_uf run_type_lf run_type_ul run_type_lsu run_type_u2l_399_ext2
        run_type_uf_d20 run_type_uf_d1_ext run_type_u_ext run_type_lf_ext run_type_u_ext2
        run_type_l_ext2 run_type_u_ext3 :
      RunType

abbrev run_types : List RunType
run_types =
    run_type_u ∷ run_type_l ∷ run_type_uf ∷ run_type_lf ∷ run_type_ul ∷ run_type_lsu
    ∷ run_type_u2l_399_ext2 ∷ run_type_uf_d20 ∷ run_type_uf_d1_ext ∷ run_type_u_ext
    ∷ run_type_lf_ext ∷ run_type_u_ext2 ∷ run_type_l_ext2 ∷ run_type_u_ext3 ∷ []

-- `v >> (32 - 17)`
unfoldable pub run_code : ℕ → ℕ
run_code v = v / 2 ^ 15

-- `(v >> (32 - 17 - 7)) & 0x7f`
unfoldable pub run_len : ℕ → ℕ
run_len v = bit_and (v / 2 ^ 8) 0x7f

-- `(v >> (32 - 17 - 7 - 4)) & 0xf`, where `default:` is `RUN_TYPE_U_EXT3`.
unfoldable pub run_type : ℕ → RunType
run_type v = get_or run_types (bit_and (v / 2 ^ 4) 0xf) run_type_u_ext3

-- `((v & 0xf) << 8) | case_conv_table2[idx]`
unfoldable pub run_data : ℕ → ℕ → ℕ
run_data v low = bit_or (bit_and v 0xf * 2 ^ 8) low

-- How the binary search ends: at a run, past the last one, or, which is no behaviour of the code, by
-- a read outside the table or by fuel that is spent.
pub data Search : Type 0 where
  found : (idx v : ℕ) → Search
  absent : Search
  fault : Search

-- The loop of `lre_case_conv` and of `lre_is_cased`, where `top` is `idx_max + 1`.
unfoldable pub find_run : List ℕ → (c fuel idx_min top : ℕ) → Search
find_run table c zero idx_min top = fault
find_run table c (suc fuel) idx_min top = elim (ltb idx_min top) [
  | false ↦ absent
  | true ↦
      let idx = (top - 1 + idx_min) / 2 in
      elim (get_elem? table idx) [
        | none ↦ fault
        | some v ↦ elim (ltb c (run_code v)) [
          | true ↦ find_run table c fuel idx_min idx
          | false ↦ elim (leb (run_code v + run_len v) c) [
            | true ↦ find_run table c fuel (idx + 1) top
            | false ↦ found idx v
          ]
        ]
      ]
]

-- `is_lower = (conv_type != 0)`
unfoldable pub is_lower : ℕ → ℕ
is_lower conv_type = if conv_type == 0 then 0 else 1

-- `c - 'A' + 'a'` and back, for `c < 128`.
unfoldable pub ascii_case : (c conv_type : ℕ) → ℕ
ascii_case c conv_type =
    if conv_type == 0
    then (if leb 0x61 c && leb c 0x7a then c - 0x61 + 0x41 else c)
    else (if leb 0x41 c && leb c 0x5a then c - 0x41 + 0x61 else c)

-- `c - code + x` on 32 bits.
unfoldable pub shift_by : (c code x : ℕ) → ℕ
shift_by c code x = (c + 2 ^ 32 - code + x) % 2 ^ 32

module _ (t : CaseTables) (c conv_type code datum : ℕ) where
  -- `RUN_TYPE_U` to `RUN_TYPE_LF`, which are 0 to 3.
  unfoldable pub convert_shift : (type : ℕ) → Option (List ℕ)
  convert_shift type =
      if conv_type == type % 2 || leb 2 type && conv_type == 2
      then elim (get_elem? t.case_conv_table1 datum) [
        | none ↦ none
        | some w ↦ some (shift_by c code (run_code w) ∷ [])
      ]
      else some (c ∷ [])

  unfoldable pub convert_ul : List ℕ
  convert_ul =
      let a = c - code in
      if a % 2 == 1 - is_lower conv_type then (bit_xor a 1 + code) ∷ [] else c ∷ []

  unfoldable pub convert_lsu : List ℕ
  convert_lsu =
      let a = c - code in
      if a == 1
      then (c + 2 * is_lower conv_type + 2 ^ 32 - 1) % 2 ^ 32 ∷ []
      else if a == (1 - is_lower conv_type) * 2
      then (c + 4 * is_lower conv_type + 2 ^ 32 - 2) % 2 ^ 32 ∷ []
      else c ∷ []

  -- `case_conv_ext[i]`
  unfoldable pub ext : ℕ → (ℕ → Option (List ℕ)) → Option (List ℕ)
  ext i next = elim (get_elem? t.case_conv_ext i) [ none ↦ none | some x ↦ next x ]

  unfoldable pub convert_u2l_399_ext2 : Option (List ℕ)
  convert_u2l_399_ext2 =
      if is_lower conv_type == 0
      then ext (datum / 2 ^ 6) (λ x. some (shift_by c code x ∷ 0x399 ∷ []))
      else ext (bit_and datum 0x3f) (λ x. some (shift_by c code x ∷ []))

  unfoldable pub convert_uf_d20 : List ℕ
  convert_uf_d20 =
      if conv_type == 1 then c ∷ [] else (datum + (if conv_type == 2 then 0x20 else 0)) ∷ []

  unfoldable pub convert_uf_d1_ext : Option (List ℕ)
  convert_uf_d1_ext =
      if conv_type == 1
      then some (c ∷ [])
      else ext datum λ x. some ((x + (if conv_type == 2 then 1 else 0)) ∷ [])

  -- `which` is `type - RUN_TYPE_U_EXT`.
  unfoldable pub convert_ext : (which : ℕ) → Option (List ℕ)
  convert_ext which =
      if is_lower conv_type == which then ext datum (λ x. some (x ∷ [])) else some (c ∷ [])

  -- `which` is `type - RUN_TYPE_U_EXT2`.
  unfoldable pub convert_ext2 : (which : ℕ) → Option (List ℕ)
  convert_ext2 which =
      if conv_type == which
      then ext (datum / 2 ^ 6)
          (λ x. ext (bit_and datum 0x3f) (λ y. some (shift_by c code x ∷ y ∷ [])))
      else some (c ∷ [])

  -- `case_conv_ext[data >> 8]` and the two after it.
  unfoldable pub convert_ext3 : Option (List ℕ)
  convert_ext3 =
      if conv_type == 0
      then ext (datum / 2 ^ 8) (λ x.
        ext (bit_and (datum / 2 ^ 4) 0xf)
          (λ y. ext (bit_and datum 0xf) (λ z. some (x ∷ y ∷ z ∷ []))))
      else some (c ∷ [])

  -- The `switch(type)`.
  unfoldable pub convert : RunType → Option (List ℕ)
  convert run_type_u = convert_shift 0
  convert run_type_l = convert_shift 1
  convert run_type_uf = convert_shift 2
  convert run_type_lf = convert_shift 3
  convert run_type_ul = some convert_ul
  convert run_type_lsu = some convert_lsu
  convert run_type_u2l_399_ext2 = convert_u2l_399_ext2
  convert run_type_uf_d20 = some convert_uf_d20
  convert run_type_uf_d1_ext = convert_uf_d1_ext
  convert run_type_u_ext = convert_ext 0
  convert run_type_lf_ext = convert_ext 1
  convert run_type_u_ext2 = convert_ext2 0
  convert run_type_l_ext2 = convert_ext2 1
  convert run_type_u_ext3 = convert_ext3

-- The body of the search at the run that it finds.
unfoldable pub convert_run : CaseTables → (c conv_type idx v : ℕ) → Option (List ℕ)
convert_run t c conv_type idx v = elim (get_elem? t.case_conv_table2 idx) [
  | none ↦ none
  | some low ↦ convert t c conv_type (run_code v) (run_data v low) (run_type v)
]

abbrev pub search_table : List ℕ → ℕ → Search
search_table table c = find_run table c (suc (length table)) 0 (length table)

-- `conv_type`: 0 to upper, 1 to lower, 2 case folding.
unfoldable pub lre_case_conv : CaseTables → (c conv_type : ℕ) → Option (List ℕ)
lre_case_conv t c conv_type =
    if ltb c 128
    then some (ascii_case c conv_type ∷ [])
    else elim (search_table t.case_conv_table1 c) [
      | fault ↦ none
      | absent ↦ some (c ∷ [])
      | found idx v ↦ convert_run t c conv_type idx v
    ]

-- `table`, `index` and `n` are `unicode_prop_Cased1_table`, its index and how many entries that has.
unfoldable pub lre_is_cased : CaseTables → (table index : List ℕ) (n c : ℕ) → Option Bool
lre_is_cased t table index n c = elim (search_table t.case_conv_table1 c) [
  | fault ↦ none
  | absent ↦ lre_is_in_table c table index n
  | found idx v ↦ some true
]

-- `res[0]`
abbrev first_of : List ℕ → ℕ → ℕ
first_of res c = get_or res 0 c

-- The character for which a single one of at least 128 stands, in a legacy expression.
unfoldable pub legacy_upper : ℕ → List ℕ → ℕ
legacy_upper c (r ∷ []) = if leb 128 r then r else c
legacy_upper c res = c

unfoldable pub lre_canonicalize : CaseTables → (c : ℕ) (is_utf16 : Bool) → Option ℕ
lre_canonicalize t c true =
    if ltb c 128
    then some (if leb 0x41 c && leb c 0x5a then c - 0x41 + 0x61 else c)
    else elim (lre_case_conv t c 2) [ none ↦ none | some res ↦ some (first_of res c) ]
lre_canonicalize t c false =
    if ltb c 128
    then some (if leb 0x61 c && leb c 0x7a then c - 0x61 + 0x41 else c)
    else elim (lre_case_conv t c 0) [ none ↦ none | some res ↦ some (legacy_upper c res) ]
