-- ===== src/Unicode/CaseConv/Bounds.antt =====
-- `lre_case_conv` of cxx/quickjs/libunicode.c stays within its tables and within `res`.
use flutter_quickjs.Prelude.{
  ℕ, ◌-◌, ◌*◌, ◌/◌, ◌%◌, ◌^◌, ◌<◌, ◌≡◌, arith, sym, inl, inr, bit_and, Bool, true, false, Option,
  none, some, List, [], ◌∷◌, ◌&&◌, ◌||◌, ◌&&◌, ◌||◌, if◌then◌else◌, leb, leb, ◌==◌, length,
  get_elem?, get_or, compare-cases,
}
use mathlib.Core.Path.{subst}
use flutter_quickjs.Unicode.CaseConv.{
  CaseTables, RunType, run_type_u, run_type_l, run_type_uf, run_type_lf, run_type_ul, run_type_lsu,
  run_type_u2l_399_ext2, run_type_uf_d20, run_type_uf_d1_ext, run_type_u_ext, run_type_lf_ext,
  run_type_u_ext2, run_type_l_ext2, run_type_u_ext3, run_code, run_type, run_data, Search, found,
  absent, fault, search_table, convert_shift, convert_ul, convert_lsu, ext, convert_u2l_399_ext2,
  convert_uf_d20, convert_uf_d1_ext, convert_ext, convert_ext2, convert_ext3, convert, convert_run,
  lre_case_conv, ascii_case, is_lower, is_lower,
}
use flutter_quickjs.Unicode.CaseConv.Lookup.{
  IsRunTable, Holds, Tells, get_or-is_some, some-get_or, search-Tells, by_search, searched,
}

-- A result that fits `res`, whose size is `LRE_CC_RES_LEN_MAX`.
pub data FitsRes : Option (List ℕ) → Type 0 where
  one : (x : ℕ) → FitsRes (some (x ∷ []))
  two : (x y : ℕ) → FitsRes (some (x ∷ y ∷ []))
  three : (x y z : ℕ) → FitsRes (some (x ∷ y ∷ z ∷ []))

-- What the reads of the tables that a run of this type asks for need of its data.
abbrev pub InTables : CaseTables → ℕ → RunType → Type 0
InTables t datum run_type_u = datum < length t.case_conv_table1
InTables t datum run_type_l = datum < length t.case_conv_table1
InTables t datum run_type_uf = datum < length t.case_conv_table1
InTables t datum run_type_lf = datum < length t.case_conv_table1
InTables t datum run_type_ul = Unit
InTables t datum run_type_lsu = Unit
InTables t datum run_type_u2l_399_ext2 =
    (datum / 2 ^ 6 < length t.case_conv_ext) × (bit_and datum 0x3f < length t.case_conv_ext)
InTables t datum run_type_uf_d20 = Unit
InTables t datum run_type_uf_d1_ext = datum < length t.case_conv_ext
InTables t datum run_type_u_ext = datum < length t.case_conv_ext
InTables t datum run_type_lf_ext = datum < length t.case_conv_ext
InTables t datum run_type_u_ext2 =
    (datum / 2 ^ 6 < length t.case_conv_ext) × (bit_and datum 0x3f < length t.case_conv_ext)
InTables t datum run_type_l_ext2 =
    (datum / 2 ^ 6 < length t.case_conv_ext) × (bit_and datum 0x3f < length t.case_conv_ext)
InTables t datum run_type_u_ext3 =
    (datum / 2 ^ 8 < length t.case_conv_ext)
    × (bit_and (datum / 2 ^ 4) 0xf < length t.case_conv_ext)
    × (bit_and datum 0xf < length t.case_conv_ext)

if-FitsRes :
    {r r' : Option (List ℕ)} (b : Bool) → FitsRes r → FitsRes r' → FitsRes (if b then r else r')
if-FitsRes true h h' = h
if-FitsRes false h h' = h'

if_one : (x x' : ℕ) (b : Bool) → FitsRes (some (if b then x ∷ [] else x' ∷ []))
if_one x x' true = one x
if_one x x' false = one x'

module _ (t : CaseTables) (c conv_type code datum : ℕ) where
  ext-FitsRes :
      {i : ℕ} {next : ℕ → Option (List ℕ)}
      → i < length t.case_conv_ext
      → ((x : ℕ) → FitsRes (next x))
      → FitsRes (ext t c conv_type code datum i next)
  unfolding ext
  ext-FitsRes {i = i} h fits =
      rw (ext, get_or-is_some t.case_conv_ext i h) (fits (get_or t.case_conv_ext i 0))

  -- A read of `case_conv_table1` at the data.
  read-FitsRes :
      (f : ℕ → ℕ)
      → datum < length t.case_conv_table1
      → FitsRes
          (elim (get_elem? t.case_conv_table1 datum) [ none ↦ none | some w ↦ some (f w ∷ []) ])
  read-FitsRes f h = rw (get_or-is_some t.case_conv_table1 datum h) (one _)

  convert_shift-FitsRes :
      (type : ℕ)
      → datum < length t.case_conv_table1
      → FitsRes (convert_shift t c conv_type code datum type)
  unfolding convert_shift
  convert_shift-FitsRes type h =
      if-FitsRes (conv_type == type % 2 || leb 2 type && conv_type == 2) (read-FitsRes _ h) (one c)

  convert_ul-FitsRes : FitsRes (some (convert_ul t c conv_type code datum))
  unfolding convert_ul
  convert_ul-FitsRes = if_one _ _ ((c - code) % 2 == 1 - is_lower conv_type)

  convert_lsu-FitsRes : FitsRes (some (convert_lsu t c conv_type code datum))
  unfolding convert_lsu
  convert_lsu-FitsRes = lsu _ _ _ (c - code == 1) (c - code == (1 - is_lower conv_type) * 2)
    where
      lsu :
          (x y z : ℕ) (b b' : Bool)
          → FitsRes (some (if b then x ∷ [] else if b' then y ∷ [] else z ∷ []))
      lsu x y z true b' = one x
      lsu x y z false b' = if_one y z b'

  convert_u2l-FitsRes :
      InTables t datum run_type_u2l_399_ext2
      → FitsRes (convert_u2l_399_ext2 t c conv_type code datum)
  unfolding convert_u2l_399_ext2
  convert_u2l-FitsRes (h, h') =
      if-FitsRes (is_lower conv_type == 0) (ext-FitsRes h (λ x. two _ _))
        (ext-FitsRes h' (λ x. one _))

  convert_uf_d20-FitsRes : FitsRes (some (convert_uf_d20 t c conv_type code datum))
  unfolding convert_uf_d20
  convert_uf_d20-FitsRes = if_one _ _ (conv_type == 1)

  convert_uf_d1_ext-FitsRes :
      datum < length t.case_conv_ext → FitsRes (convert_uf_d1_ext t c conv_type code datum)
  unfolding convert_uf_d1_ext
  convert_uf_d1_ext-FitsRes h = if-FitsRes (conv_type == 1) (one c) (ext-FitsRes h (λ x. one _))

  convert_ext-FitsRes :
      (which : ℕ)
      → datum < length t.case_conv_ext
      → FitsRes (convert_ext t c conv_type code datum which)
  unfolding convert_ext
  convert_ext-FitsRes which h =
      if-FitsRes (is_lower conv_type == which) (ext-FitsRes h (λ x. one _)) (one c)

  convert_ext2-FitsRes :
      (which : ℕ)
      → InTables t datum run_type_u_ext2
      → FitsRes (convert_ext2 t c conv_type code datum which)
  unfolding convert_ext2
  convert_ext2-FitsRes which (h, h') =
      if-FitsRes (conv_type == which) (ext-FitsRes h (λ x. ext-FitsRes h' (λ y. two _ _))) (one c)

  convert_ext3-FitsRes :
      InTables t datum run_type_u_ext3 → FitsRes (convert_ext3 t c conv_type code datum)
  unfolding convert_ext3
  convert_ext3-FitsRes (h, h', h'') =
      if-FitsRes (conv_type == 0)
        (ext-FitsRes h (λ x. ext-FitsRes h' (λ y. ext-FitsRes h'' (λ z. three _ _ _)))) (one c)

  convert-FitsRes :
      (type : RunType) → InTables t datum type → FitsRes (convert t c conv_type code datum type)
  unfolding convert
  convert-FitsRes run_type_u h = convert_shift-FitsRes 0 h
  convert-FitsRes run_type_l h = convert_shift-FitsRes 1 h
  convert-FitsRes run_type_uf h = convert_shift-FitsRes 2 h
  convert-FitsRes run_type_lf h = convert_shift-FitsRes 3 h
  convert-FitsRes run_type_ul h = convert_ul-FitsRes
  convert-FitsRes run_type_lsu h = convert_lsu-FitsRes
  convert-FitsRes run_type_u2l_399_ext2 h = convert_u2l-FitsRes h
  convert-FitsRes run_type_uf_d20 h = convert_uf_d20-FitsRes
  convert-FitsRes run_type_uf_d1_ext h = convert_uf_d1_ext-FitsRes h
  convert-FitsRes run_type_u_ext h = convert_ext-FitsRes 0 h
  convert-FitsRes run_type_lf_ext h = convert_ext-FitsRes 1 h
  convert-FitsRes run_type_u_ext2 h = convert_ext2-FitsRes 0 h
  convert-FitsRes run_type_l_ext2 h = convert_ext2-FitsRes 1 h
  convert-FitsRes run_type_u_ext3 h = convert_ext3-FitsRes h

-- The two tables of the runs are of one size, and the data of a run does not point outside.
pub record AreCaseTables (t : CaseTables) : Type 0 where
  pub runs : IsRunTable t.case_conv_table1
  pub same_size : length t.case_conv_table2 ≡ length t.case_conv_table1
  pub in_tables :
      (idx : ℕ)
      → idx < length t.case_conv_table1
      → InTables t
          (run_data (get_or t.case_conv_table1 idx 0) (get_or t.case_conv_table2 idx 0))
          (run_type (get_or t.case_conv_table1 idx 0))

below_128 :
    (t : CaseTables) (c conv_type : ℕ)
    → c < 128
    → lre_case_conv t c conv_type ≡ some (ascii_case c conv_type ∷ [])
unfolding lre_case_conv
below_128 t c conv_type h = ground arith

module _ (t : CaseTables) (tables : AreCaseTables t) (c conv_type : ℕ) where
  convert_run-FitsRes :
      (idx v : ℕ) → Holds t.case_conv_table1 c idx v → FitsRes (convert_run t c conv_type idx v)
  unfolding convert_run
  convert_run-FitsRes idx v h =
      let is : get_or t.case_conv_table1 idx 0 ≡ v =
        some-get_or t.case_conv_table1 idx v h.is_run in
      let low : ℕ = get_or t.case_conv_table2 idx 0 in
      rw
        (
          convert_run,
          get_or-is_some t.case_conv_table2 idx (omega (arith, tables.same_size, h.inside)),
        )
        (convert-FitsRes t c conv_type (run_code v) (run_data v low) (run_type v) (
          subst (λ (w : ℕ). InTables t (run_data w low) (run_type w)) is
            (tables.in_tables idx h.inside)))

  search-FitsRes : (s : Search) → Tells t.case_conv_table1 c s → FitsRes (by_search t c conv_type s)
  unfolding by_search
  search-FitsRes fault h = absurd h
  search-FitsRes absent h = one c
  search-FitsRes (found idx v) h = convert_run-FitsRes idx v h

  -- On tables whose runs rise and do not meet, and whose data stay within the tables,
  -- `lre_case_conv` reads no table out of bounds, its search ends, and it writes one to three
  -- characters to `res`, for every code point and conversion.
  pub lre_case_conv-FitsRes : FitsRes (lre_case_conv t c conv_type)
  lre_case_conv-FitsRes = elim (compare-cases c 128) [
    | inl (e, h) ↦ subst FitsRes (sym (below_128 t c conv_type h)) (one _)
    | inr h ↦ subst FitsRes (sym (searched t c conv_type (omega arith))) (
        search-FitsRes (search_table t.case_conv_table1 c)
          (search-Tells t.case_conv_table1 tables.runs c))
  ]
