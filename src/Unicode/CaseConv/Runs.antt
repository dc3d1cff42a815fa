-- ===== src/Unicode/CaseConv/Runs.antt =====
-- Case conversion of cxx/quickjs/libunicode.c on a table with the runs of Latin-1 and of the sharp s.
use flutter_quickjs.Prelude.{
  ℕ, zero, suc, ◌+◌, ◌-◌, ◌*◌, ◌^◌, ◌<◌, ◌≤◌, ◌≡◌, arith, refl, false, some, [], ◌∷◌, get_or,
}
use flutter_quickjs.Unicode.CaseConv.{
  CaseTables, run_code, run_len, run_type, run_data, find_run, lre_case_conv, lre_canonicalize,
  convert, convert_run, convert_shift, convert_ext2, ext, shift_by, legacy_upper,
}
use flutter_quickjs.Unicode.CaseConv.Lookup.{IsRunTable, Converts, lre_case_conv-Converts}
use flutter_quickjs.Unicode.CaseConv.Bounds.{
  AreCaseTables, InTables, FitsRes, lre_case_conv-FitsRes,
}

-- `code << 15 | len << 8 | type << 4 | data >> 8`
abbrev entry : (code len type : ℕ) → ℕ
entry code len type = code * 2 ^ 15 + len * 2 ^ 8 + type * 2 ^ 4

-- 0xc0 to 0xd6 with the run 2 below as their lower case, 0xdf as `SS`, 0xe0 to 0xf6 with the run 0.
abbrev tables : CaseTables
tables = record {
  case_conv_table1 = entry 0xc0 23 3 ∷ entry 0xdf 1 11 ∷ entry 0xe0 23 0 ∷ [];
  case_conv_table2 = 2 ∷ 0x41 ∷ 0 ∷ [];
  case_conv_ext = 0x399 ∷ 0x53 ∷ [];
}

to_lower : lre_case_conv tables 0xc4 1 ≡ some (0xe4 ∷ [])
unfolding lre_case_conv find_run run_code run_len run_type run_data convert_run convert
    convert_shift shift_by
to_lower = refl

sharp_s : lre_case_conv tables 0xdf 0 ≡ some (0x53 ∷ 0x53 ∷ [])
unfolding lre_case_conv find_run run_code run_len run_type run_data convert_run convert convert_ext2
    shift_by ext
sharp_s = refl

upper_eszett : lre_canonicalize tables 0xdf false ≡ some 0xdf
unfolding lre_canonicalize lre_case_conv find_run run_code run_len run_type run_data convert_run
    convert convert_ext2 shift_by ext legacy_upper
upper_eszett = refl

in_run : (i : ℕ) → i < 3 → 0 < run_len (get_or tables.case_conv_table1 i 0)
unfolding run_len
in_run zero h = omega arith
in_run (suc zero) h = omega arith
in_run (suc (suc zero)) h = omega arith
in_run (suc (suc (suc i))) h = absurd (omega arith)

are_runs : IsRunTable tables.case_conv_table1
unfolding run_code run_len
are_runs = (in_run, (first_last, last_first))
  where
    first_last :
        (i : ℕ)
        → i < 3
        → run_code (get_or tables.case_conv_table1 i 0)
          ≤ run_code (get_or tables.case_conv_table1 i 0)
            + run_len (get_or tables.case_conv_table1 i 0)
            - 1
    first_last i h = omega (arith, in_run i h)

    last_first :
        (i : ℕ)
        → suc i < 3
        → run_code (get_or tables.case_conv_table1 i 0)
            + run_len (get_or tables.case_conv_table1 i 0)
            - 1
          < run_code (get_or tables.case_conv_table1 (suc i) 0)
    last_first zero h = omega arith
    last_first (suc zero) h = omega arith
    last_first (suc (suc i)) h = absurd (omega arith)

are_tables : AreCaseTables tables
unfolding run_type run_data
are_tables = record { runs = are_runs; same_size = refl; in_tables = within }
  where
    within :
        (i : ℕ)
        → i < 3
        → InTables tables
            (run_data (get_or tables.case_conv_table1 i 0) (get_or tables.case_conv_table2 i 0))
            (run_type (get_or tables.case_conv_table1 i 0))
    within zero h = omega arith
    within (suc zero) h = (omega arith, omega arith)
    within (suc (suc zero)) h = omega arith
    within (suc (suc (suc i))) h = absurd (omega arith)

lre_case_conv-FitsRes_example : FitsRes (lre_case_conv tables 0xdf 0)
lre_case_conv-FitsRes_example = lre_case_conv-FitsRes tables are_tables 0xdf 0

lre_case_conv-Converts_example : Converts tables 0xc4 1 (lre_case_conv tables 0xc4 1)
lre_case_conv-Converts_example = lre_case_conv-Converts tables are_runs 0xc4 1 (omega arith)
