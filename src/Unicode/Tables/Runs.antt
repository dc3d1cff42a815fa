-- ===== src/Unicode/Tables/Runs.antt =====
-- The lookups of cxx/quickjs/libunicode.c on concrete tables.
use flutter_quickjs.Prelude.{
  ℕ, zero, suc, ◌+◌, ◌*◌, ◌<◌, ◌≡◌, arith, refl, true, false, some, List, [], ◌∷◌, ◌++◌, ◌/◌, ◌^◌,
  drop, replicate, if◌then◌else◌, leb, length,
}
use mathlib.Core.Path.{subst}
use flutter_quickjs.Unicode.Tables.{
  get_le24, entry_code, decode, table_loop, lre_is_in_table, get_index_pos, index_loop, entry_at,
  advance,
}
use flutter_quickjs.Unicode.Tables.Index.{IsIndex, Reaches, here, past_two, lre_is_in_table_lem}

-- Odd numbers below 64, then 66 to 68.
abbrev table : List ℕ
table = replicate 32 0 ++ 0x81 ∷ 0x82 ∷ []

-- The block at byte 32 begins at 64, and the table ends at 69.
abbrev index : List ℕ
index = 64 ∷ 0 ∷ 0 ∷ 69 ∷ 0 ∷ 0 ∷ []

odd_inside : lre_is_in_table 7 table index 2 ≡ some true
unfolding lre_is_in_table get_index_pos get_le24 entry_code index_loop entry_at table_loop decode
    advance
odd_inside = refl

even_outside : lre_is_in_table 8 table index 2 ≡ some false
unfolding lre_is_in_table get_index_pos get_le24 entry_code index_loop entry_at table_loop decode
    advance
even_outside = refl

second_block : lre_is_in_table 67 table index 2 ≡ some true
unfolding lre_is_in_table get_index_pos get_le24 entry_code index_loop entry_at table_loop decode
    advance
second_block = refl

past_end : lre_is_in_table 70 table index 2 ≡ some false
unfolding lre_is_in_table get_index_pos get_le24 entry_code index_loop entry_at table_loop decode
    advance
past_end = refl

-- Each zero byte is a run of one outside and one inside.
zeros_reach :
    (k : ℕ) (q : List ℕ) (code : ℕ)
    → code + 2 * k < 2 ^ 32
    → Reaches (replicate k 0 ++ q) code false q (code + 2 * k) false
unfolding decode
zeros_reach zero q code h =
    let e : code ≡ code + 2 * 0 = omega arith in
    subst (λ (t : ℕ). Reaches q code false q t false) e here
zeros_reach (suc k) q code h =
    let e : code + 1 + 1 + 2 * k ≡ code + 2 * suc k = omega arith in
    past_two refl (omega arith) (
      subst (λ (t : ℕ). Reaches (replicate k 0 ++ q) (code + 1 + 1) false q t false) e
        (zeros_reach k q (code + 1 + 1) (omega arith)))

abbrev entries : ℕ → ℕ
entries zero = 64
entries (suc i) = 69

is_index : IsIndex table index 2
unfolding entry_code get_le24
is_index = record {
  entries = entries;
  several = omega arith;
  rises = omega arith;
  reads = λ i h. reads_of i h;
  reached = λ i h. reached_of i h;
}
  where
    reads_of : (i : ℕ) → i < 2 → get_le24 index (i * 3) ≡ some (entries i)
    reads_of zero h = refl
    reads_of (suc zero) h = refl
    reads_of (suc (suc i)) h = absurd (omega arith)

    reached_of :
        (i : ℕ)
        → suc i < 2
        → Reaches table 0 false
            (drop ((i + 1) * 32 + entries i / 2 ^ 21) table)
            (entry_code (entries i))
            false
    reached_of zero h = zeros_reach 32 (0x81 ∷ 0x82 ∷ []) 0 (omega arith)
    reached_of (suc i) h = absurd (omega arith)

lre_is_in_table_example :
    lre_is_in_table 67 table index 2
    ≡ (if leb 69 67 then some false else table_loop (suc (length table)) 67 table 0 false)
unfolding is_index
lre_is_in_table_example = lre_is_in_table_lem table index 2 is_index 67
