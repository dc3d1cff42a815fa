-- ===== src/Unicode/Tables.antt =====
-- The lookup of a code point in a generated table of cxx/quickjs/libunicode.c: `get_le24`,
-- `get_index_pos` and `lre_is_in_table`.
-- A table is a list of bytes, which are the lengths of runs that are outside and inside by turns;
-- the index has an entry for every 32 bytes of it. A read outside a list is `none`.
pub mod Index
mod Runs
use flutter_quickjs.Prelude.{ℕ, zero, suc, ◌+◌, ◌-◌, ◌*◌, ◌/◌, ◌%◌, ◌^◌, bit_and, bit_or}
use flutter_quickjs.Prelude.{
  Bool, true, false, not, Option, none, some, List, [], ◌∷◌, if◌then◌else◌, ltb, leb, length,
  get_elem?, drop,
}

-- `ptr[0] | (ptr[1] << 8) | (ptr[2] << 16)`
unfoldable pub get_le24 : List ℕ → ℕ → Option ℕ
get_le24 bytes ptr = elim (get_elem? bytes ptr) [
  | none ↦ none
  | some b0 ↦ elim (get_elem? bytes (ptr + 1)) [
    | none ↦ none
    | some b1 ↦ elim (get_elem? bytes (ptr + 2)) [
      | none ↦ none
      | some b2 ↦ some (bit_or (bit_or b0 (b1 * 2 ^ 8)) (b2 * 2 ^ 16))
    ]
  ]
]

-- `v & ((1 << 21) - 1)`
unfoldable pub entry_code : ℕ → ℕ
entry_code v = bit_and v (2 ^ 21 - 1)

-- What `get_index_pos` returns: -1, or a position with `*pcode`. A read outside, and fuel that is
-- spent, is a fault.
pub data Position : Type 0 where
  outside : Position
  block : (pos code : ℕ) → Position
  fault : Position

module _ (c : ℕ) (index_table : List ℕ) where
  -- The `while` loop, which leaves `idx_min`.
  unfoldable pub index_loop : (fuel idx_min idx_max : ℕ) → Option ℕ
  index_loop zero idx_min idx_max = none
  index_loop (suc fuel) idx_min idx_max = elim (ltb 1 (idx_max - idx_min)) [
    | false ↦ some idx_min
    | true ↦
        let idx = (idx_max + idx_min) / 2 in
        elim (get_le24 index_table (idx * 3)) [
          | none ↦ none
          | some v ↦ elim (ltb c (entry_code v)) [
            | true ↦ index_loop fuel idx_min idx
            | false ↦ index_loop fuel idx idx_max
          ]
        ]
  ]

  unfoldable pub entry_at : ℕ → Position
  entry_at idx = elim (get_le24 index_table (idx * 3)) [
    | none ↦ fault
    | some v ↦ block ((idx + 1) * 32 + v / 2 ^ 21) (entry_code v)
  ]

  unfoldable pub get_index_pos : (index_table_len : ℕ) → Position
  get_index_pos index_table_len = elim (get_le24 index_table 0) [
    | none ↦ fault
    | some v ↦
        if ltb c (entry_code v)
        then block 0 0
        else elim (get_le24 index_table ((index_table_len - 1) * 3)) [
          | none ↦ fault
          | some code ↦
              if leb code c
              then outside
              else elim (index_loop index_table_len 0 (index_table_len - 1)) [
                | none ↦ fault
                | some idx ↦ entry_at idx
              ]
        ]
  ]

-- What the bytes at `p` say: one run, or two; and where the next bytes are.
pub data Decoded : Type 0 where
  one : (len : ℕ) (p : List ℕ) → Decoded
  two : (len len' : ℕ) (p : List ℕ) → Decoded
  no_bytes : Decoded

-- `(((b - 0x40) << 8) | p[0]) + 1`
unfoldable pub run_of_two : ℕ → List ℕ → Decoded
run_of_two b [] = no_bytes
run_of_two b (p0 ∷ p) = one (bit_or ((b - 0x40) * 2 ^ 8) p0 + 1) p

-- `(((b - 0x60) << 16) | (p[0] << 8) | p[1]) + 1`
unfoldable pub run_of_three : ℕ → List ℕ → Decoded
run_of_three b [] = no_bytes
run_of_three b (p0 ∷ []) = no_bytes
run_of_three b (p0 ∷ p1 ∷ p) = one (bit_or (bit_or ((b - 0x60) * 2 ^ 16) (p0 * 2 ^ 8)) p1 + 1) p

unfoldable pub decode : List ℕ → Decoded
decode [] = no_bytes
decode (b ∷ p) =
    if ltb b 64
    then two (b / 8 + 1) (bit_and b 7 + 1) p
    else if leb 0x80 b
    then one (b - 0x80 + 1) p
    else if ltb b 0x60
    then run_of_two b p
    else run_of_three b p

-- `code += len`
unfoldable pub advance : ℕ → ℕ → ℕ
advance code len = (code + len) % 2 ^ 32

-- The loop `for(;;)`; each round reads a byte at least.
unfoldable pub table_loop : (fuel c : ℕ) → List ℕ → (code : ℕ) (bit : Bool) → Option Bool
table_loop zero c p code bit = none
table_loop (suc fuel) c p code bit = elim (decode p) [
  | no_bytes ↦ none
  | one len p' ↦ elim (ltb c (advance code len)) [
    | true ↦ some bit
    | false ↦ table_loop fuel c p' (advance code len) (not bit)
  ]
  | two len len' p' ↦ elim (ltb c (advance code len)) [
    | true ↦ some bit
    | false ↦
        let code' = advance (advance code len) len' in
        elim (ltb c code') [ true ↦ some (not bit) | false ↦ table_loop fuel c p' code' bit ]
  ]
]

unfoldable pub lre_is_in_table :
    (c : ℕ) (table index_table : List ℕ) (index_table_len : ℕ) → Option Bool
lre_is_in_table c table index_table index_table_len =
    elim (get_index_pos c index_table index_table_len) [
      | fault ↦ none
      | outside ↦ some false
      | block pos code ↦ table_loop (suc (length table)) c (drop pos table) code false
    ]
