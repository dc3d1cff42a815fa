-- ===== src/Regexp/Opcode.antt =====
-- The opcodes of cxx/quickjs/libregexp-opcode.h, in the order of their numbers, with their sizes.
use flutter_quickjs.Prelude.{ℕ, Option, none, some, List, [], ◌∷◌, get_elem?}

pub data Opcode : Type 0 where
  invalid char char32 dot any line_start line_end goto split_goto_first split_next_first : Opcode
  match save_start save_end save_reset loop push_i32 drop word_boundary not_word_boundary : Opcode
  back_reference backward_back_reference range range32 lookahead negative_lookahead : Opcode
  push_char_pos bne_char_pos prev simple_greedy_quant : Opcode

-- The table that the `DEF` lines make: the opcodes with their sizes.
abbrev pub opcodes : List (Opcode × ℕ)
opcodes =
    (invalid, 1)
    ∷ (char, 3)
    ∷ (char32, 5)
    ∷ (dot, 1)
    ∷ (any, 1)
    ∷ (line_start, 1)
    ∷ (line_end, 1)
    ∷ (goto, 5)
    ∷ (split_goto_first, 5)
    ∷ (split_next_first, 5)
    ∷ (match, 1)
    ∷ (save_start, 2)
    ∷ (save_end, 2)
    ∷ (save_reset, 3)
    ∷ (loop, 5)
    ∷ (push_i32, 5)
    ∷ (drop, 1)
    ∷ (word_boundary, 1)
    ∷ (not_word_boundary, 1)
    ∷ (back_reference, 2)
    ∷ (backward_back_reference, 2)
    ∷ (range, 3)
    ∷ (range32, 3)
    ∷ (lookahead, 5)
    ∷ (negative_lookahead, 5)
    ∷ (push_char_pos, 1)
    ∷ (bne_char_pos, 5)
    ∷ (prev, 1)
    ∷ (simple_greedy_quant, 17)
    ∷ []

-- The opcode of a byte, and `reopcode_info[opcode].size`.
unfoldable pub opcode_of : ℕ → Option Opcode
opcode_of n = elim (get_elem? opcodes n) [ none ↦ none | some (op, size) ↦ some op ]

unfoldable pub opcode_size : ℕ → Option ℕ
opcode_size n = elim (get_elem? opcodes n) [ none ↦ none | some (op, size) ↦ some size ]
