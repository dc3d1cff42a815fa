-- ===== src/Regexp/Range/Runs.antt =====
-- Runs of the set lookup of cxx/quickjs/libregexp.c: word characters, and all characters from "é".
use flutter_quickjs.Prelude.{ℕ, List, [], ◌∷◌, ◌++◌, ◌-◌, ◌^◌, some, true, false, ◌≡◌, refl, arith}
use flutter_quickjs.Regexp.Range.{re_emit_range, emit_ranges, emit_ranges32, high_code, highest}
use flutter_quickjs.Regexp.Range.{range_match, range32_match, range_loop, range_at, range32_at}
use flutter_quickjs.Regexp.Range.{get_u16, get_u32, reop_range}
use flutter_quickjs.Regexp.Range.Compiled.{re_emit_range-range_match}
use flutter_quickjs.Unicode.CharRange.{CharRange}
use flutter_quickjs.Unicode.CharRange.Members.{even_length, inside}
use flutter_quickjs.Cutils.DynBuf.{le_bytes}

abbrev words : CharRange
words = record { points = 0x30 ∷ 0x3a ∷ 0x41 ∷ 0x5b ∷ 0x5f ∷ 0x60 ∷ 0x61 ∷ 0x7b ∷ []; size = 8 }

abbrev words_code : List ℕ
words_code =
    4 ∷ 0 ∷ 0x30 ∷ 0 ∷ 0x39 ∷ 0 ∷ 0x41 ∷ 0 ∷ 0x5a ∷ 0 ∷ 0x5f ∷ 0 ∷ 0x5f ∷ 0 ∷ 0x61 ∷ 0 ∷ 0x7a ∷ 0
    ∷ []

emit_words : re_emit_range words ≡ some (reop_range ∷ words_code)
unfolding re_emit_range highest emit_ranges high_code le_bytes
emit_words = refl

words_even : even_length words.points ≡ true
unfolding even_length
words_even = refl

z_found : range_match (21 ∷ words_code ++ 10 ∷ []) 1 0x7a ≡ some true
unfolding range_match range_loop range_at get_u16
z_found = refl

at_missed : range_match (21 ∷ words_code ++ 10 ∷ []) 1 0x40 ≡ some false
unfolding range_match range_loop range_at get_u16
at_missed = refl

-- The last bound is infinite.
from_e9 :
    re_emit_range (record { points = 0xe9 ∷ (2 ^ 32 - 1) ∷ []; size = 2 })
    ≡ some (21 ∷ 1 ∷ 0 ∷ 0xe9 ∷ 0 ∷ 0xff ∷ 0xff ∷ [])
unfolding re_emit_range highest emit_ranges high_code le_bytes
from_e9 = refl

emoji_found : range_match (21 ∷ 1 ∷ 0 ∷ 0xe9 ∷ 0 ∷ 0xff ∷ 0xff ∷ []) 1 0x1f600 ≡ some true
unfolding range_match range_loop range_at get_u16
emoji_found = refl

-- Words of four bytes, where the set has a bound above 0xffff.
wide_set :
    re_emit_range (record { points = 0x41 ∷ 0x10401 ∷ []; size = 2 })
    ≡ some (22 ∷ 1 ∷ 0 ∷ 0x41 ∷ 0 ∷ 0 ∷ 0 ∷ 0 ∷ 4 ∷ 1 ∷ 0 ∷ [])
unfolding re_emit_range highest emit_ranges32 le_bytes
wide_set = refl

wide_found :
    range32_match (22 ∷ 1 ∷ 0 ∷ 0x41 ∷ 0 ∷ 0 ∷ 0 ∷ 0 ∷ 4 ∷ 1 ∷ 0 ∷ []) 1 0x10400 ≡ some true
unfolding range32_match range_loop range32_at get_u16 get_u32
wide_found = refl

re_emit_range-range_match_example :
    range_match (21 ∷ [] ++ (words_code ++ 10 ∷ [])) 1 0x7a ≡ some (inside words.points 0x7a)
re_emit_range-range_match_example =
    re_emit_range-range_match words words_code (21 ∷ []) (10 ∷ []) 0x7a (omega arith) words_even
      (omega arith) emit_words
