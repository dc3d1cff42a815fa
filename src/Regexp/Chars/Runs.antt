-- ===== src/Regexp/Chars/Runs.antt =====
-- Runs of the character steps of cxx/quickjs/libregexp.c on the subject "a😀b".
use flutter_quickjs.Prelude.{ℕ, List, [], ◌∷◌, some, false, ◌≡◌, refl, arith}
use flutter_quickjs.Regexp.Chars.{get_char, get_prev_char, get_pair, get_prev_pair, utf16}
use flutter_quickjs.Regexp.Chars.{is_lead, is_trail, surrogate_pair}
use flutter_quickjs.Regexp.Chars.Steps.{get_prev_char-get_char, get_char-get_prev_char}
use flutter_quickjs.Regexp.Chars.Steps.{splits_pair}

abbrev subject : List ℕ
subject = 0x61 ∷ 0xd83d ∷ 0xde00 ∷ 0x62 ∷ []

forward : get_char utf16 subject 4 1 ≡ some (0x1f600, 3)
unfolding get_char get_pair is_lead is_trail surrogate_pair
forward = refl

backward : get_prev_char utf16 subject 0 3 ≡ some (0x1f600, 1)
unfolding get_prev_char get_prev_pair is_lead is_trail surrogate_pair
backward = refl

before_pair : splits_pair subject 0 1 ≡ false
unfolding splits_pair is_lead is_trail
before_pair = refl

after_pair : splits_pair subject 0 3 ≡ false
unfolding splits_pair is_lead is_trail
after_pair = refl

get_prev_char-get_char_example : get_prev_char utf16 subject 0 3 ≡ some (0x1f600, 1)
get_prev_char-get_char_example =
    get_prev_char-get_char utf16 subject 4 0 1 0x1f600 3 (omega arith) before_pair forward

get_char-get_prev_char_example : get_char utf16 subject 4 1 ≡ some (0x1f600, 3)
get_char-get_prev_char_example =
    get_char-get_prev_char utf16 subject 4 0 3 0x1f600 1 (omega arith) (omega arith) (omega arith)
      after_pair backward
