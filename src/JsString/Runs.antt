-- ===== src/JsString/Runs.antt =====
-- Strings of cxx/quickjs/quickjs.c on concrete characters.
use flutter_quickjs.Prelude.{ℕ, ◌^◌, ◌<◌, ◌≡◌, ◌↔◌, refl, none, some, List, [], ◌∷◌}
use flutter_quickjs.JsString.{str8, str16, units, is_num, num_loop, num_start, is_num_string}
use flutter_quickjs.JsString.Decimal.{IsDecimal, is_num_string-IsDecimal}

-- "4294967295"
abbrev largest : List ℕ
largest = 52 ∷ 50 ∷ 57 ∷ 52 ∷ 57 ∷ 54 ∷ 55 ∷ 50 ∷ 57 ∷ 53 ∷ []

-- "4294967296"
abbrev too_large : List ℕ
too_large = 52 ∷ 50 ∷ 57 ∷ 52 ∷ 57 ∷ 54 ∷ 55 ∷ 50 ∷ 57 ∷ 54 ∷ []

largest_index : is_num_string (str8 largest) ≡ some 4294967295
unfolding is_num_string num_start num_loop is_num units
largest_index = refl

no_index : is_num_string (str8 too_large) ≡ none
unfolding is_num_string num_start num_loop is_num units
no_index = refl

zero_in_front : is_num_string (str16 (48 ∷ 55 ∷ [])) ≡ none
unfolding is_num_string num_start num_loop is_num units
zero_in_front = refl

minus_sign : is_num_string (str16 (45 ∷ 49 ∷ [])) ≡ none
unfolding is_num_string num_start num_loop is_num units
minus_sign = refl

is_num_string-IsDecimal_example :
    (is_num_string (str16 (49 ∷ 48 ∷ [])) ≡ some 10)
    ↔ (IsDecimal 10 (units (str16 (49 ∷ 48 ∷ []))) × (10 < 2 ^ 32))
is_num_string-IsDecimal_example = is_num_string-IsDecimal (str16 (49 ∷ 48 ∷ [])) 10
