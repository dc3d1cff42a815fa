-- ===== src/JsString/Concat/Runs.antt =====
-- The concatenation of strings of cxx/quickjs/quickjs.c on concrete strings.
use flutter_quickjs.Prelude.{ℕ, ◌≡◌, refl, Bool, true, false, [], ◌∷◌}
use flutter_quickjs.JsString.{JsString, str8, str16, units}
use flutter_quickjs.JsString.Concat.{
  joined, no_memory, is_wide_char, copy_str16, same_width, append_in_place, concat_string1,
  concat_string, shifted_len, needed_size, joined_size,
}

abbrev granted : (max_len : ℕ) (wide : Bool) → Bool
granted max_len wide = true

abbrev refused : (max_len : ℕ) (wide : Bool) → Bool
refused max_len wide = false

abbrev ab : JsString
ab = str8 (97 ∷ 98 ∷ [])

abbrev wide_c : JsString
wide_c = str16 (256 ∷ [])

in_place : concat_string refused 24 1 ab ab ≡ joined (str8 (97 ∷ 98 ∷ 97 ∷ 98 ∷ []))
unfolding concat_string shifted_len needed_size joined_size concat_string1 same_width
    append_in_place is_wide_char copy_str16 units
in_place = refl

shared_first : concat_string refused 24 2 ab ab ≡ no_memory
unfolding concat_string shifted_len needed_size joined_size concat_string1 same_width
    append_in_place is_wide_char copy_str16 units
shared_first = refl

widened : concat_string granted 24 1 ab wide_c ≡ joined (str16 (97 ∷ 98 ∷ 256 ∷ []))
unfolding concat_string shifted_len needed_size joined_size concat_string1 same_width
    append_in_place is_wide_char copy_str16 units
widened = refl
