-- ===== src/JsString/Slice/Runs.antt =====
-- Parts of strings of cxx/quickjs/quickjs.c on concrete strings.
use flutter_quickjs.Prelude.{ℕ, ◌≡◌, arith, refl, Bool, [], ◌∷◌, take, drop, ltb, if◌then◌else◌}
use flutter_quickjs.JsString.{JsString, str8, str16, units}
use flutter_quickjs.JsString.Slice.{
  string, exception, or_units, js_new_string8, js_new_string16, sub_wide, js_sub_string,
}
use flutter_quickjs.JsString.Slice.Kept.{Keeps, js_sub_string-Keeps}

-- Memory for three characters of 8 bits at most, and one of 16.
abbrev small_memory : (max_len : ℕ) (is_wide_char : Bool) → Bool
small_memory max_len is_wide_char = ltb max_len (if is_wide_char then 2 else 4)

-- "ab", U+0100 and "c"
abbrev mixed : JsString
mixed = str16 (97 ∷ 98 ∷ 256 ∷ 99 ∷ [])

stored_narrow : js_sub_string small_memory mixed 0 2 ≡ string (str8 (97 ∷ 98 ∷ []))
unfolding js_sub_string sub_wide or_units js_new_string8 js_new_string16
stored_narrow = refl

stored_wide : js_sub_string small_memory mixed 2 3 ≡ string (str16 (256 ∷ []))
unfolding js_sub_string sub_wide or_units js_new_string8 js_new_string16
stored_wide = refl

no_memory : js_sub_string small_memory mixed 2 4 ≡ exception
unfolding js_sub_string sub_wide or_units js_new_string8 js_new_string16
no_memory = refl

js_sub_string-Keeps_example :
    Keeps small_memory (take 2 (drop 0 (units mixed))) (js_sub_string small_memory mixed 0 2)
unfolding units
js_sub_string-Keeps_example = js_sub_string-Keeps small_memory mixed 0 2 (omega arith) (omega arith)
