-- ===== src/JsString/Compare/Runs.antt =====
-- The comparison of strings of cxx/quickjs/quickjs.c on concrete strings.
use flutter_quickjs.Prelude.{
  ℕ, zero, suc, ◌-◌, ◌^◌, ◌≤◌, ◌≡◌, arith, refl, some, List, [], ◌∷◌, length, take, if◌then◌else◌,
  ltb, ◌==◌,
}
use flutter_quickjs.JsString.{JsString, str8, str16, units}
use flutter_quickjs.JsString.Compare.{
  js_string_compare, js_string_memcmp, memcmp_loop, negated, compare_len,
}
use flutter_quickjs.JsString.Compare.Ordered.{order, sign, IsMemcmp, js_string_compare-order}

-- A C library's `memcmp` that returns -1, 0 or 1.
unfoldable bytes_first : List ℕ → List ℕ → ℕ → ℕ
bytes_first a b zero = 0
bytes_first [] [] (suc n) = 0
bytes_first [] (y ∷ b) (suc n) = 2 ^ 32 - 1
bytes_first (x ∷ a) [] (suc n) = 1
bytes_first (x ∷ a) (y ∷ b) (suc n) =
    if ltb x y then 2 ^ 32 - 1 else if x == y then bytes_first a b n else 1

bytes_first-ordered :
    (a b : List ℕ) (n : ℕ)
    → n ≤ length a
    → n ≤ length b
    → sign (bytes_first a b n) ≡ order (take n a) (take n b)
unfolding bytes_first sign order
bytes_first-ordered a b zero h k = refl
bytes_first-ordered [] b (suc n) h k = absurd (omega arith)
bytes_first-ordered (x ∷ a) [] (suc n) h k = absurd (omega arith)
bytes_first-ordered (x ∷ a) (y ∷ b) (suc n) h k =
    ground (arith, bytes_first-ordered a b n (omega arith) (omega arith))

bytes_first-IsMemcmp : IsMemcmp bytes_first
bytes_first-IsMemcmp = record { ordered = bytes_first-ordered }

-- "ab" in 8 bits, and "a" with U+0100 in 16
abbrev narrow : JsString
narrow = str8 (97 ∷ 98 ∷ [])

abbrev wide : JsString
wide = str16 (97 ∷ 256 ∷ [])

abbrev wide_prefix : JsString
wide_prefix = str16 (97 ∷ [])

narrow_before_wide : js_string_compare bytes_first narrow wide ≡ some (2 ^ 32 - 158)
unfolding js_string_compare js_string_memcmp memcmp_loop negated compare_len units
narrow_before_wide = refl

longer_after : js_string_compare bytes_first narrow wide_prefix ≡ some 1
unfolding js_string_compare js_string_memcmp memcmp_loop negated compare_len units
longer_after = refl

equal_in_both : js_string_compare bytes_first (str16 (97 ∷ 98 ∷ [])) narrow ≡ some 0
unfolding js_string_compare js_string_memcmp memcmp_loop negated compare_len units
equal_in_both = refl

js_string_compare-order_example :
    (r : ℕ) × ((js_string_compare bytes_first narrow wide ≡ some r)
      × (sign r ≡ order (units narrow) (units wide)))
unfolding units
js_string_compare-order_example =
    js_string_compare-order bytes_first bytes_first-IsMemcmp narrow wide
      (omega arith, (omega arith, tt)) (omega arith, (omega arith, tt))
