-- ===== src/JsString/Compare.antt =====
-- The comparison of strings in cxx/quickjs/quickjs.c: `memcmp16_8`, `memcmp16`,
-- `js_string_memcmp` and `js_string_compare`.
-- An `int` is its word of 32 bits. `memcmp` of the C library is an argument. `none` is a read outside
-- of a string.
pub mod Ordered
mod Runs
use flutter_quickjs.Prelude.{
  ℕ, zero, suc, ◌+◌, ◌-◌, ◌%◌, ◌^◌, Option, none, some, List, [], ◌∷◌, length, if◌then◌else◌, ltb,
  ◌==◌, min, true, false,
}
use flutter_quickjs.Lines.{minus}
use flutter_quickjs.JsString.{JsString, str8, str16, units}

-- The loop of both, with what is left of `len`.
unfoldable pub memcmp_loop : (len : ℕ) (src1 src2 : List ℕ) → Option ℕ
memcmp_loop zero src1 src2 = some 0
memcmp_loop (suc len) [] src2 = none
memcmp_loop (suc len) (a ∷ src1) [] = none
memcmp_loop (suc len) (a ∷ src1) (b ∷ src2) = elim (minus a b == 0) [
  | true ↦ memcmp_loop len src1 src2
  | false ↦ some (minus a b)
]

abbrev pub memcmp16_8 : (src1 src2 : List ℕ) (len : ℕ) → Option ℕ
memcmp16_8 src1 src2 len = memcmp_loop len src1 src2

abbrev pub memcmp16 : (src1 src2 : List ℕ) (len : ℕ) → Option ℕ
memcmp16 src1 src2 len = memcmp_loop len src1 src2

-- `-res`
unfoldable pub negated : Option ℕ → Option ℕ
negated none = none
negated (some res) = some ((2 ^ 32 - res) % 2 ^ 32)

-- The lengths, when no character differs.
unfoldable pub compare_len : (len1 len2 : ℕ) → ℕ
compare_len len1 len2 = if len1 == len2 then 0 else if ltb len1 len2 then 2 ^ 32 - 1 else 1

module _ (memcmp : List ℕ → List ℕ → ℕ → ℕ) where
  unfoldable pub js_string_memcmp : (p1 p2 : JsString) (len : ℕ) → Option ℕ
  js_string_memcmp (str8 a) (str8 b) len = some (memcmp a b len)
  js_string_memcmp (str8 a) (str16 b) len = negated (memcmp16_8 b a len)
  js_string_memcmp (str16 a) (str8 b) len = memcmp16_8 a b len
  js_string_memcmp (str16 a) (str16 b) len = memcmp16 a b len

  unfoldable pub js_string_compare : (p1 p2 : JsString) → Option ℕ
  js_string_compare p1 p2 =
      elim (js_string_memcmp p1 p2 (min (length (units p1)) (length (units p2)))) [
        | none ↦ none
        | some res ↦
            some (if res == 0 then compare_len (length (units p1)) (length (units p2)) else res)
      ]
