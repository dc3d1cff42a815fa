-- ===== src/JsString.antt =====
-- Strings of the engine as array indices, in cxx/quickjs/quickjs.c: `is_num` and `is_num_string`.
pub mod Decimal
pub mod Compare
pub mod Slice
pub mod Concat
mod Runs
use flutter_quickjs.Prelude.{
  ℕ, ◌+◌, ◌-◌, ◌*◌, ◌/◌, ◌%◌, ◌^◌, Bool, true, false, ◌&&◌, ◌||◌, Option, none, some, List, [], ◌∷◌,
  length, if◌then◌else◌, ltb, leb, ◌==◌,
}

-- `JSString`, with `u.str8` or `u.str16` by `is_wide_char`; `len` is the length of the array.
pub data JsString : Type 0 where
  str8 str16 : List ℕ → JsString

-- The characters, which the code reads from one array or the other.
unfoldable pub units : JsString → List ℕ
units (str8 cs) = cs
units (str16 cs) = cs

unfoldable pub is_num : ℕ → Bool
is_num c = leb 48 c && leb c 57

-- The loop, with the characters that are left.
unfoldable pub num_loop : (n : ℕ) → List ℕ → Option ℕ
num_loop n [] = some n
num_loop n (c ∷ cs) =
    let n64 = (n * 10 + (c - 48)) % 2 ^ 64 in
    elim (is_num c) [
      | false ↦ none
      | true ↦ elim (n64 / 2 ^ 32 == 0) [ false ↦ none | true ↦ num_loop (n64 % 2 ^ 32) cs ]
    ]

-- From the test of the first character.
unfoldable pub num_start : List ℕ → Option ℕ
num_start [] = none
num_start (c ∷ cs) = elim (is_num c) [
  | false ↦ none
  | true ↦ elim (c == 48) [
    | true ↦ if length (c ∷ cs) == 1 then some 0 else none
    | false ↦ num_loop (c - 48) cs
  ]
]

-- `none` is FALSE, and `some n` TRUE with `*pval = n`.
unfoldable pub is_num_string : JsString → Option ℕ
is_num_string p =
    if length (units p) == 0 || ltb 10 (length (units p)) then none else num_start (units p)
