-- ===== src/JsString/Slice.antt =====
-- Parts of strings in cxx/quickjs/quickjs.c: `js_new_string8`, `js_new_string16` and
-- `js_sub_string`.
-- Whether `js_alloc_string` gets its memory, for a length and a width, is the argument `grant`.
-- `start` and `end` are not negative; a difference that the code has below 0 is 0 here, and both are
-- an empty string.
pub mod Kept
mod Runs
use flutter_quickjs.Prelude.{
  ℕ, ◌-◌, ◌%◌, ◌^◌, bit_or, Bool, true, false, ◌&&◌, List, [], ◌∷◌, length, take, drop, map,
  if◌then◌else◌, ltb, ◌==◌,
}
use flutter_quickjs.JsString.{JsString, str8, str16}

-- The value of a string, or `JS_EXCEPTION` with the error thrown.
pub data StringResult : Type 0 where
  string : JsString → StringResult
  exception : StringResult

-- `c |= p->u.str16[i]` for each character.
unfoldable pub or_units : (c : ℕ) → List ℕ → ℕ
or_units c [] = c
or_units c (u ∷ us) = or_units (bit_or c u) us

module _ (grant : (max_len : ℕ) (is_wide_char : Bool) → Bool) where
  -- An empty string is that of `JS_ATOM_empty_string`.
  unfoldable pub js_new_string8 : (buf : List ℕ) (len : ℕ) → StringResult
  js_new_string8 buf len =
      if len == 0
      then string (str8 [])
      else if grant len false
      then string (str8 (take len buf))
      else exception

  unfoldable pub js_new_string16 : (buf : List ℕ) (len : ℕ) → StringResult
  js_new_string16 buf len = if grant len true then string (str16 (take len buf)) else exception

  -- A part of a string of 16 bits that is not empty.
  unfoldable pub sub_wide : (cs : List ℕ) (start len : ℕ) → StringResult
  sub_wide cs start len =
      if ltb 0xff (or_units 0 (take len (drop start cs)))
      then js_new_string16 (drop start cs) len
      else if grant len false
      then string (str8 (map (λ (c : ℕ). c % 2 ^ 8) (take len (drop start cs))))
      else exception

  -- In the last case of `str16`, `len` is 0 and nothing is read.
  unfoldable pub js_sub_string : JsString → (start end : ℕ) → StringResult
  js_sub_string (str8 cs) start end =
      if start == 0 && end == length cs
      then string (str8 cs)
      else js_new_string8 (drop start cs) (end - start)
  js_sub_string (str16 cs) start end =
      if start == 0 && end == length cs
      then string (str16 cs)
      else if ltb 0 (end - start)
      then sub_wide cs start (end - start)
      else js_new_string8 [] (end - start)
