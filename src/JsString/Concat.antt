-- ===== src/JsString/Concat.antt =====
-- The concatenation of strings in cxx/quickjs/quickjs.c: `copy_str16`, `JS_ConcatString1` and
-- `JS_ConcatString` from where both values are strings.
-- The arguments are `grant`, whether `js_alloc_string` gets its memory, and what
-- `js_malloc_usable_size` says of the first string. `sizeof(JSString)` is 16: four words of 32 bits.
pub mod Joined
mod Runs
use flutter_quickjs.Prelude.{
  ◌%◌, ℕ, ◌+◌, ◌-◌, ◌*◌, ◌^◌, Bool, true, false, ◌&&◌, ◌||◌, not, List, ◌++◌, length, take, drop,
  if◌then◌else◌, ltb, leb, ◌==◌,
}
use flutter_quickjs.JsString.{JsString, str8, str16, units}

-- The string, or `JS_EXCEPTION` for "string too long" or for want of memory, or a `memcpy` past the
-- end of the block of the first string.
pub data ConcatResult : Type 0 where
  joined : JsString → ConcatResult
  too_long no_memory outside_block : ConcatResult

unfoldable pub is_wide_char : JsString → Bool
is_wide_char (str8 cs) = false
is_wide_char (str16 cs) = true

-- The characters that are written at `dst`.
unfoldable pub copy_str16 : JsString → (offset len : ℕ) → List ℕ
copy_str16 p offset len = take len (drop offset (units p))

-- `p1->is_wide_char == p2->is_wide_char`
unfoldable pub same_width : (p1 p2 : JsString) → Bool
same_width p1 p2 = if is_wide_char p1 then is_wide_char p2 else not (is_wide_char p2)

-- `(p1->len + p2->len) << p2->is_wide_char`, which is an `int`, as a `size_t`.
unfoldable pub shifted_len : (len : ℕ) (wide : Bool) → ℕ
shifted_len len wide =
    let shifted = (if wide then len * 2 else len) % 2 ^ 32 in
    if ltb shifted (2 ^ 31) then shifted else shifted + 2 ^ 64 - 2 ^ 32

-- What the usable size is compared with.
unfoldable pub needed_size : (len : ℕ) (wide : Bool) → ℕ
needed_size len wide = (16 + shifted_len len wide + 1 - (if wide then 1 else 0)) % 2 ^ 64

-- The bytes that the string in place takes.
unfoldable pub joined_size : (len : ℕ) (wide : Bool) → ℕ
joined_size len wide = if wide then 16 + len * 2 else 16 + len + 1

-- The characters of `p1` and then those of `p2` in the memory of `p1`.
unfoldable pub append_in_place : (p1 p2 : JsString) → JsString
append_in_place (str8 cs) p2 = str8 (cs ++ units p2)
append_in_place (str16 cs) p2 = str16 (cs ++ units p2)

module _ (grant : (max_len : ℕ) (wide : Bool) → Bool) where
  -- `JS_ConcatString1`
  unfoldable pub concat_string1 : (p1 p2 : JsString) → ConcatResult
  concat_string1 p1 p2 =
      let len = length (units p1) + length (units p2) in
      let wide = is_wide_char p1 || is_wide_char p2 in
      if ltb (2 ^ 30 - 1) len
      then too_long
      else if not (grant len wide)
      then no_memory
      else if wide
      then joined
          (str16 (copy_str16 p1 0 (length (units p1)) ++ copy_str16 p2 0 (length (units p2))))
      else joined (str8 (units p1 ++ units p2))

  -- `JS_ConcatString`
  unfoldable pub concat_string : (usable_size ref_count : ℕ) (p1 p2 : JsString) → ConcatResult
  concat_string usable_size ref_count p1 p2 =
      let len = length (units p1) + length (units p2) in
      let needed = needed_size len (is_wide_char p2) in
      if length (units p2) == 0
      then joined p1
      else if ref_count == 1 && same_width p1 p2 && leb needed usable_size
      then if leb (joined_size len (is_wide_char p2)) usable_size
        then joined (append_in_place p1 p2)
        else outside_block
      else concat_string1 p1 p2
