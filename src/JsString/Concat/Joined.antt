-- ===== src/JsString/Concat/Joined.antt =====
-- What `JS_ConcatString` of cxx/quickjs/quickjs.c gives.
use flutter_quickjs.Prelude.{true}
use flutter_quickjs.Prelude.{ℕ, ◌+◌, ◌^◌, ◌≤◌, ◌≡◌, Bool, false, ◌||◌, ◌++◌, length}
use flutter_quickjs.JsString.{JsString, units}
use flutter_quickjs.JsString.Concat.{
  ConcatResult, joined, too_long, no_memory, outside_block, is_wide_char,
}

module _ (grant : (max_len : ℕ) (wide : Bool) → Bool) (p1 p2 : JsString) where
  -- All the characters of both strings; or an error because the length is above 2^30 - 1 or because the
  -- memory is refused; or, for strings of 16 bits that come within 8 characters of 2^31 together, the
  -- `memcpy` outside of the block.
  unfoldable pub Joins : ConcatResult → Type 0
  Joins (joined q) = units q ≡ units p1 ++ units p2
  Joins too_long = 2 ^ 30 ≤ length (units p1) + length (units p2)
  Joins no_memory =
      grant (length (units p1) + length (units p2)) (is_wide_char p1 || is_wide_char p2) ≡ false
  Joins outside_block =
      (is_wide_char p2 ≡ true) × (2 ^ 31 ≤ length (units p1) + length (units p2) + 8)
