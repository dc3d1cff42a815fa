-- ===== src/Cutils/Utf8/Runs.antt =====
-- Runs of the UTF-8 functions, and the theorems at concrete inputs.
use flutter_quickjs.Prelude.{◌^◌, ◌<◌, ◌≡◌, ◌≢◌, refl, [], ◌∷◌, ◌++◌, arith}
use flutter_quickjs.Cutils.Utf8.{
  unicode_to_utf8, lead_byte, cont_byte, code, invalid, out_of_bounds, unicode_from_utf8,
  from_utf8_loop, from_utf8_tail, utf8_follow, utf8_min_code, utf8_first_code_mask,
}
use flutter_quickjs.Cutils.Utf8.RoundTrip.{from_utf8-to_utf8}
use flutter_quickjs.Cutils.Utf8.Canonical.{from_utf8_canonical, from_utf8_in_bounds}

euro : unicode_to_utf8 0x20ac ≡ 0xe2 ∷ 0x82 ∷ 0xac ∷ []
unfolding unicode_to_utf8 lead_byte cont_byte
euro = refl

read_euro : unicode_from_utf8 (0xe2 ∷ 0x82 ∷ 0xac ∷ 7 ∷ []) 4 ≡ code 0x20ac (7 ∷ [])
unfolding unicode_from_utf8 from_utf8_tail from_utf8_loop utf8_follow utf8_min_code
    utf8_first_code_mask
read_euro = refl

-- The two-byte form of 0x2f is refused.
overlong : unicode_from_utf8 (0xc0 ∷ 0xaf ∷ []) 2 ≡ invalid
unfolding unicode_from_utf8 from_utf8_tail from_utf8_loop utf8_follow utf8_min_code
    utf8_first_code_mask
overlong = refl

from_utf8-to_utf8_example :
    unicode_from_utf8 (unicode_to_utf8 0x1f600 ++ 9 ∷ []) 5 ≡ code 0x1f600 (9 ∷ [])
unfolding unicode_to_utf8
from_utf8-to_utf8_example = from_utf8-to_utf8 0x1f600 5 (9 ∷ []) (omega arith) (omega arith)

from_utf8_canonical_example :
    (0x20ac < 2 ^ 31) × (0xe2 ∷ 0x82 ∷ 0xac ∷ 7 ∷ [] ≡ unicode_to_utf8 0x20ac ++ 7 ∷ [])
from_utf8_canonical_example =
    from_utf8_canonical (0xe2 ∷ 0x82 ∷ 0xac ∷ 7 ∷ []) 4 0x20ac (7 ∷ []) read_euro

from_utf8_in_bounds_example : unicode_from_utf8 (0xe2 ∷ 0x82 ∷ []) 2 ≢ out_of_bounds
from_utf8_in_bounds_example = from_utf8_in_bounds (0xe2 ∷ 0x82 ∷ []) 2 (omega arith) (omega arith)
