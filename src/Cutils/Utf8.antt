-- ===== src/Cutils/Utf8.antt =====
-- UTF-8 in cxx/quickjs/cutils.c: `unicode_to_utf8` and `unicode_from_utf8`.
-- A byte is a number below 256. What `unicode_to_utf8` writes is the list of bytes that it returns,
-- and the value that the C function returns is the length of that list.
pub mod Bytes
pub mod RoundTrip
pub mod Canonical
mod Runs
use flutter_quickjs.Prelude.{ℕ, zero, suc, ◌+◌, ◌-◌, ◌*◌, ◌/◌, ◌%◌, ◌^◌, ◌<◌, bit_and, bit_or}
use flutter_quickjs.Prelude.{Bool, ◌||◌, ◌&&◌, Option, none, some, List, [], ◌∷◌, ◌++◌}
use flutter_quickjs.Prelude.{ltb, leb, if◌then◌else◌}

abbrev pub IsByte : ℕ → Type 0
IsByte b = b < 256

-- `*q++ = (c >> k) | mark;`
unfoldable pub lead_byte : ℕ → ℕ → ℕ → ℕ
lead_byte k mark c = bit_or (c / 2 ^ k) mark % 256

-- `*q++ = ((c >> k) & 0x3f) | 0x80;`
unfoldable pub cont_byte : ℕ → ℕ → ℕ
cont_byte k c = bit_or (bit_and (c / 2 ^ k) 0x3f) 0x80 % 256

-- The nested tests of the source, outermost first; each level appends its continuation byte after
-- the levels inside it.
unfoldable pub unicode_to_utf8 : ℕ → List ℕ
unicode_to_utf8 c =
    if ltb c 0x80
    then (c % 256) ∷ []
    else if ltb c 0x800
    then lead_byte 6 0xc0 c ∷ cont_byte 0 c ∷ []
    else if ltb c 0x10000
    then lead_byte 12 0xe0 c ∷ cont_byte 6 c ∷ cont_byte 0 c ∷ []
    else if ltb c 0x00200000
    then lead_byte 18 0xf0 c ∷ cont_byte 12 c ∷ cont_byte 6 c ∷ cont_byte 0 c ∷ []
    else if ltb c 0x04000000
    then lead_byte 24 0xf8 c ∷ cont_byte 18 c ∷ cont_byte 12 c ∷ cont_byte 6 c ∷ cont_byte 0 c ∷ []
    else if ltb c 0x80000000
    then lead_byte 30 0xfc c
      ∷ cont_byte 24 c
      ∷ cont_byte 18 c
      ∷ cont_byte 12 c
      ∷ cont_byte 6 c
      ∷ cont_byte 0 c
      ∷ []
    else []

-- What `unicode_from_utf8` does: it returns a code and moves `*pp` to the rest, it returns -1, or
-- it reads past the bytes that it was given.
pub data Decoded : Type 0 where
  code : ℕ → List ℕ → Decoded
  invalid : Decoded
  out_of_bounds : Decoded

-- `utf8_min_code[l - 1]`
unfoldable pub utf8_min_code : ℕ → ℕ
utf8_min_code l =
    if leb l 1
    then 0x80
    else if leb l 2
    then 0x800
    else if leb l 3
    then 0x10000
    else if leb l 4
    then 0x00200000
    else 0x04000000

-- `utf8_first_code_mask[l - 1]`
unfoldable pub utf8_first_code_mask : ℕ → ℕ
utf8_first_code_mask l =
    if leb l 1
    then 0x1f
    else if leb l 2
    then 0xf
    else if leb l 3
    then 0x7
    else if leb l 4
    then 0x3
    else 0x1

-- The switch on the first byte: how many bytes follow, or the default case.
unfoldable pub utf8_follow : ℕ → Option ℕ
utf8_follow c =
    if leb 0xc0 c && leb c 0xdf
    then some 1
    else if leb 0xe0 c && leb c 0xef
    then some 2
    else if leb 0xf0 c && leb c 0xf7
    then some 3
    else if leb 0xf8 c && leb c 0xfb
    then some 4
    else if leb 0xfc c && leb c 0xfd
    then some 5
    else none

-- The loop over the continuation bytes, `l` of them to go, then the test of the smallest code.
unfoldable pub from_utf8_loop : ℕ → ℕ → ℕ → List ℕ → Decoded
from_utf8_loop least zero c p = if ltb c least then invalid else code c p
from_utf8_loop least (suc l) c [] = out_of_bounds
from_utf8_loop least (suc l) c (b ∷ p) =
    if ltb b 0x80 || leb 0xc0 b
    then invalid
    else from_utf8_loop least l (bit_or (c * 2 ^ 6) (bit_and b 0x3f)) p

-- The part after the switch, `l` bytes after the first.
unfoldable pub from_utf8_tail : ℕ → ℕ → List ℕ → ℕ → Decoded
from_utf8_tail l c p max_len =
    if ltb (max_len - 1) l
    then invalid
    else from_utf8_loop (utf8_min_code l) l (bit_and c (utf8_first_code_mask l)) p

unfoldable pub unicode_from_utf8 : List ℕ → ℕ → Decoded
unicode_from_utf8 [] max_len = out_of_bounds
unicode_from_utf8 (c ∷ p) max_len =
    if ltb c 0x80
    then code c p
    else elim (utf8_follow c) [ none ↦ invalid | some l ↦ from_utf8_tail l c p max_len ]
