-- ===== src/Cutils/Utf8/RoundTrip.antt =====
-- Decoding what `unicode_to_utf8` wrote (cxx/quickjs/cutils.c).
use flutter_quickjs.Prelude.{ℕ, ◌+◌, ◌/◌, ◌%◌, ◌^◌, ◌<◌, ◌≤◌, bit_and, length}
use flutter_quickjs.Prelude.{◌≡◌, ◌∙◌, some, List, ◌∷◌, ◌++◌, arith, bit_and-mask}
use flutter_quickjs.Cutils.Utf8.{lead_byte, cont_byte, unicode_to_utf8, code}
use flutter_quickjs.Cutils.Utf8.{utf8_min_code, utf8_first_code_mask, utf8_follow}
use flutter_quickjs.Cutils.Utf8.{from_utf8_loop, from_utf8_tail, unicode_from_utf8}
use flutter_quickjs.Cutils.Utf8.Bytes.{lead_c0, lead_e0, lead_f0, lead_f8, lead_fc}
use flutter_quickjs.Cutils.Utf8.Bytes.{from_utf8_loop-cont_byte}

-- A first byte `x` that announces `l` more bytes, with room for them.
pub from_utf8-lead :
    (x l max_len : ℕ) (p : List ℕ)
    → 0x80 ≤ x
    → utf8_follow x ≡ some l
    → l < max_len
    → unicode_from_utf8 (x ∷ p) max_len
      ≡ from_utf8_loop (utf8_min_code l) l (bit_and x (utf8_first_code_mask l)) p
unfolding unicode_from_utf8 from_utf8_tail
from_utf8-lead x l max_len p big follow room = ground arith

-- The loop ends with a code that is not below the smallest one.
loop_end : (least c d : ℕ) (p : List ℕ) → d ≡ c → least ≤ c → from_utf8_loop least 0 d p ≡ code c p
unfolding from_utf8_loop
loop_end least c d p e h = ground arith

module _ (c max_len : ℕ) (rest : List ℕ) where
  one : c < 0x80 → unicode_from_utf8 (c % 256 ∷ rest) max_len ≡ code c rest
  unfolding unicode_from_utf8
  one h = let same : c % 256 ≡ c = omega arith in rw same (ground arith)

  two :
      0x80 ≤ c
      → c < 0x800
      → 2 ≤ max_len
      → unicode_from_utf8 (lead_byte 6 0xc0 c ∷ cont_byte 0 c ∷ rest) max_len ≡ code c rest
  unfolding utf8_follow utf8_min_code utf8_first_code_mask
  two lo hi room = rw (lead_c0 c hi) (
      from_utf8-lead (c / 2 ^ 6 + 0xc0) 1 max_len _ (omega arith) (ground arith) room
      ∙ rw (bit_and-mask 5 (c / 2 ^ 6 + 0xc0))
          (from_utf8_loop-cont_byte 0x80 0 _ 0 c rest ∙ loop_end 0x80 c _ rest (omega arith) lo))

  three :
      0x800 ≤ c
      → c < 0x10000
      → 3 ≤ max_len
      → unicode_from_utf8 (lead_byte 12 0xe0 c ∷ cont_byte 6 c ∷ cont_byte 0 c ∷ rest) max_len
        ≡ code c rest
  unfolding utf8_follow utf8_min_code utf8_first_code_mask
  three lo hi room = rw (lead_e0 c hi) (
      from_utf8-lead (c / 2 ^ 12 + 0xe0) 2 max_len _ (omega arith) (ground arith) room
      ∙ rw (bit_and-mask 4 (c / 2 ^ 12 + 0xe0)) (
          from_utf8_loop-cont_byte 0x800 1 _ 6 c _
          ∙ from_utf8_loop-cont_byte 0x800 0 _ 0 c rest
          ∙ loop_end 0x800 c _ rest (omega arith) lo))

  four :
      0x10000 ≤ c
      → c < 0x200000
      → 4 ≤ max_len
      → unicode_from_utf8
          (lead_byte 18 0xf0 c ∷ cont_byte 12 c ∷ cont_byte 6 c ∷ cont_byte 0 c ∷ rest)
          max_len
        ≡ code c rest
  unfolding utf8_follow utf8_min_code utf8_first_code_mask
  four lo hi room = rw (lead_f0 c hi) (
      from_utf8-lead (c / 2 ^ 18 + 0xf0) 3 max_len _ (omega arith) (ground arith) room
      ∙ rw (bit_and-mask 3 (c / 2 ^ 18 + 0xf0)) (
          from_utf8_loop-cont_byte 0x10000 2 _ 12 c _
          ∙ from_utf8_loop-cont_byte 0x10000 1 _ 6 c _
          ∙ from_utf8_loop-cont_byte 0x10000 0 _ 0 c rest
          ∙ loop_end 0x10000 c _ rest (omega arith) lo))

  five :
      0x200000 ≤ c
      → c < 0x4000000
      → 5 ≤ max_len
      → unicode_from_utf8
          (lead_byte 24 0xf8 c
            ∷ cont_byte 18 c
            ∷ cont_byte 12 c
            ∷ cont_byte 6 c
            ∷ cont_byte 0 c
            ∷ rest)
          max_len
        ≡ code c rest
  unfolding utf8_follow utf8_min_code utf8_first_code_mask
  five lo hi room = rw (lead_f8 c hi) (
      from_utf8-lead (c / 2 ^ 24 + 0xf8) 4 max_len _ (omega arith) (ground arith) room
      ∙ rw (bit_and-mask 2 (c / 2 ^ 24 + 0xf8)) (
          from_utf8_loop-cont_byte 0x200000 3 _ 18 c _
          ∙ from_utf8_loop-cont_byte 0x200000 2 _ 12 c _
          ∙ from_utf8_loop-cont_byte 0x200000 1 _ 6 c _
          ∙ from_utf8_loop-cont_byte 0x200000 0 _ 0 c rest
          ∙ loop_end 0x200000 c _ rest (omega arith) lo))

  six :
      0x4000000 ≤ c
      → c < 0x80000000
      → 6 ≤ max_len
      → unicode_from_utf8
          (lead_byte 30 0xfc c
            ∷ cont_byte 24 c
            ∷ cont_byte 18 c
            ∷ cont_byte 12 c
            ∷ cont_byte 6 c
            ∷ cont_byte 0 c
            ∷ rest)
          max_len
        ≡ code c rest
  unfolding utf8_follow utf8_min_code utf8_first_code_mask
  six lo hi room = rw (lead_fc c hi) (
      from_utf8-lead (c / 2 ^ 30 + 0xfc) 5 max_len _ (omega arith) (ground arith) room
      ∙ rw (bit_and-mask 1 (c / 2 ^ 30 + 0xfc)) (
          from_utf8_loop-cont_byte 0x4000000 4 _ 24 c _
          ∙ from_utf8_loop-cont_byte 0x4000000 3 _ 18 c _
          ∙ from_utf8_loop-cont_byte 0x4000000 2 _ 12 c _
          ∙ from_utf8_loop-cont_byte 0x4000000 1 _ 6 c _
          ∙ from_utf8_loop-cont_byte 0x4000000 0 _ 0 c rest
          ∙ loop_end 0x4000000 c _ rest (omega arith) lo))

-- Every code below 2^31 that `unicode_to_utf8` encodes is read back by `unicode_from_utf8`, which
-- leaves the bytes that follow, if `max_len` leaves room for the encoding.
pub from_utf8-to_utf8 :
    (c max_len : ℕ) (rest : List ℕ)
    → c < 2 ^ 31
    → length (unicode_to_utf8 c) ≤ max_len
    → unicode_from_utf8 (unicode_to_utf8 c ++ rest) max_len ≡ code c rest
unfolding unicode_to_utf8
from_utf8-to_utf8 c max_len rest fits room = ground (
  arith,
  one c max_len rest,
  two c max_len rest,
  three c max_len rest,
  four c max_len rest,
  five c max_len rest,
  six c max_len rest,
)
