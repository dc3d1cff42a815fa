-- ===== src/Cutils/Utf8/Canonical.antt =====
-- What `unicode_from_utf8` accepts (cxx/quickjs/cutils.c): the shortest forms and nothing else.
use flutter_quickjs.Prelude.{ℕ, zero, suc, ◌+◌, ◌*◌, ◌/◌, ◌%◌, ◌^◌, ◌<◌, ◌≤◌, bit_and, length}
use flutter_quickjs.Prelude.{
  ◌≡◌, ◌≢◌, refl, some, List, [], ◌∷◌, ◌++◌, arith, bit_and-mask, bit_or-shift,
}
use flutter_quickjs.Prelude.{Bool-cases, Option-cases, inl, inr, ltb, bit_or, All}
use flutter_quickjs.Cutils.Utf8.{lead_byte, cont_byte, unicode_to_utf8, code, out_of_bounds, IsByte}
use flutter_quickjs.Cutils.Utf8.{utf8_min_code, utf8_first_code_mask, utf8_follow}
use flutter_quickjs.Cutils.Utf8.{from_utf8_loop, from_utf8_tail, unicode_from_utf8}
use flutter_quickjs.Cutils.Utf8.Bytes.{lead_c0, lead_e0, lead_f0, lead_f8, lead_fc, cont_byte_lem}

-- A loop that ends with a code has read a continuation byte in its first round.
loop_first :
    (least l acc c : ℕ) (p rest : List ℕ)
    → from_utf8_loop least (suc l) acc p ≡ code c rest
    → (b : ℕ) × (q : List ℕ) × (p ≡ b ∷ q)
      × (0x80 ≤ b)
      × (b < 0xc0)
      × (from_utf8_loop least l (acc * 64 + b % 64) q ≡ code c rest)
unfolding from_utf8_loop
loop_first least l acc c [] rest e = absurd (cc)
loop_first least l acc c (b ∷ q) rest e = (
  b,
  q,
  refl,
  ground arith,
  ground arith,
  ground (arith, bit_and-mask 6 b, bit_or-shift 6 acc (b % 64)),
)

loop_last :
    (least acc c : ℕ) (p rest : List ℕ)
    → from_utf8_loop least 0 acc p ≡ code c rest
    → (acc ≡ c) × (least ≤ c) × (p ≡ rest)
unfolding from_utf8_loop
loop_last least acc c p rest e = ground arith

-- The encodings in plain arithmetic, one for each length.
module _ (d : ℕ) where
  enc_two : 0x80 ≤ d → d < 0x800 → unicode_to_utf8 d ≡ (d / 2 ^ 6 + 0xc0) ∷ (d % 64 + 128) ∷ []
  unfolding unicode_to_utf8
  enc_two lo hi = ground (arith, lead_c0 d, cont_byte_lem 0 d)

  enc_three :
      0x800 ≤ d
      → d < 0x10000
      → unicode_to_utf8 d ≡ (d / 2 ^ 12 + 0xe0) ∷ (d / 2 ^ 6 % 64 + 128) ∷ (d % 64 + 128) ∷ []
  unfolding unicode_to_utf8
  enc_three lo hi = ground (arith, lead_e0 d, cont_byte_lem 6 d, cont_byte_lem 0 d)

  enc_four :
      0x10000 ≤ d
      → d < 0x200000
      → unicode_to_utf8 d
        ≡ (d / 2 ^ 18 + 0xf0)
          ∷ (d / 2 ^ 12 % 64 + 128)
          ∷ (d / 2 ^ 6 % 64 + 128)
          ∷ (d % 64 + 128)
          ∷ []
  unfolding unicode_to_utf8
  enc_four lo hi =
      ground (arith, lead_f0 d, cont_byte_lem 12 d, cont_byte_lem 6 d, cont_byte_lem 0 d)

  enc_five :
      0x200000 ≤ d
      → d < 0x4000000
      → unicode_to_utf8 d
        ≡ (d / 2 ^ 24 + 0xf8)
          ∷ (d / 2 ^ 18 % 64 + 128)
          ∷ (d / 2 ^ 12 % 64 + 128)
          ∷ (d / 2 ^ 6 % 64 + 128)
          ∷ (d % 64 + 128)
          ∷ []
  unfolding unicode_to_utf8
  enc_five lo hi = ground (
    arith,
    lead_f8 d,
    cont_byte_lem 18 d,
    cont_byte_lem 12 d,
    cont_byte_lem 6 d,
    cont_byte_lem 0 d,
  )

  enc_six :
      0x4000000 ≤ d
      → d < 0x80000000
      → unicode_to_utf8 d
        ≡ (d / 2 ^ 30 + 0xfc)
          ∷ (d / 2 ^ 24 % 64 + 128)
          ∷ (d / 2 ^ 18 % 64 + 128)
          ∷ (d / 2 ^ 12 % 64 + 128)
          ∷ (d / 2 ^ 6 % 64 + 128)
          ∷ (d % 64 + 128)
          ∷ []
  unfolding unicode_to_utf8
  enc_six lo hi = ground (
    arith,
    lead_fc d,
    cont_byte_lem 24 d,
    cont_byte_lem 18 d,
    cont_byte_lem 12 d,
    cont_byte_lem 6 d,
    cont_byte_lem 0 d,
  )

-- The bytes `p` are the encoding of `d` with `rest` behind it.
record IsEncoding (p : List ℕ) (d : ℕ) (rest : List ℕ) : Type 0 where
  small : d < 2 ^ 31
  bytes : p ≡ unicode_to_utf8 d ++ rest

module _ (x d : ℕ) (p rest : List ℕ) where
  canon_two :
      0xc0 ≤ x
      → x < 0xe0
      → from_utf8_loop 0x80 1 (x % 32) p ≡ code d rest
      → IsEncoding (x ∷ p) d rest
  canon_two lo hi e =
      let (b, q, ep, bl, bh, e1) = loop_first 0x80 0 (x % 32) d p rest e in
      let (ed, le, eq) = loop_last 0x80 ((x % 32) * 64 + b % 64) d q rest e1 in
      record { small = omega arith; bytes = ground (arith, enc_two d) }

  canon_three :
      0xe0 ≤ x
      → x < 0xf0
      → from_utf8_loop 0x800 2 (x % 16) p ≡ code d rest
      → IsEncoding (x ∷ p) d rest
  canon_three lo hi e =
      let (a, p1, ep, al, ah, e1) = loop_first 0x800 1 (x % 16) d p rest e in
      let (b, p2, eq, bl, bh, e2) = loop_first 0x800 0 ((x % 16) * 64 + a % 64) d p1 rest e1 in
      let (ed, le, er) = loop_last 0x800 _ d p2 rest e2 in
      record { small = omega arith; bytes = ground (arith, enc_three d) }

  canon_four :
      0xf0 ≤ x
      → x < 0xf8
      → from_utf8_loop 0x10000 3 (x % 8) p ≡ code d rest
      → IsEncoding (x ∷ p) d rest
  canon_four lo hi e =
      let (a, p1, ep, al, ah, e1) = loop_first 0x10000 2 (x % 8) d p rest e in
      let (b, p2, eq, bl, bh, e2) = loop_first 0x10000 1 _ d p1 rest e1 in
      let (c, p3, er, cl, ch, e3) = loop_first 0x10000 0 _ d p2 rest e2 in
      let (ed, le, es) = loop_last 0x10000 _ d p3 rest e3 in
      record { small = omega arith; bytes = ground (arith, enc_four d) }

  canon_five :
      0xf8 ≤ x
      → x < 0xfc
      → from_utf8_loop 0x200000 4 (x % 4) p ≡ code d rest
      → IsEncoding (x ∷ p) d rest
  canon_five lo hi e =
      let (a, p1, ep, al, ah, e1) = loop_first 0x200000 3 (x % 4) d p rest e in
      let (b, p2, eq, bl, bh, e2) = loop_first 0x200000 2 _ d p1 rest e1 in
      let (c, p3, er, cl, ch, e3) = loop_first 0x200000 1 _ d p2 rest e2 in
      let (f, p4, es, fl, fh, e4) = loop_first 0x200000 0 _ d p3 rest e3 in
      let (ed, le, et) = loop_last 0x200000 _ d p4 rest e4 in
      record { small = omega arith; bytes = ground (arith, enc_five d) }

  canon_six :
      0xfc ≤ x
      → x < 0xfe
      → from_utf8_loop 0x4000000 5 (x % 2) p ≡ code d rest
      → IsEncoding (x ∷ p) d rest
  canon_six lo hi e =
      let (a, p1, ep, al, ah, e1) = loop_first 0x4000000 4 (x % 2) d p rest e in
      let (b, p2, eq, bl, bh, e2) = loop_first 0x4000000 3 _ d p1 rest e1 in
      let (c, p3, er, cl, ch, e3) = loop_first 0x4000000 2 _ d p2 rest e2 in
      let (f, p4, es, fl, fh, e4) = loop_first 0x4000000 1 _ d p3 rest e3 in
      let (g, p5, et, gl, gh, e5) = loop_first 0x4000000 0 _ d p4 rest e4 in
      let (ed, le, eu) = loop_last 0x4000000 _ d p5 rest e5 in
      record { small = omega arith; bytes = ground (arith, enc_six d) }

  canon_one : x < 0x80 → code x p ≡ code d rest → IsEncoding (x ∷ p) d rest
  unfolding unicode_to_utf8
  canon_one h e = ground arith

  -- Every first byte, by the length that the switch gives it.
  canon_tail :
      (l max_len : ℕ)
      → utf8_follow x ≡ some l
      → from_utf8_tail l x p max_len ≡ code d rest
      → IsEncoding (x ∷ p) d rest
  unfolding utf8_follow from_utf8_tail utf8_min_code utf8_first_code_mask
  canon_tail l max_len s e = ground (
    arith,
    canon_two,
    canon_three,
    canon_four,
    canon_five,
    canon_six,
    bit_and-mask 5 x,
    bit_and-mask 4 x,
    bit_and-mask 3 x,
    bit_and-mask 2 x,
    bit_and-mask 1 x,
  )

  canon_first :
      (max_len : ℕ) → unicode_from_utf8 (x ∷ p) max_len ≡ code d rest → IsEncoding (x ∷ p) d rest
  unfolding unicode_from_utf8
  canon_first max_len e = elim (Bool-cases (ltb x 0x80)) [
    | inl small ↦ canon_one (ground arith) (rw small at e)
    | inr big ↦ elim (Option-cases (utf8_follow x)) [
      | inl s ↦ absurd (ground arith)
      | inr (l, s) ↦ canon_tail l max_len s (ground arith)
    ]
  ]

-- If `unicode_from_utf8` returns a code, that code is below 2^31, and what it has read is exactly
-- what `unicode_to_utf8` writes for it: overlong forms are refused.
pub from_utf8_canonical :
    (p : List ℕ) (max_len c : ℕ) (rest : List ℕ)
    → unicode_from_utf8 p max_len ≡ code c rest
    → (c < 2 ^ 31) × (p ≡ unicode_to_utf8 c ++ rest)
unfolding unicode_from_utf8
from_utf8_canonical [] max_len c rest e = cc
from_utf8_canonical (x ∷ p) max_len c rest e =
    let enc = canon_first x c p rest max_len e in (enc.small, enc.bytes)

loop_in_bounds :
    (least l acc : ℕ) (p : List ℕ) → l ≤ length p → from_utf8_loop least l acc p ≢ out_of_bounds
unfolding from_utf8_loop
loop_in_bounds least zero acc p h = ground arith
loop_in_bounds least (suc l) acc [] h = absurd (omega arith)
loop_in_bounds least (suc l) acc (b ∷ p) h =
    ground (arith, loop_in_bounds least l (bit_or (acc * 2 ^ 6) (bit_and b 0x3f)) p)

-- `unicode_from_utf8` reads inside its input, if `max_len` is at least 1 and at most the number of
-- bytes there.
pub from_utf8_in_bounds :
    (p : List ℕ) (max_len : ℕ)
    → 1 ≤ max_len
    → max_len ≤ length p
    → unicode_from_utf8 p max_len ≢ out_of_bounds
unfolding unicode_from_utf8 from_utf8_tail
from_utf8_in_bounds [] max_len h k = absurd (omega arith)
from_utf8_in_bounds (x ∷ p) max_len h k = elim (Option-cases (utf8_follow x)) [
  | inl s ↦ ground arith
  | inr (l, s) ↦
      ground (arith, loop_in_bounds (utf8_min_code l) l (bit_and x (utf8_first_code_mask l)) p)
]

-- `unicode_to_utf8` writes 1 to 6 bytes, all below 256, for a code below 2^31.
pub to_utf8_shape :
    (c : ℕ)
    → c < 2 ^ 31
    → All IsByte (unicode_to_utf8 c)
      × (1 ≤ length (unicode_to_utf8 c))
      × (length (unicode_to_utf8 c) ≤ 6)
unfolding unicode_to_utf8 lead_byte cont_byte
to_utf8_shape c h = ground arith
