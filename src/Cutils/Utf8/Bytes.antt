-- ===== src/Cutils/Utf8/Bytes.antt =====
-- The bytes that the encoder writes, in plain arithmetic, and what the decoder makes of one byte.
use flutter_quickjs.Prelude.{
  if◌then◌else◌, false, ℕ, zero, suc, ◌+◌, ◌*◌, ◌/◌, ◌%◌, ◌^◌, ◌<◌, ◌≤◌, bit_or,
}
use flutter_quickjs.Prelude.{◌≡◌, refl, Bool, true, List, ◌∷◌, arith, ◌==◌, ==_iff}
use flutter_quickjs.Prelude.{bit_and-mask, bit_or-shift}
use flutter_quickjs.Cutils.Utf8.{lead_byte, cont_byte, from_utf8_loop}

-- Does `|` with the mark add it, for each of the numbers below `count`?
marks_add : (mark count : ℕ) → Bool
marks_add mark zero = true
marks_add mark (suc count) =
    if bit_or count mark % 256 == count + mark then marks_add mark count else false

-- A mark whose bits lie above those of `x` is added by `|`.
mark_lem :
    (count mark x : ℕ) → marks_add mark count ≡ true → x < count → bit_or x mark % 256 ≡ x + mark
unfolding marks_add
mark_lem zero mark x t h = absurd (omega arith)
mark_lem (suc count) mark x t h =
    ground (arith, mark_lem count mark x, ==_iff (bit_or count mark % 256) (count + mark))

pub cont_byte_lem : (k c : ℕ) → cont_byte k c ≡ c / 2 ^ k % 64 + 128
unfolding cont_byte marks_add
cont_byte_lem k c =
    rw (bit_and-mask 6 (c / 2 ^ k)) (mark_lem 64 0x80 (c / 2 ^ k % 64) refl (omega arith))

pub lead_c0 : (x : ℕ) → x < 0x800 → lead_byte 6 0xc0 x ≡ x / 2 ^ 6 + 0xc0
unfolding lead_byte marks_add
lead_c0 x h = mark_lem 32 0xc0 (x / 2 ^ 6) refl (omega arith)

pub lead_e0 : (x : ℕ) → x < 0x10000 → lead_byte 12 0xe0 x ≡ x / 2 ^ 12 + 0xe0
unfolding lead_byte marks_add
lead_e0 x h = mark_lem 16 0xe0 (x / 2 ^ 12) refl (omega arith)

pub lead_f0 : (x : ℕ) → x < 0x200000 → lead_byte 18 0xf0 x ≡ x / 2 ^ 18 + 0xf0
unfolding lead_byte marks_add
lead_f0 x h = mark_lem 8 0xf0 (x / 2 ^ 18) refl (omega arith)

pub lead_f8 : (x : ℕ) → x < 0x4000000 → lead_byte 24 0xf8 x ≡ x / 2 ^ 24 + 0xf8
unfolding lead_byte marks_add
lead_f8 x h = mark_lem 4 0xf8 (x / 2 ^ 24) refl (omega arith)

pub lead_fc : (x : ℕ) → x < 0x80000000 → lead_byte 30 0xfc x ≡ x / 2 ^ 30 + 0xfc
unfolding lead_byte marks_add
lead_fc x h = mark_lem 2 0xfc (x / 2 ^ 30) refl (omega arith)

-- One round of the decoder's loop on a continuation byte.
pub from_utf8_loop-cont :
    (least l acc b : ℕ) (p : List ℕ)
    → 0x80 ≤ b
    → b < 0xc0
    → from_utf8_loop least (suc l) acc (b ∷ p) ≡ from_utf8_loop least l (acc * 64 + b % 64) p
unfolding from_utf8_loop
from_utf8_loop-cont least l acc b p lo hi =
    ground (arith, bit_and-mask 6 b, bit_or-shift 6 acc (b % 64))

pub from_utf8_loop-cont_byte :
    (least l acc k c : ℕ) (p : List ℕ)
    → from_utf8_loop least (suc l) acc (cont_byte k c ∷ p)
      ≡ from_utf8_loop least l (acc * 64 + c / 2 ^ k % 64) p
from_utf8_loop-cont_byte least l acc k c p =
    let digit : (c / 2 ^ k % 64 + 128) % 64 ≡ c / 2 ^ k % 64 = omega arith in
    rw cont_byte_lem (
      rw (from_utf8_loop-cont least l acc (c / 2 ^ k % 64 + 128) p (omega arith) (omega arith))
        (rw digit))
