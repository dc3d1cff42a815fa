-- ===== src/Unicode/CharRange/Runs.antt =====
-- Runs of the character sets, and the theorems at concrete inputs.
use flutter_quickjs.Prelude.{
  ℕ, ◌-◌, ◌^◌, ◌≡◌, refl, Bool, true, false, not, ◌&&◌, ◌||◌, List, [], ◌∷◌, arith,
}
use flutter_quickjs.Prelude.{ltb, leb}
use flutter_quickjs.Unicode.CharRange.{
  CharRange, cr_union, cr_inter, cr_op, op_loop, op_point, odd, combine,
}
use flutter_quickjs.Unicode.CharRange.{
  cr_add_point, cr_realloc, cr_compress, compress_points, store_points, ok, failed,
}
use flutter_quickjs.Unicode.CharRange.{cr_union_interval, cr_union1, cr_invert}
use flutter_quickjs.Unicode.CharRange.Members.{inside, even_length}
use flutter_quickjs.Unicode.CharRange.Sets.{
  IsRange, Computes, cr_op-Computes, cr_union_interval-Computes,
}
use flutter_quickjs.Unicode.CharRange.Invert.{cr_invert-Computes}

abbrev always : ℕ → Bool
always n = true

abbrev never : ℕ → Bool
never n = false

-- The digits, and the letters from `a` to `f`.
abbrev digits : List ℕ
digits = 0x30 ∷ 0x3a ∷ []

abbrev hex_letters : List ℕ
hex_letters = 0x61 ∷ 0x67 ∷ []

abbrev digit_range : CharRange
digit_range = record { points = digits; size = 2 }

digits-IsRange : IsRange digits
unfolding even_length
digits-IsRange = (refl, omega arith)

hex_letters-IsRange : IsRange hex_letters
unfolding even_length
hex_letters-IsRange = (refl, omega arith)

hex_digits :
    cr_op always cr_union (record { points = []; size = 0 }) digits hex_letters
    ≡ ok (record { points = 0x30 ∷ 0x3a ∷ 0x61 ∷ 0x67 ∷ []; size = 4 })
unfolding cr_op op_loop op_point odd combine cr_add_point cr_realloc cr_compress compress_points
    store_points
hex_digits = refl

-- Touching intervals are joined.
joined :
    cr_union_interval always digit_range 0x3a 0x3f
    ≡ ok (record { points = 0x30 ∷ 0x40 ∷ []; size = 2 })
unfolding cr_union_interval cr_union1 cr_op op_loop op_point odd combine cr_add_point cr_realloc
    cr_compress compress_points store_points
joined = refl

refused : cr_invert never digit_range ≡ failed digit_range
unfolding cr_invert cr_realloc
refused = refl

cr_op-Computes_example :
    Computes always
      (λ x. combine cr_inter (inside digits x) (inside hex_letters x))
      (cr_op always cr_inter (record { points = []; size = 0 }) digits hex_letters)
cr_op-Computes_example =
    cr_op-Computes always cr_inter 0 digits hex_letters digits-IsRange hex_letters-IsRange

cr_union_interval-Computes_example :
    Computes always
      (λ x. inside digits x || leb 0x61 x && leb x 0x66)
      (cr_union_interval always digit_range 0x61 0x66)
cr_union_interval-Computes_example =
    cr_union_interval-Computes always digit_range 0x61 0x66 digits-IsRange (omega arith)
      (omega arith)

cr_invert-Computes_example :
    Computes always
      (λ x. not (inside digits x) && ltb x (2 ^ 32 - 1))
      (cr_invert always digit_range)
cr_invert-Computes_example = cr_invert-Computes always digit_range digits-IsRange (omega arith)
