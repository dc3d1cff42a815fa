-- ===== src/Bignum/Decimal/Runs.antt =====
-- Runs of the decimal limb functions, and the theorems at concrete inputs.
use flutter_quickjs.Prelude.{ℕ, ◌+◌, ◌-◌, ◌*◌, ◌≤◌, ◌≡◌, refl, [], ◌∷◌, All, arith}
use flutter_quickjs.Bignum.Decimal.{
  dec_base, value_dec, dec_pow, IsDecLimb, mp_add_dec, add_dec_step,
}
use flutter_quickjs.Bignum.Decimal.{mp_sub_dec, mp_add_dec_lem, mp_sub_dec_lem}

abbrev nines : ℕ
nines = dec_base - 1

carry_over : mp_add_dec (nines ∷ 0 ∷ []) (nines ∷ 0 ∷ []) 0 ≡ ((nines - 1) ∷ 1 ∷ [], 0)
unfolding mp_add_dec add_dec_step
carry_over = refl

mp_add_dec_lem_example :
    let (res, out) = mp_add_dec (nines ∷ 5 ∷ []) (nines ∷ 6 ∷ []) 1 in
    (value_dec res + out * dec_pow 2 ≡ value_dec (nines ∷ 5 ∷ []) + value_dec (nines ∷ 6 ∷ []) + 1)
    × All IsDecLimb res
    × (out ≤ 1)
mp_add_dec_lem_example =
    mp_add_dec_lem (nines ∷ 5 ∷ []) (nines ∷ 6 ∷ []) 1 refl (omega arith) (omega arith)
      (omega arith)

mp_sub_dec_lem_example :
    let (res, out) = mp_sub_dec (3 ∷ 5 ∷ []) (nines ∷ 6 ∷ []) 1 in
    (value_dec res + value_dec (nines ∷ 6 ∷ []) + 1 ≡ value_dec (3 ∷ 5 ∷ []) + out * dec_pow 2)
    × All IsDecLimb res
    × (out ≤ 1)
mp_sub_dec_lem_example =
    mp_sub_dec_lem (3 ∷ 5 ∷ []) (nines ∷ 6 ∷ []) 1 refl (omega arith) (omega arith) (omega arith)
