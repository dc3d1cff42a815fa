-- ===== src/Bignum/Limbs/Runs.antt =====
-- Runs of the limb functions, and the theorems at concrete inputs.
use flutter_quickjs.Prelude.{ℕ, ◌+◌, ◌-◌, ◌*◌, ◌≤◌, ◌≡◌, refl, [], ◌∷◌, length, All, arith}
use flutter_quickjs.Bignum.Limbs.{limb_base, mp_add, add_step, mp_sub}
use flutter_quickjs.Bignum.Limbs.{mp_mul1, mp_sub_mul1, mp_mul_basecase, mp_cmp}
use flutter_quickjs.Bignum.Limbs.{mul_loop}
use flutter_quickjs.Bignum.Limbs.Value.{value, base_pow, IsLimb}
use flutter_quickjs.Bignum.Limbs.AddSub.{mp_add_lem, mp_sub_lem}
use flutter_quickjs.Bignum.Limbs.Mul.{mp_sub_mul1_lem, mp_mul_basecase_lem}
use flutter_quickjs.Bignum.Limbs.Compare.{Compares, mp_cmp-Compares}

abbrev top : ℕ
top = limb_base - 1

carry_over : mp_add (top ∷ 0 ∷ []) (1 ∷ 0 ∷ []) 0 ≡ (0 ∷ 1 ∷ [], 0)
unfolding mp_add add_step
carry_over = refl

square_of_top : mp_mul_basecase (top ∷ top ∷ []) (top ∷ []) ≡ 1 ∷ top ∷ (top - 1) ∷ []
unfolding mp_mul_basecase mul_loop mp_mul1
square_of_top = refl

mp_add_lem_example :
    let (res, out) = mp_add (top ∷ 5 ∷ []) (top ∷ 6 ∷ []) 1 in
    (value res + out * base_pow 2 ≡ value (top ∷ 5 ∷ []) + value (top ∷ 6 ∷ []) + 1)
    × All IsLimb res
    × (out ≤ 1)
mp_add_lem_example =
    mp_add_lem (top ∷ 5 ∷ []) (top ∷ 6 ∷ []) 1 refl (omega arith) (omega arith) (omega arith)

mp_sub_lem_example :
    let (res, out) = mp_sub (3 ∷ 5 ∷ []) (top ∷ 6 ∷ []) 1 in
    (value res + value (top ∷ 6 ∷ []) + 1 ≡ value (3 ∷ 5 ∷ []) + out * base_pow 2)
    × All IsLimb res
    × (out ≤ 1)
mp_sub_lem_example =
    mp_sub_lem (3 ∷ 5 ∷ []) (top ∷ 6 ∷ []) 1 refl (omega arith) (omega arith) (omega arith)

mp_sub_mul1_lem_example :
    let (res, out) = mp_sub_mul1 (3 ∷ 5 ∷ []) (top ∷ top ∷ []) top in
    (value res + value (top ∷ top ∷ []) * top ≡ value (3 ∷ 5 ∷ []) + out * base_pow 2)
    × All IsLimb res
    × IsLimb out
mp_sub_mul1_lem_example =
    mp_sub_mul1_lem (3 ∷ 5 ∷ []) (top ∷ top ∷ []) top refl (omega arith) (omega arith) (omega arith)

mp_mul_basecase_lem_example :
    (value (mp_mul_basecase (top ∷ 2 ∷ []) (top ∷ 3 ∷ []))
      ≡ value (top ∷ 2 ∷ []) * value (top ∷ 3 ∷ []))
    × All IsLimb (mp_mul_basecase (top ∷ 2 ∷ []) (top ∷ 3 ∷ []))
    × (length (mp_mul_basecase (top ∷ 2 ∷ []) (top ∷ 3 ∷ [])) ≡ 2 + 2)
mp_mul_basecase_lem_example =
    mp_mul_basecase_lem (top ∷ 2 ∷ []) (top ∷ 3 ∷ []) (omega arith) (omega arith) (omega arith)

mp_cmp-Compares_example : Compares (top ∷ 5 ∷ []) (3 ∷ 6 ∷ []) (mp_cmp (top ∷ 5 ∷ []) (3 ∷ 6 ∷ []))
mp_cmp-Compares_example =
    mp_cmp-Compares (top ∷ 5 ∷ []) (3 ∷ 6 ∷ []) refl (omega arith) (omega arith)
