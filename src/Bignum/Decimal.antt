-- ===== src/Bignum/Decimal.antt =====
-- The `mp_..._dec` functions of cxx/quickjs/libbf.c on arrays of decimal limbs, lowest limb first.
-- A decimal limb is below BF_DEC_BASE = 10^19, and is computed with as a `limb_t` of 64 bits.
mod Runs
use flutter_quickjs.Prelude.{ℕ, zero, suc, ◌+◌, ◌-◌, ◌*◌, ◌%◌, ◌^◌, ◌<◌, ◌≤◌, ◌≡◌, arith}
use flutter_quickjs.Prelude.{List, [], ◌∷◌, length, All, ltb, leb, ◌==◌, if◌then◌else◌}
use flutter_quickjs.Prelude.{Bool-cases, ==_iff, inl, inr}
use flutter_quickjs.Bignum.Limbs.{limb_base, flag, sub_limb, add_limb}

abbrev pub dec_base : ℕ
dec_base = 10 ^ 19

-- One round of `mp_add_dec`: `a = v + w + k - base; k = a <= v; if (!k) a += base;`.
unfoldable pub add_dec_step : ℕ → ℕ → ℕ → ℕ × ℕ
add_dec_step v w k =
    let a = (v + w + k + limb_base - dec_base) % limb_base in
    ((if leb a v then a else add_limb a dec_base), flag (leb a v))

unfoldable pub mp_add_dec : List ℕ → List ℕ → ℕ → List ℕ × ℕ
mp_add_dec (v ∷ op1) (w ∷ op2) k =
    let (a, k') = add_dec_step v w k in let (res, out) = mp_add_dec op1 op2 k' in (a ∷ res, out)
mp_add_dec [] op2 k = ([], k)
mp_add_dec (v ∷ op1) [] k = ([], k)

unfoldable pub mp_add_ui_dec : List ℕ → ℕ → List ℕ × ℕ
mp_add_ui_dec [] k = ([], k)
mp_add_ui_dec (v ∷ tab) k =
    let (a, k') = add_dec_step v 0 k in
    let rest = mp_add_ui_dec tab k' in if k' == 0 then (a ∷ tab, k') else (a ∷ rest.0, rest.1)

-- One round of `mp_sub_dec`: `a = v - w - k; k = a > v; if (k) a += base;`.
unfoldable pub sub_dec_step : ℕ → ℕ → ℕ → ℕ × ℕ
sub_dec_step v w k =
    let a = sub_limb (sub_limb v w) k in
    ((if ltb v a then add_limb a dec_base else a), flag (ltb v a))

unfoldable pub mp_sub_dec : List ℕ → List ℕ → ℕ → List ℕ × ℕ
mp_sub_dec (v ∷ op1) (w ∷ op2) k =
    let (a, k') = sub_dec_step v w k in let (res, out) = mp_sub_dec op1 op2 k' in (a ∷ res, out)
mp_sub_dec [] op2 k = ([], k)
mp_sub_dec (v ∷ op1) [] k = ([], k)

unfoldable pub mp_sub_ui_dec : List ℕ → ℕ → List ℕ × ℕ
mp_sub_ui_dec [] k = ([], k)
mp_sub_ui_dec (v ∷ tab) k =
    let (a, k') = sub_dec_step v 0 k in
    let rest = mp_sub_ui_dec tab k' in if k' == 0 then (a ∷ tab, k') else (a ∷ rest.0, rest.1)

-- The number that an array of decimal limbs stands for, and the powers of the base.
abbrev pub value_dec : List ℕ → ℕ
value_dec [] = 0
value_dec (x ∷ xs) = x + dec_base * value_dec xs

abbrev pub dec_pow : ℕ → ℕ
dec_pow zero = 1
dec_pow (suc n) = dec_base * dec_pow n

abbrev pub IsDecLimb : ℕ → Type 0
IsDecLimb x = x < dec_base

add_dec_step_lem :
    (v w k : ℕ)
    → IsDecLimb v
    → IsDecLimb w
    → k ≤ 1
    → let (a, k') = add_dec_step v w k in
      (a + dec_base * k' ≡ v + w + k) × (a < dec_base) × (k' ≤ 1)
unfolding add_dec_step
add_dec_step_lem v w k hv hw hk = ground arith

add_ui_dec_step_lem :
    (v k : ℕ)
    → IsDecLimb v
    → IsDecLimb k
    → let (a, k') = add_dec_step v 0 k in (a + dec_base * k' ≡ v + k) × (a < dec_base) × (k' ≤ 1)
unfolding add_dec_step
add_ui_dec_step_lem v k hv hk = ground arith

sub_dec_step_lem :
    (v w k : ℕ)
    → IsDecLimb v
    → IsDecLimb w
    → k ≤ 1
    → let (a, k') = sub_dec_step v w k in
      (a + w + k ≡ v + dec_base * k') × (a < dec_base) × (k' ≤ 1)
unfolding sub_dec_step
sub_dec_step_lem v w k hv hw hk = ground arith

sub_ui_dec_step_lem :
    (v k : ℕ)
    → IsDecLimb v
    → IsDecLimb k
    → let (a, k') = sub_dec_step v 0 k in (a + k ≡ v + dec_base * k') × (a < dec_base) × (k' ≤ 1)
unfolding sub_dec_step
sub_ui_dec_step_lem v k hv hk = ground arith

-- `mp_add_dec` adds the numbers and the carry, although a sum of two decimal limbs wraps a `limb_t`:
-- the limbs and the carry out make up the exact sum, the limbs are in range, and the carry is 0 or 1.
pub mp_add_dec_lem :
    (op1 op2 : List ℕ) (k : ℕ)
    → length op1 ≡ length op2
    → All IsDecLimb op1
    → All IsDecLimb op2
    → k ≤ 1
    → let (res, out) = mp_add_dec op1 op2 k in
      (value_dec res + out * dec_pow (length op1) ≡ value_dec op1 + value_dec op2 + k)
      × All IsDecLimb res
      × (out ≤ 1)
unfolding mp_add_dec
mp_add_dec_lem [] [] k e h1 h2 hk = (omega arith, tt, hk)
mp_add_dec_lem [] (w ∷ op2) k e h1 h2 hk = absurd (omega arith)
mp_add_dec_lem (v ∷ op1) [] k e h1 h2 hk = absurd (omega arith)
mp_add_dec_lem (v ∷ op1) (w ∷ op2) k e h1 h2 hk =
    let (s, b, c) = add_dec_step_lem v w k h1.0 h2.0 hk in
    let (r, l, o) = mp_add_dec_lem op1 op2 (add_dec_step v w k).1 (omega arith) h1.1 h2.1 c in
    (omega arith, (b, l), o)

-- `mp_sub_dec` subtracts the second number and the borrow: the result, less what the borrow out
-- lends, is the exact difference, the limbs are in range, and the borrow is 0 or 1.
pub mp_sub_dec_lem :
    (op1 op2 : List ℕ) (k : ℕ)
    → length op1 ≡ length op2
    → All IsDecLimb op1
    → All IsDecLimb op2
    → k ≤ 1
    → let (res, out) = mp_sub_dec op1 op2 k in
      (value_dec res + value_dec op2 + k ≡ value_dec op1 + out * dec_pow (length op1))
      × All IsDecLimb res
      × (out ≤ 1)
unfolding mp_sub_dec
mp_sub_dec_lem [] [] k e h1 h2 hk = (omega arith, tt, hk)
mp_sub_dec_lem [] (w ∷ op2) k e h1 h2 hk = absurd (omega arith)
mp_sub_dec_lem (v ∷ op1) [] k e h1 h2 hk = absurd (omega arith)
mp_sub_dec_lem (v ∷ op1) (w ∷ op2) k e h1 h2 hk =
    let (s, b, c) = sub_dec_step_lem v w k h1.0 h2.0 hk in
    let (r, l, o) = mp_sub_dec_lem op1 op2 (sub_dec_step v w k).1 (omega arith) h1.1 h2.1 c in
    (omega arith, (b, l), o)
