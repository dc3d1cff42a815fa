-- ===== src/Bignum/Limbs/AddSub.antt =====
-- Addition and subtraction of limb arrays (cxx/quickjs/libbf.c) are those of their numbers.
use flutter_quickjs.Prelude.{ℕ, ◌+◌, ◌*◌, ◌<◌, ◌≤◌, ◌≡◌, arith}
use flutter_quickjs.Prelude.{List, [], ◌∷◌, length, All, ltb, ◌==◌, ==_iff, Bool-cases, inl, inr}
use flutter_quickjs.Bignum.Limbs.{
  flag, limb_base, add_limb, sub_limb, add_step, sub_step, mp_add, mp_sub, mp_neg, mp_add_ui,
  mp_sub_ui,
}
use flutter_quickjs.Bignum.Limbs.Value.{value, base_pow, IsLimb}

-- One round keeps the sum, with a carry that is 0 or 1.
add_step_lem :
    (v w k : ℕ)
    → IsLimb v
    → IsLimb w
    → k ≤ 1
    → let (a, k') = add_step v w k in (a + limb_base * k' ≡ v + w + k) × (a < limb_base) × (k' ≤ 1)
unfolding add_step
add_step_lem v w k hv hw hk = ground arith

sub_step_lem :
    (v w k : ℕ)
    → IsLimb v
    → IsLimb w
    → k ≤ 1
    → let (a, k') = sub_step v w k in (a + w + k ≡ v + limb_base * k') × (a < limb_base) × (k' ≤ 1)
unfolding sub_step
sub_step_lem v w k hv hw hk = ground arith

-- `mp_add` adds the numbers and the carry: the limbs of the result and the carry out make up the
-- exact sum. The limbs are in range, and the carry is 0 or 1.
pub mp_add_lem :
    (op1 op2 : List ℕ) (k : ℕ)
    → length op1 ≡ length op2
    → All IsLimb op1
    → All IsLimb op2
    → k ≤ 1
    → let (res, out) = mp_add op1 op2 k in
      (value res + out * base_pow (length op1) ≡ value op1 + value op2 + k)
      × All IsLimb res
      × (out ≤ 1)
unfolding mp_add
mp_add_lem [] [] k e h1 h2 hk = (omega arith, tt, hk)
mp_add_lem [] (w ∷ op2) k e h1 h2 hk = absurd (omega arith)
mp_add_lem (v ∷ op1) [] k e h1 h2 hk = absurd (omega arith)
mp_add_lem (v ∷ op1) (w ∷ op2) k e h1 h2 hk =
    let (s, b, c) = add_step_lem v w k h1.0 h2.0 hk in
    let (r, l, o) = mp_add_lem op1 op2 (add_step v w k).1 (omega arith) h1.1 h2.1 c in
    (omega arith, (b, l), o)

-- `mp_sub` subtracts the second number and the borrow: the result, less what the borrow out lends,
-- is the exact difference. The limbs are in range, and the borrow is 0 or 1.
pub mp_sub_lem :
    (op1 op2 : List ℕ) (k : ℕ)
    → length op1 ≡ length op2
    → All IsLimb op1
    → All IsLimb op2
    → k ≤ 1
    → let (res, out) = mp_sub op1 op2 k in
      (value res + value op2 + k ≡ value op1 + out * base_pow (length op1))
      × All IsLimb res
      × (out ≤ 1)
unfolding mp_sub
mp_sub_lem [] [] k e h1 h2 hk = (omega arith, tt, hk)
mp_sub_lem [] (w ∷ op2) k e h1 h2 hk = absurd (omega arith)
mp_sub_lem (v ∷ op1) [] k e h1 h2 hk = absurd (omega arith)
mp_sub_lem (v ∷ op1) (w ∷ op2) k e h1 h2 hk =
    let (s, b, c) = sub_step_lem v w k h1.0 h2.0 hk in
    let (r, l, o) = mp_sub_lem op1 op2 (sub_step v w k).1 (omega arith) h1.1 h2.1 c in
    (omega arith, (b, l), o)

-- `mp_neg` is `mp_sub` from zero.
pub mp_neg_lem :
    (op2 : List ℕ) (k : ℕ)
    → All IsLimb op2
    → k ≤ 1
    → let (res, out) = mp_neg op2 k in
      (value res + value op2 + k ≡ out * base_pow (length op2)) × All IsLimb res × (out ≤ 1)
unfolding mp_neg
mp_neg_lem [] k h hk = (omega arith, tt, hk)
mp_neg_lem (w ∷ op2) k h hk =
    let (s, b, c) = sub_step_lem 0 w k (omega arith) h.0 hk in
    let (r, l, o) = mp_neg_lem op2 (sub_step 0 w k).1 h.1 c in (omega arith, (b, l), o)

add_ui_step :
    (v k : ℕ)
    → IsLimb v
    → IsLimb k
    → let a = add_limb v k in
      let k' = flag (ltb a k) in (a + limb_base * k' ≡ v + k) × (a < limb_base) × (k' ≤ 1)
add_ui_step v k hv hk = ground arith

sub_ui_step :
    (v k : ℕ)
    → IsLimb v
    → IsLimb k
    → let a = sub_limb v k in
      let k' = flag (ltb v a) in (a + k ≡ v + limb_base * k') × (a < limb_base) × (k' ≤ 1)
sub_ui_step v k hv hk = ground arith

-- `mp_add_ui` adds one limb, and stops where no carry is left.
pub mp_add_ui_lem :
    (tab : List ℕ) (b : ℕ)
    → All IsLimb tab
    → IsLimb b
    → let (res, out) = mp_add_ui tab b in
      (value res + out * base_pow (length tab) ≡ value tab + b) × All IsLimb res × (IsLimb out)
unfolding mp_add_ui
mp_add_ui_lem [] k h hk = (omega arith, tt, hk)
mp_add_ui_lem (v ∷ tab) k h hk = elim (Bool-cases (k == 0)) [
  | inl e ↦ let z : k ≡ 0 = ground arith in rw z (omega (arith, h.0), h, omega arith)
  | inr e ↦
      let (s, b, c) = add_ui_step v k h.0 hk in
      let (r, l, o) = mp_add_ui_lem tab (flag (ltb (add_limb v k) k)) h.1 (omega arith) in
      rw e (omega arith, (b, l), o)
]

-- `mp_sub_ui` subtracts one limb, and stops where no borrow is left.
pub mp_sub_ui_lem :
    (tab : List ℕ) (b : ℕ)
    → All IsLimb tab
    → IsLimb b
    → let (res, out) = mp_sub_ui tab b in
      (value res + b ≡ value tab + out * base_pow (length tab)) × All IsLimb res × (IsLimb out)
unfolding mp_sub_ui
mp_sub_ui_lem [] k h hk = (omega arith, tt, hk)
mp_sub_ui_lem (v ∷ tab) k h hk =
    let (s, b, c) = sub_ui_step v k h.0 hk in
    elim (Bool-cases (flag (ltb v (sub_limb v k)) == 0)) [
      | inl e ↦
          let z : flag (ltb v (sub_limb v k)) ≡ 0 = (==_iff _ 0).0 e in
          rw z (omega arith, (b, h.1), omega arith)
      | inr e ↦
          let (r, l, o) = mp_sub_ui_lem tab (flag (ltb v (sub_limb v k))) h.1 (omega arith) in
          rw e (omega arith, (b, l), o)
    ]
