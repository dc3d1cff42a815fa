-- ===== src/Bignum/Limbs/Mul.antt =====
-- Multiplication of limb arrays (cxx/quickjs/libbf.c) is that of their numbers.
use flutter_quickjs.Prelude.{ℕ, suc, ◌+◌, ◌-◌, ◌*◌, ◌/◌, ◌%◌, ◌<◌, ◌≤◌, ◌≡◌, refl, arith}
use flutter_quickjs.Prelude.{List, [], ◌∷◌, ◌++◌, length, length-append, All}
use flutter_quickjs.Bignum.Limbs.{limb_base, mp_mul1, add_mul1_loop, mp_add_mul1, sub_mul1_loop}
use flutter_quickjs.Bignum.Limbs.{mp_sub_mul1, mul_loop, mp_mul_basecase}
use flutter_quickjs.Bignum.Limbs.Value.{value, base_pow, IsLimb}

square_bound : (m x b : ℕ) → x ≤ m → b ≤ m → x * b ≤ m * m
square_bound m x b p q = grind arith

-- The product of two limbs.
limb_product : (x b : ℕ) → IsLimb x → IsLimb b → x * b ≤ (limb_base - 1) * (limb_base - 1)
limb_product x b hx hb = square_bound (limb_base - 1) x b (omega arith) (omega arith)

-- `mp_mul1` multiplies by one limb and adds one; the carry out is a limb.
pub mp_mul1_lem :
    (taba : List ℕ) (b l : ℕ)
    → All IsLimb taba
    → IsLimb b
    → IsLimb l
    → let (res, out) = mp_mul1 taba b l in
      (value res + out * base_pow (length taba) ≡ value taba * b + l)
      × All IsLimb res
      × IsLimb out
      × (length res ≡ length taba)
unfolding mp_mul1
mp_mul1_lem [] b l h hb hl = (omega arith, tt, hl, refl)
mp_mul1_lem (x ∷ taba) b l h hb hl =
    let p = limb_product x b h.0 hb in
    let (e, r, o, n) = mp_mul1_lem taba b ((x * b + l) / limb_base) h.1 hb (omega arith) in
    (omega arith, (omega arith, r), o, omega arith)

add_mul1_loop_lem :
    (tabr taba : List ℕ) (b l : ℕ)
    → length tabr ≡ length taba
    → All IsLimb tabr
    → All IsLimb taba
    → IsLimb b
    → IsLimb l
    → let (res, out) = add_mul1_loop tabr taba b l in
      (value res + out * base_pow (length taba) ≡ value tabr + value taba * b + l)
      × All IsLimb res
      × IsLimb out
      × (length res ≡ length taba)
unfolding add_mul1_loop
add_mul1_loop_lem [] [] b l n hr ha hb hl = (omega arith, tt, hl, refl)
add_mul1_loop_lem [] (x ∷ taba) b l n hr ha hb hl = absurd (omega arith)
add_mul1_loop_lem (r ∷ tabr) [] b l n hr ha hb hl = absurd (omega arith)
add_mul1_loop_lem (r ∷ tabr) (x ∷ taba) b l n hr ha hb hl =
    let p = limb_product x b ha.0 hb in
    let (e, s, o, m) =
      add_mul1_loop_lem tabr taba b ((x * b + l + r) / limb_base) (omega arith) hr.1 ha.1 hb
        (omega arith) in
    (omega arith, (omega arith, s), o, omega arith)

-- `mp_add_mul1` adds a multiple of an array by one limb; the high word that it returns is a limb.
pub mp_add_mul1_lem :
    (tabr taba : List ℕ) (b : ℕ)
    → length tabr ≡ length taba
    → All IsLimb tabr
    → All IsLimb taba
    → IsLimb b
    → let (res, out) = mp_add_mul1 tabr taba b in
      (value res + out * base_pow (length taba) ≡ value tabr + value taba * b)
      × All IsLimb res
      × IsLimb out
      × (length res ≡ length taba)
unfolding mp_add_mul1
mp_add_mul1_lem tabr taba b n hr ha hb =
    let (e, s, o, m) = add_mul1_loop_lem tabr taba b 0 n hr ha hb (omega arith) in
    (omega arith, s, o, m)

-- One round of `mp_sub_mul1` in double words.
sub_mul1_step :
    (r x b l : ℕ)
    → IsLimb r
    → IsLimb x
    → IsLimb b
    → IsLimb l
    → let dbase = limb_base * limb_base in
      let t = (r + dbase + dbase - x * b - l) % dbase in
      let l' = (dbase - t / limb_base) % limb_base in
      (t % limb_base + x * b + l ≡ r + limb_base * l') × (l' < limb_base)
sub_mul1_step r x b l hr hx hb hl = let p = limb_product x b hx hb in (omega arith, omega arith)

sub_mul1_loop_lem :
    (tabr taba : List ℕ) (b l : ℕ)
    → length tabr ≡ length taba
    → All IsLimb tabr
    → All IsLimb taba
    → IsLimb b
    → IsLimb l
    → let (res, out) = sub_mul1_loop tabr taba b l in
      (value res + value taba * b + l ≡ value tabr + out * base_pow (length taba))
      × All IsLimb res
      × IsLimb out
unfolding sub_mul1_loop
sub_mul1_loop_lem [] [] b l n hr ha hb hl = (omega arith, tt, hl)
sub_mul1_loop_lem [] (x ∷ taba) b l n hr ha hb hl = absurd (omega arith)
sub_mul1_loop_lem (r ∷ tabr) [] b l n hr ha hb hl = absurd (omega arith)
sub_mul1_loop_lem (r ∷ tabr) (x ∷ taba) b l n hr ha hb hl =
    let (st, lt) = sub_mul1_step r x b l hr.0 ha.0 hb hl in
    let (e, s, o) = sub_mul1_loop_lem tabr taba b _ (omega arith) hr.1 ha.1 hb lt in
    (omega arith, (omega arith, s), o)

-- `mp_sub_mul1` subtracts a multiple of an array by one limb; what it returns is to be subtracted
-- from the high word, and is a limb.
pub mp_sub_mul1_lem :
    (tabr taba : List ℕ) (b : ℕ)
    → length tabr ≡ length taba
    → All IsLimb tabr
    → All IsLimb taba
    → IsLimb b
    → let (res, out) = mp_sub_mul1 tabr taba b in
      (value res + value taba * b ≡ value tabr + out * base_pow (length taba))
      × All IsLimb res
      × IsLimb out
unfolding mp_sub_mul1
mp_sub_mul1_lem tabr taba b n hr ha hb =
    let (e, s, o) = sub_mul1_loop_lem tabr taba b 0 n hr ha hb (omega arith) in (omega arith, s, o)

value-snoc : (xs : List ℕ) (r : ℕ) → value (xs ++ r ∷ []) ≡ value xs + r * base_pow (length xs)
value-snoc [] r = omega arith
value-snoc (x ∷ xs) r = omega (arith, value-snoc xs r)

All-snoc : (xs : List ℕ) (r : ℕ) → All IsLimb xs → IsLimb r → All IsLimb (xs ++ r ∷ [])
All-snoc [] r h k = (k, tt)
All-snoc (x ∷ xs) r h k = (h.0, All-snoc xs r h.1 k)

mul_loop_lem :
    (op1 op2 res : List ℕ)
    → length res ≡ suc (length op1)
    → All IsLimb op1
    → All IsLimb op2
    → All IsLimb res
    → (value (mul_loop op1 op2 res) ≡ value res + limb_base * (value op1 * value op2))
      × All IsLimb (mul_loop op1 op2 res)
      × (length (mul_loop op1 op2 res) ≡ length res + length op2)
unfolding mul_loop
mul_loop_lem op1 [] res n h1 h2 hr = (omega arith, hr, omega arith)
mul_loop_lem op1 (b ∷ op2) [] n h1 h2 hr = absurd (omega arith)
mul_loop_lem op1 (b ∷ op2) (lo ∷ hi) n h1 h2 hr =
    let (e, l, o, m) = mp_add_mul1_lem hi op1 b (omega arith) hr.1 h1 h2.0 in
    let hi' : List ℕ = (mp_add_mul1 hi op1 b).0 in
    let r : ℕ = (mp_add_mul1 hi op1 b).1 in
    let k = length-append hi' (r ∷ []) in
    let (f, l', m') =
      mul_loop_lem op1 op2 (hi' ++ r ∷ []) (omega arith) h1 h2.1 (All-snoc hi' r l o) in
    let v : value hi' + r * base_pow (length hi') ≡ value hi + value op1 * b = rw m e in
    (omega (arith, value-snoc hi' r), (hr.0, l'), omega arith)

-- `mp_mul_basecase` multiplies: the result stands for the product of the two numbers, its limbs are
-- in range, and it has as many limbs as the operands together.
pub mp_mul_basecase_lem :
    (op1 op2 : List ℕ)
    → 1 ≤ length op2
    → All IsLimb op1
    → All IsLimb op2
    → (value (mp_mul_basecase op1 op2) ≡ value op1 * value op2)
      × All IsLimb (mp_mul_basecase op1 op2)
      × (length (mp_mul_basecase op1 op2) ≡ length op1 + length op2)
unfolding mp_mul_basecase
mp_mul_basecase_lem op1 [] n h1 h2 = absurd (omega arith)
mp_mul_basecase_lem op1 (b ∷ op2) n h1 h2 =
    let (e, l, o, m) = mp_mul1_lem op1 b 0 h1 h2.0 (omega arith) in
    let lo : List ℕ = (mp_mul1 op1 b 0).0 in
    let r : ℕ = (mp_mul1 op1 b 0).1 in
    let k = length-append lo (r ∷ []) in
    let (f, l', m') =
      mul_loop_lem op1 op2 (lo ++ r ∷ []) (omega arith) h1 h2.1 (All-snoc lo r l o) in
    let v : value lo + r * base_pow (length lo) ≡ value op1 * b + 0 = rw m e in
    (omega (arith, value-snoc lo r), l', omega arith)
