-- ===== src/Bignum/Limbs.antt =====
-- The `mp_` functions of cxx/quickjs/libbf.c on arrays of limbs, lowest limb first, with
-- LIMB_BITS = 64. A function that writes an array returns it beside its carry. The loops run over
-- the limbs, so `n` is the length of the arrays; an in-place call gives the same array twice.
pub mod Value
pub mod AddSub
pub mod Mul
pub mod Compare
mod Runs
use flutter_quickjs.Prelude.{ℕ, zero, suc, ◌+◌, ◌-◌, ◌*◌, ◌/◌, ◌%◌, ◌^◌, bit_and, bit_or}
use flutter_quickjs.Prelude.{
  Bool, true, false, ◌||◌, List, [], ◌∷◌, ◌++◌, ltb, leb, ◌==◌, if◌then◌else◌,
}

-- 2^LIMB_BITS, the modulus of `limb_t`.
abbrev pub limb_base : ℕ
limb_base = 2 ^ 64

-- A comparison as the number 0 or 1.
abbrev pub flag : Bool → ℕ
flag true = 1
flag false = 0

-- `a - b` and `a + b` on `limb_t`
abbrev pub sub_limb : ℕ → ℕ → ℕ
sub_limb a b = (a + limb_base - b) % limb_base

abbrev pub add_limb : ℕ → ℕ → ℕ
add_limb a b = (a + b) % limb_base

-- One round of `mp_add`: the limb, and the carry.
unfoldable pub add_step : ℕ → ℕ → ℕ → ℕ × ℕ
add_step v w k =
    let a = add_limb v w in let k1 = ltb a v in let a' = add_limb a k in (a', flag (ltb a' k || k1))

unfoldable pub mp_add : List ℕ → List ℕ → ℕ → List ℕ × ℕ
mp_add (v ∷ op1) (w ∷ op2) k =
    let (a, k') = add_step v w k in let (res, out) = mp_add op1 op2 k' in (a ∷ res, out)
mp_add [] op2 k = ([], k)
mp_add (v ∷ op1) [] k = ([], k)

unfoldable pub mp_add_ui : List ℕ → ℕ → List ℕ × ℕ
mp_add_ui [] k = ([], k)
mp_add_ui (v ∷ tab) k =
    let a = add_limb v k in
    let rest = mp_add_ui tab (flag (ltb a k)) in
    if k == 0 then (v ∷ tab, k) else (a ∷ rest.0, rest.1)

-- One round of `mp_sub`.
unfoldable pub sub_step : ℕ → ℕ → ℕ → ℕ × ℕ
sub_step v w k =
    let a = sub_limb v w in let k1 = ltb v a in let v' = sub_limb a k in (v', flag (ltb a v' || k1))

unfoldable pub mp_sub : List ℕ → List ℕ → ℕ → List ℕ × ℕ
mp_sub (v ∷ op1) (w ∷ op2) k =
    let (a, k') = sub_step v w k in let (res, out) = mp_sub op1 op2 k' in (a ∷ res, out)
mp_sub [] op2 k = ([], k)
mp_sub (v ∷ op1) [] k = ([], k)

unfoldable pub mp_neg : List ℕ → ℕ → List ℕ × ℕ
mp_neg [] k = ([], k)
mp_neg (w ∷ op2) k =
    let (a, k') = sub_step 0 w k in let (res, out) = mp_neg op2 k' in (a ∷ res, out)

unfoldable pub mp_sub_ui : List ℕ → ℕ → List ℕ × ℕ
mp_sub_ui [] k = ([], k)
mp_sub_ui (v ∷ tab) k =
    let a = sub_limb v k in
    let k' = flag (ltb v a) in
    let rest = mp_sub_ui tab k' in if k' == 0 then (a ∷ tab, k') else (a ∷ rest.0, rest.1)

-- The loop of `mp_shr` runs from the highest limb down, and `l` is the limb above: the result is
-- the array and the last limb read, which is the lowest, or `high` if there is none.
unfoldable pub shr_loop : List ℕ → ℕ → ℕ → List ℕ × ℕ
shr_loop [] shift high = ([], high)
shr_loop (a ∷ tab) shift high =
    let (res, l) = shr_loop tab shift high in
    (bit_or (a / 2 ^ shift) ((l * 2 ^ (64 - shift)) % limb_base) ∷ res, a)

unfoldable pub mp_shr : List ℕ → ℕ → ℕ → List ℕ × ℕ
mp_shr tab shift high = let (res, l) = shr_loop tab shift high in (res, bit_and l (2 ^ shift - 1))

unfoldable pub mp_mul1 : List ℕ → ℕ → ℕ → List ℕ × ℕ
mp_mul1 [] b l = ([], l)
mp_mul1 (x ∷ taba) b l =
    let t = x * b + l in
    let (res, out) = mp_mul1 taba b (t / limb_base) in ((t % limb_base) ∷ res, out)

-- The loop of `mp_add_mul1`, which begins at `l = 0`.
unfoldable pub add_mul1_loop : List ℕ → List ℕ → ℕ → ℕ → List ℕ × ℕ
add_mul1_loop (r ∷ tabr) (x ∷ taba) b l =
    let t = x * b + l + r in
    let (res, out) = add_mul1_loop tabr taba b (t / limb_base) in ((t % limb_base) ∷ res, out)
add_mul1_loop [] taba b l = ([], l)
add_mul1_loop (r ∷ tabr) [] b l = ([], l)

unfoldable pub mp_add_mul1 : List ℕ → List ℕ → ℕ → List ℕ × ℕ
mp_add_mul1 tabr taba b = add_mul1_loop tabr taba b 0

-- `dlimb_t` has twice the bits: `t` wraps at `limb_base * limb_base`.
unfoldable pub sub_mul1_loop : List ℕ → List ℕ → ℕ → ℕ → List ℕ × ℕ
sub_mul1_loop (r ∷ tabr) (x ∷ taba) b l =
    let dbase = limb_base * limb_base in
    let t = (r + dbase + dbase - x * b - l) % dbase in
    let (res, out) = sub_mul1_loop tabr taba b ((dbase - t / limb_base) % limb_base) in
    ((t % limb_base) ∷ res, out)
sub_mul1_loop [] taba b l = ([], l)
sub_mul1_loop (r ∷ tabr) [] b l = ([], l)

unfoldable pub mp_sub_mul1 : List ℕ → List ℕ → ℕ → List ℕ × ℕ
mp_sub_mul1 tabr taba b = sub_mul1_loop tabr taba b 0

-- The rounds of `mp_mul_basecase` from the second limb of `op2` on. `lo ∷ hi` is the result from
-- the limb before the one where the round adds; the round extends it by a limb.
unfoldable pub mul_loop : List ℕ → List ℕ → List ℕ → List ℕ
mul_loop op1 [] res = res
mul_loop op1 (b ∷ op2) [] = []
mul_loop op1 (b ∷ op2) (lo ∷ hi) =
    let (hi', r) = mp_add_mul1 hi op1 b in lo ∷ mul_loop op1 op2 (hi' ++ r ∷ [])

unfoldable pub mp_mul_basecase : List ℕ → List ℕ → List ℕ
mp_mul_basecase op1 [] = []
mp_mul_basecase op1 (b ∷ op2) = let (res, r) = mp_mul1 op1 b 0 in mul_loop op1 op2 (res ++ r ∷ [])

-- The result -1, 0 or 1.
pub data Sign : Type 0 where
  less equal greater : Sign

-- The loop of `mp_cmp` runs from the highest limb down, and stops where the limbs differ.
unfoldable pub mp_cmp : List ℕ → List ℕ → Sign
mp_cmp [] tabb = equal
mp_cmp (a ∷ taba) [] = equal
mp_cmp (a ∷ taba) (b ∷ tabb) = elim (mp_cmp taba tabb) [
  | less ↦ less
  | greater ↦ greater
  | equal ↦ if a == b then equal else (if ltb a b then less else greater)
]

unfoldable pub mp_scan_nz : List ℕ → ℕ
mp_scan_nz [] = 0
mp_scan_nz (v ∷ tab) = let rest = mp_scan_nz tab in if v == 0 then rest else 1
