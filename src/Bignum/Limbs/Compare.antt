-- ===== src/Bignum/Limbs/Compare.antt =====
-- Comparison of limb arrays (cxx/quickjs/libbf.c) is that of their numbers.
use flutter_quickjs.Prelude.{ℕ, ◌<◌, ◌≡◌, refl, ap, arith, List, [], ◌∷◌, length, All}
use flutter_quickjs.Prelude.{ltb, ◌==◌, if◌then◌else◌}
use flutter_quickjs.Bignum.Limbs.{Sign, less, equal, greater, mp_cmp}
use flutter_quickjs.Bignum.Limbs.Value.{value, IsLimb}

-- What each result of a comparison says of the two arrays.
abbrev pub Compares : List ℕ → List ℕ → Sign → Type 0
Compares a b less = value a < value b
Compares a b equal = a ≡ b
Compares a b greater = value b < value a

compare_step :
    (a b : ℕ) (xs ys : List ℕ) (s : Sign)
    → IsLimb a
    → IsLimb b
    → Compares xs ys s
    → Compares (a ∷ xs) (b ∷ ys) (elim s [
      | less ↦ less
      | greater ↦ greater
      | equal ↦ if a == b then equal else (if ltb a b then less else greater)
    ])
compare_step a b xs ys less ha hb h = omega arith
compare_step a b xs ys greater ha hb h = omega arith
compare_step a b xs ys equal ha hb h = ground (arith, ap value h)

-- `mp_cmp` compares the numbers of two arrays of one length: it answers -1 or 1 as the first is the
-- smaller or the greater, and 0 only if the arrays are the same.
pub mp_cmp-Compares :
    (taba tabb : List ℕ)
    → length taba ≡ length tabb
    → All IsLimb taba
    → All IsLimb tabb
    → Compares taba tabb (mp_cmp taba tabb)
unfolding mp_cmp
mp_cmp-Compares [] [] e ha hb = refl
mp_cmp-Compares [] (b ∷ tabb) e ha hb = absurd (omega arith)
mp_cmp-Compares (a ∷ taba) [] e ha hb = absurd (omega arith)
mp_cmp-Compares (a ∷ taba) (b ∷ tabb) e ha hb =
    compare_step a b taba tabb (mp_cmp taba tabb) ha.0 hb.0
      (mp_cmp-Compares taba tabb (omega arith) ha.1 hb.1)
