-- ===== src/Bignum/Limbs/Value.antt =====
-- The number that an array of limbs stands for (cxx/quickjs/libbf.c).
use flutter_quickjs.Prelude.{ℕ, zero, suc, ◌+◌, ◌*◌, ◌<◌}
use flutter_quickjs.Prelude.{List, [], ◌∷◌}
use flutter_quickjs.Bignum.Limbs.{limb_base}

abbrev pub value : List ℕ → ℕ
value [] = 0
value (x ∷ xs) = x + limb_base * value xs

-- `limb_base ^ n`
abbrev pub base_pow : ℕ → ℕ
base_pow zero = 1
base_pow (suc n) = limb_base * base_pow n

abbrev pub IsLimb : ℕ → Type 0
IsLimb x = x < limb_base
