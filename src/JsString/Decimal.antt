-- ===== src/JsString/Decimal.antt =====
-- What `is_num_string` of cxx/quickjs/quickjs.c accepts.
use flutter_quickjs.Prelude.{
  ℕ, zero, suc, ◌+◌, ◌-◌, ◌*◌, ◌/◌, ◌%◌, ◌^◌, ◌<◌, ◌≤◌, ◌≡◌, ◌≢◌, ◌↔◌, ◌⊎◌, arith, refl, sym, ap,
  ◌∙◌, none, some, List, [], ◌∷◌, length, All, ◌==◌, if◌then◌else◌, true, false, inl, inr,
  Bool-cases, same_or_other,
}
use mathlib.Core.Path.{subst}
use native.Mathlib.Nat.{pow-suc, pow-le-pow_right}
use flutter_quickjs.JsString.{JsString, units, is_num, num_loop, num_start, is_num_string}

-- `'0'` to `'9'`
abbrev pub IsNum : ℕ → Type 0
IsNum c = (48 ≤ c) × (c ≤ 57)

-- The number that decimal digits continue, the first digit first.
unfoldable pub value : ℕ → List ℕ → ℕ
value n [] = n
value n (c ∷ cs) = value (n * 10 + (c - 48)) cs

-- One digit at least, and `'0'` is not the first of several.
unfoldable pub IsShortest : List ℕ → Type 0
IsShortest [] = ⊥
IsShortest (c ∷ []) = Unit
IsShortest (c ∷ d ∷ cs) = c ≢ 48

-- The characters are the decimal numeral of `v`.
pub record IsDecimal (v : ℕ) (cs : List ℕ) : Type 0 where
  pub digits : All IsNum cs
  pub shortest : IsShortest cs
  pub valued : value 0 cs ≡ v

value_grows : (n : ℕ) (cs : List ℕ) → n ≤ value n cs
unfolding value
value_grows n [] = omega arith
value_grows n (c ∷ cs) = omega (arith, value_grows (n * 10 + (c - 48)) cs)

is_num-IsNum : (c : ℕ) → is_num c ≡ true → IsNum c
unfolding is_num
is_num-IsNum c h = ground arith

IsNum-is_num : (c : ℕ) → IsNum c → is_num c ≡ true
unfolding is_num
IsNum-is_num c h = ground arith

module _ (n c : ℕ) (cs : List ℕ) where
  loop_stops : is_num c ≡ false → num_loop n (c ∷ cs) ≡ none
  unfolding num_loop
  loop_stops h = ground (arith, h)

  loop_goes_on :
      IsNum c → n * 10 + (c - 48) < 2 ^ 32 → num_loop n (c ∷ cs) ≡ num_loop (n * 10 + (c - 48)) cs
  unfolding num_loop
  loop_goes_on d small =
      let good : is_num c ≡ true = IsNum-is_num c d in
      let same : (n * 10 + (c - 48)) % 2 ^ 64 % 2 ^ 32 ≡ n * 10 + (c - 48) = omega arith in
      let low : (n * 10 + (c - 48)) % 2 ^ 64 / 2 ^ 32 ≡ 0 = omega arith in
      rw (num_loop, good, low) (ap (λ (t : ℕ). num_loop t cs) same)

  loop_overflows : n < 2 ^ 32 → IsNum c → 2 ^ 32 ≤ n * 10 + (c - 48) → num_loop n (c ∷ cs) ≡ none
  unfolding num_loop
  loop_overflows small d large = ground (arith, IsNum-is_num c d)

num_loop-value :
    (n : ℕ) (cs : List ℕ) (v : ℕ)
    → n < 2 ^ 32
    → num_loop n cs ≡ some v
    → All IsNum cs × ((value n cs ≡ v) × (v < 2 ^ 32))
unfolding num_loop value
num_loop-value n [] v small e = let same : n ≡ v = cc in (tt, (same, omega arith))
num_loop-value n (c ∷ cs) v small e = elim (Bool-cases (is_num c)) [
  | inr bad ↦ absurd (let stops = loop_stops n c cs bad in cc)
  | inl good ↦
      let d : IsNum c = is_num-IsNum c good in
      let below : (n * 10 + (c - 48) < 2 ^ 32) ⊎ (2 ^ 32 ≤ n * 10 + (c - 48)) = ground arith in
      elim below [
        | inr large ↦ absurd (let stops = loop_overflows n c cs small d large in cc)
        | inl fits ↦
            let (ds, rest) =
              num_loop-value (n * 10 + (c - 48)) cs v fits (sym (loop_goes_on n c cs d fits) ∙ e) in
            ((d, ds), rest)
      ]
]

value-num_loop :
    (n : ℕ) (cs : List ℕ) → All IsNum cs → value n cs < 2 ^ 32 → num_loop n cs ≡ some (value n cs)
unfolding value num_loop
value-num_loop n [] ds small = refl
value-num_loop n (c ∷ cs) (d, ds) small =
    let fits : n * 10 + (c - 48) < 2 ^ 32 = omega (arith, value_grows (n * 10 + (c - 48)) cs) in
    loop_goes_on n c cs d fits ∙ value-num_loop (n * 10 + (c - 48)) cs ds small

scaled : (n d p : ℕ) → (n * 10 + d) * p ≡ n * (p * 10) + d * p
scaled n d p = grind arith

-- Each digit after `n` makes it ten times as large at least.
value_scales : (n : ℕ) (cs : List ℕ) → n * 10 ^ length cs ≤ value n cs
unfolding value
value_scales n [] = omega arith
value_scales n (c ∷ cs) =
    let more : (n * 10 + (c - 48)) * 10 ^ length cs
        ≡ n * 10 ^ suc (length cs) + (c - 48) * 10 ^ length cs =
      scaled n (c - 48) (10 ^ length cs)
      ∙ ap (λ (t : ℕ). n * t + (c - 48) * 10 ^ length cs) (sym (pow-suc 10 (length cs))) in
    omega (arith, value_scales (n * 10 + (c - 48)) cs, more)

few_digits : (n : ℕ) (cs : List ℕ) → 1 ≤ n → value n cs < 2 ^ 32 → length cs < 10
few_digits n cs h small =
    let below : (length cs < 10) ⊎ (10 ≤ length cs) = ground arith in
    elim below [
      | inl few ↦ few
      | inr many ↦ absurd (
          omega (
            arith,
            value_scales n cs,
            pow-le-pow_right {n = 10} (omega arith) many,
            one_times n (10 ^ length cs) h,
          ))
    ]
  where
    one_times : (a b : ℕ) → 1 ≤ a → b ≤ a * b
    one_times (suc a) b h = omega arith
    one_times zero b h = absurd (omega arith)

module _ (c : ℕ) (cs : List ℕ) where
  start_refuses : is_num c ≡ false → num_start (c ∷ cs) ≡ none
  unfolding num_start
  start_refuses bad = ground (arith, bad)

  start_counts : IsNum c → c ≢ 48 → num_start (c ∷ cs) ≡ num_loop (c - 48) cs
  unfolding num_start
  start_counts d h =
      let good : is_num c ≡ true = IsNum-is_num c d in
      let other : (c == 48) ≡ false = ground (arith, h) in rw (num_start, good, other)

  zero_alone : c ≡ 48 → num_start (c ∷ cs) ≡ (if length cs == 0 then some 0 else none)
  unfolding num_start is_num
  zero_alone h = ground (arith, h)

  first_digit : value 0 (c ∷ cs) ≡ value (c - 48) cs
  unfolding value
  first_digit = let e : 0 * 10 + (c - 48) ≡ c - 48 = omega arith in ap (λ (t : ℕ). value t cs) e

-- A first digit that is not 0.
IsShortest-above : (c : ℕ) (cs : List ℕ) → c ≢ 48 → IsShortest (c ∷ cs)
unfolding IsShortest
IsShortest-above c [] h = tt
IsShortest-above c (d ∷ cs) h = h

accepted_zero :
    (cs : List ℕ) (v : ℕ) → num_start (48 ∷ cs) ≡ some v → IsDecimal v (48 ∷ cs) × (v < 2 ^ 32)
unfolding IsShortest value
accepted_zero [] v e =
    let same : 0 ≡ v = let t = zero_alone 48 [] refl in ground arith in
    (
      record { digits = ((omega arith, omega arith), tt); shortest = tt; valued = same },
      omega arith,
    )
accepted_zero (d ∷ cs) v e = absurd (let t = zero_alone 48 (d ∷ cs) refl in ground arith)

accepted : (cs : List ℕ) (v : ℕ) → num_start cs ≡ some v → IsDecimal v cs × (v < 2 ^ 32)
unfolding num_start value
accepted [] v e = absurd cc
accepted (c ∷ cs) v e = elim (Bool-cases (is_num c)) [
  | inr bad ↦ absurd (let refused = start_refuses c cs bad in cc)
  | inl good ↦ elim (same_or_other c 48) [
    | inl h ↦
        subst (λ (t : ℕ). IsDecimal v (t ∷ cs) × (v < 2 ^ 32)) (sym h)
          (accepted_zero cs v (subst (λ (t : ℕ). num_start (t ∷ cs) ≡ some v) h e))
    | inr h ↦
        let d : IsNum c = is_num-IsNum c good in
        let (ds, (same, small)) =
          num_loop-value (c - 48) cs v (omega arith) (sym (start_counts c cs d h) ∙ e) in
        (
          record {
            digits = (d, ds);
            shortest = IsShortest-above c cs h;
            valued = first_digit c cs ∙ same;
          },
          small,
        )
  ]
]

refused_long : (d : ℕ) (cs : List ℕ) → IsShortest (48 ∷ d ∷ cs) → ⊥
unfolding IsShortest
refused_long d cs h = h refl

found_zero :
    (cs : List ℕ) (v : ℕ)
    → IsDecimal v (48 ∷ cs)
    → (num_start (48 ∷ cs) ≡ some v) × (length (48 ∷ cs) ≤ 10)
unfolding value
found_zero [] v dec = (zero_alone 48 [] refl ∙ ap (λ (t : ℕ). some t) dec.valued, omega arith)
found_zero (d ∷ cs) v dec = absurd (refused_long d cs dec.shortest)

found :
    (cs : List ℕ) (v : ℕ)
    → IsDecimal v cs
    → v < 2 ^ 32
    → (num_start cs ≡ some v) × ((1 ≤ length cs) × (length cs ≤ 10))
unfolding IsShortest value
found [] v dec small = absurd (dec.shortest)
found (c ∷ cs) v dec small = elim (same_or_other c 48) [
  | inl h ↦
      let (e, few) = found_zero cs v (subst (λ (t : ℕ). IsDecimal v (t ∷ cs)) h dec) in
      (subst (λ (t : ℕ). num_start (t ∷ cs) ≡ some v) (sym h) e, (omega arith, few))
  | inr h ↦
      let (d, ds) = dec.digits in
      let fits : value (c - 48) cs < 2 ^ 32 = omega (arith, dec.valued, first_digit c cs) in
      (
        start_counts c cs d h
            ∙ value-num_loop (c - 48) cs ds fits
            ∙ ap (λ (t : ℕ). some t) (sym (first_digit c cs) ∙ dec.valued),
        (omega arith, omega (arith, few_digits (c - 48) cs (omega arith) fits)),
      )
]

-- `is_num_string` returns TRUE with `v` exactly for the decimal numeral of a `v` below 2^32 that has
-- no zero before it, in 8 or in 16 bits.
pub is_num_string-IsDecimal :
    (p : JsString) (v : ℕ) → (is_num_string p ≡ some v) ↔ (IsDecimal v (units p) × (v < 2 ^ 32))
unfolding is_num_string
is_num_string-IsDecimal p v = (forth, back)
  where
    forth : is_num_string p ≡ some v → IsDecimal v (units p) × (v < 2 ^ 32)
    forth e = accepted (units p) v (ground arith)

    back : IsDecimal v (units p) × (v < 2 ^ 32) → is_num_string p ≡ some v
    back (dec, small) = let (e, (some_digits, few)) = found (units p) v dec small in ground arith
