-- ===== src/Regexp/Range/Search.antt =====
-- The binary search of cxx/quickjs/libregexp.c finds the range that holds a character.
use flutter_quickjs.Prelude.{ℕ, zero, suc, ◌+◌, ◌-◌, ◌/◌, ◌%◌, ◌^◌, ◌<◌, ◌≤◌, ◌≡◌, arith}
use flutter_quickjs.Prelude.{Bool, true, false, Option, some, inl, inr, compare-cases, ap, ◌∙◌}
use mathlib.Core.Path.{subst}
use flutter_quickjs.Intervals.{Sorted, Answers, all_below, all_above}
use flutter_quickjs.Regexp.Range.{range_loop}

module _ (read : ℕ → Option (ℕ × ℕ)) (c fuel lo hi : ℕ) where
  loop_ends : hi < lo → range_loop read c (suc fuel) lo hi ≡ some false
  unfolding range_loop
  loop_ends h = ground arith

  module _ (low high : ℕ) (reads : read ((lo + hi) / 2) ≡ some (low, high)) (ordered : lo ≤ hi)
      (small : hi < 2 ^ 16) where
    no_wrap : (lo + hi) % 2 ^ 32 / 2 ≡ (lo + hi) / 2
    no_wrap = omega arith

    loop_left :
        c < low
        → 0 < (lo + hi) / 2
        → range_loop read c (suc fuel) lo hi ≡ range_loop read c fuel lo ((lo + hi) / 2 - 1)
    unfolding range_loop
    loop_left h p =
        let e : ((lo + hi) % 2 ^ 32 / 2 + 2 ^ 32 - 1) % 2 ^ 32 ≡ (lo + hi) / 2 - 1 = omega arith in
        ground (arith, no_wrap, ap (λ (t : ℕ). range_loop read c fuel lo t) e)

    loop_right :
        low ≤ c
        → high < c
        → range_loop read c (suc fuel) lo hi ≡ range_loop read c fuel ((lo + hi) / 2 + 1) hi
    unfolding range_loop
    loop_right h p =
        let e : ((lo + hi) % 2 ^ 32 / 2 + 1) % 2 ^ 32 ≡ (lo + hi) / 2 + 1 = omega arith in
        ground (arith, no_wrap, ap (λ (t : ℕ). range_loop read c fuel t hi) e)

    loop_hit : low ≤ c → c ≤ high → range_loop read c (suc fuel) lo hi ≡ some true
    unfolding range_loop
    loop_hit h p = ground (arith, no_wrap)

module _ (lows highs : ℕ → ℕ) (n : ℕ) where
  module _ (read : ℕ → Option (ℕ × ℕ)) (reads : (i : ℕ) → i < n → read i ≡ some (lows i, highs i))
      (s : Sorted lows highs n) (c : ℕ) (small : n < 2 ^ 16) (first : lows 0 ≤ c) where
    pub range_loop_lem :
        (fuel lo hi : ℕ)
        → hi < n
        → hi + 1 < fuel + lo
        → lo ≤ hi + 1
        → ((i : ℕ) → i < lo → highs i < c)
        → ((i : ℕ) → hi < i → i < n → c < lows i)
        → (b : Bool) × (range_loop read c fuel lo hi ≡ some b) × Answers lows highs n c b
    unfolding range_loop
    range_loop_lem zero lo hi h f l below above = absurd (omega arith)
    range_loop_lem (suc fuel) lo hi h f l below above = elim (compare-cases hi lo) [
      | inl (e, m) ↦ (
        false,
        loop_ends read c fuel lo hi m,
        λ i j. elim (compare-cases i lo) [
          | inl (e', k) ↦ inr (below i k)
          | inr (inl (e', k)) ↦ inl (above i (omega arith) j)
          | inr (inr (e', k)) ↦ inl (above i (omega arith) j)
        ],
      )
      | inr m ↦
          let idx : ℕ = (lo + hi) / 2 in
          let d : idx < n = omega arith in
          elim (compare-cases c (lows idx)) [
            | inl (e, k) ↦
                let z : 0 < idx = elim (compare-cases 0 idx) [
                  | inl (e, g) ↦ g
                  | inr g ↦
                      let o : idx ≡ 0 = omega arith in
                      absurd (omega (arith, subst (λ (t : ℕ). c < lows t) o k))
                ] in
                let (b, p, a) =
                  range_loop_lem fuel lo (idx - 1) (omega arith) (omega arith) (omega arith) below
                    (λ i g j. all_above lows highs n s c idx i j k (omega arith)) in
                (
                  b,
                  loop_left read c fuel lo hi (lows idx) (highs idx) (reads idx d) (omega arith)
                        (omega arith) k z
                      ∙ p,
                  a,
                )
            | inr k ↦ elim (compare-cases (highs idx) c) [
              | inl (e, g) ↦
                  let (b, p, a) =
                    range_loop_lem fuel (idx + 1) hi h (omega arith) (omega arith)
                      (λ i j. all_below lows highs n s c i idx d g (omega arith)) above in
                  (
                    b,
                    loop_right read c fuel lo hi (lows idx) (highs idx) (reads idx d) (omega arith)
                          (omega arith) (omega arith) g
                        ∙ p,
                    a,
                  )
              | inr g ↦ (
                true,
                loop_hit read c fuel lo hi (lows idx) (highs idx) (reads idx d) (omega arith)
                    (omega arith) (omega arith) (omega arith),
                (idx, d, omega arith, omega arith),
              )
            ]
          ]
    ]
