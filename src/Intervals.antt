-- ===== src/Intervals.antt =====
-- Tables of closed intervals, which the binary searches of cxx/quickjs/libregexp.c and libunicode.c
-- look through.
use flutter_quickjs.Prelude.{
  ℕ, zero, suc, ◌+◌, ◌-◌, ◌<◌, ◌≤◌, ◌≡◌, arith, Bool, true, false, ◌⊎◌, inl, inr, compare-cases,
  sym,
}
use mathlib.Core.Path.{subst}

module _ (lows highs : ℕ → ℕ) (n : ℕ) where
  -- The ranges are not empty, rise, and do not meet.
  abbrev pub Sorted : Type 0
  Sorted = ((i : ℕ) → i < n → lows i ≤ highs i) × ((i : ℕ) → suc i < n → highs i < lows (suc i))

  -- What an answer means: a range that holds `c`, or none that does.
  abbrev pub Answers : ℕ → Bool → Type 0
  Answers c true = (i : ℕ) × (i < n) × (lows i ≤ c) × (c ≤ highs i)
  Answers c false = (i : ℕ) → i < n → (c < lows i) ⊎ (highs i < c)

  high_below : Sorted → (i d : ℕ) → suc i + d < n → highs i < lows (suc i + d)
  high_below s i zero h =
      let e : suc i ≡ suc i + 0 = omega arith in
      subst (λ (t : ℕ). highs i < lows t) e (s.1 i (omega arith))
  high_below s i (suc d) h =
      let e : suc (suc i + d) ≡ suc i + suc d = omega arith in
      let k : highs (suc i + d) < lows (suc (suc i + d)) = s.1 (suc i + d) (omega arith) in
      subst (λ (t : ℕ). highs i < lows t) e
        (omega (arith, high_below s i d (omega arith), s.0 (suc i + d) (omega arith), k))

  pub high_before : Sorted → (i j : ℕ) → j < n → i < j → highs i < lows j
  high_before s i j h k =
      let e : suc i + (j - suc i) ≡ j = omega arith in
      subst (λ (t : ℕ). highs i < lows t) e (high_below s i (j - suc i) (rw e h))

  -- The ranges before one that lies below `c` lie below it, and those after one above are above.
  pub all_below : Sorted → (c i j : ℕ) → j < n → highs j < c → i ≤ j → highs i < c
  all_below s c i j h k l = elim (compare-cases i j) [
    | inl (e, m) ↦ omega (arith, high_before s i j h m, s.0 j h)
    | inr (inl (e, m)) ↦ rw m k
    | inr (inr (e, m)) ↦ absurd (omega arith)
  ]

  pub all_above : Sorted → (c i j : ℕ) → j < n → c < lows i → i ≤ j → c < lows j
  all_above s c i j h k l = elim (compare-cases i j) [
    | inl (e, m) ↦ omega (arith, high_before s i j h m, s.0 i (omega arith))
    | inr (inl (e, m)) ↦ rw (sym m) k
    | inr (inr (e, m)) ↦ absurd (omega arith)
  ]
