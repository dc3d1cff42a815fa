-- ===== src/Regexp/Range/Lookup.antt =====
-- What cxx/quickjs/libregexp.c answers for a character: whether it is in the set.
use flutter_quickjs.Prelude.{ℕ, zero, suc, ◌-◌, ◌^◌, ◌<◌, ◌≤◌, ◌≡◌, refl, sym, arith}
use flutter_quickjs.Prelude.{Bool, true, false, not, List, [], ◌∷◌, ◌⊎◌, inl, inr, compare-cases}
use flutter_quickjs.Prelude.{◌∙◌}
use flutter_quickjs.Regexp.Range.{high_code}
use flutter_quickjs.Intervals.{Answers}
use flutter_quickjs.Regexp.Range.Table.{
  pairs, low_of, high_of, Narrow, table_rises, table_low-Narrow,
}
use flutter_quickjs.Unicode.CharRange.Members.{inside, StrictlyRises, even_length}

inside_under : (pt : List ℕ) (lo c : ℕ) → StrictlyRises lo pt → c < lo → inside pt c ≡ false
unfolding inside
inside_under [] lo c r h = refl
inside_under (p ∷ pt) lo c r h = ground (arith, inside_under pt (suc p) c r.1)

inside_within :
    (a b c : ℕ) (pt : List ℕ)
    → StrictlyRises (suc b) pt
    → a ≤ c
    → c < b
    → inside (a ∷ b ∷ pt) c ≡ true
unfolding inside
inside_within a b c pt r h k = ground (arith, inside_under pt (suc b) c r)

inside_past : (a b c : ℕ) (pt : List ℕ) → a < b → b ≤ c → inside (a ∷ b ∷ pt) c ≡ inside pt c
unfolding inside
inside_past a b c pt h k = ground arith

-- The last upper bound holds all characters from 0xffff on, if it is coded as 0xffff.
pub inside_unbounded :
    (pts : List ℕ) (lo i c : ℕ)
    → StrictlyRises lo pts
    → Narrow pts
    → i < pairs pts
    → high_of pts i ≡ 0xffff
    → 0xffff ≤ c
    → c < 2 ^ 32 - 1
    → inside pts c ≡ true
unfolding pairs high_of high_code
inside_unbounded [] lo i c r n h e k m = absurd (omega arith)
inside_unbounded (a ∷ []) lo i c r n h e k m = absurd (omega arith)
inside_unbounded (a ∷ b ∷ pt) lo zero c r n h e k m =
    let (ra, (rb, rt)) = r in
    let f : b ≡ 2 ^ 32 - 1 = ground arith in
    inside_within a b c pt rt (omega (arith, n.0)) (omega arith)
inside_unbounded (a ∷ b ∷ pt) lo (suc i) c r n h e k m =
    let (ra, (rb, rt)) = r in
    let later = table_rises pt (suc b) 0 rt (omega arith) in
    let least = table_low-Narrow pt 0 n.2 (omega arith) in
    inside_past a b c pt (omega arith) (omega arith)
    ∙ inside_unbounded pt (suc b) i c rt n.2 (omega arith) e k m

-- An upper bound in the table that is not the mark for infinity, or a character below it.
module _ (c : ℕ) where
  below_high_code :
      (a b : ℕ)
      → a < b
      → (b ≤ 0xffff) ⊎ (b ≡ 2 ^ 32 - 1)
      → (c < 0xffff) ⊎ (high_code b < 0xffff)
      → c ≤ high_code b
      → c < b
  unfolding high_code
  below_high_code a b h n u k = ground arith

  past_high_code :
      (b : ℕ)
      → c < 2 ^ 32 - 1
      → (b ≤ 0xffff) ⊎ (b ≡ 2 ^ 32 - 1)
      → (c < 0xffff) ⊎ (high_code b < 0xffff)
      → high_code b < c
      → b ≤ c
  unfolding high_code
  past_high_code b m n u k = ground arith

  -- An answer for a character past the first interval is one for the rest.
  Answers-past :
      (a b : ℕ) (pt : List ℕ) (ans : Bool)
      → a < b
      → (b ≤ 0xffff) ⊎ (b ≡ 2 ^ 32 - 1)
      → (c < 0xffff) ⊎ (high_code b < 0xffff)
      → b ≤ c
      → Answers (low_of (a ∷ b ∷ pt)) (high_of (a ∷ b ∷ pt)) (suc (pairs pt)) c ans
      → Answers (low_of pt) (high_of pt) (pairs pt) c ans
  unfolding low_of high_of
  Answers-past a b pt true h n u p (zero, x, l, k) =
      absurd (omega (arith, below_high_code a b h n u k))
  Answers-past a b pt true h n u p (suc i, x, l, k) = (i, omega arith, l, k)
  Answers-past a b pt false h n u p s = λ i x. s (suc i) (omega arith)

  Answers-under :
      (a b : ℕ) (pt : List ℕ) (lo : ℕ) (ans : Bool)
      → StrictlyRises lo (a ∷ b ∷ pt)
      → c < a
      → Answers (low_of (a ∷ b ∷ pt)) (high_of (a ∷ b ∷ pt)) (suc (pairs pt)) c ans
      → ans ≡ false
  unfolding pairs
  Answers-under a b pt lo true r h (i, x, l, k) =
      absurd (omega (arith, table_rises (a ∷ b ∷ pt) a i (omega arith, r.1) x))
  Answers-under a b pt lo false r h s = refl

  Answers-within :
      (a b : ℕ) (pt : List ℕ) (ans : Bool)
      → c < 2 ^ 32 - 1
      → (b ≤ 0xffff) ⊎ (b ≡ 2 ^ 32 - 1)
      → (c < 0xffff) ⊎ (high_code b < 0xffff)
      → a ≤ c
      → c < b
      → Answers (low_of (a ∷ b ∷ pt)) (high_of (a ∷ b ∷ pt)) (suc (pairs pt)) c ans
      → ans ≡ true
  unfolding low_of high_of
  Answers-within a b pt true m n u l k s = refl
  Answers-within a b pt false m n u l k s = elim (s 0 (omega arith)) [
    | inl h ↦ absurd (omega arith)
    | inr h ↦ absurd (omega (arith, past_high_code b m n u h))
  ]

  even_tail : (b : Bool) → not (not b) ≡ true → b ≡ true
  even_tail true e = refl
  even_tail false e = e

  -- What an answer of the search says of the set.
  pub inside-Answers :
      (pts : List ℕ) (lo : ℕ) (ans : Bool)
      → StrictlyRises lo pts
      → Narrow pts
      → even_length pts ≡ true
      → c < 2 ^ 32 - 1
      → (c < 0xffff) ⊎ ((i : ℕ) → i < pairs pts → high_of pts i < 0xffff)
      → Answers (low_of pts) (high_of pts) (pairs pts) c ans
      → inside pts c ≡ ans
  unfolding pairs low_of high_of even_length
  inside-Answers [] lo true r n e m u s = absurd (let (i, h, l, k) = s in omega arith)
  inside-Answers [] lo false r n e m u s = inside_under [] (suc c) c tt (omega arith)
  inside-Answers (a ∷ []) lo ans r n e m u s = absurd (cc)
  inside-Answers (a ∷ b ∷ pt) lo ans r n e m u s =
      let (ra, (rb, rt)) = r in
      let first : (c < 0xffff) ⊎ (high_code b < 0xffff) = elim u [
        | inl h ↦ inl h
        | inr g ↦ inr (g 0 (omega arith))
      ] in
      let rest : (c < 0xffff) ⊎ ((i : ℕ) → i < pairs pt → high_of pt i < 0xffff) = elim u [
        | inl h ↦ inl h
        | inr g ↦ inr (λ i h. g (suc i) (omega arith))
      ] in
      elim (compare-cases c a) [
        | inl (q, h) ↦
            inside_under (a ∷ b ∷ pt) a c (omega arith, r.1) h
            ∙ sym (Answers-under a b pt lo ans r h s)
        | inr h ↦ elim (compare-cases c b) [
          | inl (q, k) ↦
              inside_within a b c pt rt (omega arith) k
              ∙ sym (Answers-within a b pt ans m n.1 first (omega arith) k s)
          | inr k ↦
              inside_past a b c pt (omega arith) (omega arith)
              ∙ inside-Answers pt (suc b) ans rt n.2 (even_tail (even_length pt) e) m rest
                  (Answers-past a b pt ans rb n.1 first (omega arith) s)
        ]
      ]
