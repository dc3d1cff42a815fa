-- ===== src/Regexp/Range/Compiled.antt =====
-- A character set that `re_emit_range` of cxx/quickjs/libregexp.c has written is looked up right.
use flutter_quickjs.Prelude.{ℕ, suc, ◌+◌, ◌-◌, ◌*◌, ◌%◌, ◌^◌, ◌<◌, ◌≤◌, ◌≡◌, refl, sym, arith}
use flutter_quickjs.Prelude.{
  Bool, true, false, not, ◌&&◌, some, List, [], ◌∷◌, ◌++◌, ◌⊎◌, inl, inr, compare-cases,
}
use flutter_quickjs.Prelude.{length, ltb, leb, ◌==◌, ◌∙◌, ◌≢◌, Bool-cases, if◌then◌else◌}
use mathlib.Core.Path.{subst, ap}
use flutter_quickjs.Cutils.DynBuf.{le_bytes}
use flutter_quickjs.Regexp.Range.{get_u16, range_at, range_match, range_loop, highest}
use flutter_quickjs.Regexp.Range.{re_emit_range, emit_ranges, reop_range}
use flutter_quickjs.Intervals.{Sorted, Answers, all_below, all_above}
use flutter_quickjs.Regexp.Range.Search.{range_loop_lem}
use flutter_quickjs.Regexp.Range.Table.{
  pairs, low_of, high_of, Narrow, pairs_lem, halfword_read, table_low, table_high, table_low-Narrow,
  table_ordered, table_apart, high_of-Narrow,
}
use flutter_quickjs.Regexp.Range.Lookup.{inside-Answers, inside_unbounded}
use flutter_quickjs.Unicode.CharRange.{CharRange}
use flutter_quickjs.Unicode.CharRange.Members.{inside, StrictlyRises, even_length}

module _ (bc : List ℕ) (pc c n : ℕ) (lows highs : ℕ → ℕ) (counted : get_u16 bc pc ≡ some n)
    (low_read : (i : ℕ) → i < n → get_u16 bc (pc + 2 + i * 4) ≡ some (lows i))
    (high_read : (i : ℕ) → i < n → get_u16 bc (pc + 2 + i * 4 + 2) ≡ some (highs i))
    (s : Sorted lows highs n) (narrow : lows 0 ≤ 0xffff) (some_range : 0 < n)
    (small : n < 2 ^ 16) where
  range_read : (i : ℕ) → i < n → range_at bc (pc + 2) i ≡ some (lows i, highs i)
  unfolding range_at
  range_read i h = ground (arith, low_read i h, high_read i h)

  last_index : (n + 2 ^ 32 - 1) % 2 ^ 32 ≡ n - 1
  last_index = omega arith

  first_read : get_u16 bc (pc + 2) ≡ some (lows 0)
  first_read =
      let e : pc + 2 + 0 * 4 ≡ pc + 2 = omega arith in
      subst (λ (t : ℕ). get_u16 bc t ≡ some (lows 0)) e (low_read 0 some_range)

  match_reads : range_match bc pc c ≡ (
      if ltb c (lows 0)
      then some false
      else if leb 0xffff c && highs (n - 1) == 0xffff
      then some true
      else if ltb (highs (n - 1)) c
      then some false
      else range_loop (range_at bc (pc + 2)) c (n + 1) 0 (n - 1))
  unfolding range_match
  match_reads = ground (arith, counted, last_index, first_read, high_read (n - 1) (omega arith))

  -- Where each answer comes from.
  pub answer_cases :
      (b : Bool) × (range_match bc pc c ≡ some b)
      × (((b ≡ true) × (0xffff ≤ c) × (highs (n - 1) ≡ 0xffff))
          ⊎ (Answers lows highs n c b × ((c < 0xffff) ⊎ (highs (n - 1) ≢ 0xffff))))
  answer_cases = elim (compare-cases c (lows 0)) [
    | inl (e, h) ↦ (
      false,
      match_reads ∙ ground arith,
      inr ((λ i k. inl (all_above lows highs n s c 0 i k h (omega arith))), inl (omega arith)),
    )
    | inr h ↦ elim (Bool-cases (leb 0xffff c && highs (n - 1) == 0xffff)) [
      | inl t ↦ (true, match_reads ∙ ground arith, inl (refl, ground arith, ground arith))
      | inr t ↦ elim (compare-cases (highs (n - 1)) c) [
        | inl (e, k) ↦ (
          false,
          match_reads ∙ ground arith,
          inr (
            (λ i g. inr (all_below lows highs n s c i (n - 1) (omega arith) k (omega arith))),
            ground arith,
          ),
        )
        | inr k ↦
            let (b, p, a) =
              range_loop_lem lows highs n (range_at bc (pc + 2)) range_read s c small (omega arith)
                (n + 1) 0 (n - 1) (omega arith) (omega arith) (omega arith)
                (λ i g. absurd (omega arith)) (λ i g j. absurd (omega arith)) in
            (b, match_reads ∙ ground arith, inr (a, ground arith))
      ]
    ]
  ]

count_first :
    (n : ℕ) (t post : List ℕ) → n ≤ 0xffff → get_u16 (le_bytes 2 n ++ t ++ post) 0 ≡ some n
unfolding le_bytes
count_first n t post h = halfword_read n (t ++ post) h

u16_after : (pre t : List ℕ) (i : ℕ) → get_u16 (pre ++ t) (length pre + i) ≡ get_u16 t i
unfolding get_u16
u16_after [] t i = let e : 0 + i ≡ i = omega arith in rw e refl
u16_after (x ∷ pre) t i =
    let e : suc (length pre) + i ≡ suc (length pre + i) = omega arith in rw e (u16_after pre t i)

-- What follows two bytes.
u16_past :
    (pre t : List ℕ) (w x i : ℕ) → get_u16 (pre ++ w ∷ x ∷ t) (length pre + 2 + i) ≡ get_u16 t i
unfolding get_u16
u16_past pre t w x i =
    let e : length pre + 2 + i ≡ length pre + suc (suc i) = omega arith in
    rw e (u16_after pre (w ∷ x ∷ t) (suc (suc i)))

-- When `re_emit_range` writes halfwords.
emit_narrow :
    (cr : CharRange) (code : List ℕ)
    → re_emit_range cr ≡ some (reop_range ∷ code)
    → (pairs cr.points < 65535)
      × (0 < pairs cr.points)
      × (highest cr.points ≤ 0xffff)
      × (code ≡ le_bytes 2 (pairs cr.points) ++ emit_ranges cr.points)
unfolding re_emit_range
emit_narrow cr code e = rw (sym (pairs_lem cr.points)) (ground arith)

highest_next : (a b c d : ℕ) (pt : List ℕ) → highest (a ∷ b ∷ c ∷ d ∷ pt) ≡ highest (c ∷ d ∷ pt)
unfolding highest
highest_next a b c d pt =
    let l = length pt in
    let e1 : suc (suc (suc (suc l))) - 1 ≡ suc (suc (suc l)) = omega arith in
    let e2 : suc (suc (suc (suc l))) - 2 ≡ suc (suc l) = omega arith in
    let e3 : suc (suc l) - 1 ≡ suc l = omega arith in
    let e4 : suc (suc l) - 2 ≡ l = omega arith in rw (e1, e2, e3, e4) refl

highest_pair : (a b : ℕ) → a < b → highest (a ∷ b ∷ []) ≤ 0xffff → Narrow (a ∷ b ∷ [])
unfolding highest
highest_pair a b h k = (ground arith, ground arith, tt)

even_tail : (b : Bool) → not (not b) ≡ true → b ≡ true
even_tail true e = refl
even_tail false e = e

Narrow-highest :
    (pts : List ℕ) (lo : ℕ)
    → StrictlyRises lo pts
    → even_length pts ≡ true
    → highest pts ≤ 0xffff
    → Narrow pts
unfolding even_length
Narrow-highest [] lo r e h = tt
Narrow-highest (a ∷ []) lo r e h = tt
Narrow-highest (a ∷ b ∷ []) lo r e h = highest_pair a b r.1.0 h
Narrow-highest (a ∷ b ∷ c ∷ []) lo r e h = absurd (cc)
Narrow-highest (a ∷ b ∷ c ∷ d ∷ pt) lo r e h =
    let (ra, (rb, rt)) = r in
    let rest : Narrow (c ∷ d ∷ pt) =
      Narrow-highest (c ∷ d ∷ pt) (suc b) rt (even_tail (even_length (c ∷ d ∷ pt)) e)
        (rw (sym (highest_next a b c d pt)) h) in
    (omega (arith, rt.0, rest.0), inl (omega (arith, rt.0, rest.0)), rest)

-- The bytecode around the bytes of a set.
abbrev written : List ℕ → List ℕ → List ℕ → List ℕ
written pts pre post = pre ++ (le_bytes 2 (pairs pts) ++ emit_ranges pts ++ post)

table_high-Narrow :
    (pts : List ℕ) (i : ℕ)
    → StrictlyRises 0 pts
    → Narrow pts
    → i < pairs pts
    → high_of pts (pairs pts - 1) ≢ 0xffff
    → high_of pts i < 0xffff
table_high-Narrow pts i r n h k = elim (compare-cases (suc i) (pairs pts)) [
  | inl (e, l) ↦ omega (arith, table_apart pts 0 i r n l, table_low-Narrow pts (suc i) n l)
  | inr l ↦
      let e : pairs pts - 1 ≡ i = omega arith in
      let d : high_of pts i ≢ 0xffff = subst (λ (t : ℕ). high_of pts t ≢ 0xffff) e k in
      omega (arith, d, high_of-Narrow pts 0 i r n h)
]

module _ (pts pre post : List ℕ) (r : StrictlyRises 0 pts) (narrow : Narrow pts)
    (few : pairs pts < 65535) (some_pairs : 0 < pairs pts) where
  count_read : get_u16 (written pts pre post) (length pre) ≡ some (pairs pts)
  count_read =
      let e : length pre + 0 ≡ length pre = omega arith in
      subst (λ (t : ℕ). get_u16 (written pts pre post) t ≡ some (pairs pts)) e
        (u16_after pre (le_bytes 2 (pairs pts) ++ emit_ranges pts ++ post) 0
          ∙ count_first (pairs pts) (emit_ranges pts) post (omega arith))

  low_read :
      (i : ℕ)
      → i < pairs pts
      → get_u16 (written pts pre post) (length pre + 2 + i * 4) ≡ some (low_of pts i)
  unfolding le_bytes
  low_read i h =
      u16_past pre (emit_ranges pts ++ post) _ _ (i * 4) ∙ table_low pts post 0 i r narrow h

  high_read :
      (i : ℕ)
      → i < pairs pts
      → get_u16 (written pts pre post) (length pre + 2 + i * 4 + 2) ≡ some (high_of pts i)
  unfolding le_bytes
  high_read i h =
      let e : length pre + 2 + i * 4 + 2 ≡ length pre + 2 + (i * 4 + 2) = omega arith in
      rw e (
        u16_past pre (emit_ranges pts ++ post) _ _ (i * 4 + 2) ∙ table_high pts post 0 i r narrow h)

  lookup :
      (c : ℕ)
      → even_length pts ≡ true
      → c < 2 ^ 32 - 1
      → range_match (written pts pre post) (length pre) c ≡ some (inside pts c)
  lookup c e h =
      let s : Sorted (low_of pts) (high_of pts) (pairs pts) =
        ((λ i k. table_ordered pts 0 i r narrow k), (λ i k. table_apart pts 0 i r narrow k)) in
      let (b, p, q) =
        answer_cases (written pts pre post) (length pre) c (pairs pts) (low_of pts) (high_of pts)
          count_read low_read high_read s (table_low-Narrow pts 0 narrow some_pairs) some_pairs
          (omega arith) in
      p
      ∙ ap some (
          sym (elim q [
            | inl (t, k, l) ↦
                inside_unbounded pts 0 (pairs pts - 1) c r narrow (omega arith) l k h ∙ sym t
            | inr (ans, u) ↦
                inside-Answers c pts 0 b r narrow e h
                  (elim u [
                    | inl k ↦ inl k
                    | inr k ↦ inr (λ i l. table_high-Narrow pts i r narrow l k)
                  ])
                  ans
          ]))

-- If `re_emit_range` writes `REOP_range` for a set whose points rise and are even in number, then
-- the lookup in these bytes, wherever they stand in the bytecode, says of each character below
-- `UINT32_MAX` whether it is in the set.
pub re_emit_range-range_match :
    (cr : CharRange) (code pre post : List ℕ) (c : ℕ)
    → StrictlyRises 0 cr.points
    → even_length cr.points ≡ true
    → c < 2 ^ 32 - 1
    → re_emit_range cr ≡ some (reop_range ∷ code)
    → range_match (pre ++ (code ++ post)) (length pre) c ≡ some (inside cr.points c)
re_emit_range-range_match cr code pre post c r e h w =
    let (few, some_pairs, least, made) = emit_narrow cr code w in
    let narrow = Narrow-highest cr.points 0 r e least in
    rw made (lookup cr.points pre post r narrow few some_pairs c e h)
