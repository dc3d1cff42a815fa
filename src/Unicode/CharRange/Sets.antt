-- ===== src/Unicode/CharRange/Sets.antt =====
-- The operations on `CharRange` (cxx/quickjs/libunicode.c) as operations on sets of characters.
use flutter_quickjs.Prelude.{ℕ, ◌+◌, ◌-◌, ◌%◌, ◌^◌, ◌<◌, ◌≤◌, ◌≡◌, refl, ap, ◌∙◌, sym, arith}
use flutter_quickjs.Prelude.{Bool, true, false, not, ◌&&◌, ◌||◌, List, [], ◌∷◌, leb}
use flutter_quickjs.Prelude.{Bool-cases, compare-cases, inl, inr, xor}
use flutter_quickjs.Unicode.CharRange.{CharRange, CharRangeOp, cr_union, Outcome, ok, failed, fault}
use flutter_quickjs.Unicode.CharRange.{odd, combine, compress_points, compress_extend}
use flutter_quickjs.Unicode.CharRange.{cr_op, cr_union1, cr_union_interval}
use flutter_quickjs.Unicode.CharRange.Members.{
  inside, Rises, StrictlyRises, even_length, inside-compress, StrictlyRises-compress, Rises-weaken,
  points_step, points_none, points_end, extend_none, extend_end, extend_step,
}
use flutter_quickjs.Unicode.CharRange.Merge.{change, op_points, op_points-Agrees}
use flutter_quickjs.Unicode.CharRange.Loop.{Fits, Yields, op_loop-Yields}

-- Points that do not fall, an even number of them: intervals in order, which may touch or be empty.
abbrev pub IsRange : List ℕ → Type 0
IsRange pt = (even_length pt ≡ true) × Rises 0 pt

-- Points that rise strictly, an even number of them: the one way to write a set.
abbrev pub IsCanonical : List ℕ → Type 0
IsCanonical pt = (even_length pt ≡ true) × StrictlyRises 0 pt

Rises-change :
    (lo v : ℕ) (s t : Bool) (rest : List ℕ) → lo ≤ v → Rises v rest → Rises lo (change s t v rest)
Rises-change lo v s t rest h r = elim (Bool-cases (xor t s)) [
  | inl e ↦ rw e (h, r)
  | inr e ↦ rw e (Rises-weaken v lo rest h r)
]

even-change :
    (v : ℕ) (s t : Bool) (rest : List ℕ)
    → even_length (change s t v rest) ≡ xor (xor t s) (even_length rest)
unfolding even_length
even-change v s t rest = ground arith

module _ (op : CharRangeOp) where
  Rises-op_points :
      (lo : ℕ) (p : Bool) (a : List ℕ) (q : Bool) (b : List ℕ)
      → Rises lo a
      → Rises lo b
      → Rises lo (op_points op p a q b)
  unfolding op_points
  Rises-op_points lo p [] q [] ra rb = tt
  Rises-op_points lo p (v ∷ a) q [] ra rb =
      Rises-change lo v (combine op p q) (combine op (not p) q) _ ra.0
        (Rises-op_points v (not p) a q [] ra.1 tt)
  Rises-op_points lo p [] q (w ∷ b) ra rb =
      Rises-change lo w (combine op p q) (combine op p (not q)) _ rb.0
        (Rises-op_points w p [] (not q) b tt rb.1)
  Rises-op_points lo p (v ∷ a) q (w ∷ b) ra rb = elim (compare-cases v w) [
    | inl (e, lt) ↦
        rw (e, op_points)
          (Rises-change lo v (combine op p q) (combine op (not p) q) _ ra.0
            (Rises-op_points v (not p) a q (w ∷ b) ra.1 (omega arith, rb.1)))
    | inr (inl (e, eq)) ↦
        rw (e, op_points)
          (Rises-change lo v (combine op p q) (combine op (not p) (not q)) _ ra.0
            (Rises-op_points v (not p) a (not q) b ra.1 (rw eq rb.1)))
    | inr (inr (e, gt)) ↦
        rw (e, op_points)
          (Rises-change lo w (combine op p q) (combine op p (not q)) _ rb.0
            (Rises-op_points w p (v ∷ a) (not q) b (omega arith, ra.1) rb.1))
  ]

  -- The number of changes is odd if the first and the last status differ.
  even-op_points :
      (p : Bool) (a : List ℕ) (q : Bool) (b : List ℕ)
      → even_length (op_points op p a q b)
        ≡ not (
            xor
              (combine op p q)
              (combine op (xor p (not (even_length a))) (xor q (not (even_length b)))))
  unfolding op_points even_length combine
  even-op_points p [] q [] = ground arith
  even-op_points p (v ∷ a) q [] = rw (even-change, even-op_points (not p) a q []) (ground arith)
  even-op_points p [] q (w ∷ b) = rw (even-change, even-op_points p [] (not q) b) (ground arith)
  even-op_points p (v ∷ a) q (w ∷ b) = elim (compare-cases v w) [
    | inl (e, lt) ↦
        rw (e, op_points, even-change, even-op_points (not p) a q (w ∷ b)) (ground arith)
    | inr (inl (e, eq)) ↦
        rw (e, op_points, even-change, even-op_points (not p) a (not q) b) (ground arith)
    | inr (inr (e, gt)) ↦
        rw (e, op_points, even-change, even-op_points p (v ∷ a) (not q) b) (ground arith)
  ]

mutual
  unfolding even_length

  even-points : (pt : List ℕ) → even_length (compress_points pt) ≡ true
  even-points [] = rw points_none
  even-points (a ∷ []) = rw points_end
  even-points (a ∷ b ∷ pt) = rw points_step (ground (arith, even-points pt, even-extend a b pt))

  even-extend : (a b : ℕ) (pt : List ℕ) → even_length (compress_extend a b pt) ≡ true
  even-extend a b [] = rw extend_none
  even-extend a b (c ∷ []) = rw extend_end
  even-extend a b (c ∷ d ∷ pt) =
      rw extend_step (ground (arith, even-extend a d pt, even-points pt, even-extend c d pt))

-- What `cr_compress` makes of a range is canonical.
compress-IsCanonical : (pt : List ℕ) → IsRange pt → IsCanonical (compress_points pt)
compress-IsCanonical pt (e, r) = (even-points pt, StrictlyRises-compress pt e r)

module _ (grant : ℕ → Bool) where
  -- A call that leaves the set `f` in canonical form, and stores nothing outside its block; it fails
  -- only if a block is refused.
  abbrev pub Computes : (ℕ → Bool) → Outcome → Type 0
  Computes f (ok c) = ((x : ℕ) → inside c.points x ≡ f x) × IsCanonical c.points × Fits c
  Computes f (failed c) = (n : ℕ) × (grant n ≡ false)
  Computes f fault = ⊥

  pub Yields-set :
      (pt : List ℕ) (f : ℕ → Bool) (o : Outcome)
      → IsRange pt
      → ((x : ℕ) → inside pt x ≡ f x)
      → Yields grant (compress_points pt) o
      → Computes f o
  Yields-set pt f (ok c) r h (e, fits) =
      rw e ((λ x. inside-compress pt x r.0 ∙ h x), compress-IsCanonical pt r, rw e at fits)
  Yields-set pt f (failed c) r h y = y
  Yields-set pt f fault r h y = absurd y

  -- A call that computes a set computes any set with the same members.
  pub same_set :
      (o : Outcome) {f g : ℕ → Bool} → ((x : ℕ) → f x ≡ g x) → Computes f o → Computes g o
  same_set (ok c) e (h, k, fits) = ((λ x. h x ∙ e x), k, fits)
  same_set (failed c) e h = h
  same_set fault e h = absurd h

  -- `cr_op` into an empty range computes the union, the intersection or the symmetric difference of
  -- two ranges, in canonical form; on no path it stores a point outside of the block that it has then,
  -- and it fails only if `realloc_func` does.
  pub cr_op-Computes :
      (op : CharRangeOp) (size : ℕ) (a b : List ℕ)
      → IsRange a
      → IsRange b
      → Computes
          (λ x. combine op (inside a x) (inside b x))
          (cr_op grant op (record { points = []; size = size }) a b)
  unfolding cr_op odd
  cr_op-Computes op size a b ra rb =
      Yields-set (op_points op false a false b) _ _
        (even_both, Rises-op_points op 0 false a false b ra.1 rb.1)
        (λ x.
          sym (no_change (inside (op_points op false a false b) x))
          ∙ op_points-Agrees op x 0 false a false b ra.1 rb.1)
        (op_loop-Yields grant op (record { points = []; size = size }) 0 a 0 b (omega arith)
          (sym off))
    where
      off : combine op false false ≡ false
      off = unfold combine in ground arith

      even_both : even_length (op_points op false a false b) ≡ true
      even_both = rw (even-op_points, ra.0, rb.0, off)

      no_change : (r : Bool) → xor r (combine op false false) ≡ r
      no_change r = rw off (ground arith)

  -- `cr_union1` computes the union with the points given.
  pub cr_union1-Computes :
      (cr : CharRange) (b : List ℕ)
      → IsRange cr.points
      → IsRange b
      → Computes (λ x. inside cr.points x || inside b x) (cr_union1 grant cr b)
  unfolding cr_union1 combine
  cr_union1-Computes cr b ra rb = cr_op-Computes cr_union 0 cr.points b ra rb

  -- `cr_union_interval` adds the characters from `c1` to `c2`, both included.
  pub cr_union_interval-Computes :
      (cr : CharRange) (c1 c2 : ℕ)
      → IsRange cr.points
      → c1 ≤ c2
      → c2 < 2 ^ 32 - 1
      → Computes
          (λ x. inside cr.points x || leb c1 x && leb x c2)
          (cr_union_interval grant cr c1 c2)
  unfolding cr_union_interval inside even_length
  cr_union_interval-Computes cr c1 c2 ra h fits =
      same_set (cr_union1 grant cr (c1 ∷ ((c2 + 1) % 2 ^ 32) ∷ []))
        (λ x. ap (λ t. inside cr.points x || t) (interval x))
        (cr_union1-Computes cr (c1 ∷ ((c2 + 1) % 2 ^ 32) ∷ []) ra
          (refl, (omega arith, omega arith)))
    where
      interval :
          (x : ℕ) → xor (leb c1 x) (xor (leb ((c2 + 1) % 2 ^ 32) x) false) ≡ (leb c1 x && leb x c2)
      interval x = let e : (c2 + 1) % 2 ^ 32 ≡ c2 + 1 = omega arith in rw e (ground arith)
