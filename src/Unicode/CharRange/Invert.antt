-- ===== src/Unicode/CharRange/Invert.antt =====
-- `cr_invert` (cxx/quickjs/libunicode.c), and what makes the canonical form of a set unique.
use flutter_quickjs.Prelude.{ℕ, suc, ◌+◌, ◌-◌, ◌^◌, ◌<◌, ◌≤◌, ◌≡◌, refl, ap, ap₂, arith}
use flutter_quickjs.Prelude.{Bool, true, false, not, ◌&&◌, List, [], ◌∷◌, ◌++◌, ltb, leb, All}
use flutter_quickjs.Prelude.{length, length-append, Bool-cases, compare-cases, inl, inr, xor}
use flutter_quickjs.Unicode.CharRange.{
  CharRange, len, Outcome, ok, failed, fault, ◌>>=◌, store_points,
}
use flutter_quickjs.Unicode.CharRange.{compress_points, cr_compress, cr_invert}
use flutter_quickjs.Unicode.CharRange.Members.{
  inside, Rises, StrictlyRises, even_length, Rises-weaken, inside_below, length-compress,
}
use flutter_quickjs.Unicode.CharRange.Loop.{Yields, cr_realloc-MakesRoom, MakesRoom}
use flutter_quickjs.Unicode.CharRange.Sets.{IsRange, Computes, Yields-set}

StrictlyRises-Rises : (lo : ℕ) (pt : List ℕ) → StrictlyRises lo pt → Rises lo pt
StrictlyRises-Rises lo [] r = tt
StrictlyRises-Rises lo (p ∷ pt) r =
    (r.0, Rises-weaken (suc p) p pt (omega arith) (StrictlyRises-Rises (suc p) pt r.1))

-- The first point of a strict list is in the set, and what is below it is not.
inside_first : (p : ℕ) (pt : List ℕ) → StrictlyRises (suc p) pt → inside (p ∷ pt) p ≡ true
unfolding inside
inside_first p pt r = ground (arith, inside_below (suc p) p pt (StrictlyRises-Rises (suc p) pt r))

-- Equal first points cancel.
tails_agree :
    (v w : ℕ) (a b : List ℕ)
    → v ≡ w
    → ((x : ℕ) → inside (v ∷ a) x ≡ inside (w ∷ b) x)
    → (x : ℕ) → inside a x ≡ inside b x
unfolding inside
tails_agree v w a b e h x = ground (arith, h x)

-- The canonical form of a set is unique: two canonical ranges with the same characters have the
-- same points.
pub canonical_unique :
    (lo : ℕ) (a b : List ℕ)
    → StrictlyRises lo a
    → StrictlyRises lo b
    → ((x : ℕ) → inside a x ≡ inside b x)
    → a ≡ b
canonical_unique lo [] [] ra rb h = refl
canonical_unique lo [] (w ∷ b) ra rb h = absurd (cc (h w, inside_first w b rb.1, inside_none w))
  where
    inside_none : (w : ℕ) → inside [] w ≡ false
    inside_none w = unfold inside in refl
canonical_unique lo (v ∷ a) [] ra rb h = absurd (cc (h v, inside_first v a ra.1, inside_none v))
  where
    inside_none : (w : ℕ) → inside [] w ≡ false
    inside_none w = unfold inside in refl
canonical_unique lo (v ∷ a) (w ∷ b) ra rb h = elim (compare-cases v w) [
  | inl (e, lt) ↦ absurd (cc (h v, inside_first v a ra.1, outside v w b rb.1 lt))
  | inr (inl (e, eq)) ↦
      ap₂ ◌∷◌ eq (canonical_unique (suc v) a b ra.1 (rw eq rb.1) (tails_agree v w a b eq h))
  | inr (inr (e, gt)) ↦ absurd (cc (h w, inside_first w b rb.1, outside w v a ra.1 gt))
]
  where
    outside : (v w : ℕ) (b : List ℕ) → StrictlyRises (suc w) b → v < w → inside (w ∷ b) v ≡ false
    outside v w b r lt =
        inside_below w v (w ∷ b) (StrictlyRises-Rises w (w ∷ b) (omega arith, r)) lt

-- What the points `0`, `pt` and `2^32 - 1` say of a character.
inside-snoc : (pt : List ℕ) (m x : ℕ) → inside (pt ++ m ∷ []) x ≡ xor (inside pt x) (leb m x)
unfolding inside
inside-snoc [] m x = ground arith
inside-snoc (p ∷ pt) m x = ground (arith, inside-snoc pt m x)

even-snoc : (pt : List ℕ) (m : ℕ) → even_length (pt ++ m ∷ []) ≡ not (even_length pt)
unfolding even_length
even-snoc [] m = refl
even-snoc (p ∷ pt) m = ap not (even-snoc pt m)

Rises-snoc :
    (lo m : ℕ) (pt : List ℕ) → lo ≤ m → Rises lo pt → All (λ p. p ≤ m) pt → Rises lo (pt ++ m ∷ [])
Rises-snoc lo m [] h r a = (h, tt)
Rises-snoc lo m (p ∷ pt) h r a = (r.0, Rises-snoc p m pt a.0 r.1 a.1)

-- From the last point on, the number of points decides.
inside_above :
    (pt : List ℕ) (m x : ℕ) → All (λ p. p ≤ m) pt → m ≤ x → inside pt x ≡ not (even_length pt)
unfolding inside even_length
inside_above [] m x a h = refl
inside_above (p ∷ pt) m x a h = ground (arith, inside_above pt m x a.1 h)

-- The set that the points of `cr_invert` stand for.
inverted :
    (pt : List ℕ) (x : ℕ)
    → even_length pt ≡ true
    → All (λ p. p ≤ 2 ^ 32 - 1) pt
    → inside (0 ∷ pt ++ (2 ^ 32 - 1) ∷ []) x ≡ (not (inside pt x) && ltb x (2 ^ 32 - 1))
inverted pt x e a = elim (Bool-cases (leb (2 ^ 32 - 1) x)) [
  | inl h ↦ ground (arith, first, inside-snoc pt (2 ^ 32 - 1) x, inside_above pt (2 ^ 32 - 1) x a)
  | inr h ↦ ground (arith, first, inside-snoc pt (2 ^ 32 - 1) x)
]
  where
    first : inside (0 ∷ pt ++ (2 ^ 32 - 1) ∷ []) x ≡ not (inside (pt ++ (2 ^ 32 - 1) ∷ []) x)
    first = unfold inside in ground arith

module _ (grant : ℕ → Bool) where
  -- `cr_invert` computes the characters below 2^32 - 1 that are not in the range, in canonical
  -- form, if no point is above 2^32 - 1; it fails only if `realloc_func` does.
  pub cr_invert-Computes :
      (cr : CharRange)
      → IsRange cr.points
      → All (λ p. p ≤ 2 ^ 32 - 1) cr.points
      → Computes grant (λ x. not (inside cr.points x) && ltb x (2 ^ 32 - 1)) (cr_invert grant cr)
  unfolding cr_invert
  cr_invert-Computes cr (e, r) a =
      Yields-set grant (0 ∷ cr.points ++ (2 ^ 32 - 1) ∷ []) _ _ (even_all, (omega arith, rises))
        (λ x. inverted cr.points x e a) (written _ (cr_realloc-MakesRoom grant cr (len cr + 2)))
    where
      even_all : even_length (0 ∷ cr.points ++ (2 ^ 32 - 1) ∷ []) ≡ true
      even_all = unfold even_length in rw (even-snoc cr.points (2 ^ 32 - 1), e)

      rises : Rises 0 (cr.points ++ (2 ^ 32 - 1) ∷ [])
      rises = Rises-snoc 0 (2 ^ 32 - 1) cr.points (omega arith) r a

      written :
          (o : Outcome)
          → MakesRoom grant cr (len cr + 2) o
          → Yields grant (compress_points (0 ∷ cr.points ++ (2 ^ 32 - 1) ∷ [])) (
              o >>= λ c.
              store_points c (0 ∷ c.points ++ (2 ^ 32 - 1) ∷ []) >>= λ c'. ok (cr_compress c'))
      written (ok c) (same, room) =
          let all : List ℕ = 0 ∷ c.points ++ (2 ^ 32 - 1) ∷ [] in
          let fits : length all ≤ c.size =
            omega (arith, length-append c.points ((2 ^ 32 - 1) ∷ []), ap length same) in
          let enough : leb (length all) c.size ≡ true = ground arith in
          unfold cr_compress in
          unfold store_points in
          rw (store_points, enough) (rw same, omega (arith, length-compress all))
      written (failed c) y = y
      written fault y = absurd y
