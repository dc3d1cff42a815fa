-- ===== src/Unicode/CharRange/Members.antt =====
-- What a `CharRange` of cxx/quickjs/libunicode.c holds, and that `cr_compress` keeps it.
use flutter_quickjs.Prelude.{ℕ, suc, ◌<◌, ◌≤◌, ◌≡◌, refl, arith}
use flutter_quickjs.Prelude.{Bool, true, false, not, List, [], ◌∷◌, leb, ◌==◌}
use flutter_quickjs.Prelude.{if◌then◌else◌, length, Bool-cases, inl, inr, ==_iff}
use flutter_quickjs.Unicode.CharRange.{compress_points, compress_extend}
use flutter_quickjs.Prelude.{xor}

-- Is `c` in the set? It is if an odd number of the points are not above it: in points
-- `a b c d ...` that rise, the set has the characters from `a` up to but not `b`, and so on.
unfoldable pub inside : List ℕ → ℕ → Bool
inside [] c = false
inside (p ∷ pt) c = xor (leb p c) (inside pt c)

-- The points do not fall, and none is below `lo`.
abbrev pub Rises : ℕ → List ℕ → Type 0
Rises lo [] = Unit
Rises lo (p ∷ pt) = (lo ≤ p) × Rises p pt

-- The points rise strictly, and none is below `lo`.
abbrev pub StrictlyRises : ℕ → List ℕ → Type 0
StrictlyRises lo [] = Unit
StrictlyRises lo (p ∷ pt) = (lo ≤ p) × StrictlyRises (suc p) pt

-- The number of points is even.
unfoldable pub even_length : List ℕ → Bool
even_length [] = true
even_length (p ∷ pt) = not (even_length pt)

pub Rises-weaken : (lo lo' : ℕ) (pt : List ℕ) → lo' ≤ lo → Rises lo pt → Rises lo' pt
Rises-weaken lo lo' [] h r = tt
Rises-weaken lo lo' (p ∷ pt) h r = (omega arith, r.1)

-- Nothing below the first point is in a set.
pub inside_below : (lo c : ℕ) (pt : List ℕ) → Rises lo pt → c < lo → inside pt c ≡ false
unfolding inside
inside_below lo c [] r h = refl
inside_below lo c (p ∷ pt) r h = ground (arith, inside_below p c pt r.1)

-- The rounds of `cr_compress` as equations.
pub points_step :
    (a b : ℕ) (pt : List ℕ)
    → compress_points (a ∷ b ∷ pt) ≡ (if a == b then compress_points pt else compress_extend a b pt)
unfolding compress_points
points_step a b pt = refl

pub extend_step :
    (a b c d : ℕ) (pt : List ℕ)
    → compress_extend a b (c ∷ d ∷ pt) ≡ (
        if b == c
        then compress_extend a d pt
        else a ∷ b ∷ (if c == d then compress_points pt else compress_extend c d pt))
unfolding compress_points
extend_step a b c d pt = refl

pub points_end : (a : ℕ) → compress_points (a ∷ []) ≡ []
unfolding compress_points
points_end a = refl

pub points_none : compress_points [] ≡ []
unfolding compress_points
points_none = refl

pub extend_none : (a b : ℕ) → compress_extend a b [] ≡ a ∷ b ∷ []
unfolding compress_points
extend_none a b = refl

pub extend_end : (a b c : ℕ) → compress_extend a b (c ∷ []) ≡ a ∷ b ∷ []
unfolding compress_points
extend_end a b c = refl

-- The interval from `x` to `y` is dropped, if it is empty, or kept.
inside_choice :
    (x y c : ℕ) (skip kept pt : List ℕ)
    → inside skip c ≡ inside pt c
    → inside kept c ≡ xor (leb x c) (xor (leb y c) (inside pt c))
    → inside (if x == y then skip else kept) c ≡ xor (leb x c) (xor (leb y c) (inside pt c))
inside_choice x y c skip kept pt s k = ground arith

-- The interval from `a` to `b` is joined with the next one, or ends.
inside_join :
    (a b x y c : ℕ) (joined next pt : List ℕ)
    → inside joined c ≡ xor (leb a c) (xor (leb y c) (inside pt c))
    → inside next c ≡ xor (leb x c) (xor (leb y c) (inside pt c))
    → inside (if b == x then joined else a ∷ b ∷ next) c
      ≡ xor (leb a c) (xor (leb b c) (xor (leb x c) (xor (leb y c) (inside pt c))))
unfolding inside
inside_join a b x y c joined next pt j n = elim (Bool-cases (b == x)) [
  | inl e ↦
      rw (e, j, (==_iff b x).0 e) (xor_twice (leb a c) (leb x c) (xor (leb y c) (inside pt c)))
  | inr e ↦ rw (e, n)
]
  where
    xor_twice : (u v w : Bool) → xor u w ≡ xor u (xor v (xor v w))
    xor_twice u v w = ground arith

mutual
  unfolding even_length inside

  inside-points :
      (pt : List ℕ) (c : ℕ) → even_length pt ≡ true → inside (compress_points pt) c ≡ inside pt c
  inside-points [] c h = rw points_none
  inside-points (a ∷ []) c h = absurd (cc)
  inside-points (a ∷ b ∷ pt) c h = rw points_step (
      inside_choice a b c (compress_points pt) (compress_extend a b pt) pt
        (inside-points pt c (ground arith)) (inside-extend a b pt c (ground arith)))

  inside-extend :
      (a b : ℕ) (pt : List ℕ) (c : ℕ)
      → even_length pt ≡ true
      → inside (compress_extend a b pt) c ≡ xor (leb a c) (xor (leb b c) (inside pt c))
  inside-extend a b [] c h = rw extend_none
  inside-extend a b (x ∷ []) c h = absurd (cc)
  inside-extend a b (x ∷ y ∷ pt) c h = rw extend_step (
      inside_join a b x y c _ _ pt (inside-extend a y pt c (ground arith)) (
        inside_choice x y c (compress_points pt) (compress_extend x y pt) pt
          (inside-points pt c (ground arith)) (inside-extend x y pt c (ground arith))))

mutual
  unfolding even_length

  StrictlyRises-points :
      (lo : ℕ) (pt : List ℕ)
      → even_length pt ≡ true
      → Rises lo pt
      → StrictlyRises lo (compress_points pt)
  StrictlyRises-points lo [] h r = rw points_none tt
  StrictlyRises-points lo (a ∷ []) h r = absurd (cc)
  StrictlyRises-points lo (a ∷ b ∷ pt) h r = rw points_step (elim (Bool-cases (a == b)) [
    | inl e ↦
        rw e (StrictlyRises-points lo pt (ground arith) (Rises-weaken b lo pt (omega arith) r.1.1))
    | inr e ↦ rw e (StrictlyRises-extend lo a b pt (ground arith) r.0 (ground arith) r.1.1)
  ])

  StrictlyRises-extend :
      (lo a b : ℕ) (pt : List ℕ)
      → even_length pt ≡ true
      → lo ≤ a
      → a < b
      → Rises b pt
      → StrictlyRises lo (compress_extend a b pt)
  StrictlyRises-extend lo a b [] h la ab r = rw extend_none (la, (ab, tt))
  StrictlyRises-extend lo a b (c ∷ []) h la ab r = absurd (cc)
  StrictlyRises-extend lo a b (c ∷ d ∷ pt) h la ab r = rw extend_step (elim (Bool-cases (b == c)) [
    | inl e ↦ rw e (StrictlyRises-extend lo a d pt (ground arith) la (omega arith) r.1.1)
    | inr e ↦ rw e (
      la,
      (
        ab,
        elim (Bool-cases (c == d)) [
          | inl f ↦ rw f (
              StrictlyRises-points (suc b) pt (ground arith)
                (Rises-weaken d (suc b) pt (ground arith) r.1.1))
          | inr f ↦ rw f (
              StrictlyRises-extend (suc b) c d pt (ground arith) (ground arith) (ground arith)
                r.1.1)
        ],
      ),
    )
  ])

mutual
  length-points : (pt : List ℕ) → length (compress_points pt) ≤ length pt
  length-points [] = rw points_none (omega arith)
  length-points (a ∷ []) = rw points_end (omega arith)
  length-points (a ∷ b ∷ pt) =
      rw points_step (ground (arith, length-points pt, length-extend a b pt))

  length-extend : (a b : ℕ) (pt : List ℕ) → length (compress_extend a b pt) ≤ suc (suc (length pt))
  length-extend a b [] = rw extend_none (omega arith)
  length-extend a b (c ∷ []) = rw extend_end (omega arith)
  length-extend a b (c ∷ d ∷ pt) =
      rw extend_step (ground (arith, length-extend a d pt, length-points pt, length-extend c d pt))

-- The headline facts of the blocks above.
pub inside-compress :
    (pt : List ℕ) (c : ℕ) → even_length pt ≡ true → inside (compress_points pt) c ≡ inside pt c
inside-compress = inside-points

pub StrictlyRises-compress :
    (pt : List ℕ) → even_length pt ≡ true → Rises 0 pt → StrictlyRises 0 (compress_points pt)
StrictlyRises-compress pt = StrictlyRises-points 0 pt

pub length-compress : (pt : List ℕ) → length (compress_points pt) ≤ length pt
length-compress = length-points
