-- ===== src/Unicode/CharRange/Merge.antt =====
-- The loop of `cr_op` (cxx/quickjs/libunicode.c) against the points at which the status changes.
use flutter_quickjs.Prelude.{ℕ, ◌+◌, ◌<◌, ◌≤◌, ◌≡◌, refl, ◌∙◌, arith}
use flutter_quickjs.Prelude.{Bool, true, false, not, List, [], ◌∷◌, leb}
use flutter_quickjs.Prelude.{if◌then◌else◌, Bool-cases, compare-cases, ◌⊎◌, leb→le, inl, inr, xor}
use flutter_quickjs.Unicode.CharRange.{CharRangeOp}
use flutter_quickjs.Unicode.CharRange.{odd, combine}
use flutter_quickjs.Unicode.CharRange.Members.{inside, Rises, inside_below}
use Prim.Native.Nat.{compare, Ordering}

pub odd-suc : (n : ℕ) → odd (n + 1) ≡ not (odd n)
unfolding odd
odd-suc n = ground arith

-- Put `v` in front, if the status before it and behind it differ.
abbrev pub change : Bool → Bool → ℕ → List ℕ → List ℕ
change before behind v rest = if xor behind before then v ∷ rest else rest

xor-false : (r : Bool) → xor r false ≡ r
xor-false r = ground arith

below_self : (c v : ℕ) (a : List ℕ) → c < v → Rises v a → inside (v ∷ a) c ≡ false
below_self c v a h r = inside_below v c (v ∷ a) (omega arith, r) h

module _ (op : CharRangeOp) where
  -- The points where the status changes, from the points of both sets that are to come; `p` and `q`
  -- say whether an odd number of points has passed.
  unfoldable pub op_points : Bool → List ℕ → Bool → List ℕ → List ℕ
  op_points p [] q [] = []
  op_points p (v ∷ a) q [] =
      change (combine op p q) (combine op (not p) q) v (op_points (not p) a q [])
  op_points p [] q (w ∷ b) =
      change (combine op p q) (combine op p (not q)) w (op_points p [] (not q) b)
  op_points p (v ∷ a) q (w ∷ b) = elim (compare v w) [
    | Ordering.lt ↦ change (combine op p q) (combine op (not p) q) v (op_points (not p) a q (w ∷ b))
    | Ordering.eq ↦
        change (combine op p q) (combine op (not p) (not q)) v (op_points (not p) a (not q) b)
    | Ordering.gt ↦ change (combine op p q) (combine op p (not q)) w (op_points p (v ∷ a) (not q) b)
  ]

  -- One point `v` of the merge: what comes behind it agrees with the sets from `v` on, and below
  -- `v` there is nothing.
  inside-change :
      (v c : ℕ) (rest : List ℕ) (s t u : Bool)
      → xor (inside rest c) t ≡ u
      → (c < v → u ≡ t)
      → xor (inside (change s t v rest) c) s ≡ (if leb v c then u else s)
  unfolding inside
  inside-change v c rest s t u e below = ground arith

  -- What the points say of `c`, once the passed ones are counted in.
  abbrev pub Agrees : ℕ → Bool → List ℕ → Bool → List ℕ → Type 0
  Agrees c p a q b =
      xor (inside (op_points p a q b) c) (combine op p q)
      ≡ combine op (xor p (inside a c)) (xor q (inside b c))

  -- One round at the point `v`; `x` and `y` say whether `c` is in what was to come of each set
  -- before it, and `x'` and `y'` after it.
  agrees_round :
      (c v : ℕ) (p q p' q' x y x' y' : Bool) (rest : List ℕ)
      → xor (inside rest c) (combine op p' q') ≡ combine op (xor p' x') (xor q' y')
      → (v ≤ c → xor p' x' ≡ xor p x)
      → (v ≤ c → xor q' y' ≡ xor q y)
      → (c < v → (x ≡ false) × (y ≡ false) × (x' ≡ false) × (y' ≡ false))
      → xor (inside (change (combine op p q) (combine op p' q') v rest) c) (combine op p q)
        ≡ combine op (xor p x) (xor q y)
  agrees_round c v p q p' q' x y x' y' rest e f g below =
      inside-change v c rest _ _ _ e (λ lt. small lt) ∙ round (Bool-cases (leb v c))
    where
      small : c < v → combine op (xor p' x') (xor q' y') ≡ combine op p' q'
      small lt = let (_, _, nx, ny) = below lt in rw (nx, ny, xor-false p', xor-false q')

      round :
          (leb v c ≡ true) ⊎ (leb v c ≡ false)
          → (if leb v c then combine op (xor p' x') (xor q' y') else combine op p q)
            ≡ combine op (xor p x) (xor q y)
      round (inl h) = rw (h, f (leb→le v c h), g (leb→le v c h))
      round (inr h) =
          let (nx, ny, _, _) = below (ground arith) in rw (h, nx, ny, xor-false p, xor-false q)

  -- `c` is in what is to come behind a point, and with it.
  not_first :
      (v c : ℕ) (p : Bool) (a : List ℕ)
      → v ≤ c
      → xor (not p) (inside a c) ≡ xor p (inside (v ∷ a) c)
  unfolding inside
  not_first v c p a h = ground arith

  pub op_points-Agrees :
      (c lo : ℕ) (p : Bool) (a : List ℕ) (q : Bool) (b : List ℕ)
      → Rises lo a
      → Rises lo b
      → Agrees c p a q b
  unfolding op_points inside combine
  op_points-Agrees c lo p [] q [] ra rb = rw (xor-false p, xor-false q)
  op_points-Agrees c lo p (v ∷ a) q [] ra rb =
      agrees_round c v p q (not p) q _ _ _ _ (op_points (not p) a q [])
        (op_points-Agrees c v (not p) a q [] ra.1 tt) (λ h. not_first v c p a h) (λ h. refl)
        (λ h. (below_self c v a h ra.1, refl, inside_below v c a ra.1 h, refl))
  op_points-Agrees c lo p [] q (w ∷ b) ra rb =
      agrees_round c w p q p (not q) _ _ _ _ (op_points p [] (not q) b)
        (op_points-Agrees c w p [] (not q) b tt rb.1) (λ h. refl) (λ h. not_first w c q b h)
        (λ h. (refl, below_self c w b h rb.1, refl, inside_below w c b rb.1 h))
  op_points-Agrees c lo p (v ∷ a) q (w ∷ b) ra rb = elim (compare-cases v w) [
    | inl (e, lt) ↦
        let rw' : Rises v (w ∷ b) = (omega arith, rb.1) in
        rw (e, op_points)
          (agrees_round c v p q (not p) q _ _ _ _ (op_points (not p) a q (w ∷ b))
            (op_points-Agrees c v (not p) a q (w ∷ b) ra.1 rw') (λ h. not_first v c p a h)
            (λ h. refl)
            (λ h. (
              below_self c v a h ra.1,
              inside_below v c (w ∷ b) rw' h,
              inside_below v c a ra.1 h,
              inside_below v c (w ∷ b) rw' h,
            )))
    | inr (inl (e, eq)) ↦
        rw (e, op_points)
          (agrees_round c v p q (not p) (not q) _ _ _ _ (op_points (not p) a (not q) b)
            (op_points-Agrees c v (not p) a (not q) b ra.1 (rw eq rb.1)) (λ h. not_first v c p a h)
            (λ h. not_first w c q b (omega arith))
            (λ h. (
              below_self c v a h ra.1,
              below_self c w b (omega arith) rb.1,
              inside_below v c a ra.1 h,
              inside_below w c b rb.1 (omega arith),
            )))
    | inr (inr (e, gt)) ↦
        let rv : Rises w (v ∷ a) = (omega arith, ra.1) in
        rw (e, op_points)
          (agrees_round c w p q p (not q) _ _ _ _ (op_points p (v ∷ a) (not q) b)
            (op_points-Agrees c w p (v ∷ a) (not q) b rv rb.1) (λ h. refl)
            (λ h. not_first w c q b h)
            (λ h. (
              inside_below w c (v ∷ a) rv h,
              below_self c w b h rb.1,
              inside_below w c (v ∷ a) rv h,
              inside_below w c b rb.1 h,
            )))
  ]
