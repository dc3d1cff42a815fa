-- ===== src/Unicode/CharRange/Loop.antt =====
-- The loop of `cr_op` (cxx/quickjs/libunicode.c) with its growing block.
use flutter_quickjs.Prelude.{ℕ, ◌+◌, ◌*◌, ◌/◌, ◌≤◌, max, ◌≡◌, refl, ap, arith}
use flutter_quickjs.Prelude.{Bool, true, false, not, List, [], ◌∷◌, ◌++◌, ltb, leb}
use flutter_quickjs.Prelude.{
  if◌then◌else◌, Bool-cases, compare-cases, ◌⊎◌, inl, inr, xor, append_assoc, append-nil,
}
use flutter_quickjs.Prelude.{length-append, length}
use flutter_quickjs.Unicode.CharRange.{
  CharRange, len, CharRangeOp, Outcome, ok, failed, fault, ◌>>=◌,
}
use flutter_quickjs.Unicode.CharRange.{
  odd, combine, compress_points, cr_compress, cr_realloc, cr_add_point, store_points,
}
use flutter_quickjs.Unicode.CharRange.{op_point, op_loop}
use flutter_quickjs.Unicode.CharRange.Members.{length-compress}
use flutter_quickjs.Unicode.CharRange.Merge.{odd-suc, change, op_points}

-- The points fit into the block.
abbrev pub Fits : CharRange → Type 0
Fits cr = len cr ≤ cr.size

module _ (grant : ℕ → Bool) where
  -- A call that leaves the points `pt`, and stores nothing outside the block; it fails only if a
  -- block is refused.
  abbrev pub Yields : List ℕ → Outcome → Type 0
  Yields pt (ok c) = (c.points ≡ pt) × Fits c
  Yields pt (failed c) = (n : ℕ) × (grant n ≡ false)
  Yields pt fault = ⊥

  -- `cr_realloc` makes room and leaves the points.
  abbrev pub MakesRoom : CharRange → ℕ → Outcome → Type 0
  MakesRoom cr n (ok c) = (c.points ≡ cr.points) × (n ≤ c.size)
  MakesRoom cr n (failed c) = (n : ℕ) × (grant n ≡ false)
  MakesRoom cr n fault = ⊥

  pub cr_realloc-MakesRoom : (cr : CharRange) (n : ℕ) → MakesRoom cr n (cr_realloc grant cr n)
  unfolding cr_realloc
  cr_realloc-MakesRoom cr n = elim (Bool-cases (ltb cr.size n)) [
    | inl e ↦ rw e (granted (Bool-cases (grant (max n (cr.size * 3 / 2)))))
    | inr e ↦ rw e (refl, ground arith)
  ]
    where
      granted :
          (grant (max n (cr.size * 3 / 2)) ≡ true) ⊎ (grant (max n (cr.size * 3 / 2)) ≡ false)
          → MakesRoom cr n (
              if grant (max n (cr.size * 3 / 2))
              then ok (record cr { size = max n (cr.size * 3 / 2) })
              else failed cr)
      granted (inl g) = rw g (refl, omega arith)
      granted (inr g) = rw g (_, g)

  then_room :
      (cr : CharRange) (n : ℕ) (pt : List ℕ) (o : Outcome) (f : CharRange → Outcome)
      → MakesRoom cr n o
      → ((c : CharRange) → c.points ≡ cr.points → n ≤ c.size → Yields pt (f c))
      → Yields pt (o >>= f)
  then_room cr n pt (ok c) f (e, room) k = k c e room
  then_room cr n pt (failed c) f g k = g
  then_room cr n pt fault f g k = absurd g

  -- Points for which there is room are stored.
  pub store_points-Yields :
      (c : CharRange) (pt pt' : List ℕ)
      → pt ≡ pt'
      → length pt ≤ c.size
      → Yields pt' (store_points c pt)
  unfolding store_points
  store_points-Yields c pt pt' e h =
      let room : leb (length pt) c.size ≡ true = ground arith in rw (store_points, room) (e, h)

  -- `cr_add_point` appends the point.
  pub cr_add_point-Yields :
      (cr : CharRange) (v : ℕ) → Fits cr → Yields (cr.points ++ v ∷ []) (cr_add_point grant cr v)
  unfolding cr_add_point
  cr_add_point-Yields cr v h = then_room cr (len cr + 1) _ _ _ room (λ c e r.
      store_points-Yields c (c.points ++ v ∷ []) (cr.points ++ v ∷ []) (ap (λ t. t ++ v ∷ []) e)
        (omega (arith, ap length e, length-append c.points (v ∷ []))))
    where
      room :
          MakesRoom cr
            (len cr + 1)
            (if leb cr.size (len cr) then cr_realloc grant cr (len cr + 1) else ok cr)
      room = elim (Bool-cases (leb cr.size (len cr))) [
        | inl e ↦ rw e (cr_realloc-MakesRoom cr (len cr + 1))
        | inr e ↦ rw e (refl, ground arith)
      ]

  module _ (op : CharRangeOp) where
    -- The number of points in the range tells the status.
    abbrev InStep : CharRange → ℕ → ℕ → Type 0
    InStep cr a_idx b_idx = odd (len cr) ≡ combine op (odd a_idx) (odd b_idx)

    -- One round: the point is put in if the status changes.
    abbrev Rounds : CharRange → ℕ → ℕ → ℕ → Bool → Outcome → Type 0
    Rounds cr a_idx b_idx v before (ok c) =
        ((rest : List ℕ)
          → c.points ++ rest
            ≡ cr.points ++ change before (combine op (odd a_idx) (odd b_idx)) v rest)
        × InStep c a_idx b_idx
        × Fits c
    Rounds cr a_idx b_idx v before (failed c) = (n : ℕ) × (grant n ≡ false)
    Rounds cr a_idx b_idx v before fault = ⊥

    point_added :
        (cr : CharRange) (a_idx b_idx v : ℕ) (o : Outcome)
        → xor (combine op (odd a_idx) (odd b_idx)) (odd (len cr)) ≡ true
        → Yields (cr.points ++ v ∷ []) o
        → Rounds cr a_idx b_idx v (odd (len cr)) o
    point_added cr a_idx b_idx v (ok c) t (e, f) = (
      (λ rest. rw (e, t) (append_assoc cr.points (v ∷ []) rest)),
      rw (e, length-append, odd-suc) (flipped _ _ t),
      f,
    )
      where
        flipped : (s u : Bool) → xor s u ≡ true → not u ≡ s
        flipped s u h = ground arith
    point_added cr a_idx b_idx v (failed c) t y = y
    point_added cr a_idx b_idx v fault t y = absurd y

    op_point-Rounds :
        (cr : CharRange) (a_idx b_idx v : ℕ)
        → Fits cr
        → Rounds cr a_idx b_idx v (odd (len cr)) (op_point grant op cr a_idx b_idx v)
    unfolding op_point
    op_point-Rounds cr a_idx b_idx v h =
        elim (Bool-cases (xor (combine op (odd a_idx) (odd b_idx)) (odd (len cr)))) [
          | inl t ↦ rw t (point_added cr a_idx b_idx v _ t (cr_add_point-Yields cr v h))
          | inr t ↦ rw t ((λ rest. rw t), same _ _ t, h)
        ]
      where
        same : (s u : Bool) → xor s u ≡ false → u ≡ s
        same s u h = ground arith

    -- The rounds that follow one.
    then-Rounds :
        (cr : CharRange) (a_idx b_idx v : ℕ) (before : Bool) (o : Outcome) (f : CharRange → Outcome)
        (rest : List ℕ)
        → Rounds cr a_idx b_idx v before o
        → ((c : CharRange)
            → Fits c
            → InStep c a_idx b_idx
            → Yields (compress_points (c.points ++ rest)) (f c))
        → Yields
            (compress_points
              (cr.points ++ change before (combine op (odd a_idx) (odd b_idx)) v rest))
            (o >>= f)
    then-Rounds cr a_idx b_idx v before (ok c) f rest (e, s, h) k = rw (← e rest) (k c h s)
    then-Rounds cr a_idx b_idx v before (failed c) f rest r k = r
    then-Rounds cr a_idx b_idx v before fault f rest r k = absurd r

    -- The loop puts the points of the changes behind those there are, and compresses them.
    pub op_loop-Yields :
        (cr : CharRange) (a_idx : ℕ) (a : List ℕ) (b_idx : ℕ) (b : List ℕ)
        → Fits cr
        → InStep cr a_idx b_idx
        → Yields
            (compress_points (cr.points ++ op_points op (odd a_idx) a (odd b_idx) b))
            (op_loop grant op cr a_idx a b_idx b)
    unfolding op_loop op_points
    op_loop-Yields cr a_idx [] b_idx [] h s =
        unfold cr_compress in (rw (append-nil cr.points), omega (arith, length-compress cr.points))
    op_loop-Yields cr a_idx (v ∷ a) b_idx [] h s =
        rw (← s, ← odd-suc a_idx)
          (then-Rounds cr (a_idx + 1) b_idx v _ _ _ _ (op_point-Rounds cr (a_idx + 1) b_idx v h)
            (λ c f t. op_loop-Yields c (a_idx + 1) a b_idx [] f t))
    op_loop-Yields cr a_idx [] b_idx (w ∷ b) h s =
        rw (← s, ← odd-suc b_idx)
          (then-Rounds cr a_idx (b_idx + 1) w _ _ _ _ (op_point-Rounds cr a_idx (b_idx + 1) w h)
            (λ c f t. op_loop-Yields c a_idx [] (b_idx + 1) b f t))
    op_loop-Yields cr a_idx (v ∷ a) b_idx (w ∷ b) h s = elim (compare-cases v w) [
      | inl (e, lt) ↦
          rw (e, op_loop, op_points, ← s, ← odd-suc a_idx)
            (then-Rounds cr (a_idx + 1) b_idx v _ _ _ _ (op_point-Rounds cr (a_idx + 1) b_idx v h)
              (λ c f t. op_loop-Yields c (a_idx + 1) a b_idx (w ∷ b) f t))
      | inr (inl (e, eq)) ↦
          rw (e, op_loop, op_points, ← s, ← odd-suc a_idx, ← odd-suc b_idx)
            (then-Rounds cr (a_idx + 1) (b_idx + 1) v _ _ _ _
              (op_point-Rounds cr (a_idx + 1) (b_idx + 1) v h)
              (λ c f t. op_loop-Yields c (a_idx + 1) a (b_idx + 1) b f t))
      | inr (inr (e, gt)) ↦
          rw (e, op_loop, op_points, ← s, ← odd-suc b_idx)
            (then-Rounds cr a_idx (b_idx + 1) w _ _ _ _ (op_point-Rounds cr a_idx (b_idx + 1) w h)
              (λ c f t. op_loop-Yields c a_idx (v ∷ a) (b_idx + 1) b f t))
    ]
