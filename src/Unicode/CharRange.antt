-- ===== src/Unicode/CharRange.antt =====
-- The sets of characters of cxx/quickjs/libunicode.c and libunicode.h: `CharRange`.
-- The first `len` points are the list `points`; `size` is how many points the block has room for.
-- Whether `realloc_func` gives a block of `n` points is the argument `grant` of the operations. The
-- lengths and sizes are `int` there: they are numbers of points for which `size * 3` is below 2^31.
pub mod Members
pub mod Merge
pub mod Loop
pub mod Sets
pub mod Invert
mod Runs
use flutter_quickjs.Prelude.{
  ℕ, ◌+◌, ◌-◌, ◌*◌, ◌/◌, ◌%◌, ◌^◌, ◌<◌, ◌≤◌, max, bit_and, bit_or, bit_xor,
}
use flutter_quickjs.Prelude.{
  Bool, true, false, not, ◌&&◌, ◌||◌, Option, none, some, List, [], ◌∷◌, ◌++◌,
}
use Prim.Native.Nat.{compare, Ordering}
use flutter_quickjs.Prelude.{xor}
use flutter_quickjs.Prelude.{ltb, leb, ◌==◌, if◌then◌else◌, length}

pub record CharRange : Type 0 where
  pub points : List ℕ
  pub size : ℕ

abbrev pub len : CharRange → ℕ
len cr = length cr.points

pub data CharRangeOp : Type 0 where
  cr_union cr_inter cr_xor : CharRangeOp

unfoldable pub cr_init : CharRange
cr_init = record { points = []; size = 0 }

-- How an operation ends: it returns 0, or -1, with the range as it then is, or it stores points
-- outside of its block.
pub data Outcome : Type 0 where
  ok : CharRange → Outcome
  failed : CharRange → Outcome
  fault : Outcome

-- What follows `if (...) return -1;`.
infixl 5 ◌>>=◌
abbrev pub ◌>>=◌ : Outcome → (CharRange → Outcome) → Outcome
ok cr >>= f = f cr
failed cr >>= f = failed cr
fault >>= f = fault

-- The points are stored in the block as it is.
unfoldable pub store_points : CharRange → List ℕ → Outcome
store_points cr pt = if leb (length pt) cr.size then ok (record cr { points = pt }) else fault

-- `x & 1`
unfoldable pub odd : ℕ → Bool
odd n = n % 2 == 1

-- The loops of `cr_compress`. The points that are kept go to the front of the block, never past the
-- point that is read next, and are listed here. `compress_extend a b pt` is the inner loop, at the
-- interval from `a` to `b` with the points `pt` behind it: it takes in what begins where it ends.
unfoldable mutual
  pub compress_points : List ℕ → List ℕ
  compress_points [] = []
  compress_points (a ∷ []) = []
  compress_points (a ∷ b ∷ pt) =
      let skip = compress_points pt in
      let kept = compress_extend a b pt in if a == b then skip else kept

  pub compress_extend : ℕ → ℕ → List ℕ → List ℕ
  compress_extend a b [] = a ∷ b ∷ []
  compress_extend a b (c ∷ []) = a ∷ b ∷ []
  compress_extend a b (c ∷ d ∷ pt) =
      let joined = compress_extend a d pt in
      let skip = compress_points pt in
      let kept = compress_extend c d pt in
      if b == c then joined else a ∷ b ∷ (if c == d then skip else kept)

unfoldable pub cr_compress : CharRange → CharRange
cr_compress cr = record cr { points = compress_points cr.points }

-- The switch of `cr_op`, after `a_idx` points of the one set and `b_idx` of the other.
unfoldable pub combine : CharRangeOp → Bool → Bool → Bool
combine cr_union a b = a || b
combine cr_inter a b = a && b
combine cr_xor a b = xor a b

module _ (grant : ℕ → Bool) where
  unfoldable pub cr_realloc : CharRange → ℕ → Outcome
  cr_realloc cr size =
      let new_size : ℕ = max size (cr.size * 3 / 2) in
      if ltb cr.size size
      then (if grant new_size then ok (record cr { size = new_size }) else failed cr)
      else ok cr

  unfoldable pub cr_copy : CharRange → CharRange → Outcome
  cr_copy cr cr1 = do c ← cr_realloc cr (len cr1); store_points c cr1.points

  unfoldable pub cr_add_point : CharRange → ℕ → Outcome
  cr_add_point cr v = do
    c ← (if leb cr.size (len cr) then cr_realloc cr (len cr + 1) else ok cr)
    store_points c (c.points ++ v ∷ [])

  unfoldable pub cr_add_interval : CharRange → ℕ → ℕ → Outcome
  cr_add_interval cr c1 c2 = do
    c ← (if ltb cr.size (len cr + 2) then cr_realloc cr (len cr + 2) else ok cr)
    store_points c (c.points ++ c1 ∷ c2 ∷ [])

  module _ (op : CharRangeOp) where
    -- `if (is_in != (cr->len & 1)) if (cr_add_point(cr, v)) return -1;`
    unfoldable pub op_point : CharRange → ℕ → ℕ → ℕ → Outcome
    op_point cr a_idx b_idx v =
        if xor (combine op (odd a_idx) (odd b_idx)) (odd (len cr)) then cr_add_point cr v else ok cr

    -- The loop of `cr_op`; `a` and `b` are the points from `a_idx` and `b_idx` on.
    unfoldable pub op_loop : CharRange → ℕ → List ℕ → ℕ → List ℕ → Outcome
    op_loop cr a_idx [] b_idx [] = ok (cr_compress cr)
    op_loop cr a_idx (v ∷ a) b_idx [] =
        op_point cr (a_idx + 1) b_idx v >>= λ c. op_loop c (a_idx + 1) a b_idx []
    op_loop cr a_idx [] b_idx (v ∷ b) =
        op_point cr a_idx (b_idx + 1) v >>= λ c. op_loop c a_idx [] (b_idx + 1) b
    op_loop cr a_idx (v ∷ a) b_idx (w ∷ b) = elim (compare v w) [
      | Ordering.lt ↦ op_point cr (a_idx + 1) b_idx v >>= λ c. op_loop c (a_idx + 1) a b_idx (w ∷ b)
      | Ordering.eq ↦
          op_point cr (a_idx + 1) (b_idx + 1) v >>= λ c. op_loop c (a_idx + 1) a (b_idx + 1) b
      | Ordering.gt ↦ op_point cr a_idx (b_idx + 1) w >>= λ c. op_loop c a_idx (v ∷ a) (b_idx + 1) b
    ]

    unfoldable pub cr_op : CharRange → List ℕ → List ℕ → Outcome
    cr_op cr a_pt b_pt = op_loop cr 0 a_pt 0 b_pt

  unfoldable pub cr_union1 : CharRange → List ℕ → Outcome
  cr_union1 cr b_pt = cr_op cr_union (record { points = []; size = 0 }) cr.points b_pt

  -- `c2 + 1` is a `uint32_t`.
  unfoldable pub cr_union_interval : CharRange → ℕ → ℕ → Outcome
  cr_union_interval cr c1 c2 = cr_union1 cr (c1 ∷ ((c2 + 1) % 2 ^ 32) ∷ [])

  unfoldable pub cr_invert : CharRange → Outcome
  cr_invert cr = do
    c ← cr_realloc cr (len cr + 2)
    c' ← store_points c (0 ∷ c.points ++ (2 ^ 32 - 1) ∷ [])
    ok (cr_compress c')
