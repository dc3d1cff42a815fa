-- ===== src/JsString/Compare/Ordered.antt =====
-- The order that `js_string_compare` of cxx/quickjs/quickjs.c gives to strings.
use flutter_quickjs.Prelude.{
  ℕ, zero, suc, ◌-◌, ◌%◌, ◌^◌, ◌<◌, ◌≤◌, ◌≡◌, ◌⊎◌, arith, refl, sym, ap, ◌∙◌, Option, none, some,
  List, [], ◌∷◌, length, take, All, if◌then◌else◌, ltb, ◌==◌, min, inl, inr, compare-cases,
  same_or_other,
}
use flutter_quickjs.Lines.{minus}
use flutter_quickjs.JsString.{JsString, str8, str16, units}
use flutter_quickjs.JsString.Compare.{
  memcmp_loop, negated, compare_len, js_string_memcmp, js_string_compare,
}

pub data Order : Type 0 where
  less same more : Order

-- The lexicographic order of lists of characters.
unfoldable pub order : (xs ys : List ℕ) → Order
order [] [] = same
order [] (y ∷ ys) = less
order (x ∷ xs) [] = more
order (x ∷ xs) (y ∷ ys) = if ltb x y then less else if x == y then order xs ys else more

-- The sign of an `int`.
unfoldable pub sign : ℕ → Order
sign r = if r == 0 then same else if ltb r (2 ^ 31) then more else less

-- The second order decides when the first does not.
then_by : Order → Order → Order
then_by less o = less
then_by same o = o
then_by more o = more

flip : Order → Order
flip less = more
flip same = same
flip more = less

order-flip : (xs ys : List ℕ) → order xs ys ≡ flip (order ys xs)
unfolding order flip
order-flip [] [] = refl
order-flip [] (y ∷ ys) = refl
order-flip (x ∷ xs) [] = refl
order-flip (x ∷ xs) (y ∷ ys) = elim (compare-cases x y) [
  | inl (e, h) ↦ ground arith
  | inr (inl (e, h)) ↦ ground (arith, order-flip xs ys)
  | inr (inr (e, h)) ↦ ground arith
]

-- `-x` for an `int` that is not the least one.
sign-flip : (r : ℕ) → r < 2 ^ 32 → ¬ (r ≡ 2 ^ 31) → sign ((2 ^ 32 - r) % 2 ^ 32) ≡ flip (sign r)
unfolding sign flip
sign-flip r h k = ground arith

-- The common prefix decides, and then the lengths.
order_prefix :
    (xs ys : List ℕ)
    → order xs ys
      ≡ then_by
          (order (take (min (length xs) (length ys)) xs) (take (min (length xs) (length ys)) ys))
          (sign (compare_len (length xs) (length ys)))
unfolding order then_by sign compare_len
order_prefix [] [] = refl
order_prefix [] (y ∷ ys) = ground arith
order_prefix (x ∷ xs) [] = ground arith
order_prefix (x ∷ xs) (y ∷ ys) =
    let e : min (length (x ∷ xs)) (length (y ∷ ys)) ≡ suc (min (length xs) (length ys)) =
      omega arith in
    rw e (elim (compare-cases x y) [
      | inl (e, h) ↦ ground arith
      | inr (inl (e, h)) ↦ ground (arith, order_prefix xs ys)
      | inr (inr (e, h)) ↦ ground arith
    ])

-- An `int` between -65535 and 65535
abbrev IsNear : ℕ → Type 0
IsNear r = (r ≤ 65535) ⊎ ((2 ^ 32 - 65535 ≤ r) × (r < 2 ^ 32))

-- The characters are of 16 bits.
abbrev pub AreUnits : List ℕ → Type 0
AreUnits = All (λ c. c < 2 ^ 16)

-- A result of a comparison of `xs` with `ys`.
abbrev Compares : (xs ys : List ℕ) → Option ℕ → Type 0
Compares xs ys found = (r : ℕ) × ((found ≡ some r) × ((sign r ≡ order xs ys) × IsNear r))

module _ (len a b : ℕ) (src1 src2 : List ℕ) (a_small : a < 2 ^ 16) (b_small : b < 2 ^ 16) where
  differs :
      (a < b) ⊎ (b < a)
      → Compares
          (a ∷ take len src1)
          (b ∷ take len src2)
          (memcmp_loop (suc len) (a ∷ src1) (b ∷ src2))
  unfolding memcmp_loop sign order
  differs (inl h) = (minus a b, (ground arith, (ground arith, inr (omega arith, omega arith))))
  differs (inr h) = (minus a b, (ground arith, (ground arith, inl (omega arith))))

  agrees :
      a ≡ b
      → Compares (take len src1) (take len src2) (memcmp_loop len src1 src2)
      → Compares
          (a ∷ take len src1)
          (b ∷ take len src2)
          (memcmp_loop (suc len) (a ∷ src1) (b ∷ src2))
  unfolding memcmp_loop order
  agrees h (r, (e, (s, near))) = (r, (ground arith, (ground arith, near)))

memcmp_loop-Compares :
    (len : ℕ) (src1 src2 : List ℕ)
    → len ≤ length src1
    → len ≤ length src2
    → AreUnits src1
    → AreUnits src2
    → Compares (take len src1) (take len src2) (memcmp_loop len src1 src2)
unfolding memcmp_loop sign order
memcmp_loop-Compares zero src1 src2 h k u v = (0, (refl, (refl, inl (omega arith))))
memcmp_loop-Compares (suc len) [] src2 h k u v = absurd (omega arith)
memcmp_loop-Compares (suc len) (a ∷ src1) [] h k u v = absurd (omega arith)
memcmp_loop-Compares (suc len) (a ∷ src1) (b ∷ src2) h k (ua, u) (ub, v) =
    elim (same_or_other a b) [
      | inl e ↦
          agrees len a b src1 src2 ua ub e
            (memcmp_loop-Compares len src1 src2 (omega arith) (omega arith) u v)
      | inr e ↦ differs len a b src1 src2 ua ub (omega arith)
    ]

negated-Compares :
    (xs ys : List ℕ) (found : Option ℕ)
    → Compares xs ys found
    → (r : ℕ) × ((negated found ≡ some r) × (sign r ≡ order ys xs))
unfolding negated
negated-Compares xs ys none (r, (e, rest)) = absurd cc
negated-Compares xs ys (some res) (r, (e, (s, near))) =
    let same_result : res ≡ r = cc in
    (
      (2 ^ 32 - res) % 2 ^ 32,
      (
        refl,
        sign-flip res (omega arith) (λ h. omega arith)
            ∙ ap flip (ap sign same_result ∙ s)
            ∙ sym (order-flip ys xs),
      ),
    )

-- What the C library says of `memcmp`: the sign of its result is the order of the first `n` bytes.
pub record IsMemcmp (memcmp : List ℕ → List ℕ → ℕ → ℕ) : Type 0 where
  pub ordered :
      (a b : List ℕ) (n : ℕ)
      → n ≤ length a
      → n ≤ length b
      → sign (memcmp a b n) ≡ order (take n a) (take n b)

module _ (memcmp : List ℕ → List ℕ → ℕ → ℕ) (m : IsMemcmp memcmp) where
  js_string_memcmp_lem :
      (p1 p2 : JsString) (n : ℕ)
      → AreUnits (units p1)
      → AreUnits (units p2)
      → n ≤ length (units p1)
      → n ≤ length (units p2)
      → (r : ℕ) × ((js_string_memcmp memcmp p1 p2 n ≡ some r)
          × (sign r ≡ order (take n (units p1)) (take n (units p2))))
  unfolding js_string_memcmp units
  js_string_memcmp_lem (str8 a) (str8 b) n u v h k = (memcmp a b n, (refl, m.ordered a b n h k))
  js_string_memcmp_lem (str8 a) (str16 b) n u v h k =
      negated-Compares (take n b) (take n a) (memcmp_loop n b a)
        (memcmp_loop-Compares n b a k h v u)
  js_string_memcmp_lem (str16 a) (str8 b) n u v h k =
      let (r, (e, (s, near))) = memcmp_loop-Compares n a b h k u v in (r, (e, s))
  js_string_memcmp_lem (str16 a) (str16 b) n u v h k =
      let (r, (e, (s, near))) = memcmp_loop-Compares n a b h k u v in (r, (e, s))

  decided :
      (res : ℕ) (o : Order) (m n : ℕ)
      → sign res ≡ o
      → sign (if res == 0 then compare_len m n else res) ≡ then_by o (sign (compare_len m n))
  unfolding sign then_by
  decided res o m n h = ground arith

  -- For strings of characters of 16 bits, `js_string_compare` reads nothing outside of them, and the
  -- sign of its result is their lexicographic order, whichever of them are stored in 8 bits.
  pub js_string_compare-order :
      (p1 p2 : JsString)
      → AreUnits (units p1)
      → AreUnits (units p2)
      → (r : ℕ) × ((js_string_compare memcmp p1 p2 ≡ some r)
          × (sign r ≡ order (units p1) (units p2)))
  unfolding js_string_compare
  js_string_compare-order p1 p2 u v =
      let n : ℕ = min (length (units p1)) (length (units p2)) in
      let (r, (e, s)) = js_string_memcmp_lem p1 p2 n u v (omega arith) (omega arith) in
      (
        if r == 0 then compare_len (length (units p1)) (length (units p2)) else r,
        (
          rw (js_string_compare, e),
          decided r (order (take n (units p1)) (take n (units p2))) (length (units p1))
                (length (units p2)) s
              ∙ sym (order_prefix (units p1) (units p2)),
        ),
      )
