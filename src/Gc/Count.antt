-- ===== src/Gc/Count.antt =====
-- How often an object stands in the lists of the collector of cxx/quickjs/quickjs.c.
use flutter_quickjs.Prelude.{
  ℕ, suc, ◌+◌, ◌<◌, ◌≤◌, ◌≡◌, ◌≢◌, arith, refl, ap, inl, inr, some, List, [], ◌∷◌, ◌++◌, length,
  if◌then◌else◌, ◌==◌, same_or_other,
}
use flutter_quickjs.Linked.{write}
use flutter_quickjs.Gc.{remove, first_in, next_in}

-- 1 for two objects that are the same, else 0.
abbrev pub one_if : ℕ → ℕ → ℕ
one_if p q = if p == q then 1 else 0

unfoldable pub count : ℕ → List ℕ → ℕ
count o [] = 0
count o (x ∷ xs) = one_if x o + count o xs

pub count-append : (o : ℕ) (xs ys : List ℕ) → count o (xs ++ ys) ≡ count o xs + count o ys
unfolding count
count-append o [] ys = omega arith
count-append o (x ∷ xs) ys = omega (arith, count-append o xs ys)

pub one_if_same : (p : ℕ) → one_if p p ≡ 1
one_if_same p = ground arith

pub one_if_other : (p q : ℕ) → p ≢ q → one_if p q ≡ 0
one_if_other p q h = ground arith

pub count-remove :
    (o p : ℕ) (xs : List ℕ) → 0 < count p xs → count o (remove p xs) + one_if p o ≡ count o xs
unfolding count remove
count-remove o p [] h = absurd (omega arith)
count-remove o p (x ∷ xs) h = elim (same_or_other x p) [
  | inl e ↦ ground arith
  | inr e ↦ let r = count-remove o p xs (omega (arith, one_if_other x p e)) in ground arith
]

pub remove_absent : (p : ℕ) (xs : List ℕ) → count p xs ≡ 0 → remove p xs ≡ xs
unfolding count remove
remove_absent p [] h = refl
remove_absent p (x ∷ xs) h =
    let r = remove_absent p xs (omega arith) in ground (arith, ap (λ (t : List ℕ). x ∷ t) r)

pub remove-append_left :
    (p : ℕ) (xs ys : List ℕ) → 0 < count p xs → remove p (xs ++ ys) ≡ remove p xs ++ ys
unfolding count remove
remove-append_left p [] ys h = absurd (omega arith)
remove-append_left p (x ∷ xs) ys h = elim (same_or_other x p) [
  | inl e ↦ ground arith
  | inr e ↦
      let r = remove-append_left p xs ys (omega (arith, one_if_other x p e)) in
      ground (arith, ap (λ (t : List ℕ). x ∷ t) r)
]

pub remove-append_at :
    (p : ℕ) (xs ys : List ℕ) → count p xs ≡ 0 → remove p (xs ++ p ∷ ys) ≡ xs ++ ys
unfolding count remove
remove-append_at p [] ys h = ground arith
remove-append_at p (x ∷ xs) ys h =
    let r = remove-append_at p xs ys (omega arith) in ground (arith, ap (λ (t : List ℕ). x ∷ t) r)

pub next_in-append :
    (p : ℕ) (xs ys : List ℕ) → count p xs ≡ 0 → next_in p (xs ++ p ∷ ys) ≡ some (first_in ys)
unfolding count next_in
next_in-append p [] ys h = ground arith
next_in-append p (x ∷ xs) ys h = let r = next_in-append p xs ys (omega arith) in ground arith

pub write_at : (f : ℕ → ℕ) (p v : ℕ) → write f p v p ≡ v
unfolding write
write_at f p v = ground arith

pub write_else : (f : ℕ → ℕ) (p v q : ℕ) → p ≢ q → write f p v q ≡ f q
unfolding write
write_else f p v q h = ground arith

pub length-remove : (p : ℕ) (xs : List ℕ) → 0 < count p xs → suc (length (remove p xs)) ≡ length xs
unfolding count remove
length-remove p [] h = absurd (omega arith)
length-remove p (x ∷ xs) h = elim (same_or_other x p) [
  | inl e ↦ ground arith
  | inr e ↦ let r = length-remove p xs (omega (arith, one_if_other x p e)) in ground arith
]

-- A list that holds nothing more often than another is not longer.
pub lengths_le : (xs ys : List ℕ) → ((o : ℕ) → count o xs ≤ count o ys) → length xs ≤ length ys
unfolding count
lengths_le [] ys h = omega arith
lengths_le (x ∷ xs) ys h =
    let there : 0 < count x ys = omega (arith, h x, one_if_same x) in
    omega (
      arith,
      length-remove x ys there,
      lengths_le xs (remove x ys) (λ o. omega (arith, h o, count-remove o x ys there)),
    )
