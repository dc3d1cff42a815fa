-- ===== src/Cutils/Strings/Compare.antt =====
-- `strstart` and `has_suffix` of cxx/quickjs/cutils.c decide whether a string begins or ends so.
use flutter_quickjs.Prelude.{ℕ, zero, suc, ◌-◌, ◌≡◌, refl, ap, ap₂, sym, ◌∙◌, arith}
use flutter_quickjs.Prelude.{some, List, [], ◌∷◌, ◌++◌, length, take, drop, ◌↔◌, ◌==◌}
use flutter_quickjs.Prelude.{true, take-append-drop, length-append, Bool-cases, inl, inr}
use flutter_quickjs.Cutils.Strings.{strstart, has_suffix, same_bytes}

strstart_finds : (val rest : List ℕ) → strstart (val ++ rest) val ≡ some rest
unfolding strstart
strstart_finds [] rest = refl
strstart_finds (d ∷ val) rest = ground (arith, strstart_finds val rest)

strstart_found : (str val rest : List ℕ) → strstart str val ≡ some rest → str ≡ val ++ rest
unfolding strstart
strstart_found str [] rest e = ground arith
strstart_found [] (d ∷ val) rest e = absurd (cc)
strstart_found (c ∷ str) (d ∷ val) rest e = elim (Bool-cases (c == d)) [
  | inl t ↦ ap₂ ◌∷◌ (ground arith) (strstart_found str val rest (ground arith))
  | inr t ↦ absurd (ground arith)
]

-- `strstart` succeeds exactly when the string begins with `val`, and gives what follows.
pub strstart-Starts : (str val rest : List ℕ) → (strstart str val ≡ some rest) ↔ (str ≡ val ++ rest)
strstart-Starts str val rest = (strstart_found str val rest, λ e. rw e (strstart_finds val rest))

same_bytes_refl : (xs : List ℕ) → same_bytes xs xs ≡ true
unfolding same_bytes
same_bytes_refl [] = refl
same_bytes_refl (a ∷ xs) = ground (arith, same_bytes_refl xs)

same_bytes_equal : (xs ys : List ℕ) → same_bytes xs ys ≡ true → xs ≡ ys
unfolding same_bytes
same_bytes_equal [] [] e = refl
same_bytes_equal [] (b ∷ ys) e = absurd (cc)
same_bytes_equal (a ∷ xs) [] e = absurd (cc)
same_bytes_equal (a ∷ xs) (b ∷ ys) e =
    ap₂ ◌∷◌ (ground arith) (same_bytes_equal xs ys (ground arith))

drop_after : (t r : List ℕ) (n : ℕ) → n ≡ length t → drop n (t ++ r) ≡ r
drop_after [] r zero e = refl
drop_after [] r (suc n) e = absurd (omega arith)
drop_after (c ∷ t) r zero e = absurd (omega arith)
drop_after (c ∷ t) r (suc n) e = drop_after t r n (omega arith)

-- `has_suffix` holds exactly when the string ends with `suffix`.
pub has_suffix-Ends :
    (str suffix : List ℕ)
    → (has_suffix str suffix ≡ true) ↔ ((pre : List ℕ) × (str ≡ pre ++ suffix))
unfolding has_suffix
has_suffix-Ends str suffix = (
  λ e.
      let n = length str - length suffix in
      let d : drop n str ≡ suffix = same_bytes_equal (drop n str) suffix (ground arith) in
      (take n str, sym (take-append-drop n str) ∙ ap (λ t. take n str ++ t) d),
  λ (pre, e). rw e (
      let l = length-append pre suffix in
      let n : length (pre ++ suffix) - length suffix ≡ length pre = omega (arith, l) in
      rw (drop_after pre suffix (length (pre ++ suffix) - length suffix) n)
        (ground (arith, l, same_bytes_refl suffix))),
)
