-- ===== src/Linked/Ring.antt =====
-- The rings of cxx/quickjs/list.h: a head and the nodes of its list, linked both ways.
use flutter_quickjs.Prelude.{All-split, All-join}
use flutter_quickjs.Prelude.{
  ℕ, ◌≡◌, ◌≢◌, arith, refl, sym, ap, ◌∙◌, ◌⊎◌, inl, inr, List, [], ◌∷◌, ◌++◌, All, append_assoc,
  append-nil,
}
use mathlib.Core.Path.{subst}
use flutter_quickjs.Linked.{Links, write}

-- Each node of the list and the one after it are linked both ways.
abbrev pub Linked : Links → List ℕ → Type 0
Linked s [] = Unit
Linked s (a ∷ []) = Unit
Linked s (a ∷ b ∷ l) = (s.next a ≡ b) × (s.prev b ≡ a) × Linked s (b ∷ l)

-- No node stands twice.
abbrev pub Distinct : List ℕ → Type 0
Distinct [] = Unit
Distinct (a ∷ l) = All (λ b. b ≢ a) l × Distinct l

-- The ring at `head` is the list `l`.
pub record IsRing (s : Links) (head : ℕ) (l : List ℕ) : Type 0 where
  pub linked : Linked s (head ∷ l ++ head ∷ [])
  pub distinct : Distinct (head ∷ l)

pub write_same : (f : ℕ → ℕ) (p v : ℕ) → write f p v p ≡ v
unfolding write
write_same f p v = ground arith

pub write_other : (f : ℕ → ℕ) (p v q : ℕ) → q ≢ p → write f p v q ≡ f q
unfolding write
write_other f p v q h = ground arith

-- A store that agrees on the nodes that a list leaves by `next` and enters by `prev`.
module _ (s s' : Links) where
  pub Linked-frame :
      (a : ℕ) (l : List ℕ) (b : ℕ)
      → Linked s (a ∷ l ++ b ∷ [])
      → All (λ i. s'.next i ≡ s.next i) (a ∷ l)
      → All (λ i. s'.prev i ≡ s.prev i) l
      → s'.prev b ≡ s.prev b
      → Linked s' (a ∷ l ++ b ∷ [])
  Linked-frame a [] b (n, p, _) (e, _) _ e' = (e ∙ n, e' ∙ p, tt)
  Linked-frame a (c ∷ l) b (n, p, r) (e, es) (f, fs) e' =
      (e ∙ n, f ∙ p, Linked-frame c l b r es fs e')

module _ (s : Links) where
  pub Linked-split :
      (l : List ℕ) (a : ℕ) (m : List ℕ)
      → Linked s (l ++ a ∷ m)
      → Linked s (l ++ a ∷ []) × Linked s (a ∷ m)
  Linked-split [] a m h = (tt, h)
  Linked-split (b ∷ []) a m (n, p, r) = ((n, p, tt), r)
  Linked-split (b ∷ c ∷ l) a m (n, p, r) = let (x, y) = Linked-split (c ∷ l) a m r in ((n, p, x), y)

  pub Linked-join :
      (l : List ℕ) (a : ℕ) (m : List ℕ)
      → Linked s (l ++ a ∷ [])
      → Linked s (a ∷ m)
      → Linked s (l ++ a ∷ m)
  Linked-join [] a m h k = k
  Linked-join (b ∷ []) a m (n, p, _) k = (n, p, k)
  Linked-join (b ∷ c ∷ l) a m (n, p, r) k = (n, p, Linked-join (c ∷ l) a m r k)

module _ {P Q R : ℕ → Type 0} (f : (i : ℕ) → P i → Q i → R i) where
  pub All-both : (l : List ℕ) → All P l → All Q l → All R l
  All-both [] h k = tt
  All-both (a ∷ l) (p, h) (q, k) = (f a p q, All-both l h k)

Distinct-push :
    (l : List ℕ) (a : ℕ) (m : List ℕ)
    → All (λ b. b ≢ a) (l ++ m)
    → Distinct (l ++ m)
    → Distinct (l ++ a ∷ m)
Distinct-push [] a m h d = (h, d)
Distinct-push (b ∷ l) a m (e, h) (f, d) =
    let (x, y) = All-split (λ c. c ≢ b) l m f in
    (All-join (λ c. c ≢ b) l (a ∷ m) x ((λ g. e (sym g)), y), Distinct-push l a m h d)

pub Distinct-swap : (l m : List ℕ) → Distinct (l ++ m) → Distinct (m ++ l)
Distinct-swap [] m d = subst Distinct (sym (append-nil m)) d
Distinct-swap (a ∷ l) m (h, d) =
    let (x, y) = All-split (λ c. c ≢ a) l m h in
    Distinct-push m a l (All-join (λ c. c ≢ a) m l y x) (Distinct-swap l m d)

-- A ring can be read from any of its nodes.
pub rotate :
    (s : Links) (a : ℕ) (l : List ℕ) (b : ℕ) (m : List ℕ)
    → IsRing s a (l ++ b ∷ m)
    → IsRing s b (m ++ a ∷ l)
rotate s a l b m ring = record {
  linked =
      subst (Linked s) (sym (append_assoc (b ∷ m) (a ∷ l) (b ∷ [])))
        (Linked-join s (b ∷ m) a (l ++ b ∷ []) parts.1 parts.0);
  distinct = Distinct-swap (a ∷ l) (b ∷ m) ring.distinct;
}
  where
    parts : Linked s (a ∷ l ++ b ∷ []) × Linked s (b ∷ m ++ a ∷ [])
    parts =
        Linked-split s (a ∷ l) b (m ++ a ∷ [])
          (subst (Linked s) (append_assoc (a ∷ l) (b ∷ m) (a ∷ [])) ring.linked)

-- A node that is not in the ring.
abbrev pub Fresh : ℕ → List ℕ → Type 0
Fresh el l = All (λ b. b ≢ el) l

-- Either nothing, or a list with a last node.
abbrev pub LastOf : List ℕ → Type 0
LastOf r = (r ≡ []) ⊎ (r' : List ℕ) × (p : ℕ) × (r ≡ r' ++ p ∷ [])

pub last_of : (r : List ℕ) → LastOf r
last_of [] = inl refl
last_of (a ∷ r) = elim (last_of r) [
  | inl e ↦ inr ([], a, ap (λ (t : List ℕ). a ∷ t) e)
  | inr (r', p, e) ↦ inr (a ∷ r', p, ap (λ (t : List ℕ). a ∷ t) e)
]
