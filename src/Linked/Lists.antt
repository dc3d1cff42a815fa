-- ===== src/Linked/Lists.antt =====
-- The operations of cxx/quickjs/list.h against lists.
use flutter_quickjs.Prelude.{All-split}
use flutter_quickjs.Prelude.{
  ℕ, ◌≡◌, ◌≢◌, arith, sym, ap, ◌∙◌, inl, inr, Bool, true, false, List, [], ◌∷◌, ◌++◌, append_assoc,
  append-nil,
}
use mathlib.Core.Path.{subst}
use flutter_quickjs.Linked.{
  Links, init_list_head, list_add_between, list_add, list_add_tail, list_del, list_empty,
}
use flutter_quickjs.Linked.Ring.{IsRing, Fresh, last_of, rotate, write_same}
use flutter_quickjs.Linked.Changes.{list_add-IsRing, IsRing-without}

-- `head` is linked to itself.
init_list_head-IsRing : (s : Links) (head : ℕ) → IsRing (init_list_head s head) head []
unfolding init_list_head
init_list_head-IsRing s head = record {
  linked = (write_same s.next head head, write_same s.prev head head, tt);
  distinct = (tt, tt);
}

-- With the node before `head`, the tail is added as the head is.
add_at_last :
    (s : Links) (el head y : ℕ)
    → s.prev head ≡ y
    → s.next y ≡ head
    → list_add_tail s el head ≡ list_add s el y
unfolding list_add list_add_tail
add_at_last s el head y before after =
    ap (λ (t : ℕ). list_add_between s el t head) before
    ∙ ap (λ (t : ℕ). list_add_between s el y t) (sym after)

module _ (s : Links) (el head : ℕ) where
  list_add_tail-IsRing :
      (l : List ℕ)
      → Fresh el (head ∷ l)
      → IsRing s head l
      → IsRing (list_add_tail s el head) head (l ++ el ∷ [])
  list_add_tail-IsRing l fresh ring = elim (last_of l) [
    | inl e ↦ from_empty (subst (IsRing s head) e ring) e
    | inr (m, y, e) ↦
        from_last m y (subst (Fresh el) (ap (λ (t : List ℕ). head ∷ t) e) fresh)
          (subst (IsRing s head) e ring) e
  ]
    where
      from_empty : IsRing s head [] → l ≡ [] → IsRing (list_add_tail s el head) head (l ++ el ∷ [])
      from_empty whole e =
          subst (λ (t : List ℕ). IsRing (list_add_tail s el head) head (t ++ el ∷ [])) (sym e)
            (subst (λ (t : Links). IsRing t head (el ∷ []))
              (sym (add_at_last s el head head whole.linked.1 whole.linked.0))
              (list_add-IsRing s el head [] (fresh.0, tt) whole))

      from_last :
          (m : List ℕ) (y : ℕ)
          → Fresh el (head ∷ m ++ y ∷ [])
          → IsRing s head (m ++ y ∷ [])
          → l ≡ m ++ y ∷ []
          → IsRing (list_add_tail s el head) head (l ++ el ∷ [])
      from_last m y away whole e =
          subst (λ (t : List ℕ). IsRing (list_add_tail s el head) head (t ++ el ∷ [])) (sym e)
            (subst (IsRing (list_add_tail s el head) head) (sym (append_assoc m (y ∷ []) (el ∷ [])))
              (subst (λ (t : Links). IsRing t head (m ++ y ∷ el ∷ []))
                (sym (add_at_last s el head y turned_back turned.linked.0))
                (rotate (list_add s el y) y (el ∷ []) head m
                  (list_add-IsRing s el y (head ∷ m) apart turned))))
        where
          turned : IsRing s y (head ∷ m)
          turned = rotate s head m y [] whole

          turned_back : s.prev head ≡ y
          turned_back = turned.linked.1

          apart : Fresh el (y ∷ head ∷ m)
          apart = let (a, b) = All-split (λ i. i ≢ el) (head ∷ m) (y ∷ []) away in (b.0, a)

  list_del-IsRing :
      (m k : List ℕ) → IsRing s head (m ++ el ∷ k) → IsRing (list_del s el) head (m ++ k)
  list_del-IsRing m k ring = from_turned k (rotate s head m el k ring)
    where
      from_turned :
          (k : List ℕ) → IsRing s el (k ++ head ∷ m) → IsRing (list_del s el) head (m ++ k)
      from_turned [] turned =
          subst (IsRing (list_del s el) head) (sym (append-nil m))
            (IsRing-without s el head m turned)
      from_turned (n ∷ r) turned =
          rotate (list_del s el) n r head m (IsRing-without s el n (r ++ head ∷ m) turned)

-- The calls that change a list.
pub data Op : Type 0 where
  add add_tail del : (el : ℕ) → Op

abbrev pub apply : Links → ℕ → Op → Links
apply s head (add el) = list_add s el head
apply s head (add_tail el) = list_add_tail s el head
apply s head (del el) = list_del s el

-- What each call means for the list of a head: a node that is not in it is put first or last, or
-- one that is in it is taken out.
pub data Edits (head : ℕ) : Op → List ℕ → List ℕ → Type 0 where
  put_first : {el : ℕ} {l : List ℕ} → Fresh el (head ∷ l) → Edits head (add el) l (el ∷ l)
  put_last : {el : ℕ} {l : List ℕ} → Fresh el (head ∷ l) → Edits head (add_tail el) l (l ++ el ∷ [])
  take_out : {el : ℕ} (m k : List ℕ) → Edits head (del el) (m ++ el ∷ k) (m ++ k)

-- The list of a head after a sequence of calls.
pub data Edited (head : ℕ) : List Op → List ℕ → List ℕ → Type 0 where
  unchanged : {l : List ℕ} → Edited head [] l l
  then_edited :
      {op : Op} {ops : List Op} {l l' l'' : List ℕ}
      → Edits head op l l'
      → Edited head ops l' l''
      → Edited head (op ∷ ops) l l''

unfoldable pub apply_all : Links → ℕ → List Op → Links
apply_all s head [] = s
apply_all s head (op ∷ ops) = apply_all (apply s head op) head ops

apply-IsRing :
    {s : Links} {head : ℕ} {op : Op} {l l' : List ℕ}
    → Edits head op l l'
    → IsRing s head l
    → IsRing (apply s head op) head l'
apply-IsRing {s = s} {head = head} {l = l} (put_first {el = el} fresh) ring =
    list_add-IsRing s el head l fresh ring
apply-IsRing {s = s} {head = head} {l = l} (put_last {el = el} fresh) ring =
    list_add_tail-IsRing s el head l fresh ring
apply-IsRing {s = s} {head = head} (take_out {el = el} m k) ring =
    list_del-IsRing s el head m k ring

Edited-IsRing :
    {head : ℕ} {ops : List Op} {l l' : List ℕ}
    → Edited head ops l l'
    → (s : Links) → IsRing s head l
    → IsRing (apply_all s head ops) head l'
unfolding apply_all
Edited-IsRing unchanged s ring = ring
Edited-IsRing {head = head} (then_edited {op = op} e es) s ring =
    Edited-IsRing es (apply s head op) (apply-IsRing e ring)

abbrev is_nil : List ℕ → Bool
is_nil [] = true
is_nil (x ∷ l) = false

-- `list_empty` tells whether the list of a ring is empty.
list_empty_lem :
    (s : Links) (head : ℕ) (l : List ℕ) → IsRing s head l → list_empty s head ≡ is_nil l
unfolding list_empty
list_empty_lem s head [] ring = let after : s.next head ≡ head = ring.linked.0 in ground arith
list_empty_lem s head (x ∷ m) ring =
    let after : s.next head ≡ x = ring.linked.0 in
    let other : x ≢ head = ring.distinct.0.0 in ground arith

-- From a head that is initialised, any sequence of calls that puts nodes first or last which are not
-- in the list, and takes out nodes which are, leaves a ring that is the list so edited: every node
-- is linked both ways to its neighbour, and none stands twice.
pub calls-IsRing :
    (s : Links) (head : ℕ) (ops : List Op) (l : List ℕ)
    → Edited head ops [] l
    → IsRing (apply_all (init_list_head s head) head ops) head l
calls-IsRing s head ops l e = Edited-IsRing e (init_list_head s head) (init_list_head-IsRing s head)
