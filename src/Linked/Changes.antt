-- ===== src/Linked/Changes.antt =====
-- `list_add` and `list_del` of cxx/quickjs/list.h on a ring.
use flutter_quickjs.Prelude.{All-split}
use flutter_quickjs.Prelude.{
  ℕ, ◌≡◌, ◌≢◌, sym, ap₂, ◌∙◌, inl, inr, List, [], ◌∷◌, ◌++◌, All, append_assoc,
}
use mathlib.Core.Path.{subst}
use flutter_quickjs.Linked.{Links, write, list_add_between, list_add, list_del}
use flutter_quickjs.Linked.Ring.{
  Linked, IsRing, Fresh, last_of, write_same, write_other, Linked-frame, Linked-split, Linked-join,
  All-both, Distinct-swap,
}

module _ (s : Links) (el : ℕ) where
  -- `el` comes between `head` and the node after it.
  pub list_add-IsRing :
      (head : ℕ) (l : List ℕ)
      → Fresh el (head ∷ l)
      → IsRing s head l
      → IsRing (list_add s el head) head (el ∷ l)
  unfolding list_add list_add_between
  list_add-IsRing head [] (e, _) ring =
      let after : s.next head ≡ head = ring.linked.0 in
      record {
        linked = (
          write_other (write s.next head el) el (s.next head) head e ∙ write_same s.next head el,
          write_other (write s.prev el head) (s.next head) el el (λ g. e (sym after ∙ sym g))
              ∙ write_same s.prev el head,
          (
            write_same (write s.next head el) el (s.next head) ∙ after,
            subst (λ (t : ℕ). write (write s.prev el head) t el head ≡ el) (sym after)
                (write_same (write s.prev el head) head el),
            tt,
          ),
        );
        distinct = (((λ g. e (sym g)), tt), (tt, tt));
      }
  list_add-IsRing head (x ∷ m) (e, (e', fresh)) ring =
      let after : s.next head ≡ x = ring.linked.0 in
      let s' : Links = list_add_between s el head x in
      subst (λ (t : ℕ). IsRing (list_add_between s el head t) head (el ∷ x ∷ m)) (sym after)
        (record {
          linked = (
            write_other (write s.next head el) el x head e ∙ write_same s.next head el,
            write_other (write s.prev el head) x el el (λ g. e' (sym g))
                ∙ write_same s.prev el head,
            (
              write_same (write s.next head el) el x,
              write_same (write s.prev el head) x el,
              Linked-frame s s' x m head ring.linked.2
                  (All-both (λ i. next_kept i) (x ∷ m) (e', fresh) ring.distinct.0)
                  (All-both (λ i. prev_kept i) m fresh ring.distinct.1.0)
                  (prev_kept head e (λ g. ring.distinct.0.0 (sym g))),
            ),
          );
          distinct = (((λ g. e (sym g)), ring.distinct.0), ((e', fresh), ring.distinct.1));
        })
    where
      next_kept : (i : ℕ) → i ≢ el → i ≢ head → write (write s.next head el) el x i ≡ s.next i
      next_kept i h k = write_other (write s.next head el) el x i h ∙ write_other s.next head el i k

      prev_kept : (i : ℕ) → i ≢ el → i ≢ x → write (write s.prev el head) x el i ≡ s.prev i
      prev_kept i h k = write_other (write s.prev el head) x el i k ∙ write_other s.prev el head i h

module _ (s : Links) (el : ℕ) where
  -- The ring without `el`, read from the node after it.
  pub IsRing-without : (n : ℕ) (r : List ℕ) → IsRing s el (n ∷ r) → IsRing (list_del s el) n r
  unfolding list_del
  IsRing-without n r ring = elim (last_of r) [
    | inl e ↦
        subst (IsRing (list_del s el) n) (sym e)
          (alone (subst (λ (t : List ℕ). IsRing s el (n ∷ t)) e ring))
    | inr (r', p, e) ↦
        subst (IsRing (list_del s el) n) (sym e)
          (several r' p (subst (λ (t : List ℕ). IsRing s el (n ∷ t)) e ring))
  ]
    where
      after : s.next el ≡ n
      after = ring.linked.0

      -- `list_del` with the two nodes that it reads.
      without : ℕ → ℕ → Links
      without p t = record {
        next = write (write s.next p t) el 0;
        prev = write (write s.prev t p) el 0;
      }

      closes : (p : ℕ) → p ≢ el → n ≢ el → ((without p n).next p ≡ n) × ((without p n).prev n ≡ p)
      closes p h k = (
        write_other (write s.next p n) el 0 p h ∙ write_same s.next p n,
        write_other (write s.prev n p) el 0 n k ∙ write_same s.prev n p,
      )

      next_kept : (p i : ℕ) → i ≢ el → i ≢ p → (without p n).next i ≡ s.next i
      next_kept p i h k = write_other (write s.next p n) el 0 i h ∙ write_other s.next p n i k

      prev_kept : (p i : ℕ) → i ≢ el → i ≢ n → (without p n).prev i ≡ s.prev i
      prev_kept p i h k = write_other (write s.prev n p) el 0 i h ∙ write_other s.prev n p i k

      is : (p : ℕ) → s.prev el ≡ p → without p n ≡ list_del s el
      is p e = ap₂ without (sym e) (sym after)

      alone : IsRing s el (n ∷ []) → IsRing (list_del s el) n []
      alone whole =
          let (h, k) = closes n whole.distinct.0.0 whole.distinct.0.0 in
          subst (λ (t : Links). IsRing t n []) (is n whole.linked.2.1)
            (record { linked = (h, k, tt); distinct = (tt, tt) })

      several :
          (r' : List ℕ) (p : ℕ)
          → IsRing s el (n ∷ r' ++ p ∷ [])
          → IsRing (list_del s el) n (r' ++ p ∷ [])
      several r' p whole =
          let (h, k) = closes p apart.1.0 whole.distinct.0.0 in
          subst (λ (t : Links). IsRing t n (r' ++ p ∷ [])) (is p last_link.1)
            (record {
              linked =
                  subst (Linked (without p n)) (sym (append_assoc (n ∷ r') (p ∷ []) (n ∷ []))) (
                    Linked-join (without p n) (n ∷ r') p (n ∷ [])
                      (Linked-frame s (without p n) n r' p front
                        (All-both (λ i. next_kept p i) (n ∷ r') apart.0 before)
                        (All-both (λ i. prev_kept p i) r' apart.0.1 off.0)
                        (prev_kept p p apart.1.0 off.1.0))
                      (h, k, tt));
              distinct = whole.distinct.1;
            })
        where
          apart : All (λ i. i ≢ el) (n ∷ r') × All (λ i. i ≢ el) (p ∷ [])
          apart = All-split (λ i. i ≢ el) (n ∷ r') (p ∷ []) whole.distinct.0

          off : All (λ i. i ≢ n) r' × All (λ i. i ≢ n) (p ∷ [])
          off = All-split (λ i. i ≢ n) r' (p ∷ []) whole.distinct.1.0

          -- `p` stands last.
          before : All (λ i. i ≢ p) (n ∷ r')
          before = (Distinct-swap (n ∷ r') (p ∷ []) whole.distinct.1).0

          parts : Linked s (n ∷ r' ++ p ∷ []) × Linked s (p ∷ el ∷ [])
          parts =
              Linked-split s (n ∷ r') p (el ∷ [])
                (subst (Linked s) (append_assoc (n ∷ r') (p ∷ []) (el ∷ [])) whole.linked.2)

          front : Linked s (n ∷ r' ++ p ∷ [])
          front = parts.0

          last_link : (s.next p ≡ el) × (s.prev el ≡ p)
          last_link = (parts.1.0, parts.1.1)
