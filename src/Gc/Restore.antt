-- ===== src/Gc/Restore.antt =====
-- The last loop of `gc_scan` of cxx/quickjs/quickjs.c gives the objects to be freed their counts
-- back.
use flutter_quickjs.Prelude.{same_or_other}
use flutter_quickjs.Prelude.{
  ℕ, zero, suc, ◌+◌, ◌<◌, ◌≤◌, ◌≡◌, arith, refl, sym, ap, ◌∙◌, inl, inr, some, List, [], ◌∷◌, ◌++◌,
  length, append_assoc,
}
use mathlib.Core.Path.{subst}
use flutter_quickjs.Linked.{write}
use flutter_quickjs.Heap.{GcObject, mark_children}
use flutter_quickjs.Gc.{
  Gc, remove, gc_scan_incref_child2, call_each, first_in, next_in, mark_children_of,
  gc_restore_loop,
}
use flutter_quickjs.Gc.Count.{
  one_if, count, count-append, one_if_same, one_if_other, count-remove, next_in-append, write_at,
  write_else,
}
use flutter_quickjs.Gc.Decref.{refs}

refs-remove :
    (children : ℕ → List ℕ) (o p : ℕ) (xs : List ℕ)
    → 0 < count p xs
    → refs children o xs ≡ count o (children p) + refs children o (remove p xs)
unfolding refs count remove
refs-remove children o p [] h = absurd (omega arith)
refs-remove children o p (x ∷ xs) h = elim (same_or_other x p) [
  | inl e ↦ ground (arith, ap (λ (t : ℕ). count o (children t)) e)
  | inr e ↦ let r = refs-remove children o p xs (omega (arith, one_if_other x p e)) in ground arith
]

-- The references do not depend on the order of a list.
pub refs_same :
    (children : ℕ → List ℕ) (o : ℕ) (xs ys : List ℕ)
    → ((q : ℕ) → count q xs ≡ count q ys)
    → refs children o xs ≡ refs children o ys
unfolding refs count
refs_same children o [] [] h = refl
refs_same children o [] (y ∷ ys) h = absurd (omega (arith, h y, one_if_same y))
refs_same children o (x ∷ xs) ys h =
    let there : 0 < count x ys = omega (arith, h x, one_if_same x) in
    omega (
      arith,
      refs-remove children o x ys there,
      refs_same children o xs (remove x ys) (λ q. omega (arith, h q, count-remove q x ys there)),
    )

-- Only the counts of `s` are other, by `more`.
pub record Adds (s s' : Gc) (more : ℕ → ℕ) : Type 0 where
  pub same_mark : s'.mark ≡ s.mark
  pub same_gc : s'.gc_obj_list ≡ s.gc_obj_list
  pub same_tmp : s'.tmp_obj_list ≡ s.tmp_obj_list
  pub adds : (o : ℕ) → s'.ref_count o ≡ s.ref_count o + more o

call_each-Adds :
    (cs : List ℕ) (s : Gc)
    → (s' : Gc) × (call_each gc_scan_incref_child2 cs s ≡ some s') × Adds s s' (λ o. count o cs)
unfolding call_each count gc_scan_incref_child2
call_each-Adds [] s =
    (s, refl, record { same_mark = refl; same_gc = refl; same_tmp = refl; adds = λ o. omega arith })
call_each-Adds (c ∷ cs) s =
    let s1 : Gc = record s { ref_count = write s.ref_count c (suc (s.ref_count c)) } in
    let (s2, e2, a2) = call_each-Adds cs s1 in
    (
      s2,
      e2,
      record {
        same_mark = a2.same_mark;
        same_gc = a2.same_gc;
        same_tmp = a2.same_tmp;
        adds = λ o. omega (arith, a2.adds o, one_more o);
      },
    )
  where
    one_more : (o : ℕ) → write s.ref_count c (suc (s.ref_count c)) o ≡ s.ref_count o + one_if c o
    one_more o = elim (same_or_other c o) [
      | inl e ↦
          subst
            (λ (t : ℕ). write s.ref_count c (suc (s.ref_count c)) t ≡ s.ref_count t + one_if c t) e
            (omega (arith, write_at s.ref_count c (suc (s.ref_count c)), one_if_same c))
      | inr e ↦
          omega (arith, write_else s.ref_count c (suc (s.ref_count c)) o e, one_if_other c o e)
    ]

module _ (objects : ℕ → GcObject) (children : ℕ → List ℕ) where
  pub gc_restore_loop-Adds :
      (fuel : ℕ) (s : Gc) (seen rest : List ℕ)
      → length rest ≤ fuel
      → s.tmp_obj_list ≡ seen ++ rest
      → ((p : ℕ) → count p s.tmp_obj_list ≤ 1)
      → ((p : ℕ) → 0 < count p rest → mark_children (objects p) ≡ some (children p))
      → (s' : Gc) × (gc_restore_loop objects fuel (first_in rest) s ≡ some s')
        × Adds s s' (λ o. refs children o rest)
  unfolding gc_restore_loop first_in refs count mark_children_of
  gc_restore_loop-Adds fuel s seen [] h e single marks = (
    s,
    refl,
    record { same_mark = refl; same_gc = refl; same_tmp = refl; adds = λ o. omega arith },
  )
  gc_restore_loop-Adds zero s seen (p ∷ rest) h e single marks = absurd (omega arith)
  gc_restore_loop-Adds (suc fuel) s seen (p ∷ rest) h e single marks =
      let (s1, e1, a1) = call_each-Adds (children p) s in
      let e' : s1.tmp_obj_list ≡ (seen ++ p ∷ []) ++ rest =
        a1.same_tmp ∙ e ∙ sym (append_assoc seen (p ∷ []) rest) in
      let (s2, e2, a2) =
        gc_restore_loop-Adds fuel s1 (seen ++ p ∷ []) rest (omega arith) e'
          (λ q. omega (arith, ap (count q) a1.same_tmp, single q)) (λ q k. marks q (behind q k)) in
      (
        s2,
        rw
            (
              gc_restore_loop,
              mark_children_of,
              marks p first_here,
              e1,
              ap (next_in p) (a1.same_tmp ∙ e) ∙ next_in-append p seen rest not_seen,
            )
            e2,
        record {
          same_mark = a2.same_mark ∙ a1.same_mark;
          same_gc = a2.same_gc ∙ a1.same_gc;
          same_tmp = a2.same_tmp ∙ a1.same_tmp;
          adds = λ o. omega (arith, a1.adds o, a2.adds o);
        },
      )
    where
      behind : (q : ℕ) → 0 < count q rest → 0 < count q (p ∷ rest)
      behind q k = omega arith

      first_here : 0 < count p (p ∷ rest)
      first_here = omega (arith, one_if_same p)

      not_seen : count p seen ≡ 0
      not_seen = omega (arith, single p, ap (count p) e, count-append p seen (p ∷ rest), first_here)
