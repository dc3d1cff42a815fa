-- ===== src/Gc/Decref/Loop.antt =====
-- The rounds of `gc_decref` of cxx/quickjs/quickjs.c.
use flutter_quickjs.Prelude.{same_or_other}
use flutter_quickjs.Prelude.{
  ℕ, zero, suc, ◌+◌, ◌<◌, ◌≤◌, ◌≡◌, arith, refl, sym, ap, ◌∙◌, inl, inr, some, List, [], ◌∷◌, ◌++◌,
  length, compare-cases, append_assoc,
}
use mathlib.Core.Path.{subst}
use flutter_quickjs.Linked.{write}
use flutter_quickjs.Heap.{GcObject}
use flutter_quickjs.Gc.{
  Gc, remove, move_to_tmp, first_in, next_in, mark_children_of, gc_decref_end, gc_decref_round,
  gc_decref_loop,
}
use flutter_quickjs.Gc.Count.{
  one_if, count, count-append, one_if_same, one_if_other, remove_absent, remove-append_at,
  next_in-append, write_at, write_else,
}
use flutter_quickjs.Gc.Decref.{refs, IsHeap, Pass, call_each-Pass}

module _ (objects : ℕ → GcObject) (children : ℕ → List ℕ) (all : List ℕ)
    (heap : IsHeap objects children all) (ext : ℕ → ℕ) where
  module _ (s : Gc) (p : ℕ) (seen kept rest : List ℕ) (pend : ℕ → ℕ)
      (pass : Pass all ext s seen kept (p ∷ rest) pend) where
    p_ahead : 0 < count p (p ∷ rest)
    unfolding count
    p_ahead = omega (arith, one_if_same p)

    p_inside : 0 < count p all
    p_inside = omega (arith, pass.whole p, p_ahead)

    not_kept : count p kept ≡ 0
    not_kept = omega (arith, pass.parts p, pass.whole p, p_ahead, heap.single p)

    not_in_tmp : count p s.tmp_obj_list ≡ 0
    not_in_tmp = omega (arith, pass.parts p, pass.whole p, p_ahead, heap.single p)

    not_again : count p rest ≡ 0
    unfolding count
    not_again = omega (arith, pass.whole p, one_if_same p, heap.single p)

    next_is : next_in p s.gc_obj_list ≡ some (first_in rest)
    next_is = ap (next_in p) pass.lists ∙ next_in-append p kept rest not_kept

    marked_after : (o : ℕ) → 0 < count o (p ∷ seen) → write s.mark p 1 o ≡ 1
    unfolding count
    marked_after o h = elim (same_or_other p o) [
      | inl e ↦ subst (λ (t : ℕ). write s.mark p 1 t ≡ 1) e (write_at s.mark p 1)
      | inr e ↦
          omega
            (arith, write_else s.mark p 1 o e, pass.marked o (omega (arith, one_if_other p o e)))
    ]

    unmarked_after : (o : ℕ) → 0 < count o rest → write s.mark p 1 o ≡ 0
    unfolding count
    unmarked_after o h = elim (same_or_other p o) [
      | inl e ↦ absurd (omega (arith, not_again, subst (λ (t : ℕ). 0 < count t rest) (sym e) h))
      | inr e ↦ omega (arith, write_else s.mark p 1 o e, pass.unmarked o (omega arith))
    ]

    whole_after : (o : ℕ) → count o (p ∷ seen) + count o rest ≡ count o all
    unfolding count
    whole_after o = omega (arith, pass.whole o)

    -- The end of a round, on both branches of its test.
    gc_decref_end-Pass :
        (kept' : List ℕ) × Pass all ext (gc_decref_end objects p s) (p ∷ seen) kept' rest pend
    unfolding gc_decref_end move_to_tmp count
    gc_decref_end-Pass = elim (compare-cases 0 (s.ref_count p)) [
      | inl (e, h) ↦ (kept ++ p ∷ [], stays h)
      | inr h ↦ (kept, leaves (omega arith))
    ]
      where
        in_kept : (o : ℕ) → count o (kept ++ p ∷ []) ≡ count o kept + one_if p o
        in_kept o = omega (arith, count-append o kept (p ∷ []))

        in_tmp :
            (o : ℕ)
            → count o (remove p s.tmp_obj_list ++ p ∷ []) ≡ count o s.tmp_obj_list + one_if p o
        in_tmp o = omega (
          arith,
          count-append o (remove p s.tmp_obj_list) (p ∷ []),
          ap (count o) (remove_absent p s.tmp_obj_list not_in_tmp),
        )

        stays :
            0 < s.ref_count p
            → Pass all ext (gc_decref_end objects p s) (p ∷ seen) (kept ++ p ∷ []) rest pend
        stays h =
            let is : record s { mark = write s.mark p 1 } ≡ gc_decref_end objects p s =
              ground arith in
            subst (λ (t : Gc). Pass all ext t (p ∷ seen) (kept ++ p ∷ []) rest pend) is
              (record {
                lists = pass.lists ∙ sym (append_assoc kept (p ∷ []) rest);
                parts = λ o. omega (arith, in_kept o, pass.parts o);
                whole = whole_after;
                counts = pass.counts;
                marked = marked_after;
                unmarked = unmarked_after;
                positive = λ o k. positive_of o k h;
                nothing = pass.nothing;
              })
          where
            positive_of :
                (o : ℕ) → 0 < count o (kept ++ p ∷ []) → 0 < s.ref_count p → 0 < s.ref_count o
            positive_of o k h = elim (same_or_other p o) [
              | inl e ↦ subst (λ (t : ℕ). 0 < s.ref_count t) e h
              | inr e ↦ pass.positive o (omega (arith, in_kept o, one_if_other p o e))
            ]

        leaves :
            s.ref_count p ≡ 0 → Pass all ext (gc_decref_end objects p s) (p ∷ seen) kept rest pend
        leaves h =
            let is : move_to_tmp (record s { mark = write s.mark p 1 }) p
                ≡ gc_decref_end objects p s =
              ground arith in
            subst (λ (t : Gc). Pass all ext t (p ∷ seen) kept rest pend) is
              (record {
                lists = ap (remove p) pass.lists ∙ remove-append_at p kept rest not_kept;
                parts = λ o. omega (arith, in_tmp o, pass.parts o);
                whole = whole_after;
                counts = pass.counts;
                marked = marked_after;
                unmarked = unmarked_after;
                positive = pass.positive;
                nothing = λ o k. nothing_of o k;
              })
          where
            nothing_of :
                (o : ℕ) → 0 < count o (remove p s.tmp_obj_list ++ p ∷ []) → s.ref_count o ≡ 0
            nothing_of o k = elim (same_or_other p o) [
              | inl e ↦ subst (λ (t : ℕ). s.ref_count t ≡ 0) e h
              | inr e ↦ pass.nothing o (omega (arith, in_tmp o, one_if_other p o e))
            ]

  -- A round visits one object.
  gc_decref_round-Pass :
      (s : Gc) (p : ℕ) (seen kept rest : List ℕ)
      → Pass all ext s seen kept (p ∷ rest) (λ o. refs children o (p ∷ rest))
      → (s' : Gc) × (kept' : List ℕ) × (gc_decref_round objects s p ≡ some s')
        × Pass all ext s' (p ∷ seen) kept' rest (λ o. refs children o rest)
  unfolding gc_decref_round mark_children_of refs
  gc_decref_round-Pass s p seen kept rest pass =
      let inside : 0 < count p all = p_inside s p seen kept rest _ pass in
      let (s1, kept1, e1, p1) =
        call_each-Pass all ext heap.single seen (p ∷ rest) (children p)
          (λ o. refs children o (p ∷ rest)) (λ o. refs children o rest) s kept (λ o. refl)
          (λ o h. heap.closed p o inside h) pass in
      let (kept2, p2) = gc_decref_end-Pass s1 p seen kept1 rest (λ o. refs children o rest) p1 in
      (
        gc_decref_end objects p s1,
        kept2,
        rw
            (
              gc_decref_round,
              mark_children_of,
              pass.unmarked p (p_ahead s p seen kept rest _ pass),
              heap.marks_children p inside,
              e1,
            )
            refl,
        p2,
      )

  pub gc_decref_loop-Pass :
      (fuel : ℕ) (s : Gc) (seen kept rest : List ℕ)
      → length rest ≤ fuel
      → Pass all ext s seen kept rest (λ o. refs children o rest)
      → (s' : Gc) × (seen' : List ℕ) × (kept' : List ℕ) × (gc_decref_loop objects fuel
            (first_in rest)
            s
          ≡ some s')
        × Pass all ext s' seen' kept' [] (λ o. 0)
  unfolding gc_decref_loop first_in refs
  gc_decref_loop-Pass fuel s seen kept [] h pass = (s, seen, kept, refl, pass)
  gc_decref_loop-Pass zero s seen kept (p ∷ rest) h pass = absurd (omega arith)
  gc_decref_loop-Pass (suc fuel) s seen kept (p ∷ rest) h pass =
      let (s1, kept1, e1, p1) = gc_decref_round-Pass s p seen kept rest pass in
      let (s2, seen2, kept2, e2, p2) =
        gc_decref_loop-Pass fuel s1 (p ∷ seen) kept1 rest (omega arith) p1 in
      (s2, seen2, kept2, rw (gc_decref_loop, next_is s p seen kept rest _ pass, e1) e2, p2)
