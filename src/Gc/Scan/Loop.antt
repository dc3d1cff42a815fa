-- ===== src/Gc/Scan/Loop.antt =====
-- The rounds of the first loop of `gc_scan` of cxx/quickjs/quickjs.c.
use flutter_quickjs.Prelude.{same_or_other}
use flutter_quickjs.Prelude.{
  ℕ, zero, suc, ◌+◌, ◌-◌, ◌<◌, ◌≤◌, ◌≡◌, arith, refl, sym, ap, ◌∙◌, inl, inr, some, List, [], ◌∷◌,
  ◌++◌, length, append_assoc, length-append,
}
use mathlib.Core.Path.{subst}
use flutter_quickjs.Linked.{write}
use flutter_quickjs.Heap.{GcObject}
use flutter_quickjs.Gc.{Gc, first_in, next_in, mark_children_of, gc_scan_round, gc_scan_loop}
use flutter_quickjs.Gc.Count.{
  one_if, count, count-append, one_if_same, one_if_other, next_in-append, write_at, write_else,
  lengths_le,
}
use flutter_quickjs.Gc.Decref.{refs, IsHeap}
use flutter_quickjs.Gc.Scan.{Reachable, from_object, Keeps, call_each-Keeps}

pub refs-append :
    (children : ℕ → List ℕ) (o : ℕ) (xs ys : List ℕ)
    → refs children o (xs ++ ys) ≡ refs children o xs + refs children o ys
unfolding refs
refs-append children o [] ys = omega arith
refs-append children o (x ∷ xs) ys = omega (arith, refs-append children o xs ys)

module _ (objects : ℕ → GcObject) (children : ℕ → List ℕ) (all : List ℕ)
    (heap : IsHeap objects children all) (ext : ℕ → ℕ) where
  module _ (s : Gc) (p : ℕ) (seen rest : List ℕ)
      (keeps : Keeps children ext all s seen (p ∷ rest) (λ o. refs children o seen)) where
    p_ahead : 0 < count p (p ∷ rest)
    unfolding count
    p_ahead = omega (arith, one_if_same p)

    p_inside : 0 < count p all
    p_inside = omega (arith, keeps.whole p, p_ahead)

    p_referenced : 0 < s.ref_count p
    p_referenced = keeps.positive p (omega (arith, p_ahead))

    not_seen : count p seen ≡ 0
    not_seen = omega (arith, keeps.whole p, p_ahead, heap.single p)

    in_seen : (o : ℕ) → count o (seen ++ p ∷ []) ≡ count o seen + one_if p o
    unfolding count
    in_seen o = omega (arith, count-append o seen (p ∷ []))

    -- `p->mark = 0`
    unmarks :
        Keeps children ext all
          (record s { mark = write s.mark p 0 })
          (seen ++ p ∷ [])
          rest
          (λ o. refs children o seen)
    unfolding count
    unmarks = record {
      lists = keeps.lists ∙ sym (append_assoc seen (p ∷ []) rest);
      whole = λ o. omega (arith, keeps.whole o, in_seen o);
      counts = keeps.counts;
      unmarked = λ o k. unmarked_after o k;
      positive = λ o k. keeps.positive o (omega (arith, in_seen o));
      nothing = keeps.nothing;
      reached = keeps.reached;
    }
      where
        unmarked_after : (o : ℕ) → 0 < count o (seen ++ p ∷ []) → write s.mark p 0 o ≡ 0
        unmarked_after o k = elim (same_or_other p o) [
          | inl e ↦ subst (λ (t : ℕ). write s.mark p 0 t ≡ 0) e (write_at s.mark p 0)
          | inr e ↦ omega (
            arith,
            write_else s.mark p 0 o e,
            keeps.unmarked o (omega (arith, in_seen o, one_if_other p o e)),
          )
        ]

    reaches : Reachable children ext all p
    reaches = keeps.reached p p_inside p_referenced

    counted :
        (o : ℕ) → refs children o (seen ++ p ∷ []) ≡ count o (children p) + refs children o seen
    unfolding refs
    counted o = omega (arith, refs-append children o seen (p ∷ []))

    -- A round visits one object, and the list can grow.
    gc_scan_round-Keeps :
        (s' : Gc) × (rest' : List ℕ) × (gc_scan_round objects s p ≡ some s')
        × Keeps children ext all s' (seen ++ p ∷ []) rest' (λ o. refs children o (seen ++ p ∷ []))
    unfolding gc_scan_round mark_children_of
    gc_scan_round-Keeps =
        let (s1, rest1, e1, k1) =
          call_each-Keeps children ext all heap.single (seen ++ p ∷ []) (children p)
            (λ o. refs children o seen) (λ o. refs children o (seen ++ p ∷ []))
            (record s { mark = write s.mark p 0 }) rest counted
            (λ o h. (heap.closed p o p_inside h, from_object p reaches h)) unmarks in
        let e : s.ref_count p ≡ suc (s.ref_count p - 1) = omega (arith, p_referenced) in
        (s1, rest1, rw (gc_scan_round, mark_children_of, e, heap.marks_children p p_inside) e1, k1)

  next_is :
      (s : Gc) (p : ℕ) (seen rest : List ℕ) (found : ℕ → ℕ)
      → Keeps children ext all s (seen ++ p ∷ []) rest found
      → count p seen ≡ 0
      → next_in p s.gc_obj_list ≡ some (first_in rest)
  next_is s p seen rest found keeps h =
      ap (next_in p) (keeps.lists ∙ append_assoc seen (p ∷ []) rest) ∙ next_in-append p seen rest h

  -- The list never holds more than all objects.
  room :
      (s : Gc) (seen rest : List ℕ) (found : ℕ → ℕ)
      → Keeps children ext all s seen rest found
      → length seen + length rest ≤ length all
  room s seen rest found keeps = omega (
    arith,
    length-append seen rest,
    lengths_le (seen ++ rest) all (λ o. omega (arith, count-append o seen rest, keeps.whole o)),
  )

  pub gc_scan_loop-Keeps :
      (fuel : ℕ) (s : Gc) (seen rest : List ℕ)
      → length all ≤ fuel + length seen
      → Keeps children ext all s seen rest (λ o. refs children o seen)
      → (s' : Gc) × (seen' : List ℕ) × (gc_scan_loop objects fuel (first_in rest) s ≡ some s')
        × Keeps children ext all s' seen' [] (λ o. refs children o seen')
  unfolding gc_scan_loop first_in
  gc_scan_loop-Keeps fuel s seen [] h keeps = (s, seen, refl, keeps)
  gc_scan_loop-Keeps zero s seen (p ∷ rest) h keeps =
      absurd (omega (arith, room s seen (p ∷ rest) (λ o. refs children o seen) keeps))
  gc_scan_loop-Keeps (suc fuel) s seen (p ∷ rest) h keeps =
      let (s1, rest1, e1, k1) = gc_scan_round-Keeps s p seen rest keeps in
      let (s2, seen2, e2, k2) =
        gc_scan_loop-Keeps fuel s1 (seen ++ p ∷ []) rest1
          (omega (arith, length-append seen (p ∷ []))) k1 in
      (
        s2,
        seen2,
        rw
            (
              gc_scan_loop,
              e1,
              next_is s1 p seen rest1 (λ o. refs children o (seen ++ p ∷ [])) k1
                  (not_seen s p seen rest keeps),
            )
            e2,
        k2,
      )
