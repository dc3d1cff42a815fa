-- ===== src/Gc/Collect.antt =====
-- What the collector of cxx/quickjs/quickjs.c has found when `gc_free_cycles` is called.
use flutter_quickjs.Prelude.{
  ℕ, ◌+◌, ◌<◌, ◌≤◌, ◌≡◌, arith, refl, sym, ap, ◌∙◌, inl, inr, some, List, [], ◌∷◌, ◌++◌, length,
  compare-cases, append-nil, length-append,
}
use mathlib.Core.Path.{subst}
use flutter_quickjs.Heap.{GcObject}
use flutter_quickjs.Gc.{Gc, gc_decref, gc_scan, run_gc, first_in, gc_decref_loop}
use flutter_quickjs.Gc.Count.{count, count-append, lengths_le}
use flutter_quickjs.Gc.Decref.{refs, IsHeap, Pass}
use flutter_quickjs.Gc.Decref.Loop.{gc_decref_loop-Pass}
use flutter_quickjs.Gc.Scan.{Reachable, from_outside, from_object, Keeps}
use flutter_quickjs.Gc.Scan.Loop.{refs-append, gc_scan_loop-Keeps}
use flutter_quickjs.Gc.Restore.{refs_same, Adds, gc_restore_loop-Adds}

-- Between two collections: no object is marked, and each count is that of the references from the
-- objects and from outside.
pub record IsReady (children : ℕ → List ℕ) (ext : ℕ → ℕ) (all : List ℕ) (s : Gc) : Type 0 where
  pub listed : s.gc_obj_list ≡ all
  pub unmarked : (o : ℕ) → 0 < count o all → s.mark o ≡ 0
  pub counted : (o : ℕ) → 0 < count o all → s.ref_count o ≡ refs children o all + ext o

-- What the passes come to: every object is in one of the lists, those that are reachable from outside
-- in `gc_obj_list`, unmarked, and all others in `tmp_obj_list`; the counts are those of `s`.
pub record Collects (children : ℕ → List ℕ) (ext : ℕ → ℕ) (all : List ℕ) (s s' : Gc) : Type 0 where
  pub parted : (o : ℕ) → count o s'.gc_obj_list + count o s'.tmp_obj_list ≡ count o all
  pub kept : (o : ℕ) → Reachable children ext all o → 0 < count o s'.gc_obj_list
  pub garbage : (o : ℕ) → 0 < count o s'.gc_obj_list → Reachable children ext all o
  pub unmarked : (o : ℕ) → 0 < count o s'.gc_obj_list → s'.mark o ≡ 0
  pub restored : (o : ℕ) → 0 < count o all → s'.ref_count o ≡ s.ref_count o

module _ (objects : ℕ → GcObject) (children : ℕ → List ℕ) (all : List ℕ)
    (heap : IsHeap objects children all) (ext : ℕ → ℕ) where
  starts :
      (s : Gc)
      → IsReady children ext all s
      → Pass all ext (record s { tmp_obj_list = [] }) [] [] all (λ o. refs children o all)
  unfolding count
  starts s ready = record {
    lists = ready.listed;
    parts = λ o. omega arith;
    whole = λ o. omega arith;
    counts = ready.counted;
    marked = λ o h. absurd (omega arith);
    unmarked = ready.unmarked;
    positive = λ o h. absurd (omega arith);
    nothing = λ o h. absurd (omega arith);
  }

  gc_decref-Pass :
      (s : Gc)
      → IsReady children ext all s
      → (s' : Gc) × (seen kept : List ℕ) × (gc_decref objects s ≡ some s')
        × Pass all ext s' seen kept [] (λ o. 0)
  unfolding gc_decref
  gc_decref-Pass s ready =
      let (s', seen, kept, e, pass) =
        gc_decref_loop-Pass objects children all heap ext (length all)
          (record s { tmp_obj_list = [] }) [] [] all (omega arith) (starts s ready) in
      (
        s',
        seen,
        kept,
        ap
              (λ (t : List ℕ).
                gc_decref_loop objects (length t) (first_in t) (record s { tmp_obj_list = [] }))
              ready.listed
            ∙ e,
        pass,
      )

  continues :
      (s : Gc) (seen kept : List ℕ)
      → Pass all ext s seen kept [] (λ o. 0)
      → Keeps children ext all s [] kept (λ o. refs children o [])
  unfolding count refs
  continues s seen kept pass = record {
    lists = pass.lists ∙ append-nil kept;
    whole = λ o. omega (arith, pass.parts o, pass.whole o);
    counts = λ o h. omega (arith, pass.counts o h);
    unmarked = λ o h. absurd (omega arith);
    positive = λ o h. pass.positive o (omega arith);
    nothing = pass.nothing;
    reached = λ o h k. from_outside h (omega (arith, pass.counts o h));
  }

  -- An object that something visited holds is visited.
  refs-positive :
      (o p : ℕ) (xs : List ℕ) → 0 < count p xs → 0 < count o (children p) → 0 < refs children o xs
  unfolding count refs
  refs-positive o p [] h k = absurd (omega arith)
  refs-positive o p (x ∷ xs) h k = elim (compare-cases 0 (count p xs)) [
    | inl (e, g) ↦ omega (arith, refs-positive o p xs g k)
    | inr g ↦
        let e : x ≡ p = ground arith in
        omega (arith, subst (λ (t : ℕ). 0 < count o (children t)) (sym e) k)
  ]

  module _ (s : Gc) (seen : List ℕ)
      (keeps : Keeps children ext all s seen [] (λ o. refs children o seen)) where
    parted_by : (o : ℕ) → count o seen + count o s.tmp_obj_list ≡ count o all
    unfolding count
    parted_by o = omega (arith, keeps.whole o)

    held : (o : ℕ) → 0 < count o all → 0 < s.ref_count o → 0 < count o seen
    held o h k = elim (compare-cases 0 (count o s.tmp_obj_list)) [
      | inl (e, g) ↦ absurd (omega (arith, keeps.nothing o g))
      | inr g ↦ omega (arith, parted_by o)
    ]

    Reachable-seen : (o : ℕ) → Reachable children ext all o → 0 < count o seen
    Reachable-seen o (from_outside h k) = held o h (omega (arith, keeps.counts o h))
    Reachable-seen o (from_object p r k) =
        let seen_p : 0 < count p seen = Reachable-seen p r in
        let inside : 0 < count o all = heap.closed p o (omega (arith, parted_by p)) k in
        held o inside (omega (arith, keeps.counts o inside, refs-positive o p seen seen_p k))

    collects :
        (s0 s' : Gc)
        → IsReady children ext all s0
        → Adds s s' (λ o. refs children o s.tmp_obj_list)
        → Collects children ext all s0 s'
    unfolding count
    collects s0 s' ready adds = record {
      parted = λ o. omega (arith, ap (count o) list_is, ap (count o) adds.same_tmp, parted_by o);
      kept = λ o r. omega (arith, ap (count o) list_is, Reachable-seen o r);
      garbage = λ o h.
          let in_seen : 0 < count o seen = omega (arith, ap (count o) list_is) in
          keeps.reached o (omega (arith, parted_by o)) (keeps.positive o (omega arith));
      unmarked = λ o h.
          ap (λ (f : ℕ → ℕ). f o) adds.same_mark
          ∙ keeps.unmarked o (omega (arith, ap (count o) list_is));
      restored = λ o h. omega (arith, adds.adds o, keeps.counts o h, ready.counted o h, both o);
    }
      where
        list_is : s'.gc_obj_list ≡ seen
        list_is = adds.same_gc ∙ keeps.lists ∙ append-nil seen

        both : (o : ℕ) → refs children o seen + refs children o s.tmp_obj_list ≡ refs children o all
        both o =
            sym (refs-append children o seen s.tmp_obj_list)
            ∙ refs_same children o (seen ++ s.tmp_obj_list) all
                (λ q. omega (arith, count-append q seen s.tmp_obj_list, parted_by q))

  -- Let each count be that of the references from the objects and from outside. Then the passes of
  -- `JS_RunGC` before `gc_free_cycles` end, no assertion of theirs fails, and no loop over a list is
  -- led into the other; after them `tmp_obj_list`, which is what is freed, has exactly the objects
  -- that are not reachable from outside, `gc_obj_list` has the others, unmarked, and every count is
  -- what it was.
  pub run_gc-Collects :
      (s : Gc)
      → IsReady children ext all s
      → (s' : Gc) × (run_gc objects s ≡ some s') × Collects children ext all s s'
  unfolding run_gc gc_scan count
  run_gc-Collects s ready =
      let (s1, seen1, kept1, e1, pass) = gc_decref-Pass s ready in
      let start = continues s1 seen1 kept1 pass in
      let (s2, seen, e2, keeps) =
        gc_scan_loop-Keeps objects children all heap ext
          (length s1.gc_obj_list + length s1.tmp_obj_list) s1 [] kept1 (enough s1 seen1 kept1 pass)
          start in
      let (s3, e3, adds) =
        gc_restore_loop-Adds objects children (length s2.tmp_obj_list) s2 [] s2.tmp_obj_list
          (omega arith) refl (λ p. omega (arith, parted_by s2 seen keeps p, heap.single p))
          (λ p h. heap.marks_children p (omega (arith, parted_by s2 seen keeps p))) in
      let e : s1.gc_obj_list ≡ kept1 = pass.lists ∙ append-nil kept1 in
      (s3, rw (run_gc, e1, gc_scan, ap first_in e, e2) e3, collects s2 seen keeps s s3 ready adds)
    where
      enough :
          (t : Gc) (seen kept : List ℕ)
          → Pass all ext t seen kept [] (λ o. 0)
          → length all ≤ length t.gc_obj_list + length t.tmp_obj_list + 0
      enough t seen kept pass = omega (
        arith,
        length-append t.gc_obj_list t.tmp_obj_list,
        lengths_le all (t.gc_obj_list ++ t.tmp_obj_list) (λ o. omega (
          arith,
          count-append o t.gc_obj_list t.tmp_obj_list,
          ap (count o) (pass.lists ∙ append-nil kept),
          pass.parts o,
          pass.whole o,
          none_ahead o,
        )),
      )
        where
          none_ahead : (o : ℕ) → count o [] ≡ 0
          none_ahead o = refl
