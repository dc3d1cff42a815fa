-- ===== src/Gc/Decref.antt =====
-- The first pass of the collector of cxx/quickjs/quickjs.c, `gc_decref`: what is left of a count is
-- the references from outside.
pub mod Loop
use flutter_quickjs.Prelude.{same_or_other}
use flutter_quickjs.Prelude.{
  ℕ, zero, suc, ◌+◌, ◌-◌, ◌<◌, ◌≤◌, ◌≡◌, ◌≢◌, arith, refl, sym, ap, ◌∙◌, ◌⊎◌, inl, inr, Bool, true,
  false, ◌&&◌, Option, none, some, List, [], ◌∷◌, ◌++◌, length, if◌then◌else◌, ◌==◌, compare-cases,
  append_assoc,
}
use mathlib.Core.Path.{subst}
use flutter_quickjs.Linked.{write}
use flutter_quickjs.Heap.{GcObject, mark_children}
use flutter_quickjs.Gc.{
  Gc, remove, move_to_tmp, gc_decref_child, call_each, first_in, next_in, mark_children_of,
  gc_decref_end, gc_decref_round, gc_decref_loop, gc_decref,
}
use flutter_quickjs.Gc.Count.{
  one_if, count, count-append, one_if_same, one_if_other, count-remove, remove_absent,
  remove-append_left, remove-append_at, next_in-append, write_at, write_else,
}

-- How many references to `o` the objects of a list hold.
unfoldable pub refs : (ℕ → List ℕ) → ℕ → List ℕ → ℕ
refs children o [] = 0
refs children o (x ∷ xs) = count o (children x) + refs children o xs

-- A heap whose objects are `all`: they hold the references of `children`, which are to objects of
-- the heap, and from outside, `ext o` are to `o`.
pub record IsHeap (objects : ℕ → GcObject) (children : ℕ → List ℕ) (all : List ℕ) : Type 0 where
  pub marks_children : (p : ℕ) → 0 < count p all → mark_children (objects p) ≡ some (children p)
  pub single : (o : ℕ) → count o all ≤ 1
  pub closed : (p o : ℕ) → 0 < count p all → 0 < count o (children p) → 0 < count o all

module _ (s : Gc) (p : ℕ) where
  decref_moves :
      s.ref_count p ≡ 1
      → s.mark p ≡ 1
      → gc_decref_child s p ≡ some (move_to_tmp (record s { ref_count = write s.ref_count p 0 }) p)
  unfolding gc_decref_child
  decref_moves e m = ground arith

  decref_keeps :
      (n : ℕ)
      → s.ref_count p ≡ suc n
      → (0 < n) ⊎ (s.mark p ≢ 1)
      → gc_decref_child s p ≡ some (record s { ref_count = write s.ref_count p n })
  unfolding gc_decref_child
  decref_keeps n e h = ground arith

module _ (all : List ℕ) (ext : ℕ → ℕ) where
  -- The objects of `seen` have been visited and those of `ahead` have not; of the former, `kept` are
  -- still in the list. `pend o` references to `o` are still counted beside those from outside.
  pub record Pass (s : Gc) (seen kept ahead : List ℕ) (pend : ℕ → ℕ) : Type 0 where
    pub lists : s.gc_obj_list ≡ kept ++ ahead
    pub parts : (o : ℕ) → count o kept + count o s.tmp_obj_list ≡ count o seen
    pub whole : (o : ℕ) → count o seen + count o ahead ≡ count o all
    pub counts : (o : ℕ) → 0 < count o all → s.ref_count o ≡ pend o + ext o
    pub marked : (o : ℕ) → 0 < count o seen → s.mark o ≡ 1
    pub unmarked : (o : ℕ) → 0 < count o ahead → s.mark o ≡ 0
    pub positive : (o : ℕ) → 0 < count o kept → 0 < s.ref_count o
    pub nothing : (o : ℕ) → 0 < count o s.tmp_obj_list → s.ref_count o ≡ 0

  module _ (single : (o : ℕ) → count o all ≤ 1) (seen ahead : List ℕ) where
    module _ (s : Gc) (kept : List ℕ) (pend pend' : ℕ → ℕ) (c : ℕ)
        (less : (o : ℕ) → pend o ≡ one_if c o + pend' o) (inside : 0 < count c all)
        (pass : Pass s seen kept ahead pend) where
      is_suc : s.ref_count c ≡ suc (s.ref_count c - 1)
      is_suc = omega (arith, pass.counts c inside, less c, one_if_same c)

      counts_after :
          (o : ℕ) → 0 < count o all → write s.ref_count c (s.ref_count c - 1) o ≡ pend' o + ext o
      counts_after o h = elim (same_or_other c o) [
        | inl e ↦
            subst (λ (t : ℕ). write s.ref_count c (s.ref_count c - 1) t ≡ pend' t + ext t) e
              (omega (
                arith,
                write_at s.ref_count c (s.ref_count c - 1),
                pass.counts c inside,
                less c,
                one_if_same c,
              ))
        | inr e ↦ omega (
          arith,
          write_else s.ref_count c (s.ref_count c - 1) o e,
          pass.counts o h,
          less o,
          one_if_other c o e,
        )
      ]

      keeps :
          (0 < s.ref_count c - 1) ⊎ (s.mark c ≢ 1)
          → (s' : Gc) × (kept' : List ℕ) × (gc_decref_child s c ≡ some s')
            × Pass s' seen kept' ahead pend'
      keeps h = (
        record s { ref_count = write s.ref_count c (s.ref_count c - 1) },
        kept,
        decref_keeps s c (s.ref_count c - 1) is_suc h,
        record {
          lists = pass.lists;
          parts = pass.parts;
          whole = pass.whole;
          counts = counts_after;
          marked = pass.marked;
          unmarked = pass.unmarked;
          positive = positive_after;
          nothing = nothing_after;
        },
      )
        where
          positive_after :
              (o : ℕ) → 0 < count o kept → 0 < write s.ref_count c (s.ref_count c - 1) o
          positive_after o k = elim (same_or_other c o) [
            | inl e ↦
                let m : s.mark c ≡ 1 =
                  pass.marked c
                    (omega (arith, pass.parts c, subst (λ (t : ℕ). 0 < count t kept) (sym e) k)) in
                subst (λ (t : ℕ). 0 < write s.ref_count c (s.ref_count c - 1) t) e
                  (elim h [
                    | inl g ↦ omega (arith, write_at s.ref_count c (s.ref_count c - 1))
                    | inr g ↦ absurd (g m)
                  ])
            | inr e ↦
                omega (arith, write_else s.ref_count c (s.ref_count c - 1) o e, pass.positive o k)
          ]

          nothing_after :
              (o : ℕ) → 0 < count o s.tmp_obj_list → write s.ref_count c (s.ref_count c - 1) o ≡ 0
          nothing_after o k = elim (same_or_other c o) [
            | inl e ↦ absurd (
                omega (
                  arith,
                  pass.nothing c (subst (λ (t : ℕ). 0 < count t s.tmp_obj_list) (sym e) k),
                  is_suc,
                ))
            | inr e ↦
                omega (arith, write_else s.ref_count c (s.ref_count c - 1) o e, pass.nothing o k)
          ]

      moves :
          s.ref_count c ≡ 1
          → s.mark c ≡ 1
          → (s' : Gc) × (kept' : List ℕ) × (gc_decref_child s c ≡ some s')
            × Pass s' seen kept' ahead pend'
      unfolding move_to_tmp count
      moves one m = (
        move_to_tmp (record s { ref_count = write s.ref_count c 0 }) c,
        remove c kept,
        decref_moves s c one m,
        record {
          lists = ap (remove c) pass.lists ∙ remove-append_left c kept ahead in_kept;
          parts = parts_after;
          whole = pass.whole;
          counts = λ o h. counts_zero o h;
          marked = pass.marked;
          unmarked = pass.unmarked;
          positive = positive_after;
          nothing = nothing_after;
        },
      )
        where
          in_kept : 0 < count c kept
          in_kept = elim (compare-cases 0 (count c s.tmp_obj_list)) [
            | inl (e, h) ↦ absurd (omega (arith, pass.nothing c h))
            | inr h ↦ elim (compare-cases 0 (count c ahead)) [
              | inl (e, g) ↦ absurd (omega (arith, pass.unmarked c g))
              | inr g ↦ omega (arith, pass.parts c, pass.whole c)
            ]
          ]

          out_of_tmp : count c s.tmp_obj_list ≡ 0
          out_of_tmp = elim (compare-cases 0 (count c s.tmp_obj_list)) [
            | inl (e, h) ↦ absurd (omega (arith, pass.nothing c h))
            | inr h ↦ omega arith
          ]

          in_tmp :
              (o : ℕ)
              → count o (remove c s.tmp_obj_list ++ c ∷ []) ≡ count o s.tmp_obj_list + one_if c o
          in_tmp o = omega (
            arith,
            count-append o (remove c s.tmp_obj_list) (c ∷ []),
            ap (count o) (remove_absent c s.tmp_obj_list out_of_tmp),
          )

          parts_after :
              (o : ℕ)
              → count o (remove c kept) + count o (remove c s.tmp_obj_list ++ c ∷ []) ≡ count o seen
          parts_after o = omega (arith, in_tmp o, count-remove o c kept in_kept, pass.parts o)

          counts_zero : (o : ℕ) → 0 < count o all → write s.ref_count c 0 o ≡ pend' o + ext o
          counts_zero o h =
              let e : s.ref_count c - 1 ≡ 0 = omega arith in
              subst (λ (n : ℕ). write s.ref_count c n o ≡ pend' o + ext o) e (counts_after o h)

          positive_after : (o : ℕ) → 0 < count o (remove c kept) → 0 < write s.ref_count c 0 o
          positive_after o k = elim (same_or_other c o) [
            | inl e ↦
                let k' : 0 < count c (remove c kept) =
                  subst (λ (t : ℕ). 0 < count t (remove c kept)) (sym e) k in
                absurd (
                  omega (
                    arith,
                    k',
                    count-remove c c kept in_kept,
                    one_if_same c,
                    pass.parts c,
                    pass.whole c,
                    single c,
                  ))
            | inr e ↦ omega (
              arith,
              write_else s.ref_count c 0 o e,
              pass.positive o (omega (arith, count-remove o c kept in_kept)),
            )
          ]

          nothing_after :
              (o : ℕ)
              → 0 < count o (remove c s.tmp_obj_list ++ c ∷ [])
              → write s.ref_count c 0 o ≡ 0
          nothing_after o k = elim (same_or_other c o) [
            | inl e ↦ subst (λ (t : ℕ). write s.ref_count c 0 t ≡ 0) e (write_at s.ref_count c 0)
            | inr e ↦ omega (
              arith,
              write_else s.ref_count c 0 o e,
              pass.nothing o (omega (arith, in_tmp o, one_if_other c o e)),
            )
          ]

      -- One reference less is counted.
      gc_decref_child-Pass :
          (s' : Gc) × (kept' : List ℕ) × (gc_decref_child s c ≡ some s')
          × Pass s' seen kept' ahead pend'
      gc_decref_child-Pass = elim (compare-cases 0 (s.ref_count c - 1)) [
        | inl (e, h) ↦ keeps (inl h)
        | inr h ↦ elim (same_or_other (s.mark c) 1) [
          | inl m ↦ moves (omega (arith, is_suc)) m
          | inr m ↦ keeps (inr m)
        ]
      ]

    pub Pass-same :
        {pend pend' : ℕ → ℕ} {s : Gc} {kept : List ℕ}
        → ((o : ℕ) → pend o ≡ pend' o)
        → Pass s seen kept ahead pend
        → Pass s seen kept ahead pend'
    Pass-same same pass = record {
      lists = pass.lists;
      parts = pass.parts;
      whole = pass.whole;
      counts = λ o h. omega (arith, pass.counts o h, same o);
      marked = pass.marked;
      unmarked = pass.unmarked;
      positive = pass.positive;
      nothing = pass.nothing;
    }

    -- The references of a list of children less.
    pub call_each-Pass :
        (children : List ℕ) (pend pend' : ℕ → ℕ) (s : Gc) (kept : List ℕ)
        → ((o : ℕ) → pend o ≡ count o children + pend' o)
        → ((o : ℕ) → 0 < count o children → 0 < count o all)
        → Pass s seen kept ahead pend
        → (s' : Gc) × (kept' : List ℕ) × (call_each gc_decref_child children s ≡ some s')
          × Pass s' seen kept' ahead pend'
    unfolding call_each count
    call_each-Pass [] pend pend' s kept less inside pass =
        (s, kept, refl, Pass-same (λ o. omega (arith, less o)) pass)
    call_each-Pass (c ∷ cs) pend pend' s kept less inside pass =
        let (s1, kept1, e1, p1) =
          gc_decref_child-Pass s kept pend (λ o. count o cs + pend' o) c
            (λ o. omega (arith, less o)) (inside c (omega (arith, one_if_same c))) pass in
        let (s2, kept2, e2, p2) =
          call_each-Pass cs (λ o. count o cs + pend' o) pend' s1 kept1 (λ o. refl)
            (λ o h. inside o (omega arith)) p1 in
        (s2, kept2, rw (call_each, e1) e2, p2)
