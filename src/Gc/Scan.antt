-- ===== src/Gc/Scan.antt =====
-- The second pass of the collector of cxx/quickjs/quickjs.c, the first loop of `gc_scan`: the
-- objects that are still referenced, and what they reference.
pub mod Loop
use flutter_quickjs.Prelude.{same_or_other}
use flutter_quickjs.Prelude.{
  ℕ, zero, suc, ◌+◌, ◌-◌, ◌<◌, ◌≤◌, ◌≡◌, ◌≢◌, arith, refl, sym, ap, ap₂, ◌∙◌, inl, inr, Option,
  none, some, List, [], ◌∷◌, ◌++◌, if◌then◌else◌, ◌==◌, compare-cases, append_assoc,
}
use mathlib.Core.Path.{subst}
use flutter_quickjs.Linked.{write}
use flutter_quickjs.Gc.{Gc, remove, move_to_gc, gc_scan_incref_child, call_each}
use flutter_quickjs.Gc.Count.{
  one_if, count, count-append, one_if_same, one_if_other, count-remove, remove_absent, write_at,
  write_else,
}

-- What is reachable from outside: objects that are referenced from there, and what those reference.
pub data Reachable (children : ℕ → List ℕ) (ext : ℕ → ℕ) (all : List ℕ) : ℕ → Type 0 where
  from_outside : {o : ℕ} → 0 < count o all → 0 < ext o → Reachable children ext all o
  from_object :
      {o : ℕ} (p : ℕ)
      → Reachable children ext all p
      → 0 < count o (children p)
      → Reachable children ext all o

module _ (children : ℕ → List ℕ) (ext : ℕ → ℕ) (all : List ℕ) where
  -- The objects of `seen` have been visited and those of `ahead` have not; `found o` references to
  -- `o` have been counted beside those from outside.
  pub record Keeps (s : Gc) (seen ahead : List ℕ) (found : ℕ → ℕ) : Type 0 where
    pub lists : s.gc_obj_list ≡ seen ++ ahead
    pub whole : (o : ℕ) → count o seen + count o ahead + count o s.tmp_obj_list ≡ count o all
    pub counts : (o : ℕ) → 0 < count o all → s.ref_count o ≡ found o + ext o
    pub unmarked : (o : ℕ) → 0 < count o seen → s.mark o ≡ 0
    pub positive : (o : ℕ) → 0 < count o seen + count o ahead → 0 < s.ref_count o
    pub nothing : (o : ℕ) → 0 < count o s.tmp_obj_list → s.ref_count o ≡ 0
    pub reached : (o : ℕ) → 0 < count o all → 0 < s.ref_count o → Reachable children ext all o

  module _ (single : (o : ℕ) → count o all ≤ 1) (seen : List ℕ) where
    module _ (s : Gc) (ahead : List ℕ) (found found' : ℕ → ℕ) (c : ℕ)
        (more : (o : ℕ) → found' o ≡ one_if c o + found o) (inside : 0 < count c all)
        (reach : Reachable children ext all c) (keeps : Keeps s seen ahead found) where
      abbrev counted : ℕ → ℕ
      counted = write s.ref_count c (suc (s.ref_count c))

      counts_after : (o : ℕ) → 0 < count o all → counted o ≡ found' o + ext o
      counts_after o h = elim (same_or_other c o) [
        | inl e ↦
            subst (λ (t : ℕ). counted t ≡ found' t + ext t) e
              (omega (
                arith,
                write_at s.ref_count c (suc (s.ref_count c)),
                keeps.counts c inside,
                more c,
                one_if_same c,
              ))
        | inr e ↦ omega (
          arith,
          write_else s.ref_count c (suc (s.ref_count c)) o e,
          keeps.counts o h,
          more o,
          one_if_other c o e,
        )
      ]

      reached_after : (o : ℕ) → 0 < count o all → 0 < counted o → Reachable children ext all o
      reached_after o h k = elim (same_or_other c o) [
        | inl e ↦ subst (Reachable children ext all) e reach
        | inr e ↦
            keeps.reached o h (omega (arith, write_else s.ref_count c (suc (s.ref_count c)) o e))
      ]

      positive_of : (o : ℕ) → (c ≢ o → 0 < s.ref_count o) → 0 < counted o
      positive_of o h = elim (same_or_other c o) [
        | inl e ↦
            subst (λ (t : ℕ). 0 < counted t) e
              (omega (arith, write_at s.ref_count c (suc (s.ref_count c))))
        | inr e ↦ omega (arith, write_else s.ref_count c (suc (s.ref_count c)) o e, h e)
      ]

      counts_on :
          0 < s.ref_count c
          → (s' : Gc) × (ahead' : List ℕ) × (gc_scan_incref_child s c ≡ some s')
            × Keeps s' seen ahead' found'
      unfolding gc_scan_incref_child
      counts_on h = (
        record s { ref_count = counted },
        ahead,
        ground arith,
        record {
          lists = keeps.lists;
          whole = keeps.whole;
          counts = counts_after;
          unmarked = keeps.unmarked;
          positive = λ o k. positive_of o (λ e. keeps.positive o k);
          nothing = λ o k. nothing_after o k;
          reached = reached_after;
        },
      )
        where
          nothing_after : (o : ℕ) → 0 < count o s.tmp_obj_list → counted o ≡ 0
          nothing_after o k = elim (same_or_other c o) [
            | inl e ↦ absurd (
                omega (
                  arith,
                  keeps.nothing c (subst (λ (t : ℕ). 0 < count t s.tmp_obj_list) (sym e) k),
                ))
            | inr e ↦
                omega (arith, write_else s.ref_count c (suc (s.ref_count c)) o e, keeps.nothing o k)
          ]

      revives :
          s.ref_count c ≡ 0
          → (s' : Gc) × (ahead' : List ℕ) × (gc_scan_incref_child s c ≡ some s')
            × Keeps s' seen ahead' found'
      unfolding gc_scan_incref_child move_to_gc count
      revives h = (
        record (move_to_gc (record s { ref_count = counted }) c) { mark = write s.mark c 0 },
        ahead ++ c ∷ [],
        ground arith,
        record {
          lists =
              ap (λ (t : List ℕ). remove c t ++ c ∷ []) keeps.lists
              ∙ ap (λ (t : List ℕ). t ++ c ∷ []) (remove_absent c (seen ++ ahead) not_listed)
              ∙ append_assoc seen ahead (c ∷ []);
          whole =
              λ o. omega (arith, keeps.whole o, in_ahead o, count-remove o c s.tmp_obj_list in_tmp);
          counts = counts_after;
          unmarked = unmarked_after;
          positive = λ o k.
              positive_of o (λ e. keeps.positive o (omega (arith, in_ahead o, one_if_other c o e)));
          nothing = nothing_after;
          reached = reached_after;
        },
      )
        where
          out_of_list : count c seen + count c ahead ≡ 0
          out_of_list = elim (compare-cases 0 (count c seen + count c ahead)) [
            | inl (e, k) ↦ absurd (omega (arith, keeps.positive c k))
            | inr k ↦ omega arith
          ]

          not_listed : count c (seen ++ ahead) ≡ 0
          not_listed = omega (arith, out_of_list, count-append c seen ahead)

          in_tmp : 0 < count c s.tmp_obj_list
          in_tmp = omega (arith, keeps.whole c, out_of_list)

          in_ahead : (o : ℕ) → count o (ahead ++ c ∷ []) ≡ count o ahead + one_if c o
          in_ahead o = omega (arith, count-append o ahead (c ∷ []))

          unmarked_after : (o : ℕ) → 0 < count o seen → write s.mark c 0 o ≡ 0
          unmarked_after o k = elim (same_or_other c o) [
            | inl e ↦ subst (λ (t : ℕ). write s.mark c 0 t ≡ 0) e (write_at s.mark c 0)
            | inr e ↦ omega (arith, write_else s.mark c 0 o e, keeps.unmarked o k)
          ]

          nothing_after : (o : ℕ) → 0 < count o (remove c s.tmp_obj_list) → counted o ≡ 0
          nothing_after o k = elim (same_or_other c o) [
            | inl e ↦
                let k' : 0 < count c (remove c s.tmp_obj_list) =
                  subst (λ (t : ℕ). 0 < count t (remove c s.tmp_obj_list)) (sym e) k in
                absurd (
                  omega (
                    arith,
                    k',
                    count-remove c c s.tmp_obj_list in_tmp,
                    one_if_same c,
                    keeps.whole c,
                    single c,
                  ))
            | inr e ↦ omega (
              arith,
              write_else s.ref_count c (suc (s.ref_count c)) o e,
              keeps.nothing o (omega (arith, count-remove o c s.tmp_obj_list in_tmp)),
            )
          ]

      gc_scan_incref_child-Keeps :
          (s' : Gc) × (ahead' : List ℕ) × (gc_scan_incref_child s c ≡ some s')
          × Keeps s' seen ahead' found'
      gc_scan_incref_child-Keeps = elim (compare-cases 0 (s.ref_count c)) [
        | inl (e, h) ↦ counts_on h
        | inr h ↦ revives (omega arith)
      ]

    -- The references of a list of children are counted, and those are kept that were not before.
    pub call_each-Keeps :
        (cs : List ℕ) (found found' : ℕ → ℕ) (s : Gc) (ahead : List ℕ)
        → ((o : ℕ) → found' o ≡ count o cs + found o)
        → ((o : ℕ) → 0 < count o cs → (0 < count o all) × Reachable children ext all o)
        → Keeps s seen ahead found
        → (s' : Gc) × (ahead' : List ℕ) × (call_each gc_scan_incref_child cs s ≡ some s')
          × Keeps s' seen ahead' found'
    unfolding call_each count
    call_each-Keeps [] found found' s ahead more inside keeps = (
      s,
      ahead,
      refl,
      record {
        lists = keeps.lists;
        whole = keeps.whole;
        counts = λ o h. omega (arith, keeps.counts o h, more o);
        unmarked = keeps.unmarked;
        positive = keeps.positive;
        nothing = keeps.nothing;
        reached = keeps.reached;
      },
    )
    call_each-Keeps (c ∷ cs) found found' s ahead more inside keeps =
        let here = inside c (omega (arith, one_if_same c)) in
        let (s1, ahead1, e1, k1) =
          gc_scan_incref_child-Keeps s ahead found (λ o. one_if c o + found o) c (λ o. refl) here.0
            here.1 keeps in
        let (s2, ahead2, e2, k2) =
          call_each-Keeps cs (λ o. one_if c o + found o) found' s1 ahead1
            (λ o. omega (arith, more o)) (λ o h. inside o (omega arith)) k1 in
        (s2, ahead2, rw (call_each, e1) e2, k2)
