-- ===== src/Gc.antt =====
-- The collector of cycles in cxx/quickjs/quickjs.c: `gc_decref`, `gc_scan` and the functions
-- that they pass to `mark_children`.
-- An object of the collector is a number. The lists of objects are lists, as Linked relates them to
-- their links: `list_del` takes an object out of the list that it is in, and `list_add_tail` puts it
-- last. A loop over a list follows the object after the current one, where the source does: before
-- the body (`list_for_each_safe`) or after it (`list_for_each`). An `assert` or `abort` that fails, a
-- loop that finds its object in another list, and fuel that is spent are `none`.
pub mod Count
pub mod Decref
pub mod Scan
pub mod Restore
pub mod Collect
mod Runs
use flutter_quickjs.Prelude.{
  ℕ, zero, suc, ◌+◌, ◌-◌, Bool, true, false, ◌&&◌, Option, none, some, List, [], ◌∷◌, ◌++◌, length,
  if◌then◌else◌, ◌==◌, map,
}
use flutter_quickjs.Linked.{write}
use flutter_quickjs.Heap.{GcObject, mark_children}

-- The fields of `JSRuntime` and of the headers that the collector changes.
pub record Gc : Type 0 where
  pub ref_count : ℕ → ℕ
  pub mark : ℕ → ℕ
  pub gc_obj_list : List ℕ
  pub tmp_obj_list : List ℕ

-- The first `p` of a list is taken out.
unfoldable pub remove : ℕ → List ℕ → List ℕ
remove p [] = []
remove p (x ∷ xs) = if x == p then xs else x ∷ remove p xs

-- `list_del(&p->link)`, then `list_add_tail(&p->link, &rt->tmp_obj_list)`
unfoldable pub move_to_tmp : Gc → ℕ → Gc
move_to_tmp s p = record s {
  gc_obj_list = remove p s.gc_obj_list;
  tmp_obj_list = remove p s.tmp_obj_list ++ p ∷ [];
}

-- `list_del(&p->link)`, then `list_add_tail(&p->link, &rt->gc_obj_list)`
unfoldable pub move_to_gc : Gc → ℕ → Gc
move_to_gc s p = record s {
  gc_obj_list = remove p s.gc_obj_list ++ p ∷ [];
  tmp_obj_list = remove p s.tmp_obj_list;
}

unfoldable pub gc_decref_child : Gc → ℕ → Option Gc
gc_decref_child s p = elim (s.ref_count p) [
  | zero ↦ none
  | suc n ↦
      let s' = record s { ref_count = write s.ref_count p n } in
      some (if n == 0 && s.mark p == 1 then move_to_tmp s' p else s')
]

unfoldable pub gc_scan_incref_child : Gc → ℕ → Option Gc
gc_scan_incref_child s p =
    let s' = record s { ref_count = write s.ref_count p (suc (s.ref_count p)) } in
    some (if s.ref_count p == 0 then record (move_to_gc s' p) { mark = write s.mark p 0 } else s')

unfoldable pub gc_scan_incref_child2 : Gc → ℕ → Option Gc
gc_scan_incref_child2 s p =
    some (record s { ref_count = write s.ref_count p (suc (s.ref_count p)) })

-- `mark_func` on each of the objects.
unfoldable pub call_each : (Gc → ℕ → Option Gc) → List ℕ → Gc → Option Gc
call_each mark_func [] s = some s
call_each mark_func (p ∷ ps) s = elim (mark_func s p) [
  | none ↦ none
  | some s' ↦ call_each mark_func ps s'
]

-- `el->next`, where the head of the list is `none`: the object after `p` in a list.
unfoldable pub first_in : List ℕ → Option ℕ
first_in [] = none
first_in (x ∷ xs) = some x

unfoldable pub next_in : ℕ → List ℕ → Option (Option ℕ)
next_in p [] = none
next_in p (x ∷ xs) = if x == p then some (first_in xs) else next_in p xs

module _ (objects : ℕ → GcObject) where
  unfoldable pub mark_children_of : (Gc → ℕ → Option Gc) → ℕ → Gc → Option Gc
  mark_children_of mark_func p s = elim (mark_children (objects p)) [
    | none ↦ none
    | some children ↦ call_each mark_func children s
  ]

  -- The end of a round of `gc_decref`, from `p->mark = 1`.
  unfoldable pub gc_decref_end : ℕ → Gc → Gc
  gc_decref_end p s =
      let s' = record s { mark = write s.mark p 1 } in
      if s.ref_count p == 0 then move_to_tmp s' p else s'

  unfoldable pub gc_decref_round : Gc → ℕ → Option Gc
  gc_decref_round s p = elim (s.mark p) [
    | zero ↦ elim (mark_children_of gc_decref_child p s) [
      | none ↦ none
      | some s' ↦ some (gc_decref_end p s')
    ]
    | suc m ↦ none
  ]

  -- `list_for_each_safe(el, el1, &rt->gc_obj_list)`
  unfoldable pub gc_decref_loop : (fuel : ℕ) (el : Option ℕ) → Gc → Option Gc
  gc_decref_loop fuel none s = some s
  gc_decref_loop zero (some p) s = none
  gc_decref_loop (suc fuel) (some p) s = elim (next_in p s.gc_obj_list) [
    | none ↦ none
    | some el1 ↦ elim (gc_decref_round s p) [ none ↦ none | some s' ↦ gc_decref_loop fuel el1 s' ]
  ]

  unfoldable pub gc_decref : Gc → Option Gc
  gc_decref s =
      gc_decref_loop (length s.gc_obj_list) (first_in s.gc_obj_list)
        (record s { tmp_obj_list = [] })

  unfoldable pub gc_scan_round : Gc → ℕ → Option Gc
  gc_scan_round s p = elim (s.ref_count p) [
    | zero ↦ none
    | suc n ↦ mark_children_of gc_scan_incref_child p (record s { mark = write s.mark p 0 })
  ]

  -- `list_for_each(el, &rt->gc_obj_list)`
  unfoldable pub gc_scan_loop : (fuel : ℕ) (el : Option ℕ) → Gc → Option Gc
  gc_scan_loop fuel none s = some s
  gc_scan_loop zero (some p) s = none
  gc_scan_loop (suc fuel) (some p) s = elim (gc_scan_round s p) [
    | none ↦ none
    | some s' ↦ elim (next_in p s'.gc_obj_list) [ none ↦ none | some el ↦ gc_scan_loop fuel el s' ]
  ]

  -- `list_for_each(el, &rt->tmp_obj_list)`
  unfoldable pub gc_restore_loop : (fuel : ℕ) (el : Option ℕ) → Gc → Option Gc
  gc_restore_loop fuel none s = some s
  gc_restore_loop zero (some p) s = none
  gc_restore_loop (suc fuel) (some p) s = elim (mark_children_of gc_scan_incref_child2 p s) [
    | none ↦ none
    | some s' ↦ elim (next_in p s'.tmp_obj_list) [
      | none ↦ none
      | some el ↦ gc_restore_loop fuel el s'
    ]
  ]

  unfoldable pub gc_scan : Gc → Option Gc
  gc_scan s =
      elim (gc_scan_loop (length s.gc_obj_list + length s.tmp_obj_list) (first_in s.gc_obj_list)
        s) [
          | none ↦ none
          | some s' ↦ gc_restore_loop (length s'.tmp_obj_list) (first_in s'.tmp_obj_list) s'
        ]

  -- `JS_RunGC` up to `gc_free_cycles`.
  unfoldable pub run_gc : Gc → Option Gc
  run_gc s = elim (gc_decref s) [ none ↦ none | some s' ↦ gc_scan s' ]
