-- ===== src/Gc/Runs.antt =====
-- The collector of cxx/quickjs/quickjs.c on a heap with a cycle.
use flutter_quickjs.Prelude.{
  ℕ, zero, suc, ◌+◌, ◌<◌, ◌≤◌, ◌≡◌, arith, refl, Option, none, some, List, [], ◌∷◌,
}
use flutter_quickjs.Linked.{write}
use flutter_quickjs.Heap.{GcObject, js_object, shape, normal, mark_children, mark_property}
use flutter_quickjs.Heap.Values.{object, mark_value, mark_pointer, concat_map}
use flutter_quickjs.Heap.Classes.{no_data, array, gc_mark, js_array_mark}
use flutter_quickjs.Gc.{
  Gc, remove, move_to_tmp, move_to_gc, gc_decref_child, gc_scan_incref_child, gc_scan_incref_child2,
  call_each, first_in, next_in, mark_children_of, gc_decref_end, gc_decref_round, gc_decref_loop,
  gc_decref, gc_scan_round, gc_scan_loop, gc_restore_loop, gc_scan, run_gc,
}
use flutter_quickjs.Gc.Count.{count}
use flutter_quickjs.Gc.Decref.{refs, IsHeap}
use flutter_quickjs.Gc.Collect.{IsReady, Collects, run_gc-Collects}

-- 1 and 2 hold each other, 3 is an array of itself that is held from outside, and 4 is their shape.
abbrev objects : ℕ → GcObject
objects (suc zero) = js_object 4 (normal (object 2) ∷ []) no_data
objects (suc (suc zero)) = js_object 4 (normal (object 1) ∷ []) no_data
objects (suc (suc (suc zero))) = js_object 4 [] (array (object 3 ∷ []))
objects p = shape none

abbrev children : ℕ → List ℕ
children (suc zero) = 4 ∷ 2 ∷ []
children (suc (suc zero)) = 4 ∷ 1 ∷ []
children (suc (suc (suc zero))) = 4 ∷ 3 ∷ []
children p = []

abbrev all : List ℕ
all = 1 ∷ 2 ∷ 3 ∷ 4 ∷ []

abbrev ext : ℕ → ℕ
ext (suc (suc (suc zero))) = 1
ext p = 0

abbrev ref_count : ℕ → ℕ
ref_count (suc zero) = 1
ref_count (suc (suc zero)) = 1
ref_count (suc (suc (suc zero))) = 2
ref_count p = 3

abbrev heap : Gc
heap = record { ref_count = ref_count; mark = λ p. 0; gc_obj_list = all; tmp_obj_list = [] }

-- The lists of a state.
abbrev lists : Option Gc → Option (List ℕ × List ℕ)
lists none = none
lists (some s) = some (s.gc_obj_list, s.tmp_obj_list)

cycle_is_found : lists (run_gc objects heap) ≡ some (3 ∷ 4 ∷ [], 1 ∷ 2 ∷ [])
unfolding run_gc gc_decref gc_decref_loop gc_decref_round gc_decref_end mark_children_of
    mark_children mark_property mark_value mark_pointer concat_map gc_mark js_array_mark call_each
    gc_decref_child move_to_tmp move_to_gc remove write first_in next_in gc_scan gc_scan_loop
    gc_scan_round gc_scan_incref_child gc_scan_incref_child2 gc_restore_loop
cycle_is_found = refl

is_heap : IsHeap objects children all
unfolding mark_children mark_property mark_value mark_pointer concat_map gc_mark js_array_mark count
is_heap = record { marks_children = marks; single = once; closed = inside }
  where
    marks : (p : ℕ) → 0 < count p all → mark_children (objects p) ≡ some (children p)
    marks zero h = refl
    marks (suc zero) h = refl
    marks (suc (suc zero)) h = refl
    marks (suc (suc (suc zero))) h = refl
    marks (suc (suc (suc (suc p)))) h = refl

    once : (o : ℕ) → count o all ≤ 1
    once o = ground arith

    inside : (p o : ℕ) → 0 < count p all → 0 < count o (children p) → 0 < count o all
    inside zero o h k = absurd (omega arith)
    inside (suc zero) o h k = ground arith
    inside (suc (suc zero)) o h k = ground arith
    inside (suc (suc (suc zero))) o h k = ground arith
    inside (suc (suc (suc (suc p)))) o h k = absurd (omega arith)

is_ready : IsReady children ext all heap
unfolding count refs
is_ready = record { listed = refl; unmarked = λ o h. refl; counted = counted }
  where
    counted : (o : ℕ) → 0 < count o all → ref_count o ≡ refs children o all + ext o
    counted zero h = absurd (omega arith)
    counted (suc zero) h = refl
    counted (suc (suc zero)) h = refl
    counted (suc (suc (suc zero))) h = refl
    counted (suc (suc (suc (suc zero)))) h = refl
    counted (suc (suc (suc (suc (suc p))))) h = absurd (ground arith)

run_gc-Collects_example :
    (s' : Gc) × (run_gc objects heap ≡ some s') × Collects children ext all heap s'
run_gc-Collects_example = run_gc-Collects objects children all is_heap ext heap is_ready
