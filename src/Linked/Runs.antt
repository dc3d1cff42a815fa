-- ===== src/Linked/Runs.antt =====
-- Rings of cxx/quickjs/list.h on concrete nodes.
use flutter_quickjs.Prelude.{◌≡◌, arith, refl, false, List, [], ◌∷◌}
use flutter_quickjs.Linked.{
  Links, write, init_list_head, list_add_between, list_add, list_add_tail, list_del, list_empty,
}
use flutter_quickjs.Linked.Ring.{IsRing}
use flutter_quickjs.Linked.Lists.{
  Op, add, add_tail, del, Edited, unchanged, then_edited, put_first, put_last, take_out, apply_all,
  calls-IsRing,
}

abbrev nowhere : Links
nowhere = record { prev = λ p. 0; next = λ p. 0 }

abbrev calls : List Op
calls = add 2 ∷ add_tail 3 ∷ add 4 ∷ del 2 ∷ []

after_four : (apply_all (init_list_head nowhere 1) 1 calls).next 4 ≡ 3
unfolding apply_all init_list_head list_add list_add_tail list_add_between list_del write
after_four = refl

not_empty : list_empty (apply_all (init_list_head nowhere 1) 1 calls) 1 ≡ false
unfolding apply_all init_list_head list_add list_add_tail list_add_between list_del write list_empty
not_empty = refl

calls_edit : Edited 1 calls [] (4 ∷ 3 ∷ [])
calls_edit = then_edited (put_first (omega arith, tt)) (
    then_edited (put_last (omega arith, (omega arith, tt))) (
      then_edited (put_first (omega arith, (omega arith, (omega arith, tt))))
        (then_edited (take_out (4 ∷ []) (3 ∷ [])) unchanged)))

calls-IsRing_example : IsRing (apply_all (init_list_head nowhere 1) 1 calls) 1 (4 ∷ 3 ∷ [])
calls-IsRing_example = calls-IsRing nowhere 1 calls (4 ∷ 3 ∷ []) calls_edit
