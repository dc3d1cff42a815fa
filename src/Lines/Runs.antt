-- ===== src/Lines/Runs.antt =====
-- The table of line numbers of cxx/quickjs/quickjs.c for a function with three slots.
use flutter_quickjs.Prelude.{ℕ, ◌≡◌, arith, refl, true, false, some, List, [], ◌∷◌}
use flutter_quickjs.Cutils.DynBuf.{DynBuf, dbuf_init}
use flutter_quickjs.Cutils.DynBuf.Zeroing.{zeroing, zeroing-IsRealloc}
use flutter_quickjs.Leb128.{get_leb128, get_leb128_loop, get_sleb128, unzigzag}
use flutter_quickjs.Lines.{
  Slot, Debug, add_pc2line_info, compute_pc2line_info, find_line_num, find_loop,
}
use flutter_quickjs.Lines.Kept.{line_found, Shrinks}
use flutter_quickjs.Lines.{create_debug, kept_buf, js_realloc, pointer}
use flutter_quickjs.Prelude.{◌^◌, ◌-◌, ◌≤◌, ◌++◌, length, take, replicate, append-nil}
use flutter_quickjs.Lines.Recorded.{add_all, fresh, AreInts, find_line_num-compute}

abbrev slot : ℕ → ℕ → Slot
slot pc line_num = record { pc = pc; line_num = line_num }

-- The second call has the line of the first; the last one goes back by 90 lines.
abbrev calls : List Slot
calls = slot 3 11 ∷ slot 5 11 ∷ slot 10 100 ∷ slot 14 10 ∷ []

abbrev function : Debug
function = record {
  has_debug = true;
  pc2line_buf = some (18 ∷ 0 ∷ 7 ∷ 178 ∷ 1 ∷ 0 ∷ 4 ∷ 179 ∷ 1 ∷ []);
  pc2line_len = 9;
  line_num = 10;
}

same_line_not_recorded :
    (add_all (fresh 8 10) calls).line_number_slots ≡ slot 3 11 ∷ slot 10 100 ∷ slot 14 10 ∷ []
unfolding add_all add_pc2line_info
same_line_not_recorded = refl

line_before : find_line_num function 2 ≡ some 10
unfolding find_line_num find_loop
line_before = refl

line_of_short : find_line_num function 9 ≡ some 11
unfolding find_line_num find_loop get_leb128 get_leb128_loop get_sleb128 unzigzag
line_of_short = refl

line_of_long : find_line_num function 13 ≡ some 100
unfolding find_line_num find_loop get_leb128 get_leb128_loop get_sleb128 unzigzag
line_of_long = refl

line_goes_back : find_line_num function 20 ≡ some 10
unfolding find_line_num find_loop get_leb128 get_leb128_loop get_sleb128 unzigzag
line_goes_back = refl

cut_table : find_line_num (record function { pc2line_len = 3 }) 20 ≡ some 10
unfolding find_line_num find_loop get_leb128 get_leb128_loop get_sleb128 unzigzag
cut_table = refl

calls-AreInts : AreInts calls
calls-AreInts = (
  (omega arith, omega arith),
  ((omega arith, omega arith), ((omega arith, omega arith), ((omega arith, omega arith), tt))),
)

-- A function on one line has no table.
without_table : find_line_num (create_debug zeroing dbuf_init 10) 0 ≡ some (2 ^ 32 - 1)
unfolding find_line_num create_debug kept_buf js_realloc pointer dbuf_init
without_table = refl

zeroing-Shrinks : Shrinks zeroing
zeroing-Shrinks = record { first_kept = first_kept }
  where
    first_kept :
        (b : List ℕ) (n : ℕ) (b' : List ℕ) → n ≤ length b → zeroing b n ≡ some b' → b' ≡ take n b
    first_kept b n b' h e =
        let none_new : n - length b ≡ 0 = omega arith in
        let whole : take n b ++ replicate (n - length b) 0 ≡ take n b =
          rw none_new (append-nil (take n b)) in
        cc

find_line_num-compute_example :
    (t : DynBuf) × (compute_pc2line_info zeroing false (add_all (fresh 8 10) calls) 10 dbuf_init
      ≡ some t)
    × (t.error ≡ false
        → (pc_value : ℕ)
        → find_line_num (create_debug zeroing t 10) pc_value
          ≡ some (line_found (add_all (fresh 8 10) calls).line_number_slots 10 pc_value))
find_line_num-compute_example =
    find_line_num-compute zeroing zeroing-IsRealloc zeroing-Shrinks 8 10 calls dbuf_init
      (omega arith) (omega arith) calls-AreInts
