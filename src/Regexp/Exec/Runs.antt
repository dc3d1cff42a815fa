-- ===== src/Regexp/Exec/Runs.antt =====
-- Runs of the executor of cxx/quickjs/libregexp.c.
use flutter_quickjs.Prelude.{Option-cases, inl, inr, compare-cases}
use flutter_quickjs.Prelude.{ℕ, Bool, true, List, [], ◌∷◌, Option, some, none, ◌≡◌, refl}
use flutter_quickjs.Prelude.{false, take, ◌≢◌, arith}
use flutter_quickjs.Regexp.Exec.Steps.{answer}
use flutter_quickjs.Regexp.Exec.Literal.{literal, starts, lre_exec-literal}
use flutter_quickjs.Prelude.{if◌then◌else◌}
use flutter_quickjs.Regexp.Exec.{Outcome, matched, no_match, lre_exec, lre_get_capture_count}
use flutter_quickjs.Regexp.State.{Context, Saved, StateKind, Resumed, push_state, recurse}
use flutter_quickjs.Regexp.State.Restore.{recurse-push_state}
use flutter_quickjs.Regexp.Ops.Reads.{Stays, subject_reads, match_capture-ne-fault}
use flutter_quickjs.Regexp.Exec
use flutter_quickjs.Regexp.State
use flutter_quickjs.Regexp.State.{Machine}
use flutter_quickjs.Regexp.Opcode
use flutter_quickjs.Regexp.Ops
use flutter_quickjs.Regexp.Chars
use flutter_quickjs.Regexp.Range

-- A match as its position and captures.
abbrev result : Outcome → Option (ℕ × List (Option ℕ))
result (matched cptr m) = some (cptr, m.capture)
result o = none

-- `/a*a/` with its header: save_start 0, a* as a greedy quantifier, a, save_end 0, match.
abbrev a_star_a : List ℕ
a_star_a =
    0 ∷ 1 ∷ 0 ∷ 29 ∷ 0 ∷ 0 ∷ 0 ∷ 11 ∷ 0 ∷ 28 ∷ 4 ∷ 0 ∷ 0 ∷ 0 ∷ 0 ∷ 0 ∷ 0 ∷ 0 ∷ 0xff ∷ 0xff ∷ 0xff
    ∷ 0x7f ∷ 1 ∷ 0 ∷ 0 ∷ 0 ∷ 1 ∷ 0x61 ∷ 0 ∷ 10 ∷ 1 ∷ 0x61 ∷ 0 ∷ 12 ∷ 0 ∷ 10 ∷ []

abbrev no_fold : ℕ → Bool → ℕ
no_fold c is_utf16 = c

abbrev granted : ℕ → Bool
granted size = true

-- Three are taken, and one is given back for the last `a`.
greedy_gives_back :
    result (lre_exec no_fold granted 20 a_star_a (0x61 ∷ 0x61 ∷ 0x61 ∷ 0x62 ∷ []) 0 0)
    ≡ some (3, some 0 ∷ some 3 ∷ [])
unfolding lre_exec Exec.exec_context Exec.lre_get_flags Exec.lre_get_capture_count Exec.exec_type
    Exec.flag_set Exec.exec_machine Exec.lre_exec_backtrack Exec.dispatch Exec.step Exec.leave
    Exec.proceed Exec.op_greedy Exec.repeat_atom Exec.quant_at Exec.after_repeat Opcode.opcode_of
    Ops.op_save Ops.op_char Ops.test_char Ops.canonical Ops.with_value State.push_state
    State.grow_states State.state_size State.recurse State.retry_greedy State.go_back State.jump
    State.pop_state State.pop_state1 State.restore_stack Chars.get_char Chars.prev_char
    Range.get_u16 Range.get_u32
greedy_gives_back = refl

abbrev aaab : List ℕ
aaab = 0x61 ∷ 0x61 ∷ 0x61 ∷ 0x62 ∷ []

abbrev context : Context
context = record {
  bc = a_star_a;
  cbuf = 0x61 ∷ 0x62 ∷ [];
  cbuf_type = Chars.chars8;
  capture_count = 1;
  stack_size_max = 1;
  multi_line = false;
  ignore_case = false;
  is_utf16 = false;
}

abbrev machine : Machine
machine = record {
  pc = 26;
  cptr = 1;
  capture = some 0 ∷ some 1 ∷ [];
  stack = 5 ∷ [];
  stack_len = 1;
  states = [];
  state_stack_size = 0;
}

abbrev after_push : Machine
after_push = record machine {
  states =
      record {
        kind = StateKind.split;
        count = 0;
        cptr = 1;
        pc = 9;
        capture = machine.capture;
        stack = 5 ∷ [];
      }
      ∷ [];
  state_stack_size = 8;
}

pushes : push_state granted context machine 9 1 StateKind.split 0 ≡ some after_push
unfolding push_state State.grow_states State.state_size
pushes = refl

-- The first way has gone on to the end of the subject and has changed its capture.
recurse-push_state_example :
    (r : Machine) × (recurse context
        (record after_push { cptr = 2; capture = [] })
        false
        after_push.states
      ≡ Resumed.resume r)
    × (r.pc ≡ 9)
    × (r.cptr ≡ 1)
    × (r.capture ≡ machine.capture)
    × (r.stack_len ≡ 1)
    × (take r.stack_len r.stack ≡ 5 ∷ [])
    × (r.states ≡ [])
recurse-push_state_example =
    recurse-push_state granted context machine after_push
      (record after_push { cptr = 2; capture = [] }) 9 1 (omega arith) pushes refl

-- `[a-c]` as a table of one range.
abbrev in_class : Context
in_class = record context { bc = 1 ∷ 0 ∷ 0x61 ∷ 0 ∷ 0x63 ∷ 0 ∷ [] }

abbrev at_class : Machine
at_class = record machine { pc = 0 }

class_lookup : (c : ℕ) → (b : Bool) × (Range.range_match in_class.bc at_class.pc c ≡ some b)
unfolding Range.range_match Range.range_loop Range.range_at Range.get_u16
class_lookup c = elim (Option-cases (Range.range_match in_class.bc at_class.pc c)) [
  | inr r ↦ r
  | inl missing ↦ absurd (elim (compare-cases c 97) [
    | inl (e, h) ↦ ground arith
    | inr (inl (e, h)) ↦ ground arith
    | inr (inr (e, h)) ↦ ground arith
  ])
]

subject_reads_example :
    Stays in_class (Ops.test_char no_fold in_class at_class 0x61)
    × Stays in_class (Ops.op_dot in_class at_class)
    × Stays in_class (Ops.op_any in_class at_class)
    × Stays in_class (Ops.op_line_start in_class at_class)
    × Stays in_class (Ops.op_line_end in_class at_class)
    × Stays in_class (Ops.op_word_boundary in_class true at_class)
    × Stays in_class (Ops.op_prev in_class at_class)
    × Stays in_class (Ops.op_range no_fold in_class Range.range_match 4 at_class)
unfolding Range.get_u16
subject_reads_example =
    subject_reads no_fold in_class at_class 0x61 true Range.range_match 4 1 (omega arith) refl
      class_lookup

match_capture-ne-fault_example :
    Ops.match_capture no_fold context false (some 0) (some 1) machine ≢ Ops.fault
match_capture-ne-fault_example =
    match_capture-ne-fault no_fold context false (some 0) (some 1) machine (omega arith)
      (omega arith) (omega arith)

counted : lre_get_capture_count a_star_a ≡ some 1
unfolding lre_get_capture_count
counted = refl

-- `/ab/y` at the second unit of "xabc"
lre_exec-literal_example :
    answer (
      lre_exec no_fold granted 5
        (literal 11 0 0 0 (0x61 ∷ 0x62 ∷ []))
        (0x78 ∷ 0x61 ∷ 0x62 ∷ 0x63 ∷ [])
        1
        0)
    ≡ some (
        if starts (0x61 ∷ 0x62 ∷ []) (0x61 ∷ 0x62 ∷ 0x63 ∷ [])
        then some (some 1 ∷ some 3 ∷ [])
        else none)
lre_exec-literal_example =
    lre_exec-literal no_fold granted 11 0 0 0 (0x61 ∷ 0x62 ∷ []) (0x78 ∷ 0x61 ∷ 0x62 ∷ 0x63 ∷ []) 1
      0 (omega arith, (omega arith, tt)) (omega arith)
