-- ===== src/Regexp/Exec.antt =====
-- The executor of cxx/quickjs/libregexp.c: the loop of `lre_exec_backtrack`, and `lre_exec`.
-- `lre_canonicalize` of libunicode.c folds the case of a character by tables, and is an argument; so
-- is `grant`, which says whether `lre_realloc` gives a block of so many bytes.
pub mod Steps
pub mod Literal
mod Runs
use flutter_quickjs.Prelude.{
  ℕ, zero, suc, ◌+◌, ◌-◌, ◌*◌, ◌%◌, ◌/◌, ◌^◌, Bool, true, false, not, ◌&&◌,
}
use flutter_quickjs.Prelude.{Option, none, some, List, [], ◌∷◌, length, get_elem?, replicate}
use flutter_quickjs.Prelude.{if◌then◌else◌, ltb, leb, ◌==◌}
use flutter_quickjs.Regexp.Chars.{CbufType, chars8, chars16, utf16}
use flutter_quickjs.Regexp.Opcode.{Opcode, opcode_of}
use flutter_quickjs.Regexp.Range.{get_u32, range_match, range32_match}
use flutter_quickjs.Regexp.State.{Context, Machine, StateKind, Resumed, jump, push_state, recurse}
use flutter_quickjs.Regexp.Ops

-- The operands of `REOP_simple_greedy_quant`: `next_pos`, `quant_min` and `quant_max`.
pub record Quant : Type 0 where
  pub next_pos : ℕ
  pub quant_min : ℕ
  pub quant_max : ℕ

-- How a call ends. `matched cptr` is the result `cptr` of a call with `no_recurse`, and 1 of one
-- without; `no_match` is 0 and `no_memory` is -1. The fuel ends if the code has not returned.
pub data Outcome : Type 0 where
  matched : ℕ → Machine → Outcome
  no_match : Machine → Outcome
  no_memory : Outcome
  fault : Outcome
  out_of_fuel : Outcome

-- How the repetitions of a greedy quantifier end: with `q` of them done, at `cptr`.
pub data Repeated : Type 0 where
  repeated : ℕ → ℕ → Machine → Repeated
  ended : Outcome → Repeated

module _ (lre_canonicalize : ℕ → Bool → ℕ) (grant : ℕ → Bool) (s : Context) where
  -- The switch, but for `REOP_match` and `REOP_simple_greedy_quant`, which `run` has.
  unfoldable pub step : Opcode → Machine → Ops.Step
  step Opcode.invalid m = Ops.fault
  step Opcode.char m = Ops.op_char lre_canonicalize s m
  step Opcode.char32 m = Ops.op_char32 lre_canonicalize s m
  step Opcode.dot m = Ops.op_dot s m
  step Opcode.any m = Ops.op_any s m
  step Opcode.line_start m = Ops.op_line_start s m
  step Opcode.line_end m = Ops.op_line_end s m
  step Opcode.goto m = Ops.op_goto s m
  step Opcode.split_goto_first m = Ops.op_split s grant false m
  step Opcode.split_next_first m = Ops.op_split s grant true m
  step Opcode.match m = Ops.fault
  step Opcode.save_start m = Ops.op_save s 0 m
  step Opcode.save_end m = Ops.op_save s 1 m
  step Opcode.save_reset m = Ops.op_save_reset s m
  step Opcode.loop m = Ops.op_loop s m
  step Opcode.push_i32 m = Ops.op_push_i32 s m
  step Opcode.drop m = Ops.op_drop s m
  step Opcode.word_boundary m = Ops.op_word_boundary s false m
  step Opcode.not_word_boundary m = Ops.op_word_boundary s true m
  step Opcode.back_reference m = Ops.op_back_reference lre_canonicalize s false m
  step Opcode.backward_back_reference m = Ops.op_back_reference lre_canonicalize s true m
  step Opcode.range m = Ops.op_range lre_canonicalize s range_match 4 m
  step Opcode.range32 m = Ops.op_range lre_canonicalize s range32_match 8 m
  step Opcode.lookahead m = Ops.op_lookahead s grant StateKind.lookahead m
  step Opcode.negative_lookahead m = Ops.op_lookahead s grant StateKind.negative_lookahead m
  step Opcode.push_char_pos m = Ops.op_push_char_pos s m
  step Opcode.bne_char_pos m = Ops.op_bne_char_pos s m
  step Opcode.prev m = Ops.op_prev s m
  step Opcode.simple_greedy_quant m = Ops.fault

  -- After `no_match:` and after `REOP_match`: a call with `no_recurse` returns; another goes back to
  -- a saved state, or returns if there is none. `next` is the rest of the loop.
  unfoldable pub leave : (Bool → Machine → Outcome) → Bool → Bool → Machine → Outcome
  leave next true true m = matched m.cptr m
  leave next true false m = no_match m
  leave next false ret m = elim (recurse s m ret m.states) [
    | Resumed.resume m' ↦ next false m'
    | Resumed.finished done m' ↦ if done then matched m'.cptr m' else no_match m'
    | Resumed.fault ↦ fault
  ]

  unfoldable pub proceed : (Bool → Machine → Outcome) → Bool → Ops.Step → Outcome
  proceed next no_recurse (Ops.go m) = next no_recurse m
  proceed next no_recurse (Ops.miss m) = leave next no_recurse false m
  proceed next no_recurse (Ops.no_memory m) = no_memory
  proceed next no_recurse Ops.fault = fault

  -- The loop of `REOP_simple_greedy_quant`: `call` runs the atom at `pc1` with `no_recurse`. The
  -- call shares the arrays, and has its own pc, position and `stack_len`.
  unfoldable pub repeat_atom :
      (Bool → Machine → Outcome) → ℕ → ℕ → ℕ → ℕ → ℕ → ℕ → Machine → Repeated
  repeat_atom call zero pc1 quant_max stack_len q cptr m = ended out_of_fuel
  repeat_atom call (suc rounds) pc1 quant_max stack_len q cptr m =
      elim (call true (record m { pc = pc1; cptr = cptr; stack_len = stack_len })) [
        | matched cptr' m' ↦ elim (leb quant_max (q + 1) && not (quant_max == 2 ^ 31 - 1)) [
          | true ↦ repeated (q + 1) cptr' m'
          | false ↦ repeat_atom call rounds pc1 quant_max stack_len (q + 1) cptr' m'
        ]
        | no_match m' ↦ repeated q cptr m'
        | no_memory ↦ ended no_memory
        | fault ↦ ended fault
        | out_of_fuel ↦ ended out_of_fuel
      ]

  unfoldable pub quant_at : ℕ → Option Quant
  quant_at pc = elim (get_u32 s.bc pc) [
    | none ↦ none
    | some next_pos ↦ elim (get_u32 s.bc (pc + 4)) [
      | none ↦ none
      | some quant_min ↦ elim (get_u32 s.bc (pc + 8)) [
        | none ↦ none
        | some quant_max ↦
            some (record { next_pos = next_pos; quant_min = quant_min; quant_max = quant_max })
      ]
    ]
  ]

  -- What follows the loop: too few repetitions are no match; more than `quant_min` are saved, to be
  -- given back one by one. `operands` is where the operands begin.
  unfoldable pub after_repeat : Quant → ℕ → ℕ → ℕ → ℕ → Machine → Ops.Step
  after_repeat quant operands stack_len q cptr m =
      Ops.with_value (jump (operands + 16) quant.next_pos) λ target.
        let m' = record m { pc = target; cptr = cptr; stack_len = stack_len } in
        if ltb q quant.quant_min
        then Ops.miss m'
        else if ltb quant.quant_min q
        then elim (push_state grant s m' operands cptr StateKind.greedy_quant
            (q - quant.quant_min)) [ none ↦ Ops.no_memory m' | some m'' ↦ Ops.go m'' ]
        else Ops.go m'

  -- `m.pc` is behind the opcode.
  unfoldable pub op_greedy : (Bool → Machine → Outcome) → ℕ → Bool → Machine → Outcome
  op_greedy next rounds no_recurse m = elim (quant_at m.pc) [
    | none ↦ fault
    | some quant ↦
        elim (repeat_atom next rounds (m.pc + 16) quant.quant_max m.stack_len 0 m.cptr m) [
          | ended o ↦ o
          | repeated q cptr m' ↦
              proceed next no_recurse (after_repeat quant m.pc m.stack_len q cptr m')
        ]
  ]

  -- `switch(opcode)`
  unfoldable pub dispatch : (Bool → Machine → Outcome) → ℕ → Bool → Opcode → Machine → Outcome
  dispatch next rounds no_recurse Opcode.match m = leave next no_recurse true m
  dispatch next rounds no_recurse Opcode.simple_greedy_quant m = op_greedy next rounds no_recurse m
  dispatch next rounds no_recurse op m = proceed next no_recurse (step op m)

  -- The loop of `lre_exec_backtrack`. Each instruction takes a unit of fuel, and what it calls has
  -- the fuel that is left.
  unfoldable pub lre_exec_backtrack : ℕ → Bool → Machine → Outcome
  lre_exec_backtrack zero no_recurse m = out_of_fuel
  lre_exec_backtrack (suc fuel) no_recurse m = elim (get_elem? s.bc m.pc) [
    | none ↦ fault
    | some byte ↦ elim (opcode_of byte) [
      | none ↦ fault
      | some op ↦ dispatch (lre_exec_backtrack fuel) fuel no_recurse op (record m { pc = m.pc + 1 })
    ]
  ]

-- The flags of a regular expression and the other two bytes of the header that `lre_exec` reads.
unfoldable pub lre_get_flags : List ℕ → Option ℕ
lre_get_flags bc_buf = get_elem? bc_buf 0

unfoldable pub lre_get_capture_count : List ℕ → Option ℕ
lre_get_capture_count bc_buf = get_elem? bc_buf 1

-- `re_flags & (1 << k)`
unfoldable pub flag_set : ℕ → ℕ → Bool
flag_set re_flags k = re_flags / 2 ^ k % 2 == 1

-- `s->cbuf_type`, with UTF-16 only for 16-bit units and the flag.
unfoldable pub exec_type : ℕ → ℕ → CbufType
exec_type cbuf_type re_flags =
    if cbuf_type == 0 then chars8 else if flag_set re_flags 4 then utf16 else chars16

unfoldable pub exec_context : List ℕ → List ℕ → ℕ → Option Context
exec_context bc_buf cbuf cbuf_type = elim (lre_get_flags bc_buf) [
  | none ↦ none
  | some re_flags ↦ elim (lre_get_capture_count bc_buf) [
    | none ↦ none
    | some capture_count ↦ elim (get_elem? bc_buf 2) [
      | none ↦ none
      | some stack_size_max ↦ some (record {
        bc = bc_buf;
        cbuf = cbuf;
        cbuf_type = exec_type cbuf_type re_flags;
        capture_count = capture_count;
        stack_size_max = stack_size_max;
        multi_line = flag_set re_flags 2;
        ignore_case = flag_set re_flags 1;
        is_utf16 = flag_set re_flags 4;
      })
    ]
  ]
]

-- The machine that `lre_exec` starts: no captures, an empty stack and no saved states. The array
-- `stack_buf` is not initialised; it is zeros here.
unfoldable pub exec_machine : Context → ℕ → Machine
exec_machine s cindex = record {
  pc = 7;
  cptr = cindex;
  capture = replicate (s.capture_count * 2) none;
  stack = replicate s.stack_size_max 0;
  stack_len = 0;
  states = [];
  state_stack_size = 0;
}

-- `clen` is the length of `cbuf`.
unfoldable pub lre_exec : (ℕ → Bool → ℕ) → (ℕ → Bool) → ℕ → List ℕ → List ℕ → ℕ → ℕ → Outcome
lre_exec lre_canonicalize grant fuel bc_buf cbuf cindex cbuf_type =
    elim (exec_context bc_buf cbuf cbuf_type) [
      | none ↦ fault
      | some s ↦ lre_exec_backtrack lre_canonicalize grant s fuel false (exec_machine s cindex)
    ]
