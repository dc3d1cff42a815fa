-- ===== src/Regexp/State.antt =====
-- The state of `lre_exec_backtrack` of cxx/quickjs/libregexp.c: `REExecContext`, `REExecState`,
-- `push_state`, and the loop at `recurse:` that goes back to a saved state.
-- A position in the subject counts code units, and a `pc` counts bytes of the bytecode.
pub mod Restore
use flutter_quickjs.Prelude.{ℕ, zero, suc, ◌+◌, ◌-◌, ◌*◌, ◌/◌, ◌%◌, ◌^◌, Bool, true, false, not}
use flutter_quickjs.Prelude.{Option, none, some, List, [], ◌∷◌, ◌++◌, length, take, drop}
use flutter_quickjs.Prelude.{if◌then◌else◌, ltb, leb, ◌==◌}
use flutter_quickjs.Regexp.Chars.{CbufType, prev_char}
use flutter_quickjs.Regexp.Range.{get_u32}

-- The fields of `REExecContext` that do not change. `cbuf_end` is behind the last unit of `cbuf`.
pub record Context : Type 0 where
  pub bc : List ℕ
  pub cbuf : List ℕ
  pub cbuf_type : CbufType
  pub capture_count : ℕ
  pub stack_size_max : ℕ
  pub multi_line : Bool
  pub ignore_case : Bool
  pub is_utf16 : Bool

pub data StateKind : Type 0 where
  split lookahead negative_lookahead greedy_quant : StateKind

-- `REExecState`: `buf` is in two parts, the captures and the part of the stack in use.
pub record Saved : Type 0 where
  pub kind : StateKind
  pub count : ℕ
  pub cptr : ℕ
  pub pc : ℕ
  pub capture : List (Option ℕ)
  pub stack : List ℕ

-- What `lre_exec_backtrack` works on. `stack` is the whole array, of which `stack_len` values are in
-- use; `states` are the saved states, the last one first, in a block for `state_stack_size`.
pub record Machine : Type 0 where
  pub pc : ℕ
  pub cptr : ℕ
  pub capture : List (Option ℕ)
  pub stack : List ℕ
  pub stack_len : ℕ
  pub states : List Saved
  pub state_stack_size : ℕ

-- `sizeof(REExecState)`, with pointers of 8 bytes, and `s->state_size`.
unfoldable pub state_size : Context → ℕ
state_size s = 32 + s.capture_count * 8 * 2 + s.stack_size_max * 8

-- The reallocation in `push_state`: the new size of the block, or `none` if there is no memory.
-- Whether `lre_realloc` gives a block of so many bytes is the argument `grant`.
unfoldable pub grow_states : (ℕ → Bool) → Context → Machine → Option ℕ
grow_states grant s m =
    let size = m.state_stack_size * 3 / 2 in
    let new_size = if ltb size 8 then 8 else size in
    if ltb m.state_stack_size (length m.states + 1)
    then if grant (new_size * state_size s) then some new_size else none
    else some m.state_stack_size

-- `none` is the result -1.
unfoldable pub push_state : (ℕ → Bool) → Context → Machine → ℕ → ℕ → StateKind → ℕ → Option Machine
push_state grant s m pc cptr kind count = elim (grow_states grant s m) [
  | none ↦ none
  | some size ↦
      let saved : Saved = record {
        kind = kind;
        count = count;
        cptr = cptr;
        pc = pc;
        capture = m.capture;
        stack = take m.stack_len m.stack;
      } in
      some (record m { states = saved ∷ m.states; state_stack_size = size })
]

-- `memcpy(stack, rs->buf + n, stack_len * sizeof(stack[0]))`
unfoldable pub restore_stack : List ℕ → List ℕ → List ℕ
restore_stack saved stack = saved ++ drop (length saved) stack

-- `pop_state1`: the position, the pc and the stack of a saved state, which is removed.
unfoldable pub pop_state1 : Machine → Saved → List Saved → Machine
pop_state1 m rs rest = record m {
  pc = rs.pc;
  cptr = rs.cptr;
  stack = restore_stack rs.stack m.stack;
  stack_len = length rs.stack;
  states = rest;
}

-- `pop_state`: the captures, too.
unfoldable pub pop_state : Machine → Saved → List Saved → Machine
pop_state m rs rest = record (pop_state1 m rs rest) { capture = rs.capture }

-- `pc + (int)val`, where the bytecode begins at 0.
unfoldable pub jump : ℕ → ℕ → Option ℕ
jump pc val =
    if ltb val (2 ^ 31)
    then some (pc + val)
    else if leb (2 ^ 32) (pc + val)
    then some (pc + val - 2 ^ 32)
    else none

-- `for(i = 0; i < char_count; i++) PREV_CHAR(cptr, s->cbuf);`
unfoldable pub go_back : Context → ℕ → ℕ → Option ℕ
go_back s zero cptr = some cptr
go_back s (suc n) cptr = elim (prev_char s.cbuf_type s.cbuf 0 cptr) [
  | none ↦ none
  | some cptr' ↦ go_back s n cptr'
]

-- How the loop at `recurse:` ends: it goes on from a state, it returns `ret`, or it accesses memory
-- that is not its own.
pub data Resumed : Type 0 where
  resume : Machine → Resumed
  finished : Bool → Machine → Resumed
  fault : Resumed

-- The case of `RE_EXEC_STATE_GREEDY_QUANT`: one repetition less, and the state stays while it can
-- give more.
unfoldable pub retry_greedy : Context → Machine → Saved → List Saved → Resumed
retry_greedy s m rs rest = elim (get_u32 s.bc (rs.pc + 12)) [
  | none ↦ fault
  | some char_count ↦ elim (go_back s char_count rs.cptr) [
    | none ↦ fault
    | some cptr ↦ elim (get_u32 s.bc rs.pc) [
      | none ↦ fault
      | some val ↦ elim (jump (rs.pc + 16) val) [
        | none ↦ fault
        | some pc ↦
            let count = (rs.count + 2 ^ 64 - 1) % 2 ^ 64 in
            let rs' = record rs { cptr = cptr; count = count } in
            let rest' = if count == 0 then rest else rs' ∷ rest in
            resume (record (pop_state m rs rest') { pc = pc; cptr = cptr })
      ]
    ]
  ]
]

-- The loop at `recurse:`, over the saved states. A match drops the states that are only ways to try
-- again; a look ahead turns the result into the one of the state that it ends.
unfoldable pub recurse : Context → Machine → Bool → List Saved → Resumed
recurse s m ret [] = finished ret (record m { states = [] })
recurse s m ret (rs ∷ rest) = elim rs.kind [
  | split ↦ elim ret [ true ↦ recurse s m true rest | false ↦ resume (pop_state m rs rest) ]
  | greedy_quant ↦ elim ret [ true ↦ recurse s m true rest | false ↦ retry_greedy s m rs rest ]
  | lookahead ↦ elim ret [ true ↦ resume (pop_state1 m rs rest) | false ↦ recurse s m false rest ]
  | negative_lookahead ↦ elim ret [
    | true ↦ recurse s m false rest
    | false ↦ resume (pop_state m rs rest)
  ]
]
