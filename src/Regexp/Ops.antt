-- ===== src/Regexp/Ops.antt =====
-- The cases of the switch in `lre_exec_backtrack` of cxx/quickjs/libregexp.c, one function each.
-- `m.pc` is behind the opcode when a case begins.
pub mod Reads
use flutter_quickjs.Prelude.{ℕ, zero, suc, ◌+◌, ◌-◌, ◌*◌, ◌%◌, ◌^◌, Bool, true, false, not, ◌&&◌}
use flutter_quickjs.Prelude.{Option, none, some, List, [], ◌∷◌, length, get_elem?, set, xor}
use flutter_quickjs.Prelude.{if◌then◌else◌, ltb, leb, ◌==◌}
use flutter_quickjs.Regexp.Chars.{get_char, peek_char, peek_prev_char, get_prev_char, prev_char}
use flutter_quickjs.Regexp.Chars.{is_line_terminator, is_word_char, CbufType}
use flutter_quickjs.Regexp.Range.{get_u16, get_u32, range_match, range32_match}
use flutter_quickjs.Regexp.State.{Context, Machine, StateKind, jump, push_state}

-- How a case ends: the loop goes on; `no_match`; the result -1 for want of memory; or an access
-- outside an array, a failed assertion or `abort()`.
pub data Step : Type 0 where
  go : Machine → Step
  miss : Machine → Step
  no_memory : Machine → Step
  fault : Step

-- Goes on with a value that may be missing.
unfoldable pub with_value {ℓ} : {A : Type ℓ} → Option A → (A → Step) → Step
with_value none k = fault
with_value (some a) k = k a

-- The loop of `REOP_save_reset`, with `n` captures to go from `val` on.
unfoldable pub reset_captures : ℕ → ℕ → List (Option ℕ) → List (Option ℕ)
reset_captures zero val capture = capture
reset_captures (suc n) val capture =
    reset_captures n (val + 1) (set (set capture (2 * val) none) (2 * val + 1) none)

module _ (s : Context) where
  -- `GET_CHAR(c, cptr, cbuf_end)`
  abbrev pub next_char : Machine → Option (ℕ × ℕ)
  next_char m = get_char s.cbuf_type s.cbuf (length s.cbuf) m.cptr

  unfoldable pub op_split : (ℕ → Bool) → Bool → Machine → Step
  op_split grant next_first m = with_value (get_u32 s.bc m.pc) λ val.
      with_value (jump (m.pc + 4) val) λ target.
        let pc1 = if next_first then target else m.pc + 4 in
        let pc = if next_first then m.pc + 4 else target in
        elim (push_state grant s m pc1 m.cptr StateKind.split 0) [
          | none ↦ no_memory m
          | some m' ↦ go (record m' { pc = pc })
        ]

  unfoldable pub op_lookahead : (ℕ → Bool) → StateKind → Machine → Step
  op_lookahead grant kind m = with_value (get_u32 s.bc m.pc) λ val.
      with_value (jump (m.pc + 4) val) λ target. elim (push_state grant s m target m.cptr kind 0) [
        | none ↦ no_memory m
        | some m' ↦ go (record m' { pc = m.pc + 4 })
      ]

  unfoldable pub op_goto : Machine → Step
  op_goto m =
      with_value (get_u32 s.bc m.pc)
        λ val. with_value (jump (m.pc + 4) val) λ target. go (record m { pc = target })

  unfoldable pub op_line_start : Machine → Step
  op_line_start m =
      if m.cptr == 0
      then go m
      else if not s.multi_line
      then miss m
      else with_value (peek_prev_char s.cbuf_type s.cbuf 0 m.cptr)
          λ c. if is_line_terminator c then go m else miss m

  unfoldable pub op_line_end : Machine → Step
  op_line_end m =
      if m.cptr == length s.cbuf
      then go m
      else if not s.multi_line
      then miss m
      else with_value (peek_char s.cbuf_type s.cbuf (length s.cbuf) m.cptr)
          λ c. if is_line_terminator c then go m else miss m

  unfoldable pub op_dot : Machine → Step
  op_dot m =
      if m.cptr == length s.cbuf
      then miss m
      else with_value (next_char m)
          λ (c, cptr). if is_line_terminator c then miss m else go (record m { cptr = cptr })

  unfoldable pub op_any : Machine → Step
  op_any m =
      if m.cptr == length s.cbuf
      then miss m
      else with_value (next_char m) λ (c, cptr). go (record m { cptr = cptr })

  -- `which` is `opcode - REOP_save_start`.
  unfoldable pub op_save : ℕ → Machine → Step
  op_save which m = with_value (get_elem? s.bc m.pc) λ val.
      if ltb val s.capture_count
      then go (record m { pc = m.pc + 1; capture = set m.capture (2 * val + which) (some m.cptr) })
      else fault

  unfoldable pub op_save_reset : Machine → Step
  op_save_reset m = with_value (get_elem? s.bc m.pc) λ val.
      with_value (get_elem? s.bc (m.pc + 1)) λ val2.
        if ltb val2 s.capture_count
        then go
            (record m { pc = m.pc + 2; capture = reset_captures (val2 + 1 - val) val m.capture })
        else fault

  -- `stack[stack_len++] = val`
  unfoldable pub push_value : Machine → ℕ → Step
  push_value m val =
      if ltb m.stack_len (length m.stack)
      then go (record m { stack = set m.stack m.stack_len val; stack_len = m.stack_len + 1 })
      else fault

  unfoldable pub op_push_i32 : Machine → Step
  op_push_i32 m = with_value (get_u32 s.bc m.pc) λ val. push_value (record m { pc = m.pc + 4 }) val

  -- A `stack_len` below 0 is a fault at once.
  unfoldable pub op_drop : Machine → Step
  op_drop m = if m.stack_len == 0 then fault else go (record m { stack_len = m.stack_len - 1 })

  -- The value at the top of the stack.
  unfoldable pub top_value : Machine → Option ℕ
  top_value m = if m.stack_len == 0 then none else get_elem? m.stack (m.stack_len - 1)

  unfoldable pub op_loop : Machine → Step
  op_loop m = with_value (get_u32 s.bc m.pc) λ val. with_value (top_value m) λ v.
      let count = (v + 2 ^ 64 - 1) % 2 ^ 64 in
      let m' = record m { pc = m.pc + 4; stack = set m.stack (m.stack_len - 1) count } in
      if count == 0
      then go m'
      else with_value (jump (m.pc + 4) val) λ target. go (record m' { pc = target })

  -- The code pushes the pointer `cptr`. The position stands for it: `REOP_bne_char_pos` compares it with
  -- another. Bytecode that counts such a value down with `REOP_loop` has no meaning here.
  unfoldable pub op_push_char_pos : Machine → Step
  op_push_char_pos m = push_value m m.cptr

  unfoldable pub op_bne_char_pos : Machine → Step
  op_bne_char_pos m = with_value (get_u32 s.bc m.pc) λ val. with_value (top_value m) λ v.
      let m' = record m { pc = m.pc + 4; stack_len = m.stack_len - 1 } in
      if v == m.cptr
      then go m'
      else with_value (jump (m.pc + 4) val) λ target. go (record m' { pc = target })

  -- `v1` and `v2`; `negated` is for `REOP_not_word_boundary`.
  unfoldable pub word_before : Machine → Option Bool
  word_before m =
      if m.cptr == 0 then some false else elim (peek_prev_char s.cbuf_type s.cbuf 0 m.cptr) [
        | none ↦ none
        | some c ↦ some (is_word_char c)
      ]

  unfoldable pub word_after : Machine → Option Bool
  word_after m =
      if leb (length s.cbuf) m.cptr
      then some false
      else elim (peek_char s.cbuf_type s.cbuf (length s.cbuf) m.cptr) [
        | none ↦ none
        | some c ↦ some (is_word_char c)
      ]

  unfoldable pub op_word_boundary : Bool → Machine → Step
  op_word_boundary negated m =
      with_value (word_before m)
        λ v1. with_value (word_after m) λ v2. if xor (xor v1 v2) (not negated) then miss m else go m

  unfoldable pub op_prev : Machine → Step
  op_prev m =
      if m.cptr == 0
      then miss m
      else with_value (prev_char s.cbuf_type s.cbuf 0 m.cptr) λ cptr. go (record m { cptr = cptr })

module _ (lre_canonicalize : ℕ → Bool → ℕ) (s : Context) where
  unfoldable pub canonical : ℕ → ℕ
  canonical c = if s.ignore_case then lre_canonicalize c s.is_utf16 else c

  -- `test_char:`
  unfoldable pub test_char : Machine → ℕ → Step
  test_char m val =
      if leb (length s.cbuf) m.cptr
      then miss m
      else with_value (next_char s m)
          λ (c, cptr). if val == canonical c then go (record m { cptr = cptr }) else miss m

  unfoldable pub op_char32 : Machine → Step
  op_char32 m = with_value (get_u32 s.bc m.pc) λ val. test_char (record m { pc = m.pc + 4 }) val

  unfoldable pub op_char : Machine → Step
  op_char m = with_value (get_u16 s.bc m.pc) λ val. test_char (record m { pc = m.pc + 2 }) val

  -- The loop of `REOP_back_reference`, from `cptr1` up to `cptr1_end`. Each round takes a unit of the
  -- capture at least, so that `n`, the units that are left, counts the rounds.
  unfoldable pub match_forward : ℕ → ℕ → ℕ → Machine → Step
  match_forward zero cptr1 cptr1_end m = if ltb cptr1 cptr1_end then fault else go m
  match_forward (suc n) cptr1 cptr1_end m = elim (ltb cptr1 cptr1_end) [
    | false ↦ go m
    | true ↦ elim (leb (length s.cbuf) m.cptr) [
      | true ↦ miss m
      | false ↦ elim (get_char s.cbuf_type s.cbuf cptr1_end cptr1) [
        | none ↦ fault
        | some (c1, p1) ↦ elim (next_char s m) [
          | none ↦ fault
          | some (c2, p2) ↦ elim (canonical c1 == canonical c2) [
            | true ↦ match_forward n p1 cptr1_end (record m { cptr = p2 })
            | false ↦ miss m
          ]
        ]
      ]
    ]
  ]

  -- The loop of `REOP_backward_back_reference`, from `cptr1` down to `cptr1_start`.
  unfoldable pub match_backward : ℕ → ℕ → ℕ → Machine → Step
  match_backward zero cptr1 cptr1_start m = if ltb cptr1_start cptr1 then fault else go m
  match_backward (suc n) cptr1 cptr1_start m = elim (ltb cptr1_start cptr1) [
    | false ↦ go m
    | true ↦ elim (m.cptr == 0) [
      | true ↦ miss m
      | false ↦ elim (get_prev_char s.cbuf_type s.cbuf cptr1_start cptr1) [
        | none ↦ fault
        | some (c1, p1) ↦ elim (get_prev_char s.cbuf_type s.cbuf 0 m.cptr) [
          | none ↦ fault
          | some (c2, p2) ↦ elim (canonical c1 == canonical c2) [
            | true ↦ match_backward n p1 cptr1_start (record m { cptr = p2 })
            | false ↦ miss m
          ]
        ]
      ]
    ]
  ]

  -- What a back reference does with the two ends of the capture.
  unfoldable pub match_capture : Bool → Option ℕ → Option ℕ → Machine → Step
  match_capture backward none end m = go m
  match_capture backward (some start) none m = go m
  match_capture false (some start) (some end) m = match_forward (end - start) start end m
  match_capture true (some start) (some end) m = match_backward (end - start) end start m

  unfoldable pub op_back_reference : Bool → Machine → Step
  op_back_reference backward m = with_value (get_elem? s.bc m.pc) λ val.
      if leb s.capture_count val
      then miss m
      else with_value (get_elem? m.capture (2 * val)) λ start.
        with_value (get_elem? m.capture (2 * val + 1))
          λ end. match_capture backward start end (record m { pc = m.pc + 1 })

  -- `REOP_range` with `range_match` and 4, or `REOP_range32` with `range32_match` and 8.
  unfoldable pub op_range : (List ℕ → ℕ → ℕ → Option Bool) → ℕ → Machine → Step
  op_range lookup width m = with_value (get_u16 s.bc m.pc) λ n.
      if leb (length s.cbuf) m.cptr
      then miss m
      else with_value (next_char s m) λ (c, cptr).
        with_value (lookup s.bc m.pc (canonical c)) λ found.
          if found then go (record m { pc = m.pc + 2 + width * n; cptr = cptr }) else miss m
