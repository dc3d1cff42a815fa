-- ===== src/Regexp/Ops/Reads.antt =====
-- The reads from the subject by the cases of `lre_exec_backtrack` of cxx/quickjs/libregexp.c, and the
-- loops of its back references.
use flutter_quickjs.Prelude.{ℕ, zero, suc, ◌+◌, ◌-◌, ◌≤◌, ◌≡◌, ◌≢◌, arith}
use flutter_quickjs.Prelude.{Bool, true, false, Option, none, some, length, ltb, leb, ◌==◌}
use flutter_quickjs.Prelude.{Option-cases, Bool-cases, inl, inr}
use flutter_quickjs.Regexp.Chars.Bounds.{get_char_bounds, get_prev_char_below, get_char_reads}
use flutter_quickjs.Regexp.Chars.Bounds.{
  get_prev_char_reads, prev_char_reads, prev_char_below, peek_char_reads, peek_prev_char_reads,
}
use flutter_quickjs.Regexp.State.{Context, Machine}
use flutter_quickjs.Regexp.Chars.{is_line_terminator}
use flutter_quickjs.Regexp.Range.{get_u16}
use flutter_quickjs.Prelude.{List, not, xor, if◌then◌else◌, ◌*◌, ◌<◌}
use flutter_quickjs.Regexp.Ops.{
  Step, go, miss, no_memory, next_char, canonical, op_range, fault, with_value, test_char,
  op_line_start,
}
use flutter_quickjs.Regexp.Ops.{
  op_line_end, op_dot, op_any, word_before, word_after, op_word_boundary,
}
use flutter_quickjs.Regexp.Ops.{match_forward, match_backward, match_capture, op_prev}

-- A capture that is set lies in the subject.
abbrev pub Inside : List ℕ → Option ℕ → Type 0
Inside cbuf none = Unit
Inside cbuf (some p) = p ≤ length cbuf

-- The case goes on, or it does not match, at a position in the subject.
unfoldable pub Stays : Context → Step → Type 0
Stays s (go m) = m.cptr ≤ length s.cbuf
Stays s (miss m) = m.cptr ≤ length s.cbuf
Stays s (no_memory m) = ⊥
Stays s fault = ⊥

module _ (s : Context) (m : Machine) (within : m.cptr ≤ length s.cbuf) where
  if-Stays : (b : Bool) → Stays s (if b then go m else miss m)
  unfolding Stays
  if-Stays true = within
  if-Stays false = within

  -- A position that `next_char` moves on to.
  moves :
      (b : Bool) (next : ℕ)
      → next ≤ length s.cbuf
      → Stays s (if b then go (record m { cptr = next }) else miss m)
  unfolding Stays
  moves true next h = h
  moves false next h = within

  next_inside :
      m.cptr < length s.cbuf
      → (c : ℕ) × (next : ℕ) × (next_char s m ≡ some (c, next)) × (next ≤ length s.cbuf)
  next_inside h =
      let ((c, next), p) =
        get_char_reads s.cbuf_type s.cbuf (length s.cbuf) m.cptr h (omega arith) in
      (c, next, p, (get_char_bounds s.cbuf_type s.cbuf (length s.cbuf) m.cptr c next p).1)

  op_dot-Stays : Stays s (op_dot s m)
  unfolding op_dot with_value Stays
  op_dot-Stays = elim (Bool-cases (m.cptr == length s.cbuf)) [
    | inl e ↦ rw (op_dot, e) within
    | inr e ↦
        let (c, next, p, inside) = next_inside (ground arith) in
        rw (op_dot, e, p) (turned (is_line_terminator c) next inside)
  ]
    where
      turned :
          (b : Bool) (next : ℕ)
          → next ≤ length s.cbuf
          → Stays s (if b then miss m else go (record m { cptr = next }))
      turned true next h = within
      turned false next h = h

  op_any-Stays : Stays s (op_any s m)
  unfolding op_any with_value Stays
  op_any-Stays = elim (Bool-cases (m.cptr == length s.cbuf)) [
    | inl e ↦ rw (op_any, e) within
    | inr e ↦ let (c, next, p, inside) = next_inside (ground arith) in rw (op_any, e, p) inside
  ]

  op_line_start-Stays : Stays s (op_line_start s m)
  unfolding op_line_start with_value Stays
  op_line_start-Stays = elim (Bool-cases (m.cptr == 0)) [
    | inl e ↦ rw (op_line_start, e) within
    | inr e ↦ elim (Bool-cases (s.multi_line)) [
      | inr single ↦ rw (op_line_start, e, single) within
      | inl multi ↦
          let (c, p) = peek_prev_char_reads s.cbuf_type s.cbuf m.cptr (ground arith) within in
          rw (op_line_start, e, multi, p) (if-Stays (is_line_terminator c))
    ]
  ]

  op_line_end-Stays : Stays s (op_line_end s m)
  unfolding op_line_end with_value Stays
  op_line_end-Stays = elim (Bool-cases (m.cptr == length s.cbuf)) [
    | inl e ↦ rw (op_line_end, e) within
    | inr e ↦ elim (Bool-cases (s.multi_line)) [
      | inr single ↦ rw (op_line_end, e, single) within
      | inl multi ↦
          let (c, p) = peek_char_reads s.cbuf_type s.cbuf m.cptr (ground arith) in
          rw (op_line_end, e, multi, p) (if-Stays (is_line_terminator c))
    ]
  ]

  op_prev-Stays : Stays s (op_prev s m)
  unfolding op_prev with_value Stays
  op_prev-Stays = elim (Bool-cases (m.cptr == 0)) [
    | inl e ↦ rw (op_prev, e) within
    | inr e ↦
        let (next, p) = prev_char_reads s.cbuf_type s.cbuf 0 m.cptr (ground arith) within in
        let before : next < m.cptr = prev_char_below s.cbuf_type s.cbuf 0 m.cptr next p in
        rw (op_prev, e, p) (omega arith)
  ]

  word_before-reads : (b : Bool) × (word_before s m ≡ some b)
  unfolding word_before
  word_before-reads = elim (Option-cases (word_before s m)) [
    | inl n ↦ absurd (elim (Bool-cases (m.cptr == 0)) [
      | inl e ↦ ground arith
      | inr e ↦
          let (c, p) = peek_prev_char_reads s.cbuf_type s.cbuf m.cptr (ground arith) within in
          ground arith
    ])
    | inr r ↦ r
  ]

  word_after-reads : (b : Bool) × (word_after s m ≡ some b)
  unfolding word_after
  word_after-reads = elim (Option-cases (word_after s m)) [
    | inl n ↦ absurd (elim (Bool-cases (leb (length s.cbuf) m.cptr)) [
      | inl e ↦ ground arith
      | inr e ↦
          let (c, p) = peek_char_reads s.cbuf_type s.cbuf m.cptr (ground arith) in ground arith
    ])
    | inr r ↦ r
  ]

  op_word_boundary-Stays : (negated : Bool) → Stays s (op_word_boundary s negated m)
  unfolding op_word_boundary with_value Stays
  op_word_boundary-Stays negated =
      let (v1, p) = word_before-reads in
      let (v2, q) = word_after-reads in
      rw (op_word_boundary, p, q) (turned (xor (xor v1 v2) (not negated)))
    where
      turned : (b : Bool) → Stays s (if b then miss m else go m)
      turned true = within
      turned false = within

  module _ (lre_canonicalize : ℕ → Bool → ℕ) where
    test_char-Stays : (val : ℕ) → Stays s (test_char lre_canonicalize s m val)
    unfolding test_char with_value Stays
    test_char-Stays val = elim (Bool-cases (leb (length s.cbuf) m.cptr)) [
      | inl e ↦ rw (test_char, e) within
      | inr e ↦
          let (c, next, p, inside) = next_inside (ground arith) in
          rw (test_char, e, p) (moves (val == canonical lre_canonicalize s c) next inside)
    ]

    op_range-Stays :
        (lookup : List ℕ → ℕ → ℕ → Option Bool) (width n : ℕ)
        → get_u16 s.bc m.pc ≡ some n
        → ((c : ℕ) → (b : Bool) × (lookup s.bc m.pc c ≡ some b))
        → Stays s (op_range lre_canonicalize s lookup width m)
    unfolding op_range with_value Stays
    op_range-Stays lookup width n count table = elim (Bool-cases (leb (length s.cbuf) m.cptr)) [
      | inl e ↦ rw (op_range, count, e) within
      | inr e ↦
          let (c, next, p, inside) = next_inside (ground arith) in
          let (b, found) = table (canonical lre_canonicalize s c) in
          rw (op_range, count, e, p, found) (taken b next inside)
    ]
      where
        taken :
            (b : Bool) (next : ℕ)
            → next ≤ length s.cbuf
            → Stays s
                (if b then go (record m { pc = m.pc + 2 + width * n; cptr = next }) else miss m)
        taken true next h = h
        taken false next h = within

module _ (lre_canonicalize : ℕ → Bool → ℕ) (s : Context) where
  match_forward-ne-fault :
      (n cptr1 cptr1_end : ℕ) (m : Machine)
      → m.cptr ≤ length s.cbuf
      → cptr1_end ≤ length s.cbuf
      → cptr1_end ≤ cptr1 + n
      → match_forward lre_canonicalize s n cptr1 cptr1_end m ≢ fault
  unfolding match_forward
  match_forward-ne-fault zero cptr1 cptr1_end m w h k = ground arith
  match_forward-ne-fault (suc n) cptr1 cptr1_end m w h k = elim (Bool-cases (ltb cptr1 cptr1_end)) [
    | inr e ↦ ground arith
    | inl e ↦ elim (Bool-cases (leb (length s.cbuf) m.cptr)) [
      | inl t ↦ ground arith
      | inr t ↦
          let ((c1, p1), p) = get_char_reads s.cbuf_type s.cbuf cptr1_end cptr1 (ground arith) h in
          let ((c2, p2), q) =
            get_char_reads s.cbuf_type s.cbuf (length s.cbuf) m.cptr (ground arith) (omega arith) in
          let b1 = get_char_bounds s.cbuf_type s.cbuf cptr1_end cptr1 c1 p1 p in
          let b2 = get_char_bounds s.cbuf_type s.cbuf (length s.cbuf) m.cptr c2 p2 q in
          ground (
            arith,
            match_forward-ne-fault n p1 cptr1_end (record m { cptr = p2 }) (omega arith) h
                (omega arith),
          )
    ]
  ]

  match_backward-ne-fault :
      (n cptr1 cptr1_start : ℕ) (m : Machine)
      → m.cptr ≤ length s.cbuf
      → cptr1 ≤ length s.cbuf
      → cptr1 ≤ cptr1_start + n
      → match_backward lre_canonicalize s n cptr1 cptr1_start m ≢ fault
  unfolding match_backward
  match_backward-ne-fault zero cptr1 cptr1_start m w h k = ground arith
  match_backward-ne-fault (suc n) cptr1 cptr1_start m w h k =
      elim (Bool-cases (ltb cptr1_start cptr1)) [
        | inr e ↦ ground arith
        | inl e ↦ elim (Bool-cases (m.cptr == 0)) [
          | inl t ↦ ground arith
          | inr t ↦
              let ((c1, p1), p) =
                get_prev_char_reads s.cbuf_type s.cbuf cptr1_start cptr1 (ground arith) h in
              let ((c2, p2), q) =
                get_prev_char_reads s.cbuf_type s.cbuf 0 m.cptr (ground arith) w in
              let b1 = get_prev_char_below s.cbuf_type s.cbuf cptr1_start cptr1 c1 p1 p in
              let b2 = get_prev_char_below s.cbuf_type s.cbuf 0 m.cptr c2 p2 q in
              ground (
                arith,
                match_backward-ne-fault n p1 cptr1_start (record m { cptr = p2 }) (omega arith)
                    (omega arith) (omega arith),
              )
        ]
      ]

  -- A back reference to a capture in the subject is compared without a fault: its loop ends within
  -- as many rounds as the capture has units, and reads only inside the subject.
  pub match_capture-ne-fault :
      (backward : Bool) (start end : Option ℕ) (m : Machine)
      → m.cptr ≤ length s.cbuf
      → Inside s.cbuf start
      → Inside s.cbuf end
      → match_capture lre_canonicalize s backward start end m ≢ fault
  unfolding match_capture
  match_capture-ne-fault backward none end m w h k = ground arith
  match_capture-ne-fault backward (some start) none m w h k = ground arith
  match_capture-ne-fault false (some start) (some end) m w h k =
      match_forward-ne-fault (end - start) start end m w k (omega arith)
  match_capture-ne-fault true (some start) (some end) m w h k =
      match_backward-ne-fault (end - start) end start m w k (omega arith)

-- At a position in the subject, its end included, no case of the switch that looks at characters
-- reads outside the subject: `char` and `char32` (`test_char`), `dot`, `any`, `line_start`,
-- `line_end`, `word_boundary` and its negation, `prev`, and `range` and `range32` with a table that
-- lies in the bytecode. Each of them goes on or does not match, at a position in the subject.
pub subject_reads :
    (lre_canonicalize : ℕ → Bool → ℕ) (s : Context) (m : Machine) (val : ℕ) (negated : Bool)
    (lookup : List ℕ → ℕ → ℕ → Option Bool) (width n : ℕ)
    → m.cptr ≤ length s.cbuf
    → get_u16 s.bc m.pc ≡ some n
    → ((c : ℕ) → (b : Bool) × (lookup s.bc m.pc c ≡ some b))
    → Stays s (test_char lre_canonicalize s m val)
      × Stays s (op_dot s m)
      × Stays s (op_any s m)
      × Stays s (op_line_start s m)
      × Stays s (op_line_end s m)
      × Stays s (op_word_boundary s negated m)
      × Stays s (op_prev s m)
      × Stays s (op_range lre_canonicalize s lookup width m)
subject_reads lre_canonicalize s m val negated lookup width n w count table = (
  test_char-Stays s m w lre_canonicalize val,
  op_dot-Stays s m w,
  op_any-Stays s m w,
  op_line_start-Stays s m w,
  op_line_end-Stays s m w,
  op_word_boundary-Stays s m w negated,
  op_prev-Stays s m w,
  op_range-Stays s m w lre_canonicalize lookup width n count table,
)
