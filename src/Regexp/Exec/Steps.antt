-- ===== src/Regexp/Exec/Steps.antt =====
-- Single instructions of the executor of cxx/quickjs/libregexp.c, run by `lre_exec_backtrack`.
use flutter_quickjs.Prelude.{
  ℕ, zero, suc, ◌+◌, ◌*◌, ◌^◌, ◌<◌, ◌≡◌, arith, refl, sym, ap, ◌∙◌, Bool, true, false, Option, none,
  some, List, [], ◌∷◌, length, drop, get_elem?, set, if◌then◌else◌, leb, ltb, ◌==◌,
}
use flutter_quickjs.Regexp.Chars.{CbufType, chars8, chars16, utf16, get_char}
use flutter_quickjs.Regexp.Range.{get_u16}
use flutter_quickjs.Regexp.Opcode.{opcode_of}
use flutter_quickjs.Regexp.State.{Context, Machine, recurse}
use flutter_quickjs.Regexp.Ops
use flutter_quickjs.Regexp.Exec.{
  Outcome, matched, no_match, no_memory, fault, out_of_fuel, lre_exec_backtrack, dispatch, proceed,
  leave, step,
}

-- The captures of a match, or `none` for a result 0; nothing for any other end.
unfoldable pub answer : Outcome → Option (Option (List (Option ℕ)))
answer (matched cptr m) = some (some m.capture)
answer (no_match m) = some none
answer no_memory = none
answer fault = none
answer out_of_fuel = none

get_elem?-drop : (xs : List ℕ) (i k : ℕ) → get_elem? xs (i + k) ≡ get_elem? (drop i xs) k
get_elem?-drop xs zero k = let e : 0 + k ≡ k = omega arith in ap (get_elem? xs) e
get_elem?-drop [] (suc i) k = refl
get_elem?-drop (x ∷ xs) (suc i) k =
    let e : suc i + k ≡ suc (i + k) = omega arith in
    ap (get_elem? (x ∷ xs)) e ∙ get_elem?-drop xs i k

drop_nothing : (n : ℕ) → drop {A = ℕ} n [] ≡ []
drop_nothing zero = refl
drop_nothing (suc n) = refl

pub drop-drop : (xs : List ℕ) (i k : ℕ) → drop (i + k) xs ≡ drop k (drop i xs)
drop-drop xs zero k = let e : 0 + k ≡ k = omega arith in ap (λ (n : ℕ). drop n xs) e
drop-drop [] (suc i) k = drop_nothing (suc i + k) ∙ sym (drop_nothing k)
drop-drop (x ∷ xs) (suc i) k =
    let e : suc i + k ≡ suc (i + k) = omega arith in
    ap (λ (n : ℕ). drop n (x ∷ xs)) e ∙ drop-drop xs i k

-- The unit at a position, and what is behind it.
pub unit_at :
    (xs : List ℕ) (i : ℕ)
    → i < length xs
    → (u : ℕ) × (get_elem? xs i ≡ some u) × (drop i xs ≡ u ∷ drop (i + 1) xs)
unit_at [] i h = absurd (omega arith)
unit_at (x ∷ xs) zero h = (x, refl, refl)
unit_at (x ∷ xs) (suc i) h =
    let (u, e, d) = unit_at xs i (omega arith) in
    let next : suc i + 1 ≡ suc (i + 1) = omega arith in
    (u, e, d ∙ ap (λ (n : ℕ). u ∷ drop n (x ∷ xs)) (sym next))

-- The units of the subject are not taken in pairs.
unfoldable pub IsSingle : CbufType → Type 0
IsSingle chars8 = Unit
IsSingle chars16 = Unit
IsSingle utf16 = ⊥

get_char-single :
    (ty : CbufType) (cbuf : List ℕ) (cbuf_end cptr u : ℕ)
    → IsSingle ty
    → get_elem? cbuf cptr ≡ some u
    → get_char ty cbuf cbuf_end cptr ≡ some (u, cptr + 1)
unfolding get_char IsSingle
get_char-single chars8 cbuf cbuf_end cptr u h e = rw (get_char, e) refl
get_char-single chars16 cbuf cbuf_end cptr u h e = rw (get_char, e) refl
get_char-single utf16 cbuf cbuf_end cptr u h e = absurd h

module _ (lre_canonicalize : ℕ → Bool → ℕ) (grant : ℕ → Bool) (s : Context) where
  abbrev pub run : ℕ → Machine → Outcome
  run fuel m = lre_exec_backtrack lre_canonicalize grant s fuel false m

  byte_at :
      (pc k b : ℕ) (code : List ℕ)
      → drop pc s.bc ≡ code
      → get_elem? code k ≡ some b
      → get_elem? s.bc (pc + k) ≡ some b
  byte_at pc k b code at e = get_elem?-drop s.bc pc k ∙ ap (λ (t : List ℕ). get_elem? t k) at ∙ e

  first_byte : (pc b : ℕ) (rest : List ℕ) → drop pc s.bc ≡ b ∷ rest → get_elem? s.bc pc ≡ some b
  first_byte pc b rest at =
      let e : pc + 0 ≡ pc = omega arith in
      ap (get_elem? s.bc) (sym e) ∙ byte_at pc 0 b (b ∷ rest) at refl

  pub char_run :
      (fuel : ℕ) (m : Machine) (lo hi : ℕ) (rest : List ℕ)
      → drop m.pc s.bc ≡ 1 ∷ lo ∷ hi ∷ rest
      → run (suc fuel) m
        ≡ proceed lre_canonicalize grant s
            (lre_exec_backtrack lre_canonicalize grant s fuel)
            false
            (Ops.test_char lre_canonicalize s (record m { pc = m.pc + 1 + 2 }) (lo + hi * 2 ^ 8))
  unfolding lre_exec_backtrack opcode_of dispatch step Ops.op_char Ops.with_value get_u16
  char_run fuel m lo hi rest at =
      let b0 = first_byte m.pc 1 (lo ∷ hi ∷ rest) at in
      let b1 = byte_at m.pc 1 lo (1 ∷ lo ∷ hi ∷ rest) at refl in
      let two : m.pc + 2 ≡ suc (m.pc + 1) = omega arith in
      let b2 = ap (get_elem? s.bc) (sym two) ∙ byte_at m.pc 2 hi (1 ∷ lo ∷ hi ∷ rest) at refl in
      let word : get_u16 s.bc (m.pc + 1) ≡ some (lo + hi * 2 ^ 8) = rw (get_u16, b1, b2) refl in
      rw (lre_exec_backtrack, b0, word) refl

  pub save_run :
      (fuel which val : ℕ) (m : Machine) (rest : List ℕ)
      → which < 2
      → drop m.pc s.bc ≡ (11 + which) ∷ val ∷ rest
      → val < s.capture_count
      → run (suc fuel) m
        ≡ run fuel (record m {
          pc = m.pc + 1 + 1;
          capture = set m.capture (2 * val + which) (some m.cptr);
        })
  unfolding lre_exec_backtrack opcode_of dispatch step proceed Ops.op_save Ops.with_value
  save_run fuel zero val m rest h at small =
      let b0 = first_byte m.pc 11 (val ∷ rest) at in
      let b1 = byte_at m.pc 1 val (11 ∷ val ∷ rest) at refl in
      let fits : ltb val s.capture_count ≡ true = ground arith in
      rw (lre_exec_backtrack, b0, b1, fits) refl
  save_run fuel (suc zero) val m rest h at small =
      let b0 = first_byte m.pc 12 (val ∷ rest) at in
      let b1 = byte_at m.pc 1 val (12 ∷ val ∷ rest) at refl in
      let fits : ltb val s.capture_count ≡ true = ground arith in
      rw (lre_exec_backtrack, b0, b1, fits) refl
  save_run fuel (suc (suc which)) val m rest h at small = absurd (omega arith)

  pub match_run :
      (fuel : ℕ) (m : Machine) (rest : List ℕ)
      → drop m.pc s.bc ≡ 10 ∷ rest
      → m.states ≡ []
      → answer (run (suc fuel) m) ≡ some (some m.capture)
  unfolding lre_exec_backtrack opcode_of dispatch leave recurse answer
  match_run fuel m rest at none_saved =
      let b0 = first_byte m.pc 10 rest at in rw (lre_exec_backtrack, b0, none_saved) refl

  pub miss_run :
      (fuel : ℕ) (m : Machine)
      → m.states ≡ []
      → answer (
          proceed lre_canonicalize grant s
            (lre_exec_backtrack lre_canonicalize grant s fuel)
            false
            (Ops.miss m))
        ≡ some none
  unfolding proceed leave recurse answer
  miss_run fuel m none_saved = rw (none_saved) refl

  module _ (single : IsSingle s.cbuf_type) (plain : s.ignore_case ≡ false) where
    -- One character: what `test_char` does with it.
    module _ (c : ℕ) (m : Machine) where
      pub test_end :
          leb (length s.cbuf) m.cptr ≡ true → Ops.test_char lre_canonicalize s m c ≡ Ops.miss m
      unfolding Ops.test_char
      test_end e = rw (Ops.test_char, e) refl

      pub test_unit :
          (u : ℕ)
          → leb (length s.cbuf) m.cptr ≡ false
          → get_elem? s.cbuf m.cptr ≡ some u
          → Ops.test_char lre_canonicalize s m c
            ≡ (if c == u then Ops.go (record m { cptr = m.cptr + 1 }) else Ops.miss m)
      unfolding Ops.test_char Ops.with_value Ops.canonical
      test_unit u e read =
          let next = get_char-single s.cbuf_type s.cbuf (length s.cbuf) m.cptr u single read in
          rw (Ops.test_char, e, next, plain) refl
