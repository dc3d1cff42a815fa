-- ===== src/Regexp/Exec/Literal.antt =====
-- The executor of cxx/quickjs/libregexp.c on the bytecode of a regular expression of plain characters.
use flutter_quickjs.Prelude.{
  ℕ, suc, ◌+◌, ◌*◌, ◌%◌, ◌/◌, ◌^◌, ◌<◌, ◌≤◌, ◌≡◌, arith, refl, sym, ap, ◌∙◌, Bool, true, false,
  Option, none, some, List, [], ◌∷◌, length, drop, set, All, if◌then◌else◌, leb, ◌==◌, Bool-cases,
  inl, inr, drop_all,
}
use flutter_quickjs.Regexp.State.{Context, Machine}
use flutter_quickjs.Regexp.Ops
use flutter_quickjs.Regexp.Exec.{
  Outcome, lre_exec_backtrack, lre_exec, proceed, exec_context, exec_machine, exec_type, flag_set,
  lre_get_flags, lre_get_capture_count,
}
use flutter_quickjs.Regexp.Exec.Steps.{
  answer, drop-drop, unit_at, IsSingle, run, char_run, save_run, match_run, miss_run, test_end,
  test_unit,
}

-- The code of the characters: `REOP_char` for each, then `REOP_save_end` 0 and `REOP_match`.
unfoldable pub literal_code : List ℕ → List ℕ
literal_code [] = 12 ∷ 0 ∷ 10 ∷ []
literal_code (c ∷ cs) = 1 ∷ c % 2 ^ 8 ∷ c / 2 ^ 8 ∷ literal_code cs

-- The header with the sticky flag, which says that there is no search, one capture, no stack and the
-- four bytes of the length; then `REOP_save_start` 0 and the characters.
abbrev pub literal : (l0 l1 l2 l3 : ℕ) → List ℕ → List ℕ
literal l0 l1 l2 l3 cs = 0x20 ∷ 1 ∷ 0 ∷ l0 ∷ l1 ∷ l2 ∷ l3 ∷ 11 ∷ 0 ∷ literal_code cs

-- The subject begins with the characters.
unfoldable pub starts : (cs subject : List ℕ) → Bool
starts [] xs = true
starts (c ∷ cs) [] = false
starts (c ∷ cs) (x ∷ xs) = if c == x then starts cs xs else false

module _ (lre_canonicalize : ℕ → Bool → ℕ) (grant : ℕ → Bool) (s : Context) where
  abbrev after_step : ℕ → Ops.Step → Outcome
  after_step fuel =
      proceed lre_canonicalize grant s (lre_exec_backtrack lre_canonicalize grant s fuel) false

  -- What the characters from the one at `pc` on give, where the match began at `start`.
  Answers : (cs : List ℕ) (start : ℕ) (m : Machine) → Type 0
  Answers cs start m =
      answer (run lre_canonicalize grant s (length cs + 2) m)
      ≡ some (
          if starts cs (drop m.cptr s.cbuf)
          then some (some start ∷ some (m.cptr + length cs) ∷ [])
          else none)

  -- The machine at a part of the code, with the first capture begun.
  record IsAt (cs : List ℕ) (start : ℕ) (m : Machine) : Type 0 where
    code : drop m.pc s.bc ≡ literal_code cs
    begun : (other : Option ℕ) × (m.capture ≡ some start ∷ other ∷ [])
    none_saved : m.states ≡ []
    within : m.cptr ≤ length s.cbuf

  module _ (single : IsSingle s.cbuf_type) (plain : s.ignore_case ≡ false)
      (one : s.capture_count ≡ 1) where
    end_run : (start : ℕ) (m : Machine) → IsAt [] start m → Answers [] start m
    unfolding Answers literal_code starts
    end_run start m here =
        let (other, begun) = here.begun in
        let m1 : Machine = record m {
          pc = m.pc + 1 + 1;
          capture = set m.capture (2 * 0 + 1) (some m.cptr);
        } in
        let saved =
          save_run lre_canonicalize grant s 1 1 0 m (10 ∷ []) (omega arith) here.code
            (omega arith) in
        let three : m.pc + 1 + 1 ≡ m.pc + 2 = omega arith in
        let behind : drop m1.pc s.bc ≡ 10 ∷ [] =
          ap (λ (n : ℕ). drop n s.bc) three ∙ drop-drop s.bc m.pc 2 ∙ ap (drop 2) here.code in
        let set_end : m1.capture ≡ some start ∷ some (m.cptr + 0) ∷ [] =
          ap (λ (c : List (Option ℕ)). set c 1 (some m.cptr)) begun
          ∙ ap (λ (n : ℕ). some start ∷ some n ∷ []) (omega arith) in
        ap answer saved
        ∙ match_run lre_canonicalize grant s 0 m1 [] behind here.none_saved
        ∙ ap (λ (c : List (Option ℕ)). some (some c)) set_end

    char_run-Answers :
        (c : ℕ) (cs : List ℕ) (start : ℕ) (m : Machine)
        → c < 2 ^ 16
        → IsAt (c ∷ cs) start m
        → ((m' : Machine) → IsAt cs start m' → Answers cs start m')
        → Answers (c ∷ cs) start m
    unfolding Answers literal_code starts proceed
    char_run-Answers c cs start m small here rest =
        let fuel : ℕ = length cs + 2 in
        let counted : length (c ∷ cs) + 2 ≡ suc fuel = omega arith in
        let m1 : Machine = record m { pc = m.pc + 1 + 2 } in
        let m2 : Machine = record m1 { cptr = m.cptr + 1 } in
        let value : c % 2 ^ 8 + c / 2 ^ 8 * 2 ^ 8 ≡ c = omega arith in
        let after : Ops.Step → Outcome = after_step fuel in
        let ran : run lre_canonicalize grant s (length (c ∷ cs) + 2) m
            ≡ after (Ops.test_char lre_canonicalize s m1 c) =
          ap (λ (n : ℕ). run lre_canonicalize grant s n m) counted
          ∙ char_run lre_canonicalize grant s fuel m (c % 2 ^ 8) (c / 2 ^ 8) (literal_code cs)
              here.code
          ∙ ap (λ (v : ℕ). after (Ops.test_char lre_canonicalize s m1 v)) value in
        elim (Bool-cases (leb (length s.cbuf) m.cptr)) [
          | inl ended ↦
              let none_left : drop m.cptr s.cbuf ≡ [] = drop_all m.cptr s.cbuf (ground arith) in
              ap answer (ran ∙ ap after (test_end lre_canonicalize grant s single plain c m1 ended))
              ∙ miss_run lre_canonicalize grant s fuel m1 here.none_saved
              ∙ sym (
                  ap
                    (λ (xs : List ℕ). some (
                      if starts (c ∷ cs) xs
                      then some (some start ∷ some (m.cptr + length (c ∷ cs)) ∷ [])
                      else none))
                    none_left)
          | inr more ↦
              let (u, read, split) = unit_at s.cbuf m.cptr (ground arith) in
              let three : m.pc + 1 + 2 ≡ m.pc + 3 = omega arith in
              let behind : drop m2.pc s.bc ≡ literal_code cs =
                ap (λ (n : ℕ). drop n s.bc) three ∙ drop-drop s.bc m.pc 3 ∙ ap (drop 3) here.code in
              let there : IsAt cs start m2 = record {
                code = behind;
                begun = here.begun;
                none_saved = here.none_saved;
                within = ground arith;
              } in
              let end : m.cptr + 1 + length cs ≡ m.cptr + length (c ∷ cs) = omega arith in
              ap answer
                (ran ∙ ap after (test_unit lre_canonicalize grant s single plain c m1 u more read))
              ∙ either (c == u) u fuel m1 m2 (rest m2 there) end here.none_saved
              ∙ sym (
                  ap
                    (λ (xs : List ℕ). some (
                      if starts (c ∷ cs) xs
                      then some (some start ∷ some (m.cptr + length (c ∷ cs)) ∷ [])
                      else none))
                    split)
        ]
      where
        either :
            (test : Bool) (u fuel : ℕ) (m1 m2 : Machine)
            → answer (run lre_canonicalize grant s fuel m2)
              ≡ some (
                  if starts cs (drop m2.cptr s.cbuf)
                  then some (some start ∷ some (m2.cptr + length cs) ∷ [])
                  else none)
            → m2.cptr + length cs ≡ m.cptr + length (c ∷ cs)
            → m1.states ≡ []
            → answer (after_step fuel (if test then Ops.go m2 else Ops.miss m1))
              ≡ some (
                  if (if test then starts cs (drop m2.cptr s.cbuf) else false)
                  then some (some start ∷ some (m.cptr + length (c ∷ cs)) ∷ [])
                  else none)
        either true u fuel m1 m2 found end none_saved =
            found
            ∙ ap
                (λ (n : ℕ). some (
                  if starts cs (drop m2.cptr s.cbuf)
                  then some (some start ∷ some n ∷ [])
                  else none))
                end
        either false u fuel m1 m2 found end none_saved =
            miss_run lre_canonicalize grant s fuel m1 none_saved

    literal-Answers :
        (cs : List ℕ) (start : ℕ) (m : Machine)
        → All (λ c. c < 2 ^ 16) cs
        → IsAt cs start m
        → Answers cs start m
    literal-Answers [] start m small here = end_run start m here
    literal-Answers (c ∷ cs) start m (h, small) here =
        char_run-Answers c cs start m h here (λ m'. literal-Answers cs start m' small)

exec_type-IsSingle : (cbuf_type : ℕ) → IsSingle (exec_type cbuf_type 0x20)
unfolding exec_type flag_set IsSingle
exec_type-IsSingle cbuf_type = elim (Bool-cases (cbuf_type == 0)) [
  | inl e ↦ rw e tt
  | inr e ↦ rw e tt
]

-- `lre_exec` on the bytecode of plain characters of 16 bits, with the sticky flag only, at a position in the
-- subject: with one unit of fuel for each character and three more it returns, and no access is
-- outside of an array; it matches if and only if the subject begins with the characters there, and
-- then the capture is from the position to behind the last of them.
pub lre_exec-literal :
    (lre_canonicalize : ℕ → Bool → ℕ) (grant : ℕ → Bool) (l0 l1 l2 l3 : ℕ) (cs cbuf : List ℕ)
    (cindex cbuf_type : ℕ)
    → All (λ c. c < 2 ^ 16) cs
    → cindex ≤ length cbuf
    → answer (
        lre_exec lre_canonicalize grant
          (suc (length cs + 2))
          (literal l0 l1 l2 l3 cs)
          cbuf
          cindex
          cbuf_type)
      ≡ some (
          if starts cs (drop cindex cbuf)
          then some (some cindex ∷ some (cindex + length cs) ∷ [])
          else none)
unfolding lre_exec exec_context exec_machine exec_type flag_set lre_get_flags lre_get_capture_count
    Answers IsSingle
lre_exec-literal lre_canonicalize grant l0 l1 l2 l3 cs cbuf cindex cbuf_type small h =
    let s : Context = record {
      bc = literal l0 l1 l2 l3 cs;
      cbuf = cbuf;
      cbuf_type = exec_type cbuf_type 0x20;
      capture_count = 1;
      stack_size_max = 0;
      multi_line = false;
      ignore_case = false;
      is_utf16 = false;
    } in
    let m : Machine = exec_machine s cindex in
    let m1 : Machine = record m { pc = 9; capture = some cindex ∷ none ∷ [] } in
    ap answer (
      save_run lre_canonicalize grant s (length cs + 2) 0 0 m (literal_code cs) (omega arith) refl
        (omega arith))
    ∙ literal-Answers lre_canonicalize grant s (exec_type-IsSingle cbuf_type) refl refl cs cindex m1
        small (record { code = refl; begun = (none, refl); none_saved = refl; within = h })
