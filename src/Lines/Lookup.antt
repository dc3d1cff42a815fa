-- ===== src/Lines/Lookup.antt =====
-- What `find_line_num` of cxx/quickjs/quickjs.c finds in the bytes of `compute_pc2line_info`.
use flutter_quickjs.Prelude.{drop-append, same_or_other}
use flutter_quickjs.Prelude.{
  ℕ, zero, suc, ◌+◌, ◌-◌, ◌/◌, ◌%◌, ◌^◌, ◌<◌, ◌≤◌, ◌≡◌, ◌≢◌, ◌⊎◌, arith, refl, sym, ap, ◌∙◌, inl,
  inr, true, false, Option, some, List, [], ◌∷◌, ◌++◌, length, length-append, drop, append_assoc,
  if◌then◌else◌, ltb, Bool-cases, compare-cases,
}
use flutter_quickjs.Leb128.{get_leb128, get_sleb128, zigzag}
use flutter_quickjs.Leb128.RoundTrip.{leb128, get_leb128-leb128, get_sleb128-leb128}
use flutter_quickjs.Lines.{Slot, minus, is_short, short_op, skips, find_loop}
use flutter_quickjs.Lines.Encoded.{long_bytes, entry_bytes, table_bytes, entry_not_empty}

-- Slots whose pcs do not fall, with numbers that are not negative.
abbrev pub Rising : ℕ → List Slot → Type 0
Rising last_pc [] = Unit
Rising last_pc (slot ∷ slots) =
    (last_pc ≤ slot.pc) × (slot.pc < 2 ^ 31) × (slot.line_num < 2 ^ 31) × Rising slot.pc slots

-- The line of the last slot that is not behind `pc_value`, and `line_num` if all are.
unfoldable pub line_at : List Slot → (line_num pc_value : ℕ) → ℕ
line_at [] line_num pc_value = line_num
line_at (slot ∷ slots) line_num pc_value =
    if ltb pc_value slot.pc then line_num else line_at slots slot.line_num pc_value

module _ (first_line q : ℕ) where
  module _ (fuel pc line pc' line' : ℕ) (p : List ℕ) (rises : pc ≤ pc') (pc_small : pc' < 2 ^ 31)
      (line_small : line < 2 ^ 31) (line_small' : line' < 2 ^ 31) where
    abbrev dp : ℕ
    dp = minus pc' pc

    abbrev dl : ℕ
    dl = minus line' line

    -- What a round comes to that moves to `pc'` and `line'`.
    abbrev moved : Option ℕ
    moved = elim (ltb q pc') [ true ↦ some line | false ↦ find_loop first_line q fuel p pc' line' ]

    new_pc : (pc + dp) % 2 ^ 32 ≡ pc'
    new_pc = omega arith

    new_line : (line + dl) % 2 ^ 32 ≡ line'
    new_line = omega arith

    -- A round whose byte is `op`.
    op_round :
        (op : ℕ)
        → 0 < op
        → (pc + (op - 1) / 5) % 2 ^ 32 ≡ pc'
        → minus (line + (op - 1) % 5) 1 ≡ line'
        → find_loop first_line q (suc fuel) (op ∷ p) pc line ≡ moved
    unfolding find_loop
    op_round op some_op pc_is line_is = ground arith

    short_op_lem :
        (dl < 4) ⊎ (dl ≡ 2 ^ 32 - 1)
        → dp ≤ 50
        → (0 < short_op dp dl)
          × ((pc + (short_op dp dl - 1) / 5) % 2 ^ 32 ≡ pc')
          × (minus (line + (short_op dp dl - 1) % 5) 1 ≡ line')
    unfolding short_op
    short_op_lem (inl up) few = (omega arith, omega arith, omega arith)
    short_op_lem (inr up) few = (omega arith, omega arith, omega arith)

    short_round :
        is_short dp dl ≡ true
        → find_loop first_line q (suc fuel) (short_op dp dl ∷ p) pc line ≡ moved
    unfolding is_short
    short_round h =
        let up : (dl < 4) ⊎ (dl ≡ 2 ^ 32 - 1) = ground arith in
        let few : dp ≤ 50 = ground arith in
        let (some_op, pc_is, line_is) = short_op_lem up few in
        op_round (short_op dp dl) some_op pc_is line_is

    long_step :
        (bytes rest : List ℕ) (w n w' n' : ℕ)
        → get_leb128 bytes ≡ some (w, n)
        → drop n bytes ≡ rest
        → get_sleb128 rest ≡ some (w', n')
        → drop n' rest ≡ p
        → find_loop first_line q (suc fuel) (0 ∷ bytes) pc line ≡ elim (ltb q ((pc + w) % 2 ^ 32)) [
          | true ↦ some line
          | false ↦ find_loop first_line q fuel p ((pc + w) % 2 ^ 32) ((line + w') % 2 ^ 32)
        ]
    unfolding find_loop
    long_step bytes rest w n w' n' one at_rest two at_p =
        rw (find_loop, one, at_rest, two)
          (ap
            (λ (t : List ℕ). elim (ltb q ((pc + w) % 2 ^ 32)) [
              | true ↦ some line
              | false ↦ find_loop first_line q fuel t ((pc + w) % 2 ^ 32) ((line + w') % 2 ^ 32)
            ])
            (ap (drop n') at_rest ∙ at_p))

    long_round : find_loop first_line q (suc fuel) (long_bytes dp dl ++ p) pc line ≡ moved
    unfolding long_bytes
    long_round =
        let a : List ℕ = leb128 dp in
        let b : List ℕ = leb128 (zigzag dl) in
        let bytes : List ℕ = a ++ (b ++ p) in
        ap (λ (t : List ℕ). find_loop first_line q (suc fuel) (0 ∷ t) pc line) (append_assoc a b p)
        ∙ long_step bytes (b ++ p) dp (length a) dl (length b)
            (get_leb128-leb128 dp (b ++ p) (omega arith)) (drop-append a (b ++ p))
            (get_sleb128-leb128 dl p (omega arith)) (drop-append b p)
        ∙ ap
            (λ (t : ℕ). elim (ltb q t) [
              | true ↦ some line
              | false ↦ find_loop first_line q fuel p t ((line + dl) % 2 ^ 32)
            ])
            new_pc
        ∙ ap
            (λ (t : ℕ). elim (ltb q pc') [
              | true ↦ some line
              | false ↦ find_loop first_line q fuel p pc' t
            ])
            new_line

    entry_round : find_loop first_line q (suc fuel) (entry_bytes dp dl ++ p) pc line ≡ moved
    unfolding entry_bytes
    entry_round = elim (Bool-cases (is_short dp dl)) [
      | inl e ↦ rw e (short_round e)
      | inr e ↦ rw e long_round
    ]

  Rising-below :
      (last_pc last_pc' : ℕ) (slots : List Slot)
      → last_pc ≤ last_pc'
      → Rising last_pc' slots
      → Rising last_pc slots
  Rising-below last_pc last_pc' [] h r = tt
  Rising-below last_pc last_pc' (slot ∷ slots) h (le, small, small', rest) =
      (omega arith, small, small', rest)

  line_at_before :
      (last_pc line : ℕ) (slots : List Slot)
      → q < last_pc
      → Rising last_pc slots
      → line_at slots line q ≡ line
  unfolding line_at
  line_at_before last_pc line [] h r = refl
  line_at_before last_pc line (slot ∷ slots) h (le, small, small', rest) = ground arith

  module _ (slot : Slot) (slots : List Slot) (last_pc line : ℕ) (le : last_pc ≤ slot.pc)
      (pc_small : slot.pc < 2 ^ 31) (line_small : slot.line_num < 2 ^ 31)
      (small : line < 2 ^ 31) where
    same_line :
        slot.line_num ≡ line
        → table_bytes (slot ∷ slots) last_pc line ≡ table_bytes slots last_pc line
    unfolding table_bytes
    same_line e =
        let test : skips slot.pc slot.line_num last_pc line ≡ true = ground arith in
        rw (table_bytes, test) refl

    other_line :
        slot.line_num ≢ line
        → table_bytes (slot ∷ slots) last_pc line
          ≡ entry_bytes (minus slot.pc last_pc) (minus slot.line_num line)
            ++ table_bytes slots slot.pc slot.line_num
    unfolding table_bytes
    other_line h =
        let test : skips slot.pc slot.line_num last_pc line ≡ false = ground arith in
        rw (table_bytes, test) refl

    line_same :
        slot.line_num ≡ line
        → Rising slot.pc slots
        → line_at (slot ∷ slots) line q ≡ line_at slots line q
    unfolding line_at
    line_same e rest = elim (compare-cases q slot.pc) [
      | inl (t, before) ↦ ground (arith, line_at_before slot.pc line slots before rest)
      | inr t ↦ ground (arith, ap (λ (l : ℕ). line_at slots l q) e)
    ]

  no_bytes :
      (fuel last_pc line : ℕ)
      → find_loop first_line q fuel (table_bytes [] last_pc line) last_pc line ≡ some line
  unfolding find_loop table_bytes
  no_bytes zero last_pc line = refl
  no_bytes (suc fuel) last_pc line = refl

  one_round :
      (slot : Slot) (slots : List Slot) (last_pc line : ℕ)
      → last_pc ≤ slot.pc
      → slot.pc < 2 ^ 31
      → slot.line_num < 2 ^ 31
      → line < 2 ^ 31
      → (fuel : ℕ) → suc (length (table_bytes slots slot.pc slot.line_num)) ≤ fuel
      → find_loop first_line q fuel
          (entry_bytes (minus slot.pc last_pc) (minus slot.line_num line)
            ++ table_bytes slots slot.pc slot.line_num)
          last_pc
          line
        ≡ elim (ltb q slot.pc) [
          | true ↦ some line
          | false ↦
              find_loop first_line q
                (fuel - 1)
                (table_bytes slots slot.pc slot.line_num)
                slot.pc
                slot.line_num
        ]
  one_round slot slots last_pc line le pc_small line_small small fuel longer =
      let e : fuel ≡ suc (fuel - 1) = omega arith in
      ap
        (λ (f : ℕ).
          find_loop first_line q f
            (entry_bytes (minus slot.pc last_pc) (minus slot.line_num line)
              ++ table_bytes slots slot.pc slot.line_num)
            last_pc line)
        e
      ∙ entry_round (fuel - 1) last_pc line slot.pc slot.line_num
          (table_bytes slots slot.pc slot.line_num) le pc_small small line_small

  -- The loop over the bytes of slots finds their line.
  pub find_loop-table_bytes :
      (fuel : ℕ) (slots : List Slot) (last_pc line : ℕ)
      → Rising last_pc slots
      → line < 2 ^ 31
      → length (table_bytes slots last_pc line) ≤ fuel
      → find_loop first_line q fuel (table_bytes slots last_pc line) last_pc line
        ≡ some (line_at slots line q)
  unfolding line_at
  find_loop-table_bytes fuel [] last_pc line r small enough = no_bytes fuel last_pc line
  find_loop-table_bytes fuel (slot ∷ slots) last_pc line (le, pc_small, line_small, rest) small
        enough =
      elim (same_or_other slot.line_num line) [
        | inl e ↦
            let t = same_line slot slots last_pc line le pc_small line_small small e in
            ap (λ (b : List ℕ). find_loop first_line q fuel b last_pc line) t
            ∙ find_loop-table_bytes fuel slots last_pc line
                (Rising-below last_pc slot.pc slots le rest) small (omega (arith, ap length t))
            ∙ ap some (sym (line_same slot slots last_pc line le pc_small line_small small e rest))
        | inr h ↦
            let t = other_line slot slots last_pc line le pc_small line_small small h in
            let dp : ℕ = minus slot.pc last_pc in
            let dl : ℕ = minus slot.line_num line in
            let tail : List ℕ = table_bytes slots slot.pc slot.line_num in
            let longer : suc (length tail) ≤ fuel =
              omega (
                arith,
                ap length t,
                length-append (entry_bytes dp dl) tail,
                entry_not_empty dp dl,
              ) in
            ap (λ (b : List ℕ). find_loop first_line q fuel b last_pc line) t
            ∙ one_round slot slots last_pc line le pc_small line_small small fuel longer
            ∙ chosen (
                find_loop-table_bytes (fuel - 1) slots slot.pc slot.line_num rest line_small
                  (omega arith))
      ]
    where
      chosen :
          find_loop first_line q
              (fuel - 1)
              (table_bytes slots slot.pc slot.line_num)
              slot.pc
              slot.line_num
            ≡ some (line_at slots slot.line_num q)
          → elim (ltb q slot.pc) [
            | true ↦ some line
            | false ↦
                find_loop first_line q
                  (fuel - 1)
                  (table_bytes slots slot.pc slot.line_num)
                  slot.pc
                  slot.line_num
          ]
            ≡ some (if ltb q slot.pc then line else line_at slots slot.line_num q)
      chosen e = ground (arith, e)
