-- ===== src/Lines/Recorded.antt =====
-- The slots that `add_pc2line_info` of cxx/quickjs/quickjs.c records, through the table and back.
use flutter_quickjs.Prelude.{◌≢◌, sym}
use flutter_quickjs.Prelude.{
  ℕ, ◌*◌, ◌^◌, ◌<◌, ◌≤◌, ◌≡◌, arith, refl, ◌∙◌, inl, inr, true, false, ◌&&◌, not, some, List, [],
  ◌∷◌, ◌++◌, length, length-append, ltb, leb, ◌==◌, All, All-join, Bool-cases,
}
use flutter_quickjs.Cutils.DynBuf.{DynBuf, Realloc, dbuf_init}
use flutter_quickjs.Cutils.DynBuf.Append.{IsRealloc}
use flutter_quickjs.Leb128.{zigzag}
use flutter_quickjs.Leb128.RoundTrip.{leb128}
use flutter_quickjs.Leb128.Written.{putc_all-Written, leb128_bytes_small}
use flutter_quickjs.Lines.{
  Slot, SlotInfo, add_pc2line_info, compute_pc2line_info, create_debug, find_line_num, is_short,
  short_op, skips, minus,
}
use flutter_quickjs.Lines.Encoded.{
  long_bytes, entry_bytes, table_bytes, pc2line_loop_lem, entry_length,
}
use flutter_quickjs.Lines.Lookup.{Rising}
use flutter_quickjs.Lines.Kept.{IsApart, line_found, Shrinks, found_in_table, nothing_written}

-- A function that begins at `line_num`, with room for `n` slots.
abbrev pub fresh : (n line_num : ℕ) → SlotInfo
fresh n line_num = record {
  has_slots = true;
  line_number_slots = [];
  line_number_size = n;
  line_number_last_pc = 0;
  line_number_last = line_num;
}

-- One call for each pair of a pc and a line.
unfoldable pub add_all : SlotInfo → List Slot → SlotInfo
add_all s [] = s
add_all s (call ∷ calls) = add_all (add_pc2line_info s call.pc call.line_num) calls

-- The pc of the last slot.
end_pc : ℕ → List Slot → ℕ
end_pc a [] = a
end_pc a (slot ∷ slots) = end_pc slot.pc slots

record Recorded (s : SlotInfo) : Type 0 where
  rising : Rising 0 s.line_number_slots
  last_is : end_pc 0 s.line_number_slots ≡ s.line_number_last_pc
  room : length s.line_number_slots ≤ s.line_number_size

end_pc_after : (a : ℕ) (slots : List Slot) (slot : Slot) → end_pc a (slots ++ slot ∷ []) ≡ slot.pc
unfolding end_pc
end_pc_after a [] slot = refl
end_pc_after a (s ∷ slots) slot = end_pc_after s.pc slots slot

Rising-after :
    (a : ℕ) (slots : List Slot) (slot : Slot)
    → Rising a slots
    → end_pc a slots ≤ slot.pc
    → slot.pc < 2 ^ 31
    → slot.line_num < 2 ^ 31
    → Rising a (slots ++ slot ∷ [])
unfolding end_pc
Rising-after a [] slot r le small small' = (le, small, small', tt)
Rising-after a (s ∷ slots) slot (h, k, l, r) le small small' =
    (h, k, l, Rising-after s.pc slots slot r le small small')

add-Recorded :
    (s : SlotInfo) (pc line_num : ℕ)
    → pc < 2 ^ 31
    → line_num < 2 ^ 31
    → Recorded s
    → Recorded (add_pc2line_info s pc line_num)
      × ((add_pc2line_info s pc line_num).line_number_size ≡ s.line_number_size)
unfolding add_pc2line_info
add-Recorded s pc line_num small small' rec =
    elim (Bool-cases (
      s.has_slots
      && ltb (length s.line_number_slots) s.line_number_size
      && leb s.line_number_last_pc pc
      && not (line_num == s.line_number_last))) [
        | inr e ↦ rw e (rec, refl)
        | inl e ↦
            let slot : Slot = record { pc = pc; line_num = line_num } in
            let fits : length s.line_number_slots < s.line_number_size = ground arith in
            let after : s.line_number_last_pc ≤ pc = ground arith in
            rw e (
              record {
                rising =
                    Rising-after 0 s.line_number_slots slot rec.rising (omega (arith, rec.last_is))
                      small small';
                last_is = end_pc_after 0 s.line_number_slots slot;
                room = omega (arith, length-append s.line_number_slots (slot ∷ []));
              },
              refl,
            )
      ]

-- The calls are for pcs and lines that are not negative as `int`.
abbrev pub AreInts : List Slot → Type 0
AreInts = All (λ call. (call.pc < 2 ^ 31) × (call.line_num < 2 ^ 31))

add_all-Recorded :
    (calls : List Slot) (s : SlotInfo)
    → AreInts calls
    → Recorded s
    → Recorded (add_all s calls) × ((add_all s calls).line_number_size ≡ s.line_number_size)
unfolding add_all
add_all-Recorded [] s ints rec = (rec, refl)
add_all-Recorded (call ∷ calls) s ((small, small'), ints) rec =
    let (rec1, size1) = add-Recorded s call.pc call.line_num small small' rec in
    let (rec2, size2) =
      add_all-Recorded calls (add_pc2line_info s call.pc call.line_num) ints rec1 in
    (rec2, size2 ∙ size1)

entry_small : (dp dl : ℕ) → dp < 2 ^ 31 → dl < 2 ^ 32 → All (λ b. b < 256) (entry_bytes dp dl)
unfolding entry_bytes long_bytes short_op is_short
entry_small dp dl h k = elim (Bool-cases (is_short dp dl)) [
  | inl e ↦ rw e (ground arith, tt)
  | inr e ↦ rw e (
    omega arith,
    All-join (λ b. b < 256) (leb128 dp) (leb128 (zigzag dl)) (leb128_bytes_small 5 dp)
        (leb128_bytes_small 5 (zigzag dl)),
  )
]

table_small :
    (slots : List Slot) (last_pc line : ℕ) → All (λ b. b < 256) (table_bytes slots last_pc line)
unfolding table_bytes
table_small [] last_pc line = tt
table_small (slot ∷ slots) last_pc line =
    elim (Bool-cases (skips slot.pc slot.line_num last_pc line)) [
      | inl e ↦ rw (table_bytes, e) (table_small slots last_pc line)
      | inr e ↦
          let dp : ℕ = minus slot.pc last_pc in
          let dl : ℕ = minus slot.line_num line in
          let forward : dp < 2 ^ 31 = ground arith in
          rw (table_bytes, e)
            (All-join (λ b. b < 256) (entry_bytes dp dl) (table_bytes slots slot.pc slot.line_num)
              (entry_small dp dl forward (omega arith)) (table_small slots slot.pc slot.line_num))
    ]

table_length :
    (slots : List Slot) (last_pc line : ℕ)
    → length (table_bytes slots last_pc line) ≤ 11 * length slots
unfolding table_bytes
table_length [] last_pc line = omega arith
table_length (slot ∷ slots) last_pc line =
    elim (Bool-cases (skips slot.pc slot.line_num last_pc line)) [
      | inl e ↦ rw (table_bytes, e) (omega (arith, table_length slots last_pc line))
      | inr e ↦
          let dp : ℕ = minus slot.pc last_pc in
          let dl : ℕ = minus slot.line_num line in
          rw (table_bytes, e)
            (omega (
              arith,
              length-append (entry_bytes dp dl) (table_bytes slots slot.pc slot.line_num),
              entry_length dp dl,
              table_length slots slot.pc slot.line_num,
            ))
    ]

slots-has_slots : (calls : List Slot) (s : SlotInfo) → (add_all s calls).has_slots ≡ s.has_slots
unfolding add_all add_pc2line_info
slots-has_slots [] s = refl
slots-has_slots (call ∷ calls) s =
    slots-has_slots calls (add_pc2line_info s call.pc call.line_num) ∙ ground arith

IsApart-after :
    (line_num last : ℕ) (slots : List Slot) (slot : Slot)
    → slot.line_num ≢ last
    → IsApart line_num last slots
    → IsApart line_num slot.line_num (slots ++ slot ∷ [])
unfolding IsApart
IsApart-after line_num last [] slot h e = λ k. h (k ∙ sym e)
IsApart-after line_num last (first ∷ slots) slot h apart = apart

add-IsApart :
    (line : ℕ) (s : SlotInfo) (pc line_num : ℕ)
    → IsApart line s.line_number_last s.line_number_slots
    → IsApart line
        (add_pc2line_info s pc line_num).line_number_last
        (add_pc2line_info s pc line_num).line_number_slots
unfolding add_pc2line_info
add-IsApart line s pc line_num apart =
    elim (Bool-cases (
      s.has_slots
      && ltb (length s.line_number_slots) s.line_number_size
      && leb s.line_number_last_pc pc
      && not (line_num == s.line_number_last))) [
        | inr e ↦ rw e apart
        | inl e ↦
            let slot : Slot = record { pc = pc; line_num = line_num } in
            rw e (
              IsApart-after line s.line_number_last s.line_number_slots slot
                (λ k. absurd (ground arith)) apart)
      ]

add_all-IsApart :
    (line : ℕ) (calls : List Slot) (s : SlotInfo)
    → IsApart line s.line_number_last s.line_number_slots
    → IsApart line (add_all s calls).line_number_last (add_all s calls).line_number_slots
unfolding add_all
add_all-IsApart line [] s apart = apart
add_all-IsApart line (call ∷ calls) s apart =
    add_all-IsApart line calls (add_pc2line_info s call.pc call.line_num)
      (add-IsApart line s call.pc call.line_num apart)

module _ (realloc : Realloc) (r : IsRealloc realloc) (k : Shrinks realloc) where
  -- For a function that is not stripped, with room for `n` slots, and calls of `add_pc2line_info` for
  -- pcs and lines that are not negative: `compute_pc2line_info` accesses no memory that is not its
  -- own, and unless the error flag of the buffer is set by an allocation that is not granted,
  -- `find_line_num` in what `js_create_function` keeps of the table gives for any pc the line of the
  -- last slot that is not behind it, or the first line of the function; and -1 if no slot was
  -- recorded, since then there is no table.
  pub find_line_num-compute :
      (n line_num : ℕ) (calls : List Slot) (pc2line : DynBuf)
      → n < 2 ^ 31
      → line_num < 2 ^ 31
      → AreInts calls
      → (t : DynBuf) × (compute_pc2line_info realloc false
            (add_all (fresh n line_num) calls)
            line_num
            pc2line
          ≡ some t)
        × (t.error ≡ false
            → (pc_value : ℕ)
            → find_line_num (create_debug realloc t line_num) pc_value
              ≡ some (
                  line_found
                    (add_all (fresh n line_num) calls).line_number_slots
                    line_num
                    pc_value))
  unfolding compute_pc2line_info end_pc dbuf_init IsApart
  find_line_num-compute n line_num calls pc2line n_small line_small ints =
      let info : SlotInfo = add_all (fresh n line_num) calls in
      let (rec, size) =
        add_all-Recorded calls (fresh n line_num) ints
          (record { rising = tt; last_is = refl; room = omega arith }) in
      let slots : List Slot = info.line_number_slots in
      let bytes : List ℕ = table_bytes slots 0 line_num in
      let few : length bytes < 2 ^ 64 =
        omega (arith, table_length slots 0 line_num, rec.room, size) in
      let (t, e, written) =
        putc_all-Written realloc r bytes dbuf_init (record { block = refl; within = omega arith })
          (omega arith) (table_small slots 0 line_num) in
      let run = pc2line_loop_lem realloc slots 0 line_num dbuf_init ∙ e in
      (
        t,
        rw (compute_pc2line_info, slots-has_slots calls (fresh n line_num)) run,
        λ clear.
            let (_, same) = written.all_there clear in
            found_in_table realloc r k line_num line_small slots info.line_number_last t rec.rising
              (add_all-IsApart line_num calls (fresh n line_num) refl) written.valid same
              (nothing_written realloc slots line_num t run),
      )
