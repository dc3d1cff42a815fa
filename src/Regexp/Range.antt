-- ===== src/Regexp/Range.antt =====
-- Character sets in the bytecode of cxx/quickjs/libregexp.c: `re_emit_range`, which writes one, and
-- the cases `REOP_range` and `REOP_range32` of `lre_exec_backtrack`, which look a character up.
-- The bytecode is a list of bytes, and a read outside it is `none`.
pub mod Search
pub mod Table
pub mod Lookup
pub mod Compiled
mod Runs
use flutter_quickjs.Prelude.{ℕ, zero, suc, ◌+◌, ◌-◌, ◌*◌, ◌/◌, ◌%◌, ◌^◌, ◌≡◌}
use flutter_quickjs.Prelude.{Bool, true, false, ◌&&◌, List, [], ◌∷◌, ◌++◌, Option, none, some}
use flutter_quickjs.Prelude.{if◌then◌else◌, ltb, leb, ◌==◌, length, get_elem?, get_or}
use Prim.Native.Nat.{compare, Ordering}
use flutter_quickjs.Cutils.DynBuf.{le_bytes}
use flutter_quickjs.Unicode.CharRange.{CharRange}

unfoldable pub get_u16 : List ℕ → ℕ → Option ℕ
get_u16 tab i = elim (get_elem? tab i) [
  | none ↦ none
  | some b0 ↦ elim (get_elem? tab (suc i)) [ none ↦ none | some b1 ↦ some (b0 + b1 * 2 ^ 8) ]
]

unfoldable pub get_u32 : List ℕ → ℕ → Option ℕ
get_u32 tab i = elim (get_u16 tab i) [
  | none ↦ none
  | some lo ↦ elim (get_u16 tab (i + 2)) [ none ↦ none | some hi ↦ some (lo + hi * 2 ^ 16) ]
]

-- The range `idx` of the table at `pc`: two halfwords, or two words.
unfoldable pub range_at : List ℕ → ℕ → ℕ → Option (ℕ × ℕ)
range_at bc pc idx = elim (get_u16 bc (pc + idx * 4)) [
  | none ↦ none
  | some low ↦ elim (get_u16 bc (pc + idx * 4 + 2)) [ none ↦ none | some high ↦ some (low, high) ]
]

unfoldable pub range32_at : List ℕ → ℕ → ℕ → Option (ℕ × ℕ)
range32_at bc pc idx = elim (get_u32 bc (pc + idx * 8)) [
  | none ↦ none
  | some low ↦ elim (get_u32 bc (pc + idx * 8 + 4)) [ none ↦ none | some high ↦ some (low, high) ]
]

-- The loop `while (idx_min <= idx_max)` on `uint32_t` indices, with fuel for its rounds; it is
-- `none`, too, if the fuel ends.
unfoldable pub range_loop : (ℕ → Option (ℕ × ℕ)) → ℕ → ℕ → ℕ → ℕ → Option Bool
range_loop read c zero idx_min idx_max = none
range_loop read c (suc fuel) idx_min idx_max = elim (compare idx_max idx_min) [
  | Ordering.lt ↦ some false
  | _ ↦ elim (read ((idx_min + idx_max) % 2 ^ 32 / 2)) [
    | none ↦ none
    | some (low, high) ↦ elim (compare c low) [
      | Ordering.lt ↦
          range_loop read c fuel idx_min (((idx_min + idx_max) % 2 ^ 32 / 2 + 2 ^ 32 - 1) % 2 ^ 32)
      | _ ↦ elim (compare high c) [
        | Ordering.lt ↦
            range_loop read c fuel (((idx_min + idx_max) % 2 ^ 32 / 2 + 1) % 2 ^ 32) idx_max
        | _ ↦ some true
      ]
    ]
  ]
]

-- `REOP_range` at `pc`, behind the opcode, with the character `c` that has been read: whether the
-- code goes on at `range_match`. There the last upper bound 0xffff means all characters above, too.
unfoldable pub range_match : List ℕ → ℕ → ℕ → Option Bool
range_match bc pc c = elim (get_u16 bc pc) [
  | none ↦ none
  | some n ↦
      let idx_max = (n + 2 ^ 32 - 1) % 2 ^ 32 in
      elim (get_u16 bc (pc + 2)) [
        | none ↦ none
        | some low ↦
            if ltb c low then some false else elim (get_u16 bc (pc + 2 + idx_max * 4 + 2)) [
              | none ↦ none
              | some high ↦
                  if leb 0xffff c && high == 0xffff
                  then some true
                  else if ltb high c
                  then some false
                  else range_loop (range_at bc (pc + 2)) c (n + 1) 0 idx_max
            ]
      ]
]

-- `REOP_range32`, in the same way.
unfoldable pub range32_match : List ℕ → ℕ → ℕ → Option Bool
range32_match bc pc c = elim (get_u16 bc pc) [
  | none ↦ none
  | some n ↦
      let idx_max = (n + 2 ^ 32 - 1) % 2 ^ 32 in
      elim (get_u32 bc (pc + 2)) [
        | none ↦ none
        | some low ↦
            if ltb c low then some false else elim (get_u32 bc (pc + 2 + idx_max * 8 + 4)) [
              | none ↦ none
              | some high ↦
                  if ltb high c
                  then some false
                  else range_loop (range32_at bc (pc + 2)) c (n + 1) 0 idx_max
            ]
      ]
]

-- `high = cr->points[i + 1] - 1`, and 0xffff in place of `UINT32_MAX - 1`.
unfoldable pub high_code : ℕ → ℕ
high_code b = let high = (b + 2 ^ 32 - 1) % 2 ^ 32 in if high == 2 ^ 32 - 2 then 0xffff else high

-- The two loops of `re_emit_range`: what they append for the points, which are even in number.
unfoldable pub emit_ranges : List ℕ → List ℕ
emit_ranges (a ∷ b ∷ pt) = le_bytes 2 a ++ le_bytes 2 (high_code b) ++ emit_ranges pt
emit_ranges (a ∷ []) = []
emit_ranges [] = []

unfoldable pub emit_ranges32 : List ℕ → List ℕ
emit_ranges32 (a ∷ b ∷ pt) =
    le_bytes 4 a ++ le_bytes 4 ((b + 2 ^ 32 - 1) % 2 ^ 32) ++ emit_ranges32 pt
emit_ranges32 (a ∷ []) = []
emit_ranges32 [] = []

-- `REOP_char32`, `REOP_range` and `REOP_range32`
abbrev pub reop_char32 : ℕ
reop_char32 = 2

abbrev pub reop_range : ℕ
reop_range = 21

abbrev pub reop_range32 : ℕ
reop_range32 = 22

-- The last point, or the one before it if that is `UINT32_MAX`.
unfoldable pub highest : List ℕ → ℕ
highest points =
    let last = get_or points (length points - 1) 0 in
    if last == 2 ^ 32 - 1 then get_or points (length points - 2) 0 else last

-- The bytes that `re_emit_range` appends to the bytecode, or `none` for "too many ranges".
unfoldable pub re_emit_range : CharRange → Option (List ℕ)
re_emit_range cr =
    let len = length cr.points / 2 in
    if leb 65535 len
    then none
    else if len == 0
    then some (reop_char32 ∷ le_bytes 4 (2 ^ 32 - 1))
    else if leb (highest cr.points) 0xffff
    then some (reop_range ∷ le_bytes 2 len ++ emit_ranges cr.points)
    else some (reop_range32 ∷ le_bytes 2 len ++ emit_ranges32 cr.points)
