-- ===== src/Cutils/Exchange/Exchanged.antt =====
-- The loops of the exchange functions of cxx/quickjs/cutils.c exchange two ranges of bytes.
use flutter_quickjs.Prelude.{ℕ, zero, suc, ◌+◌, ◌-◌, ◌*◌, ◌<◌, ◌≤◌, ◌≡◌, arith}
use flutter_quickjs.Prelude.{◌⊎◌, inl, inr}
use flutter_quickjs.Prelude.{if◌then◌else◌, ltb, leb, ◌&&◌, ◌∙◌, sym, ap}
use mathlib.Core.Path.{fun_ext}
use flutter_quickjs.Cutils.Exchange.{
  Memory, load, store, exchange_unit, exchange_units, exchange_pair,
}
use flutter_quickjs.Cutils.Exchange.{exchange_pairs}

-- The memory in which the `size` bytes at `a` and those at `b` have changed places.
unfoldable pub exchanged : ℕ → ℕ → ℕ → Memory → Memory
exchanged a b size mem i =
    if leb a i && ltb i (a + size)
    then mem (b + (i - a))
    else if leb b i && ltb i (b + size)
    then mem (a + (i - b))
    else mem i

-- The two ranges do not overlap.
abbrev pub Apart : ℕ → ℕ → ℕ → Type 0
Apart a b size = (a + size ≤ b) ⊎ (b + size ≤ a)

pub exchange_unit_lem :
    (width a b : ℕ) (mem : Memory) (i : ℕ)
    → Apart a b width
    → exchange_unit width a b mem i ≡ exchanged a b width mem i
unfolding exchange_unit exchanged load store
exchange_unit_lem width a b mem i (inl h) = ground arith
exchange_unit_lem width a b mem i (inr h) = ground arith

-- What an exchange leaves at an address of the first range, of the second, and elsewhere.
module _ (a b size : ℕ) (mem : Memory) (i : ℕ) where
  in_first : a ≤ i → i < a + size → exchanged a b size mem i ≡ mem (b + (i - a))
  unfolding exchanged
  in_first h k = ground arith

  in_second : Apart a b size → b ≤ i → i < b + size → exchanged a b size mem i ≡ mem (a + (i - b))
  unfolding exchanged
  in_second (inl d) h k = ground arith
  in_second (inr d) h k = ground arith

  elsewhere : (i < a) ⊎ (a + size ≤ i) → (i < b) ⊎ (b + size ≤ i) → exchanged a b size mem i ≡ mem i
  unfolding exchanged
  elsewhere (inl h) (inl k) = ground arith
  elsewhere (inl h) (inr k) = ground arith
  elsewhere (inr h) (inl k) = ground arith
  elsewhere (inr h) (inr k) = ground arith

-- Where an address may lie: in the first or the later part of either range, or elsewhere.
place :
    (width n a b i : ℕ)
    → ((a ≤ i) × (i < a + width))
      ⊎ ((a + width ≤ i) × (i < a + width + n))
      ⊎ ((b ≤ i) × (i < b + width))
      ⊎ ((b + width ≤ i) × (i < b + width + n))
      ⊎ (((i < a) ⊎ (a + (width + n) ≤ i)) × ((i < b) ⊎ (b + (width + n) ≤ i)))
place width n a b i = ground arith

Apart-parts :
    (width n a b : ℕ) → Apart a b (width + n) → Apart a b width × Apart (a + width) (b + width) n
Apart-parts width n a b (inl h) = (inl (omega arith), inl (omega arith))
Apart-parts width n a b (inr h) = (inr (omega arith), inr (omega arith))

-- Two exchanges side by side are one.
module _ (width n a b : ℕ) (mem : Memory) (i : ℕ) (d : Apart a b (width + n)) where
  -- The first exchange, then the second behind it.
  abbrev both : Memory
  both = exchanged (a + width) (b + width) n (exchanged a b width mem)

  whole : Memory
  whole = exchanged a b (width + n) mem

  first_part : a ≤ i → i < a + width → both i ≡ whole i
  unfolding whole
  first_part h k =
      elsewhere (a + width) (b + width) n (exchanged a b width mem) i (inl k) (ground arith)
      ∙ in_first a b width mem i h k
      ∙ sym (in_first a b (width + n) mem i h (omega arith))

  later_part : a + width ≤ i → i < a + width + n → both i ≡ whole i
  unfolding whole
  later_part h k =
      let e : b + width + (i - (a + width)) ≡ b + (i - a) = omega arith in
      in_first (a + width) (b + width) n (exchanged a b width mem) i h k
      ∙ elsewhere a b width mem (b + width + (i - (a + width))) (ground arith) (inr (omega arith))
      ∙ ap mem e
      ∙ sym (in_first a b (width + n) mem i (omega arith) (omega arith))

  first_part_b : b ≤ i → i < b + width → both i ≡ whole i
  unfolding whole
  first_part_b h k =
      elsewhere (a + width) (b + width) n (exchanged a b width mem) i (ground arith) (inl k)
      ∙ in_second a b width mem i (Apart-parts width n a b d).0 h k
      ∙ sym (in_second a b (width + n) mem i d h (omega arith))

  later_part_b : b + width ≤ i → i < b + width + n → both i ≡ whole i
  unfolding whole
  later_part_b h k =
      let e : a + width + (i - (b + width)) ≡ a + (i - b) = omega arith in
      in_second (a + width) (b + width) n (exchanged a b width mem) i (Apart-parts width n a b d).1
        h k
      ∙ elsewhere a b width mem (a + width + (i - (b + width))) (inr (omega arith)) (ground arith)
      ∙ ap mem e
      ∙ sym (in_second a b (width + n) mem i d (omega arith) (omega arith))

  exchanged_step : both i ≡ whole i
  unfolding whole
  exchanged_step = elim (place width n a b i) [
    | inl (h, k) ↦ first_part h k
    | inr (inl (h, k)) ↦ later_part h k
    | inr (inr (inl (h, k))) ↦ first_part_b h k
    | inr (inr (inr (inl (h, k)))) ↦ later_part_b h k
    | inr (inr (inr (inr (h, k)))) ↦
        elsewhere (a + width) (b + width) n (exchanged a b width mem) i (ground arith)
          (ground arith)
        ∙ elsewhere a b width mem i (ground arith) (ground arith)
        ∙ sym (elsewhere a b (width + n) mem i h k)
  ]

-- The bytes of `count` units.
abbrev pub span : ℕ → ℕ → ℕ
span width zero = 0
span width (suc count) = width + span width count

pub exchange_units_lem :
    (width count a b : ℕ) (mem : Memory) (i : ℕ)
    → Apart a b (span width count)
    → exchange_units width count a b mem i ≡ exchanged a b (span width count) mem i
unfolding exchange_units whole
exchange_units_lem width zero a b mem i d =
    sym (elsewhere a b 0 mem i (ground arith) (ground arith))
exchange_units_lem width (suc count) a b mem i d =
    let (d0, d1) = Apart-parts width (span width count) a b d in
    let first : exchange_unit width a b mem ≡ exchanged a b width mem =
      fun_ext (λ j. exchange_unit_lem width a b mem j d0) in
    exchange_units_lem width count (a + width) (b + width) (exchange_unit width a b mem) i d1
    ∙ rw first (exchanged_step width (span width count) a b mem i d)

pub exchange_pair_lem :
    (a b : ℕ) (mem : Memory) (i : ℕ)
    → Apart a b 16
    → exchange_pair a b mem i ≡ exchanged a b 16 mem i
unfolding exchange_pair exchanged load store
exchange_pair_lem a b mem i (inl d) = elim (place 8 8 a b i) [
  | inl p ↦ ground arith
  | inr (inl p) ↦ ground arith
  | inr (inr (inl p)) ↦ ground arith
  | inr (inr (inr (inl p))) ↦ ground arith
  | inr (inr (inr (inr p))) ↦ ground arith
]
exchange_pair_lem a b mem i (inr d) = elim (place 8 8 a b i) [
  | inl p ↦ ground arith
  | inr (inl p) ↦ ground arith
  | inr (inr (inl p)) ↦ ground arith
  | inr (inr (inr (inl p))) ↦ ground arith
  | inr (inr (inr (inr p))) ↦ ground arith
]

pub exchange_pairs_lem :
    (count a b : ℕ) (mem : Memory) (i : ℕ)
    → Apart a b (span 16 count)
    → exchange_pairs count a b mem i ≡ exchanged a b (span 16 count) mem i
unfolding exchange_pairs whole
exchange_pairs_lem zero a b mem i d = sym (elsewhere a b 0 mem i (ground arith) (ground arith))
exchange_pairs_lem (suc count) a b mem i d =
    let (d0, d1) = Apart-parts 16 (span 16 count) a b d in
    let first : exchange_pair a b mem ≡ exchanged a b 16 mem =
      fun_ext (λ j. exchange_pair_lem a b mem j d0) in
    exchange_pairs_lem count (a + 16) (b + 16) (exchange_pair a b mem) i d1
    ∙ rw first (exchanged_step 16 (span 16 count) a b mem i d)

pub span_lem : (width count : ℕ) → span width count ≡ count * width
span_lem width zero = omega arith
span_lem width (suc count) = grind (arith, span_lem width count)
