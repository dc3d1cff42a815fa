-- ===== src/Leb128/RoundTrip.antt =====
-- What cxx/quickjs/quickjs.c reads of a number of variable length is what was written.
use flutter_quickjs.Prelude.{
  ℕ, zero, suc, ◌+◌, ◌-◌, ◌*◌, ◌/◌, ◌%◌, ◌^◌, ◌<◌, ◌≤◌, ◌≡◌, arith, refl, ap, ap₂, ◌∙◌, inl, inr,
  bit_and, bit_or, bit_xor, bit_and-mask, bit_or-shift, bit_or_comm, bit_and-bit, bit_xor-zero,
  bit_xor-ones, Bool, true, false, some, List, [], ◌∷◌, ◌++◌, length, if◌then◌else◌, ◌==◌,
  compare-cases,
}
use flutter_quickjs.Leb128.{get_leb128_loop, get_leb128, get_sleb128, zigzag, unzigzag}

-- The groups of seven bits of `v`, lowest first, with the mark on all but the last.
unfoldable pub leb128_bytes : (fuel v : ℕ) → List ℕ
leb128_bytes zero v = []
leb128_bytes (suc fuel) v =
    if v / 128 == 0 then v % 128 ∷ [] else (v % 128 + 128) ∷ leb128_bytes fuel (v / 128)

abbrev pub leb128 : ℕ → List ℕ
leb128 v = leb128_bytes 5 v

module _ (rounds i v acc : ℕ) (rest : List ℕ) (below : acc < 2 ^ (i * 7))
    (fits : v % 128 * 2 ^ (i * 7) < 2 ^ 32) where
  -- A group that is read, with or without the mark.
  group :
      (m : ℕ)
      → (m + v % 128) % 128 ≡ v % 128
      → bit_or acc (bit_and (m + v % 128) 0x7f * 2 ^ (i * 7) % 2 ^ 32) ≡ v % 128 * 2 ^ (i * 7) + acc
  group m e =
      let mask : bit_and (m + v % 128) 0x7f ≡ v % 128 = bit_and-mask 7 (m + v % 128) ∙ e in
      let same : v % 128 * 2 ^ (i * 7) % 2 ^ 32 ≡ v % 128 * 2 ^ (i * 7) = omega arith in
      rw (mask, same)
        (bit_or_comm acc (v % 128 * 2 ^ (i * 7)) ∙ bit_or-shift (i * 7) (v % 128) acc below)

  last_group :
      v < 128
      → get_leb128_loop (suc rounds) i acc (leb128_bytes (suc rounds) v ++ rest)
        ≡ some (v % 128 * 2 ^ (i * 7) + acc, suc i)
  unfolding get_leb128_loop leb128_bytes
  last_group h = ground (arith, group 0 (omega arith), bit_and-bit 7 (v % 128))

  next_group :
      128 ≤ v
      → get_leb128_loop (suc rounds) i acc (leb128_bytes (suc rounds) v ++ rest)
        ≡ get_leb128_loop rounds
            (suc i)
            (v % 128 * 2 ^ (i * 7) + acc)
            (leb128_bytes rounds (v / 128) ++ rest)
  unfolding get_leb128_loop leb128_bytes
  next_group h = ground (arith, group 128 (omega arith), bit_and-bit 7 (v % 128 + 128))

-- The rounds from `i` on read the groups that are left of a word of 32 bits.
abbrev Reads : (rounds i : ℕ) → Type 0
Reads rounds i =
    (v acc : ℕ) (rest : List ℕ)
    → acc < 2 ^ (i * 7)
    → v * 2 ^ (i * 7) + acc < 2 ^ 32
    → get_leb128_loop rounds i acc (leb128_bytes rounds v ++ rest)
      ≡ some (v * 2 ^ (i * 7) + acc, i + length (leb128_bytes rounds v))

split_groups : (v p : ℕ) → (v * p ≡ v / 128 * (128 * p) + v % 128 * p) × (v % 128 * p ≤ v * p)
split_groups v p =
    let e : v ≡ v / 128 * 128 + v % 128 = omega arith in
    let e' : v * p ≡ (v / 128 * 128 + v % 128) * p = ap (λ (t : ℕ). t * p) e in
    (omega arith, omega arith)

one_byte : (rounds v : ℕ) → v < 128 → length (leb128_bytes (suc rounds) v) ≡ 1
unfolding leb128_bytes
one_byte rounds v h = ground arith

one_byte_more :
    (rounds v : ℕ)
    → 128 ≤ v
    → length (leb128_bytes (suc rounds) v) ≡ suc (length (leb128_bytes rounds (v / 128)))
unfolding leb128_bytes
one_byte_more rounds v h = ground arith

group_below : (r acc p : ℕ) → r < 128 → acc < p → r * p + acc < 128 * p
group_below r acc p h k =
    let e : r + (127 - r) ≡ 127 = omega arith in omega (arith, ap (λ (t : ℕ). t * p) e)

last_read :
    (rounds i v acc : ℕ) (rest : List ℕ)
    → v < 128
    → acc < 2 ^ (i * 7)
    → v * 2 ^ (i * 7) + acc < 2 ^ 32
    → get_leb128_loop (suc rounds) i acc (leb128_bytes (suc rounds) v ++ rest)
      ≡ some (v * 2 ^ (i * 7) + acc, i + length (leb128_bytes (suc rounds) v))
last_read rounds i v acc rest small below fits =
    let e : v % 128 ≡ v = omega arith in
    let fits' : v % 128 * 2 ^ (i * 7) < 2 ^ 32 = rw e (omega arith) in
    let n : suc i ≡ i + length (leb128_bytes (suc rounds) v) =
      omega (arith, one_byte rounds v small) in
    last_group rounds i v acc rest below fits' small
    ∙ ap (λ (t : ℕ). some (t * 2 ^ (i * 7) + acc, suc i)) e
    ∙ ap (λ (t : ℕ). some (v * 2 ^ (i * 7) + acc, t)) n

another :
    (rounds i : ℕ)
    → 2 ^ (suc i * 7) ≡ 128 * 2 ^ (i * 7)
    → Reads rounds (suc i)
    → Reads (suc rounds) i
another rounds i step again v acc rest below fits = elim (compare-cases v 128) [
  | inl (e, small) ↦ last_read rounds i v acc rest small below fits
  | inr large ↦
      let p : ℕ = 2 ^ (i * 7) in
      let (whole, part) = split_groups v p in
      let acc' : ℕ = v % 128 * p + acc in
      let scaled : v / 128 * 2 ^ (suc i * 7) ≡ v / 128 * (128 * p) =
        ap (λ (t : ℕ). v / 128 * t) step in
      let value : v / 128 * 2 ^ (suc i * 7) + acc' ≡ v * p + acc = omega (arith, whole, scaled) in
      let n : suc i + length (leb128_bytes rounds (v / 128))
          ≡ i + length (leb128_bytes (suc rounds) v) =
        omega (arith, one_byte_more rounds v (omega arith)) in
      next_group rounds i v acc rest below (omega (arith, part)) (omega arith)
      ∙ again (v / 128) acc' rest
          (omega (arith, step, group_below (v % 128) acc p (omega arith) below))
          (omega (arith, value))
      ∙ ap (λ (t : ℕ). some (t, suc i + length (leb128_bytes rounds (v / 128)))) value
      ∙ ap (λ (t : ℕ). some (v * p + acc, t)) n
]

four_rounds : Reads 1 4
four_rounds v acc rest below fits = last_read 0 4 v acc rest (omega arith) below fits

-- `get_leb128` reads back the groups of a word of 32 bits, whatever follows.
pub get_leb128-leb128 :
    (v : ℕ) (rest : List ℕ)
    → v < 2 ^ 32
    → get_leb128 (leb128 v ++ rest) ≡ some (v, length (leb128 v))
unfolding get_leb128
get_leb128-leb128 v rest h =
    another 4 0 refl (another 3 1 refl (another 2 2 refl (another 1 3 refl four_rounds))) v 0 rest
      (omega arith) (omega arith)
    ∙ ap₂ (λ (t n : ℕ). some (t, n)) (omega arith) (omega arith)

-- The sign goes to the lowest bit and back.
unzigzag-zigzag : (v : ℕ) → v < 2 ^ 32 → unzigzag (zigzag v) ≡ v
unfolding zigzag unzigzag
unzigzag-zigzag v h = elim (compare-cases v (2 ^ 31)) [
  | inl (e, small) ↦
      let sign : (2 ^ 32 - v / 2 ^ 31) % 2 ^ 32 ≡ 0 = omega arith in
      let double : 2 * v % 2 ^ 32 ≡ 2 * v = omega arith in
      let even : (2 ^ 32 - bit_and (2 * v) 1) % 2 ^ 32 ≡ 0 =
        omega (arith, bit_and-mask 1 (2 * v)) in
      let half : 2 * v / 2 ≡ v = omega arith in
      rw (sign, double, bit_xor-zero (2 * v), even, half) (bit_xor-zero v)
  | inr large ↦
      let w : ℕ = 2 * v % 2 ^ 32 in
      let z : ℕ = 2 ^ 32 - 1 - w in
      let sign : (2 ^ 32 - v / 2 ^ 31) % 2 ^ 32 ≡ 2 ^ 32 - 1 = omega arith in
      let first : bit_xor w (2 ^ 32 - 1) ≡ z = bit_xor-ones 32 w (omega arith) in
      let odd : (2 ^ 32 - bit_and z 1) % 2 ^ 32 ≡ 2 ^ 32 - 1 = omega (arith, bit_and-mask 1 z) in
      rw (sign, first, odd) (bit_xor-ones 32 (z / 2) (omega arith) ∙ omega arith)
]

pub zigzag-lt : (v : ℕ) → v < 2 ^ 32 → zigzag v < 2 ^ 32
unfolding zigzag
zigzag-lt v h = elim (compare-cases v (2 ^ 31)) [
  | inl (e, small) ↦
      let sign : (2 ^ 32 - v / 2 ^ 31) % 2 ^ 32 ≡ 0 = omega arith in
      rw (sign, bit_xor-zero (2 * v % 2 ^ 32)) (omega arith)
  | inr large ↦
      let sign : (2 ^ 32 - v / 2 ^ 31) % 2 ^ 32 ≡ 2 ^ 32 - 1 = omega arith in
      rw (sign, bit_xor-ones 32 (2 * v % 2 ^ 32) (omega arith)) (omega arith)
]

pub get_sleb128-leb128 :
    (v : ℕ) (rest : List ℕ)
    → v < 2 ^ 32
    → get_sleb128 (leb128 (zigzag v) ++ rest) ≡ some (v, length (leb128 (zigzag v)))
unfolding get_sleb128
get_sleb128-leb128 v rest h =
    rw (get_sleb128, get_leb128-leb128 (zigzag v) rest (zigzag-lt v h))
      (ap (λ (t : ℕ). some (t, length (leb128 (zigzag v)))) (unzigzag-zigzag v h))

pub length-leb128_bytes : (fuel v : ℕ) → length (leb128_bytes fuel v) ≤ fuel
unfolding leb128_bytes
length-leb128_bytes zero v = omega arith
length-leb128_bytes (suc fuel) v = either (v / 128 == 0) (length-leb128_bytes fuel (v / 128))
  where
    either :
        (test : Bool)
        → length (leb128_bytes fuel (v / 128)) ≤ fuel
        → length (if test then v % 128 ∷ [] else (v % 128 + 128) ∷ leb128_bytes fuel (v / 128))
          ≤ suc fuel
    either true h = omega arith
    either false h = omega arith
