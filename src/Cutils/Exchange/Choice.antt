-- ===== src/Cutils/Exchange/Choice.antt =====
-- Whatever exchange function cxx/quickjs/cutils.c chooses, it exchanges the two elements.
use flutter_quickjs.Prelude.{ℕ, ◌/◌, ◌%◌, ◌≡◌, refl, arith}
use flutter_quickjs.Prelude.{bit_and, bit_or, bit_or_digit, bit_and-mask}
use flutter_quickjs.Prelude.{if◌then◌else◌, ◌==◌, ◌||◌, Bool, true, false}
use mathlib.Core.Path.{subst}
use flutter_quickjs.Cutils.Exchange.{Memory, exchange_unit, exchange_units, exchange_pair}
use flutter_quickjs.Cutils.Exchange.{exchange_pairs, ExchangeF, exchange_func, exchange_bytes}
use flutter_quickjs.Cutils.Exchange.{exchange_one_byte, exchange_int16s, exchange_one_int16}
use flutter_quickjs.Cutils.Exchange.{exchange_int32s, exchange_one_int32, exchange_int64s}
use flutter_quickjs.Cutils.Exchange.{exchange_one_int64, exchange_int128s, exchange_one_int128}
use flutter_quickjs.Cutils.Exchange.Exchanged.{
  exchanged, Apart, span, span_lem, exchange_unit_lem, exchange_units_lem, exchange_pair_lem,
  exchange_pairs_lem,
}

-- A function exchanges the elements of `size` bytes at any two places that do not overlap.
abbrev pub Exchanges : ℕ → ExchangeF → Type 0
Exchanges size f =
    (a b : ℕ) (mem : Memory) (i : ℕ) → Apart a b size → f a b size mem i ≡ exchanged a b size mem i

units-Exchanges :
    (width count size : ℕ)
    → span width count ≡ size
    → (a b : ℕ) (mem : Memory) (i : ℕ) → Apart a b size
    → exchange_units width count a b mem i ≡ exchanged a b size mem i
units-Exchanges width count size e a b mem i d =
    subst (λ (n : ℕ). exchange_units width count a b mem i ≡ exchanged a b n mem i) e
      (exchange_units_lem width count a b mem i (rw e d))

exchange_bytes-Exchanges : (size : ℕ) → Exchanges size exchange_bytes
unfolding exchange_bytes
exchange_bytes-Exchanges size = units-Exchanges 1 size size (omega (arith, span_lem 1 size))

exchange_int16s-Exchanges : (size : ℕ) → size % 2 ≡ 0 → Exchanges size exchange_int16s
unfolding exchange_int16s
exchange_int16s-Exchanges size h =
    units-Exchanges 2 (size / 2) size (omega (arith, span_lem 2 (size / 2)))

exchange_int32s-Exchanges : (size : ℕ) → size % 4 ≡ 0 → Exchanges size exchange_int32s
unfolding exchange_int32s
exchange_int32s-Exchanges size h =
    units-Exchanges 4 (size / 4) size (omega (arith, span_lem 4 (size / 4)))

exchange_int64s-Exchanges : (size : ℕ) → size % 8 ≡ 0 → Exchanges size exchange_int64s
unfolding exchange_int64s
exchange_int64s-Exchanges size h =
    units-Exchanges 8 (size / 8) size (omega (arith, span_lem 8 (size / 8)))

exchange_int128s-Exchanges : (size : ℕ) → size % 16 ≡ 0 → Exchanges size exchange_int128s
unfolding exchange_int128s
exchange_int128s-Exchanges size h a b mem i d =
    let e : span 16 (size / 16) ≡ size = omega (arith, span_lem 16 (size / 16)) in
    subst (λ (n : ℕ). exchange_pairs (size / 16) a b mem i ≡ exchanged a b n mem i) e
      (exchange_pairs_lem (size / 16) a b mem i (rw e d))

-- The low bits of `base | size` bound those of `size`.
low_bits :
    (base size : ℕ)
    → (bit_or base size % 2 ≡ 0 → size % 2 ≡ 0)
      × (bit_or base size % 4 ≡ 0 → size % 4 ≡ 0)
      × (bit_or base size % 8 ≡ 0 → size % 8 ≡ 0)
      × (bit_or base size % 16 ≡ 0 → size % 16 ≡ 0)
low_bits base size =
    let d0 = bit_or_digit base size in
    let d1 = bit_or_digit (base / 2) (size / 2) in
    let d2 = bit_or_digit (base / 2 / 2) (size / 2 / 2) in
    let d3 = bit_or_digit (base / 2 / 2 / 2) (size / 2 / 2 / 2) in
    ((λ h. omega arith), (λ h. omega arith), (λ h. omega arith), (λ h. omega arith))

choose-Exchanges :
    (size : ℕ) (c : Bool) (f g : ExchangeF)
    → (c ≡ true → Exchanges size f)
    → (c ≡ false → Exchanges size g)
    → Exchanges size (if c then f else g)
choose-Exchanges size true f g p q = p refl
choose-Exchanges size false f g p q = q refl

unit-Exchanges :
    (size width : ℕ) (f : ExchangeF)
    → (size == width) ≡ true
    → ((a b : ℕ) (mem : Memory) → f a b size mem ≡ exchange_unit width a b mem)
    → Exchanges size f
unit-Exchanges size width f e h a b mem i d =
    let s : width ≡ size = ground arith in
    subst (λ (n : ℕ). f a b size mem i ≡ exchanged a b n mem i) s
      (rw (h a b mem) (exchange_unit_lem width a b mem i (rw s d)))

pair-Exchanges : (size : ℕ) → (size == 16) ≡ true → Exchanges size exchange_one_int128
unfolding exchange_one_int128
pair-Exchanges size e a b mem i d =
    let s : 16 ≡ size = ground arith in
    subst (λ (n : ℕ). exchange_pair a b mem i ≡ exchanged a b n mem i) s
      (exchange_pair_lem a b mem i (rw s d))

-- Whatever the alignment of the array, the function that `exchange_func` chooses for elements of
-- `size` bytes exchanges any two of them that do not overlap, and changes no other byte.
pub exchange_func-Exchanges :
    (base size a b : ℕ) (mem : Memory) (i : ℕ)
    → Apart a b size
    → exchange_func base size a b size mem i ≡ exchanged a b size mem i
unfolding exchange_func exchange_one_byte exchange_one_int16 exchange_one_int32 exchange_one_int64
exchange_func-Exchanges base size =
    let k : ℕ = bit_and (bit_or base size) 15 in
    let e : k ≡ bit_or base size % 16 = bit_and-mask 4 (bit_or base size) in
    let (l2, l4, l8, l16) = low_bits base size in
    choose-Exchanges size (k == 0) _ _
      (λ t.
        choose-Exchanges size (size == 16) _ _ (pair-Exchanges size)
          (λ _. exchange_int128s-Exchanges size (l16 (ground arith))))
      λ t0.
        choose-Exchanges size (k == 8) _ _
          (λ t.
            choose-Exchanges size (size == 8) _ _
              (λ q. unit-Exchanges size 8 exchange_one_int64 q (λ a b mem. refl))
              (λ _. exchange_int64s-Exchanges size (l8 (ground arith))))
          λ t1.
            choose-Exchanges size (k == 4 || k == 12) _ _
              (λ t.
                choose-Exchanges size (size == 4) _ _
                  (λ q. unit-Exchanges size 4 exchange_one_int32 q (λ a b mem. refl))
                  (λ _. exchange_int32s-Exchanges size (l4 (ground arith))))
              λ t2.
                choose-Exchanges size (k == 2 || k == 6 || k == 10 || k == 14) _ _
                  (λ t.
                    choose-Exchanges size (size == 2) _ _
                      (λ q. unit-Exchanges size 2 exchange_one_int16 q (λ a b mem. refl))
                      (λ _. exchange_int16s-Exchanges size (l2 (ground arith))))
                  λ t3.
                    choose-Exchanges size (size == 1) _ _
                      (λ q. unit-Exchanges size 1 exchange_one_byte q (λ a b mem. refl))
                      (λ _. exchange_bytes-Exchanges size)
