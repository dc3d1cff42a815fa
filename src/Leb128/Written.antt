-- ===== src/Leb128/Written.antt =====
-- What the writers of cxx/quickjs/quickjs.c append for a number of variable length.
use flutter_quickjs.Prelude.{
  ℕ, zero, suc, ◌+◌, ◌/◌, ◌%◌, ◌^◌, ◌<◌, ◌≤◌, ◌≡◌, arith, refl, sym, ap, ◌∙◌, inl, inr, bit_and,
  bit_or, bit_and-mask, bit_or-shift, bit_or_comm, Bool, true, false, Option, none, some, List, [],
  ◌∷◌, ◌++◌, length, if◌then◌else◌, ◌==◌, compare-cases, append_assoc, append-nil, length-take,
  length-append, All, Option-cases,
}
use mathlib.Core.Path.{subst}
use native.Mathlib.Nat.{pow-suc}
use flutter_quickjs.Cutils.DynBuf.{
  DynBuf, Realloc, Outcome, done, failed, fault, dbuf_put, dbuf_putc,
}
use flutter_quickjs.Cutils.DynBuf.Append.{IsValid, IsRealloc, contents, Appends, dbuf_put-Appends}
use flutter_quickjs.Leb128.{ignoring, leb128_loop, dbuf_put_leb128}
use flutter_quickjs.Leb128.RoundTrip.{leb128_bytes, leb128}

-- The bytes one after the other, whatever each call returns.
unfoldable pub putc_all : Realloc → DynBuf → List ℕ → Option DynBuf
putc_all realloc s [] = some s
putc_all realloc s (c ∷ cs) = elim (ignoring (dbuf_putc realloc s c)) [
  | none ↦ none
  | some s' ↦ putc_all realloc s' cs
]

-- A valid buffer that has the bytes behind the contents of `s`, unless its error flag is set.
pub record Written (s : DynBuf) (src : List ℕ) (t : DynBuf) : Type 0 where
  pub valid : IsValid t
  pub size_le : t.size ≤ s.size + length src
  pub all_there : t.error ≡ false → (s.error ≡ false) × (contents t ≡ contents s ++ src)

pub length-contents : (s : DynBuf) → IsValid s → length (contents s) ≡ s.size
length-contents s v = omega (arith, length-take s.size s.buf, v.block, v.within)

module _ (realloc : Realloc) (r : IsRealloc realloc) where
  putc-Written :
      (s : DynBuf) (c : ℕ)
      → IsValid s
      → s.size + 1 < 2 ^ 64
      → c < 256
      → (t : DynBuf) × (ignoring (dbuf_putc realloc s c) ≡ some t) × Written s (c ∷ []) t
  unfolding dbuf_putc ignoring
  putc-Written s c v fits small =
      let e : c % 256 ≡ c = omega arith in
      let appended : Appends s (s.size + 1) (c ∷ []) (dbuf_put realloc s (c ∷ [])) =
        dbuf_put-Appends (c ∷ []) r v fits in
      subst
        (λ (b : ℕ).
          (t : DynBuf) × (ignoring (dbuf_put realloc s (b ∷ [])) ≡ some t) × Written s (c ∷ []) t)
        (sym e) (from_outcome (dbuf_put realloc s (c ∷ [])) appended)
    where
      from_outcome :
          (o : Outcome)
          → Appends s (s.size + 1) (c ∷ []) o
          → (t : DynBuf) × (ignoring o ≡ some t) × Written s (c ∷ []) t
      from_outcome (done t) (vt, same, flag) = (
        t,
        refl,
        record {
          valid = vt;
          size_le = omega (
            arith,
            length-contents t vt,
            length-contents s v,
            ap length same,
            length-append (contents s) (c ∷ []),
          );
          all_there = λ clear. (sym flag ∙ clear, same);
        },
      )
      from_outcome (failed t) (vt, same, flag, room) = (
        t,
        refl,
        record {
          valid = vt;
          size_le = omega (arith, length-contents t vt, length-contents s v, ap length same);
          all_there = λ clear. absurd (cc);
        },
      )
      from_outcome fault h = absurd h

  pub putc_all-Written :
      (bytes : List ℕ) (s : DynBuf)
      → IsValid s
      → s.size + length bytes < 2 ^ 64
      → All (λ b. b < 256) bytes
      → (t : DynBuf) × (putc_all realloc s bytes ≡ some t) × Written s bytes t
  unfolding putc_all
  putc_all-Written [] s v fits small = (
    s,
    refl,
    record {
      valid = v;
      size_le = omega arith;
      all_there = λ clear. (clear, sym (append-nil (contents s)));
    },
  )
  putc_all-Written (b ∷ bytes) s v fits (h, small) =
      let (s1, e1, w1) = putc-Written s b v (omega arith) h in
      let (s2, e2, w2) = putc_all-Written bytes s1 w1.valid (omega (arith, w1.size_le)) small in
      (
        s2,
        rw (putc_all, e1) e2,
        record {
          valid = w2.valid;
          size_le = omega (arith, w1.size_le, w2.size_le);
          all_there = λ clear.
              let (clear1, c2) = w2.all_there clear in
              let (clear0, c1) = w1.all_there clear1 in
              (
                clear0,
                c2 ∙ ap (λ (t : List ℕ). t ++ bytes) c1 ∙ append_assoc (contents s) (b ∷ []) bytes,
              );
        },
      )

-- Two lists in turn.
pub putc_all-append :
    (realloc : Realloc) (xs ys : List ℕ) (s : DynBuf)
    → putc_all realloc s (xs ++ ys)
      ≡ elim (putc_all realloc s xs) [ none ↦ none | some t ↦ putc_all realloc t ys ]
unfolding putc_all
putc_all-append realloc [] ys s = refl
putc_all-append realloc (x ∷ xs) ys s = elim (Option-cases (ignoring (dbuf_putc realloc s x))) [
  | inl n ↦ rw (putc_all, n) refl
  | inr (s1, e1) ↦ rw (putc_all, e1) (putc_all-append realloc xs ys s1)
]

pub leb128_bytes_small : (fuel v : ℕ) → All (λ b. b < 256) (leb128_bytes fuel v)
unfolding leb128_bytes
leb128_bytes_small zero v = tt
leb128_bytes_small (suc fuel) v =
    either (v / 128 == 0) (v % 128 ∷ []) ((v % 128 + 128) ∷ leb128_bytes fuel (v / 128))
      (omega arith, tt) (omega arith, leb128_bytes_small fuel (v / 128))
  where
    either :
        (test : Bool) (xs ys : List ℕ)
        → All (λ b. b < 256) xs
        → All (λ b. b < 256) ys
        → All (λ b. b < 256) (if test then xs else ys)
    either true xs ys h k = h
    either false xs ys h k = k

module _ (realloc : Realloc) where
  pub putc_all-one :
      (s : DynBuf) (c : ℕ) → putc_all realloc s (c ∷ []) ≡ ignoring (dbuf_putc realloc s c)
  unfolding putc_all
  putc_all-one s c = elim (Option-cases (ignoring (dbuf_putc realloc s c))) [
    | inl n ↦ rw (putc_all, n) refl
    | inr (t, e) ↦ rw (putc_all, e) refl
  ]

  pub putc_all_step :
      (s t : DynBuf) (c : ℕ) (cs : List ℕ)
      → ignoring (dbuf_putc realloc s c) ≡ some t
      → putc_all realloc s (c ∷ cs) ≡ putc_all realloc t cs
  unfolding putc_all
  putc_all_step s t c cs e = rw (putc_all, e) refl

  mark_bit : (a : ℕ) → a < 128 → bit_or a 0x80 ≡ a + 128
  mark_bit a h = bit_or_comm a 128 ∙ bit_or-shift 7 1 a h ∙ omega arith

  module _ (fuel v : ℕ) (s : DynBuf) where
    bytes_last : v < 128 → leb128_bytes (suc fuel) v ≡ v % 128 ∷ []
    unfolding leb128_bytes
    bytes_last small = ground arith

    bytes_more : 128 ≤ v → leb128_bytes (suc fuel) v ≡ (v % 128 + 128) ∷ leb128_bytes fuel (v / 128)
    unfolding leb128_bytes
    bytes_more large = ground arith

    loop_last :
        v < 128 → leb128_loop realloc (suc fuel) s v ≡ ignoring (dbuf_putc realloc s (v % 128))
    unfolding leb128_loop
    loop_last small = ground (arith, bit_and-mask 7 v)

    a_byte :
        dbuf_putc realloc s (bit_or (bit_and v 0x7f) 0x80) ≡ dbuf_putc realloc s (v % 128 + 128)
    a_byte =
        ap (dbuf_putc realloc s)
          (ap (λ (t : ℕ). bit_or t 0x80) (bit_and-mask 7 v) ∙ mark_bit (v % 128) (omega arith))

    loop_stops :
        128 ≤ v
        → ignoring (dbuf_putc realloc s (v % 128 + 128)) ≡ none
        → leb128_loop realloc (suc fuel) s v ≡ none
    unfolding leb128_loop
    loop_stops large n = ground (arith, a_byte, n)

    loop_goes_on :
        (t : DynBuf)
        → 128 ≤ v
        → ignoring (dbuf_putc realloc s (v % 128 + 128)) ≡ some t
        → leb128_loop realloc (suc fuel) s v ≡ leb128_loop realloc fuel t (v / 128)
    unfolding leb128_loop
    loop_goes_on t large e = ground (arith, a_byte, e)

  leb128_loop_lem :
      (fuel v : ℕ) (s : DynBuf)
      → v < 128 ^ fuel
      → 0 < fuel
      → leb128_loop realloc fuel s v ≡ putc_all realloc s (leb128_bytes fuel v)
  unfolding putc_all
  leb128_loop_lem zero v s h k = absurd (omega arith)
  leb128_loop_lem (suc fuel) v s h k = elim (compare-cases v 128) [
    | inl (e, small) ↦
        loop_last fuel v s small
        ∙ sym (putc_all-one s (v % 128))
        ∙ sym (ap (putc_all realloc s) (bytes_last fuel v s small))
    | inr m ↦
        let large : 128 ≤ v = omega arith in
        let fewer : v / 128 < 128 ^ fuel = omega (arith, pow-suc 128 fuel) in
        let left : 0 < fuel = rest_left fuel fewer (omega arith) in
        elim (Option-cases (ignoring (dbuf_putc realloc s (v % 128 + 128)))) [
          | inl n ↦
              loop_stops fuel v s large n
              ∙ sym (ap (putc_all realloc s) (bytes_more fuel v s large) ∙ rw (putc_all, n) refl)
          | inr (t, e) ↦
              loop_goes_on fuel v s t large e
              ∙ leb128_loop_lem fuel (v / 128) t fewer left
              ∙ sym (
                  ap (putc_all realloc s) (bytes_more fuel v s large)
                  ∙ putc_all_step s t (v % 128 + 128) (leb128_bytes fuel (v / 128)) e)
        ]
  ]
    where
      rest_left : (n : ℕ) → v / 128 < 128 ^ n → 1 ≤ v / 128 → 0 < n
      rest_left zero h k = absurd (omega arith)
      rest_left (suc n) h k = omega arith

  pub dbuf_put_leb128_lem :
      (v : ℕ) (s : DynBuf)
      → v < 2 ^ 32
      → dbuf_put_leb128 realloc s v ≡ putc_all realloc s (leb128 v)
  unfolding dbuf_put_leb128
  dbuf_put_leb128_lem v s h = leb128_loop_lem 5 v s (omega arith) (omega arith)
