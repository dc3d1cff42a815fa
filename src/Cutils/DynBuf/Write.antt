-- ===== src/Cutils/DynBuf/Write.antt =====
-- The other writers of cxx/quickjs/cutils.c: `dbuf_write`, `dbuf_put_self` and `dbuf_printf`.
use flutter_quickjs.Prelude.{ℕ, zero, suc, ◌+◌, ◌-◌, ◌^◌, ◌≤◌, ◌<◌, ◌≡◌, refl, sym}
use flutter_quickjs.Prelude.{◌||◌, ◌&&◌, true, List, [], ◌∷◌, append-nil}
use flutter_quickjs.Prelude.{ltb, leb, length, take, drop, length-take, length-drop, arith}
use flutter_quickjs.Prelude.{take-take, take_all, inl, inr, Bool-cases, ◌==◌, false}
use native.Mathlib.Nat.{le_refl}
use flutter_quickjs.Cutils.DynBuf.{DynBuf, Realloc, Outcome, done, failed, fault, add_size}
use flutter_quickjs.Cutils.DynBuf.{dbuf_realloc, store_at, reserve, dbuf_put}
use flutter_quickjs.Cutils.DynBuf.{dbuf_put_self, dbuf_printf, as_size, text_in}
use flutter_quickjs.Cutils.DynBuf.Append.{IsValid, IsRealloc, contents, Appends, then_append}
use flutter_quickjs.Cutils.DynBuf.Append.{dbuf_realloc-Grows, reserve-Grows, store_at-Appends}
use flutter_quickjs.Cutils.DynBuf.Append.{dbuf_put-Appends}

take-drop-take {ℓ} :
    {A : Type ℓ} (n m k : ℕ) (xs : List A)
    → m + n ≤ k
    → take n (drop m (take k xs)) ≡ take n (drop m xs)
take-drop-take n zero k xs h = take-take n k xs (omega arith)
take-drop-take n (suc m) zero xs h = absurd (omega arith)
take-drop-take n (suc m) (suc k) [] h = refl
take-drop-take n (suc m) (suc k) (x ∷ xs) h = take-drop-take n m k xs (omega arith)

-- The copy in place, once there is room.
module _ (s t : DynBuf) (offset len n : ℕ) (v : IsValid t) (size : t.size ≡ s.size)
    (same : contents t ≡ contents s) (room : s.size + len ≤ t.allocated_size)
    (fits : s.size + len < 2 ^ 64) (inside : offset + len ≤ s.size) where
  source : take len (drop offset t.buf) ≡ take len (drop offset (contents s))
  source = rw (← same) (sym (take-drop-take len offset t.size t.buf (omega arith)))

  length_source : length (take len (drop offset t.buf)) ≡ len
  length_source =
      omega
        (arith, length-take len (drop offset t.buf), length-drop offset t.buf, v.block, v.within)

  store_self :
      Appends t n
        (take len (drop offset (contents s)))
        (store_at t.size (take len (drop offset t.buf)) (add_size t.size len) t)
  store_self =
      let src : List ℕ = take len (drop offset t.buf) in
      let stored =
        store_at-Appends {s = t} n src [] v (omega (arith, length_source, v.within))
          (omega (arith, length_source)) in
      rw (← source) (rw (append-nil src, length_source) at stored)

  inside_block :
      ((leb (offset + len) t.size || leb (t.size + len) offset)
        && leb (offset + len) (length t.buf))
      ≡ true
  inside_block = ground (arith, v.block, v.within)

-- `dbuf_put_self` on a valid buffer appends the `len` bytes of its own contents from `offset` on,
-- or fails as `dbuf_put` does, if these bytes lie inside the contents.
pub dbuf_put_self-Appends :
    {realloc : Realloc} {s : DynBuf} (offset len : ℕ)
    → IsRealloc realloc
    → IsValid s
    → s.size + len < 2 ^ 64
    → offset + len ≤ s.size
    → Appends s
        (s.size + len)
        (take len (drop offset (contents s)))
        (dbuf_put_self realloc s offset len)
unfolding dbuf_put_self
dbuf_put_self-Appends {realloc} {s} offset len r v fits inside =
    then_append s _ _ (reserve realloc s len) _ (reserve-Grows len r v fits) (λ t vt size same room.
      rw (inside_block s t offset len (s.size + len) vt size same room fits inside)
        (store_self s t offset len (s.size + len) vt size same room fits inside))

Appends-weaken :
    (s : DynBuf) (n m : ℕ) (src : List ℕ) (o : Outcome)
    → n ≤ m
    → Appends s n src o
    → Appends s m src o
Appends-weaken s n m src (done t) h a = a
Appends-weaken s n m src (failed t) h a = ground arith
Appends-weaken s n m src fault h a = a

-- The text and its NUL, written in place once there is room.
store_text :
    (t : DynBuf) (n : ℕ) (out : List ℕ)
    → IsValid t
    → t.size + length out + 1 ≤ t.allocated_size
    → t.size + length out < 2 ^ 64
    → Appends t n out
        (store_at t.size (text_in (t.allocated_size - t.size) out) (add_size t.size (length out)) t)
unfolding text_in
store_text t n out v room fits =
    let some_room : (t.allocated_size - t.size == 0) ≡ false = ground arith in
    rw (text_in, some_room, take_all out (t.allocated_size - t.size - 1) (omega arith))
      (store_at-Appends n out (0 ∷ []) v (omega arith) fits)

-- When `vsnprintf` makes a text of less than 2^31 bytes and returns its length, `dbuf_printf` on a valid
-- buffer appends the text, on its short and on its long path, or fails, which it does only if the
-- block is too small for the text and a NUL.
pub dbuf_printf-Appends :
    {realloc : Realloc} {s : DynBuf} (out : List ℕ)
    → IsRealloc realloc
    → IsValid s
    → length out < 2 ^ 31
    → s.size + length out + 1 < 2 ^ 64
    → Appends s (s.size + length out + 1) out (dbuf_printf realloc s (length out) out)
unfolding dbuf_printf as_size
dbuf_printf-Appends {realloc} {s} out r v small fits =
    let n : ℕ = s.size + length out + 1 in
    let same : add_size (add_size s.size (length out)) 1 ≡ n = omega arith in
    let positive : as_size (length out) ≡ length out = ground arith in
    elim (Bool-cases (ltb (length out) 128)) [
      | inl e ↦
          rw (dbuf_printf, positive, e, take_all out (length out) (le_refl _))
            (Appends-weaken s _ n out (dbuf_put realloc s out) (omega arith)
              (dbuf_put-Appends out r v (omega arith)))
      | inr e ↦
          rw (dbuf_printf, positive, e, same)
            (then_append s n out (dbuf_realloc realloc s n) _ (dbuf_realloc-Grows n r v)
              (λ t vt size c room. store_text t n out vt (omega arith) (omega arith)))
    ]
