-- ===== src/Cutils/DynBuf/Overwrite.antt =====
-- `dbuf_write` of cxx/quickjs/cutils.c: bytes laid over the contents, past their end if need be.
use flutter_quickjs.Prelude.{ℕ, ◌+◌, ◌-◌, ◌^◌, ◌≤◌, ◌<◌, ◌≡◌, sym, ◌∙◌}
use flutter_quickjs.Prelude.{true, List, ◌++◌}
use flutter_quickjs.Prelude.{
  ltb, length, take, drop, length-append, length-take, length-drop, arith,
}
use flutter_quickjs.Prelude.{
  take-append_more, take-take, ap₂, take-drop, drop_all, inl, inr, Bool-cases, ltb→lt,
  if◌then◌else◌,
}
use flutter_quickjs.Cutils.DynBuf.{DynBuf, Realloc, Outcome, done, failed, fault, add_size, memcpy}
use flutter_quickjs.Cutils.DynBuf.{dbuf_realloc, store_at, dbuf_write, ◌>>=◌}
use flutter_quickjs.Cutils.DynBuf.Append.{IsValid, IsRealloc, contents, Grows, dbuf_realloc-Grows}

-- `src` laid over `bytes` from `offset` on.
abbrev pub laid_over : List ℕ → ℕ → List ℕ → List ℕ
laid_over bytes offset src = (take offset bytes ++ src) ++ drop (offset + length src) bytes

-- A call that lays `src` over the contents, or gives up as the appending calls do.
abbrev pub Writes : DynBuf → ℕ → List ℕ → Outcome → Type 0
Writes s offset src (done s') =
    IsValid s' × (contents s' ≡ laid_over (contents s) offset src) × (s'.error ≡ s.error)
Writes s offset src (failed s') =
    IsValid s'
    × (contents s' ≡ contents s)
    × (s'.error ≡ true)
    × (s.allocated_size < offset + length src)
Writes s offset src fault = ⊥

-- The later of the old end and the end of what is written.
new_size : ℕ → ℕ → ℕ
new_size size end = if ltb size end then end else size

module _ (buf src : List ℕ) (size offset : ℕ) (inside : offset ≤ size)
    (block : size ≤ length buf) where
  tail_part :
      take
        (new_size size (offset + length src) - (offset + length src))
        (drop (offset + length src) buf)
      ≡ drop (offset + length src) (take size buf)
  unfolding new_size
  tail_part = elim (Bool-cases (ltb size (offset + length src))) [
    | inl e ↦
        let none_left : (offset + length src) - (offset + length src) ≡ 0 = omega arith in
        rw (e, none_left)
          (sym (
            drop_all (offset + length src) (take size buf)
              (omega (arith, ltb→lt size (offset + length src) e, length-take size buf))))
    | inr e ↦
        let whole : (offset + length src) + (size - (offset + length src)) ≡ size = ground arith in
        rw e (rw whole at (take-drop (offset + length src) (size - (offset + length src)) buf))
  ]

  length_front : length (take offset buf ++ src) ≡ offset + length src
  length_front = omega (arith, length-append (take offset buf) src, length-take offset buf)

  end-le-new_size : offset + length src ≤ new_size size (offset + length src)
  unfolding new_size
  end-le-new_size = ground arith

  -- The new contents, once the block has room.
  taken :
      take (new_size size (offset + length src)) (laid_over buf offset src)
      ≡ laid_over (take size buf) offset src
  taken =
      take-append_more (take offset buf ++ src) (drop (offset + length src) buf)
        (new_size size (offset + length src)) (omega (arith, length_front, end-le-new_size))
      ∙ rw length_front
          (ap₂ (λ f t. (f ++ src) ++ t) (sym (take-take offset size buf inside)) tail_part)

  length-laid_over :
      offset + length src ≤ length buf → length (laid_over buf offset src) ≡ length buf
  length-laid_over room = omega (
    arith,
    length_front,
    length-append (take offset buf ++ src) (drop (offset + length src) buf),
    length-drop (offset + length src) buf,
  )

store_at-Writes :
    (s : DynBuf) (offset : ℕ) (src : List ℕ)
    → IsValid s
    → offset ≤ s.size
    → offset + length src ≤ s.allocated_size
    → Writes s offset src (store_at offset src (new_size s.size (offset + length src)) s)
unfolding store_at memcpy
store_at-Writes s offset src v inside room = ground (
  arith,
  taken s.buf src s.size offset inside (omega (arith, v.block, v.within)),
  length-laid_over s.buf src s.size offset inside (omega (arith, v.block, v.within)),
  v.block,
  v.within,
  new_size_within,
)
  where
    new_size_within : new_size s.size (offset + length src) ≤ s.allocated_size
    new_size_within = unfold new_size in ground (arith, v.within)

Writes-after :
    (s t : DynBuf) (offset : ℕ) (src : List ℕ) (o : Outcome)
    → contents t ≡ contents s
    → t.error ≡ s.error
    → offset + length src ≤ t.allocated_size
    → Writes t offset src o
    → Writes s offset src o
Writes-after s t offset src (done u) c e room (v, a, f) = (v, rw c at a, f ∙ e)
Writes-after s t offset src (failed u) c e room a = absurd (omega arith)
Writes-after s t offset src fault c e room a = absurd a

then_write :
    (s : DynBuf) (offset : ℕ) (src : List ℕ) (o : Outcome)
    → offset ≤ s.size
    → Grows s (offset + length src) o
    → Writes s offset src (o >>= λ t. store_at offset src (new_size t.size (offset + length src)) t)
then_write s offset src (done t) inside (v, size, c, e, room) =
    Writes-after s t offset src _ c e room (store_at-Writes t offset src v (omega arith) room)
then_write s offset src (failed t) inside g = g
then_write s offset src fault inside g = absurd g

-- `dbuf_write` at an offset inside the contents of a valid buffer lays the given bytes over them,
-- which leaves the bytes before and behind as they were and extends the contents if need be; or it
-- fails, which it does only if the block is too small, leaves the contents and sets the error flag.
-- It keeps the invariant and never accesses memory out of bounds. The end must not wrap a `size_t`.
pub dbuf_write-Writes :
    {realloc : Realloc} {s : DynBuf} (offset : ℕ) (src : List ℕ)
    → IsRealloc realloc
    → IsValid s
    → offset ≤ s.size
    → offset + length src < 2 ^ 64
    → Writes s offset src (dbuf_write realloc s offset src)
unfolding dbuf_write new_size
dbuf_write-Writes {realloc} {s} offset src r v inside fits =
    let same : add_size offset (length src) ≡ offset + length src = omega arith in
    rw same (
      then_write s offset src (dbuf_realloc realloc s (offset + length src)) inside
        (dbuf_realloc-Grows (offset + length src) r v))
