-- ===== src/Cutils/DynBuf.antt =====
-- The dynamic buffers of cxx/quickjs/cutils.c and cutils.h.
-- `realloc_func` is code of the buffer's owner: it is the argument `realloc` of the operations that
-- call it, which gives the new block for an old block and a size, or `none` for NULL.
pub mod Append
pub mod Write
pub mod Overwrite
pub mod Zeroing
mod Runs
use flutter_quickjs.Prelude.{ℕ, ◌+◌, ◌-◌, ◌*◌, ◌/◌, ◌%◌, ◌^◌, Bool, true, false, ◌||◌, ◌&&◌}
use flutter_quickjs.Prelude.{Option, none, some, List, [], ◌∷◌, ◌++◌}
use flutter_quickjs.Prelude.{ltb, leb, ◌==◌, if◌then◌else◌, length, take, drop, replicate}

-- `DynBuf`. `buf` is the block that the pointer leads to; it is empty for NULL.
pub record DynBuf : Type 0 where
  pub buf : List ℕ
  pub size : ℕ
  pub allocated_size : ℕ
  pub error : Bool

abbrev pub Realloc : Type 0
Realloc = List ℕ → ℕ → Option (List ℕ)

-- How an operation ends: it returns 0, it returns -1, or it accesses memory that is not its own.
pub data Outcome : Type 0 where
  done : DynBuf → Outcome
  failed : DynBuf → Outcome
  fault : Outcome

-- `size_t` addition
abbrev pub add_size : ℕ → ℕ → ℕ
add_size a b = (a + b) % 2 ^ 64

-- `memcpy(buf + offset, src, length src)`; `none` if that leaves the block.
unfoldable pub memcpy : List ℕ → ℕ → List ℕ → Option (List ℕ)
memcpy buf offset src =
    if leb (offset + length src) (length buf)
    then some (take offset buf ++ src ++ drop (offset + length src) buf)
    else none

unfoldable pub dbuf_init : DynBuf
dbuf_init = record { buf = []; size = 0; allocated_size = 0; error = false }

-- `size = s->allocated_size * 3 / 2; if (size > new_size) new_size = size;`
unfoldable pub grown_size : ℕ → ℕ → ℕ
grown_size allocated new_size =
    let size = (allocated * 3) % 2 ^ 64 / 2 in if ltb new_size size then size else new_size

unfoldable pub dbuf_realloc : Realloc → DynBuf → ℕ → Outcome
dbuf_realloc realloc s new_size =
    if ltb s.allocated_size new_size
    then if s.error then failed s else elim (realloc s.buf (grown_size s.allocated_size new_size)) [
      | none ↦ failed (record s { error = true })
      | some new_buf ↦
          done (record s { buf = new_buf; allocated_size = grown_size s.allocated_size new_size })
    ]
    else done s

-- What follows `if (dbuf_realloc(...)) return -1;`.
infixl 5 ◌>>=◌
abbrev pub ◌>>=◌ : Outcome → (DynBuf → Outcome) → Outcome
done s >>= f = f s
failed s >>= f = failed s
fault >>= f = fault

-- `memcpy(s->buf + offset, src, len)` and a new `s->size`.
unfoldable pub store_at : ℕ → List ℕ → ℕ → DynBuf → Outcome
store_at offset src size s = elim (memcpy s.buf offset src) [
  | none ↦ fault
  | some b ↦ done (record s { buf = b; size = size })
]

unfoldable pub dbuf_write : Realloc → DynBuf → ℕ → List ℕ → Outcome
dbuf_write realloc s offset src =
    let end = add_size offset (length src) in
    do
      s' ← dbuf_realloc realloc s end
      store_at offset src (if ltb s'.size end then end else s'.size) s'

-- `if (s->size + len > s->allocated_size) if (dbuf_realloc(s, s->size + len)) return -1;`
unfoldable pub reserve : Realloc → DynBuf → ℕ → Outcome
reserve realloc s len =
    let wanted = add_size s.size len in
    if ltb s.allocated_size wanted then dbuf_realloc realloc s wanted else done s

unfoldable pub dbuf_put : Realloc → DynBuf → List ℕ → Outcome
dbuf_put realloc s src = do
  s' ← reserve realloc s (length src)
  store_at s'.size src (add_size s'.size (length src)) s'

-- `memcpy(s->buf + s->size, s->buf + offset, len)`: the regions must lie inside the block and apart.
unfoldable pub dbuf_put_self : Realloc → DynBuf → ℕ → ℕ → Outcome
dbuf_put_self realloc s offset len = do
  s' ← reserve realloc s len
  let apart = leb (offset + len) s'.size || leb (s'.size + len) offset
  let inside = leb (offset + len) (length s'.buf)
  if apart && inside
      then store_at s'.size (take len (drop offset s'.buf)) (add_size s'.size len) s'
      else fault

unfoldable pub dbuf_putc : Realloc → DynBuf → ℕ → Outcome
dbuf_putc realloc s c = dbuf_put realloc s ((c % 256) ∷ [])

-- The text before the NUL.
unfoldable pub dbuf_putstr : Realloc → DynBuf → List ℕ → Outcome
dbuf_putstr realloc s str = dbuf_put realloc s str

-- The `n` bytes of an integer in memory, lowest first.
unfoldable pub le_bytes : ℕ → ℕ → List ℕ
le_bytes ℕ.zero v = []
le_bytes (ℕ.suc n) v = (v % 256) ∷ le_bytes n (v / 256)

unfoldable pub dbuf_put_u16 : Realloc → DynBuf → ℕ → Outcome
dbuf_put_u16 realloc s val = dbuf_put realloc s (le_bytes 2 val)

unfoldable pub dbuf_put_u32 : Realloc → DynBuf → ℕ → Outcome
dbuf_put_u32 realloc s val = dbuf_put realloc s (le_bytes 4 val)

unfoldable pub dbuf_put_u64 : Realloc → DynBuf → ℕ → Outcome
dbuf_put_u64 realloc s val = dbuf_put realloc s (le_bytes 8 val)

-- An `int`, by its word of 32 bits, where it is added to a `size_t` or compared with one.
unfoldable pub as_size : ℕ → ℕ
as_size len = if ltb len (2 ^ 31) then len else len + 2 ^ 64 - 2 ^ 32

-- What `vsnprintf` leaves in `room` bytes: the text, cut if need be, with its NUL.
unfoldable pub text_in : (room : ℕ) → List ℕ → List ℕ
text_in room out = if room == 0 then [] else take (room - 1) out ++ 0 ∷ []

-- `out` is the text that `vsnprintf` makes, without the NUL, and `len` what it returns. The short text
-- goes through an array of 128 bytes; the long one is written in place.
unfoldable pub dbuf_printf : Realloc → DynBuf → (len : ℕ) (out : List ℕ) → Outcome
dbuf_printf realloc s len out =
    if ltb (as_size len) 128 then dbuf_put realloc s (take len out) else do
      s' ← dbuf_realloc realloc s (add_size (add_size s.size (as_size len)) 1)
      store_at s'.size (text_in (s'.allocated_size - s'.size) out) (add_size s'.size (as_size len))
          s'

-- The block is given back, if there is one, and the record is cleared.
unfoldable pub dbuf_free : DynBuf → DynBuf
dbuf_free s = record { buf = []; size = 0; allocated_size = 0; error = false }

unfoldable pub dbuf_set_error : DynBuf → DynBuf
dbuf_set_error s = record s { error = true }
