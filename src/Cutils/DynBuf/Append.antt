-- ===== src/Cutils/DynBuf/Append.antt =====
-- The invariant of a dynamic buffer, and the operations that append to it (cxx/quickjs/cutils.c).
use flutter_quickjs.Prelude.{ℕ, ◌+◌, ◌^◌, ◌≤◌, ◌<◌, ◌≡◌, refl, sym, ◌∙◌}
use flutter_quickjs.Prelude.{true, some, List, [], ◌++◌, append_assoc, append-nil}
use flutter_quickjs.Prelude.{
  ltb, length, take, drop, length-append, length-take, length-drop, arith,
}
use flutter_quickjs.Prelude.{take-append, take_agree, take_all, Option-cases, inl, inr, Bool-cases}
use flutter_quickjs.Cutils.DynBuf.{
  DynBuf, Realloc, Outcome, done, failed, fault, add_size, memcpy, ◌>>=◌,
}
use flutter_quickjs.Cutils.DynBuf.{grown_size, dbuf_realloc, store_at, reserve, dbuf_put}

-- The block has the size that the buffer holds it for, and the bytes written lie inside it.
pub record IsValid (s : DynBuf) : Type 0 where
  pub block : length s.buf ≡ s.allocated_size
  pub within : s.size ≤ s.allocated_size

-- The bytes written so far.
abbrev pub contents : DynBuf → List ℕ
contents s = take s.size s.buf

-- What `realloc` documents: a block of the size asked for, which begins with the old one.
pub record IsRealloc (realloc : Realloc) : Type 0 where
  pub sized : (b : List ℕ) (n : ℕ) (b' : List ℕ) → realloc b n ≡ some b' → length b' ≡ n
  pub keeps :
      (b : List ℕ) (n : ℕ) (b' : List ℕ)
      → realloc b n ≡ some b'
      → length b ≤ n
      → take (length b) b' ≡ b

-- A call that makes room for `n` bytes and leaves what is written alone; or it gives up, which it
-- does only if there is no room yet, and sets the error flag.
abbrev pub Grows : DynBuf → ℕ → Outcome → Type 0
Grows s n (done s') =
    IsValid s'
    × (s'.size ≡ s.size)
    × (contents s' ≡ contents s)
    × (s'.error ≡ s.error)
    × (n ≤ s'.allocated_size)
Grows s n (failed s') =
    IsValid s' × (contents s' ≡ contents s) × (s'.error ≡ true) × (s.allocated_size < n)
Grows s n fault = ⊥

-- A call that appends `src`; or it gives up, which it does only if the block has not the `n` bytes
-- that the call asks for, leaves what is written alone and sets the error flag.
abbrev pub Appends : DynBuf → ℕ → List ℕ → Outcome → Type 0
Appends s n src (done s') = IsValid s' × (contents s' ≡ contents s ++ src) × (s'.error ≡ s.error)
Appends s n src (failed s') =
    IsValid s' × (contents s' ≡ contents s) × (s'.error ≡ true) × (s.allocated_size < n)
Appends s n src fault = ⊥

pub le-grown_size : (a n : ℕ) → n ≤ grown_size a n
unfolding grown_size
le-grown_size a n = ground arith

-- A new block that begins with the old one holds the same contents.
contents_of_new :
    (b b' : List ℕ) (n : ℕ) → n ≤ length b → take (length b) b' ≡ b → take n b' ≡ take n b
contents_of_new b b' n h e =
    take_agree (length b) n b' b h (e ∙ sym (take_all b (length b) (omega arith)))

-- `dbuf_realloc` ends with room for `new_size` bytes, or gives up.
pub dbuf_realloc-Grows :
    {realloc : Realloc} {s : DynBuf} (n : ℕ)
    → IsRealloc realloc
    → IsValid s
    → Grows s n (dbuf_realloc realloc s n)
unfolding dbuf_realloc
dbuf_realloc-Grows {realloc} {s} n r v =
    elim (Option-cases (realloc s.buf (grown_size s.allocated_size n))) [
      | inl e ↦ ground (arith, e)
      | inr (b', e) ↦ ground (
        arith,
        e,
        le-grown_size s.allocated_size n,
        r.sized s.buf _ b' e,
        r.keeps s.buf _ b' e,
        contents_of_new s.buf b' s.size,
      )
    ]

pub reserve-Grows :
    {realloc : Realloc} {s : DynBuf} (n : ℕ)
    → IsRealloc realloc
    → IsValid s
    → s.size + n < 2 ^ 64
    → Grows s (s.size + n) (reserve realloc s n)
unfolding reserve
reserve-Grows {realloc} {s} n r v fits =
    let same : add_size s.size n ≡ s.size + n = omega arith in
    rw same (elim (Bool-cases (ltb s.allocated_size (s.size + n))) [
      | inl e ↦ rw e (dbuf_realloc-Grows (s.size + n) r v)
      | inr e ↦ rw e (v, refl, refl, refl, ground arith)
    ])

-- `memcpy` behind the `k` bytes that are written, where there is room.
memcpy_end :
    (buf src z : List ℕ) (k : ℕ)
    → k + length src + length z ≤ length buf
    → memcpy buf k (src ++ z)
      ≡ some ((take k buf ++ src) ++ (z ++ drop (k + length (src ++ z)) buf))
unfolding memcpy
memcpy_end buf src z k h = ground (
  arith,
  length-append src z,
  append_assoc (take k buf) src z,
  append_assoc (take k buf ++ src) z (drop (k + length (src ++ z)) buf),
)

length_end :
    (buf src z : List ℕ) (k : ℕ)
    → k + length src + length z ≤ length buf
    → (length (take k buf ++ src) ≡ k + length src)
      × (length ((take k buf ++ src) ++ (z ++ drop (k + length (src ++ z)) buf)) ≡ length buf)
length_end buf src z k h = omega (
  arith,
  length-append src z,
  length-append (take k buf) src,
  length-take k buf,
  length-drop (k + length (src ++ z)) buf,
  length-append z (drop (k + length (src ++ z)) buf),
  length-append (take k buf ++ src) (z ++ drop (k + length (src ++ z)) buf),
)

-- Storing `src` and then `z` behind what is written, with `src` counted in, appends `src`.
pub store_at-Appends :
    {s : DynBuf} (n : ℕ) (src z : List ℕ)
    → IsValid s
    → s.size + length src + length z ≤ s.allocated_size
    → s.size + length src < 2 ^ 64
    → Appends s n src (store_at s.size (src ++ z) (add_size s.size (length src)) s)
unfolding store_at
store_at-Appends {s} n src z v room fits =
    let same : add_size s.size (length src) ≡ s.size + length src = omega arith in
    rw same (
      ground (
        arith,
        memcpy_end s.buf src z s.size,
        length_end s.buf src z s.size,
        take-append (take s.size s.buf ++ src) (z ++ drop (s.size + length (src ++ z)) s.buf)
            (s.size + length src),
      ))

-- What appends to a buffer with the same contents and room enough, appends to `s`.
Appends-after :
    (s t : DynBuf) (n m : ℕ) (src : List ℕ) (o : Outcome)
    → contents t ≡ contents s
    → t.error ≡ s.error
    → m ≤ t.allocated_size
    → Appends t m src o
    → Appends s n src o
Appends-after s t n m src (done u) c e room (v, a, f) = (v, rw c at a, f ∙ e)
Appends-after s t n m src (failed u) c e room a = absurd (omega arith)
Appends-after s t n m src fault c e room a = absurd a

-- A call that grows the buffer, and then one that appends.
pub then_append :
    (s : DynBuf) (n : ℕ) (src : List ℕ) (o : Outcome) (f : DynBuf → Outcome)
    → Grows s n o
    → ((t : DynBuf)
        → IsValid t
        → t.size ≡ s.size
        → contents t ≡ contents s
        → n ≤ t.allocated_size
        → Appends t n src (f t))
    → Appends s n src (o >>= f)
then_append s n src (done t) f (v, size, c, e, room) k =
    Appends-after s t n n src (f t) c e room (k t v size c room)
then_append s n src (failed t) f g k = ground arith
then_append s n src fault f g k = absurd g

-- `dbuf_put` on a valid buffer either appends exactly the given bytes and leaves the error flag, or
-- fails, which it does only if the block is too small for the result: it then leaves the contents
-- and sets the flag. It keeps the invariant and never accesses memory out of bounds. The new size
-- must not wrap a `size_t`, and `realloc` must behave as documented.
pub dbuf_put-Appends :
    {realloc : Realloc} {s : DynBuf} (src : List ℕ)
    → IsRealloc realloc
    → IsValid s
    → s.size + length src < 2 ^ 64
    → Appends s (s.size + length src) src (dbuf_put realloc s src)
unfolding dbuf_put
dbuf_put-Appends {realloc} {s} src r v fits =
    then_append s _ src (reserve realloc s (length src)) _ (reserve-Grows (length src) r v fits)
      (λ t vt size same room.
        let stored = store_at-Appends (s.size + length src) src [] vt (omega arith) (omega arith) in
        rw (append-nil src) at stored)
