-- ===== src/Leb128.antt =====
-- The numbers of variable length in cxx/quickjs/quickjs.c: `dbuf_put_leb128`, `dbuf_put_sleb128`,
-- `get_leb128` and `get_sleb128`.
-- An `int32_t` is its word of 32 bits. The callers of the writers ignore what `dbuf_putc` returns, and
-- so do these: a byte that cannot be appended leaves the buffer with its error flag, and the next one
-- is tried. `none` is an access out of bounds of a writer, and the result -1 of a reader.
pub mod RoundTrip
pub mod Written
pub mod Stored
mod Runs
use flutter_quickjs.Prelude.{
  ℕ, zero, suc, ◌+◌, ◌-◌, ◌*◌, ◌/◌, ◌%◌, ◌^◌, bit_and, bit_or, bit_xor, Bool, true, false, Option,
  none, some, List, [], ◌∷◌, if◌then◌else◌, ◌==◌,
}
use flutter_quickjs.Cutils.DynBuf.{DynBuf, Realloc, Outcome, done, failed, fault, dbuf_putc}

-- The buffer that is left when the result is ignored.
unfoldable pub ignoring : Outcome → Option DynBuf
ignoring (done s) = some s
ignoring (failed s) = some s
ignoring fault = none

-- The loop, which ends when `v >>= 7` is 0.
unfoldable pub leb128_loop : Realloc → (fuel : ℕ) → DynBuf → ℕ → Option DynBuf
leb128_loop realloc zero s v = none
leb128_loop realloc (suc fuel) s v =
    let a = bit_and v 0x7f in
    let v' = v / 2 ^ 7 in
    elim (v' == 0) [
      | true ↦ ignoring (dbuf_putc realloc s a)
      | false ↦ elim (ignoring (dbuf_putc realloc s (bit_or a 0x80))) [
        | none ↦ none
        | some s' ↦ leb128_loop realloc fuel s' v'
      ]
    ]

-- A word of 32 bits has five groups of seven bits at most.
unfoldable pub dbuf_put_leb128 : Realloc → DynBuf → ℕ → Option DynBuf
dbuf_put_leb128 realloc s v = leb128_loop realloc 5 s v

-- `(2 * v) ^ -(v >> 31)`
unfoldable pub zigzag : ℕ → ℕ
zigzag v = bit_xor (2 * v % 2 ^ 32) ((2 ^ 32 - v / 2 ^ 31) % 2 ^ 32)

unfoldable pub dbuf_put_sleb128 : Realloc → DynBuf → ℕ → Option DynBuf
dbuf_put_sleb128 realloc s v = dbuf_put_leb128 realloc s (zigzag v)

-- The loop `for(i = 0; i < 5; i++)`, with the rounds that are left: the value, and `ptr - buf`.
unfoldable pub get_leb128_loop : (rounds i v : ℕ) → List ℕ → Option (ℕ × ℕ)
get_leb128_loop zero i v p = none
get_leb128_loop (suc rounds) i v [] = none
get_leb128_loop (suc rounds) i v (a ∷ p) =
    let v' = bit_or v (bit_and a 0x7f * 2 ^ (i * 7) % 2 ^ 32) in
    elim (bit_and a 0x80 == 0) [
      | true ↦ some (v', suc i)
      | false ↦ get_leb128_loop rounds (suc i) v' p
    ]

-- The bytes from `buf` to `buf_end`.
unfoldable pub get_leb128 : List ℕ → Option (ℕ × ℕ)
get_leb128 buf = get_leb128_loop 5 0 0 buf

-- `(val >> 1) ^ -(val & 1)`
unfoldable pub unzigzag : ℕ → ℕ
unzigzag val = bit_xor (val / 2) ((2 ^ 32 - bit_and val 1) % 2 ^ 32)

unfoldable pub get_sleb128 : List ℕ → Option (ℕ × ℕ)
get_sleb128 buf = elim (get_leb128 buf) [ none ↦ none | some r ↦ some (unzigzag r.0, r.1) ]
