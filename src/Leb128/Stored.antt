-- ===== src/Leb128/Stored.antt =====
-- `dbuf_put_sleb128` and then `get_sleb128` in the buffer, of cxx/quickjs/quickjs.c.
use flutter_quickjs.Prelude.{
  ℕ, ◌+◌, ◌-◌, ◌^◌, ◌<◌, ◌≡◌, arith, false, some, List, ◌++◌, length, drop, take, length-append, ap,
  ◌∙◌, sym,
}
use mathlib.Core.Path.{subst}
use flutter_quickjs.Prelude.{drop-append, take-append}
use flutter_quickjs.Cutils.DynBuf.{DynBuf, Realloc}
use flutter_quickjs.Cutils.DynBuf.Append.{IsValid, IsRealloc, contents}
use flutter_quickjs.Leb128.{dbuf_put_sleb128, zigzag, get_sleb128}
use flutter_quickjs.Leb128.RoundTrip.{leb128, get_sleb128-leb128, length-leb128_bytes, zigzag-lt}
use flutter_quickjs.Leb128.Written.{
  putc_all-Written, dbuf_put_leb128_lem, leb128_bytes_small, length-contents,
}

module _ (s t : DynBuf) (v : ℕ) (vs : IsValid s) (vt : IsValid t) (h : v < 2 ^ 32)
    (same : contents t ≡ contents s ++ leb128 (zigzag v)) where
  read_back :
      (rest : List ℕ) → get_sleb128 (drop s.size (contents t) ++ rest) ≡ some (v, t.size - s.size)
  read_back rest =
      let bytes : List ℕ = leb128 (zigzag v) in
      let len : length (contents s) ≡ s.size = length-contents s vs in
      let behind : drop s.size (contents t) ≡ bytes =
        ap (drop s.size) same
        ∙ subst (λ (n : ℕ). drop n (contents s ++ bytes) ≡ bytes) len
            (drop-append (contents s) bytes) in
      let grown : length bytes ≡ t.size - s.size =
        omega
          (arith, len, length-contents t vt, ap length same, length-append (contents s) bytes) in
      ap (λ (b : List ℕ). get_sleb128 (b ++ rest)) behind
      ∙ get_sleb128-leb128 v rest h
      ∙ ap (λ (n : ℕ). some (v, n)) grown

module _ (realloc : Realloc) (r : IsRealloc realloc) where
  -- `dbuf_put_sleb128` in a valid buffer of less than 2^64 - 5 bytes accesses no memory that is not
  -- its own, and unless the error flag of the buffer is set afterwards, the earlier bytes are kept and
  -- `get_sleb128` on what is behind them, whatever follows, gives the word of 32 bits back and takes
  -- all the bytes that were appended.
  pub get_sleb128-dbuf_put_sleb128 :
      (s : DynBuf) (v : ℕ)
      → IsValid s
      → s.size + 5 < 2 ^ 64
      → v < 2 ^ 32
      → (t : DynBuf) × (dbuf_put_sleb128 realloc s v ≡ some t)
        × (t.error ≡ false
            → (take s.size (contents t) ≡ contents s)
              × ((rest : List ℕ)
                  → get_sleb128 (drop s.size (contents t) ++ rest) ≡ some (v, t.size - s.size)))
  unfolding dbuf_put_sleb128
  get_sleb128-dbuf_put_sleb128 s v vs fits h =
      let bytes : List ℕ = leb128 (zigzag v) in
      let (t, e, written) =
        putc_all-Written realloc r bytes s vs (omega (arith, length-leb128_bytes 5 (zigzag v)))
          (leb128_bytes_small 5 (zigzag v)) in
      (
        t,
        dbuf_put_leb128_lem realloc (zigzag v) s (zigzag-lt v h) ∙ e,
        λ clear.
            let (_, same) = written.all_there clear in
            (
              ap (take s.size) same
                  ∙ take-append (contents s) bytes s.size (sym (length-contents s vs)),
              read_back s t v vs written.valid h same,
            ),
      )
