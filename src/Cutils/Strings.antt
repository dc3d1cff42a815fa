-- ===== src/Cutils/Strings.antt =====
-- The string functions of cxx/quickjs/cutils.c, `pstrcpy`, `pstrcat`, `strstart` and `has_suffix`,
-- and `from_hex` of cutils.h. A string that is only read is the list of its bytes before the NUL;
-- a buffer is the list of all bytes of its block, and an access outside the block is `none`.
pub mod Copy
pub mod Compare
mod Runs
use flutter_quickjs.Prelude.{ℕ, zero, suc, ◌+◌, ◌-◌, Bool, true, false, ◌&&◌, Option, none, some}
use flutter_quickjs.Prelude.{List, [], ◌∷◌, ◌++◌, if◌then◌else◌, ltb, leb, ◌==◌, length, take, drop}

-- The loop of `pstrcpy` on the block from `q` on, where `room` is `buf + buf_size - 1 - q`.
unfoldable pub pstrcpy_loop : List ℕ → ℕ → List ℕ → Option (List ℕ)
pstrcpy_loop [] room str = none
pstrcpy_loop (x ∷ q) room [] = some (0 ∷ q)
pstrcpy_loop (x ∷ q) zero (c ∷ str) = some (0 ∷ q)
pstrcpy_loop (x ∷ q) (suc room) (c ∷ str) = elim (pstrcpy_loop q room str) [
  | none ↦ none
  | some r ↦ some (c ∷ r)
]

-- A `buf_size` that is not positive changes nothing.
unfoldable pub pstrcpy : List ℕ → ℕ → List ℕ → Option (List ℕ)
pstrcpy buf zero str = some buf
pstrcpy buf (suc room) str = pstrcpy_loop buf room str

-- The bytes before the first NUL of a block; `none` if it has no NUL.
unfoldable pub strlen : List ℕ → Option ℕ
strlen [] = none
strlen (c ∷ buf) =
    let rest = strlen buf in
    if c == 0 then some 0 else elim rest [ none ↦ none | some n ↦ some (suc n) ]

unfoldable pub pstrcat : List ℕ → ℕ → List ℕ → Option (List ℕ)
pstrcat buf buf_size s = elim (strlen buf) [
  | none ↦ none
  | some len ↦
      if ltb len buf_size
      then elim (pstrcpy (drop len buf) (buf_size - len) s) [
        | none ↦ none
        | some r ↦ some (take len buf ++ r)
      ]
      else some buf
]

-- The result 1 with `*ptr`, or 0. At the end of `str`, `*p` is the NUL, and no byte of `val` is.
unfoldable pub strstart : List ℕ → List ℕ → Option (List ℕ)
strstart p [] = some p
strstart [] (d ∷ q) = none
strstart (c ∷ p) (d ∷ q) = let rest = strstart p q in if c == d then rest else none

-- `!memcmp(a, b, n)` on blocks of the same `n` bytes.
unfoldable pub same_bytes : List ℕ → List ℕ → Bool
same_bytes [] [] = true
same_bytes (a ∷ xs) (b ∷ ys) = a == b && same_bytes xs ys
same_bytes [] (b ∷ ys) = false
same_bytes (a ∷ xs) [] = false

unfoldable pub has_suffix : List ℕ → List ℕ → Bool
has_suffix str suffix =
    leb (length suffix) (length str) && same_bytes (drop (length str - length suffix) str) suffix

-- `none` is -1.
unfoldable pub from_hex : ℕ → Option ℕ
from_hex c =
    if leb 0x30 c && leb c 0x39
    then some (c - 0x30)
    else if leb 0x41 c && leb c 0x46
    then some (c - 0x41 + 10)
    else if leb 0x61 c && leb c 0x66
    then some (c - 0x61 + 10)
    else none
