-- ===== src/Regexp/Chars.antt =====
-- How cxx/quickjs/libregexp.c reads characters: `is_word_char`, `is_line_terminator` and the macros
-- `GET_CHAR`, `PEEK_CHAR`, `PEEK_PREV_CHAR`, `GET_PREV_CHAR` and `PREV_CHAR`.
-- The subject is a list of code units, and a position counts units: `cptr += 2` on 16-bit units is
-- a step of 1. A read outside the subject is `none`, and so is a step back from its start, which
-- leaves the array, although `PREV_CHAR` on 8-bit units does it without a read.
pub mod Steps
pub mod Bounds
mod Runs
use flutter_quickjs.Prelude.{ℕ, zero, suc, ◌+◌, ◌*◌, ◌^◌, bit_and, bit_or, Bool, ◌&&◌, ◌||◌}
use flutter_quickjs.Prelude.{Option, none, some, List, if◌then◌else◌, ltb, leb, ◌==◌, get_elem?}

unfoldable pub is_line_terminator : ℕ → Bool
is_line_terminator c = c == 10 || c == 13 || c == 0x2028 || c == 0x2029

unfoldable pub is_word_char : ℕ → Bool
is_word_char c =
    leb 0x30 c && leb c 0x39 || leb 0x61 c && leb c 0x7a || leb 0x41 c && leb c 0x5a || c == 0x5f

-- `cbuf_type`: 0, 1 and 2.
pub data CbufType : Type 0 where
  chars8 chars16 utf16 : CbufType

-- `c >= 0xd800 && c < 0xdc00`
unfoldable pub is_lead : ℕ → Bool
is_lead c = leb 0xd800 c && ltb c 0xdc00

-- `c >= 0xdc00 && c < 0xe000`
unfoldable pub is_trail : ℕ → Bool
is_trail c = leb 0xdc00 c && ltb c 0xe000

-- `(((c & 0x3ff) << 10) | (__c1 & 0x3ff)) + 0x10000`
unfoldable pub surrogate_pair : ℕ → ℕ → ℕ
surrogate_pair c c1 = bit_or (bit_and c 0x3ff * 2 ^ 10) (bit_and c1 0x3ff) + 0x10000

-- The character at `cptr`, which has read the unit `c`, and the position after it.
unfoldable pub get_pair : List ℕ → ℕ → ℕ → ℕ → Option (ℕ × ℕ)
get_pair cbuf cbuf_end c cptr =
    if is_lead c && ltb (cptr + 1) cbuf_end
    then elim (get_elem? cbuf (cptr + 1)) [
      | none ↦ none
      | some c1 ↦ if is_trail c1 then some (surrogate_pair c c1, cptr + 2) else some (c, cptr + 1)
    ]
    else some (c, cptr + 1)

unfoldable pub get_char : CbufType → List ℕ → ℕ → ℕ → Option (ℕ × ℕ)
get_char cbuf_type cbuf cbuf_end cptr = elim (get_elem? cbuf cptr) [
  | none ↦ none
  | some c ↦ elim cbuf_type [
    | chars8 ↦ some (c, cptr + 1)
    | chars16 ↦ some (c, cptr + 1)
    | utf16 ↦ get_pair cbuf cbuf_end c cptr
  ]
]

unfoldable pub peek_char : CbufType → List ℕ → ℕ → ℕ → Option ℕ
peek_char cbuf_type cbuf cbuf_end cptr = elim (get_elem? cbuf cptr) [
  | none ↦ none
  | some c ↦ elim cbuf_type [
    | chars8 ↦ some c
    | chars16 ↦ some c
    | utf16 ↦
        if is_lead c && ltb (cptr + 1) cbuf_end
        then elim (get_elem? cbuf (cptr + 1)) [
          | none ↦ none
          | some c1 ↦ if is_trail c1 then some (surrogate_pair c c1) else some c
        ]
        else some c
  ]
]

unfoldable pub peek_prev_char : CbufType → List ℕ → ℕ → ℕ → Option ℕ
peek_prev_char cbuf_type cbuf cbuf_start zero = none
peek_prev_char cbuf_type cbuf cbuf_start (suc i) = elim (get_elem? cbuf i) [
  | none ↦ none
  | some c ↦ elim cbuf_type [
    | chars8 ↦ some c
    | chars16 ↦ some c
    | utf16 ↦
        if is_trail c && leb (cbuf_start + 2) (suc i)
        then elim i [
          | zero ↦ none
          | suc j ↦ elim (get_elem? cbuf j) [
            | none ↦ none
            | some c1 ↦ if is_lead c1 then some (surrogate_pair c1 c) else some c
          ]
        ]
        else some c
  ]
]

-- The character before `i + 1`, which has read the unit `c` at `i`, and the position of it.
unfoldable pub get_prev_pair : List ℕ → ℕ → ℕ → ℕ → Option (ℕ × ℕ)
get_prev_pair cbuf cbuf_start c zero = some (c, 0)
get_prev_pair cbuf cbuf_start c (suc j) =
    if is_trail c && ltb cbuf_start (suc j)
    then elim (get_elem? cbuf j) [
      | none ↦ none
      | some c1 ↦ if is_lead c1 then some (surrogate_pair c1 c, j) else some (c, suc j)
    ]
    else some (c, suc j)

unfoldable pub get_prev_char : CbufType → List ℕ → ℕ → ℕ → Option (ℕ × ℕ)
get_prev_char cbuf_type cbuf cbuf_start zero = none
get_prev_char cbuf_type cbuf cbuf_start (suc i) = elim (get_elem? cbuf i) [
  | none ↦ none
  | some c ↦ elim cbuf_type [
    | chars8 ↦ some (c, i)
    | chars16 ↦ some (c, i)
    | utf16 ↦ get_prev_pair cbuf cbuf_start c i
  ]
]

-- `PREV_CHAR` reads no unit unless the characters are UTF-16.
unfoldable pub prev_char : CbufType → List ℕ → ℕ → ℕ → Option ℕ
prev_char cbuf_type cbuf cbuf_start zero = none
prev_char chars8 cbuf cbuf_start (suc i) = some i
prev_char chars16 cbuf cbuf_start (suc i) = some i
prev_char utf16 cbuf cbuf_start (suc i) = elim (get_elem? cbuf i) [
  | none ↦ none
  | some c ↦ elim i [
    | zero ↦ some 0
    | suc j ↦
        if is_trail c && ltb cbuf_start (suc j)
        then elim (get_elem? cbuf j) [
          | none ↦ none
          | some c1 ↦ if is_lead c1 then some j else some (suc j)
        ]
        else some (suc j)
  ]
]
