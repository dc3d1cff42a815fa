-- ===== src/Regexp/Chars/Bounds.antt =====
-- The character steps of cxx/quickjs/libregexp.c stay in the subject, move, and read inside it.
use flutter_quickjs.Prelude.{ℕ, zero, suc, ◌+◌, ◌<◌, ◌≤◌, ◌≡◌, refl, arith, length, get_elem?}
use flutter_quickjs.Prelude.{
  none, some, List, [], ◌∷◌, inl, inr, Option-cases, Bool-cases, ltb, ◌∙◌,
}
use flutter_quickjs.Regexp.Chars.{
  CbufType, chars8, chars16, utf16, get_char, get_pair, get_prev_char,
}
use flutter_quickjs.Regexp.Chars.{get_prev_pair, prev_char, peek_char, peek_prev_char}
use flutter_quickjs.Regexp.Chars.Steps.{
  get_elem?_inside, prev_char-get_prev_char, peek_char-get_char, peek_prev_char-get_prev_char,
}

pub get_elem?_bound {ℓ} :
    {A : Type ℓ} (xs : List A) (i : ℕ) (a : A) → get_elem? xs i ≡ some a → i < length xs
get_elem?_bound [] i a e = absurd (cc)
get_elem?_bound (x ∷ xs) zero a e = omega arith
get_elem?_bound (x ∷ xs) (suc i) a e = omega (arith, get_elem?_bound xs i a e)

-- `GET_CHAR` moves on, to a position in the subject.
pub get_char_bounds :
    (ty : CbufType) (cbuf : List ℕ) (cbuf_end cptr c next : ℕ)
    → get_char ty cbuf cbuf_end cptr ≡ some (c, next)
    → (cptr < next) × (next ≤ length cbuf)
unfolding get_char get_pair
get_char_bounds ty cbuf cbuf_end cptr c next e = elim (Option-cases (get_elem? cbuf cptr)) [
  | inl n ↦ absurd (ground arith)
  | inr (u, p) ↦ elim (Option-cases (get_elem? cbuf (cptr + 1))) [
    | inl n ↦ ground (arith, get_elem?_bound cbuf cptr u p)
    | inr (w, q) ↦
        ground (arith, get_elem?_bound cbuf cptr u p, get_elem?_bound cbuf (cptr + 1) w q)
  ]
]

-- `GET_PREV_CHAR` and `PREV_CHAR` move back.
pub get_prev_char_below :
    (ty : CbufType) (cbuf : List ℕ) (cbuf_start cptr c next : ℕ)
    → get_prev_char ty cbuf cbuf_start cptr ≡ some (c, next)
    → next < cptr
unfolding get_prev_char get_prev_pair
get_prev_char_below ty cbuf cbuf_start zero c next e = absurd (cc)
get_prev_char_below ty cbuf cbuf_start (suc zero) c next e = ground arith
get_prev_char_below ty cbuf cbuf_start (suc (suc j)) c next e = ground arith

pub prev_char_below :
    (ty : CbufType) (cbuf : List ℕ) (cbuf_start cptr next : ℕ)
    → prev_char ty cbuf cbuf_start cptr ≡ some next
    → next < cptr
unfolding prev_char
prev_char_below ty cbuf cbuf_start zero next e = absurd (cc)
prev_char_below chars8 cbuf cbuf_start (suc i) next e = ground arith
prev_char_below chars16 cbuf cbuf_start (suc i) next e = ground arith
prev_char_below utf16 cbuf cbuf_start (suc zero) next e = ground arith
prev_char_below utf16 cbuf cbuf_start (suc (suc j)) next e = ground arith

-- Inside the subject each of them reads what is there.
pub get_char_reads :
    (ty : CbufType) (cbuf : List ℕ) (cbuf_end cptr : ℕ)
    → cptr < length cbuf
    → cbuf_end ≤ length cbuf
    → (r : ℕ × ℕ) × (get_char ty cbuf cbuf_end cptr ≡ some r)
unfolding get_char get_pair
get_char_reads ty cbuf cbuf_end cptr h k = elim (Option-cases (get_char ty cbuf cbuf_end cptr)) [
  | inl n ↦ absurd (
      let (u, p) = get_elem?_inside cbuf cptr h in
      elim (Bool-cases (ltb (cptr + 1) cbuf_end)) [
        | inl t ↦ let (w, q) = get_elem?_inside cbuf (cptr + 1) (ground arith) in ground arith
        | inr t ↦ ground arith
      ])
  | inr r ↦ r
]

no_read :
    (ty : CbufType) (cbuf : List ℕ) (cbuf_start i : ℕ)
    → suc i ≤ length cbuf
    → get_prev_char ty cbuf cbuf_start (suc i) ≡ none
    → ⊥
unfolding get_prev_char get_prev_pair
no_read ty cbuf cbuf_start zero k n =
    let (u, p) = get_elem?_inside cbuf zero (omega arith) in ground arith
no_read ty cbuf cbuf_start (suc j) k n =
    let (u, p) = get_elem?_inside cbuf (suc j) (omega arith) in
    let (w, q) = get_elem?_inside cbuf j (omega arith) in ground arith

pub get_prev_char_reads :
    (ty : CbufType) (cbuf : List ℕ) (cbuf_start cptr : ℕ)
    → 0 < cptr
    → cptr ≤ length cbuf
    → (r : ℕ × ℕ) × (get_prev_char ty cbuf cbuf_start cptr ≡ some r)
unfolding get_prev_char get_prev_pair
get_prev_char_reads ty cbuf cbuf_start zero h k = absurd (omega arith)
get_prev_char_reads ty cbuf cbuf_start (suc i) h k =
    elim (Option-cases (get_prev_char ty cbuf cbuf_start (suc i))) [
      | inl n ↦ absurd (no_read ty cbuf cbuf_start i k n)
      | inr r ↦ r
    ]

pub prev_char_reads :
    (ty : CbufType) (cbuf : List ℕ) (cbuf_start cptr : ℕ)
    → 0 < cptr
    → cptr ≤ length cbuf
    → (next : ℕ) × (prev_char ty cbuf cbuf_start cptr ≡ some next)
prev_char_reads ty cbuf cbuf_start cptr h k =
    let ((c, next), e) = get_prev_char_reads ty cbuf cbuf_start cptr h k in
    (next, prev_char-get_prev_char ty cbuf cbuf_start cptr c next e)

pub peek_char_reads :
    (ty : CbufType) (cbuf : List ℕ) (cptr : ℕ)
    → cptr < length cbuf
    → (c : ℕ) × (peek_char ty cbuf (length cbuf) cptr ≡ some c)
peek_char_reads ty cbuf cptr h =
    let ((c, next), e) = get_char_reads ty cbuf (length cbuf) cptr h (omega arith) in
    (c, peek_char-get_char ty cbuf (length cbuf) cptr ∙ rw e refl)

pub peek_prev_char_reads :
    (ty : CbufType) (cbuf : List ℕ) (cptr : ℕ)
    → 0 < cptr
    → cptr ≤ length cbuf
    → (c : ℕ) × (peek_prev_char ty cbuf 0 cptr ≡ some c)
peek_prev_char_reads ty cbuf cptr h k =
    let ((c, next), e) = get_prev_char_reads ty cbuf 0 cptr h k in
    (c, peek_prev_char-get_prev_char ty cbuf 0 cptr ∙ rw e refl)
