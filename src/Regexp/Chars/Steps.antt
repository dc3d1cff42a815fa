-- ===== src/Regexp/Chars/Steps.antt =====
-- The steps forward and backward of cxx/quickjs/libregexp.c undo each other, and the macros that
-- only look agree with those that move.
use flutter_quickjs.Prelude.{ℕ, zero, suc, ◌+◌, ◌<◌, ◌≤◌, Bool, true, false, ◌&&◌, length}
use flutter_quickjs.Prelude.{none, some, List, [], ◌∷◌, ltb, get_elem?, ◌≡◌, refl, sym, arith}
use flutter_quickjs.Regexp.Chars.{
  is_lead, is_trail, get_char, get_pair, get_prev_char, get_prev_pair,
}
use flutter_quickjs.Regexp.Chars.{
  peek_char, peek_prev_char, prev_char, CbufType, chars8, chars16, utf16,
}
use flutter_quickjs.Regexp.Chars.{surrogate_pair}
use flutter_quickjs.Prelude.{Option-cases, Bool-cases, ◌⊎◌, inl, inr}

-- Is `cptr`, after `cbuf_start`, between the two units of a surrogate pair?
unfoldable pub splits_pair : List ℕ → ℕ → ℕ → Bool
splits_pair cbuf cbuf_start zero = false
splits_pair cbuf cbuf_start (suc j) = ltb cbuf_start (suc j) && elim (get_elem? cbuf j) [
  | none ↦ false
  | some c1 ↦ is_lead c1 && elim (get_elem? cbuf (suc j)) [ none ↦ false | some c ↦ is_trail c ]
]

pub get_elem?_inside :
    (cbuf : List ℕ) (i : ℕ) → i < length cbuf → (c : ℕ) × (get_elem? cbuf i ≡ some c)
get_elem?_inside [] i h = absurd (omega arith)
get_elem?_inside (x ∷ cbuf) zero h = (x, refl)
get_elem?_inside (x ∷ cbuf) (suc i) h = get_elem?_inside cbuf i (omega arith)

-- There is a unit before a unit.
get_elem?_before :
    (cbuf : List ℕ) (i c : ℕ)
    → get_elem? cbuf (suc i) ≡ some c
    → (d : ℕ) × (get_elem? cbuf i ≡ some d)
get_elem?_before [] i c e = absurd (cc)
get_elem?_before (x ∷ cbuf) zero c e = (x, refl)
get_elem?_before (x ∷ cbuf) (suc i) c e = get_elem?_before cbuf i c e

-- A UTF-16 step takes one unit, or the two of a surrogate pair.
get_char-cases :
    (cbuf : List ℕ) (cbuf_end cptr c next : ℕ)
    → get_char utf16 cbuf cbuf_end cptr ≡ some (c, next)
    → ((get_elem? cbuf cptr ≡ some c) × (next ≡ suc cptr))
      ⊎ ((c0 : ℕ) × (c1 : ℕ) × (get_elem? cbuf cptr ≡ some c0)
          × (get_elem? cbuf (suc cptr) ≡ some c1)
          × (is_lead c0 ≡ true)
          × (is_trail c1 ≡ true)
          × (c ≡ surrogate_pair c0 c1)
          × (next ≡ suc (suc cptr)))
unfolding get_char get_pair
get_char-cases cbuf cbuf_end cptr c next e = elim (Option-cases (get_elem? cbuf cptr)) [
  | inl n ↦ absurd (ground arith)
  | inr (c0, p) ↦ elim (Option-cases (get_elem? cbuf (suc cptr))) [
    | inl n ↦ inl (ground arith)
    | inr (c1, q) ↦ elim (Bool-cases (is_lead c0 && ltb (cptr + 1) cbuf_end && is_trail c1)) [
      | inl t ↦ inr (c0, c1, p, q, ground arith, ground arith, ground arith, ground arith)
      | inr t ↦ inl (ground arith)
    ]
  ]
]

back_unit :
    (cbuf : List ℕ) (cbuf_start i c : ℕ)
    → get_elem? cbuf i ≡ some c
    → get_prev_char utf16 cbuf cbuf_start (suc i) ≡ get_prev_pair cbuf cbuf_start c i
unfolding get_prev_char
back_unit cbuf cbuf_start i c p = rw (p, get_prev_char) refl

back_pair :
    (cbuf : List ℕ) (cbuf_start j c0 c1 : ℕ)
    → cbuf_start ≤ j
    → get_elem? cbuf j ≡ some c0
    → is_lead c0 ≡ true
    → is_trail c1 ≡ true
    → get_prev_pair cbuf cbuf_start c1 (suc j) ≡ some (surrogate_pair c0 c1, j)
unfolding get_prev_pair
back_pair cbuf cbuf_start j c0 c1 b p l t = ground arith

back_single :
    (cbuf : List ℕ) (cbuf_start j d c : ℕ)
    → get_elem? cbuf j ≡ some d
    → get_elem? cbuf (suc j) ≡ some c
    → splits_pair cbuf cbuf_start (suc j) ≡ false
    → get_prev_pair cbuf cbuf_start c (suc j) ≡ some (c, suc j)
unfolding get_prev_pair splits_pair
back_single cbuf cbuf_start j d c p q s = ground arith

-- At a position that is not inside a surrogate pair and not before the start, `GET_PREV_CHAR` from
-- where `GET_CHAR` has stepped to gives the same character and comes back.
pub get_prev_char-get_char :
    (cbuf_type : CbufType) (cbuf : List ℕ) (cbuf_end cbuf_start cptr c next : ℕ)
    → cbuf_start ≤ cptr
    → splits_pair cbuf cbuf_start cptr ≡ false
    → get_char cbuf_type cbuf cbuf_end cptr ≡ some (c, next)
    → get_prev_char cbuf_type cbuf cbuf_start next ≡ some (c, cptr)
unfolding get_char get_prev_char get_pair get_prev_pair splits_pair is_lead is_trail
get_prev_char-get_char chars8 cbuf cbuf_end cbuf_start cptr c next b s e = ground arith
get_prev_char-get_char chars16 cbuf cbuf_end cbuf_start cptr c next b s e = ground arith
get_prev_char-get_char utf16 cbuf cbuf_end cbuf_start zero c next b s e =
    elim (get_char-cases cbuf cbuf_end zero c next e) [
      | inl (p, n) ↦ rw (n, back_unit cbuf cbuf_start zero c p) refl
      | inr (c0, c1, p, q, l, t, m, n) ↦
          rw (n, m, back_unit cbuf cbuf_start 1 c1 q) (back_pair cbuf cbuf_start zero c0 c1 b p l t)
    ]
get_prev_char-get_char utf16 cbuf cbuf_end cbuf_start (suc cptr) c next b s e =
    elim (get_char-cases cbuf cbuf_end (suc cptr) c next e) [
      | inl (p, n) ↦
          let (d, r) = get_elem?_before cbuf cptr c p in
          rw (n, back_unit cbuf cbuf_start (suc cptr) c p)
            (back_single cbuf cbuf_start cptr d c r p s)
      | inr (c0, c1, p, q, l, t, m, n) ↦
          rw (n, m, back_unit cbuf cbuf_start (suc (suc cptr)) c1 q)
            (back_pair cbuf cbuf_start (suc cptr) c0 c1 b p l t)
    ]

-- `PEEK_CHAR` sees the character that `GET_CHAR` takes.
pub peek_char-get_char :
    (cbuf_type : CbufType) (cbuf : List ℕ) (cbuf_end cptr : ℕ)
    → peek_char cbuf_type cbuf cbuf_end cptr
      ≡ elim (get_char cbuf_type cbuf cbuf_end cptr) [ none ↦ none | some r ↦ some r.0 ]
unfolding get_char peek_char get_pair
peek_char-get_char cbuf_type cbuf cbuf_end cptr = ground arith

-- `PEEK_PREV_CHAR` sees the character that `GET_PREV_CHAR` takes.
pub peek_prev_char-get_prev_char :
    (cbuf_type : CbufType) (cbuf : List ℕ) (cbuf_start cptr : ℕ)
    → peek_prev_char cbuf_type cbuf cbuf_start cptr
      ≡ elim (get_prev_char cbuf_type cbuf cbuf_start cptr) [ none ↦ none | some r ↦ some r.0 ]
unfolding get_prev_char peek_prev_char get_prev_pair
peek_prev_char-get_prev_char cbuf_type cbuf cbuf_start zero = refl
peek_prev_char-get_prev_char cbuf_type cbuf cbuf_start (suc zero) = ground arith
peek_prev_char-get_prev_char cbuf_type cbuf cbuf_start (suc (suc j)) = ground arith

-- Where `GET_PREV_CHAR` steps back, `PREV_CHAR` steps back as far.
pub prev_char-get_prev_char :
    (cbuf_type : CbufType) (cbuf : List ℕ) (cbuf_start cptr c next : ℕ)
    → get_prev_char cbuf_type cbuf cbuf_start cptr ≡ some (c, next)
    → prev_char cbuf_type cbuf cbuf_start cptr ≡ some next
unfolding get_prev_char prev_char get_prev_pair
prev_char-get_prev_char chars8 cbuf cbuf_start zero c next e = absurd (cc)
prev_char-get_prev_char chars16 cbuf cbuf_start zero c next e = absurd (cc)
prev_char-get_prev_char utf16 cbuf cbuf_start zero c next e = absurd (cc)
prev_char-get_prev_char chars8 cbuf cbuf_start (suc i) c next e = ground arith
prev_char-get_prev_char chars16 cbuf cbuf_start (suc i) c next e = ground arith
prev_char-get_prev_char utf16 cbuf cbuf_start (suc zero) c next e = ground arith
prev_char-get_prev_char utf16 cbuf cbuf_start (suc (suc j)) c next e = ground arith

-- Backward, too, a step takes one unit or a pair, and it does not stop inside a pair.
get_prev_char-cases :
    (cbuf : List ℕ) (cbuf_start cptr c next : ℕ)
    → get_prev_char utf16 cbuf cbuf_start cptr ≡ some (c, next)
    → ((get_elem? cbuf next ≡ some c)
        × (cptr ≡ suc next)
        × (splits_pair cbuf cbuf_start next ≡ false))
      ⊎ ((c0 : ℕ) × (c1 : ℕ) × (get_elem? cbuf next ≡ some c0)
          × (get_elem? cbuf (suc next) ≡ some c1)
          × (is_lead c0 ≡ true)
          × (is_trail c1 ≡ true)
          × (c ≡ surrogate_pair c0 c1)
          × (cptr ≡ suc (suc next)))
unfolding get_prev_char get_prev_pair splits_pair
get_prev_char-cases cbuf cbuf_start zero c next e = absurd (cc)
get_prev_char-cases cbuf cbuf_start (suc zero) c next e = inl (ground arith)
get_prev_char-cases cbuf cbuf_start (suc (suc j)) c next e =
    elim (Option-cases (get_elem? cbuf (suc j))) [
      | inl n ↦ absurd (ground arith)
      | inr (c1, q) ↦ elim (Option-cases (get_elem? cbuf j)) [
        | inl n ↦ absurd (let (d, r) = get_elem?_before cbuf j c1 q in cc)
        | inr (c0, p) ↦ elim (Bool-cases (is_trail c1 && ltb cbuf_start (suc j) && is_lead c0)) [
          | inl t ↦ inr (
            c0,
            c1,
            ground arith,
            ground arith,
            ground arith,
            ground arith,
            ground arith,
            ground arith,
          )
          | inr t ↦ inl (ground arith)
        ]
      ]
    ]

fore_single :
    (cbuf : List ℕ) (cbuf_end cbuf_start i c : ℕ)
    → cbuf_start < suc i
    → suc i ≤ cbuf_end
    → cbuf_end ≤ length cbuf
    → get_elem? cbuf i ≡ some c
    → splits_pair cbuf cbuf_start (suc i) ≡ false
    → get_char utf16 cbuf cbuf_end i ≡ some (c, suc i)
unfolding get_char get_pair splits_pair
fore_single cbuf cbuf_end cbuf_start i c b h w p s = elim (Bool-cases (ltb (suc i) cbuf_end)) [
  | inl l ↦ let (d, q) = get_elem?_inside cbuf (suc i) (ground arith) in ground arith
  | inr l ↦ ground arith
]

fore_pair :
    (cbuf : List ℕ) (cbuf_end i c0 c1 : ℕ)
    → suc i < cbuf_end
    → get_elem? cbuf i ≡ some c0
    → get_elem? cbuf (suc i) ≡ some c1
    → is_lead c0 ≡ true
    → is_trail c1 ≡ true
    → get_char utf16 cbuf cbuf_end i ≡ some (surrogate_pair c0 c1, suc (suc i))
unfolding get_char get_pair
fore_pair cbuf cbuf_end i c0 c1 h p q l t = ground arith

-- At a position behind the start, at most the end, that is not inside a surrogate pair,
-- `GET_CHAR` from where `GET_PREV_CHAR` has stepped to gives the same character and comes back, if
-- the units up to the end are there.
pub get_char-get_prev_char :
    (cbuf_type : CbufType) (cbuf : List ℕ) (cbuf_end cbuf_start cptr c next : ℕ)
    → cbuf_start < cptr
    → cptr ≤ cbuf_end
    → cbuf_end ≤ length cbuf
    → splits_pair cbuf cbuf_start cptr ≡ false
    → get_prev_char cbuf_type cbuf cbuf_start cptr ≡ some (c, next)
    → get_char cbuf_type cbuf cbuf_end next ≡ some (c, cptr)
unfolding get_char get_prev_char
get_char-get_prev_char chars8 cbuf cbuf_end cbuf_start zero c next b h w s e = absurd (cc)
get_char-get_prev_char chars16 cbuf cbuf_end cbuf_start zero c next b h w s e = absurd (cc)
get_char-get_prev_char chars8 cbuf cbuf_end cbuf_start (suc i) c next b h w s e = ground arith
get_char-get_prev_char chars16 cbuf cbuf_end cbuf_start (suc i) c next b h w s e = ground arith
get_char-get_prev_char utf16 cbuf cbuf_end cbuf_start cptr c next b h w s e =
    elim (get_prev_char-cases cbuf cbuf_start cptr c next e) [
      | inl (p, n, r) ↦ rw n (
          fore_single cbuf cbuf_end cbuf_start next c (omega arith) (omega arith) w p
            (rw (sym n) s))
      | inr (c0, c1, p, q, l, t, m, n) ↦
          rw (n, m) (fore_pair cbuf cbuf_end next c0 c1 (omega arith) p q l t)
    ]
