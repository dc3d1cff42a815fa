-- ===== src/Cutils/Strings/Copy.antt =====
-- `pstrcpy` and `pstrcat` of cxx/quickjs/cutils.c cut what does not fit and end it with a NUL.
use flutter_quickjs.Prelude.{ℕ, zero, suc, ◌+◌, ◌-◌, ◌<◌, ◌≤◌, ◌≡◌, refl, arith, some}
use flutter_quickjs.Prelude.{List, [], ◌∷◌, ◌++◌, length, take, drop, All, ◌≢◌}
use flutter_quickjs.Prelude.{lt→ltb, take-append}
use flutter_quickjs.Cutils.Strings.{pstrcpy, pstrcpy_loop, strlen, pstrcat}

-- A block that begins with `text` and a NUL, and is `old` behind it.
pub text_over : List ℕ → List ℕ → List ℕ
text_over text old = text ++ 0 ∷ drop (suc (length text)) old

pstrcpy_loop_lem :
    (buf : List ℕ) (room : ℕ) (str : List ℕ)
    → room < length buf
    → pstrcpy_loop buf room str ≡ some (text_over (take room str) buf)
unfolding pstrcpy_loop text_over
pstrcpy_loop_lem [] room str h = absurd (omega arith)
pstrcpy_loop_lem (x ∷ q) zero [] h = refl
pstrcpy_loop_lem (x ∷ q) (suc room) [] h = refl
pstrcpy_loop_lem (x ∷ q) zero (c ∷ str) h = refl
pstrcpy_loop_lem (x ∷ q) (suc room) (c ∷ str) h =
    rw (pstrcpy_loop_lem q room str (omega arith), pstrcpy_loop) refl

-- If the buffer has `buf_size` bytes at least, and at least one, `pstrcpy` stays inside and leaves
-- the string, cut to `buf_size - 1` bytes, then a NUL, then what was there.
pub pstrcpy_lem :
    (buf : List ℕ) (buf_size : ℕ) (str : List ℕ)
    → 0 < buf_size
    → buf_size ≤ length buf
    → pstrcpy buf buf_size str ≡ some (text_over (take (buf_size - 1) str) buf)
unfolding pstrcpy
pstrcpy_lem buf zero str p h = absurd (omega arith)
pstrcpy_lem buf (suc room) str p h =
    let e : suc room - 1 ≡ room = omega arith in rw e (pstrcpy_loop_lem buf room str (omega arith))

strlen_lem : (t rest : List ℕ) → All (λ c. c ≢ 0) t → strlen (t ++ 0 ∷ rest) ≡ some (length t)
unfolding strlen
strlen_lem [] rest n = refl
strlen_lem (c ∷ t) rest n = ground (arith, strlen_lem t rest n.1, n.0)

drop_after : (t r : List ℕ) → drop (length t) (t ++ r) ≡ r
drop_after [] r = refl
drop_after (c ∷ t) r = drop_after t r

-- If the buffer holds the string `t`, the NUL and `rest`, which is at least `buf_size` bytes, and
-- `t` with its NUL fits in `buf_size`, then `pstrcat` stays inside and leaves `t`, then the other
-- string, cut to what `buf_size` leaves for it and a NUL, then the NUL and what was there.
pub pstrcat_lem :
    (t rest : List ℕ) (buf_size : ℕ) (s : List ℕ)
    → All (λ c. c ≢ 0) t
    → length t < buf_size
    → buf_size ≤ length t + suc (length rest)
    → pstrcat (t ++ 0 ∷ rest) buf_size s
      ≡ some (t ++ text_over (take (buf_size - length t - 1) s) (0 ∷ rest))
unfolding pstrcat
pstrcat_lem t rest buf_size s n h k =
    rw
      (
        strlen_lem t rest n,
        lt→ltb (length t) buf_size h,
        drop_after t (0 ∷ rest),
        pstrcpy_lem (0 ∷ rest) (buf_size - length t) s (omega arith) (omega arith),
        pstrcat,
        take-append t (0 ∷ rest) (length t) refl,
      )
      refl

-- A string that fills `buf_size` already is left alone.
pub pstrcat_full :
    (t rest : List ℕ) (buf_size : ℕ) (s : List ℕ)
    → All (λ c. c ≢ 0) t
    → buf_size ≤ length t
    → pstrcat (t ++ 0 ∷ rest) buf_size s ≡ some (t ++ 0 ∷ rest)
unfolding pstrcat
pstrcat_full t rest buf_size s n h = ground (arith, strlen_lem t rest n)
