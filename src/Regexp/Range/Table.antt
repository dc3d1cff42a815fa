-- ===== src/Regexp/Range/Table.antt =====
-- The table of ranges that cxx/quickjs/libregexp.c writes for a character set: what is read at each
-- index, that its ranges are sorted, and which characters they hold.
use flutter_quickjs.Prelude.{ℕ, zero, suc, ◌+◌, ◌-◌, ◌*◌, ◌/◌, ◌^◌, ◌<◌, ◌≤◌, ◌≡◌, refl, arith}
use flutter_quickjs.Prelude.{some, List, [], ◌∷◌, ◌++◌, ◌⊎◌}
use flutter_quickjs.Prelude.{length, ◌∙◌}
use flutter_quickjs.Cutils.DynBuf.{le_bytes}
use flutter_quickjs.Regexp.Range.{get_u16, emit_ranges, high_code}
use flutter_quickjs.Unicode.CharRange.Members.{StrictlyRises}

-- How many intervals the points are, and the bounds of interval `i` as the table has them.
unfoldable pub pairs : List ℕ → ℕ
pairs (a ∷ b ∷ pt) = suc (pairs pt)
pairs (a ∷ []) = 0
pairs [] = 0

unfoldable pub low_of : List ℕ → ℕ → ℕ
low_of (a ∷ b ∷ pt) zero = a
low_of (a ∷ b ∷ pt) (suc i) = low_of pt i
low_of (a ∷ []) i = 0
low_of [] i = 0

unfoldable pub high_of : List ℕ → ℕ → ℕ
high_of (a ∷ b ∷ pt) zero = high_code b
high_of (a ∷ b ∷ pt) (suc i) = high_of pt i
high_of (a ∷ []) i = 0
high_of [] i = 0

-- The points fit in halfwords, but that an upper bound may be `UINT32_MAX`.
abbrev pub Narrow : List ℕ → Type 0
Narrow (a ∷ b ∷ pt) = (a ≤ 0xffff) × ((b ≤ 0xffff) ⊎ (b ≡ 2 ^ 32 - 1)) × Narrow pt
Narrow (a ∷ []) = Unit
Narrow [] = Unit

pub pairs_lem : (pts : List ℕ) → length pts / 2 ≡ pairs pts
unfolding pairs
pairs_lem [] = refl
pairs_lem (a ∷ []) = refl
pairs_lem (a ∷ b ∷ pt) = omega (arith, pairs_lem pt)

pub halfword_read : (v : ℕ) (t : List ℕ) → v ≤ 0xffff → get_u16 (le_bytes 2 v ++ t) 0 ≡ some v
unfolding get_u16 le_bytes
halfword_read v t h = ground arith

-- A read past four bytes.
skip4 :
    (w x y z : ℕ) (t : List ℕ) (j : ℕ)
    → get_u16 (w ∷ x ∷ y ∷ z ∷ t) (suc (suc (suc (suc j)))) ≡ get_u16 t j
unfolding get_u16
skip4 w x y z t j = refl

skip2 : (w x : ℕ) (t : List ℕ) → get_u16 (w ∷ x ∷ t) 2 ≡ get_u16 t 0
unfolding get_u16
skip2 w x t = refl

high_code_narrow : (a b : ℕ) → a < b → (b ≤ 0xffff) ⊎ (b ≡ 2 ^ 32 - 1) → high_code b ≤ 0xffff
unfolding high_code
high_code_narrow a b h n = ground arith

pub table_low :
    (pts post : List ℕ) (lo i : ℕ)
    → StrictlyRises lo pts
    → Narrow pts
    → i < pairs pts
    → get_u16 (emit_ranges pts ++ post) (i * 4) ≡ some (low_of pts i)
unfolding emit_ranges pairs low_of le_bytes
table_low [] post lo i r n h = absurd (omega arith)
table_low (a ∷ []) post lo i r n h = absurd (omega arith)
table_low (a ∷ b ∷ pt) post lo zero r n h = halfword_read a _ n.0
table_low (a ∷ b ∷ pt) post lo (suc i) r n h =
    let e : suc i * 4 ≡ suc (suc (suc (suc (i * 4)))) = omega arith in
    rw e (
      skip4 _ _ _ _ (emit_ranges pt ++ post) (i * 4)
      ∙ table_low pt post (suc b) i r.1.1 n.2 (omega arith))

pub table_high :
    (pts post : List ℕ) (lo i : ℕ)
    → StrictlyRises lo pts
    → Narrow pts
    → i < pairs pts
    → get_u16 (emit_ranges pts ++ post) (i * 4 + 2) ≡ some (high_of pts i)
unfolding emit_ranges pairs high_of le_bytes
table_high [] post lo i r n h = absurd (omega arith)
table_high (a ∷ []) post lo i r n h = absurd (omega arith)
table_high (a ∷ b ∷ pt) post lo zero r n h =
    skip2 _ _ (le_bytes 2 (high_code b) ++ emit_ranges pt ++ post)
    ∙ halfword_read (high_code b) (emit_ranges pt ++ post) (high_code_narrow a b r.1.0 n.1)
table_high (a ∷ b ∷ pt) post lo (suc i) r n h =
    let e : suc i * 4 + 2 ≡ suc (suc (suc (suc (i * 4 + 2)))) = omega arith in
    rw e (
      skip4 _ _ _ _ (emit_ranges pt ++ post) (i * 4 + 2)
      ∙ table_high pt post (suc b) i r.1.1 n.2 (omega arith))

-- The ranges rise and do not meet.
pub table_rises :
    (pts : List ℕ) (lo i : ℕ) → StrictlyRises lo pts → i < pairs pts → lo ≤ low_of pts i
unfolding pairs low_of
table_rises [] lo i r h = absurd (omega arith)
table_rises (a ∷ []) lo i r h = absurd (omega arith)
table_rises (a ∷ b ∷ pt) lo zero r h = r.0
table_rises (a ∷ b ∷ pt) lo (suc i) r h =
    let (ra, (rb, rt)) = r in omega (arith, table_rises pt (suc b) i rt (omega arith))

pub table_low-Narrow : (pts : List ℕ) (i : ℕ) → Narrow pts → i < pairs pts → low_of pts i ≤ 0xffff
unfolding pairs low_of
table_low-Narrow [] i n h = absurd (omega arith)
table_low-Narrow (a ∷ []) i n h = absurd (omega arith)
table_low-Narrow (a ∷ b ∷ pt) zero n h = n.0
table_low-Narrow (a ∷ b ∷ pt) (suc i) n h = table_low-Narrow pt i n.2 (omega arith)

high_code_low : (a b : ℕ) → a < b → a ≤ 0xffff → (b ≤ 0xffff) ⊎ (b ≡ 2 ^ 32 - 1) → a ≤ high_code b
unfolding high_code
high_code_low a b h k n = ground arith

pub table_ordered :
    (pts : List ℕ) (lo i : ℕ)
    → StrictlyRises lo pts
    → Narrow pts
    → i < pairs pts
    → low_of pts i ≤ high_of pts i
unfolding pairs low_of high_of
table_ordered [] lo i r n h = absurd (omega arith)
table_ordered (a ∷ []) lo i r n h = absurd (omega arith)
table_ordered (a ∷ b ∷ pt) lo zero r n h = high_code_low a b r.1.0 n.0 n.1
table_ordered (a ∷ b ∷ pt) lo (suc i) r n h = table_ordered pt (suc b) i r.1.1 n.2 (omega arith)

-- An upper bound below which another interval begins is an ordinary one.
high_code_next : (b c : ℕ) → b < c → c ≤ 0xffff → 0 < b → high_code b ≡ b - 1
unfolding high_code
high_code_next b c h k p = ground arith

pub table_apart :
    (pts : List ℕ) (lo i : ℕ)
    → StrictlyRises lo pts
    → Narrow pts
    → suc i < pairs pts
    → high_of pts i < low_of pts (suc i)
unfolding pairs low_of high_of
table_apart [] lo i r n h = absurd (omega arith)
table_apart (a ∷ []) lo i r n h = absurd (omega arith)
table_apart (a ∷ b ∷ pt) lo zero r n h =
    let (ra, (rb, rt)) = r in
    let above = table_rises pt (suc b) 0 rt (omega arith) in
    let least = table_low-Narrow pt 0 n.2 (omega arith) in
    omega (arith, high_code_next b (low_of pt 0) (omega arith) least (omega arith))
table_apart (a ∷ b ∷ pt) lo (suc i) r n h = table_apart pt (suc b) i r.1.1 n.2 (omega arith)

pub high_of-Narrow :
    (pts : List ℕ) (lo i : ℕ)
    → StrictlyRises lo pts
    → Narrow pts
    → i < pairs pts
    → high_of pts i ≤ 0xffff
unfolding pairs high_of
high_of-Narrow [] lo i r n h = absurd (omega arith)
high_of-Narrow (a ∷ []) lo i r n h = absurd (omega arith)
high_of-Narrow (a ∷ b ∷ pt) lo zero r n h = high_code_narrow a b r.1.0 n.1
high_of-Narrow (a ∷ b ∷ pt) lo (suc i) r n h = high_of-Narrow pt (suc b) i r.1.1 n.2 (omega arith)
