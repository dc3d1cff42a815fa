-- ===== src/Unicode/Tables/Index.antt =====
-- The index of a table of cxx/quickjs/libunicode.c changes no answer of `lre_is_in_table`.
use flutter_quickjs.Prelude.{
  ℕ, zero, suc, ◌+◌, ◌-◌, ◌*◌, ◌/◌, ◌^◌, ◌<◌, ◌≤◌, ◌≡◌, arith, refl, ap, ◌∙◌, inl, inr, Bool, true,
  false, not, Option, none, some, List, [], ◌∷◌, if◌then◌else◌, ltb, leb, length, drop, length-drop,
  compare-cases,
}
use mathlib.Core.Path.{subst}
use flutter_quickjs.Unicode.Tables.{
  get_le24, entry_code, block, index_loop, entry_at, get_index_pos, Decoded, one, two, no_bytes,
  run_of_two, run_of_three, decode, advance, table_loop, lre_is_in_table,
}

-- What is left after the bytes of a run is shorter.
abbrev Shortens : List ℕ → Decoded → Type 0
Shortens p no_bytes = Unit
Shortens p (one len p') = length p' < length p
Shortens p (two len len' p') = length p' < length p

two-Shortens : (b b' : ℕ) (p : List ℕ) → Shortens (b ∷ p) (run_of_two b' p)
unfolding run_of_two
two-Shortens b b' [] = tt
two-Shortens b b' (p0 ∷ p) = omega arith

three-Shortens : (b b' : ℕ) (p : List ℕ) → Shortens (b ∷ p) (run_of_three b' p)
unfolding run_of_three
three-Shortens b b' [] = tt
three-Shortens b b' (p0 ∷ []) = tt
three-Shortens b b' (p0 ∷ p1 ∷ p) = omega arith

decode-Shortens : (p : List ℕ) → Shortens p (decode p)
unfolding decode
decode-Shortens [] = tt
decode-Shortens (b ∷ p) = choose (ltb b 64) (two (b / 8 + 1) _ p) _ (omega arith) (
    choose (leb 0x80 b) (one (b - 0x80 + 1) p) _ (omega arith) (
      choose (ltb b 0x60) (run_of_two b p) (run_of_three b p) (two-Shortens b b p)
        (three-Shortens b b p)))
  where
    choose :
        (test : Bool) (d e : Decoded)
        → Shortens (b ∷ p) d
        → Shortens (b ∷ p) e
        → Shortens (b ∷ p) (if test then d else e)
    choose true d e h k = h
    choose false d e h k = k

-- The state of the loop at `p` leads to the state at `q`, the runs between being skipped.
pub data Reaches : List ℕ → ℕ → Bool → List ℕ → ℕ → Bool → Type 0 where
  here : {p : List ℕ} {code : ℕ} {bit : Bool} → Reaches p code bit p code bit
  past_one :
      {p p' q : List ℕ} {code len end : ℕ} {bit final : Bool}
      → decode p ≡ one len p'
      → code + len < 2 ^ 32
      → Reaches p' (code + len) (not bit) q end final
      → Reaches p code bit q end final
  past_two :
      {p p' q : List ℕ} {code len len' end : ℕ} {bit final : Bool}
      → decode p ≡ two len len' p'
      → code + len + len' < 2 ^ 32
      → Reaches p' (code + len + len') bit q end final
      → Reaches p code bit q end final

Reaches-le :
    {p q : List ℕ} {code end : ℕ} {bit final : Bool} → Reaches p code bit q end final → code ≤ end
Reaches-le here = omega arith
Reaches-le (past_one e small r) = omega (arith, Reaches-le r)
Reaches-le (past_two e small r) = omega (arith, Reaches-le r)

module _ (c : ℕ) where
  -- More fuel than there are bytes changes nothing.
  loop_enough :
      (fuel more : ℕ) (p : List ℕ) (code : ℕ) (bit : Bool)
      → length p < fuel
      → length p < more
      → table_loop fuel c p code bit ≡ table_loop more c p code bit
  unfolding table_loop
  loop_enough zero more p code bit h k = absurd (omega arith)
  loop_enough (suc fuel) zero p code bit h k = absurd (omega arith)
  loop_enough (suc fuel) (suc more) p code bit h k =
      on_decoded
        (λ p' code' bit' s. loop_enough fuel more p' code' bit' (omega arith) (omega arith))
        (decode p) (decode-Shortens p)
    where
      Again : Type 0
      Again =
          (p' : List ℕ) (code' : ℕ) (bit' : Bool)
          → length p' < length p
          → table_loop fuel c p' code' bit' ≡ table_loop more c p' code' bit'

      round : ℕ → Decoded → Option Bool
      round f d = elim d [
        | no_bytes ↦ none
        | one len p' ↦ elim (ltb c (advance code len)) [
          | true ↦ some bit
          | false ↦ table_loop f c p' (advance code len) (not bit)
        ]
        | two len len' p' ↦ elim (ltb c (advance code len)) [
          | true ↦ some bit
          | false ↦
              let code' = advance (advance code len) len' in
              elim (ltb c code') [ true ↦ some (not bit) | false ↦ table_loop f c p' code' bit ]
        ]
      ]

      on_decoded : Again → (d : Decoded) → Shortens p d → round fuel d ≡ round more d
      on_decoded again no_bytes s = refl
      on_decoded again (one len p') s =
          ap (λ (t : Option Bool). elim (ltb c (advance code len)) [ true ↦ some bit | false ↦ t ])
            (again p' (advance code len) (not bit) s)
      on_decoded again (two len len' p') s =
          let code' = advance (advance code len) len' in
          ap
            (λ (t : Option Bool). elim (ltb c (advance code len)) [
              | true ↦ some bit
              | false ↦ elim (ltb c code') [ true ↦ some (not bit) | false ↦ t ]
            ])
            (again p' code' bit s)

  past : (code len : ℕ) → code + len < 2 ^ 32 → advance code len ≡ code + len
  unfolding advance
  past code len h = omega arith

  -- A test that stops the loop below `c` does not.
  goes_on :
      (code len : ℕ) (stopped next : Option Bool)
      → code + len < 2 ^ 32
      → code + len ≤ c
      → elim (ltb c (advance code len)) [ true ↦ stopped | false ↦ next ] ≡ next
  unfolding advance
  goes_on code len stopped next small h = ground arith

  -- The runs that end at `c` or before do not stop the loop.
  loop-Reaches :
      {p q : List ℕ} {code end : ℕ} {bit final : Bool}
      → Reaches p code bit q end final
      → end ≤ c
      → (fuel : ℕ) → length p < fuel
      → table_loop fuel c p code bit ≡ table_loop (suc (length q)) c q end final
  unfolding table_loop
  loop-Reaches {p = p} {code = code} {bit = bit} here h fuel k =
      loop_enough fuel (suc (length p)) p code bit k (omega arith)
  loop-Reaches (past_one e small r) h zero k = absurd (omega arith)
  loop-Reaches {p = p} {code = code} {bit = bit} (past_one {p' = p'} {len = len} e small r) h
        (suc fuel) k =
      let s : length p' < length p = subst (λ (t : Decoded). Shortens p t) e (decode-Shortens p) in
      rw (table_loop, e)
        (goes_on code len (some bit) (table_loop fuel c p' (advance code len) (not bit)) small
            (omega (arith, Reaches-le r))
          ∙ ap (λ (t : ℕ). table_loop fuel c p' t (not bit)) (past code len small)
          ∙ loop-Reaches r h fuel (omega arith))
  loop-Reaches (past_two e small r) h zero k = absurd (omega arith)
  loop-Reaches {p = p} {code = code} {bit = bit}
        (past_two {p' = p'} {len = len} {len' = len'} e small r) h (suc fuel) k =
      let s : length p' < length p = subst (λ (t : Decoded). Shortens p t) e (decode-Shortens p) in
      let end_le : code + len + len' ≤ c = omega (arith, Reaches-le r) in
      let first : advance code len ≡ code + len = past code len (omega arith) in
      rw (table_loop, e)
        (goes_on code len (some bit)
            (elim (ltb c (advance (advance code len) len')) [
              | true ↦ some (not bit)
              | false ↦ table_loop fuel c p' (advance (advance code len) len') bit
            ])
            (omega arith) (omega arith)
          ∙ goes_on (advance code len) len' (some (not bit))
              (table_loop fuel c p' (advance (advance code len) len') bit) (omega (arith, first))
              (omega (arith, first))
          ∙ ap (λ (t : ℕ). table_loop fuel c p' t bit)
              (ap (λ (t : ℕ). advance t len') first ∙ past (code + len) len' small)
          ∙ loop-Reaches r h fuel (omega arith))

-- Entry `i` of the index stands for the state of the loop at byte `(i + 1) * 32` and some more; the
-- last entry is where the table ends.
pub record IsIndex (table index_table : List ℕ) (n : ℕ) : Type 0 where
  pub entries : ℕ → ℕ
  pub several : 1 < n
  pub rises : entry_code (entries 0) ≤ entries (n - 1)
  pub reads : (i : ℕ) → i < n → get_le24 index_table (i * 3) ≡ some (entries i)
  pub reached :
      (i : ℕ)
      → suc i < n
      → Reaches table 0 false
          (drop ((i + 1) * 32 + entries i / 2 ^ 21) table)
          (entry_code (entries i))
          false

module _ (table index_table : List ℕ) (n : ℕ) (index : IsIndex table index_table n) (c : ℕ) where
  index_loop_lem :
      (fuel idx_min idx_max : ℕ)
      → idx_max < n
      → idx_min < idx_max
      → idx_max < fuel + idx_min
      → entry_code (index.entries idx_min) ≤ c
      → (idx : ℕ) × (index_loop c index_table fuel idx_min idx_max ≡ some idx)
        × (suc idx < n)
        × (entry_code (index.entries idx) ≤ c)
  unfolding index_loop
  index_loop_lem zero lo hi h k l below = absurd (omega arith)
  index_loop_lem (suc fuel) lo hi h k l below = elim (compare-cases 1 (hi - lo)) [
    | inl (e, m) ↦
        let idx : ℕ = (hi + lo) / 2 in
        elim (compare-cases c (entry_code (index.entries idx))) [
          | inl (e', above) ↦
              let (i, p, q, q') =
                index_loop_lem fuel lo idx (omega arith) (omega arith) (omega arith) below in
              (i, ground (arith, index.reads idx (omega arith), p), q, q')
          | inr above ↦
              let (i, p, q, q') =
                index_loop_lem fuel idx hi h (omega arith) (omega arith) (omega arith) in
              (i, ground (arith, index.reads idx (omega arith), p), q, q')
        ]
    | inr m ↦ (lo, ground arith, omega arith, below)
  ]

  -- The text of the source after the first entry is read, over what it is.
  index_pos_from :
      entry_code (index.entries 0) ≤ c
      → c < index.entries (n - 1)
      → (i : ℕ) × (suc i < n)
        × (entry_code (index.entries i) ≤ c)
        × (get_index_pos c index_table n
            ≡ block ((i + 1) * 32 + index.entries i / 2 ^ 21) (entry_code (index.entries i)))
  unfolding get_index_pos entry_at
  index_pos_from first last =
      let (i, p, inside, below) =
        index_loop_lem n 0 (n - 1) (omega (arith, index.several)) (omega (arith, index.several))
          (omega (arith, index.several)) first in
      (
        i,
        inside,
        below,
        ground (
          arith,
          index.reads 0 (omega (arith, index.several)),
          index.reads (n - 1) (omega (arith, index.several)),
          index.reads i (omega arith),
          p,
        ),
      )

  -- `lre_is_in_table` answers as the loop does from the start of the table, and false from where the
  -- last entry of the index says that the table ends. The index is that of the table.
  pub lre_is_in_table_lem : lre_is_in_table c table index_table n ≡ (
      if leb (index.entries (n - 1)) c
      then some false
      else table_loop (suc (length table)) c table 0 false)
  unfolding lre_is_in_table get_index_pos
  lre_is_in_table_lem = elim (compare-cases c (entry_code (index.entries 0))) [
    | inl (e, below) ↦ ground (arith, index.reads 0 (omega (arith, index.several)), index.rises)
    | inr first ↦ elim (compare-cases c (index.entries (n - 1))) [
      | inl (e, last) ↦
          let (i, inside, le, p) = index_pos_from (omega arith) last in
          ground (
            arith,
            p,
            loop-Reaches c (index.reached i inside) le (suc (length table)) (omega arith),
            loop_enough c (suc (length table))
                (suc (length (drop ((i + 1) * 32 + index.entries i / 2 ^ 21) table)))
                (drop ((i + 1) * 32 + index.entries i / 2 ^ 21) table)
                (entry_code (index.entries i)) false
                (omega (arith, length-drop ((i + 1) * 32 + index.entries i / 2 ^ 21) table))
                (omega arith),
          )
      | inr last ↦ ground (
        arith,
        index.reads 0 (omega (arith, index.several)),
        index.reads (n - 1) (omega (arith, index.several)),
      )
    ]
  ]
