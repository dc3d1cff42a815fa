-- ===== src/Unicode/CaseConv/Lookup.antt =====
-- What the search of `lre_case_conv` in cxx/quickjs/libunicode.c finds.
use flutter_quickjs.Prelude.{
  ℕ, zero, suc, ◌+◌, ◌-◌, ◌/◌, ◌<◌, ◌≤◌, ◌≡◌, arith, refl, sym, ap, ◌∙◌, inl, inr, Option, none,
  some, List, [], ◌∷◌, length, get_elem?, get_or, compare-cases,
}
use mathlib.Core.Path.{subst}
use flutter_quickjs.Intervals.{Sorted, high_before, all_below, all_above}
use flutter_quickjs.Unicode.CaseConv.{
  CaseTables, run_code, run_len, Search, found, absent, fault, find_run, search_table, convert_run,
  lre_case_conv,
}

module _ (table : List ℕ) where
  abbrev first : ℕ → ℕ
  first i = run_code (get_or table i 0)

  abbrev last : ℕ → ℕ
  last i = run_code (get_or table i 0) + run_len (get_or table i 0) - 1

  -- The runs are not empty, rise, and do not meet.
  abbrev pub IsRunTable : Type 0
  IsRunTable =
      ((i : ℕ) → i < length table → 0 < run_len (get_or table i 0))
      × Sorted first last (length table)

  -- Run `idx`, which is `v`, holds `c`.
  pub record Holds (c idx v : ℕ) : Type 0 where
    pub inside : idx < length table
    pub is_run : get_elem? table idx ≡ some v
    pub from : run_code v ≤ c
    pub to : c < run_code v + run_len v

  -- What a search tells of `c`.
  abbrev pub Tells : ℕ → Search → Type 0
  Tells c (found idx v) = Holds c idx v
  Tells c absent = (idx v : ℕ) → ¬ Holds c idx v
  Tells c fault = ⊥

pub get_or-is_some : (xs : List ℕ) (i : ℕ) → i < length xs → get_elem? xs i ≡ some (get_or xs i 0)
get_or-is_some [] i h = absurd (omega arith)
get_or-is_some (x ∷ xs) zero h = refl
get_or-is_some (x ∷ xs) (suc i) h = get_or-is_some xs i (omega arith)

pub some-get_or : (xs : List ℕ) (i v : ℕ) → get_elem? xs i ≡ some v → get_or xs i 0 ≡ v
some-get_or [] i v e = absurd (cc)
some-get_or (x ∷ xs) zero v e = cc
some-get_or (x ∷ xs) (suc i) v e = some-get_or xs i v e

module _ (table : List ℕ) (runs : IsRunTable table) (c : ℕ) where
  module _ (fuel lo top : ℕ) where
    abbrev middle : ℕ
    middle = (top - 1 + lo) / 2

    ends : top ≤ lo → find_run table c (suc fuel) lo top ≡ absent
    unfolding find_run
    ends h = ground arith

    module _ (v : ℕ) (reads : get_elem? table middle ≡ some v) (ordered : lo < top) where
      goes_left :
          c < run_code v → find_run table c (suc fuel) lo top ≡ find_run table c fuel lo middle
      unfolding find_run
      goes_left h = ground arith

      goes_right :
          run_code v + run_len v ≤ c
          → find_run table c (suc fuel) lo top ≡ find_run table c fuel (middle + 1) top
      unfolding find_run
      goes_right h = ground arith

      stops :
          run_code v ≤ c
          → c < run_code v + run_len v
          → find_run table c (suc fuel) lo top ≡ found middle v
      unfolding find_run
      stops h k = ground arith

  nothing_left :
      (lo top : ℕ)
      → top ≤ lo
      → ((i : ℕ) → i < lo → last table i < c)
      → ((i : ℕ) → top ≤ i → i < length table → c < first table i)
      → Tells table c absent
  nothing_left lo top h below above idx v holds =
      let is : get_or table idx 0 ≡ v = some-get_or table idx v holds.is_run in
      elim (compare-cases idx lo) [
        | inl (e, k) ↦
            let b : last table idx < c = below idx k in
            omega (arith, runs.0 idx holds.inside, b, ap run_code is, ap run_len is, holds.to)
        | inr k ↦
            let b : c < first table idx = above idx (omega arith) holds.inside in
            omega (arith, b, ap run_code is, holds.from)
      ]

  find_run-Tells :
      (fuel lo top : ℕ)
      → top ≤ length table
      → top < fuel + lo
      → lo ≤ top
      → ((i : ℕ) → i < lo → last table i < c)
      → ((i : ℕ) → top ≤ i → i < length table → c < first table i)
      → Tells table c (find_run table c fuel lo top)
  find_run-Tells zero lo top h f l below above = absurd (omega arith)
  find_run-Tells (suc fuel) lo top h f l below above = elim (compare-cases lo top) [
    | inr m ↦
        subst (Tells table c) (sym (ends fuel lo top (omega arith)))
          (nothing_left lo top (omega arith) below above)
    | inl (e, m) ↦
        let idx : ℕ = (top - 1 + lo) / 2 in
        let v : ℕ = get_or table idx 0 in
        let inside : idx < length table = omega arith in
        let reads : get_elem? table idx ≡ some v = get_or-is_some table idx inside in
        elim (compare-cases c (run_code v)) [
          | inl (e', k) ↦ subst (Tells table c) (sym (goes_left fuel lo top v reads m k)) (
              find_run-Tells fuel lo idx (omega arith) (omega arith) (omega arith) below
                (λ i g j. all_above (first table) (last table) (length table) runs.1 c idx i j k g))
          | inr k ↦ elim (compare-cases c (run_code v + run_len v)) [
            | inl (e'', g) ↦
                subst (Tells table c) (sym (stops fuel lo top v reads m (omega arith) g))
                  (record { inside = inside; is_run = reads; from = omega arith; to = g })
            | inr g ↦
                let past : last table idx < c = omega (arith, runs.0 idx inside) in
                subst (Tells table c) (sym (goes_right fuel lo top v reads m (omega arith))) (
                  find_run-Tells fuel (idx + 1) top h (omega arith) (omega arith)
                    (λ i j.
                      all_below (first table) (last table) (length table) runs.1 c i idx inside past
                        (omega arith))
                    above)
          ]
        ]
  ]

  pub search-Tells : Tells table c (search_table table c)
  search-Tells =
      find_run-Tells (suc (length table)) 0 (length table) (omega arith) (omega arith) (omega arith)
        (λ i h. absurd (omega arith)) (λ i h k. absurd (omega arith))

  -- At most one run holds a character.
  no_run_before : (idx idx' v v' : ℕ) → Holds table c idx v → Holds table c idx' v' → idx < idx' → ⊥
  no_run_before idx idx' v v' h h' k =
      let is : get_or table idx 0 ≡ v = some-get_or table idx v h.is_run in
      let is' : get_or table idx' 0 ≡ v' = some-get_or table idx' v' h'.is_run in
      let b : last table idx < first table idx' =
        high_before (first table) (last table) (length table) runs.1 idx idx' h'.inside k in
      omega (
        arith,
        runs.0 idx h.inside,
        b,
        ap run_code is,
        ap run_len is,
        ap run_code is',
        h.to,
        h'.from,
      )

  same_run : (idx idx' v v' : ℕ) → Holds table c idx v → Holds table c idx' v' → idx ≡ idx'
  same_run idx idx' v v' h h' = elim (compare-cases idx idx') [
    | inl (e, k) ↦ absurd (no_run_before idx idx' v v' h h' k)
    | inr (inl (e, k)) ↦ k
    | inr (inr (e, k)) ↦ absurd (no_run_before idx' idx v' v h' h k)
  ]

-- What `lre_case_conv` is to return for `c`: what its run says if a run holds `c`, and `c` if none.
abbrev pub Converts : CaseTables → (c conv_type : ℕ) → Option (List ℕ) → Type 0
Converts t c conv_type result =
    ((idx v : ℕ) → Holds t.case_conv_table1 c idx v → result ≡ convert_run t c conv_type idx v)
    × (((idx v : ℕ) → ¬ Holds t.case_conv_table1 c idx v) → result ≡ some (c ∷ []))

module _ (t : CaseTables) (c : ℕ) where
  -- The result of `lre_case_conv` over that of the search.
  unfoldable pub by_search : ℕ → Search → Option (List ℕ)
  by_search conv_type s = elim s [
    | fault ↦ none
    | absent ↦ some (c ∷ [])
    | found idx v ↦ convert_run t c conv_type idx v
  ]

  pub searched :
      (conv_type : ℕ)
      → 128 ≤ c
      → lre_case_conv t c conv_type ≡ by_search conv_type (search_table t.case_conv_table1 c)
  unfolding lre_case_conv by_search
  searched conv_type h = ground arith

module _ (t : CaseTables) (runs : IsRunTable t.case_conv_table1) (c : ℕ) where
  by_search-Converts :
      (conv_type : ℕ) (s : Search)
      → Tells t.case_conv_table1 c s
      → Converts t c conv_type (by_search t c conv_type s)
  unfolding by_search
  by_search-Converts conv_type fault h = absurd h
  by_search-Converts conv_type absent h = (λ idx v holds. absurd (h idx v holds), λ h'. refl)
  by_search-Converts conv_type (found idx v) h = (
    λ idx' v' holds.
        let e : idx ≡ idx' = same_run t.case_conv_table1 runs c idx idx' v v' h holds in
        let e' : v ≡ v' =
          sym (some-get_or t.case_conv_table1 idx v h.is_run)
          ∙ ap (λ (i : ℕ). get_or t.case_conv_table1 i 0) e
          ∙ some-get_or t.case_conv_table1 idx' v' holds.is_run in
        rw (e, e') refl,
    λ h'. absurd (h' idx v h),
  )

  -- From 128 on, where the runs of the table rise and do not meet, the binary search of
  -- `lre_case_conv` finds the run that holds `c`, and the result is what that run says; if no run
  -- holds `c`, the result is `c`.
  pub lre_case_conv-Converts :
      (conv_type : ℕ) → 128 ≤ c → Converts t c conv_type (lre_case_conv t c conv_type)
  lre_case_conv-Converts conv_type h =
      subst (Converts t c conv_type) (sym (searched t c conv_type h)) (
        by_search-Converts conv_type (search_table t.case_conv_table1 c)
          (search-Tells t.case_conv_table1 runs c))
