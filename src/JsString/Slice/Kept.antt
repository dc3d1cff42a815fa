-- ===== src/JsString/Slice/Kept.antt =====
-- The characters that `js_sub_string` of cxx/quickjs/quickjs.c keeps.
use flutter_quickjs.Prelude.{
  ℕ, zero, suc, ◌+◌, ◌-◌, ◌/◌, ◌%◌, ◌^◌, ◌<◌, ◌≤◌, ◌≡◌, arith, refl, sym, ap, ap₂, ◌∙◌, bit_or,
  bit_or_digit, Bool, true, false, ◌&&◌, List, [], ◌∷◌, length, take, drop, map, All, ltb, ◌==◌,
  inl, inr, take_all, length-take, length-drop, same_or_other, Bool-cases,
}
use flutter_quickjs.JsString.{JsString, str8, str16, units}
use flutter_quickjs.JsString.Slice.{
  StringResult, string, exception, or_units, js_new_string8, js_new_string16, sub_wide,
  js_sub_string,
}

bit_or_covers_below : (n a b : ℕ) → a ≤ n → b ≤ n → (a ≤ bit_or a b) × (b ≤ bit_or a b)
bit_or_covers_below zero a b h k = (omega arith, omega arith)
bit_or_covers_below (suc n) a b h k =
    let (x, y) = bit_or_covers_below n (a / 2) (b / 2) (omega arith) (omega arith) in
    (omega (arith, bit_or_digit a b), omega (arith, bit_or_digit a b))

-- An or is not less than either of its arguments.
bit_or_covers : (a b : ℕ) → (a ≤ bit_or a b) × (b ≤ bit_or a b)
bit_or_covers a b = bit_or_covers_below (a + b) a b (omega arith) (omega arith)

or_units-fits :
    (c : ℕ) (us : List ℕ) → or_units c us < 2 ^ 8 → (c < 2 ^ 8) × All (λ u. u < 2 ^ 8) us
unfolding or_units
or_units-fits c [] h = (h, tt)
or_units-fits c (u ∷ us) h =
    let (both, rest) = or_units-fits (bit_or c u) us h in
    let (x, y) = bit_or_covers c u in (omega arith, (omega arith, rest))

narrowed : (us : List ℕ) → All (λ u. u < 2 ^ 8) us → map (λ (c : ℕ). c % 2 ^ 8) us ≡ us
narrowed [] h = refl
narrowed (u ∷ us) (h, hs) =
    let e : u % 2 ^ 8 ≡ u = omega arith in ap₂ (λ (x : ℕ) (xs : List ℕ). x ∷ xs) e (narrowed us hs)

module _ (grant : (max_len : ℕ) (is_wide_char : Bool) → Bool) where
  -- A string with the characters `cs`, or an exception because `grant` refuses that length.
  unfoldable pub Keeps : List ℕ → StringResult → Type 0
  Keeps cs (string q) = units q ≡ cs
  Keeps cs exception = (is_wide_char : Bool) × (grant (length cs) is_wide_char ≡ false)

  module _ (cs : List ℕ) (start len : ℕ) (inside : start + len ≤ length cs) where
    slice_length : length (take len (drop start cs)) ≡ len
    slice_length = omega (arith, length-take len (drop start cs), length-drop start cs)

    refused : (w : Bool) → grant len w ≡ false → Keeps (take len (drop start cs)) exception
    unfolding Keeps
    refused w h = (w, ap (λ (t : ℕ). grant t w) slice_length ∙ h)

    new_string8-Keeps : Keeps (take len (drop start cs)) (js_new_string8 grant (drop start cs) len)
    unfolding js_new_string8 Keeps units
    new_string8-Keeps = elim (same_or_other len 0) [
      | inl h ↦
          let zero_len : (len == 0) ≡ true = ground (arith, h) in
          let nothing : [] ≡ take len (drop start cs) = ground (arith, h) in
          rw (js_new_string8, zero_len) nothing
      | inr h ↦
          let some_len : (len == 0) ≡ false = ground (arith, h) in
          elim (Bool-cases (grant len false)) [
            | inl granted ↦ rw (js_new_string8, some_len, granted) refl
            | inr not_granted ↦
                rw (js_new_string8, some_len, not_granted) (refused false not_granted)
          ]
    ]

    new_string16-Keeps :
        Keeps (take len (drop start cs)) (js_new_string16 grant (drop start cs) len)
    unfolding js_new_string16 Keeps units
    new_string16-Keeps = elim (Bool-cases (grant len true)) [
      | inl granted ↦ rw (js_new_string16, granted) refl
      | inr not_granted ↦ rw (js_new_string16, not_granted) (refused true not_granted)
    ]

    sub_wide-Keeps : Keeps (take len (drop start cs)) (sub_wide grant cs start len)
    unfolding sub_wide Keeps units
    sub_wide-Keeps =
        let us : List ℕ = take len (drop start cs) in
        elim (Bool-cases (ltb 0xff (or_units 0 us))) [
          | inl wide ↦ rw (sub_wide, wide) new_string16-Keeps
          | inr narrow ↦
              let (_, small) = or_units-fits 0 us (ground arith) in
              elim (Bool-cases (grant len false)) [
                | inl granted ↦ rw (sub_wide, narrow, granted) (narrowed us small)
                | inr not_granted ↦ rw (sub_wide, narrow, not_granted) (refused false not_granted)
              ]
        ]

  whole-Keeps :
      (q : JsString) (cs : List ℕ) (start end : ℕ)
      → units q ≡ cs
      → (start == 0 && end == length cs) ≡ true
      → Keeps (take (end - start) (drop start cs)) (string q)
  unfolding Keeps
  whole-Keeps q cs zero end same h = same ∙ sym (take_all cs (end - 0) (ground arith))
  whole-Keeps q cs (suc start) end same h = absurd (ground arith)

  empty-Keeps :
      (cs : List ℕ) (start len : ℕ)
      → len ≡ 0
      → Keeps (take len (drop start cs)) (js_new_string8 grant [] len)
  unfolding Keeps js_new_string8 units
  empty-Keeps cs start zero h = refl
  empty-Keeps cs start (suc len) h = absurd (omega arith)

  -- Within a string, `js_sub_string` gives a string of the characters from `start` to `end`, also when
  -- it stores characters of 16 bits in 8, and fails only when no memory is granted for that length.
  pub js_sub_string-Keeps :
      (p : JsString) (start end : ℕ)
      → start ≤ end
      → end ≤ length (units p)
      → Keeps (take (end - start) (drop start (units p))) (js_sub_string grant p start end)
  unfolding js_sub_string units
  js_sub_string-Keeps (str8 cs) start end h k = elim (Bool-cases (start == 0 && end == length cs)) [
    | inl whole ↦ rw (js_sub_string, whole) (whole-Keeps (str8 cs) cs start end refl whole)
    | inr part ↦ rw (js_sub_string, part) (new_string8-Keeps cs start (end - start) (omega arith))
  ]
  js_sub_string-Keeps (str16 cs) start end h k =
      elim (Bool-cases (start == 0 && end == length cs)) [
        | inl whole ↦ rw (js_sub_string, whole) (whole-Keeps (str16 cs) cs start end refl whole)
        | inr part ↦ elim (Bool-cases (ltb 0 (end - start))) [
          | inl some_len ↦
              rw (js_sub_string, part, some_len)
                (sub_wide-Keeps cs start (end - start) (omega arith))
          | inr no_len ↦
              let zero_len : end - start ≡ 0 = ground (arith, no_len) in
              rw (js_sub_string, part, no_len) (empty-Keeps cs start (end - start) zero_len)
        ]
      ]
