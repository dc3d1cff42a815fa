-- ===== src/Cutils/Strings/Runs.antt =====
-- Runs of the string functions of cxx/quickjs/cutils.c.
use flutter_quickjs.Prelude.{ℕ, List, [], ◌∷◌, ◌++◌, some, none, ◌≡◌, refl, arith, ◌↔◌}
use flutter_quickjs.Cutils.Strings.{pstrcpy, pstrcat, strstart, from_hex}
use flutter_quickjs.Cutils.Strings.Copy.{pstrcpy_lem, pstrcat_lem, text_over}
use flutter_quickjs.Cutils.Strings.Compare.{strstart-Starts}

hex_f : from_hex 0x66 ≡ some 15
unfolding from_hex
hex_f = refl

hex_none : from_hex 0x67 ≡ none
unfolding from_hex
hex_none = refl

pstrcpy_lem_example :
    pstrcpy (9 ∷ 9 ∷ 9 ∷ 9 ∷ []) 3 (0x61 ∷ 0x62 ∷ 0x63 ∷ [])
    ≡ some (text_over (0x61 ∷ 0x62 ∷ []) (9 ∷ 9 ∷ 9 ∷ 9 ∷ []))
pstrcpy_lem_example =
    pstrcpy_lem (9 ∷ 9 ∷ 9 ∷ 9 ∷ []) 3 (0x61 ∷ 0x62 ∷ 0x63 ∷ []) (omega arith) (omega arith)

pstrcat_lem_example :
    pstrcat (0x61 ∷ [] ++ 0 ∷ 9 ∷ 9 ∷ []) 3 (0x62 ∷ 0x63 ∷ [])
    ≡ some (0x61 ∷ [] ++ text_over (0x62 ∷ []) (0 ∷ 9 ∷ 9 ∷ []))
pstrcat_lem_example =
    pstrcat_lem (0x61 ∷ []) (9 ∷ 9 ∷ []) 3 (0x62 ∷ 0x63 ∷ []) ((λ e. absurd (omega arith)), tt)
      (omega arith) (omega arith)

abbrev one_two_three : List ℕ
one_two_three = 1 ∷ 2 ∷ 3 ∷ []

strstart-Starts_example :
    (strstart one_two_three (1 ∷ 2 ∷ []) ≡ some (3 ∷ [])) ↔ (one_two_three ≡ 1 ∷ 2 ∷ [] ++ 3 ∷ [])
strstart-Starts_example = strstart-Starts one_two_three (1 ∷ 2 ∷ []) (3 ∷ [])
