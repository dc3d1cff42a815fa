-- ===== src/Leb128/Runs.antt =====
-- Numbers of variable length of cxx/quickjs/quickjs.c on concrete bytes.
use flutter_quickjs.Prelude.{
  ℕ, ◌-◌, ◌^◌, ◌≡◌, arith, refl, false, none, some, List, [], ◌∷◌, ◌++◌, take, drop,
}
use flutter_quickjs.Cutils.DynBuf.{DynBuf}
use flutter_quickjs.Cutils.DynBuf.Zeroing.{zeroing, zeroing-IsRealloc}
use flutter_quickjs.Cutils.DynBuf.Append.{IsValid, contents}
use flutter_quickjs.Leb128.{
  dbuf_put_sleb128, get_leb128, get_leb128_loop, get_sleb128, zigzag, unzigzag,
}
use flutter_quickjs.Leb128.Stored.{get_sleb128-dbuf_put_sleb128}

-- The word of -300
abbrev minus_300 : ℕ
minus_300 = 2 ^ 32 - 300

abbrev one_byte : DynBuf
one_byte = record { buf = 9 ∷ 0 ∷ []; size = 1; allocated_size = 2; error = false }

one_byte-IsValid : IsValid one_byte
one_byte-IsValid = record { block = refl; within = omega arith }

zigzag_negative : zigzag minus_300 ≡ 599
unfolding zigzag
zigzag_negative = refl

two_groups : get_leb128 (215 ∷ 4 ∷ 7 ∷ []) ≡ some (599, 2)
unfolding get_leb128 get_leb128_loop
two_groups = refl

negative_back : get_sleb128 (215 ∷ 4 ∷ 7 ∷ []) ≡ some (minus_300, 2)
unfolding get_sleb128 get_leb128 get_leb128_loop unzigzag
negative_back = refl

no_last_group : get_leb128 (215 ∷ 132 ∷ []) ≡ none
unfolding get_leb128 get_leb128_loop
no_last_group = refl

six_groups : get_leb128 (128 ∷ 128 ∷ 128 ∷ 128 ∷ 128 ∷ 1 ∷ []) ≡ none
unfolding get_leb128 get_leb128_loop
six_groups = refl

get_sleb128-dbuf_put_sleb128_example :
    (t : DynBuf) × (dbuf_put_sleb128 zeroing one_byte minus_300 ≡ some t)
    × (t.error ≡ false
        → (take 1 (contents t) ≡ 9 ∷ [])
          × ((rest : List ℕ)
              → get_sleb128 (drop 1 (contents t) ++ rest) ≡ some (minus_300, t.size - 1)))
get_sleb128-dbuf_put_sleb128_example =
    get_sleb128-dbuf_put_sleb128 zeroing zeroing-IsRealloc one_byte minus_300 one_byte-IsValid
      (omega arith) (omega arith)
