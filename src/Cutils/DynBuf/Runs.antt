-- ===== src/Cutils/DynBuf/Runs.antt =====
-- Runs of the dynamic buffer, and the theorems at concrete inputs.
use flutter_quickjs.Prelude.{replicate, List, ℕ, ◌-◌, []}
use flutter_quickjs.Cutils.DynBuf.{as_size, text_in}
use flutter_quickjs.Prelude.{◌^◌, ◌≡◌, refl, true, false, none, [], ◌∷◌}
use flutter_quickjs.Prelude.{arith}
use flutter_quickjs.Cutils.DynBuf.{DynBuf, Realloc, done, failed, dbuf_realloc, reserve}
use flutter_quickjs.Cutils.DynBuf.{dbuf_put, dbuf_put_self, dbuf_printf, dbuf_write, store_at}
use flutter_quickjs.Cutils.DynBuf.{memcpy, grown_size, dbuf_put_u32, le_bytes}
use flutter_quickjs.Cutils.DynBuf.Zeroing.{zeroing, zeroing-IsRealloc}
use flutter_quickjs.Cutils.DynBuf.Append.{IsValid, IsRealloc, Appends, dbuf_put-Appends}
use flutter_quickjs.Cutils.DynBuf.Write.{dbuf_put_self-Appends, dbuf_printf-Appends}
use flutter_quickjs.Cutils.DynBuf.Overwrite.{Writes, dbuf_write-Writes}

abbrev refusing : Realloc
refusing b n = none

refusing-IsRealloc : IsRealloc refusing
refusing-IsRealloc = record { sized = λ b n b' e. absurd (cc); keeps = λ b n b' e h. absurd (cc) }

abbrev three : DynBuf
three = record { buf = 7 ∷ 8 ∷ 9 ∷ 0 ∷ []; size = 3; allocated_size = 4; error = false }

three-IsValid : IsValid three
three-IsValid = omega arith

put_u32_grows :
    dbuf_put_u32 zeroing three 0x0102
    ≡ done (record {
      buf = 7 ∷ 8 ∷ 9 ∷ 2 ∷ 1 ∷ 0 ∷ 0 ∷ [];
      size = 7;
      allocated_size = 7;
      error = false;
    })
unfolding dbuf_put_u32 le_bytes dbuf_put reserve dbuf_realloc grown_size store_at memcpy
put_u32_grows = refl

put_refused : dbuf_put refusing three (1 ∷ 2 ∷ []) ≡ failed (record three { error = true })
unfolding dbuf_put reserve dbuf_realloc grown_size store_at memcpy
put_refused = refl

dbuf_put-Appends_example : Appends three 5 (1 ∷ 2 ∷ []) (dbuf_put zeroing three (1 ∷ 2 ∷ []))
dbuf_put-Appends_example =
    dbuf_put-Appends (1 ∷ 2 ∷ []) zeroing-IsRealloc three-IsValid (omega arith)

dbuf_put_self-Appends_example : Appends three 5 (8 ∷ 9 ∷ []) (dbuf_put_self zeroing three 1 2)
dbuf_put_self-Appends_example =
    dbuf_put_self-Appends 1 2 zeroing-IsRealloc three-IsValid (omega arith) (omega arith)

-- 130 bytes, for the long path
abbrev long_text : List ℕ
long_text = replicate 130 65

dbuf_printf-Appends_example : Appends three 134 long_text (dbuf_printf zeroing three 130 long_text)
dbuf_printf-Appends_example =
    dbuf_printf-Appends long_text zeroing-IsRealloc three-IsValid (omega arith) (omega arith)

-- A result -1 of `vsnprintf` takes the long path and makes the contents a byte shorter.
failed_text_shortens :
    dbuf_printf zeroing three (2 ^ 32 - 1) []
    ≡ done (record { buf = 7 ∷ 8 ∷ 9 ∷ 0 ∷ []; size = 2; allocated_size = 4; error = false })
unfolding dbuf_printf as_size text_in dbuf_put reserve dbuf_realloc grown_size store_at memcpy
failed_text_shortens = refl

dbuf_write-Writes_example : Writes three 2 (1 ∷ 2 ∷ []) (dbuf_write zeroing three 2 (1 ∷ 2 ∷ []))
dbuf_write-Writes_example =
    dbuf_write-Writes 2 (1 ∷ 2 ∷ []) zeroing-IsRealloc three-IsValid (omega arith) (omega arith)
