-- ===== src/Cutils/DynBuf/Zeroing.antt =====
-- An owner of the memory of a dynamic buffer, for runs of the code that writes to one.
use flutter_quickjs.Prelude.{ℕ, ◌-◌, ◌≡◌, some, List, ◌++◌, arith, length, replicate, take}
use flutter_quickjs.Prelude.{
  length-append, length-replicate, length-take, ◌≤◌, take-append, take_all,
}
use flutter_quickjs.Cutils.DynBuf.{Realloc}
use flutter_quickjs.Cutils.DynBuf.Append.{IsRealloc}

-- An owner whose `realloc` never refuses, and fills what is new with zeros.
abbrev pub zeroing : Realloc
zeroing b n = some (take n b ++ replicate (n - length b) 0)

length-zeroed : (b : List ℕ) (n : ℕ) → length (take n b ++ replicate (n - length b) 0) ≡ n
length-zeroed b n = omega (
  arith,
  length-append (take n b) (replicate (n - length b) 0),
  length-take n b,
  length-replicate {A = ℕ} (n - length b) 0,
)

zeroing_sized : (b : List ℕ) (n : ℕ) (b' : List ℕ) → zeroing b n ≡ some b' → length b' ≡ n
zeroing_sized b n b' e = ground (arith, length-zeroed b n)

zeroing_keeps :
    (b : List ℕ) (n : ℕ) (b' : List ℕ)
    → zeroing b n ≡ some b'
    → length b ≤ n
    → take (length b) b' ≡ b
zeroing_keeps b n b' e h =
    ground (arith, take_all b n h, take-append b (replicate (n - length b) 0) (length b))

pub zeroing-IsRealloc : IsRealloc zeroing
zeroing-IsRealloc = record { sized = zeroing_sized; keeps = zeroing_keeps }
