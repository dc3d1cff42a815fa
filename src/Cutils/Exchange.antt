-- ===== src/Cutils/Exchange.antt =====
-- The exchange functions of cxx/quickjs/cutils.c, which `rqsort` swaps elements with, and the choice
-- among them. Memory is a function from addresses to bytes. A unit is loaded and stored as its
-- bytes; `size_t` loops count down to 0.
pub mod Exchanged
pub mod Choice
mod Runs
use flutter_quickjs.Prelude.{ℕ, zero, suc, ◌+◌, ◌-◌, ◌/◌, bit_and, bit_or, ◌&&◌, ◌||◌}
use flutter_quickjs.Prelude.{if◌then◌else◌, ltb, leb, ◌==◌}

abbrev pub Memory : Type 0
Memory = ℕ → ℕ

-- The bytes from `p` on, and a store of `width` bytes at `p`.
unfoldable pub load : ℕ → Memory → Memory
load p mem i = mem (p + i)

unfoldable pub store : ℕ → ℕ → Memory → Memory → Memory
store width p value mem i = if leb p i && ltb i (p + width) then value (i - p) else mem i

-- `t = *ap; *ap = *bp; *bp = t;`
unfoldable pub exchange_unit : ℕ → ℕ → ℕ → Memory → Memory
exchange_unit width a b mem = store width b (load a mem) (store width a (load b mem) mem)

-- `count` rounds of that, with `ap++` and `bp++`.
unfoldable pub exchange_units : ℕ → ℕ → ℕ → ℕ → Memory → Memory
exchange_units width zero a b mem = mem
exchange_units width (suc count) a b mem =
    exchange_units width count (a + width) (b + width) (exchange_unit width a b mem)

-- The type `exchange_f`.
abbrev pub ExchangeF : Type 0
ExchangeF = ℕ → ℕ → ℕ → Memory → Memory

unfoldable pub exchange_bytes : ExchangeF
exchange_bytes a b size mem = exchange_units 1 size a b mem

unfoldable pub exchange_one_byte : ExchangeF
exchange_one_byte a b size mem = exchange_unit 1 a b mem

unfoldable pub exchange_int16s : ExchangeF
exchange_int16s a b size mem = exchange_units 2 (size / 2) a b mem

unfoldable pub exchange_one_int16 : ExchangeF
exchange_one_int16 a b size mem = exchange_unit 2 a b mem

unfoldable pub exchange_int32s : ExchangeF
exchange_int32s a b size mem = exchange_units 4 (size / 4) a b mem

unfoldable pub exchange_one_int32 : ExchangeF
exchange_one_int32 a b size mem = exchange_unit 4 a b mem

unfoldable pub exchange_int64s : ExchangeF
exchange_int64s a b size mem = exchange_units 8 (size / 8) a b mem

unfoldable pub exchange_one_int64 : ExchangeF
exchange_one_int64 a b size mem = exchange_unit 8 a b mem

-- `t = ap[0]; u = ap[1]; ap[0] = bp[0]; ap[1] = bp[1]; bp[0] = t; bp[1] = u;`
unfoldable pub exchange_pair : ℕ → ℕ → Memory → Memory
exchange_pair a b mem =
    let mem1 = store 8 a (load b mem) mem in
    let mem2 = store 8 (a + 8) (load (b + 8) mem1) mem1 in
    let mem3 = store 8 b (load a mem) mem2 in store 8 (b + 8) (load (a + 8) mem) mem3

unfoldable pub exchange_pairs : ℕ → ℕ → ℕ → Memory → Memory
exchange_pairs zero a b mem = mem
exchange_pairs (suc count) a b mem = exchange_pairs count (a + 16) (b + 16) (exchange_pair a b mem)

unfoldable pub exchange_int128s : ExchangeF
exchange_int128s a b size mem = exchange_pairs (size / 16) a b mem

unfoldable pub exchange_one_int128 : ExchangeF
exchange_one_int128 a b size mem = exchange_pair a b mem

unfoldable pub exchange_func : ℕ → ℕ → ExchangeF
exchange_func base size =
    let k = bit_and (bit_or base size) 15 in
    if k == 0
    then (if size == 16 then exchange_one_int128 else exchange_int128s)
    else if k == 8
    then (if size == 8 then exchange_one_int64 else exchange_int64s)
    else if k == 4 || k == 12
    then (if size == 4 then exchange_one_int32 else exchange_int32s)
    else if k == 2 || k == 6 || k == 10 || k == 14
    then (if size == 2 then exchange_one_int16 else exchange_int16s)
    else if size == 1
    then exchange_one_byte
    else exchange_bytes
