-- ===== src/Cutils/Exchange/Runs.antt =====
-- Runs of the exchange functions of cxx/quickjs/cutils.c.
use flutter_quickjs.Prelude.{◌≡◌, refl, arith, inl}
use flutter_quickjs.Cutils.Exchange.{Memory, exchange_func, exchange_int64s, exchange_units}
use flutter_quickjs.Cutils.Exchange.{exchange_unit, load, store}
use flutter_quickjs.Cutils.Exchange.Exchanged.{exchanged}
use flutter_quickjs.Cutils.Exchange.Choice.{exchange_func-Exchanges}

-- Each byte holds its address.
abbrev addresses : Memory
addresses i = i

swapped : exchange_int64s 8 32 24 addresses 31 ≡ 55
unfolding exchange_int64s exchange_units exchange_unit load store
swapped = refl

-- Elements of 24 bytes in an array at an address that is a multiple of 8.
exchange_func-Exchanges_example :
    exchange_func 8 24 8 32 24 addresses 31 ≡ exchanged 8 32 24 addresses 31
exchange_func-Exchanges_example = exchange_func-Exchanges 8 24 8 32 addresses 31 (inl (omega arith))
