-- ===== src/Orderbook/Tests.antt =====
-- The order book of rust_core/src/atomic_orderbook.rs at concrete inputs.
use arbees.Prelude.{ℕ, zero, suc, ◌<◌, ◌^◌, ◌≡◌, refl, ◌++◌, none, List, [], ◌∷◌, arith, All}
use arbees.Orderbook.{
  Quote, yes_side, no_side, Shared, kalshi_fee_cents, pack_orderbook, unpack_orderbook, yes_updated,
  no_updated, load, act_on, updated, tick, run,
}
use arbees.Orderbook.Packing.{unpack_orderbook-pack_orderbook}
use arbees.Orderbook.Interleaving.{
  updated_all, calls_of, pending_of, run_serial, on_quote_all, run_on_quote, Fits,
}

abbrev quote : Quote
quote = record { yes_ask = 45; no_ask = 55; yes_size = 1000; no_size = 800 }

fee_at_half : kalshi_fee_cents 50 ≡ 2
unfolding kalshi_fee_cents
fee_at_half = refl

unpack_orderbook-pack_orderbook_example :
    (pack_orderbook quote < 2 ^ 64) × (unpack_orderbook (pack_orderbook quote) ≡ quote)
unpack_orderbook-pack_orderbook_example = unpack_orderbook-pack_orderbook quote (omega arith)

-- Two threads: the first loads, the second writes its side, and the first must load again.
abbrev race : Shared
race = record {
  word = 12_666_609_985_421_312;
  threads =
      record { pending = yes_side 46 900 ∷ []; snapshot = none }
      ∷ record { pending = no_side 53 700 ∷ []; snapshot = none }
      ∷ [];
}

abbrev schedule : List ℕ
schedule = 0 ∷ 1 ∷ 1 ∷ 0 ∷ 0 ∷ 0 ∷ []

race_order : (run schedule race).1 ≡ (1, no_side 53 700) ∷ (0, yes_side 46 900) ∷ []
unfolding run tick act_on updated yes_updated no_updated
race_order = refl

run_serial_example :
    let (end, calls) = run schedule race in
    (end.word ≡ updated_all calls 12_666_609_985_421_312)
    × ((i : ℕ) → pending_of i race ≡ calls_of i calls ++ pending_of i end)
run_serial_example = run_serial schedule race

race-Fits : (i : ℕ) → All Fits (pending_of i race)
unfolding pending_of
race-Fits zero = omega arith
race-Fits (suc zero) = omega arith
race-Fits (suc (suc i)) = tt

run_on_quote_example :
    let (end, calls) = run schedule race in
    load end.word ≡ on_quote_all calls (load 12_666_609_985_421_312)
run_on_quote_example = run_on_quote schedule race (omega arith) race-Fits
