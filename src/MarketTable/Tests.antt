-- ===== src/MarketTable/Tests.antt =====
-- The market table of rust_core/src/atomic_orderbook.rs at concrete inputs.
use arbees.Prelude.{◌+◌, ◌≤◌, ◌<◌, ◌≡◌, none, some, []}
use arbees.Orderbook.{Quote}
use arbees.MarketTable.{
  MarketPair, new, add_pair, get_id_by_kalshi, get_id_by_poly, get_metadata, market_count, run,
}
use arbees.MarketTable.Adding.{add_pair_lem, run-new-IsTable}

abbrev pair : MarketPair
pair = record {
  kalshi_ticker = "KXNBA";
  poly_condition_id = "0x12";
  description = "Lakers at Celtics";
  league = "nba";
}

abbrev quote : Quote
quote = record { yes_ask = 45; no_ask = 55; yes_size = 1000; no_size = 800 }

add_pair_lem_example :
    let (after, given) = add_pair new pair in
    (0 < 1024
      → (given ≡ some 0)
        × (market_count after ≡ market_count new + 1)
        × (get_metadata after 0 ≡ some pair)
        × (get_id_by_kalshi after "KXNBA" ≡ some 0)
        × (get_id_by_poly after "KXNBA" ≡ get_id_by_poly new "KXNBA"))
    × (1024 ≤ 0 → (given ≡ none) × (after ≡ new))
unfolding new run
add_pair_lem_example = add_pair_lem new pair 0 "KXNBA" (run-new-IsTable [])
