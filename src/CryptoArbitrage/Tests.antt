-- ===== src/CryptoArbitrage/Tests.antt =====
-- The theorem on services/crypto_shard_rust/src/signals/arbitrage.rs at an example.
use arbees.Prelude.{◌≡◌, refl, true, none, some, String, List, [], ◌∷◌, arith}
use arbees.Prelude.Int.{ℤ, pos, ◌+ℤ◌, ◌-ℤ◌, ◌*ℤ◌}
use arbees.Prelude.Float.{fixed}
use arbees.Engine.State.{ok}
use arbees.CryptoRisk.{
  CryptoRiskChecker, new, Queries, validate_trade, is_illiquid, check_asset, get_asset_exposure,
  cap, scale, check_total, get_total_crypto_exposure, check_duplicate, is_duplicate_trade,
}
use arbees.CryptoRisk.Exposure.{fixed-IsRounded}
use arbees.CryptoArbitrage.{
  CryptoPriceData, CryptoExecutionRequest, CryptoArbitrageDetector, Call, asset_prices, best_bid,
  best_ask, net_edge_pct, suggested, request_of, emit, detect_and_emit,
}
use arbees.CryptoArbitrage
use arbees.CryptoArbitrage.Requests.{IsOrder, IsArbitrage, detect_and_emit-IsArbitrage}

abbrev detector : CryptoArbitrageDetector ℤ
detector = CryptoArbitrage.new fixed (pos 30_000)

abbrev checker : CryptoRiskChecker ℤ
checker =
    new fixed (pos 30_000) (pos 5_000_000) (pos 20_000_000) (pos 50_000_000) true (pos 500_000)

abbrev queries : Queries ℤ
queries = record {
  asset_exposure = λ asset. some (some (some (pos 19_000_000)));
  total_exposure = some none;
  recent_trades = λ market. some none;
}

abbrev call : Call ℤ
call = record {
  event_id = "e";
  asset = "BTC";
  volatility_factor = pos 10_000;
  request_id = "r";
  now = 7;
}

abbrev price_on : String → ℤ → ℤ → CryptoPriceData ℤ
price_on platform bid ask = record {
  market_id = platform;
  platform = platform;
  asset = "BTC";
  yes_bid = bid;
  yes_ask = ask;
  mid_price = ask;
  yes_bid_size = none;
  yes_ask_size = none;
  total_liquidity = some (pos 600_000);
  timestamp = 3;
}

abbrev prices : List (String × CryptoPriceData ℤ)
prices =
    ("BTC|kalshi", price_on "kalshi" (pos 6_000) (pos 6_200))
    ∷ ("ETH|kalshi", price_on "kalshi" (pos 9_000) (pos 9_100))
    ∷ ("BTC|polymarket", price_on "polymarket" (pos 4_400) (pos 4_600))
    ∷ []

-- The limit of the asset leaves 100 dollars.
abbrev request : CryptoExecutionRequest ℤ
request =
    request_of fixed call (price_on "polymarket" (pos 4_400) (pos 4_600)) (pos 292_800)
      (pos 1_000_000)

emitted : (detect_and_emit fixed detector call prices queries checker).1 ≡ ok (some request)
unfolding detect_and_emit asset_prices best_bid best_ask emit net_edge_pct suggested request_of
    validate_trade new fixed is_illiquid check_asset get_asset_exposure cap scale check_total
    get_total_crypto_exposure check_duplicate is_duplicate_trade ◌+ℤ◌ ◌-ℤ◌ ◌*ℤ◌
emitted = refl

fixed-IsOrder : IsOrder fixed
unfolding fixed
fixed-IsOrder = record {
  lt_irrefl = λ a. ground arith;
  lt_trans = λ a b c h k. ground arith;
  cut = λ a b c n h k. ground arith;
}

detect_and_emit-IsArbitrage_example :
    IsArbitrage fixed detector call checker queries (asset_prices fixed "BTC" prices) request
unfolding fixed asset_prices
detect_and_emit-IsArbitrage_example =
    detect_and_emit-IsArbitrage fixed detector call prices queries checker request fixed-IsOrder
      fixed-IsRounded ((refl, refl), ((refl, refl), tt)) emitted
