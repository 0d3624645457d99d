-- ===== src/CryptoRisk/Tests.antt =====
-- The theorems on services/crypto_shard_rust/src/signals/risk.rs at examples.
use arbees.Prelude.{◌≡◌, refl, ◌+◌, ◌%◌, ◌^◌, true, none, some, List, [], ◌∷◌, arith, length}
use arbees.Prelude.Int.{ℤ, pos}
use arbees.Prelude.Float.{fixed}
use arbees.CryptoRisk.{
  CryptoRiskChecker, new, Queries, Trade, accepted, refused, edge_below_minimum, query_failed,
  validate_trade, stats, block_rate, run, is_illiquid, check_asset, get_asset_exposure, cap, scale,
  check_total, get_total_crypto_exposure, check_duplicate, is_duplicate_trade, block,
}
use arbees.CryptoRisk.Exposure.{fixed-IsRounded, IsSafe, validate_trade-IsSafe}
use arbees.CryptoRisk.Stats.{blocked_of, run-stats}

abbrev checker : CryptoRiskChecker ℤ
checker =
    new fixed (pos 30_000) (pos 5_000_000) (pos 20_000_000) (pos 50_000_000) true (pos 500_000)

-- The asset is 100 dollars below its limit and all trades are 50 dollars below theirs.
abbrev queries : Queries ℤ
queries = record {
  asset_exposure = λ asset. some (some (some (pos 19_000_000)));
  total_exposure = some (some (some (pos 49_500_000)));
  recent_trades = λ market. some none;
}

abbrev trade : Trade ℤ
trade = record {
  asset = "BTC";
  market_id = "m";
  edge_pct = pos 40_000;
  suggested_size = pos 9_000_000;
  liquidity = some (pos 600_000);
  volatility_factor = pos 20_000;
}

trade-accepted : (validate_trade fixed checker queries trade).1 ≡ accepted (pos 500_000)
unfolding validate_trade new fixed is_illiquid check_asset get_asset_exposure cap scale check_total
    get_total_crypto_exposure check_duplicate is_duplicate_trade
trade-accepted = refl

validate_trade-IsSafe_example : IsSafe fixed checker queries trade (pos 500_000)
validate_trade-IsSafe_example =
    validate_trade-IsSafe fixed checker queries trade (pos 500_000) fixed-IsRounded trade-accepted

abbrev trades : List (Queries ℤ × Trade ℤ)
trades =
    (queries, record trade { edge_pct = pos 10_000 })
    ∷ (record queries { total_exposure = none }, trade)
    ∷ (queries, trade)
    ∷ []

-- Of three trades one is blocked, one meets an error of the database, and one passes.
trades-verdicts :
    (run fixed checker trades).1
    ≡ refused edge_below_minimum ∷ refused query_failed ∷ accepted (pos 500_000) ∷ []
unfolding run validate_trade new fixed is_illiquid check_asset get_asset_exposure cap scale
    check_total get_total_crypto_exposure check_duplicate is_duplicate_trade block
trades-verdicts = refl

-- A quarter is blocked.
quarter-blocked :
    block_rate fixed (record checker { trades_validated = 100; trades_blocked = 25 }) ≡ pos 250_000
unfolding block_rate new fixed
quarter-blocked = refl

run-stats_example :
    ((stats fixed (run fixed checker trades).0).trades_validated ≡ (0 + length trades) % 2 ^ 64)
    × ((stats fixed (run fixed checker trades).0).trades_blocked
        ≡ (0 + blocked_of ((run fixed checker trades).1)) % 2 ^ 64)
unfolding new
run-stats_example = run-stats fixed checker trades (ground arith) (ground arith)
