-- ===== src/CryptoArbitrage.antt =====
-- services/crypto_shard_rust/src/signals/arbitrage.rs: one asset's prices across the platforms. The
-- order of the prices is the one in which their map is read; the clock and the identifier of the
-- request are arguments.
pub mod Requests
mod Tests
use Prim.Native.String.{◌++◌}
use arbees.Prelude.{
  ℕ, ltb, String, Bool, true, false, ◌&&◌, Option, none, some, List, [], ◌∷◌, length, if◌then◌else◌,
}
use text.Mathlib.Text.{◌==◌, starts_with}
use arbees.Prelude.Float.{Float}
use arbees.Engine.State.{Result, ok, err}
use arbees.CryptoRisk.{
  CryptoRiskChecker, Queries, Trade, Verdict, accepted, refused, validate_trade,
}

pub data CryptoSignalType : Type 0 where
  arbitrage model_edge volatility_mispricing : CryptoSignalType

pub data Direction : Type 0 where
  long short : Direction

pub record CryptoPriceData (F : Type 0) : Type 0 where
  pub market_id : String
  pub platform : String
  pub asset : String
  pub yes_bid : F
  pub yes_ask : F
  pub mid_price : F
  pub yes_bid_size : Option F
  pub yes_ask_size : Option F
  pub total_liquidity : Option F
  pub timestamp : ℕ

pub record CryptoExecutionRequest (F : Type 0) : Type 0 where
  pub request_id : String
  pub event_id : String
  pub asset : String
  pub signal_type : CryptoSignalType
  pub platform : String
  pub market_id : String
  pub direction : Direction
  pub edge_pct : F
  pub probability : F
  pub suggested_size : F
  pub max_price : F
  pub current_price : F
  pub timestamp : ℕ
  pub volatility_factor : F
  pub exposure_check : Bool
  pub balance_check : Bool

pub record CryptoArbitrageDetector (F : Type 0) : Type 0 where
  pub min_edge_pct : F
  pub fee_pct : F

-- What a call is made with, and the clock and the identifier that it reads.
pub record Call (F : Type 0) : Type 0 where
  pub event_id : String
  pub asset : String
  pub volatility_factor : F
  pub request_id : String
  pub now : ℕ

module _ {F : Type 0} (f : Float F) where
  abbrev pub new : F → CryptoArbitrageDetector F
  new min_edge_pct = record { min_edge_pct = min_edge_pct; fee_pct = f.ratio 1 2 }

  unfoldable pub asset_prices :
      String → List (String × CryptoPriceData F) → List (CryptoPriceData F)
  asset_prices asset [] = []
  asset_prices asset ((key, price) ∷ prices) =
      let others = asset_prices asset prices in
      if starts_with key (asset ++ "|") then price ∷ others else others

  unfoldable pub best_bid :
      List (CryptoPriceData F) → Option (CryptoPriceData F) → Option (CryptoPriceData F)
  best_bid [] best = best
  best_bid (price ∷ prices) none = best_bid prices (some price)
  best_bid (price ∷ prices) (some best) =
      best_bid prices (some (if f.lt best.yes_bid price.yes_bid then price else best))

  unfoldable pub best_ask :
      List (CryptoPriceData F) → Option (CryptoPriceData F) → Option (CryptoPriceData F)
  best_ask [] best = best
  best_ask (price ∷ prices) none = best_ask prices (some price)
  best_ask (price ∷ prices) (some best) =
      best_ask prices (some (if f.lt price.yes_ask best.yes_ask then price else best))

  unfoldable pub net_edge_pct : CryptoArbitrageDetector F → F → F → F
  net_edge_pct d bid ask =
      let fee_cost = f.mul (f.div d.fee_pct (f.ratio 100 1)) (f.add bid ask) in
      f.mul (f.div (f.sub (f.sub bid ask) fee_cost) ask) (f.ratio 100 1)

  unfoldable pub suggested : CryptoArbitrageDetector F → F → F
  suggested d edge = f.mul (f.ratio 100 1) (f.min (f.div edge d.min_edge_pct) (f.ratio 3 1))

  unfoldable pub request_of : Call F → CryptoPriceData F → F → F → CryptoExecutionRequest F
  request_of c buy edge size = record {
    request_id = c.request_id;
    event_id = c.event_id;
    asset = c.asset;
    signal_type = arbitrage;
    platform = buy.platform;
    market_id = buy.market_id;
    direction = long;
    edge_pct = edge;
    probability = f.ratio 1 2;
    suggested_size = size;
    max_price = f.add buy.yes_ask (f.ratio 1 100);
    current_price = buy.yes_ask;
    timestamp = c.now;
    volatility_factor = c.volatility_factor;
    exposure_check = true;
    balance_check = true;
  }

  -- The trade that the risk checks see.
  abbrev pub trade_of : CryptoArbitrageDetector F → Call F → CryptoPriceData F → F → Trade F
  trade_of d c buy edge = record {
    asset = c.asset;
    market_id = buy.market_id;
    edge_pct = edge;
    suggested_size = suggested d edge;
    liquidity = buy.total_liquidity;
    volatility_factor = c.volatility_factor;
  }

  abbrev pub Answer : Type 0
  Answer = CryptoRiskChecker F × Result (Option (CryptoExecutionRequest F))

  unfoldable pub emit :
      CryptoArbitrageDetector F
      → Call F
      → Queries F
      → CryptoRiskChecker F
      → CryptoPriceData F
      → CryptoPriceData F
      → Answer
  emit d c q s sell buy =
      let edge = net_edge_pct d sell.yes_bid buy.yes_ask in
      let checked = validate_trade f s q (trade_of d c buy edge) in
      if sell.platform == buy.platform
      then (s, ok none)
      else if f.lt edge d.min_edge_pct
      then (s, ok none)
      else elim (checked.1) [
        | accepted size ↦ (checked.0, ok (some (request_of c buy edge size)))
        | refused reason ↦ (checked.0, ok none)
      ]

  unfoldable pub detect_and_emit :
      CryptoArbitrageDetector F
      → Call F
      → List (String × CryptoPriceData F)
      → Queries F
      → CryptoRiskChecker F
      → Answer
  detect_and_emit d c prices q s =
      let found = asset_prices c.asset prices in
      if ltb (length found) 2 then (s, ok none) else elim (best_bid found none) [
        | none ↦ (s, err ("No valid bid prices for " ++ c.asset))
        | some sell ↦ elim (best_ask found none) [
          | none ↦ (s, err ("No valid ask prices for " ++ c.asset))
          | some buy ↦ emit d c q s sell buy
        ]
      ]
