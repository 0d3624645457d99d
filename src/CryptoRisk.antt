-- ===== src/CryptoRisk.antt =====
-- services/crypto_shard_rust/src/signals/risk.rs: the checks of a crypto trade. The answers of its
-- queries are an argument.
pub mod Exposure
pub mod Stats
mod Tests
use arbees.Prelude.{
  ℕ, ◌+◌, ◌%◌, ◌^◌, ◌==◌, String, Bool, true, false, ◌&&◌, Option, none, some, List, [], ◌∷◌,
  if◌then◌else◌,
}
use mathlib.Core.Option
use arbees.Prelude.Int.{ℤ, pos, ltb_ℤ}
use arbees.Prelude.Float.{Float, zero_of}
use arbees.Prelude.Json.{unwrap_or}

pub record CryptoRiskChecker (F : Type 0) : Type 0 where
  pub min_edge_pct : F
  pub max_position_size : F
  pub max_asset_exposure : F
  pub max_total_exposure : F
  pub volatility_scaling : Bool
  pub min_liquidity : F
  pub trades_validated : ℕ
  pub trades_blocked : ℕ
  pub volatility_log_count : ℕ

-- The errors; the last is an error of the database.
pub data RiskError : Type 0 where
  edge_below_minimum liquidity_below_minimum : RiskError
  asset_limit_reached total_limit_reached : RiskError
  duplicate_trade query_failed : RiskError

pub data Verdict (F : Type 0) : Type 0 where
  accepted : F → Verdict F
  refused : RiskError → Verdict F

-- What the queries answer while a trade is checked: none when one fails, and else perhaps a row,
-- with a value that may be NULL.
pub record Queries (F : Type 0) : Type 0 where
  pub asset_exposure : String → Option (Option (Option F))
  pub total_exposure : Option (Option (Option F))
  pub recent_trades : String → Option (Option (Option ℤ))

pub record Trade (F : Type 0) : Type 0 where
  pub asset : String
  pub market_id : String
  pub edge_pct : F
  pub suggested_size : F
  pub liquidity : Option F
  pub volatility_factor : F

-- `Ordering::Relaxed` counters wrap.
abbrev pub next_u64 : ℕ → ℕ
next_u64 n = (n + 1) % 2 ^ 64

module _ {F : Type 0} (f : Float F) where
  unfoldable pub new : F → F → F → F → Bool → F → CryptoRiskChecker F
  new edge position asset total scaling liquidity = record {
    min_edge_pct = edge;
    max_position_size = position;
    max_asset_exposure = asset;
    max_total_exposure = total;
    volatility_scaling = scaling;
    min_liquidity = liquidity;
    trades_validated = 0;
    trades_blocked = 0;
    volatility_log_count = 0;
  }

  abbrev exposure : Option (Option F) → F
  exposure row = unwrap_or (unwrap_or row (some (zero_of f))) (zero_of f)

  unfoldable pub get_asset_exposure : Queries F → String → Option F
  get_asset_exposure q asset = Option.map exposure (q.asset_exposure asset)

  unfoldable pub get_total_crypto_exposure : Queries F → Option F
  get_total_crypto_exposure q = Option.map exposure q.total_exposure

  unfoldable pub is_duplicate_trade : Queries F → String → Option Bool
  is_duplicate_trade q market_id =
      Option.map (λ row. ltb_ℤ (pos 0) (unwrap_or (unwrap_or row (some (pos 0))) (pos 0)))
        (q.recent_trades market_id)

  unfoldable pub block : CryptoRiskChecker F → RiskError → CryptoRiskChecker F × Verdict F
  block s e = (record s { trades_blocked = next_u64 s.trades_blocked }, refused e)

  -- What an exposure limit leaves of a size, none when that is below 10 dollars.
  unfoldable pub cap : F → F → F → Option F
  cap limit current size =
      let available = f.max (f.sub limit current) (zero_of f) in
      if f.lt limit (f.add current size)
      then (if f.lt available (f.ratio 10 1) then none else some available)
      else some size

  unfoldable pub scale : CryptoRiskChecker F → F → F → CryptoRiskChecker F × F
  scale s volatility_factor size =
      if s.volatility_scaling && f.lt (f.ratio 3 2) volatility_factor
      then (
        record s { volatility_log_count = next_u64 s.volatility_log_count },
        f.mul size (f.ratio 7 10),
      )
      else (s, size)

  unfoldable pub is_illiquid : CryptoRiskChecker F → Option F → Bool
  is_illiquid s none = false
  is_illiquid s (some liquidity) = f.lt liquidity s.min_liquidity

  unfoldable pub check_duplicate :
      Queries F → Trade F → CryptoRiskChecker F → F → CryptoRiskChecker F × Verdict F
  check_duplicate q t s size = elim (is_duplicate_trade q t.market_id) [
    | none ↦ (s, refused query_failed)
    | some duplicate ↦ if duplicate then block s duplicate_trade else (s, accepted size)
  ]

  unfoldable pub check_total :
      Queries F → Trade F → CryptoRiskChecker F → F → CryptoRiskChecker F × Verdict F
  check_total q t s size = elim (get_total_crypto_exposure q) [
    | none ↦ (s, refused query_failed)
    | some current ↦ elim (cap s.max_total_exposure current size) [
      | none ↦ block s total_limit_reached
      | some left ↦ check_duplicate q t s left
    ]
  ]

  unfoldable pub check_asset :
      Queries F → Trade F → CryptoRiskChecker F → F → CryptoRiskChecker F × Verdict F
  check_asset q t s size = elim (get_asset_exposure q t.asset) [
    | none ↦ (s, refused query_failed)
    | some current ↦ elim (cap s.max_asset_exposure current size) [
      | none ↦ block s asset_limit_reached
      | some left ↦ check_total q t s left
    ]
  ]

  unfoldable pub validate_trade :
      CryptoRiskChecker F → Queries F → Trade F → CryptoRiskChecker F × Verdict F
  validate_trade s q t =
      let counted = record s { trades_validated = next_u64 s.trades_validated } in
      let scaled = scale counted t.volatility_factor (f.min t.suggested_size s.max_position_size) in
      if f.lt t.edge_pct s.min_edge_pct
      then block counted edge_below_minimum
      else if is_illiquid counted t.liquidity
      then block counted liquidity_below_minimum
      else check_asset q t (scaled.0) (scaled.1)

  pub record RiskStats : Type 0 where
    pub trades_validated : ℕ
    pub trades_blocked : ℕ

  abbrev pub stats : CryptoRiskChecker F → RiskStats
  stats s = record { trades_validated = s.trades_validated; trades_blocked = s.trades_blocked }

  -- The share of the trades that were blocked, in percent.
  unfoldable pub block_rate : CryptoRiskChecker F → F
  block_rate s =
      if s.trades_validated == 0
      then zero_of f
      else f.mul (f.div (f.of_int (pos s.trades_blocked)) (f.of_int (pos s.trades_validated)))
          (f.ratio 100 1)

  -- The trades that are checked one after another, the last first, each with its queries; every
  -- verdict beside the checker.
  unfoldable pub run :
      CryptoRiskChecker F → List (Queries F × Trade F) → CryptoRiskChecker F × List (Verdict F)
  run s [] = (s, [])
  run s ((q, t) ∷ earlier) =
      let before = run s earlier in
      let after = validate_trade (before.0) q t in (after.0, after.1 ∷ before.1)
