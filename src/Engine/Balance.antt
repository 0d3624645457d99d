-- ===== src/Engine/Balance.antt =====
-- services/execution_service_rust/src/balance.rs: the cached balances and the daily profit.
use Prim.Native.String.{◌++◌}
use arbees.Prelude.{ℕ, String, Bool, true, false, if◌then◌else◌, ◌==◌}
use arbees.Prelude.Float.{Float, zero_of}
use arbees.Engine.State.{
  Platform, kalshi, polymarket, paper, PlatformBalance, BalanceCache, Result, ok, err,
}

-- The day of the reading and what has been won on it; a day is a number of days since 1970.
pub record DailyPnlTracker (F : Type 0) : Type 0 where
  pub pnl : F
  pub tracking_date : ℕ

module _ {F : Type 0} (f : Float F) where
  unfoldable pub no_balance : PlatformBalance F
  no_balance = record { balance = zero_of f; last_updated = 0; is_stale = true }

  unfoldable pub empty_cache : BalanceCache F
  empty_cache = record { kalshi_balance = no_balance; polymarket_balance = no_balance }

  unfoldable pub update_kalshi_balance : BalanceCache F → F → ℕ → BalanceCache F
  update_kalshi_balance c balance now = record c {
    kalshi_balance = record { balance = balance; last_updated = now; is_stale = false };
  }

  -- Nothing calls it.
  pub update_polymarket_balance : BalanceCache F → F → ℕ → BalanceCache F
  update_polymarket_balance c balance now = record c {
    polymarket_balance = record { balance = balance; last_updated = now; is_stale = false };
  }

  -- The order value with the buffer of 10 percent.
  unfoldable pub required : F → F
  required order_value = f.mul order_value (f.add (f.ratio 1 1) (f.ratio 1 10))

  unfoldable pub check_balance : String → PlatformBalance F → F → Result (Unit {0})
  check_balance name cached needed =
      if f.lt cached.balance needed
      then err (
          "Insufficient "
          ++ (name
              ++ (" balance: $"
                  ++ (f.show 2 cached.balance
                      ++ (" available, $"
                          ++ (f.show 2 needed ++ " required (including 10% buffer)"))))))
      else ok tt

  unfoldable pub validate_order : BalanceCache F → Platform → F → Result (Unit {0})
  validate_order c kalshi value = check_balance "Kalshi" c.kalshi_balance (required value)
  validate_order c polymarket value =
      check_balance "Polymarket" c.polymarket_balance (required value)
  validate_order c paper value = ok tt

  unfoldable pub mark_kalshi_stale : BalanceCache F → BalanceCache F
  mark_kalshi_stale c = record c { kalshi_balance = record c.kalshi_balance { is_stale = true } }

  unfoldable pub mark_polymarket_stale : BalanceCache F → BalanceCache F
  mark_polymarket_stale c = record c {
    polymarket_balance = record c.polymarket_balance { is_stale = true };
  }

  -- One turn of the refresh loop, with the answer of the exchange.
  unfoldable pub refresh : Bool → BalanceCache F → Result F → ℕ → BalanceCache F
  refresh has_credentials c answer now =
      if has_credentials
      then elim answer [
        | ok balance ↦ update_kalshi_balance c balance now
        | err e ↦ mark_kalshi_stale c
      ]
      else c

  unfoldable pub record_pnl : DailyPnlTracker F → F → ℕ → DailyPnlTracker F
  record_pnl t amount today =
      let before = if t.tracking_date == today then t.pnl else zero_of f in
      record { pnl = f.add before amount; tracking_date = today }

  unfoldable pub get_loss_utilization : DailyPnlTracker F → F → F
  get_loss_utilization t max_daily_loss =
      if f.le (zero_of f) t.pnl then zero_of f else f.div (f.neg t.pnl) max_daily_loss
