-- ===== src/Engine/Orders.antt =====
-- How services/execution_service_rust/src/engine.rs and polymarket_executor.rs place one order, on
-- paper or on an exchange.
use Prim.Native.String.{◌++◌}
use arbees.Prelude.{
  ℕ, zero, ◌-◌, ◌/◌, leb, String, Bool, true, false, ◌&&◌, Option, none, some, List, [], ◌∷◌,
  if◌then◌else◌,
}
use arbees.Prelude.Int.{ℤ, pos, sub_ℕ, ltb_ℤ}
use arbees.Prelude.Word.{sub_i32}
use arbees.Prelude.Float.{Float, zero_of}
use arbees.Prelude.Json.{unwrap_or}
use arbees.Orderbook.{kalshi_fee_cents}
use arbees.Engine.State.{
  Platform, kalshi, polymarket, ExecutionSide, yes, no, ExecutionStatus, rejected, filled, partial,
  cancelled, failed, ExecutionRequest, ExecutionResult, RejectionReason, kill_switch_active,
  duplicate_request, rate_limit_exceeded, insufficient_balance, order_size_exceeded,
  price_sanity_failed, credentials_not_configured, Result, ok, err, KalshiOrder, PolyFill, World,
  Order, ioc, buy, sell,
}

abbrev pub to_string : RejectionReason → String
to_string kill_switch_active = "Kill switch is active - trading halted"
to_string (rate_limit_exceeded message) = "Rate limit exceeded: " ++ message
to_string duplicate_request = "Duplicate request - already processed"
to_string (insufficient_balance message) = "Insufficient balance: " ++ message
to_string (order_size_exceeded message) = "Order size limit exceeded: " ++ message
to_string (price_sanity_failed message) = "Price sanity check failed: " ++ message
to_string (credentials_not_configured message) = message

abbrev pub side_str : ExecutionSide → String
side_str yes = "yes"
side_str no = "no"

abbrev pub remaining : KalshiOrder → ℤ
remaining o = unwrap_or o.remaining_count (pos 0)

pub filled_count : KalshiOrder → ℤ
filled_count o = sub_i32 o.count (remaining o)

abbrev is_zero : ℤ → Bool
is_zero (pos zero) = true
is_zero _ = false

pub is_filled : KalshiOrder → Bool
is_filled o = is_zero (remaining o)

pub is_partial : KalshiOrder → Bool
is_partial o = ltb_ℤ (pos 0) (remaining o) && ltb_ℤ (remaining o) o.count

pub ioc_status : KalshiOrder → ExecutionStatus
ioc_status o = if is_filled o then filled else if is_partial o then partial else cancelled

-- `(done - start).num_milliseconds()`: whole milliseconds towards 0.
abbrev pub millis : ℕ → ℕ → ℤ
millis done start =
    if leb start done
    then pos ((done - start) / 1_000_000)
    else sub_ℕ 0 ((start - done) / 1_000_000)

module _ {F : Type 0} (f : Float F) where
  pub calculate_fee : Platform → F → F → F
  calculate_fee polymarket price size = f.mul (f.mul price size) (f.ratio 2 100)
  calculate_fee _ price size =
      let fee_cents = kalshi_fee_cents (f.round_u16 (f.mul price (f.ratio 100 1))) in
      f.mul (f.div (f.of_int (pos fee_cents)) (f.ratio 100 1)) size

  -- A result with what it takes from its request.
  pub result_of :
      ExecutionRequest F
      → (status : ExecutionStatus) (rejection_reason order_id : Option String)
        (filled_qty avg_price fees : F) (platform : Platform) (done start : ℕ)
      → ExecutionResult F
  result_of q status rejection_reason order_id filled_qty avg_price fees platform done start =
      record {
        request_id = q.request_id;
        idempotency_key = q.idempotency_key;
        status = status;
        rejection_reason = rejection_reason;
        order_id = order_id;
        filled_qty = filled_qty;
        avg_price = avg_price;
        fees = fees;
        platform = platform;
        market_id = q.market_id;
        contract_team = q.contract_team;
        game_id = q.game_id;
        sport = q.sport;
        signal_id = q.signal_id;
        signal_type = q.signal_type;
        edge_pct = q.edge_pct;
        side = q.side;
        requested_at = q.created_at;
        executed_at = done;
        latency_ms = f.of_int (millis done start);
      }

  -- A result without a fill.
  abbrev pub unfilled :
      ExecutionRequest F → ExecutionStatus → String → Platform → ℕ → ℕ → ExecutionResult F
  unfilled q status reason platform done start =
      result_of q status (some reason) none (zero_of f) (zero_of f) (zero_of f) platform done start

  pub create_rejection : World F → ExecutionRequest F → RejectionReason → ExecutionResult F
  create_rejection w q reason =
      unfilled q rejected (to_string reason) q.platform w.done_at w.started_at

  pub execute_paper : World F → ExecutionRequest F → ExecutionResult F
  execute_paper w q =
      result_of q filled none (some ("paper-" ++ w.uuid)) q.size q.limit_price
        (calculate_fee q.platform q.limit_price q.size) q.platform w.done_at w.started_at

  pub kalshi_result : World F → ExecutionRequest F → Result KalshiOrder → ExecutionResult F
  kalshi_result w q (ok o) =
      let filled_qty = f.of_int (filled_count o) in
      result_of q (ioc_status o) none (some o.order_id) filled_qty q.limit_price
        (calculate_fee kalshi q.limit_price filled_qty) kalshi w.done_at w.started_at
  kalshi_result w q (err e) =
      unfilled q failed ("Kalshi API error: " ++ e) kalshi w.done_at w.started_at

  -- With the orders that it sends.
  unfoldable pub execute_kalshi :
      Bool → World F → ExecutionRequest F → ExecutionResult F × List (Order F)
  execute_kalshi has_credentials w q =
      let quantity = f.round_i32 q.size in
      if has_credentials
      then if ltb_ℤ quantity (pos 1)
        then (
          create_rejection w q (
              order_size_exceeded
                ("Order size too small: " ++ (f.show_int quantity ++ " contracts (minimum 1)"))),
          [],
        )
        else (
          kalshi_result w q
              (w.place_ioc_order q.market_id (side_str q.side) q.limit_price quantity),
          ioc q.market_id (side_str q.side) q.limit_price quantity ∷ [],
        )
      else (
        create_rejection w q (
            credentials_not_configured
              "Kalshi credentials not configured. Set KALSHI_API_KEY and KALSHI_PRIVATE_KEY"),
        [],
      )

  pub fak_status : F → F → ExecutionStatus
  fak_status filled_size size =
      if f.le size filled_size
      then filled
      else if f.lt (zero_of f) filled_size
      then partial
      else rejected

  pub polymarket_result :
      World F → ExecutionRequest F → Result (PolyFill F) → Result (ExecutionResult F)
  polymarket_result w q (err e) = err e
  polymarket_result w q (ok o) =
      let avg_price =
        if f.lt (zero_of f) o.filled_size then f.div o.fill_cost o.filled_size else zero_of f in
      ok (
        result_of q (fak_status o.filled_size q.size)
          (if f.eq o.filled_size (zero_of f) then some "No fill" else none) (some o.order_id)
          o.filled_size avg_price (f.mul o.fill_cost (f.ratio 2 100)) polymarket w.done_at
          w.sent_at)

  fak_order : ExecutionSide → World F → ExecutionRequest F → String → Order F × Result (PolyFill F)
  fak_order yes w q token = (buy token q.limit_price q.size, w.buy_fak token q.limit_price q.size)
  fak_order no w q token =
      let no_price = f.sub (f.ratio 1 1) q.limit_price in
      (sell token no_price q.size, w.sell_fak token no_price q.size)

  unfoldable pub execute_polymarket :
      Bool → World F → ExecutionRequest F → Result (ExecutionResult F) × List (Order F)
  unfolding fak_order
  execute_polymarket has_executor w q =
      if has_executor
      then elim q.token_id [
        | none ↦ (err "Polymarket order requires token_id", [])
        | some token ↦
            let (order, answer) = fak_order q.side w q token in
            (polymarket_result w q answer, order ∷ [])
      ]
      else (
        ok (
            unfilled q rejected
              "Polymarket CLOB not configured. Set POLYMARKET_PRIVATE_KEY and POLYMARKET_FUNDER_ADDRESS"
              polymarket w.done_at q.created_at),
        [],
      )
