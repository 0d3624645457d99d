-- ===== src/Positions/Exit.antt =====
-- `evaluate_exit` and `check_exit_conditions` of services/position_tracker_rust/src/main.rs. The prices
-- that the database has are an argument.
use Prim.Native.String.{◌++◌}
use arbees.Prelude.{
  ℕ, ◌+◌, ◌*◌, leb, ltb, String, Bool, not, ◌&&◌, ◌||◌, Option, none, some, List, [], ◌∷◌,
  if◌then◌else◌,
}
use arbees.Prelude.Dict.{Dict, lookup, insert, remove}
use arbees.Prelude.Float.{Float, zero_of}
use arbees.Prelude.Json.{Json, or_else, unwrap_or}
use arbees.Engine.State.{
  Sport, nba, ncaab, nfl, ncaaf, nhl, mlb, mls, soccer, tennis, mma, Result, ok, err,
}
use arbees.Engine.Orders.{millis}
use arbees.Positions.State.{buy, sell, Config, OpenPosition, CachedPrice, PositionTracker, World}
use arbees.Positions.Close.{close_position, remove_at, reverse}
use arbees.Positions.Settle.{teams_match}

module _ {F : Type 0} (f : Float F) where
  pub get_stop_loss_for_sport : Sport → F
  get_stop_loss_for_sport nba = f.ratio 3 1
  get_stop_loss_for_sport ncaab = f.ratio 3 1
  get_stop_loss_for_sport nfl = f.ratio 5 1
  get_stop_loss_for_sport ncaaf = f.ratio 5 1
  get_stop_loss_for_sport nhl = f.ratio 7 1
  get_stop_loss_for_sport mlb = f.ratio 6 1
  get_stop_loss_for_sport mls = f.ratio 7 1
  get_stop_loss_for_sport soccer = f.ratio 7 1
  get_stop_loss_for_sport tennis = f.ratio 4 1
  get_stop_loss_for_sport mma = f.ratio 8 1

  -- Whether a position is all but settled at a price.
  abbrev pub is_decided : OpenPosition F → F → Bool
  is_decided p current_price = elim p.side [
    | buy ↦ f.lt (f.ratio 85 100) current_price
    | sell ↦ f.lt current_price (f.ratio 15 100)
  ]

  abbrev pub price_move : OpenPosition F → F → F
  price_move p current_price = elim p.side [
    | buy ↦ f.sub current_price p.entry_price
    | sell ↦ f.sub p.entry_price current_price
  ]

  -- The reason to exit, if there is one.
  pub evaluate_exit : Config F → OpenPosition F → F → F → Option String
  evaluate_exit c p current_price stop_loss_pct =
      let move = price_move p current_price in
      let percent = f.show 1 (f.mul move (f.ratio 100 1)) ++ "%" in
      if is_decided p current_price
      then none
      else if f.le (f.div c.take_profit_pct (f.ratio 100 1)) move
      then some ("take_profit: +" ++ percent)
      else if f.le move (f.neg (f.div stop_loss_pct (f.ratio 100 1)))
      then some ("stop_loss: " ++ percent)
      else none

  -- Neither too old nor a book without two sides.
  pub is_usable : Config F → CachedPrice F → ℕ → Bool
  is_usable c price now =
      let age_ms = f.of_int (millis now price.updated_at) in
      let no_book = f.le price.yes_bid (zero_of f) && f.le (f.ratio 1 1) price.yes_ask in
      let wide = f.lt (f.ratio 1 2) (f.sub price.yes_ask price.yes_bid) in
      not (f.lt (f.mul c.price_staleness_ttl (f.ratio 1_000 1)) age_ms)
      && not (c.require_valid_book && (no_book || wide))

  abbrev pub mark_price : CachedPrice F → F
  mark_price price = f.div (f.add price.yes_bid price.yes_ask) (f.ratio 2 1)

  pub exec_price : Config F → OpenPosition F → CachedPrice F → F
  exec_price c p price =
      let slippage = f.div c.slippage_buffer_pct (f.ratio 100 1) in
      elim p.side [
        | buy ↦ f.mul price.yes_bid (f.sub (f.ratio 1 1) slippage)
        | sell ↦ f.mul price.yes_ask (f.add (f.ratio 1 1) slippage)
      ]

  -- Whether the position exits now, with the counts of the triggers.
  unfoldable pub debounce : Config F → String → Option String → Dict ℕ → Dict ℕ × Option String
  debounce c trade_id none counts = (remove trade_id counts, none)
  debounce c trade_id (some reason) counts =
      if ltb 0 c.debounce_exit_checks
      then (let count = unwrap_or (lookup trade_id counts) 0 + 1 in
          (
            insert trade_id count counts,
            if ltb count c.debounce_exit_checks then none else some reason,
          ))
      else (counts, some reason)

  module _ {V : Type 0} (j : Json V) (words : String → List String) where
    abbrev pub first_match : String → Dict (CachedPrice F) → Option (CachedPrice F)
    first_match title [] = none
    first_match title ((team, price) ∷ rest) =
        if teams_match f j words team title then some price else first_match title rest

    -- From the cache by the name of the team, or what the database has.
    pub current_price :
        Dict (Dict (CachedPrice F))
        → (OpenPosition F → Option (CachedPrice F))
        → OpenPosition F
        → Option (CachedPrice F)
    current_price cache in_database p = elim (lookup p.game_id cache) [
      | none ↦ in_database p
      | some prices ↦
          or_else (or_else (lookup p.market_title prices) (first_match p.market_title prices))
            (in_database p)
    ]

    -- What becomes of one position: the counts, and the price and the reason of an exit.
    pub check_position :
        (OpenPosition F → Option (CachedPrice F))
        → ℕ
        → PositionTracker F
        → Dict ℕ
        → OpenPosition F
        → Dict ℕ × Option (F × String)
    check_position in_database now s counts p =
        if leb (p.entry_time + s.config.min_hold_seconds * 1_000_000_000) now
        then elim (current_price s.price_cache in_database p) [
          | none ↦ (counts, none)
          | some price ↦
              if is_usable s.config price now
              then (let (counts', exits) =
                    debounce s.config p.trade_id
                      (evaluate_exit s.config p (mark_price price)
                        (get_stop_loss_for_sport p.sport))
                      counts in
                  (
                    counts',
                    elim exits [
                      | none ↦ none
                      | some reason ↦ some (exec_price s.config p price, reason)
                    ],
                  ))
              else (counts, none)
        ]
        else (counts, none)

    pub check_positions :
        (OpenPosition F → Option (CachedPrice F))
        → ℕ
        → PositionTracker F
        → ℕ
        → Dict ℕ
        → List (OpenPosition F)
        → Dict ℕ × List (ℕ × F × String)
    check_positions in_database now s place counts [] = (counts, [])
    check_positions in_database now s place counts (p ∷ ps) =
        let (counts', exits) = check_position in_database now s counts p in
        let (counts'', rest) = check_positions in_database now s (place + 1) counts' ps in
        (counts'', elim exits [ none ↦ rest | some e ↦ (place, e.0, e.1) ∷ rest ])

    -- Each exit has a reason of its own.
    pub exit_all :
        (ℕ → World F)
        → ℕ
        → List (ℕ × F × String)
        → PositionTracker F
        → PositionTracker F × Result (Unit {0})
    exit_all w n [] s = (s, ok tt)
    exit_all w n ((place, price, reason) ∷ rest) s = elim (remove_at place s.open_positions) [
      | none ↦ (s, err "panic")
      | some taken ↦
          let (s', result) =
            close_position f (w n) (record s { open_positions = taken.1 }) (taken.0) price reason in
          let (s'', end) = exit_all w (n + 1) rest s' in
          elim result [ err e ↦ (s', err e) | ok u ↦ (s'', end) ]
    ]

    pub check_exit_conditions :
        (ℕ → World F)
        → (OpenPosition F → Option (CachedPrice F))
        → ℕ
        → PositionTracker F
        → PositionTracker F × Result (Unit {0})
    check_exit_conditions w in_database now s =
        let (counts, exits) =
          check_positions in_database now s 0 s.exit_trigger_counts s.open_positions in
        exit_all w 0 (reverse exits) (record s { exit_trigger_counts = counts })
