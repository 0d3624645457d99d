-- ===== src/MarketTable.antt =====
-- rust_core/src/atomic_orderbook.rs: `GlobalState`, the table of up to 1024 market pairs with
-- lookups by Kalshi ticker and by Polymarket condition. Each method is one step.
pub mod Adding
pub mod Books
mod Tests
use arbees.Prelude.{
  ℕ, ◌+◌, String, Option, none, some, List, ltb, leb, if◌then◌else◌, get_elem?, set, replicate, [],
  ◌∷◌,
}
use arbees.Prelude.Dict.{Dict, lookup, insert}
use arbees.Orderbook.{Quote, empty, load, store}

-- Two packed words.
pub record AtomicMarketState : Type 0 where
  pub kalshi : ℕ
  pub poly : ℕ

pub record MarketPair : Type 0 where
  pub kalshi_ticker : String
  pub poly_condition_id : String
  pub description : String
  pub league : String

pub record GlobalState : Type 0 where
  pub markets : List AtomicMarketState
  pub metadata : List (Option MarketPair)
  pub kalshi_lookup : Dict ℕ
  pub poly_lookup : Dict ℕ
  pub next_id : ℕ

abbrev pub new_market : AtomicMarketState
new_market = record { kalshi = empty; poly = empty }

pub new : GlobalState
new = record {
  markets = replicate 1024 new_market;
  metadata = replicate 1024 none;
  kalshi_lookup = [];
  poly_lookup = [];
  next_id = 0;
}

pub add_pair : GlobalState → MarketPair → GlobalState × Option ℕ
add_pair s pair =
    let market_id = s.next_id in
    if leb 1024 market_id then (s, none) else (
      record s {
        next_id = market_id + 1;
        kalshi_lookup = insert pair.kalshi_ticker market_id s.kalshi_lookup;
        poly_lookup = insert pair.poly_condition_id market_id s.poly_lookup;
        metadata = set s.metadata market_id (some pair);
      },
      some market_id,
    )

pub get_by_id : GlobalState → ℕ → Option AtomicMarketState
get_by_id s market_id = if ltb market_id 1024 then get_elem? s.markets market_id else none

pub get_id_by_kalshi : GlobalState → String → Option ℕ
get_id_by_kalshi s ticker = lookup ticker s.kalshi_lookup

pub get_id_by_poly : GlobalState → String → Option ℕ
get_id_by_poly s condition_id = lookup condition_id s.poly_lookup

abbrev flat : Option (Option MarketPair) → Option MarketPair
flat none = none
flat (some entry) = entry

pub get_metadata : GlobalState → ℕ → Option MarketPair
get_metadata s market_id =
    if ltb market_id 1024 then flat (get_elem? s.metadata market_id) else none

-- The market with one book stored anew. Out of bounds does not happen below; it would panic.
abbrev with_kalshi : Quote → Option AtomicMarketState → AtomicMarketState
with_kalshi q none = new_market
with_kalshi q (some m) = record m { kalshi = store q m.kalshi }

abbrev with_poly : Quote → Option AtomicMarketState → AtomicMarketState
with_poly q none = new_market
with_poly q (some m) = record m { poly = store q m.poly }

pub update_kalshi : GlobalState → ℕ → Quote → GlobalState
update_kalshi s market_id q =
    if ltb market_id 1024
    then record s {
      markets = set s.markets market_id (with_kalshi q (get_elem? s.markets market_id));
    }
    else s

pub update_poly : GlobalState → ℕ → Quote → GlobalState
update_poly s market_id q =
    if ltb market_id 1024
    then record s {
      markets = set s.markets market_id (with_poly q (get_elem? s.markets market_id));
    }
    else s

abbrev both_loaded : Option AtomicMarketState → Option (Quote × Quote)
both_loaded none = none
both_loaded (some m) = some (load m.kalshi, load m.poly)

pub get_both : GlobalState → ℕ → Option (Quote × Quote)
get_both s market_id =
    if ltb market_id 1024 then both_loaded (get_elem? s.markets market_id) else none

pub market_count : GlobalState → ℕ
market_count s = s.next_id

-- The calls that change the table.
pub data Op : Type 0 where
  add : MarketPair → Op
  kalshi_book : (market_id : ℕ) → Quote → Op
  poly_book : (market_id : ℕ) → Quote → Op

pub apply : Op → GlobalState → GlobalState
apply (add pair) s = (add_pair s pair).0
apply (kalshi_book m q) s = update_kalshi s m q
apply (poly_book m q) s = update_poly s m q

pub run : List Op → GlobalState → GlobalState
run [] s = s
run (op ∷ ops) s = run ops (apply op s)
