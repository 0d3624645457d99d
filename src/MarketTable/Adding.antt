-- ===== src/MarketTable/Adding.antt =====
-- What `GlobalState::add_pair` of rust_core/src/atomic_orderbook.rs keeps and what it answers.
use text.Mathlib.Text.{◌==◌ as str_eq}
use text.Mathlib.TextEquality.{eq_iff}
use arbees.Prelude.{
  ℕ, ◌+◌, ◌≤◌, ◌<◌, ◌≡◌, ◌∙◌, inl, inr, String, Option, none, some, List, [], ◌∷◌, arith, length,
  ◌==◌, leb, ltb, if◌then◌else◌, length-set, length-replicate, get_elem?-set_self, get_elem?-set_ne,
  Bool-cases, leb→le, leb-false,
}
use arbees.Prelude.Dict.{lookup, lookup-insert}
use arbees.Orderbook.{Quote}
use arbees.MarketTable.{
  GlobalState, MarketPair, AtomicMarketState, new, new_market, add_pair, get_id_by_kalshi,
  get_id_by_poly, get_metadata, update_kalshi, update_poly, market_count, Op, add, kalshi_book,
  poly_book, apply, run,
}

abbrev ticker_of : Option MarketPair → Option String
ticker_of none = none
ticker_of (some pair) = some pair.kalshi_ticker

abbrev condition_of : Option MarketPair → Option String
condition_of none = none
condition_of (some pair) = some pair.poly_condition_id

-- Both arrays have 1024 entries, at most so many ids are given out, and each lookup leads to an
-- id that was given out and whose metadata has the key that was looked up.
pub record IsTable (s : GlobalState) : Type 0 where
  pub markets_full : length s.markets ≡ 1024
  pub metadata_full : length s.metadata ≡ 1024
  pub ids_bounded : s.next_id ≤ 1024
  pub kalshi_found :
      (ticker : String) (id : ℕ)
      → get_id_by_kalshi s ticker ≡ some id
      → (id < s.next_id) × (ticker_of (get_metadata s id) ≡ some ticker)
  pub poly_found :
      (condition : String) (id : ℕ)
      → get_id_by_poly s condition ≡ some id
      → (id < s.next_id) × (condition_of (get_metadata s id) ≡ some condition)

-- While there is room, a new pair gets the next id and is found under it, under its ticker and
-- under its condition; what other ids, tickers and conditions lead to stays. When 1024 pairs
-- are there, nothing changes and there is no id.
pub add_pair_lem :
    (s : GlobalState) (pair : MarketPair) (id : ℕ) (key : String)
    → IsTable s
    → let (after, given) = add_pair s pair in
      (s.next_id < 1024
        → (given ≡ some s.next_id)
          × (market_count after ≡ market_count s + 1)
          × (get_metadata after id ≡ (if id == s.next_id then some pair else get_metadata s id))
          × (get_id_by_kalshi after key
              ≡ (if str_eq pair.kalshi_ticker key then some s.next_id else get_id_by_kalshi s key))
          × (get_id_by_poly after key ≡ (
              if str_eq pair.poly_condition_id key then some s.next_id else get_id_by_poly s key)))
      × (1024 ≤ s.next_id → (given ≡ none) × (after ≡ s))
unfolding add_pair market_count get_id_by_kalshi get_id_by_poly get_metadata
add_pair_lem s pair id key v = (
  λ room. ground (
    arith,
    get_elem?-set_self s.metadata s.next_id (some pair) (omega arith),
    get_elem?-set_ne s.metadata s.next_id id (some pair),
    lookup-insert pair.kalshi_ticker key s.next_id s.kalshi_lookup,
    lookup-insert pair.poly_condition_id key s.next_id s.poly_lookup,
  ),
  λ full. ground arith,
)

module _ (s : GlobalState) (pair : MarketPair) (v : IsTable s) (room : s.next_id < 1024) where
  add_pair-kalshi_found :
      (ticker : String) (id : ℕ)
      → get_id_by_kalshi (add_pair s pair).0 ticker ≡ some id
      → (id < (add_pair s pair).0.next_id)
        × (ticker_of (get_metadata (add_pair s pair).0 id) ≡ some ticker)
  unfolding market_count
  add_pair-kalshi_found ticker id e = ground (
    arith,
    (add_pair_lem s pair id ticker v).0 room,
    v.kalshi_found ticker id,
    eq_iff pair.kalshi_ticker ticker,
  )

  add_pair-poly_found :
      (condition : String) (id : ℕ)
      → get_id_by_poly (add_pair s pair).0 condition ≡ some id
      → (id < (add_pair s pair).0.next_id)
        × (condition_of (get_metadata (add_pair s pair).0 id) ≡ some condition)
  unfolding market_count
  add_pair-poly_found condition id e = ground (
    arith,
    (add_pair_lem s pair id condition v).0 room,
    v.poly_found condition id,
    eq_iff pair.poly_condition_id condition,
  )

add_pair-IsTable : (s : GlobalState) (pair : MarketPair) → IsTable s → IsTable (add_pair s pair).0
add_pair-IsTable s pair v = elim (Bool-cases (leb 1024 s.next_id)) [
  | inl full ↦ let same = ((add_pair_lem s pair 0 "" v).1 (leb→le _ _ full)).1 in rw same v
  | inr room ↦
      let free = leb-false _ _ room in
      record {
        markets_full = unfold add_pair in rw (room) v.markets_full;
        metadata_full = unfold add_pair in rw (room) (length-set _ _ _ ∙ v.metadata_full);
        ids_bounded = unfold add_pair in rw (room) (omega arith);
        kalshi_found = add_pair-kalshi_found s pair v free;
        poly_found = add_pair-poly_found s pair v free;
      }
]

with_markets-IsTable :
    (s : GlobalState) (markets' : List AtomicMarketState)
    → length markets' ≡ 1024
    → IsTable s
    → IsTable (record s { markets = markets' })
unfolding get_id_by_kalshi get_id_by_poly get_metadata
with_markets-IsTable s markets' full v = record {
  markets_full = full;
  metadata_full = v.metadata_full;
  ids_bounded = v.ids_bounded;
  kalshi_found = v.kalshi_found;
  poly_found = v.poly_found;
}

update_kalshi-IsTable :
    (s : GlobalState) (m : ℕ) (q : Quote) → IsTable s → IsTable (update_kalshi s m q)
unfolding update_kalshi
update_kalshi-IsTable s m q v = elim (Bool-cases (ltb m 1024)) [
  | inl e ↦
      rw (e, update_kalshi) (with_markets-IsTable s _ (length-set s.markets m _ ∙ v.markets_full) v)
  | inr e ↦ rw (e, update_kalshi) v
]

update_poly-IsTable :
    (s : GlobalState) (m : ℕ) (q : Quote) → IsTable s → IsTable (update_poly s m q)
unfolding update_poly
update_poly-IsTable s m q v = elim (Bool-cases (ltb m 1024)) [
  | inl e ↦
      rw (e, update_poly) (with_markets-IsTable s _ (length-set s.markets m _ ∙ v.markets_full) v)
  | inr e ↦ rw (e, update_poly) v
]

run-IsTable : (ops : List Op) (s : GlobalState) → IsTable s → IsTable (run ops s)
unfolding run apply
run-IsTable [] s v = v
run-IsTable (add pair ∷ ops) s v = run-IsTable ops (add_pair s pair).0 (add_pair-IsTable s pair v)
run-IsTable (kalshi_book m q ∷ ops) s v =
    run-IsTable ops (update_kalshi s m q) (update_kalshi-IsTable s m q v)
run-IsTable (poly_book m q ∷ ops) s v =
    run-IsTable ops (update_poly s m q) (update_poly-IsTable s m q v)

new-IsTable : IsTable new
unfolding new get_id_by_kalshi get_id_by_poly lookup
new-IsTable = record {
  markets_full = length-replicate 1024 new_market;
  metadata_full = length-replicate {A = Option MarketPair} 1024 none;
  ids_bounded = omega arith;
  kalshi_found = λ ticker id e. cc;
  poly_found = λ condition id e. cc;
}

-- After any sequence of additions and book updates on a new table, both arrays have 1024 entries,
-- at most 1024 ids are given out, and each lookup by ticker or by condition leads to an id that
-- was given out and whose metadata has the key that was looked up.
pub run-new-IsTable : (ops : List Op) → IsTable (run ops new)
run-new-IsTable ops = run-IsTable ops new new-IsTable
