-- ===== src/CryptoArbitrage/Requests.antt =====
-- What services/crypto_shard_rust/src/signals/arbitrage.rs requests.
use arbees.Prelude.{
  ◌≡◌, refl, ◌⊎◌, inl, inr, Option-cases, Bool-cases, true, false, none, some, List, [], ◌∷◌, arith,
  String, All,
}
use text.Mathlib.Text.{◌==◌}
use arbees.Prelude.Float.{Float}
use arbees.Engine.State.{ok}
use arbees.CryptoRisk.{
  RiskError, CryptoRiskChecker, Queries, Verdict, accepted, refused, validate_trade,
}
use arbees.CryptoRisk.Exposure.{IsRounded, IsSafe, validate_trade-IsSafe}
use arbees.CryptoArbitrage.{
  CryptoPriceData, CryptoExecutionRequest, CryptoArbitrageDetector, Call, arbitrage, long,
  asset_prices, best_bid, best_ask, net_edge_pct, request_of, trade_of, emit, detect_and_emit,
}

module _ {F : Type 0} (f : Float F) where
  abbrev pub IsAmong : CryptoPriceData F → List (CryptoPriceData F) → Type 0
  IsAmong x [] = ⊥
  IsAmong x (p ∷ prices) = (x ≡ p) ⊎ IsAmong x prices

  -- The order of `f64`; `le a a` says that a is a number.
  pub record IsOrder : Type 0 where
    pub lt_irrefl : (a : F) → f.lt a a ≡ false
    pub lt_trans : (a b c : F) → f.lt a b ≡ true → f.lt b c ≡ true → f.lt a c ≡ true
    pub cut : (a b c : F) → f.le b b ≡ true → f.lt a b ≡ false → f.lt b c ≡ false → f.lt a c ≡ false

  abbrev pub AreNumbers : CryptoPriceData F → Type 0
  AreNumbers p = (f.le p.yes_bid p.yes_bid ≡ true) × (f.le p.yes_ask p.yes_ask ≡ true)

  best_ask-least :
      (prices : List (CryptoPriceData F)) (best found : CryptoPriceData F)
      → IsOrder
      → AreNumbers best
      → All AreNumbers prices
      → best_ask f prices (some best) ≡ some found
      → All (λ p. f.lt p.yes_ask found.yes_ask ≡ false) (best ∷ prices)
  unfolding best_ask
  best_ask-least [] best found o nb ns e = (ground (arith, e, o.lt_irrefl best.yes_ask), tt)
  best_ask-least (p ∷ prices) best found o nb (np, ns) e =
      elim (Bool-cases (f.lt p.yes_ask best.yes_ask)) [
        | inl less ↦
            let (hp, hs) = best_ask-least prices p found o np ns (ground (arith, less)) in
            (ground (arith, hp, less, o.lt_trans p.yes_ask best.yes_ask found.yes_ask), (hp, hs))
        | inr more ↦
            let (hb, hs) = best_ask-least prices best found o nb ns (ground (arith, more)) in
            (hb, (o.cut p.yes_ask best.yes_ask found.yes_ask (nb.1) more hb, hs))
      ]

  best_bid-greatest :
      (prices : List (CryptoPriceData F)) (best found : CryptoPriceData F)
      → IsOrder
      → AreNumbers best
      → All AreNumbers prices
      → best_bid f prices (some best) ≡ some found
      → All (λ p. f.lt found.yes_bid p.yes_bid ≡ false) (best ∷ prices)
  unfolding best_bid
  best_bid-greatest [] best found o nb ns e = (ground (arith, e, o.lt_irrefl best.yes_bid), tt)
  best_bid-greatest (p ∷ prices) best found o nb (np, ns) e =
      elim (Bool-cases (f.lt best.yes_bid p.yes_bid)) [
        | inl less ↦
            let (hp, hs) = best_bid-greatest prices p found o np ns (ground (arith, less)) in
            (ground (arith, hp, less, o.lt_trans found.yes_bid best.yes_bid p.yes_bid), (hp, hs))
        | inr more ↦
            let (hb, hs) = best_bid-greatest prices best found o nb ns (ground (arith, more)) in
            (hb, (o.cut found.yes_bid best.yes_bid p.yes_bid (nb.0) hb more, hs))
      ]

  best_ask-IsAmong :
      (prices : List (CryptoPriceData F)) (best found : CryptoPriceData F)
      → best_ask f prices (some best) ≡ some found
      → IsAmong found (best ∷ prices)
  unfolding best_ask
  best_ask-IsAmong [] best found e = inl (ground (arith, e))
  best_ask-IsAmong (p ∷ prices) best found e = elim (Bool-cases (f.lt p.yes_ask best.yes_ask)) [
    | inl less ↦ inr (best_ask-IsAmong prices p found (ground (arith, less)))
    | inr more ↦ elim (best_ask-IsAmong prices best found (ground (arith, more))) [
      | inl same ↦ inl same
      | inr later ↦ inr (inr later)
    ]
  ]

  best_bid-IsAmong :
      (prices : List (CryptoPriceData F)) (best found : CryptoPriceData F)
      → best_bid f prices (some best) ≡ some found
      → IsAmong found (best ∷ prices)
  unfolding best_bid
  best_bid-IsAmong [] best found e = inl (ground (arith, e))
  best_bid-IsAmong (p ∷ prices) best found e = elim (Bool-cases (f.lt best.yes_bid p.yes_bid)) [
    | inl less ↦ inr (best_bid-IsAmong prices p found (ground (arith, less)))
    | inr more ↦ elim (best_bid-IsAmong prices best found (ground (arith, more))) [
      | inl same ↦ inl same
      | inr later ↦ inr (inr later)
    ]
  ]

  -- The edge in percent of the ask that is left of a bid and an ask once the fee is paid on both.
  abbrev pub edge_after_fees : F → F → F → F
  edge_after_fees fee_pct bid ask =
      f.mul
        (f.div (f.sub (f.sub bid ask) (f.mul (f.div fee_pct (f.ratio 100 1)) (f.add bid ask))) ask)
        (f.ratio 100 1)

  -- A request to buy an asset at a price, in a size.
  pub record IsPurchase (c : Call F) (buy : CryptoPriceData F) (edge size : F)
      (r : CryptoExecutionRequest F) : Type 0 where
    pub same_call : (r.event_id ≡ c.event_id) × (r.asset ≡ c.asset) × (r.request_id ≡ c.request_id)
    pub is_long : r.direction ≡ long
    pub is_arbitrage : r.signal_type ≡ arbitrage
    pub market : (r.platform ≡ buy.platform) × (r.market_id ≡ buy.market_id)
    pub price : (r.current_price ≡ buy.yes_ask) × (r.max_price ≡ f.add buy.yes_ask (f.ratio 1 100))
    pub edge_and_size : (r.edge_pct ≡ edge) × (r.suggested_size ≡ size)
    pub other :
        (r.probability ≡ f.ratio 1 2)
        × (r.timestamp ≡ c.now)
        × (r.volatility_factor ≡ c.volatility_factor)
        × (r.exposure_check ≡ true)
        × (r.balance_check ≡ true)

  -- An arbitrage of these prices: what is sold high and what is bought low.
  pub record IsArbitrage (d : CryptoArbitrageDetector F) (c : Call F) (s : CryptoRiskChecker F)
      (q : Queries F) (found : List (CryptoPriceData F)) (r : CryptoExecutionRequest F)
      : Type 0 where
    pub sell : CryptoPriceData F
    pub buy : CryptoPriceData F
    pub sell_among : IsAmong sell found
    pub buy_among : IsAmong buy found
    pub greatest : All (λ p. f.lt sell.yes_bid p.yes_bid ≡ false) found
    pub least : All (λ p. f.lt p.yes_ask buy.yes_ask ≡ false) found
    pub two_platforms : (sell.platform == buy.platform) ≡ false
    pub edge : F
    pub size : F
    pub edge_is : edge ≡ edge_after_fees d.fee_pct sell.yes_bid buy.yes_ask
    pub has_edge : f.lt edge d.min_edge_pct ≡ false
    pub requested : IsPurchase c buy edge size r
    pub is_safe : IsSafe f s q (trade_of f d c buy edge) size

  request_of-IsPurchase :
      (c : Call F) (buy : CryptoPriceData F) (edge size : F) (r : CryptoExecutionRequest F)
      → r ≡ request_of f c buy edge size
      → IsPurchase c buy edge size r
  unfolding request_of
  request_of-IsPurchase c buy edge size r same = ground (arith, same)

  best_ask-none :
      (prices : List (CryptoPriceData F)) (found : CryptoPriceData F)
      → IsOrder
      → All AreNumbers prices
      → best_ask f prices none ≡ some found
      → IsAmong found prices × All (λ p. f.lt p.yes_ask found.yes_ask ≡ false) prices
  unfolding best_ask
  best_ask-none [] found o n e = ground arith
  best_ask-none (p ∷ prices) found o (n, ns) e =
      (best_ask-IsAmong prices p found e, best_ask-least prices p found o n ns e)

  best_bid-none :
      (prices : List (CryptoPriceData F)) (found : CryptoPriceData F)
      → IsOrder
      → All AreNumbers prices
      → best_bid f prices none ≡ some found
      → IsAmong found prices × All (λ p. f.lt found.yes_bid p.yes_bid ≡ false) prices
  unfolding best_bid
  best_bid-none [] found o n e = ground arith
  best_bid-none (p ∷ prices) found o (n, ns) e =
      (best_bid-IsAmong prices p found e, best_bid-greatest prices p found o n ns e)

  Verdict-cases :
      (v : Verdict F)
      → ((size : F) × (v ≡ accepted size)) ⊎ ((reason : RiskError) × (v ≡ refused reason))
  Verdict-cases (accepted size) = inl (size, refl)
  Verdict-cases (refused reason) = inr (reason, refl)

  -- What a request of `emit` says of the two prices.
  emit-some :
      (d : CryptoArbitrageDetector F) (c : Call F) (q : Queries F) (s : CryptoRiskChecker F)
      (sell buy : CryptoPriceData F) (r : CryptoExecutionRequest F)
      → (emit f d c q s sell buy).1 ≡ ok (some r)
      → ((sell.platform == buy.platform) ≡ false)
        × (f.lt (net_edge_pct f d sell.yes_bid buy.yes_ask) d.min_edge_pct ≡ false)
        × ((size : F) × (r ≡ request_of f c buy (net_edge_pct f d sell.yes_bid buy.yes_ask) size)
            × ((validate_trade f s q
                  (trade_of f d c buy (net_edge_pct f d sell.yes_bid buy.yes_ask))).1
                ≡ accepted size))
  unfolding emit
  emit-some d c q s sell buy r e =
      let edge = net_edge_pct f d sell.yes_bid buy.yes_ask in
      elim (Verdict-cases ((validate_trade f s q (trade_of f d c buy edge)).1)) [
        | inl (size, passes) ↦ (ground arith, ground arith, (size, ground (arith, passes), passes))
        | inr (reason, fails) ↦ ground (arith, fails)
      ]

  -- When the prices of the asset are numbers, a request buys, at its ask and on its market, one of
  -- them whose ask is the lowest; its edge is what is left, after the fee on both, of selling at the
  -- highest bid of another of them, which is on another platform; the edge is not below the minimum
  -- and the size is one that the risk checks accept. The order of numbers is that of `f64` and
  -- rounding keeps it.
  pub detect_and_emit-IsArbitrage :
      (d : CryptoArbitrageDetector F) (c : Call F) (prices : List (String × CryptoPriceData F))
      (q : Queries F) (s : CryptoRiskChecker F) (r : CryptoExecutionRequest F)
      → IsOrder
      → IsRounded f
      → All AreNumbers (asset_prices f c.asset prices)
      → (detect_and_emit f d c prices q s).1 ≡ ok (some r)
      → IsArbitrage d c s q (asset_prices f c.asset prices) r
  unfolding detect_and_emit
  detect_and_emit-IsArbitrage d c prices q s r o rounded n e =
      let found = asset_prices f c.asset prices in
      elim (Option-cases (best_bid f found none)) [
        | inl no_bid ↦ ground (arith, no_bid)
        | inr (sell, bid) ↦ elim (Option-cases (best_ask f found none)) [
          | inl no_ask ↦ ground (arith, bid, no_ask)
          | inr (buy, ask) ↦
              let (platforms, edge, (size, same, safe)) =
                emit-some d c q s sell buy r (ground (arith, bid, ask)) in
              record {
                sell = sell;
                buy = buy;
                size = size;
                edge = net_edge_pct f d sell.yes_bid buy.yes_ask;
                edge_is = unfold net_edge_pct in refl;
                requested =
                    request_of-IsPurchase c buy (net_edge_pct f d sell.yes_bid buy.yes_ask) size r
                      same;
                sell_among = (best_bid-none found sell o n bid).0;
                buy_among = (best_ask-none found buy o n ask).0;
                greatest = (best_bid-none found sell o n bid).1;
                least = (best_ask-none found buy o n ask).1;
                two_platforms = platforms;
                has_edge = edge;
                is_safe =
                    validate_trade-IsSafe f s q
                      (trade_of f d c buy (net_edge_pct f d sell.yes_bid buy.yes_ask)) size rounded
                      safe;
              }
        ]
      ]
