-- ===== src/CircuitBreaker/Limits.antt =====
-- The position limits of rust_core/src/circuit_breaker.rs: an execution that `can_execute` lets
-- through, and that adds at most the contracts asked for, keeps the positions within the limits.
use arbees.Prelude.{ℕ, ◌+◌, ◌≤◌, ◌<◌, ◌^◌, ◌≡◌, refl, String, true, none, some, [], ◌∷◌, arith}
use arbees.Prelude.Int.{ℤ, pos, pos_part, nat_abs, ◌+ℤ◌, nat_abs-+ℤ}
use arbees.Prelude.Word.{add_i64, add_i64_exact, abs_i64_exact}
use arbees.Prelude.Dict.{Dict, lookup, insert}
use arbees.CircuitBreaker.{
  CircuitBreaker, MarketPosition, no_position, Config, total, market_total, sum_totals,
  check_limits, can_execute, is_trading_allowed, returns, add_contracts, record_success,
}

-- The contracts of a market on both platforms, as a number.
abbrev pub contracts_of : MarketPosition → ℕ
contracts_of p = nat_abs p.kalshi_contracts + nat_abs p.poly_contracts

abbrev pub sum_contracts : Dict MarketPosition → ℕ
sum_contracts [] = 0
sum_contracts ((k, p) ∷ m) = contracts_of p + sum_contracts m

abbrev pub EachAtMost : ℕ → Dict MarketPosition → Type 0
EachAtMost n [] = Unit
EachAtMost n ((k, p) ∷ m) = (contracts_of p ≤ n) × EachAtMost n m

-- No market, and not all of them together, holds more contracts than the configuration allows.
pub record IsWithin (c : Config) (m : Dict MarketPosition) : Type 0 where
  pub each_within : EachAtMost (pos_part c.max_position_per_market) m
  pub sum_within : sum_contracts m ≤ pos_part c.max_total_position

-- Limits far below what `i64` holds.
pub record IsModest (c : Config) : Type 0 where
  pub market_modest : pos_part c.max_position_per_market < 2 ^ 62
  pub total_modest : pos_part c.max_total_position < 2 ^ 62

total_exact : (p : MarketPosition) → contracts_of p < 2 ^ 63 → total p ≡ pos (contracts_of p)
unfolding total ◌+ℤ◌
total_exact p h =
    rw
      (
        abs_i64_exact p.kalshi_contracts (omega arith),
        abs_i64_exact p.poly_contracts (omega arith),
        add_i64_exact (pos (nat_abs p.kalshi_contracts)) (pos (nat_abs p.poly_contracts))
            (omega arith),
      )
      (ground arith)

sum_totals_exact :
    (m : Dict MarketPosition) → sum_contracts m < 2 ^ 63 → sum_totals m ≡ pos (sum_contracts m)
unfolding sum_totals ◌+ℤ◌
sum_totals_exact [] h = refl
sum_totals_exact ((k, p) ∷ m) h =
    rw
      (
        total_exact p (omega arith),
        sum_totals_exact m (omega arith),
        add_i64_exact (pos (contracts_of p)) (pos (sum_contracts m)) (omega arith),
      )
      (ground arith)

position_of : Dict MarketPosition → String → MarketPosition
position_of m id = elim (lookup id m) [ none ↦ no_position | some p ↦ p ]

position_of-le :
    (m : Dict MarketPosition) (id : String) → contracts_of (position_of m id) ≤ sum_contracts m
unfolding position_of lookup
position_of-le [] id = omega arith
position_of-le ((k, p) ∷ m) id = ground (arith, position_of-le m id)

market_total_exact :
    (m : Dict MarketPosition) (id : String)
    → sum_contracts m < 2 ^ 63
    → market_total m id ≡ pos (contracts_of (position_of m id))
unfolding market_total position_of
market_total_exact m id h = ground (arith, position_of-le m id, total_exact (position_of m id))

sum_contracts-insert :
    (m : Dict MarketPosition) (id : String) (p : MarketPosition)
    → sum_contracts (insert id p m) + contracts_of (position_of m id)
      ≡ sum_contracts m + contracts_of p
unfolding position_of lookup insert
sum_contracts-insert [] id p = omega arith
sum_contracts-insert ((k, q) ∷ m) id p = ground (arith, sum_contracts-insert m id p)

EachAtMost-insert :
    (n : ℕ) (m : Dict MarketPosition) (id : String) (p : MarketPosition)
    → EachAtMost n m
    → contracts_of p ≤ n
    → EachAtMost n (insert id p m)
unfolding insert
EachAtMost-insert n [] id p e h = (h, tt)
EachAtMost-insert n ((k, q) ∷ m) id p e h = ground (arith, EachAtMost-insert n m id p e.1 h)

-- The totals that `check_limits` reads are the exact ones.
check_limits_sound :
    (c : Config) (m : Dict MarketPosition) (id : String) (n : ℤ)
    → IsModest c
    → IsWithin c m
    → nat_abs n < 2 ^ 62
    → check_limits c m id n ≡ none
    → (contracts_of (position_of m id) + nat_abs n ≤ pos_part c.max_position_per_market)
      × (sum_contracts m + nat_abs n ≤ pos_part c.max_total_position)
unfolding check_limits ◌+ℤ◌
check_limits_sound c m id n modest w b h =
    let one = market_total_exact m id (omega arith) in
    let all = sum_totals_exact m (omega arith) in
    let size = abs_i64_exact n (omega arith) in
    let first =
      add_i64_exact (pos (contracts_of (position_of m id))) (pos (nat_abs n))
        (omega (arith, position_of-le m id)) in
    let second = add_i64_exact (pos (sum_contracts m)) (pos (nat_abs n)) (omega arith) in
    let h' = rw (one, all, size, first, second) at h in ground arith

-- The position that `add_contracts` writes.
added : MarketPosition → ℤ → ℤ → MarketPosition
added p k n = record {
  kalshi_contracts = add_i64 p.kalshi_contracts k;
  poly_contracts = add_i64 p.poly_contracts n;
}

added-le :
    (p : MarketPosition) (k n : ℤ)
    → contracts_of p + nat_abs k + nat_abs n < 2 ^ 63
    → contracts_of (added p k n) ≤ contracts_of p + nat_abs k + nat_abs n
unfolding added
added-le p k n h =
    rw
      (
        add_i64_exact p.kalshi_contracts k (omega arith),
        add_i64_exact p.poly_contracts n (omega arith),
      )
      (omega (arith, nat_abs-+ℤ p.kalshi_contracts k, nat_abs-+ℤ p.poly_contracts n))

add_contracts_lem :
    (m : Dict MarketPosition) (id : String) (k n : ℤ)
    → add_contracts m id k n ≡ insert id (added (position_of m id) k n) m
unfolding add_contracts added position_of
add_contracts_lem m id k n = refl

-- If `can_execute` of an enabled breaker lets an execution through, then booking it, with at most
-- the asked contracts on the two platforms together, keeps every market and the sum of all
-- markets within the limits. The limits and the request are below 2 ^ 62.
pub can_execute-IsWithin :
    (cb after : CircuitBreaker) (now : ℕ) (id : String) (n k p x : ℤ)
    → cb.config.enabled ≡ true
    → IsModest cb.config
    → IsWithin cb.config cb.positions
    → nat_abs n < 2 ^ 62
    → nat_abs k + nat_abs p ≤ nat_abs n
    → can_execute cb now id n ≡ (after, returns none)
    → IsWithin cb.config (record_success after id k p x).positions
unfolding can_execute is_trading_allowed record_success
can_execute-IsWithin cb after now id n k p x e modest w b small h =
    let same : (after.positions ≡ cb.positions)
        × (check_limits cb.config cb.positions id n ≡ none) =
      ground arith in
    let (one, sum) = check_limits_sound cb.config cb.positions id n modest w b same.1 in
    let new = added (position_of cb.positions id) k p in
    let bound = added-le (position_of cb.positions id) k p (omega arith) in
    rw (same.0, add_contracts_lem cb.positions id k p)
      (record {
        each_within =
            EachAtMost-insert (pos_part cb.config.max_position_per_market) cb.positions id new
              w.each_within (omega arith);
        sum_within = omega (arith, sum_contracts-insert cb.positions id new);
      })
