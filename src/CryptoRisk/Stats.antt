-- ===== src/CryptoRisk/Stats.antt =====
-- What the statistics of services/crypto_shard_rust/src/signals/risk.rs count.
use arbees.Prelude.{
  ℕ, ◌+◌, ◌%◌, ◌^◌, ◌<◌, ◌≡◌, inl, inr, Option-cases, Bool, true, false, List, [], ◌∷◌, length,
  arith, if◌then◌else◌,
}
use arbees.Prelude.Float.{Float}
use arbees.CryptoRisk.{
  next_u64, CryptoRiskChecker, Queries, Trade, Verdict, accepted, refused, query_failed, block, cap,
  get_asset_exposure, get_total_crypto_exposure, scale, check_duplicate, check_total, check_asset,
  validate_trade, stats, run,
}

-- An error of the database is no block.
abbrev pub is_blocked : {F : Type 0} → Verdict F → Bool
is_blocked (accepted size) = false
is_blocked (refused query_failed) = false
is_blocked (refused reason) = true

abbrev pub blocked_of : {F : Type 0} → List (Verdict F) → ℕ
blocked_of [] = 0
blocked_of (v ∷ vs) = if is_blocked v then blocked_of vs + 1 else blocked_of vs

module _ {F : Type 0} (f : Float F) where
  -- Whether a check counts its verdict.
  Counts : CryptoRiskChecker F → CryptoRiskChecker F × Verdict F → Type 0
  Counts s r =
      (r.0.trades_validated ≡ s.trades_validated)
      × (r.0.trades_blocked
          ≡ (if is_blocked (r.1) then next_u64 s.trades_blocked else s.trades_blocked))

  check_duplicate-Counts :
      (q : Queries F) (t : Trade F) (s : CryptoRiskChecker F) (size : F)
      → Counts s (check_duplicate f q t s size)
  unfolding check_duplicate block Counts
  check_duplicate-Counts q t s size = ground arith

  check_total-Counts :
      (q : Queries F) (t : Trade F) (s : CryptoRiskChecker F) (size : F)
      → Counts s (check_total f q t s size)
  unfolding check_total block Counts
  check_total-Counts q t s size = elim (Option-cases (get_total_crypto_exposure f q)) [
    | inl failed ↦ ground (arith, failed)
    | inr (current, known) ↦ elim (Option-cases (cap f s.max_total_exposure current size)) [
      | inl reached ↦ ground (arith, known, reached)
      | inr (left, passes) ↦ ground (arith, known, passes, check_duplicate-Counts q t s left)
    ]
  ]

  check_asset-Counts :
      (q : Queries F) (t : Trade F) (s : CryptoRiskChecker F) (size : F)
      → Counts s (check_asset f q t s size)
  unfolding check_asset block Counts
  check_asset-Counts q t s size = elim (Option-cases (get_asset_exposure f q t.asset)) [
    | inl failed ↦ ground (arith, failed)
    | inr (current, known) ↦ elim (Option-cases (cap f s.max_asset_exposure current size)) [
      | inl reached ↦ ground (arith, known, reached)
      | inr (left, passes) ↦ ground (arith, known, passes, check_total-Counts q t s left)
    ]
  ]

  scale-counts :
      (s : CryptoRiskChecker F) (factor size : F)
      → ((scale f s factor size).0.trades_validated ≡ s.trades_validated)
        × ((scale f s factor size).0.trades_blocked ≡ s.trades_blocked)
  unfolding scale
  scale-counts s factor size = ground arith

  validate_trade-counts :
      (s : CryptoRiskChecker F) (q : Queries F) (t : Trade F)
      → ((validate_trade f s q t).0.trades_validated ≡ next_u64 s.trades_validated)
        × ((validate_trade f s q t).0.trades_blocked ≡ (
            if is_blocked ((validate_trade f s q t).1)
            then next_u64 s.trades_blocked
            else s.trades_blocked))
  unfolding validate_trade block Counts
  validate_trade-counts s q t =
      let counted = record s { trades_validated = next_u64 s.trades_validated } in
      let size = f.min t.suggested_size s.max_position_size in
      let scaled = scale f counted t.volatility_factor size in
      ground (
        arith,
        check_asset-Counts q t (scaled.0) (scaled.1),
        scale-counts counted t.volatility_factor size,
      )

  -- After any trades the statistics have grown by their number and by the number of those that a
  -- check blocked, up to overflow; a trade that an error of the database ends is not blocked.
  pub run-stats :
      (s : CryptoRiskChecker F) (trades : List (Queries F × Trade F))
      → s.trades_validated < 2 ^ 64
      → s.trades_blocked < 2 ^ 64
      → ((stats f (run f s trades).0).trades_validated
          ≡ (s.trades_validated + length trades) % 2 ^ 64)
        × ((stats f (run f s trades).0).trades_blocked
            ≡ (s.trades_blocked + blocked_of ((run f s trades).1)) % 2 ^ 64)
  unfolding run
  run-stats s [] hv hb = ground arith
  run-stats s ((q, t) ∷ earlier) hv hb =
      ground (arith, run-stats s earlier hv hb, validate_trade-counts ((run f s earlier).0) q t)
