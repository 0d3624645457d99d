-- ===== src/RateLimiter/Tests.antt =====
-- Runs of the limiter of services/execution_service_rust/src/rate_limiter.rs.
use arbees.Prelude.{ℕ, ◌≤◌, ◌≡◌, refl, List, [], ◌∷◌, arith}
use arbees.RateLimiter.{one_minute, one_hour, new, run, check_and_record}
use arbees.RateLimiter.Reference.{Ascending, reference, run-refines_reference}
use arbees.Prelude.Count.{within}
use arbees.RateLimiter.Windows.{run_windows}

-- Four orders in a second, and one two minutes later.
abbrev burst : List ℕ
burst = 1_000_000_000 ∷ 1_200_000_000 ∷ 1_400_000_000 ∷ 1_600_000_000 ∷ 121_600_000_000 ∷ []

burst-Ascending : Ascending 0 burst
unfolding Ascending
burst-Ascending = (omega arith, (omega arith, (omega arith, (omega arith, (omega arith, tt)))))

-- The third and the fourth order of the burst are refused.
burst_orders : (run (new 2 10) burst).1 ≡ (1_000_000_000 ∷ 1_200_000_000 ∷ 121_600_000_000 ∷ [])
unfolding run new check_and_record
burst_orders = refl

run-refines_reference_example : (run (new 2 10) burst).1 ≡ reference 2 10 [] burst
run-refines_reference_example = run-refines_reference 2 10 burst burst-Ascending

run_windows_example :
    (within one_minute 1_100_000_000 ((run (new 2 10) burst).1) ≤ 2)
    × (within one_hour 1_100_000_000 ((run (new 2 10) burst).1) ≤ 10)
run_windows_example = run_windows 2 10 burst burst-Ascending 1_100_000_000
