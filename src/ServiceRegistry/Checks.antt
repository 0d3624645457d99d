-- ===== src/ServiceRegistry/Checks.antt =====
-- What a health check of services/orchestrator_rust/src/managers/service_registry.rs makes of the
-- status of a service.
use arbees.Prelude.{ℕ, ◌≡◌, ◌↔◌, Bool, true, false, arith}
use arbees.Prelude.Int.{pos, ltb_ℤ}
use arbees.Prelude.Word.{wrap_i64}
use arbees.ServiceRegistry.State.{ServiceState, Config, healthy, degraded, dead, seconds_since}
use arbees.ServiceRegistry.Health.{
  check_service, check_alive, check_degraded, is_service_operational,
}

module _ {V : Type 0} where
  abbrev pub in_time : Config → ServiceState V → ℕ → Bool
  in_time c s now = ltb_ℤ (seconds_since s.last_heartbeat now) (wrap_i64 (pos c.shard_timeout_secs))

  -- After a check a service is dead exactly when its last heartbeat is as old as the timeout, and
  -- a healthy one is operational, and an operational one is not degraded.
  pub check_service-status :
      (c : Config) (s : ServiceState V) (now : ℕ)
      → (((check_service c s now).state.status ≡ dead) ↔ (in_time c s now ≡ false))
        × ((check_service c s now).state.status ≡ healthy
            → is_service_operational ((check_service c s now).state) ≡ true)
        × ((check_service c s now).state.status ≡ degraded
            → is_service_operational ((check_service c s now).state) ≡ false)
  unfolding check_service check_alive check_degraded is_service_operational
  check_service-status c s now = ground arith
