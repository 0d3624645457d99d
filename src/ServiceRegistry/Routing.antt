-- ===== src/ServiceRegistry/Routing.antt =====
-- The choice of a shard in services/orchestrator_rust/src/managers/shard_manager.rs, and the
-- tracking of assignments and the resyncs of
-- services/orchestrator_rust/src/managers/service_registry.rs.
use text.Mathlib.Text.{◌==◌}
use arbees.Prelude.{
  ℕ, zero, suc, String, Bool, true, false, ◌&&◌, Option, none, some, List, [], ◌∷◌, ◌++◌, ltb,
  if◌then◌else◌, filter, map, length,
}
use arbees.Prelude.Int.{ℤ, pos, ltb_ℤ}
use arbees.Prelude.Dict.{Dict, lookup}
use arbees.Prelude.Json.{Json, and_then, or_else, unwrap_or}
use arbees.Prelude.Text.{with_item}
use arbees.ServiceRegistry.State.{
  ServiceType, game_shard, crypto_shard, polymarket_monitor, kalshi_monitor, other, same_type,
  ServiceState, ServiceRegistry, GameAssignment, Message, notify, add_game, polymarket_assign,
  kalshi_assign, service_resync_complete, available_capacity, modify, seconds_since,
}
use arbees.ServiceRegistry.Health.{is_assignable, values, max_by_capacity}

-- The kinds of rust_core/src/models/market_type.rs; what they carry does not matter here.
pub data MarketType : Type 0 where
  sport crypto economics politics entertainment : MarketType

abbrev pub is_sport : MarketType → Bool
is_sport sport = true
is_sport _ = false

abbrev pub preferred_shard_type : MarketType → ServiceType
preferred_shard_type sport = game_shard
preferred_shard_type _ = crypto_shard

pub record ShardInfo : Type 0 where
  pub shard_id : String
  pub game_count : ℕ
  pub max_games : ℕ
  pub games : List String
  pub last_heartbeat : ℕ
  pub is_healthy : Bool

abbrev pub take {ℓ} : {A : Type ℓ} → ℕ → List A → List A
take zero xs = []
take (suc n) [] = []
take (suc n) (x ∷ xs) = x ∷ take n xs

module _ {V : Type 0} (j : Json V) where
  unfoldable pub get_healthy_shards_by_type :
      ServiceRegistry V → ServiceType → List (ServiceState V)
  get_healthy_shards_by_type r shard_type =
      filter (λ s. same_type s.service_type shard_type && is_assignable s) (values r.services)

  abbrev pub shard_info : ServiceState V → ShardInfo
  shard_info s = record {
    shard_id = s.instance_id;
    game_count = length s.assigned_games;
    max_games = unwrap_or (and_then (lookup "max_games" s.metrics) j.as_u64) 20;
    games = s.assigned_games;
    last_heartbeat = s.last_heartbeat;
    is_healthy = true;
  }

  unfoldable pub select_best_from_shards : List (ServiceState V) → Option ShardInfo
  select_best_from_shards shards =
      and_then (max_by_capacity j none (filter (λ s. ltb 0 (available_capacity j s)) shards))
        (λ s. some (shard_info s))

  unfoldable pub get_best_shard : ServiceRegistry V → Option ShardInfo
  get_best_shard r = select_best_from_shards (get_healthy_shards_by_type r game_shard)

  unfoldable pub get_best_shard_for_type : ServiceRegistry V → MarketType → Option ShardInfo
  get_best_shard_for_type r market_type =
      or_else
        (select_best_from_shards (get_healthy_shards_by_type r (preferred_shard_type market_type)))
        (or_else (if is_sport market_type then none else get_best_shard r) (get_best_shard r))

  unfoldable pub track_assignment : ServiceRegistry V → String → String → ServiceRegistry V
  track_assignment r shard_id game_id = record r {
    services =
        modify shard_id (λ s. record s { assigned_games = with_item game_id s.assigned_games })
          r.services;
  }

  abbrev pub assigned_to : String → Dict GameAssignment → List GameAssignment
  assigned_to shard_id [] = []
  assigned_to shard_id ((game, a) ∷ rest) =
      if a.shard_id == shard_id then a ∷ assigned_to shard_id rest else assigned_to shard_id rest

  -- Each game of the shard once more, and what has been done.
  pub resync_game_shard : ServiceState V → Dict GameAssignment → List Message
  resync_game_shard s assignments =
      let games = assigned_to s.instance_id assignments in
      elim games [
        | [] ↦ []
        | a ∷ more ↦
            map (add_game s.instance_id) (a ∷ more)
            ++ (notify (service_resync_complete s.instance_id (length (a ∷ more))) ∷ [])
      ]

  -- An age of less than 30 whole minutes.
  abbrev pub recent_assignments : Dict GameAssignment → ℕ → List GameAssignment
  recent_assignments [] now = []
  recent_assignments ((game, a) ∷ rest) now =
      let age : ℤ = seconds_since a.assigned_at now in
      if ltb_ℤ age (pos 1_800) then a ∷ recent_assignments rest now else recent_assignments rest now

  -- A message that Redis does not take keeps the next one from being sent.
  pub broadcast_market_assignment : (Message → Bool) → GameAssignment → List Message
  broadcast_market_assignment takes a =
      let kalshi : List Message = elim a.kalshi_market_id [
        | none ↦ []
        | some id ↦ kalshi_assign a.game_id id ∷ []
      ] in
      elim a.polymarket_market_id [
        | none ↦ kalshi
        | some id ↦
            let poly = polymarket_assign a.game_id id in
            if takes poly then poly ∷ kalshi else poly ∷ []
      ]

  pub broadcast_all : (Message → Bool) → List GameAssignment → List Message
  broadcast_all takes [] = []
  broadcast_all takes (a ∷ as') = broadcast_market_assignment takes a ++ broadcast_all takes as'

  resync_as :
      ServiceType → (Message → Bool) → ServiceState V → Dict GameAssignment → ℕ → List Message
  resync_as game_shard takes s assignments now = resync_game_shard s assignments
  resync_as crypto_shard takes s assignments now = resync_game_shard s assignments
  resync_as (other name) takes s assignments now = []
  resync_as polymarket_monitor takes s assignments now =
      broadcast_all takes (take 10 (recent_assignments assignments now))
  resync_as kalshi_monitor takes s assignments now =
      broadcast_all takes (take 10 (recent_assignments assignments now))

  -- One service at a time, after the pause that lets it settle.
  unfoldable pub process_pending_resyncs :
      (Message → Bool)
      → ServiceRegistry V
      → Dict GameAssignment
      → ℕ
      → ServiceRegistry V × List Message
  unfolding resync_as
  process_pending_resyncs takes r assignments now = elim r.pending_resyncs [
    | [] ↦ (r, [])
    | key ∷ rest ↦ (
      record r { pending_resyncs = rest },
      elim (lookup key r.services) [
        | none ↦ []
        | some s ↦ resync_as s.service_type takes s assignments now
      ],
    )
  ]
