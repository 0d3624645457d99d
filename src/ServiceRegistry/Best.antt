-- ===== src/ServiceRegistry/Best.antt =====
-- The shard that services/orchestrator_rust/src/managers/shard_manager.rs chooses.
use arbees.Prelude.{
  ℕ, ◌≤◌, ◌<◌, ◌≡◌, ◌⊎◌, inl, inr, refl, Bool, true, ◌&&◌, none, some, List, [], ◌∷◌, All, All-map,
  filter, leb, ltb, Option-cases, Bool-cases, arith,
}
use mathlib.Core.Path.{subst}
use mathlib.Core.List.{Memᴰ}
use mathlib.Core.List.Memᴰ.{head, tail}
use arbees.Prelude.Json.{Json, and_then}
use arbees.ServiceRegistry.State.{
  ServiceState, ServiceRegistry, ServiceType, game_shard, same_type, available_capacity,
}
use arbees.ServiceRegistry.Health.{is_assignable, values, max_by_capacity}
use arbees.ServiceRegistry.Routing.{
  MarketType, ShardInfo, preferred_shard_type, get_healthy_shards_by_type, shard_info,
  select_best_from_shards, get_best_shard, get_best_shard_for_type,
}

-- An item of a filtered list is one of the list that passes.
filter_mem {ℓ} :
    {A : Type ℓ} (p : A → Bool) (a : A) (xs : List A)
    → Memᴰ a (filter p xs)
    → Memᴰ a xs × (p a ≡ true)
filter_mem p a [] h = elim h [ ]
filter_mem p a (x ∷ xs) h = elim (Bool-cases (p x)) [
  | inl passes ↦
      let h' : Memᴰ a (x ∷ filter p xs) = rw passes at h in
      elim h' [
        | head e ↦ (head e, rw e passes)
        | tail m ↦ let (m', ok) = filter_mem p a xs m in (tail m', ok)
      ]
  | inr fails ↦
      let h' : Memᴰ a (filter p xs) = rw fails at h in
      let (m', ok) = filter_mem p a xs h' in (tail m', ok)
]

-- What holds of the filtered items holds of those that pass.
filter-All {ℓ κ} :
    {A : Type ℓ} (P : A → Type κ) (p : A → Bool) (xs : List A)
    → All P (filter p xs)
    → All (λ x. p x ≡ true → P x) xs
filter-All P p [] h = tt
filter-All P p (x ∷ xs) h = elim (Bool-cases (p x)) [
  | inl passes ↦
      let (h', rest) : P x × All P (filter p xs) = rw passes at h in
      (λ ok. h', filter-All P p xs rest)
  | inr fails ↦ (λ ok. absurd (cc), filter-All P p xs (rw fails at h))
]

module _ {V : Type 0} (j : Json V) where
  abbrev capacity : ServiceState V → ℕ
  capacity s = available_capacity j s

  -- The greatest of a list that begins with `b`.
  record IsGreatest (b : ServiceState V) (ss : List (ServiceState V)) (m : ServiceState V)
      : Type 0 where
    pub among : (m ≡ b) ⊎ Memᴰ m ss
    pub first_le : capacity b ≤ capacity m
    pub others_le : All (λ s. capacity s ≤ capacity m) ss

  max_by_capacity-IsGreatest :
      (b : ServiceState V) (ss : List (ServiceState V))
      → (m : ServiceState V) × (max_by_capacity j (some b) ss ≡ some m) × IsGreatest b ss m
  unfolding max_by_capacity
  max_by_capacity-IsGreatest b [] =
      (b, refl, record { among = inl refl; first_le = omega arith; others_le = tt })
  max_by_capacity-IsGreatest b (s ∷ ss) = elim (Bool-cases (leb (capacity b) (capacity s))) [
    | inl more ↦
        let (m, same, v) = max_by_capacity-IsGreatest s ss in
        (
          m,
          rw more same,
          record {
            among = elim v.among [ inl e ↦ inr (head e) | inr h ↦ inr (tail h) ];
            first_le = ground (arith, v.first_le);
            others_le = (v.first_le, v.others_le);
          },
        )
    | inr less ↦
        let (m, same, v) = max_by_capacity-IsGreatest b ss in
        (
          m,
          rw less same,
          record {
            among = elim v.among [ inl e ↦ inl e | inr h ↦ inr (tail h) ];
            first_le = v.first_le;
            others_le = (ground (arith, v.first_le), v.others_le);
          },
        )
  ]

  -- What the filters by type let through.
  abbrev candidate : ServiceType → ServiceState V → Bool
  candidate kind s = same_type s.service_type kind && is_assignable s

  -- No assignable service of a type has room.
  abbrev pub IsFull : ServiceRegistry V → ServiceType → Type 0
  IsFull r kind = All (λ s. candidate kind s ≡ true → capacity s ≡ 0) (values r.services)

  -- A shard of the registry, of a type and assignable, with room and with the most of it.
  pub record IsBest (r : ServiceRegistry V) (kind : ServiceType) (info : ShardInfo) : Type 0 where
    pub chosen : ServiceState V
    pub described : info ≡ shard_info j chosen
    pub registered : Memᴰ chosen (values r.services)
    pub assignable : candidate kind chosen ≡ true
    pub has_room : 0 < capacity chosen
    pub most_room :
        All (λ s. candidate kind s ≡ true → capacity s ≤ capacity chosen) (values r.services)

  has_free : ServiceState V → Bool
  has_free s = ltb 0 (capacity s)

  -- The capacity of what has no room is 0, and so below any.
  room_le : (s : ServiceState V) (n : ℕ) → (has_free s ≡ true → capacity s ≤ n) → capacity s ≤ n
  unfolding has_free
  room_le s n h = ground (arith, h)

  chosen_of_type :
      (r : ServiceRegistry V) (kind : ServiceType) (shards : List (ServiceState V))
      → shards ≡ filter has_free (filter (candidate kind) (values r.services))
      → ((info : ShardInfo)
          → and_then (max_by_capacity j none shards) (λ s. some (shard_info j s)) ≡ some info
          → IsBest r kind info)
        × (and_then (max_by_capacity j none shards) (λ s. some (shard_info j s)) ≡ none
            → IsFull r kind)
  unfolding max_by_capacity has_free
  chosen_of_type r kind [] e = (
    λ info h. absurd (cc),
    λ h.
        let no_room : All (λ s. has_free s ≡ true → ⊥)
            (filter (candidate kind) (values r.services)) =
          filter-All (λ s. ⊥) has_free (filter (candidate kind) (values r.services))
            (rw (← e) tt) in
        All-map (λ s. candidate kind s ≡ true → has_free s ≡ true → ⊥)
          (λ s. candidate kind s ≡ true → capacity s ≡ 0) (λ s f ok. ground (arith, f ok))
          (values r.services)
          (filter-All (λ s. has_free s ≡ true → ⊥) (candidate kind) (values r.services) no_room),
  )
  chosen_of_type r kind (b ∷ ss) e =
      let (m, same, v) = max_by_capacity-IsGreatest b ss in
      let here : Memᴰ m (b ∷ ss) = elim v.among [
        | inl first ↦ head first
        | inr later ↦ tail later
      ] in
      let here' : Memᴰ m (filter has_free (filter (candidate kind) (values r.services))) =
        subst (Memᴰ m) e here in
      let (typed, free) =
        filter_mem has_free m (filter (candidate kind) (values r.services)) here' in
      let (known, ok) = filter_mem (candidate kind) m (values r.services) typed in
      let all : All (λ s. capacity s ≤ capacity m) (b ∷ ss) = (v.first_le, v.others_le) in
      let all' : All (λ s. capacity s ≤ capacity m)
          (filter has_free (filter (candidate kind) (values r.services))) =
        subst (All (λ s. capacity s ≤ capacity m)) e all in
      let freed : All (λ s. has_free s ≡ true → capacity s ≤ capacity m)
          (filter (candidate kind) (values r.services)) =
        filter-All (λ s. capacity s ≤ capacity m) has_free
          (filter (candidate kind) (values r.services)) all' in
      let most : All (λ s. capacity s ≤ capacity m) (filter (candidate kind) (values r.services)) =
        All-map (λ s. has_free s ≡ true → capacity s ≤ capacity m) (λ s. capacity s ≤ capacity m)
          (λ s h. room_le s (capacity m) h) (filter (candidate kind) (values r.services)) freed in
      (
        λ info h. record {
          chosen = m;
          described = ground (arith, same);
          registered = known;
          assignable = ok;
          has_room = ground arith;
          most_room =
              filter-All (λ s. capacity s ≤ capacity m) (candidate kind) (values r.services) most;
        },
        λ h. absurd (cc same),
      )

  selected :
      (r : ServiceRegistry V) (kind : ServiceType)
      → ((info : ShardInfo)
          → select_best_from_shards j (get_healthy_shards_by_type j r kind) ≡ some info
          → IsBest r kind info)
        × (select_best_from_shards j (get_healthy_shards_by_type j r kind) ≡ none → IsFull r kind)
  unfolding select_best_from_shards get_healthy_shards_by_type has_free
  selected r kind = chosen_of_type r kind _ refl

  -- A market goes to a shard that is known, healthy, operational, with a closed circuit and with
  -- room, and no such shard of its type has more room: one of the type that the market prefers, or
  -- a game shard if none of those has room. No shard is given only if none of either has room.
  pub get_best_shard_for_type_lem :
      (r : ServiceRegistry V) (market : MarketType)
      → ((info : ShardInfo)
          → get_best_shard_for_type j r market ≡ some info
          → IsBest r (preferred_shard_type market) info
            ⊎ (IsFull r (preferred_shard_type market) × IsBest r game_shard info))
        × (get_best_shard_for_type j r market ≡ none
            → IsFull r (preferred_shard_type market) × IsFull r game_shard)
  unfolding get_best_shard_for_type get_best_shard
  get_best_shard_for_type_lem r market =
      let (first, first_full) = selected r (preferred_shard_type market) in
      let (game, game_full) = selected r game_shard in
      elim (Option-cases (
        select_best_from_shards j (get_healthy_shards_by_type j r (preferred_shard_type market)))) [
          | inr (found, e) ↦ (λ info h. inl (first info (ground arith)), λ h. absurd (ground arith))
          | inl e ↦ (
            λ info h. inr (first_full e, game info (ground arith)),
            λ h. (first_full e, game_full (ground arith)),
          )
        ]
