-- ===== src/Engine/Leaving.antt =====
-- When the orders of services/execution_service_rust reach the exchanges, after the limiter has let
-- them through.
use arbees.Prelude.{ℕ, ◌≤◌, ◌+◌, ◌-◌, ◌*◌, List, [], ◌∷◌, map, All, All-append, arith}
use arbees.Prelude.Float.{Float}
use arbees.Prelude.Count.{within, count_if, within_cover}
use arbees.Engine.State.{Order}
use arbees.Engine.Service.{Stamp, stamp_of, Service, Op, request, task, apply, run}

module _ {F : Type 0} (f : Float F) where
  abbrev pub sent_times : List (Stamp × Order F) → List ℕ
  sent_times sent = map (λ x. x.0.admitted_at) sent

  abbrev pub left_times : List (Stamp × Order F) → List ℕ
  left_times sent = map (λ x. x.0.left_at) sent

  -- An order leaves after it is let through, by at most `delay`.
  abbrev pub IsPromptStamp : ℕ → Stamp → Type 0
  IsPromptStamp delay t = (t.admitted_at ≤ t.left_at) × (t.left_at ≤ t.admitted_at + delay)

  abbrev pub IsPromptOrder : ℕ → Stamp × Order F → Type 0
  IsPromptOrder delay (t, o) = IsPromptStamp delay t

  abbrev pub IsPrompt : ℕ → Op F → Type 0
  IsPrompt delay (request w today q during) = IsPromptStamp delay (stamp_of w)
  IsPrompt delay (task t) = Unit

  stamps-IsPrompt :
      (delay : ℕ) (t : Stamp) (orders : List (Order F))
      → IsPromptStamp delay t
      → All (IsPromptOrder delay) (map (λ o. (t, o)) orders)
  stamps-IsPrompt delay t [] h = tt
  stamps-IsPrompt delay t (o ∷ orders) h = (h, stamps-IsPrompt delay t orders h)

  pub run-IsPrompt :
      (delay : ℕ) (ops : List (Op F)) (s : Service F)
      → All (IsPrompt delay) ops
      → All (IsPromptOrder delay) ((run f ops s).1)
  unfolding run
  run-IsPrompt delay [] s h = tt
  run-IsPrompt delay (request w today q during ∷ ops) s (h, hs) =
      let next = apply f (request w today q during) s in
      All-append (IsPromptOrder delay) (map (λ o. (stamp_of w, o)) (next.1)) _
        (stamps-IsPrompt delay (stamp_of w) (next.1) h) (run-IsPrompt delay ops (next.0) hs)
  run-IsPrompt delay (task t ∷ ops) s (h, hs) = run-IsPrompt delay ops ((apply f (task t) s).0) hs

  -- What leaves in a window was let through in it or up to `delay` before.
  left_before :
      (window delay start : ℕ) (sent : List (Stamp × Order F))
      → All (IsPromptOrder delay) sent
      → within window start (left_times sent)
        ≤ within (window + delay) (start - delay) (sent_times sent)
  unfolding count_if
  left_before window delay start [] h = omega arith
  left_before window delay start (x ∷ sent) (h, hs) =
      ground (arith, left_before window delay start sent hs)

  -- If no window has more than `limit` orders let through and each leaves within `k` windows, no
  -- window has more than `k + 1` times that many leave.
  pub left_bounded :
      (window limit k start : ℕ) (sent : List (Stamp × Order F))
      → ((start : ℕ) → within window start (sent_times sent) ≤ limit)
      → All (IsPromptOrder (k * window)) sent
      → within window start (left_times sent) ≤ (k + 1) * limit
  left_bounded window limit k start sent h prompt = omega (
    arith,
    left_before window (k * window) start sent prompt,
    within_cover window limit k (start - k * window) (sent_times sent) h,
  )
