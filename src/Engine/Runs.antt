-- ===== src/Engine/Runs.antt =====
-- The orders that services/execution_service_rust sends in any run of calls, counted in time.
use arbees.Prelude.{
  ℕ, ◌≡◌, ◌⊎◌, ◌≤◌, ◌+◌, inl, inr, refl, ap, ◌∙◌, Bool, ◌&&◌, leb, List, [], ◌∷◌, ◌++◌, map, All,
  ◌*◌, arith,
}
use mathlib.Core.Path.{subst}
use arbees.Prelude.Float.{Float}
use arbees.Prelude.Count.{within, count_if, count_if-append}
use arbees.RateLimiter.{RateLimiter, one_minute, one_hour, log_order}
use arbees.RateLimiter
use arbees.RateLimiter.Reference.{Ascending, Ascending-weaken}
use arbees.RateLimiter.Windows.{run_windows}
use arbees.KillSwitch.{KillSwitch}
use arbees.Idempotency.{IdempotencyTracker}
use arbees.Engine.State.{ExecutionRequest, SafeguardConfig, World, Order, ExecutionEngine}
use arbees.Engine.Balance.{DailyPnlTracker}
use arbees.Engine.Execute.{execute_among, safeguards}
use arbees.Engine.Service.{
  Stamp, stamp_of, Service, Task, Op, request, task, process_request, act, act_all, apply, stamped,
  run, started, with_safeguards,
}
use arbees.Engine.Leaving.{sent_times, left_times, IsPrompt, run-IsPrompt, left_bounded}
use arbees.Engine.Sends.{
  execute-sends, execute_among-sends, execute_among-kept, safeguards-limiter, safeguards-reached,
  act-limiter,
}

module _ {F : Type 0} (f : Float F) where
  -- The readings that the limiter takes never go back.
  abbrev pub InOrder : ℕ → List (Op F) → Type 0
  InOrder t [] = Unit
  InOrder t (request w today q during ∷ ops) = (t ≤ w.limited_at) × InOrder w.limited_at ops
  InOrder t (task u ∷ ops) = InOrder t ops

  abbrev times_at : ℕ → List (Order F) → List ℕ
  times_at now orders = map (λ o. now) orders

  act_all-limiter :
      (d : DailyPnlTracker F) (ts : List (Task F)) (e : ExecutionEngine F)
      → (act_all f d ts e).rate_limiter ≡ e.rate_limiter
  unfolding act_all
  act_all-limiter d [] e = refl
  act_all-limiter d (t ∷ ts) e = act_all-limiter d ts (act f d t e) ∙ act-limiter f d t e

  -- A request leaves the limiter and sends nothing, or is one call of the limiter, which lets
  -- through whatever is sent.
  request_limiter :
      (w : World F) (others : ExecutionEngine F → ExecutionEngine F) (e : ExecutionEngine F)
      (q : ExecutionRequest F)
      → ((e : ExecutionEngine F) → (others e).rate_limiter ≡ e.rate_limiter)
      → (((execute_among f w others e q).0.rate_limiter ≡ e.rate_limiter)
          × ((execute_among f w others e q).2 ≡ []))
        ⊎ (((execute_among f w others e q).0.rate_limiter
              ≡ (RateLimiter.check_and_record e.rate_limiter w.limited_at).0)
            × ((window start : ℕ)
                → within window start (times_at w.limited_at ((execute_among f w others e q).2))
                  ≤ within window start (
                      log_order
                        ((RateLimiter.check_and_record e.rate_limiter w.limited_at).1)
                        w.limited_at)))
  unfolding count_if
  request_limiter w others e q keeps =
      let limiter = (execute_among-kept f w others e q).1 ∙ keeps ((safeguards f w e q).0) in
      let sends = execute_among-sends f w others e q in
      elim (execute-sends f w e q) [
        | inl nothing ↦ elim (safeguards-limiter f w e q) [
          | inl same ↦ inl (limiter ∙ same, sends ∙ nothing)
          | inr called ↦ inr (limiter ∙ called, λ window start. rw (sends ∙ nothing) (omega arith))
        ]
        | inr (o, one, live) ↦
            let reached = safeguards-reached f w e q live.cleared.not_halted live.cleared.in_rate in
            inr (
              limiter ∙ reached.0,
              λ window start. rw (sends ∙ one, live.cleared.in_rate) (omega arith),
            )
      ]

  sent_times-stamped :
      (t : Stamp) (orders : List (Order F)) (later : List (Stamp × Order F))
      → sent_times f (map (λ o. (t, o)) orders ++ later)
        ≡ times_at t.admitted_at orders ++ sent_times f later
  sent_times-stamped t [] later = refl
  sent_times-stamped t (o ∷ orders) later =
      ap (λ xs. t.admitted_at ∷ xs) (sent_times-stamped t orders later)

  -- The limiter at work on the requests that reach it lets through what the service sends.
  abbrev IsBounded : List (Op F) → Service F → ℕ → Type 0
  IsBounded ops s t =
      (asked : List ℕ) × Ascending t asked
      × ((window start : ℕ)
          → within window start (sent_times f ((run f ops s).1))
            ≤ within window start ((RateLimiter.run s.engine.rate_limiter asked).1))

  IsBounded-request :
      (w : World F) (today : ℕ) (q : ExecutionRequest F) (during : List (Task F))
      (ops : List (Op F)) (s : Service F) (t : ℕ)
      → t ≤ w.limited_at
      → IsBounded ops ((apply f (request w today q during) s).0) w.limited_at
      → IsBounded (request w today q during ∷ ops) s t
  unfolding run apply process_request count_if RateLimiter.run
  IsBounded-request w today q during ops s t h (asked, order, bound) =
      let others = act_all f s.pnl_tracker during in
      let orders = (execute_among f w others s.engine q).2 in
      let next = (apply f (request w today q during) s).0 in
      let sent = sent_times f ((run f ops next).1) in
      let split : (window start : ℕ)
          → within window start (sent_times f ((run f (request w today q during ∷ ops) s).1))
            ≡ within window start (times_at w.limited_at orders) + within window start sent =
        λ window start.
          ap (within window start) (sent_times-stamped (stamp_of w) orders ((run f ops next).1))
          ∙ count_if-append (λ x. leb start x && leb x (start + window))
              (times_at w.limited_at orders) sent in
      elim (request_limiter w others s.engine q (act_all-limiter s.pnl_tracker during)) [
        | inl (same, nothing) ↦ (
          asked,
          Ascending-weaken t w.limited_at asked h order,
          λ window start.
              let bound' : within window start sent
                  ≤ within window start ((RateLimiter.run s.engine.rate_limiter asked).1) =
                subst
                  (λ r.
                    within window start sent ≤ within window start ((RateLimiter.run r asked).1))
                  same (bound window start) in
              let none_sent : within window start (times_at w.limited_at orders) ≡ 0 =
                rw nothing refl in
              omega (arith, split window start, none_sent, bound'),
        )
        | inr (called, few) ↦
            let r = RateLimiter.check_and_record s.engine.rate_limiter w.limited_at in
            (
              w.limited_at ∷ asked,
              unfold Ascending in (h, order),
              λ window start.
                  let bound' : within window start sent
                      ≤ within window start ((RateLimiter.run (r.0) asked).1) =
                    subst
                      (λ r.
                        within window start sent
                        ≤ within window start ((RateLimiter.run r asked).1))
                      called (bound window start) in
                  omega (
                    arith,
                    split window start,
                    few window start,
                    bound',
                    count_if-append (λ x. leb start x && leb x (start + window))
                        (log_order (r.1) w.limited_at) ((RateLimiter.run (r.0) asked).1),
                  ),
            )
      ]

  IsBounded-other :
      (op : Op F) (ops : List (Op F)) (s s' : Service F) (t : ℕ)
      → s'.engine.rate_limiter ≡ s.engine.rate_limiter
      → (run f (op ∷ ops) s).1 ≡ (run f ops s').1
      → IsBounded ops s' t
      → IsBounded (op ∷ ops) s t
  IsBounded-other op ops s s' t same sent (asked, order, bound) =
      (asked, order, λ window start. rw (sent, ← same) (bound window start))

  other_limiter :
      (op : Op F) (s : Service F)
      → (stamped f op ((apply f op s).1) ≡ [])
      → (apply f op s).0.engine.rate_limiter ≡ s.engine.rate_limiter
      → (t : ℕ) (ops : List (Op F)) → IsBounded ops ((apply f op s).0) t
      → IsBounded (op ∷ ops) s t
  unfolding run
  other_limiter op s nothing same t ops v =
      IsBounded-other op ops s ((apply f op s).0) t same (rw nothing refl) v

  run-IsBounded : (ops : List (Op F)) (s : Service F) (t : ℕ) → InOrder t ops → IsBounded ops s t
  unfolding run apply
  run-IsBounded [] s t order =
      ([], unfold Ascending in tt, λ window start. unfold RateLimiter.run count_if in omega arith)
  run-IsBounded (request w today q during ∷ ops) s t (h, order) =
      IsBounded-request w today q during ops s t h
        (run-IsBounded ops ((apply f (request w today q during) s).0) w.limited_at order)
  run-IsBounded (task u ∷ ops) s t order =
      other_limiter (task u) s refl (act-limiter f s.pnl_tracker u s.engine) t ops
        (run-IsBounded ops ((apply f (task u) s).0) t order)

  -- While the clock of the limiter does not go back, whatever requests come and whatever balances,
  -- checks of the daily loss, switches and cleanups come between and during them, of the orders that
  -- the service sends to the exchanges the limiter has let through in any minute, wherever it
  -- starts, at most `max_orders_per_minute`, and in any hour at most `max_orders_per_hour`. If each
  -- order reaches the exchange at most `k` minutes after it was let through, then at most `k + 1`
  -- times `max_orders_per_minute` reach the exchanges in any minute.
  pub run_order_windows :
      (paper_trading has_credentials has_executor : Bool) (c : SafeguardConfig F)
      (kill_switch : KillSwitch) (idempotency : IdempotencyTracker) (today k : ℕ)
      (ops : List (Op F))
      → InOrder 0 ops
      → All (IsPrompt f (k * one_minute)) ops
      → (start : ℕ)
      → let engine =
          with_safeguards f paper_trading has_credentials has_executor c kill_switch idempotency in
        let sent = (run f ops (started f engine today)).1 in
        (within one_minute start (sent_times f sent) ≤ c.max_orders_per_minute)
        × (within one_hour start (sent_times f sent) ≤ c.max_orders_per_hour)
        × (within one_minute start (left_times f sent) ≤ (k + 1) * c.max_orders_per_minute)
  unfolding started with_safeguards
  run_order_windows paper_trading has_credentials has_executor c kill_switch idempotency today k ops
        order prompt start =
      let engine =
        with_safeguards f paper_trading has_credentials has_executor c kill_switch idempotency in
      let sent = (run f ops (started f engine today)).1 in
      let (asked, ascending, bound) = run-IsBounded ops (started f engine today) 0 order in
      let windows = run_windows c.max_orders_per_minute c.max_orders_per_hour asked ascending in
      let minutes : (start : ℕ)
          → within one_minute start (sent_times f sent) ≤ c.max_orders_per_minute =
        λ start. omega (arith, bound one_minute start, (windows start).0) in
      (
        minutes start,
        omega (arith, bound one_hour start, (windows start).1),
        left_bounded f one_minute c.max_orders_per_minute k start sent minutes
            (run-IsPrompt f (k * one_minute) ops (started f engine today) prompt),
      )
