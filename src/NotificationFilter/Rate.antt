-- ===== src/NotificationFilter/Rate.antt =====
-- How many notifications services/notification_service_rust/src/filters.rs sends in a window.
use arbees.Prelude.{
  append_nil, append_assoc, ℕ, ◌+◌, ◌-◌, ◌≤◌, ◌<◌, ◌≡◌, ◌⊎◌, inl, inr, refl, sym, ◌∙◌, Bool, true,
  false, ◌&&◌, List, [], ◌∷◌, ◌++◌, leb, ltb, if◌then◌else◌, length, drop_while, arith,
}
use arbees.Prelude.Count.{
  count_if, count_if-append, count_if-le, count_if-drop_while, within, within-append, count_since,
}
use arbees.NotificationFilter.{
  Config, NotificationFilter, new, is_critical, check_rate_limit, should_notify, Request, log_sent,
  run,
}

-- Requests whose instants never go back.
unfoldable pub InOrder : ℕ → List Request → Type 0
InOrder t [] = Unit
InOrder t (r ∷ rs) = (t ≤ r.now) × InOrder r.now rs

-- The instants of the requests that the rate limit is held against.
unfoldable pub counted : Config → List Request → List ℕ
counted cfg [] = []
counted cfg (r ∷ rs) =
    let rest = counted cfg rs in
    if cfg.rate_limit_bypass_critical && is_critical r.priority then rest else r.now ∷ rest

-- A filter after the counted instants of `log`, when no request has come after `t`.
record Keeps (cfg : Config) (f : NotificationFilter) (log : List ℕ) (t : ℕ) : Type 0 where
  pub same_cfg : f.cfg ≡ cfg
  pub same_count :
      (c : ℕ)
      → t ≤ c + cfg.rate_limit_window
      → count_if (leb c) f.sent_timestamps ≡ count_if (leb c) log
  pub windows : (start : ℕ) → within cfg.rate_limit_window start log ≤ cfg.rate_limit_max_per_minute

Keeps-later :
    (cfg : Config) (f : NotificationFilter) (log : List ℕ) (t now : ℕ)
    → Keeps cfg f log t
    → t ≤ now
    → Keeps cfg f (log ++ []) now
Keeps-later cfg f log t now v h = rw (append_nil log) (record {
  same_cfg = v.same_cfg;
  same_count = λ c k. v.same_count c (omega arith);
  windows = v.windows;
})

abbrev kept : Config → NotificationFilter → ℕ → List ℕ
kept cfg f now = drop_while (λ sent. ltb cfg.rate_limit_window (now - sent)) f.sent_timestamps

kept-count :
    (cfg : Config) (f : NotificationFilter) (log : List ℕ) (t now c : ℕ)
    → Keeps cfg f log t
    → t ≤ now
    → now ≤ c + cfg.rate_limit_window
    → count_if (leb c) (kept cfg f now) ≡ count_if (leb c) log
kept-count cfg f log t now c v h k =
    count_if-drop_while (leb c) (λ sent. ltb cfg.rate_limit_window (now - sent)) f.sent_timestamps
      (λ x d p. ground arith)
    ∙ v.same_count c (omega arith)

abbrev instant_if : Bool → ℕ → List ℕ
instant_if b now = if b then now ∷ [] else []

-- What one check keeps and answers.
check_rate_limit-cases :
    (cfg : Config) (f : NotificationFilter) (now : ℕ)
    → f.cfg ≡ cfg
    → ((check_rate_limit f now).0.cfg ≡ cfg)
      × ((check_rate_limit f now).0.sent_timestamps
          ≡ kept cfg f now ++ instant_if ((check_rate_limit f now).1) now)
      × ((check_rate_limit f now).1 ≡ true
          → length (kept cfg f now) < cfg.rate_limit_max_per_minute)
unfolding check_rate_limit
check_rate_limit-cases cfg f now e = rw (sym e) (ground (arith, append_nil (kept f.cfg f now)))

within-instant_if :
    (window start now limit : ℕ) (log : List ℕ) (b : Bool)
    → within window start log ≤ limit
    → (b ≡ true → count_since window now log < limit)
    → within window start (log ++ instant_if b now) ≤ limit
within-instant_if window start now limit log true old few =
    within-append window start now limit log old (few refl)
within-instant_if window start now limit log false old few = rw (append_nil log) old

check_rate_limit-Keeps :
    (cfg : Config) (f : NotificationFilter) (log : List ℕ) (t now : ℕ)
    → Keeps cfg f log t
    → t ≤ now
    → Keeps cfg
        ((check_rate_limit f now).0)
        (log ++ instant_if ((check_rate_limit f now).1) now)
        now
check_rate_limit-Keeps cfg f log t now v h =
    let b = (check_rate_limit f now).1 in
    let window = cfg.rate_limit_window in
    let (same, store, room) = check_rate_limit-cases cfg f now v.same_cfg in
    let recent = kept-count cfg f log t now (now - window) v h (omega arith) in
    let few = count_if-le (leb (now - window)) (kept cfg f now) in
    record {
      same_cfg = same;
      same_count = λ c k. rw (
        store,
        count_if-append (leb c) (kept cfg f now) (instant_if b now),
        count_if-append (leb c) log (instant_if b now),
        kept-count cfg f log t now c v h k,
      );
      windows = λ start.
          within-instant_if window start now cfg.rate_limit_max_per_minute log b (v.windows start)
            (λ ok. omega (arith, recent, few, room ok));
    }

-- A request is answered by the rate limit, or changes nothing and is not counted if it is sent.
should_notify-cases :
    (cfg : Config) (f : NotificationFilter) (r : Request)
    → f.cfg ≡ cfg
    → (((should_notify f r.priority r.now_local r.now).0 ≡ (check_rate_limit f r.now).0)
        × (counted cfg (log_sent ((should_notify f r.priority r.now_local r.now).1) r)
            ≡ instant_if ((check_rate_limit f r.now).1) r.now))
      ⊎ (((should_notify f r.priority r.now_local r.now).0 ≡ f)
          × (counted cfg (log_sent ((should_notify f r.priority r.now_local r.now).1) r) ≡ []))
unfolding should_notify counted
should_notify-cases cfg f r e = rw (sym e) (ground arith)

counted-append :
    (cfg : Config) (rs ss : List Request)
    → counted cfg (rs ++ ss) ≡ counted cfg rs ++ counted cfg ss
unfolding counted
counted-append cfg [] ss = refl
counted-append cfg (r ∷ rs) ss = ground (arith, counted-append cfg rs ss)

should_notify-Keeps :
    (cfg : Config) (f : NotificationFilter) (r : Request) (log : List ℕ) (t : ℕ)
    → Keeps cfg f log t
    → t ≤ r.now
    → Keeps cfg
        ((should_notify f r.priority r.now_local r.now).0)
        (log ++ counted cfg (log_sent ((should_notify f r.priority r.now_local r.now).1) r))
        r.now
should_notify-Keeps cfg f r log t v h = elim (should_notify-cases cfg f r v.same_cfg) [
  | inl (same, more) ↦ rw (same, more) (check_rate_limit-Keeps cfg f log t r.now v h)
  | inr (same, more) ↦ rw (same, more) (Keeps-later cfg f log t r.now v h)
]

run-Keeps :
    (cfg : Config) (rs : List Request) (f : NotificationFilter) (log : List ℕ) (t : ℕ)
    → Keeps cfg f log t
    → InOrder t rs
    → (start : ℕ)
    → within cfg.rate_limit_window start (log ++ counted cfg ((run f rs).1))
      ≤ cfg.rate_limit_max_per_minute
unfolding run InOrder counted
run-Keeps cfg [] f log t v o start = rw (append_nil log) (v.windows start)
run-Keeps cfg (r ∷ rs) f log t v (h, o) start =
    let next = (should_notify f r.priority r.now_local r.now).0 in
    let sent = log_sent ((should_notify f r.priority r.now_local r.now).1) r in
    let rest =
      run-Keeps cfg rs next (log ++ counted cfg sent) r.now (should_notify-Keeps cfg f r log t v h)
        o start in
    rw
      (
        counted-append cfg sent ((run next rs).1),
        sym (append_assoc log (counted cfg sent) (counted cfg ((run next rs).1))),
      )
      rest

-- If instants never go back, a new filter sends in any window of the configured length, wherever
-- it starts, at most the configured number of notifications, critical ones apart where these
-- bypass the rate limit.
pub run_sent_windows :
    (cfg : Config) (rs : List Request)
    → InOrder 0 rs
    → (start : ℕ)
    → within cfg.rate_limit_window start (counted cfg ((run (new cfg) rs).1))
      ≤ cfg.rate_limit_max_per_minute
unfolding new count_if
run_sent_windows cfg rs o start =
    let empty : Keeps cfg (new cfg) [] 0 = record {
      same_cfg = refl;
      same_count = λ c k. refl;
      windows = λ s. omega arith;
    } in
    run-Keeps cfg rs (new cfg) [] 0 empty o start
