-- ===== src/Engine/Once.antt =====
-- That services/execution_service_rust sends at most one order for an idempotency key within the
-- time that the key is kept.
use mathlib.Core.Path.{subst}
use arbees.Prelude.{
  ℕ, ◌≡◌, ◌≢◌, ◌⊎◌, ◌≤◌, ◌<◌, ◌+◌, inl, inr, refl, ap, ◌∙◌, List, [], ◌∷◌, ◌++◌, All, All-append,
  length, length-append, sym, arith,
}
use arbees.Prelude.Float.{Float}
use arbees.Idempotency.{
  IdempotencyTracker, max_entries, entry_ttl, new_key, duplicate, check_and_record, check, clean,
  time_of,
}
use arbees.Idempotency
use arbees.Idempotency.Duplicates.{Before, check_and_record-again}
use arbees.Engine.State.{ExecutionRequest, World, ExecutionEngine}
use arbees.Engine.Balance.{DailyPnlTracker}
use arbees.Engine.Execute.{execute_among, safeguards}
use arbees.Engine.Service.{
  Service, Task, Op, request, task, balance, monitor, switch, cleanup, process_request, check_loss,
  act, act_all, apply, run,
}
use arbees.Engine.Sends.{
  execute-sends, execute_among-sends, execute_among-kept, safeguards-keys, safeguards-reached,
}

run-append :
    (ops ops' : List Idempotency.Op) (d : IdempotencyTracker)
    → Idempotency.run (ops ++ ops') d ≡ Idempotency.run ops' (Idempotency.run ops d)
unfolding Idempotency.run
run-append [] ops' d = refl
run-append (op ∷ ops) ops' d = run-append ops ops' (Idempotency.apply op d)

module _ {F : Type 0} (f : Float F) where
  -- The tracker is emptied only before a time.
  abbrev pub IsBeforeTask : ℕ → Task F → Type 0
  IsBeforeTask end (cleanup now) = now < end
  IsBeforeTask end _ = Unit

  -- A key is asked for, and the tracker emptied, only before a time.
  abbrev pub IsBefore : ℕ → Op F → Type 0
  IsBefore end (request w today q during) = (w.keyed_at < end) × All (IsBeforeTask end) during
  IsBefore end (task t) = IsBeforeTask end t

  -- The calls of the tracker among some turns and requests, at most.
  abbrev pub calls : List (Op F) → ℕ
  calls [] = 0
  calls (request w today q during ∷ ops) = (length during + 1) + calls ops
  calls (task t ∷ ops) = 1 + calls ops

  -- The keys after some calls are those after as many calls of the tracker, at most.
  abbrev Tracked : ℕ → ℕ → IdempotencyTracker → IdempotencyTracker → Type 0
  Tracked end n d d' =
      (ops : List Idempotency.Op) × (d' ≡ Idempotency.run ops d) × Before end ops × (length ops ≤ n)

  Tracked-then :
      (end n : ℕ) (d d' d'' : IdempotencyTracker)
      → (d' ≡ d) ⊎ ((op : Idempotency.Op) × (d' ≡ Idempotency.apply op d) × (time_of op < end))
      → Tracked end n d' d''
      → Tracked end (n + 1) d d''
  unfolding Idempotency.run
  Tracked-then end n d d' d'' (inl same) (ops, e, before, short) =
      (ops, e ∙ ap (λ d. Idempotency.run ops d) same, before, omega arith)
  Tracked-then end n d d' d'' (inr (op, same, soon)) (ops, e, before, short) =
      (op ∷ ops, e ∙ ap (λ d. Idempotency.run ops d) same, (soon, before), omega arith)

  Tracked-both :
      (end n m : ℕ) (d d' d'' : IdempotencyTracker)
      → Tracked end n d d'
      → Tracked end m d' d''
      → Tracked end (n + m) d d''
  Tracked-both end n m d d' d'' (ops, e, before, short) (ops', e', before', short') = (
    ops ++ ops',
    e' ∙ ap (λ d. Idempotency.run ops' d) e ∙ sym (run-append ops ops' d),
    All-append (λ op. time_of op < end) ops ops' before before',
    omega (arith, length-append ops ops', short, short'),
  )

  act-keys :
      (end : ℕ) (p : DailyPnlTracker F) (t : Task F) (e : ExecutionEngine F)
      → IsBeforeTask end t
      → ((act f p t e).idempotency ≡ e.idempotency)
        ⊎ ((key_op : Idempotency.Op) × ((act f p t e).idempotency
              ≡ Idempotency.apply key_op e.idempotency)
            × (time_of key_op < end))
  unfolding act check_loss Idempotency.apply time_of
  act-keys end p (cleanup now) e soon = inr (clean now, refl, soon)
  act-keys end p (switch up op) e soon = inl refl
  act-keys end p (balance answer now) e soon = inl (ground arith)
  act-keys end p monitor e soon = inl (ground arith)

  act_all-keys :
      (end : ℕ) (p : DailyPnlTracker F) (ts : List (Task F)) (e : ExecutionEngine F)
      → All (IsBeforeTask end) ts
      → Tracked end (length ts) e.idempotency ((act_all f p ts e).idempotency)
  unfolding act_all Idempotency.run
  act_all-keys end p [] e _ = ([], refl, tt, omega arith)
  act_all-keys end p (t ∷ ts) e (h, hs) =
      let (ops, same, before, short) =
        Tracked-then end (length ts) e.idempotency ((act f p t e).idempotency)
          ((act_all f p ts (act f p t e)).idempotency) (act-keys end p t e h)
          (act_all-keys end p ts (act f p t e) hs) in
      (ops, same, before, omega (arith, short))

  -- What the safeguards do to the keys, as calls of the tracker.
  called :
      (w : World F) (e : ExecutionEngine F) (q : ExecutionRequest F)
      → ((safeguards f w e q).0.idempotency ≡ e.idempotency)
        ⊎ ((safeguards f w e q).0.idempotency
            ≡ Idempotency.apply (check q.idempotency_key q.request_id w.keyed_at) e.idempotency)
  unfolding Idempotency.apply
  called w e q = safeguards-keys f w e q

  request-keys :
      (end : ℕ) (w : World F) (p : DailyPnlTracker F) (during : List (Task F))
      (e : ExecutionEngine F) (q : ExecutionRequest F)
      → w.keyed_at < end
      → All (IsBeforeTask end) during
      → Tracked end
          (length during + 1)
          e.idempotency
          ((execute_among f w (act_all f p during) e q).0.idempotency)
  unfolding time_of
  request-keys end w p during e q soon hs =
      let e' = (safeguards f w e q).0 in
      let kept = (execute_among-kept f w (act_all f p during) e q).2 in
      let (ops, same, before, short) = act_all-keys end p during e' hs in
      let rest : Tracked end (length during) e'.idempotency
          ((execute_among f w (act_all f p during) e q).0.idempotency) =
        (ops, kept ∙ same, before, short) in
      elim (called w e q) [
        | inl same ↦ Tracked-then end (length during) e.idempotency e'.idempotency _ (inl same) rest
        | inr asked ↦
            Tracked-then end (length during) e.idempotency e'.idempotency _
              (inr (check q.idempotency_key q.request_id w.keyed_at, asked, soon)) rest
      ]

  run-keys :
      (end : ℕ) (ops : List (Op F)) (s : Service F)
      → All (IsBefore end) ops
      → Tracked end (calls ops) s.engine.idempotency ((run f ops s).0.engine.idempotency)
  unfolding run apply process_request
  run-keys end [] s h = ([], (unfold Idempotency.run in refl), tt, omega arith)
  run-keys end (request w today q during ∷ ops) s ((h, h'), hs) =
      Tracked-both end (length during + 1) (calls ops) s.engine.idempotency _ _
        (request-keys end w s.pnl_tracker during s.engine q h h')
        (run-keys end ops ((apply f (request w today q during) s).0) hs)
  run-keys end (task t ∷ ops) s (h, hs) =
      let (kops, e, before, short) =
        Tracked-then end (calls ops) s.engine.idempotency _ _
          (act-keys end s.pnl_tracker t s.engine h)
          (run-keys end ops ((apply f (task t) s).0) hs) in
      (kops, e, before, omega (arith, short))

  -- If a request that asks for its key at `t` sends an order, then whatever comes before `t` + 300 s,
  -- no request with the same key sends an order that asks for it before `t` + 300 s, provided that
  -- the entries that the tracker had, the requests and the turns of other tasks since, and one more,
  -- are together at most 10000, so that no entry is evicted.
  pub run-sends_once :
      (s : Service F) (w w' : World F) (today today' : ℕ) (q q' : ExecutionRequest F)
      (during during' : List (Task F)) (ops : List (Op F))
      → (apply f (request w today q during) s).1 ≢ []
      → q'.idempotency_key ≡ q.idempotency_key
      → length s.engine.idempotency + 1 + (length during + calls ops) ≤ max_entries
      → All (IsBeforeTask (w.keyed_at + entry_ttl)) during
      → All (IsBefore (w.keyed_at + entry_ttl)) ops
      → w'.keyed_at < w.keyed_at + entry_ttl
      → (apply f
          (request w' today' q' during')
          ((run f ops ((apply f (request w today q during) s).0)).0)).1
        ≡ []
  unfolding apply process_request
  run-sends_once s w w' today today' q q' during during' ops sends same room turns before soon =
      let others = act_all f s.pnl_tracker during in
      let end = w.keyed_at + entry_ttl in
      elim (execute-sends f w s.engine q) [
        | inl nothing ↦ absurd (sends (execute_among-sends f w others s.engine q ∙ nothing))
        | inr (o, one, live) ↦
            let next = (apply f (request w today q during) s).0 in
            let last = (run f ops next).0 in
            let e1 = (safeguards f w s.engine q).0 in
            let reached =
              safeguards-reached f w s.engine q live.cleared.not_halted live.cleared.in_rate in
            let (kops, e, soon_ops, short) =
              Tracked-both end (length during) (calls ops) e1.idempotency ((others e1).idempotency)
                last.engine.idempotency (act_all-keys end s.pnl_tracker during e1 turns)
                (subst (λ k. Tracked end (calls ops) k last.engine.idempotency)
                  ((execute_among-kept f w others s.engine q).2) (run-keys end ops next before)) in
            let e' : last.engine.idempotency
                ≡ Idempotency.run kops (
                    (check_and_record s.engine.idempotency q.idempotency_key q.request_id
                      w.keyed_at).0) =
              e ∙ ap (λ d. Idempotency.run kops d) reached.1 in
            let again =
              check_and_record-again s.engine.idempotency q.idempotency_key q.request_id
                q'.request_id w.keyed_at w'.keyed_at kops live.cleared.new_request
                (omega (arith, short, room)) soon_ops soon in
            let last_others = act_all f last.pnl_tracker during' in
            execute_among-sends f w' last_others last.engine q'
            ∙ elim (execute-sends f w' last.engine q') [
              | inl nothing ↦ nothing
              | inr (o', one', live') ↦
                  let fresh : (check_and_record last.engine.idempotency q.idempotency_key
                        q'.request_id w'.keyed_at).1
                      ≡ new_key =
                    subst
                      (λ k.
                        (check_and_record last.engine.idempotency k q'.request_id w'.keyed_at).1
                        ≡ new_key)
                      same live'.cleared.new_request in
                  let dup : (check_and_record last.engine.idempotency q.idempotency_key
                        q'.request_id w'.keyed_at).1
                      ≡ duplicate w.keyed_at =
                    ap (λ d. (check_and_record d q.idempotency_key q'.request_id w'.keyed_at).1) e'
                    ∙ ap (λ x. x.1) again in
                  absurd (cc)
            ]
      ]
