-- ===== src/Engine/Loss.antt =====
-- What the monitor of services/execution_service_rust/src/main.rs does at the daily loss limit.
use mathlib.Core.Path.{subst}
use arbees.Prelude.{
  ◌≡◌, ◌≤◌, refl, sym, ap, ◌∙◌, ℕ, Bool, true, false, some, List, [], ◌∷◌, ◌++◌, length, map, All,
  arith,
}
use arbees.Prelude.Float.{Float}
use arbees.KillSwitch.{is_enabled, enable}
use arbees.KillSwitch.Halt.{IsNoResume, apply-enabled}
use arbees.Engine.State.{ExecutionRequest, World, Order, ExecutionEngine, kill_switch_active}
use arbees.Engine.Balance.{DailyPnlTracker, get_loss_utilization}
use arbees.Engine.Execute.{execute_among, execute, safeguards}
use arbees.Engine.Service.{
  Stamp, stamp_of, Service, Task, Op, request, task, monitor, switch, process_request, check_loss,
  act, act_all, apply, run,
}
use arbees.Engine.Sends.{length-execute, execute_among-sends, execute_among-kept, safeguards-config}

module _ {F : Type 0} (f : Float F) where
  -- A turn that does not ask to resume.
  abbrev pub IsNoResumeTask : Task F → Type 0
  IsNoResumeTask (switch to_uppercase op) = IsNoResume to_uppercase op
  IsNoResumeTask _ = Unit

  abbrev pub IsNotResumed : Op F → Type 0
  IsNotResumed (request w today q during) = All IsNoResumeTask during
  IsNotResumed (task t) = IsNoResumeTask t

  abbrev pub is_halted : ExecutionEngine F → Bool
  is_halted e = e.kill_switch.enabled

  safeguards-halted :
      (w : World F) (e : ExecutionEngine F) (q : ExecutionRequest F)
      → is_halted e ≡ true
      → ((safeguards f w e q).1 ≡ some kill_switch_active)
        × (is_halted ((safeguards f w e q).0) ≡ true)
  unfolding safeguards is_enabled
  safeguards-halted w e q h = ground arith

  execute-halted :
      (w : World F) (e : ExecutionEngine F) (q : ExecutionRequest F)
      → is_halted e ≡ true
      → (execute f w e q).2 ≡ []
  unfolding execute execute_among
  execute-halted w e q h = ground (arith, safeguards-halted w e q h)

  act-halted :
      (d : DailyPnlTracker F) (t : Task F) (e : ExecutionEngine F)
      → is_halted e ≡ true
      → IsNoResumeTask t
      → is_halted (act f d t e) ≡ true
  unfolding act check_loss enable
  act-halted d (switch up op) e h p = apply-enabled up op e.kill_switch h p
  act-halted d _ e h p = ground arith

  act_all-halted :
      (d : DailyPnlTracker F) (ts : List (Task F)) (e : ExecutionEngine F)
      → is_halted e ≡ true
      → All IsNoResumeTask ts
      → is_halted (act_all f d ts e) ≡ true
  unfolding act_all
  act_all-halted d [] e h _ = h
  act_all-halted d (t ∷ ts) e h (p, ps) =
      act_all-halted d ts (act f d t e) (act-halted d t e h p) ps

  -- The tasks leave the configuration.
  act-config :
      (d : DailyPnlTracker F) (t : Task F) (e : ExecutionEngine F)
      → ((act f d t e).config ≡ e.config) × ((act f d t e).paper_trading ≡ e.paper_trading)
  unfolding act check_loss
  act-config d t e = ground arith

  -- A monitor that finds the limit used halts the engine for the turns that follow.
  act_all-monitor :
      (d : DailyPnlTracker F) (before after : List (Task F)) (e : ExecutionEngine F)
      → e.paper_trading ≡ false
      → f.le (f.ratio 1 1) (get_loss_utilization f d e.config.max_daily_loss) ≡ true
      → All IsNoResumeTask after
      → is_halted (act_all f d (before ++ (monitor ∷ after)) e) ≡ true
  unfolding act_all
  act_all-monitor d [] after e live spent ps =
      act_all-halted d after (act f d monitor e) (unfold act check_loss enable in ground arith) ps
  act_all-monitor d (t ∷ before) after e live spent ps =
      let (config, paper) = act-config d t e in
      act_all-monitor d before after (act f d t e) (paper ∙ live)
        (subst (λ c. f.le (f.ratio 1 1) (get_loss_utilization f d c.max_daily_loss) ≡ true)
          (sym config) spent)
        ps

  run-halted :
      (ops : List (Op F)) (s : Service F)
      → is_halted s.engine ≡ true
      → All IsNotResumed ops
      → (run f ops s).1 ≡ []
  unfolding run apply process_request
  run-halted [] s h _ = refl
  run-halted (request w today q during ∷ ops) s h (p, ps) =
      let others = act_all f s.pnl_tracker during in
      let nothing = execute_among-sends f w others s.engine q ∙ execute-halted w s.engine q h in
      let still =
        ap (λ k. k.enabled) ((execute_among-kept f w others s.engine q).0)
        ∙ act_all-halted s.pnl_tracker during ((safeguards f w s.engine q).0)
            ((safeguards-halted w s.engine q h).1) p in
      rw nothing (run-halted ops _ still ps)
  run-halted (task t ∷ ops) s h (p, ps) =
      run-halted ops _ (act-halted s.pnl_tracker t s.engine h p) ps

  length-stamps :
      (now : Stamp) (orders : List (Order F)) (later : List (Stamp × Order F))
      → length orders ≤ 1
      → later ≡ []
      → length (map (λ o. (now, o)) orders ++ later) ≤ 1
  length-stamps now [] later h e = rw e (omega arith)
  length-stamps now (o ∷ []) later h e = rw e (omega arith)
  length-stamps now (o ∷ p ∷ orders) later h e = absurd (omega arith)

  -- When the monitor of live trading finds the whole of the daily loss limit used, then whatever
  -- comes that does not ask to resume, no order is sent after that if it runs between two requests,
  -- and if it runs while a request waits, none but at most the one order of that request.
  pub run-loss_limit :
      (s : Service F) (w : World F) (today : ℕ) (q : ExecutionRequest F)
      (before after : List (Task F)) (ops : List (Op F))
      → s.engine.paper_trading ≡ false
      → f.le (f.ratio 1 1) (get_loss_utilization f s.pnl_tracker s.engine.config.max_daily_loss)
        ≡ true
      → All IsNoResumeTask after
      → All IsNotResumed ops
      → ((run f (task monitor ∷ ops) s).1 ≡ [])
        × (length ((run f (request w today q (before ++ (monitor ∷ after)) ∷ ops) s).1) ≤ 1)
        × ((run f ops ((apply f (request w today q (before ++ (monitor ∷ after))) s).0)).1 ≡ [])
  unfolding run apply process_request
  run-loss_limit s w today q before after ops live spent halts ps =
      let during = before ++ (monitor ∷ after) in
      let others = act_all f s.pnl_tracker during in
      let e' = (safeguards f w s.engine q).0 in
      let (config, paper) = safeguards-config f w s.engine q in
      let halted =
        ap (λ k. k.enabled) ((execute_among-kept f w others s.engine q).0)
        ∙ act_all-monitor s.pnl_tracker before after e' (paper ∙ live)
            (subst
              (λ c.
                f.le (f.ratio 1 1) (get_loss_utilization f s.pnl_tracker c.max_daily_loss) ≡ true)
              (sym config) spent)
            halts in
      let nothing = run-halted ops ((apply f (request w today q during) s).0) halted ps in
      (
        run-halted ops _ (unfold act check_loss enable in ground arith) ps,
        length-stamps (stamp_of w) ((execute_among f w others s.engine q).2) _
            (rw (execute_among-sends f w others s.engine q) (length-execute f w s.engine q))
            nothing,
        nothing,
      )
