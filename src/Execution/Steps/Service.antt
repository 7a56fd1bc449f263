-- ===== src/Execution/Steps/Service.antt =====
-- What the reconciliation jobs, the watchdog and a pass of the execution service leave
-- (packages/execution/src/autotrader/execution/reconcile.py, watchdog.py and service.py).
use kometa.Prelude.{
  ◌≡◌, refl, zero, suc, ℕ, Bool, true, false, String, Option, some, none, List, [], ◌∷◌, Result, ok,
  err, if◌then◌else◌,
}
use kometa.Core.Time.{Datetime}
use kometa.Core.Models.{HaltCommand}
use kometa.Execution.Journal.{TrackedOrder, ReconEpisode}
use kometa.Execution.World.{now, Effect, Env, World, Failure, halting, clearing}
use kometa.Execution.Reconcile.Report.{ReconReport}
use kometa.Execution.Reconcile.Episode.{
  RiskControl, enter_halt, clear_halt, set_episode, apply_any, end_episode, after_resync,
  try_resync, mismatched, run_once, owner_resync,
}
use kometa.Execution.Watchdog.{Watchdog, trip_all, restore_all, cancel_entries}
use kometa.Execution.Watchdog as Watching
use kometa.Execution.Service.{
  Service, CycleResult, confirm_all, jobs, watch, reconciled, watched, cycle_at, cycle,
  alert_failed, turns, is_due,
}
use kometa.Execution.Steps.{
  Step, Step-refl, Step-trans, Steps, alike, bind, seq, catch, give-Steps, gets-Steps, if_Steps,
  now-Steps, set_state-Steps,
}
use kometa.Execution.Steps.Journal.{is_placing, save-Steps, alert-Steps, quietly}
use kometa.Execution.Steps.Stops.{confirm_stop-Steps}
use kometa.Execution.Steps.Deals.{sync_deals-Steps}
use kometa.Execution.Steps.Ends.{
  apply_halt-Steps, expire_pending-Steps, cancel_pending_entries-Steps,
}
use kometa.Execution.Steps.Reconcile.{check-Steps, resync-Steps}

module _ {B : Type 0} {Q : List Effect → Effect → Type 0}
    (quiet : (past : List Effect) (e : Effect) → is_placing e ≡ false → Q past e) where
  enter_halt-Steps :
      (risk : RiskControl B) (why : String) (time : Datetime) → Steps Q (enter_halt risk why time)
  unfolding enter_halt
  enter_halt-Steps risk why time = seq (quietly quiet (halting why) refl) (record {
    from = λ w. alike w (record w { broker = (risk.enter why time w.broker).1 }) refl refl;
  })

  clear_halt-Steps : (risk : RiskControl B) → Steps Q (clear_halt risk)
  unfolding clear_halt
  clear_halt-Steps risk =
      seq (quietly quiet clearing refl)
        (record { from = λ w. alike w (record w { broker = (risk.clear w.broker).1 }) refl refl })

  set_episode-Steps : (k : Env B) (e : ReconEpisode) → Steps Q (set_episode k e)
  unfolding set_episode
  set_episode-Steps k e =
      bind (gets-Steps _) (λ old.
        if_Steps _ (give-Steps _) (seq (set_state-Steps _ (λ s. refl)) (save-Steps quiet k)))

  apply_any-Steps : (k : Env B) (cmd : Option (HaltCommand String)) → Steps Q (apply_any k cmd)
  apply_any-Steps k none = give-Steps _
  apply_any-Steps k (some cmd) = catch (apply_halt-Steps quiet k cmd) (λ e. alert-Steps quiet _ _ _)

  end_episode-Steps :
      (k : Env B) (risk : RiskControl B) (report : ReconReport)
      → Steps Q (end_episode k risk report)
  end_episode-Steps k risk report = bind (gets-Steps _) (λ e.
      bind
        (if_Steps _
          (bind (clear_halt-Steps risk) (λ was.
            bind (if_Steps _ (alert-Steps quiet _ _ _) (give-Steps _))
              (λ a. set_episode-Steps k _)))
          (give-Steps _))
        (λ a. give-Steps _))

  after_resync-Steps :
      (k : Env B) (risk : RiskControl B) (again : ReconReport) → Steps Q (after_resync k risk again)
  after_resync-Steps k risk again =
      if_Steps _
        (bind (clear_halt-Steps risk)
          (λ a. bind (set_episode-Steps k _) (λ b. alert-Steps quiet _ _ _)))
        (if_Steps _ (set_episode-Steps k _) (seq (set_episode-Steps k _) (alert-Steps quiet _ _ _)))

  try_resync-Steps :
      (k : Env B) (risk : RiskControl B) (report : ReconReport) → Steps Q (try_resync k risk report)
  try_resync-Steps k risk report = bind (alert-Steps quiet _ _ _) (λ a.
      bind (catch (resync-Steps quiet k report false) (λ e. give-Steps _)) (λ b.
        bind (check-Steps quiet k)
          (λ again. bind (after_resync-Steps k risk again) (λ c. give-Steps _))))

  mismatched-Steps :
      (k : Env B) (risk : RiskControl B) (report : ReconReport) (time : Datetime)
      (previous : ReconEpisode)
      → Steps Q (mismatched k risk report time previous)
  mismatched-Steps k risk report time previous = bind (set_episode-Steps k _) (λ a.
      bind (enter_halt-Steps risk _ time) (λ halt. bind (apply_any-Steps k halt) (λ b.
        if_Steps _ (bind (if_Steps _ (give-Steps _) (alert-Steps quiet _ _ _)) (λ c. give-Steps _))
          (try_resync-Steps k risk report))))

  pub run_once-Steps : (k : Env B) (risk : RiskControl B) → Steps Q (run_once k risk)
  unfolding run_once
  run_once-Steps k risk = bind (check-Steps quiet k) (λ report. bind (now-Steps k) (λ time.
      bind (gets-Steps _) (λ previous.
        if_Steps _ (end_episode-Steps k risk report)
          (if_Steps _ (give-Steps _) (mismatched-Steps k risk report time previous)))))

  pub owner_resync-Steps : (k : Env B) (risk : RiskControl B) → Steps Q (owner_resync k risk)
  unfolding owner_resync
  owner_resync-Steps k risk = bind (check-Steps quiet k) (λ report.
      bind (resync-Steps quiet k report true) (λ a. bind (check-Steps quiet k) (λ again.
        bind
          (if_Steps _
            (bind (clear_halt-Steps risk)
              (λ b. bind (set_episode-Steps k _) (λ c. alert-Steps quiet _ _ _)))
            (give-Steps _))
          (λ d. give-Steps _))))

  trip_all-Steps : (ss : List String) (d : Watchdog) → Steps Q (trip_all {B = B} ss d)
  unfolding trip_all
  trip_all-Steps [] d = give-Steps _
  trip_all-Steps (s ∷ ss) d =
      if_Steps _ (trip_all-Steps ss d) (seq (alert-Steps quiet _ _ _) (trip_all-Steps ss _))

  restore_all-Steps : (ss : List String) (d : Watchdog) → Steps Q (restore_all {B = B} ss d)
  unfolding restore_all
  restore_all-Steps [] d = give-Steps _
  restore_all-Steps (s ∷ ss) d = seq (alert-Steps quiet _ _ _) (restore_all-Steps ss _)

  cancel_entries-Steps : (k : Env B) (d : Watchdog) → Steps Q (cancel_entries k d)
  cancel_entries-Steps k d =
      catch (seq (cancel_pending_entries-Steps quiet k _) (give-Steps _))
        (λ e. seq (alert-Steps quiet _ _ _) (give-Steps _))

  pub watchdog-Steps : (k : Env B) (d : Watchdog) → Steps Q (Watching.check k d)
  unfolding Watching.check
  watchdog-Steps k d = bind (now-Steps k) (λ time. bind (trip_all-Steps _ d) (λ d1.
      bind (restore_all-Steps _ d1) (λ d2. if_Steps _ (cancel_entries-Steps k d2) (give-Steps _))))

  confirm_all-Steps : (k : Env B) (ts : List TrackedOrder) → Steps Q (confirm_all k ts)
  unfolding confirm_all
  confirm_all-Steps k [] = give-Steps _
  confirm_all-Steps k (t ∷ ts) =
      seq
        (bind (gets-Steps _)
          (λ u. if_Steps _ (seq (confirm_stop-Steps quiet k u) (give-Steps _)) (give-Steps _)))
        (confirm_all-Steps k ts)

  jobs-Steps : (k : Env B) → Steps Q (jobs k)
  jobs-Steps k = bind (sync_deals-Steps quiet k) (λ a. bind (expire_pending-Steps quiet k) (λ n.
      catch (bind (gets-Steps _) (λ orders. bind (confirm_all-Steps k orders) (λ b. give-Steps _)))
        (λ e. give-Steps _)))

  watch-Steps : (k : Env B) (s : Service) → Steps Q (watch k s)
  watch-Steps k s =
      bind (catch (jobs-Steps k) (λ e. give-Steps _))
        (λ n. bind (watchdog-Steps k _) (λ d. give-Steps _))

  reconciled-Step :
      (time : Datetime) (n : ℕ) (d : Watchdog) (s : Service) (w : World B)
      (o : Result Failure ReconReport × World B)
      → Step Q w o.1
      → Step Q w (reconciled time n d s o).1.1
  reconciled-Step time n d s w (ok report, v) h = h
  reconciled-Step time n d s w (err e, v) h = h

  watched-Step :
      (k : Env B) (risk : RiskControl B) (time : Datetime) (s : Service) (w : World B)
      (o : Result Failure (ℕ × Watchdog) × World B)
      → Step Q w o.1
      → Step Q w (watched k risk time s o).1.1
  watched-Step k risk time s w (err e, v) h = h
  watched-Step k risk time s w (ok (n, d), v) h =
      due (is_due k.cfg.reconcile_interval time s.last_recon)
    where
      due :
          (b : Bool)
          → Step Q w
              (if b then reconciled time n d s (run_once k risk v) else (
                ok (record {
                  recon = none;
                  lost_services = Watching.sort_texts d.tripped;
                  expired = n;
                }),
                (record s { watchdog = d }, v),
              )).1.1
      due true =
          Step-trans w v (reconciled time n d s (run_once k risk v)).1.1 h
            (reconciled-Step time n d s v (run_once k risk v) ((run_once-Steps k risk).from v))
      due false = h

  cycle_at-Step :
      (k : Env B) (risk : RiskControl B) (s : Service) (w : World B)
      (o : Result Failure Datetime × World B)
      → Step Q w o.1
      → Step Q w (cycle_at k risk s o).1.1
  cycle_at-Step k risk s w (err e, v) h = h
  cycle_at-Step k risk s w (ok time, v) h =
      Step-trans w v (cycle_at k risk s (ok time, v)).1.1 h
        (watched-Step k risk time s v (watch k s v) ((watch-Steps k s).from v))

  pub cycle-Step :
      (k : Env B) (risk : RiskControl B) (s : Service) (w : World B)
      → Step Q w (cycle k risk s w).1.1
  unfolding cycle
  cycle-Step k risk s w = cycle_at-Step k risk s w (now k w) ((now-Steps k).from w)

  pub alert_failed-Step :
      (w : World B) (o : Result Failure CycleResult × (Service × World B))
      → Step Q w o.1.1
      → Step Q w (alert_failed o).1
  alert_failed-Step w (ok r, (s, v)) h = h
  alert_failed-Step w (err e, (s, v)) h =
      Step-trans w v (alert_failed (err e, (s, v))).1 h ((alert-Steps quiet _ _ _).from v)

  pub turns-Step :
      (k : Env B) (risk : RiskControl B) (n : ℕ) (s : Service) (w : World B)
      → Step Q w (turns k risk n s w).1
  unfolding turns
  turns-Step k risk zero s w = Step-refl w
  turns-Step k risk (suc n) s w =
      let next = alert_failed (cycle k risk s w) in
      Step-trans w next.1 (turns k risk n next.0 next.1).1
        (alert_failed-Step w (cycle k risk s w) (cycle-Step k risk s w))
        (turns-Step k risk n next.0 next.1)
