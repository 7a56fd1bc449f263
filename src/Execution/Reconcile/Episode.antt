-- ===== src/Execution/Reconcile/Episode.antt =====
-- The 60 second job and the owner's resync of packages/execution/src/autotrader/execution/reconcile.py: the
-- episode (clean, unreachable, resyncing, stuck), and the risk gate's reconciliation halt.
use Prim.{Unit, tt}
use Prim.Native.String.{◌++◌}
use kometa.Prelude.{Bool, true, false, String, Option, none, some, ok, if◌then◌else◌}
use kometa.Core.Time.{Datetime}
use kometa.Core.Events.{critical, information}
use kometa.Core.Models.{HaltCommand}
use kometa.Execution.Journal.{ReconEpisode, clean, unreachable, resyncing, stuck}
use kometa.Execution.World.{
  Env, Method, halting, clearing, ◌>>=◌, ◌>>◌, give, catching, gets, now, emit, set_state,
}
use kometa.Execution.Orders.{alert, save}
use kometa.Execution.Ends.{apply_halt}
use kometa.Execution.Reconcile.Texts.{summary}
use kometa.Execution.Reconcile.Report.{ReconReport, is_ok, all_unreachable}
use kometa.Execution.Reconcile.Check.{check}
use kometa.Execution.Reconcile.Resync.{resync}

-- `RiskControl`: the risk gate as the reconciler calls it, which stands outside with the broker.
pub record RiskControl (B : Type 0) : Type 0 where
  pub enter : String → Datetime → B → Option (HaltCommand String) × B
  pub clear : B → Bool × B

abbrev pub same_episode : ReconEpisode → ReconEpisode → Bool
same_episode clean clean = true
same_episode unreachable unreachable = true
same_episode resyncing resyncing = true
same_episode stuck stuck = true
same_episode _ _ = false

-- `self.episode in ("unreachable", "resyncing")`
abbrev pub in_episode : ReconEpisode → Bool
in_episode unreachable = true
in_episode resyncing = true
in_episode _ = false

module _ {B : Type 0} where
  unfoldable pub enter_halt :
      RiskControl B → String → Datetime → Method B (Option (HaltCommand String))
  enter_halt risk why time =
      emit (halting why)
      >> (λ w. let (cmd, b) = risk.enter why time w.broker in (ok cmd, record w { broker = b }))

  unfoldable pub clear_halt : RiskControl B → Method B Bool
  clear_halt risk =
      emit clearing
      >> (λ w. let (was, b) = risk.clear w.broker in (ok was, record w { broker = b }))

  abbrev pub episode : Method B ReconEpisode
  episode = gets (λ w. w.state.recon_episode)

  -- the setter of `episode`
  unfoldable pub set_episode : Env B → ReconEpisode → Method B (Unit {0})
  set_episode k e = do
    old ← episode
    if same_episode e old
        then give tt
        else (set_state (λ s. record s { recon_episode = e }) >> save k)

  abbrev pub apply_any : Env B → Option (HaltCommand String) → Method B (Unit {0})
  apply_any k none = give tt
  apply_any k (some cmd) = catching (apply_halt k cmd) (λ e. alert critical "halt_close_failed" e)

  -- a clean check
  abbrev pub end_episode : Env B → RiskControl B → ReconReport → Method B ReconReport
  end_episode k risk report = do
    e ← episode
    if in_episode e
        then (do
          was ← clear_halt risk
          if was then alert information "recon_resolved" "" else give tt
          set_episode k clean)
        else give tt
    give report

  -- what follows the resync
  abbrev pub after_resync : Env B → RiskControl B → ReconReport → Method B (Unit {0})
  after_resync k risk again =
      if is_ok again
      then (do clear_halt risk; set_episode k clean; alert information "recon_resolved" "")
      else if all_unreachable again
      then set_episode k unreachable
      else (set_episode k stuck >> alert critical "recon_stuck" (summary again.mismatches))

  abbrev pub try_resync : Env B → RiskControl B → ReconReport → Method B ReconReport
  try_resync k risk report = do
    alert critical "recon_mismatch" (summary report.mismatches)
    catching (resync k report false) (λ e. give tt)
    again ← check k
    after_resync k risk again
    give again

  abbrev pub mismatched :
      Env B → RiskControl B → ReconReport → Datetime → ReconEpisode → Method B ReconReport
  mismatched k risk report time previous = do
    set_episode k (if all_unreachable report then unreachable else resyncing)
    halt ← enter_halt risk ("reconciliation: " ++ summary report.mismatches) time
    apply_any k halt
    if all_unreachable report
        then (do
          if same_episode previous unreachable
              then give tt
              else alert critical "recon_mismatch" (summary report.mismatches)
          give report)
        else try_resync k risk report

  unfoldable pub run_once : Env B → RiskControl B → Method B ReconReport
  run_once k risk = do
    report ← check k
    time ← now k
    previous ← episode
    if is_ok report
        then end_episode k risk report
        else if same_episode previous stuck
        then give report
        else mismatched k risk report time previous

  unfoldable pub owner_resync : Env B → RiskControl B → Method B ReconReport
  owner_resync k risk = do
    report ← check k
    resync k report true
    again ← check k
    if is_ok again
        then (do
          clear_halt risk
          set_episode k clean
          alert information "recon_resolved" "owner resync")
        else give tt
    give again
