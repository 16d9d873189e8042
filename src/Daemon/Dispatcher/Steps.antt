-- ===== src/Daemon/Dispatcher/Steps.antt =====
-- What the handlers of src/daemon/dispatcher.rs leave alone: the state, its two tasks and the
-- calls to logind.
use hyprstate.Prelude.{refl, Bool, true, false, arith, if◌then◌else◌}
use hyprstate.Daemon.Outside.{
  Outside, Daemon, Trigger, request_suspend, clear_battery_low_request, clear_suspend_request,
}
use hyprstate.Daemon.Effectors.{
  request_reconcile, schedule_profile_reconcile, schedule_power_settle,
}
use hyprstate.Daemon.Dispatcher.{refresh_wayland_claim, battery_low_request_check}
use hyprstate.Daemon.Dispatcher.Invariant.{Steady}

pub Steady-refl : {d : Daemon} → Steady d d
Steady-refl = record {
  state = refl;
  timer = refl;
  watch = refl;
  calls = refl;
  ext = refl;
  panel = λ h. refl;
}

pub if-Steady :
    (b : Bool) {d e f : Daemon} → Steady d e → Steady d f → Steady d (if b then e else f)
if-Steady true p q = p
if-Steady false p q = q

pub request_reconcile-Steady : (t : Trigger) (d : Daemon) → Steady d (request_reconcile t d)
unfolding request_reconcile
request_reconcile-Steady t d = ground arith

pub schedule_profile_reconcile-Steady : (d : Daemon) → Steady d (schedule_profile_reconcile d)
unfolding schedule_profile_reconcile
schedule_profile_reconcile-Steady d = ground arith

pub schedule_power_settle-Steady : (d : Daemon) → Steady d (schedule_power_settle d)
unfolding schedule_power_settle
schedule_power_settle-Steady d = ground arith

module _ (out : Outside) where
  pub refresh_wayland_claim-Steady : (d : Daemon) → Steady d (refresh_wayland_claim out d)
  unfolding refresh_wayland_claim
  refresh_wayland_claim-Steady d = ground arith

  pub battery_low_request_check-Steady : (d : Daemon) → Steady d (battery_low_request_check out d).1
  unfolding battery_low_request_check request_suspend clear_battery_low_request
  battery_low_request_check-Steady d = ground arith

  pub clear_suspend_request-Steady : (d : Daemon) → Steady d (clear_suspend_request out d)
  unfolding clear_suspend_request
  clear_suspend_request-Steady d = ground arith
