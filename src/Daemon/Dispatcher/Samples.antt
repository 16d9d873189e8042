-- ===== src/Daemon/Dispatcher/Samples.antt =====
-- The battery-low flag over a run of percentage events (take_percent of src/daemon/dispatcher.rs and
-- battery_low_step of crates/hyprstate-fsm/src/power.rs).
use hyprstate.Prelude.{
  ℕ, ◌+◌, ◌≡◌, refl, ◌∙◌, Bool, true, false, not, bool_eq, List, [], ◌∷◌, Option, none, some, F64,
  le_nat, ge_nat, arith, if◌then◌else◌,
}
use hyprstate.Daemon.Outside.{Outside, Daemon, request_suspend, clear_battery_low_request}
use hyprstate.Daemon.Effectors.{request_reconcile}
use hyprstate.Daemon.Dispatcher.{battery_low_request_check}
use hyprstate.Daemon.Dispatcher.Handlers.{with_battery}
use hyprstate.Daemon.Dispatcher.Takes.{take_percent, note_sample, low_after_sample}

-- A sample at the threshold or below says low, one three points above it or more says not low, and any
-- other says nothing.
abbrev pub says : ℕ → F64 → Option Bool
says threshold p =
    if le_nat p threshold
    then some true
    else (if ge_nat p (threshold + 3) then some false else none)

abbrev later_first : Option Bool → Option Bool → Option Bool
later_first none o = o
later_first (some b) o = some b

-- What the last sample says that says anything.
abbrev pub verdict : ℕ → List F64 → Option Bool
verdict threshold [] = none
verdict threshold (p ∷ ps) = later_first (verdict threshold ps) (says threshold p)

module _ (out : Outside) where
  -- A run of percentage events.
  abbrev pub take_percents : List F64 → Daemon → Daemon
  take_percents [] d = d
  take_percents (p ∷ ps) d = take_percents ps (take_percent out p d).1

  -- The check of the request leaves the battery's fields alone.
  pub checked_battery :
      (d : Daemon) → (battery_low_request_check out d).1.ctx.battery ≡ d.ctx.battery
  unfolding battery_low_request_check request_suspend clear_battery_low_request
  checked_battery d = ground arith

  noted_battery :
      (flipped : Bool) (r : Bool × Daemon)
      → (note_sample out flipped r).1.ctx.battery ≡ r.1.ctx.battery
  unfolding note_sample request_reconcile
  noted_battery true (changed, d) = refl
  noted_battery false (changed, d) = refl

  -- The sample and the flag, before the check of the request.
  noted : F64 → Daemon → Daemon
  noted p d =
      with_battery
        (record d.ctx.battery {
          battery_percent = some p;
          low_battery = low_after_sample p d.ctx.battery;
        })
        d

  sampled :
      (p : F64) (d : Daemon)
      → (take_percent out p d).1.ctx.battery ≡ record d.ctx.battery {
        battery_percent = some p;
        low_battery = low_after_sample p d.ctx.battery;
      }
  unfolding take_percent noted
  sampled p d =
      noted_battery (not (bool_eq (low_after_sample p d.ctx.battery) d.ctx.battery.low_battery))
        (battery_low_request_check out (noted p d))
      ∙ checked_battery (noted p d)
