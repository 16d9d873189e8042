-- ===== src/Daemon/Dispatcher/BatteryLow.antt =====
-- The battery-low suspend request (`battery_low_request_check` of src/daemon/dispatcher.rs).
use hyprstate.Prelude.{
  ◌∙◌, ◌≡◌, refl, ◌⊎◌, inl, inr, Bool, true, false, Option, none, some, arith, Text, codes,
  starts_with,
}
use hyprstate.Daemon.Outside.{Outside, Daemon, request_suspend, clear_battery_low_request}
use hyprstate.Daemon.Dispatcher.{
  BatteryLowAction, battery_low_action, act_on_battery, battery_low_request_check, when_done,
}

-- A low battery that discharges on both readings of the charger, with no request standing.
abbrev pub Discharging : Daemon → Type 0
Discharging d =
    (d.ctx.battery.low_battery ≡ true)
    × (d.ctx.main.on_ac ≡ false)
    × (d.ctx.battery.on_ac_settled ≡ false)
    × (d.ctx.main.suspend_requested ≡ false)

-- The reason is gone: the charger is in, or the battery is no longer low.
abbrev pub Relieved : Daemon → Type 0
Relieved d = (d.ctx.main.on_ac ≡ true) ⊎ (d.ctx.battery.low_battery ≡ false)

abbrev pub IsOwn : Option Text → Type 0
IsOwn none = ⊥
IsOwn (some body) = starts_with body (codes "battery-low") ≡ true

module _ (out : Outside) where
  written :
      (d : Daemon)
      → ((request_suspend out d).1.request_file ≡ d.request_file)
        ⊎ ((request_suspend out d).1.request_file ≡ some (codes "battery-low\n"))
  unfolding request_suspend
  written d = ground arith

  removed :
      (d : Daemon)
      → ((clear_battery_low_request out d).1.request_file ≡ d.request_file)
        ⊎ (((clear_battery_low_request out d).1.request_file ≡ none) × IsOwn d.request_file)
  unfolding clear_battery_low_request
  removed d = ground arith

  -- What may become of the request file.
  abbrev pub Checked : Daemon → Daemon → Type 0
  Checked d e =
      (e.request_file ≡ d.request_file)
      ⊎ ((e.request_file ≡ some (codes "battery-low\n")) × Discharging d)
      ⊎ ((e.request_file ≡ none) × IsOwn d.request_file × Relieved d)

  done : (b : Bool) (r : Bool × Daemon) → (when_done out b r).1.request_file ≡ r.1.request_file
  unfolding when_done
  done b r = ground arith

  action : Daemon → BatteryLowAction
  action d =
      battery_low_action d.ctx.battery.low_battery d.ctx.main.on_ac d.ctx.battery.on_ac_settled
        d.ctx.main.suspend_requested

  reason : (d : Daemon) → action d ≡ BatteryLowAction.request → Discharging d
  unfolding action battery_low_action
  reason d e = ground arith

  relief : (d : Daemon) → action d ≡ BatteryLowAction.withdraw → Relieved d
  unfolding action battery_low_action
  relief d e = ground arith

  acted : (a : BatteryLowAction) (d : Daemon) → action d ≡ a → Checked d (act_on_battery out a d).1
  unfolding act_on_battery
  acted BatteryLowAction.request d e = elim (written d) [
    | inl x ↦ inl (done _ _ ∙ x)
    | inr x ↦ inr (inl (done _ _ ∙ x, reason d e))
  ]
  acted BatteryLowAction.withdraw d e = elim (removed d) [
    | inl x ↦ inl (done _ _ ∙ x)
    | inr (x, y) ↦ inr (inr (done _ _ ∙ x, y, relief d e))
  ]
  acted BatteryLowAction.hold d e = inl refl

  -- The check leaves the request file alone, or writes the daemon's own request while the battery
  -- is low and discharges on both readings and no request stands, or removes a request of its own
  -- once the charger is in or the battery is no longer low.
  pub battery_low_request_check-Checked :
      (d : Daemon) → Checked d (battery_low_request_check out d).1
  unfolding battery_low_request_check action
  battery_low_request_check-Checked d = acted _ d refl
