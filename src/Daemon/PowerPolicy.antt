-- ===== src/Daemon/PowerPolicy.antt =====
-- src/daemon/power_policy.rs: base state, stamping and expiry of the manual override, the profile
-- that powerd is asked for, and the brightness on the edges of the base state.
pub mod Override
use hyprstate.Prelude.{
  Bool, true, false, not, ◌&&◌, ◌||◌, Option, none, some, unwrap_or, if◌then◌else◌,
}
use hyprstate.Power.{
  PowerProfile, BaseState, battery_low, ac_side, battery_side, power_base_state, ac_axis, axis_eq,
  base_eq, for_base,
}
use hyprstate.Daemon.Ctx.{Context, Policy}
use hyprstate.Daemon.Outside.{Outside, Daemon, override_cleared, notify, send_cmd}
use hyprstate.Daemon.Power.{
  with_policy, apply_power_profile, clear_power_override, brightness_save_and_cap, brightness_cap,
  brightness_restore,
}

-- A flip of the AC axis, or entry into battery-low.
abbrev pub expires : BaseState → BaseState → Bool
expires base stamped =
    not (axis_eq (ac_axis base) (ac_axis stamped))
    || (base_eq base battery_low && not (base_eq stamped battery_low))

unfoldable pub base_of : Context → BaseState
base_of c = power_base_state c.battery.on_ac_settled c.main.ext_mon_count c.battery.low_battery

module _ (out : Outside) where
  unfoldable pub stamp_or_expire : BaseState → PowerProfile → Option BaseState → Daemon → Daemon
  stamp_or_expire base p none d =
      with_policy (record d.ctx.policy { power_override_base = some base }) d
  stamp_or_expire base p (some stamped) d =
      if expires base stamped
      then send_cmd out (notify (override_cleared (for_base d.ctx.policy.power_policy base) base))
          (clear_power_override out d)
      else d

  unfoldable pub check_override : BaseState → Option PowerProfile → Daemon → Daemon
  check_override base none d = d
  check_override base (some p) d = stamp_or_expire base p d.ctx.policy.power_override_base d

  unfoldable pub desired_profile : BaseState → Policy → PowerProfile
  desired_profile base p = unwrap_or p.power_override (for_base p.power_policy base)

  unfoldable pub when : Bool → (Daemon → Daemon) → Daemon → Daemon
  when true f d = f d
  when false f d = d

  unfoldable pub edge : BaseState → Option BaseState → Daemon → Daemon
  edge base none d = d
  edge base (some prev) d =
      if base_eq prev base
      then d
      else when (axis_eq (ac_axis prev) battery_side && axis_eq (ac_axis base) ac_side)
          (brightness_restore out)
          (when (base_eq base battery_low && not (base_eq prev battery_low)) (brightness_cap out 4)
            (when (axis_eq (ac_axis prev) ac_side && axis_eq (ac_axis base) battery_side)
              (brightness_save_and_cap out 2) d))

  unfoldable pub apply_and_edge : BaseState → Daemon → Daemon
  apply_and_edge base d =
      let e = apply_power_profile out (desired_profile base d.ctx.policy) d in
      edge base e.ctx.policy.power_last_base
        (with_policy (record e.ctx.policy { power_last_base = some base }) e)

  unfoldable pub power_policy_check : Daemon → Daemon
  power_policy_check d =
      let base = base_of d.ctx in
      apply_and_edge base (check_override base d.ctx.policy.power_override d)
