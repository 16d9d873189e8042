-- ===== src/Daemon/Dispatcher/Takes.antt =====
-- src/daemon/dispatcher.rs: the arms of `dispatch` that change the context and go on to the shared
-- tail, one function each.
use hyprstate.Prelude.{
  Bool, true, false, not, ◌&&◌, ◌||◌, Text, Option, none, some, bool_eq, option_eq, if◌then◌else◌,
  F64,
}
use hyprstate.Fsm.{suspending, state_eq}
use hyprstate.Power.{
  PowerProfile, profile_eq, from_str, battery_low_step, is_self_write, profile_from_platform_value,
}
use hyprstate.Daemon.Ctx.{Battery}
use hyprstate.Daemon.Outside.{
  Outside, Daemon, Trigger, tick, request_standing, clear_suspend_request,
}
use hyprstate.Daemon.Effectors.{
  with_main, schedule_profile_reconcile, schedule_power_settle, request_reconcile,
  ingest_active_profile,
}
use hyprstate.Daemon.Power.{with_policy, with_gpu, adopt_power_override}
use hyprstate.Daemon.PowerPolicy.{power_policy_check}
use hyprstate.Daemon.Kbd.{with_kbd, kbd_policy_check}
use hyprstate.Daemon.Dispatcher.{
  reassert, on_enter, refresh_wayland_claim, battery_low_request_check, with_request,
}
use hyprstate.Daemon.Dispatcher.Handlers.{with_battery, ext_monitor_count_in}

abbrev pub settle : Daemon → Daemon
settle d = with_battery (record d.ctx.battery { on_ac_settled = d.ctx.main.on_ac }) d

unfoldable pub take_word : Option PowerProfile → Daemon → Daemon
take_word none d = d
take_word (some p) d =
    if option_eq profile_eq d.ctx.policy.power_override (some p)
    then d
    else with_policy (record d.ctx.policy { power_override = some p; power_override_base = none }) d

unfoldable pub take_override : Option Text → Daemon → Daemon
unfolding take_word
take_override none d =
    with_policy (record d.ctx.policy { power_override = none; power_override_base = none }) d
take_override (some w) d = take_word (from_str w) d

abbrev pub low_after_sample : F64 → Battery → Bool
low_after_sample pct b = battery_low_step b.low_battery pct b.battery_low_pct

module _ (out : Outside) where
  unfoldable pub reassert_state : Trigger → Daemon → Daemon
  reassert_state trigger d = request_reconcile trigger (
      if state_eq d.ctx.main.state suspending
      then d
      else (let e = ingest_active_profile out d in (on_enter out e.ctx.main.state reassert e).1))

  unfoldable pub take_lid : Bool → Daemon → Bool × Daemon
  take_lid closed d =
      let e = with_main (record d.ctx.main { lid_closed = closed }) d in
      if d.ctx.main.lid_present
      then (true, if closed then refresh_wayland_claim out e else e)
      else (false, d)

  unfoldable pub take_hotplug : Daemon → Daemon
  take_hotplug d =
      let count = ext_monitor_count_in (out.monitors d.asked) d.ctx.main.ext_mon_count in
      request_reconcile Trigger.monitor_hotplug (
        schedule_profile_reconcile
          (tick (with_main (record d.ctx.main { ext_mon_count = count }) d)))

  unfoldable pub take_ac : Bool → Daemon → Bool × Daemon
  take_ac on_ac d = if bool_eq on_ac d.ctx.main.on_ac then (false, d) else (
    true,
    request_reconcile Trigger.ac_changed (
        schedule_power_settle
          (battery_low_request_check out (with_main (record d.ctx.main { on_ac = on_ac }) d)).1),
  )

  -- A sample that neither flips the flag nor moves the request ends here.
  unfoldable pub note_sample : Bool → Bool × Daemon → Bool × Daemon
  note_sample flipped (changed, d) =
      (flipped || changed, if flipped then request_reconcile Trigger.battery_low_changed d else d)

  unfoldable pub take_percent : F64 → Daemon → Bool × Daemon
  unfolding note_sample
  take_percent pct d =
      let low = low_after_sample pct d.ctx.battery in
      note_sample (not (bool_eq low d.ctx.battery.low_battery)) (
        battery_low_request_check out
          (with_battery (record d.ctx.battery { battery_percent = some pct; low_battery = low }) d))

  unfoldable pub take_platform : Option Text → Daemon → Daemon
  take_platform value d =
      let (own, writes) = is_self_write d.ctx.policy.self_writes (out.clock d.asked) value in
      let e = with_policy (record d.ctx.policy { self_writes = writes }) (tick d) in
      if own
      then e
      else power_policy_check out (adopt_power_override out (profile_from_platform_value value) e)

  unfoldable pub take_powerd : Daemon → Daemon
  take_powerd d = settle (
      if d.ctx.policy.powerd_available
      then d
      else with_gpu (record d.ctx.gpu { dgpu_pinned = none })
          (with_policy
            (record d.ctx.policy {
              powerd_available = true;
              powerd_warned = false;
              power_applied = none;
            })
            d))

  unfoldable pub take_request : Bool → Daemon → Daemon
  take_request requested d =
      let e = with_request requested d in if requested then refresh_wayland_claim out e else e

  -- A request that was withdrawn while the timer ran does not suspend.
  unfoldable pub take_expiry : Daemon → Daemon
  take_expiry d =
      if d.ctx.main.suspend_requested && not (request_standing out d)
      then with_request false d
      else d

  unfoldable pub take_resume : Daemon → Daemon
  take_resume d =
      let e =
        request_reconcile Trigger.resumed (clear_suspend_request out (with_request false d)) in
      kbd_policy_check out false (with_kbd (record e.ctx.kbd { kbd_sleeping = false }) e)
