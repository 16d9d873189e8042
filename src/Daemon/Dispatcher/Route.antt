-- ===== src/Daemon/Dispatcher/Route.antt =====
-- src/daemon/dispatcher.rs: `dispatch`, one event through the routing, the start of `run` and one
-- round of its loop, with `sync_waybar` of effectors.rs.
use hyprstate.Prelude.{
  Bool, true, false, not, ◌&&◌, some, is_some, unwrap_or, bool_eq, option_eq, if◌then◌else◌,
}
use hyprstate.Fsm.{EventKind, world_state}
use hyprstate.Gpu.{dgpu_runtime_pm_pinned}
use hyprstate.Kbd.{default_kbd_level_pct}
use hyprstate.Power.{profile_eq}
use hyprstate.Daemon.Ctx.{WaybarView, view_of, world}
use hyprstate.Daemon.Event.{
  Event, lid, monitor_hotplug, config_reloaded, profile_applied, monitors_changed, profiles_changed,
  inhibitor, lock_changed, ac_changed, power_ac_settled, timer_expired, resumed, reconcile_tick,
  platform_profile_changed, gpu_override_changed, power_override_changed, battery_percent,
  suspend_request_changed, powerd_appeared, backlight_hotplug, sleeping, kbd_idle,
  kbd_level_changed, kbd_override_changed, kbd_led_hotplug, kind,
}
use hyprstate.Daemon.Outside.{Outside, Daemon, Trigger, waybar_signalled, tick, wrote}
use hyprstate.Daemon.Effectors.{with_main, schedule_profile_reconcile, request_reconcile}
use hyprstate.Daemon.Power.{brightness_rearm, sync_dgpu_pin}
use hyprstate.Daemon.PowerPolicy.{power_policy_check}
use hyprstate.Daemon.Kbd.{
  with_kbd, kbd_policy_check, kbd_release_override, discover_kbd, discover_backlight,
}
use hyprstate.Daemon.Drift.{resolve_session_gpu_mode}
use hyprstate.Daemon.Dispatcher.{
  fresh, on_enter, evaluate_fsms, battery_low_request_check, with_state,
}
use hyprstate.Daemon.Dispatcher.Takes.{
  settle, take_override, reassert_state, take_lid, take_hotplug, take_ac, take_percent,
  take_platform, take_powerd, take_request, take_expiry, take_resume,
}
use hyprstate.Daemon.Dispatcher.Handlers.{
  chosen_profile, pref_of, advise_gpu, handle_monitors_changed, handle_reconcile_tick,
}

abbrev pub wants_drift : EventKind → Bool
wants_drift EventKind.ac_plugged = true
wants_drift EventKind.ac_unplugged = true
wants_drift EventKind.platform_profile_changed = true
wants_drift EventKind.gpu_override_changed = true
wants_drift _ = false

abbrev pub wants_power : EventKind → Bool
wants_power EventKind.battery_low_changed = true
wants_power EventKind.power_override_changed = true
wants_power EventKind.power_ac_settled = true
wants_power _ = false

abbrev pub is_resumed : EventKind → Bool
is_resumed EventKind.resumed = true
is_resumed _ = false

module _ (out : Outside) where
  -- The first match of `dispatch`: whether the event goes on to the shared tail.
  unfoldable pub handle : Event → Daemon → Bool × Daemon
  unfolding take_override reassert_state take_lid take_hotplug take_ac take_percent take_platform
      take_powerd take_request take_expiry take_resume
  handle config_reloaded d = (false, reassert_state out Trigger.config_reloaded d)
  handle profile_applied d = (false, reassert_state out Trigger.profile_applied d)
  handle (reconcile_tick snap) d = (false, handle_reconcile_tick out snap d)
  handle monitors_changed d = (false, handle_monitors_changed out d)
  handle profiles_changed d = (false, schedule_profile_reconcile d)
  handle backlight_hotplug d = (false, discover_backlight out d)
  handle sleeping d =
      (false, kbd_policy_check out false (with_kbd (record d.ctx.kbd { kbd_sleeping = true }) d))
  handle (kbd_idle idle) d =
      let e = with_kbd (record d.ctx.kbd { kbd_typing = not idle }) d in
      (false, kbd_policy_check out (not idle) (if idle then kbd_release_override out e else e))
  handle (kbd_level_changed level) d = (
    false,
    kbd_policy_check out true
        (with_kbd (record d.ctx.kbd { kbd_level = unwrap_or level default_kbd_level_pct }) d),
  )
  handle (kbd_override_changed armed) d =
      (false, kbd_policy_check out armed (with_kbd (record d.ctx.kbd { kbd_override = armed }) d))
  handle kbd_led_hotplug d = (false, kbd_policy_check out true (discover_kbd out d))
  handle (lid closed) d = take_lid out closed d
  handle (monitor_hotplug added) d = (true, take_hotplug out d)
  handle (inhibitor true active) d =
      (true, with_main (record d.ctx.main { wayland_inhibitor = active }) d)
  handle (inhibitor false active) d =
      (true, with_main (record d.ctx.main { logind_inhibitor = active }) d)
  handle (lock_changed locked) d = (
    true,
    kbd_policy_check out false (
        request_reconcile Trigger.lock_changed
          (with_main (record d.ctx.main { locked = locked }) d)),
  )
  handle (ac_changed on_ac) d = take_ac out on_ac d
  handle power_ac_settled d = (true, (battery_low_request_check out (settle d)).1)
  handle (power_override_changed word) d = (true, take_override word d)
  handle (battery_percent pct) d = take_percent out pct d
  handle (platform_profile_changed value) d = (true, take_platform out value d)
  handle (gpu_override_changed word) d = (true, d)
  handle powerd_appeared d = (true, take_powerd out d)
  handle (suspend_request_changed word) d = (true, take_request out (is_some word) d)
  handle timer_expired d = (true, take_expiry out d)
  handle resumed d = (true, take_resume out d)

  unfoldable pub advise_fresh : Daemon → Daemon
  advise_fresh d = advise_gpu out (pref_of (chosen_profile out d)) (tick d)

  unfoldable pub policies : EventKind → Daemon → Daemon
  unfolding advise_fresh
  policies k d =
      let e = if is_resumed k then brightness_rearm out d else d in
      let f = if wants_drift k then advise_fresh e else e in
      if wants_power k then power_policy_check out f else f

  unfoldable pub finish : EventKind → Bool × Daemon → Daemon
  finish k (true, d) = evaluate_fsms out k (policies k d)
  finish k (false, d) = d

  unfoldable pub dispatch : Event → Daemon → Daemon
  dispatch ev d = finish (kind ev) (handle ev d)

  view_eq : WaybarView → WaybarView → Bool
  view_eq a b =
      option_eq profile_eq a.applied b.applied
      && bool_eq a.override_set b.override_set
      && bool_eq a.available b.available

  unfoldable pub sync_waybar : Daemon → Daemon
  unfolding view_eq
  sync_waybar d =
      let e = record d { ctx = record d.ctx { waybar_view = some (view_of d.ctx) } } in
      if option_eq view_eq d.ctx.waybar_view (some (view_of d.ctx))
      then d
      else (if out.shadow then e else wrote waybar_signalled e)

  -- One round of the loop of `run`.
  unfoldable pub round : Event → Daemon → Daemon
  round ev d = sync_waybar (dispatch ev d)

  -- `run` up to its loop.
  unfoldable pub start : Daemon → Daemon
  start d =
      let s = world_state (world d.ctx) in
      let e = (on_enter out s fresh (with_state s d)).1 in
      let mode = (resolve_session_gpu_mode out (pref_of (chosen_profile out e)) (tick e)).0 in
      let f = sync_dgpu_pin out (dgpu_runtime_pm_pinned mode) (tick (tick e)) in
      request_reconcile Trigger.startup (kbd_policy_check out true (sync_waybar f))
