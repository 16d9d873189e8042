-- ===== src/Daemon/Dispatcher/Handled.antt =====
-- What the first match of `dispatch` (src/daemon/dispatcher.rs) keeps, event by event.
use hyprstate.Prelude.{
  ◌≡◌, ◌≢◌, refl, sym, ap, ◌∙◌, inl, inr, Bool, true, false, not, Option, none, some, is_some,
  arith, Text, Bool-cases, if◌then◌else◌, F64,
}
use hyprstate.Fsm.{State, suspending, EventKind, state_eq}
use hyprstate.Power.{profile_from_platform_value, is_self_write, SelfWriteTracker}
use hyprstate.Daemon.Ctx.{TomlProfile, KbdCtx, Main, Battery}
use hyprstate.Profiles.{GpuPref}
use hyprstate.Daemon.Event.{
  Event, lid, monitor_hotplug, config_reloaded, profile_applied, monitors_changed, profiles_changed,
  inhibitor, lock_changed, ac_changed, power_ac_settled, timer_expired, resumed, reconcile_tick,
  platform_profile_changed, gpu_override_changed, power_override_changed, battery_percent,
  suspend_request_changed, powerd_appeared, backlight_hotplug, sleeping, kbd_idle,
  kbd_level_changed, kbd_override_changed, kbd_led_hotplug,
}
use hyprstate.Daemon.Outside.{clear_suspend_request, Outside, Daemon, Trigger, tick, send_cmd}
use hyprstate.Daemon.Effectors.{
  ingest_active_profile, request_reconcile, schedule_profile_reconcile, schedule_power_settle,
  write_gpu_breadcrumb,
}
use hyprstate.Daemon.Power.{with_policy}
use hyprstate.Daemon.Kbd.{kbd_release_override, with_kbd, kbd_policy_check}
use hyprstate.Daemon.Dispatcher.{
  bool_eq, with_main, refresh_wayland_claim, reassert, with_request, on_enter,
  battery_low_request_check,
}
use hyprstate.Daemon.Dispatcher.Handlers.{
  with_battery, handle_monitors_changed, apply_chosen, rehome, advise_gpu,
}
use hyprstate.Daemon.Dispatcher.Frame.{
  discover_kbd-Quiet, adopt_power_override-Quiet, kbd_release_override-Quiet,
  discover_backlight-Quiet, brightness_rearm-Quiet, kbd_policy_check-Quiet, sync_dgpu_pin-Quiet,
  adopt_profile-Quiet, gpu_drift_check-Quiet, tick-Quiet, Quiet, Quiet-refl, Quiet-trans, if-Quiet,
  power_policy_check-Quiet, ingest_active_profile-Quiet,
}
use hyprstate.Daemon.Dispatcher.Invariant.{Steady, Steady-trans, Quiet-Steady}
use hyprstate.Daemon.Dispatcher.Steps.{
  schedule_power_settle-Steady, schedule_profile_reconcile-Steady, request_reconcile-Steady,
  clear_suspend_request-Steady, Steady-refl, battery_low_request_check-Steady,
}
use hyprstate.Daemon.Dispatcher.Keep.{
  Held, Still, Still-Held, Kept-Held, handle_reconcile_tick-Held, Kept, Kept-refl, Kept-trans,
  Steady-Kept, Quiet-Kept, reenter-Kept,
}
use hyprstate.Daemon.Dispatcher.Takes.{
  note_sample, take_hotplug, take_ac, take_platform, take_override, take_powerd, take_lid,
  take_percent, take_resume, take_request, take_expiry, reassert_state,
}
use hyprstate.Daemon.Dispatcher.Route.{
  wants_power, wants_drift, is_resumed, advise_fresh, handle, policies, sync_waybar,
}

module _ (out : Outside) where
  kbd-Steady : (k : KbdCtx) (d : Daemon) → Steady d (with_kbd k d)
  kbd-Steady k d = record {
    state = refl;
    timer = refl;
    watch = refl;
    calls = refl;
    ext = refl;
    panel = λ h. refl;
  }

  kbd_policy_check-Steady :
      (k : KbdCtx) (b : Bool) (d : Daemon) → Steady d (kbd_policy_check out b (with_kbd k d))
  kbd_policy_check-Steady k b d =
      Steady-trans (kbd-Steady k d) (Quiet-Steady (kbd_policy_check-Quiet out b _))

  advise_gpu-Quiet : (p : GpuPref) (d : Daemon) → Quiet d (advise_gpu out p d)
  unfolding advise_gpu
  advise_gpu-Quiet p d = Quiet-trans (gpu_drift_check-Quiet out p d) (sync_dgpu_pin-Quiet out _ _)

  rehome-Quiet : (d : Daemon) → Quiet d (rehome out d)
  unfolding rehome send_cmd
  rehome-Quiet d = ground arith

  apply_chosen-Quiet : (o : Option TomlProfile) (d : Daemon) → Quiet d (apply_chosen out o d)
  unfolding apply_chosen
  apply_chosen-Quiet none d = record {
    main = refl;
    battery = refl;
    request = refl;
    calls = refl;
    panel = λ h. refl;
  }
  apply_chosen-Quiet (some p) d = adopt_profile-Quiet out p d

  write_gpu_breadcrumb-Quiet :
      (o : Option GpuPref) (d : Daemon) → Quiet d (write_gpu_breadcrumb out o d)
  unfolding write_gpu_breadcrumb
  write_gpu_breadcrumb-Quiet o d = ground arith

  handle_monitors_changed-Quiet : (d : Daemon) → Quiet d (handle_monitors_changed out d)
  unfolding handle_monitors_changed
  handle_monitors_changed-Quiet d = Quiet-trans (tick-Quiet d) (
      Quiet-trans (apply_chosen-Quiet _ _) (
        Quiet-trans (write_gpu_breadcrumb-Quiet _ _) (
          Quiet-trans (advise_gpu-Quiet _ _)
            (Quiet-trans (power_policy_check-Quiet out _) (rehome-Quiet _)))))

  advise_fresh-Quiet : (d : Daemon) → Quiet d (advise_fresh out d)
  unfolding advise_fresh
  advise_fresh-Quiet d = Quiet-trans (tick-Quiet d) (advise_gpu-Quiet _ _)

  differ : true ≡ false → ⊥
  differ e = cc

  ingested-awake :
      (d : Daemon)
      → state_eq d.ctx.main.state suspending ≡ false
      → (ingest_active_profile out d).ctx.main.state ≢ suspending
  ingested-awake d b h = awake (ap (λ (m : Main). m.state) settled)
    where
      settled : (ingest_active_profile out d).ctx.main ≡ d.ctx.main
      settled = (ingest_active_profile-Quiet out d).main

      asleep : State → Bool
      asleep s = state_eq s suspending

      awake : (ingest_active_profile out d).ctx.main.state ≡ d.ctx.main.state → ⊥
      awake e = differ (sym (ap asleep h) ∙ ap asleep e ∙ b)

  reasserted-Kept :
      (d : Daemon)
      → Kept d (
          if state_eq d.ctx.main.state suspending
          then d
          else (let e = ingest_active_profile out d in
              (on_enter out e.ctx.main.state reassert e).1))
  reasserted-Kept d = elim (Bool-cases (state_eq d.ctx.main.state suspending)) [
    | inl b ↦ rw b Kept-refl
    | inr b ↦ rw b (
        Kept-trans (Quiet-Kept (ingest_active_profile-Quiet out d))
          (reenter-Kept out _ (ingested-awake d b)))
  ]

  reassert_state-Kept : (t : Trigger) (d : Daemon) → Kept d (reassert_state out t d)
  unfolding reassert_state
  reassert_state-Kept t d =
      Kept-trans (reasserted-Kept d) (Steady-Kept (request_reconcile-Steady t _))

  take_lid-Steady : (b : Bool) (d : Daemon) → Steady d (take_lid out b d).1
  unfolding take_lid refresh_wayland_claim
  take_lid-Steady b d = ground arith

  take_hotplug-Still : (d : Daemon) → Still d (take_hotplug out d)
  unfolding take_hotplug request_reconcile schedule_profile_reconcile
  take_hotplug-Still d = ground arith

  plugged-Steady :
      (b : Bool) (d : Daemon) → Steady d (with_main (record d.ctx.main { on_ac = b }) d)
  plugged-Steady b d = record {
    state = refl;
    timer = refl;
    watch = refl;
    calls = refl;
    ext = refl;
    panel = λ h. refl;
  }

  battery-Steady : (b : Battery) (d : Daemon) → Steady d (with_battery b d)
  battery-Steady b d = record {
    state = refl;
    timer = refl;
    watch = refl;
    calls = refl;
    ext = refl;
    panel = λ h. refl;
  }

  noted-Steady : (b : Bool) (s : Bool × Daemon) → Steady s.1 (note_sample out b s).1
  unfolding note_sample request_reconcile
  noted-Steady b s = ground arith

  requested-Steady : (b : Bool) (d : Daemon) → Steady d (with_request b d)
  requested-Steady b d = record {
    state = refl;
    timer = refl;
    watch = refl;
    calls = refl;
    ext = refl;
    panel = λ h. refl;
  }

  own-Quiet :
      (w : SelfWriteTracker) (d : Daemon)
      → Quiet d (with_policy (record d.ctx.policy { self_writes = w }) (tick d))
  own-Quiet w d = record {
    main = refl;
    battery = refl;
    request = refl;
    calls = refl;
    panel = λ h. refl;
  }

  take_ac-Steady : (b : Bool) (d : Daemon) → Steady d (take_ac out b d).1
  unfolding take_ac request_reconcile schedule_power_settle
  take_ac-Steady b d = elim (Bool-cases (bool_eq b d.ctx.main.on_ac)) [
    | inl e ↦ rw e Steady-refl
    | inr e ↦ rw e (
        Steady-trans (plugged-Steady b d) (
          Steady-trans (battery_low_request_check-Steady out _)
            (Steady-trans (schedule_power_settle-Steady _) (request_reconcile-Steady _ _))))
  ]

  take_percent-Steady : (pct : F64) (d : Daemon) → Steady d (take_percent out pct d).1
  unfolding take_percent request_reconcile
  take_percent-Steady pct d = Steady-trans (battery-Steady _ d) (
      Steady-trans (battery_low_request_check-Steady out _)
        (noted-Steady _ (battery_low_request_check out _)))

  take_platform-Quiet : (v : Option Text) (d : Daemon) → Quiet d (take_platform out v d)
  unfolding take_platform
  take_platform-Quiet v d = Quiet-trans (own-Quiet _ d) (
      if-Quiet (is_self_write d.ctx.policy.self_writes (out.clock d.asked) v).0 (Quiet-refl _) (
        Quiet-trans (adopt_power_override-Quiet out (profile_from_platform_value v) _)
          (power_policy_check-Quiet out _)))

  take_powerd-Steady : (d : Daemon) → Steady d (take_powerd out d)
  unfolding take_powerd
  take_powerd-Steady d = ground arith

  take_request-Steady : (b : Bool) (d : Daemon) → Steady d (take_request out b d)
  unfolding take_request refresh_wayland_claim
  take_request-Steady b d = ground arith

  pub take_expiry-Steady : (d : Daemon) → Steady d (take_expiry out d)
  unfolding take_expiry
  take_expiry-Steady d = ground arith

  take_override-Quiet : (w : Option Text) (d : Daemon) → Quiet d (take_override w d)
  unfolding take_override
  take_override-Quiet w d = ground arith

  pub take_resume-Steady : (d : Daemon) → Steady d (take_resume out d)
  unfolding take_resume request_reconcile clear_suspend_request
  take_resume-Steady d =
      Steady-trans
        (Steady-trans (requested-Steady false d)
          (Steady-trans (clear_suspend_request-Steady out _) (request_reconcile-Steady _ _)))
        (kbd_policy_check-Steady _ false _)

  pub sync_waybar-Quiet : (d : Daemon) → Quiet d (sync_waybar out d)
  unfolding sync_waybar
  sync_waybar-Quiet d = ground arith

  pub policies-Quiet : (k : EventKind) (d : Daemon) → Quiet d (policies out k d)
  unfolding policies
  policies-Quiet k d =
      Quiet-trans (if-Quiet (is_resumed k) (brightness_rearm-Quiet out d) (Quiet-refl d)) (
        Quiet-trans (if-Quiet (wants_drift k) (advise_fresh-Quiet _) (Quiet-refl _))
          (if-Quiet (wants_power k) (power_policy_check-Quiet out _) (Quiet-refl _)))

  idle-Quiet :
      (b : Bool) (d : Daemon)
      → Quiet d (kbd_policy_check out (not b) (if b then kbd_release_override out d else d))
  idle-Quiet b d =
      Quiet-trans (if-Quiet b (kbd_release_override-Quiet out d) (Quiet-refl d))
        (kbd_policy_check-Quiet out (not b) _)

  pub handle-Held : (ev : Event) (d : Daemon) → Held d (handle out ev d).1
  unfolding handle
  handle-Held config_reloaded d = Kept-Held (reassert_state-Kept _ d)
  handle-Held profile_applied d = Kept-Held (reassert_state-Kept _ d)
  handle-Held (reconcile_tick snap) d = handle_reconcile_tick-Held out snap d
  handle-Held monitors_changed d = Kept-Held (Quiet-Kept (handle_monitors_changed-Quiet d))
  handle-Held profiles_changed d = Kept-Held (Steady-Kept (schedule_profile_reconcile-Steady d))
  handle-Held backlight_hotplug d = Kept-Held (Quiet-Kept (discover_backlight-Quiet out d))
  handle-Held sleeping d = Kept-Held (Steady-Kept (kbd_policy_check-Steady _ false d))
  handle-Held (kbd_idle idle) d =
      Kept-Held (Steady-Kept (Steady-trans (kbd-Steady _ d) (Quiet-Steady (idle-Quiet idle _))))
  handle-Held (kbd_level_changed level) d =
      Kept-Held (Steady-Kept (kbd_policy_check-Steady _ true d))
  handle-Held (kbd_override_changed armed) d =
      Kept-Held (Steady-Kept (kbd_policy_check-Steady _ armed d))
  handle-Held kbd_led_hotplug d =
      Kept-Held
        (Quiet-Kept (Quiet-trans (discover_kbd-Quiet out d) (kbd_policy_check-Quiet out true _)))
  handle-Held (lid closed) d = Kept-Held (Steady-Kept (take_lid-Steady closed d))
  handle-Held (monitor_hotplug added) d = Still-Held (take_hotplug-Still d)
  handle-Held (inhibitor true active) d = Kept-Held (
      Steady-Kept (record {
        state = refl;
        timer = refl;
        watch = refl;
        calls = refl;
        ext = refl;
        panel = λ h. refl;
      }))
  handle-Held (inhibitor false active) d = Kept-Held (
      Steady-Kept (record {
        state = refl;
        timer = refl;
        watch = refl;
        calls = refl;
        ext = refl;
        panel = λ h. refl;
      }))
  handle-Held (lock_changed locked) d = Kept-Held (
      Steady-Kept (
        Steady-trans
          (record {
            state = refl;
            timer = refl;
            watch = refl;
            calls = refl;
            ext = refl;
            panel = λ h. refl;
          })
          (Steady-trans (request_reconcile-Steady _ _)
            (Quiet-Steady (kbd_policy_check-Quiet out false _)))))
  handle-Held (ac_changed on_ac) d = Kept-Held (Steady-Kept (take_ac-Steady on_ac d))
  handle-Held power_ac_settled d =
      Kept-Held
        (Steady-Kept (Steady-trans (battery-Steady _ d) (battery_low_request_check-Steady out _)))
  handle-Held (power_override_changed word) d = Kept-Held (Quiet-Kept (take_override-Quiet word d))
  handle-Held (battery_percent pct) d = Kept-Held (Steady-Kept (take_percent-Steady pct d))
  handle-Held (platform_profile_changed value) d =
      Kept-Held (Quiet-Kept (take_platform-Quiet value d))
  handle-Held (gpu_override_changed word) d = Kept-Held (Kept-refl)
  handle-Held powerd_appeared d = Kept-Held (Steady-Kept (take_powerd-Steady d))
  handle-Held (suspend_request_changed word) d =
      Kept-Held (Steady-Kept (take_request-Steady (is_some word) d))
  handle-Held timer_expired d = Kept-Held (Steady-Kept (take_expiry-Steady d))
  handle-Held resumed d = Kept-Held (Steady-Kept (take_resume-Steady d))
