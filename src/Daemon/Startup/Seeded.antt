-- ===== src/Daemon/Startup/Seeded.antt =====
-- The first state of the machine (src/daemon/mod.rs and the start of run in src/daemon/dispatcher.rs)
-- against what the start read.
use hyprstate.Prelude.{
  ◌≡◌, refl, sym, ap, ◌∙◌, ◌⊎◌, inl, inr, Bool, true, false, not, ◌&&◌, ◌||◌, ℕ, F64, le_nat, Text,
  List, Option, none, some, unwrap_or, arith, Bool-cases,
}
use hyprstate.Fsm.{WorldInputs, world_state}
use hyprstate.Daemon.Ctx.{Context, Main, Battery, TomlProfile, defers, world, inhibitor}
use hyprstate.Daemon.Outside.{Outside, Daemon, request_suspend, clear_battery_low_request}
use hyprstate.Daemon.Kbd.{discover_backlight}
use hyprstate.ProfileFiles.{find_name}
use hyprstate.Daemon.Dispatcher.Handlers.{ext_monitor_count_in}
use hyprstate.Daemon.Sources.Watchers.{logind_real_inhibitor_active}
use hyprstate.Daemon.Dispatcher.{fresh, with_state, battery_low_request_check}
use hyprstate.Daemon.Dispatcher.Route.{start}
use hyprstate.Daemon.Dispatcher.Frame.{
  Quiet-trans, tick-Quiet, sync_dgpu_pin-Quiet, kbd_policy_check-Quiet, discover_kbd-Quiet,
  discover_backlight-Quiet,
}
use hyprstate.Daemon.Dispatcher.Samples.{checked_battery}
use hyprstate.Daemon.Dispatcher.Handled.{sync_waybar-Quiet}
use hyprstate.Daemon.Dispatcher.Reach.{world_state-awake}
use hyprstate.Daemon.Dispatcher.Enter.{on_enter-Entered}
use hyprstate.Daemon.Dispatcher.Steps.{request_reconcile-Steady}
use hyprstate.Daemon.Startup.{
  Boot, is_present, conf_context, fresh_daemon, devices, kbd_settings, charger, charged, charge,
  first_world, seed_profile, adopt, lock_at_start, lid_at_start, seeded_world, boot_daemon,
}
use hyprstate.Daemon.Startup.Booted.{before_check, after_check, boot_daemon-seeded_world}

-- Whether the charger is in: unless UPower says that the machine is on battery.
abbrev pub on_mains : Option (Option Bool) → Bool
on_mains (some (some on_battery)) = not on_battery
on_mains _ = true

-- Whether the battery's charge was read and is at the threshold or below.
abbrev pub is_low : Option (Option Bool) → Option F64 → ℕ → Bool
is_low (some r) (some pct) threshold = le_nat pct threshold
is_low _ _ threshold = false

abbrev pub discharging : Boot → Bool
discharging b = is_low b.on_battery b.battery b.conf.battery_low_pct && not (on_mains b.on_battery)

module _ (out : Outside) where
  -- The world that the readings of the start show, with a request or without.
  abbrev pub seen : Boot → Bool → WorldInputs
  seen b requested = record {
    lid_closed = is_present b.conf.lid && unwrap_or b.lid false;
    ext_mon_count = ext_monitor_count_in b.monitors 0;
    inhibitor =
        unwrap_or (logind_real_inhibitor_active b.inhibitors) false || unwrap_or b.wayland false;
    suspend_requested = requested;
    locked = out.session && unwrap_or b.locked_hint false;
    battery_low = discharging b;
    lid_ac_hold = defers b.conf.lid_ac && on_mains b.on_battery;
  }

  start-state : (d : Daemon) → (start out d).ctx.main.state ≡ world_state (world d.ctx)
  unfolding start
  start-state d =
      (request_reconcile-Steady _ _).state
      ∙ ap (λ (m : Main). m.state)
          (Quiet-trans (tick-Quiet _) (
            Quiet-trans (tick-Quiet _) (
              Quiet-trans (sync_dgpu_pin-Quiet out _ _)
                (Quiet-trans (sync_waybar-Quiet out _) (kbd_policy_check-Quiet out true _))))).main
      ∙ (on_enter-Entered out (world_state (world d.ctx)) fresh
          (with_state (world_state (world d.ctx)) d) (world_state-awake (world d.ctx))).state

  charger_main :
      (o : Option (Option Bool)) (c : Option F64) (d : Daemon)
      → d.ctx.main.on_ac ≡ true
      → (charged c (charger o d)).ctx.main ≡ record d.ctx.main { on_ac = on_mains o }
  charger_main none none d e = rw e refl
  charger_main none (some p) d e = rw e refl
  charger_main (some none) none d e = rw e refl
  charger_main (some none) (some p) d e = rw e refl
  charger_main (some (some b)) none d e = refl
  charger_main (some (some b)) (some p) d e = refl

  charger_battery :
      (o : Option (Option Bool)) (p : Option F64) (d : Daemon)
      → d.ctx.battery.on_ac_settled ≡ true
      → ((charged (charge o p) (charger o d)).ctx.battery.low_battery
          ≡ is_low o p d.ctx.battery.battery_low_pct)
        × ((charged (charge o p) (charger o d)).ctx.battery.on_ac_settled ≡ on_mains o)
  charger_battery none p d e = (refl, e)
  charger_battery (some none) none d e = (refl, e)
  charger_battery (some none) (some p) d e = (refl, e)
  charger_battery (some (some b)) none d e = (refl, refl)
  charger_battery (some (some b)) (some p) d e = (refl, refl)

  -- Up to the readings of UPower.
  charge_read : Boot → Option Text → Daemon
  charge_read b file =
      charged (charge b.on_battery b.battery) (charger b.on_battery (fresh_daemon out b file))

  before_main :
      (b : Boot) (file : Option Text)
      → (before_check out b file).ctx.main
        ≡ record (conf_context b.conf).main { on_ac = on_mains b.on_battery }
  unfolding before_check charge_read devices kbd_settings fresh_daemon conf_context
  before_main b file =
      (discover_kbd-Quiet out (kbd_settings b (discover_backlight out (charge_read b file)))).main
      ∙ (discover_backlight-Quiet out (charge_read b file)).main
      ∙ charger_main b.on_battery (charge b.on_battery b.battery) (fresh_daemon out b file) refl

  before_battery :
      (b : Boot) (file : Option Text)
      → ((before_check out b file).ctx.battery.low_battery
          ≡ is_low b.on_battery b.battery b.conf.battery_low_pct)
        × ((before_check out b file).ctx.battery.on_ac_settled ≡ on_mains b.on_battery)
  unfolding before_check charge_read devices kbd_settings fresh_daemon conf_context
  before_battery b file =
      let same =
        (discover_kbd-Quiet out
          (kbd_settings b (discover_backlight out (charge_read b file)))).battery
        ∙ (discover_backlight-Quiet out (charge_read b file)).battery in
      let (low, mains) = charger_battery b.on_battery b.battery (fresh_daemon out b file) refl in
      (
        ap (λ (x : Battery). x.low_battery) same ∙ low,
        ap (λ (x : Battery). x.on_ac_settled) same ∙ mains,
      )

  checked_main :
      (d : Daemon)
      → (battery_low_request_check out d).1.ctx.main ≡ record d.ctx.main {
        suspend_requested = (battery_low_request_check out d).1.ctx.main.suspend_requested;
      }
  unfolding battery_low_request_check request_suspend clear_battery_low_request
  checked_main d = ground arith

  checked_request :
      (d : Daemon)
      → d.ctx.main.suspend_requested ≡ false
      → ((battery_low_request_check out d).1.ctx.main.suspend_requested ≡ false)
        ⊎ ((d.ctx.battery.low_battery && not d.ctx.battery.on_ac_settled) ≡ true)
  unfolding battery_low_request_check request_suspend clear_battery_low_request
  checked_request d h = ground arith

  seed_main :
      (o : Option Text) (ps : List TomlProfile) (d : Daemon)
      → (seed_profile o ps d).ctx.main ≡ d.ctx.main
  unfolding seed_profile
  seed_main none ps d = refl
  seed_main (some n) ps d = adopted (find_name n ps)
    where
      adopted : (o : Option TomlProfile) → (adopt o d).ctx.main ≡ d.ctx.main
      adopted none = refl
      adopted (some p) = refl

  seed_battery :
      (o : Option Text) (ps : List TomlProfile) (d : Daemon)
      → (seed_profile o ps d).ctx.battery ≡ d.ctx.battery
  unfolding seed_profile
  seed_battery none ps d = refl
  seed_battery (some n) ps d = adopted (find_name n ps)
    where
      adopted : (o : Option TomlProfile) → (adopt o d).ctx.battery ≡ d.ctx.battery
      adopted none = refl
      adopted (some p) = refl

  settings_none : (b : Boot) → (conf_context b.conf).main.suspend_requested ≡ false
  unfolding conf_context
  settings_none b = refl

  lid_seen : (b : Bool) (o : Option Bool) → lid_at_start b o ≡ (b && unwrap_or o false)
  lid_seen true o = refl
  lid_seen false o = refl

  -- What the start makes of the main context before it.
  started_main : Boot → Main → Main
  started_main b m = record m {
    lid_closed = lid_at_start m.lid_present b.lid;
    logind_inhibitor = unwrap_or (logind_real_inhibitor_active b.inhibitors) false;
    wayland_inhibitor = unwrap_or b.wayland false;
    ext_mon_count = ext_monitor_count_in b.monitors 0;
    locked = out.session && unwrap_or b.locked_hint false;
  }

  seeded_main :
      (b : Boot) (e : Daemon) (m : Main)
      → e.ctx.main ≡ m
      → (seeded_world out b e).ctx.main ≡ started_main b m
  unfolding seeded_world lock_at_start first_world started_main
  seeded_main b e m h =
      ap (λ (x : Main). record x { locked = out.session && unwrap_or b.locked_hint false })
        (seed_main b.active_name b.profiles (first_world b e))
      ∙ ap (started_main b) h

  seeded_battery : (b : Boot) (e : Daemon) → (seeded_world out b e).ctx.battery ≡ e.ctx.battery
  unfolding seeded_world lock_at_start first_world
  seeded_battery b e = seed_battery b.active_name b.profiles (first_world b e)

  seen_of :
      (b : Boot) (c : Context) (r : Bool)
      → c.main
        ≡ started_main b (record (conf_context b.conf).main {
          on_ac = on_mains b.on_battery;
          suspend_requested = r;
        })
      → c.battery.low_battery ≡ is_low b.on_battery b.battery b.conf.battery_low_pct
      → c.battery.on_ac_settled ≡ on_mains b.on_battery
      → world c ≡ seen b r
  unfolding world inhibitor conf_context started_main
  seen_of b c r m l s = rw (m, l, s, lid_seen (is_present b.conf.lid) b.lid) refl

  -- The world after the check is what the readings show, with the request that the check left.
  seeded_world-seen :
      (b : Boot) (file : Option Text)
      → world (seeded_world out b (after_check out b file)).ctx
        ≡ seen b (after_check out b file).ctx.main.suspend_requested
  unfolding after_check
  seeded_world-seen b file =
      let e = after_check out b file in
      let (low, mains) = before_battery b file in
      let same = seeded_battery b e ∙ checked_battery out (before_check out b file) in
      seen_of b (seeded_world out b e).ctx e.ctx.main.suspend_requested
        (seeded_main b e _ (
          checked_main (before_check out b file)
          ∙ ap (λ (m : Main). record m { suspend_requested = e.ctx.main.suspend_requested })
              (before_main b file)))
        (ap (λ (x : Battery). x.low_battery) same ∙ low)
        (ap (λ (x : Battery). x.on_ac_settled) same ∙ mains)

  -- The first state of a daemon that starts is the one that the world of its readings asks for without a
  -- request, whatever request file was left; or with one, and then the battery that was read is low
  -- and the machine runs on it. A reading that fails counts as an open lid, no claim, no monitor, no
  -- lock, a charger that is in, and a battery that is not low.
  pub boot_daemon-seen :
      (b : Boot) (file : Option Text) (d : Daemon)
      → boot_daemon out b file ≡ some d
      → ((start out d).ctx.main.state ≡ world_state (seen b false))
        ⊎ ((discharging b ≡ true) × ((start out d).ctx.main.state ≡ world_state (seen b true)))
  unfolding after_check
  boot_daemon-seen b file d h = elim (checked_request (before_check out b file) none_yet) [
    | inl e ↦ inl (all ∙ ap (λ r. world_state (seen b r)) e)
    | inr low ↦ elim (Bool-cases (after_check out b file).ctx.main.suspend_requested) [
      | inl e ↦ inr (sym (lows low) ∙ low, all ∙ ap (λ r. world_state (seen b r)) e)
      | inr e ↦ inl (all ∙ ap (λ r. world_state (seen b r)) e)
    ]
  ]
    where
      none_yet : (before_check out b file).ctx.main.suspend_requested ≡ false
      none_yet = ap (λ (m : Main). m.suspend_requested) (before_main b file) ∙ settings_none b

      lows :
          ((before_check out b file).ctx.battery.low_battery
              && not (before_check out b file).ctx.battery.on_ac_settled)
            ≡ true
          → ((before_check out b file).ctx.battery.low_battery
              && not (before_check out b file).ctx.battery.on_ac_settled)
            ≡ discharging b
      lows l = rw ((before_battery b file).0, (before_battery b file).1) refl

      all :
          (start out d).ctx.main.state
          ≡ world_state (seen b (after_check out b file).ctx.main.suspend_requested)
      all =
          ap (λ (x : Daemon). (start out x).ctx.main.state)
            (boot_daemon-seeded_world out b file d h)
          ∙ start-state (seeded_world out b (after_check out b file))
          ∙ ap world_state (seeded_world-seen b file)
