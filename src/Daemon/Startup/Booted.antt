-- ===== src/Daemon/Startup/Booted.antt =====
-- The daemon that src/daemon/mod.rs starts the dispatcher's loop with.
use hyprstate.Prelude.{
  ◌≡◌, subst, refl, sym, ap, ◌∙◌, ◌⊎◌, inl, inr, Bool, true, false, not, ◌&&◌, ◌||◌, Text, List,
  codes, Option, none, some, is_some, unwrap_or, arith, [],
}
use hyprstate.Daemon.Ctx.{TomlProfile}
use hyprstate.ProfileFiles.{find_name}
use hyprstate.Daemon.Event.{monitors_changed, power_override_changed}
use hyprstate.Daemon.Outside.{Outside, Daemon}
use hyprstate.Daemon.Dispatcher.{battery_low_request_check}
use hyprstate.Daemon.Dispatcher.BatteryLow.{battery_low_request_check-Checked}
use hyprstate.Daemon.Dispatcher.Frame.{Quiet, discover_kbd-Quiet, discover_backlight-Quiet}
use hyprstate.Daemon.Dispatcher.Steps.{battery_low_request_check-Steady}
use hyprstate.Daemon.Dispatcher.Invariant.{Inv}
use hyprstate.Daemon.Dispatcher.Reach.{started, next, event, Reach-Inv}
use hyprstate.Daemon.Startup.{
  Boot, is_present, stale_cleared, fresh_daemon, devices, kbd_settings, charger, charged, charge,
  first_world, seed_profile, adopt, lock_at_start, seeded_world, admitted, boot_daemon, launched,
}

module _ (out : Outside) where
  -- What is left of the request file and the calls by the readings before the battery-low check.
  record Untouched (d e : Daemon) : Type 0 where
    request : e.request_file ≡ d.request_file
    calls : e.calls ≡ d.calls

  Untouched-trans : {d e f : Daemon} → Untouched d e → Untouched e f → Untouched d f
  Untouched-trans p q = record { request = q.request ∙ p.request; calls = q.calls ∙ p.calls }

  charger-Untouched : (o : Option (Option Bool)) (d : Daemon) → Untouched d (charger o d)
  charger-Untouched none d = record { request = refl; calls = refl }
  charger-Untouched (some none) d = record { request = refl; calls = refl }
  charger-Untouched (some (some b)) d = record { request = refl; calls = refl }

  charged-Untouched : (o : Option _) (d : Daemon) → Untouched d (charged o d)
  charged-Untouched none d = record { request = refl; calls = refl }
  charged-Untouched (some pct) d = record { request = refl; calls = refl }

  Quiet-Untouched : {d e : Daemon} → Quiet d e → Untouched d e
  Quiet-Untouched q = record { request = q.request; calls = q.calls }

  settings-Untouched : (b : Boot) (d : Daemon) → Untouched d (kbd_settings b d)
  unfolding kbd_settings
  settings-Untouched b d = record { request = refl; calls = refl }

  devices-Untouched : (b : Boot) (d : Daemon) → Untouched d (devices out b d)
  unfolding devices
  devices-Untouched b d = Untouched-trans (charger-Untouched b.on_battery d) (
      Untouched-trans (charged-Untouched (charge b.on_battery b.battery) _) (
        Untouched-trans (Quiet-Untouched (discover_backlight-Quiet out _))
          (Untouched-trans (settings-Untouched b _) (Quiet-Untouched (discover_kbd-Quiet out _)))))

  adopt-Untouched : (o : Option TomlProfile) (d : Daemon) → Untouched d (adopt o d)
  adopt-Untouched none d = record { request = refl; calls = refl }
  adopt-Untouched (some p) d = record { request = refl; calls = refl }

  seed_profile-Untouched :
      (o : Option Text) (ps : List TomlProfile) (d : Daemon) → Untouched d (seed_profile o ps d)
  unfolding seed_profile
  seed_profile-Untouched none ps d = record { request = refl; calls = refl }
  seed_profile-Untouched (some n) ps d =
      Untouched-trans (adopt-Untouched (find_name n ps) d) (record { request = refl; calls = refl })

  admitted_iff :
      (skip taken : Bool) (d : Daemon) → is_some (admitted out skip taken d) ≡ (skip || taken)
  admitted_iff true taken d = refl
  admitted_iff false true d = refl
  admitted_iff false false d = refl

  -- The start goes on in shadow mode, without a lid, or with the inhibitor, and ends otherwise.
  pub boot_daemon_iff :
      (b : Boot) (file : Option Text)
      → is_some (boot_daemon out b file)
        ≡ ((out.shadow || not (is_present b.conf.lid)) || b.inhibitor_taken)
  unfolding boot_daemon
  boot_daemon_iff b file = admitted_iff _ _ _

  -- The daemon before and after the battery-low check.
  unfoldable pub before_check : Boot → Option Text → Daemon
  before_check b file = devices out b (fresh_daemon out b file)

  unfoldable pub after_check : Boot → Option Text → Daemon
  after_check b file = (battery_low_request_check out (before_check b file)).1

  seeded_world-Untouched : (b : Boot) (e : Daemon) → Untouched e (seeded_world out b e)
  unfolding seeded_world first_world lock_at_start
  seeded_world-Untouched b e =
      let seeded = seed_profile-Untouched b.active_name b.profiles (first_world b e) in
      record { request = seeded.request; calls = seeded.calls }

  admitted-some : (skip taken : Bool) (e d : Daemon) → admitted out skip taken e ≡ some d → d ≡ e
  admitted-some true taken e d h = sym (ap (λ o. unwrap_or o d) h)
  admitted-some false true e d h = sym (ap (λ o. unwrap_or o d) h)
  admitted-some false false e d h = absurd (ground (arith, h))

  pub boot_daemon-seeded_world :
      (b : Boot) (file : Option Text) (d : Daemon)
      → boot_daemon out b file ≡ some d
      → d ≡ seeded_world out b (after_check b file)
  unfolding boot_daemon after_check before_check
  boot_daemon-seeded_world b file d h = admitted-some _ _ _ d h

  booted-calls :
      (b : Boot) (file : Option Text) (d : Daemon) → boot_daemon out b file ≡ some d → d.calls ≡ []
  unfolding after_check before_check fresh_daemon
  booted-calls b file d h =
      ap (λ (x : Daemon). x.calls) (boot_daemon-seeded_world b file d h)
      ∙ (seeded_world-Untouched b (after_check b file)).calls
      ∙ (battery_low_request_check-Steady out (before_check b file)).calls
      ∙ (devices-Untouched b (fresh_daemon out b file)).calls

  -- Whatever the start reads, the daemon that runs after the two events that are queued for it has
  -- its timer, its claim watch and its calls in order.
  pub launched-Inv :
      (b : Boot) (file : Option Text) (d : Daemon)
      → boot_daemon out b file ≡ some d
      → Inv (launched out b d)
  unfolding launched
  launched-Inv b file d h = Reach-Inv out (
      next (next (started d (booted-calls b file d h)) (event monitors_changed _))
        (event (power_override_changed b.override_word) _))

  -- The request file after the start: there is none, or it is the daemon's own, which it wrote for a
  -- battery that is low and discharges.
  abbrev pub Fresh : Option Text → Daemon → Type 0
  Fresh file d =
      (file ≡ none)
      ⊎ ((file ≡ some (codes "battery-low\n"))
          × (d.ctx.battery.low_battery ≡ true)
          × (d.ctx.main.on_ac ≡ false))

  checked_file :
      (b : Boot) (file : Option Text)
      → (before_check b file).request_file ≡ none
      → Fresh (after_check b file).request_file (before_check b file)
  unfolding after_check
  checked_file b file e = elim (battery_low_request_check-Checked out (before_check b file)) [
    | inl x ↦ inl (x ∙ e)
    | inr (inl (x, c)) ↦ inr (x, c.0, c.1)
    | inr (inr (x, c, r)) ↦ inl x
  ]

  -- A start that could delete the request file leaves none, or one of its own, which it wrote because
  -- the battery that it read is low and the charger is out.
  pub boot_daemon-Fresh :
      (b : Boot) (file : Option Text) (d : Daemon)
      → boot_daemon out b file ≡ some d
      → (out.runtime_dir && b.stale_removed) ≡ true
      → Fresh d.request_file (before_check b file)
  unfolding before_check fresh_daemon stale_cleared
  boot_daemon-Fresh b file d h removed =
      subst (λ r. Fresh r (before_check b file)) (sym kept)
        (checked_file b file
          ((devices-Untouched b (fresh_daemon out b file)).request ∙ rw removed refl))
    where
      kept : d.request_file ≡ (after_check b file).request_file
      kept =
          ap (λ (x : Daemon). x.request_file) (boot_daemon-seeded_world b file d h)
          ∙ (seeded_world-Untouched b (after_check b file)).request
