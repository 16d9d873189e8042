-- ===== src/Daemon/Startup/Tests.antt =====
-- The start at concrete readings.
use hyprstate.Prelude.{
  ◌≡◌, ◌⊎◌, refl, true, false, Text, codes, starts_with, [], ◌∷◌, Option, none, some, frac,
}
use hyprstate.Gpu.{text_le}
use hyprstate.Power.Conf.{default_conf}
use hyprstate.Daemon.Outside.{Daemon}
use hyprstate.Daemon.Dispatcher.Fixture.{granting}
use hyprstate.Fsm.{world_state}
use hyprstate.Daemon.Dispatcher.Route.{start}
use hyprstate.Daemon.Startup.Seeded.{seen, discharging, boot_daemon-seen}
use hyprstate.Daemon.Startup.{Boot, find_backlight, boot_daemon, seeded_world}
use hyprstate.Daemon.Startup.Booted.{before_check, after_check, Fresh, boot_daemon-Fresh}

-- A laptop that starts on battery at 5 percent, after a daemon that left a request.
abbrev at_night : Boot
at_night = record {
  conf = default_conf;
  stale_removed = true;
  inhibitor_taken = true;
  on_battery = some (some true);
  battery = some (frac 5 0);
  kbd_level_word = some (codes "70");
  kbd_override = false;
  lid = some false;
  inhibitors = some [];
  wayland = some false;
  monitors = some [];
  active_name = some (codes "desk");
  profiles = [];
  locked_hint = some false;
  override_word = none;
}

abbrev left_over : Option Text
left_over = some (codes "idle")

abbrev night : Daemon
night = seeded_world granting at_night (after_check granting at_night left_over)

night_boots : boot_daemon granting at_night left_over ≡ some night
unfolding boot_daemon after_check before_check
night_boots = refl

-- The lid is open, but the battery is low: the countdown starts by the daemon's own request.
boot_daemon-seen_example :
    ((start granting night).ctx.main.state ≡ world_state (seen granting at_night false))
    ⊎ ((discharging at_night ≡ true)
        × ((start granting night).ctx.main.state ≡ world_state (seen granting at_night true)))
boot_daemon-seen_example = boot_daemon-seen granting at_night left_over night night_boots

boot_daemon-Fresh_example :
    Fresh granting night.request_file (before_check granting at_night left_over)
boot_daemon-Fresh_example = boot_daemon-Fresh granting at_night left_over night night_boots refl

laptop_panel :
    find_backlight
      (λ n. 255)
      (codes "ddcci3" ∷ codes "zpanel" ∷ codes "amdgpu_bl1" ∷ codes "acer" ∷ [])
    ≡ some (codes "amdgpu_bl1", 255)
unfolding find_backlight starts_with text_le
laptop_panel = refl
