-- ===== src/Daemon/Sources/Files/Tests.antt =====
-- The state-file task at concrete rounds (src/daemon/sources/files.rs).
use hyprstate.Prelude.{
  ◌≡◌, refl, [], ◌∷◌, codes, text_eq, true, false, some, none, parse_i64, magnitude, scan, is_digit,
  not_negative,
}
use hyprstate.Kbd.{clamp_level}
use hyprstate.Daemon.Event.{gpu_override_changed, platform_profile_changed}
use hyprstate.Daemon.Sources.Files.{
  Readings, read_now, check_all, no_check, begin, rounds, sweep, report, send, send_platform,
  tell_platform, check_gpu, check_power, check_suspend, check_profiles, check_kbd_level,
  check_kbd_override, read_kbd_level,
}
use hyprstate.Daemon.Sources.Files.Route.{
  EventMask, route, route_name, extension, last_dot, hypr_config, user_profiles,
}
use hyprstate.Daemon.Sources.Files.Told.{Told, rounds-Told}
use hyprstate.Daemon.Sources.Files.CatchUp.{sweep-catches_up}

abbrev still : Readings
still = record {
  platform = some (codes "balanced");
  platform_again = [];
  gpu = none;
  power = none;
  suspend = false;
  profiles = 7;
  kbd_word = some (codes "40");
  kbd_override = false;
}

-- The platform profile moves twice in one round, the second time under the read.
abbrev moved : Readings
moved = record still {
  platform = some (codes "performance");
  platform_again = some (codes "balanced") ∷ [];
  gpu = some (codes "dgpu");
}

abbrev closed_write : EventMask
closed_write = record { overflow = false; ignored = false; create = false; moved_to = false }

-- A rendered profile is no input, a TOML profile is one.
routes :
    (route user_profiles closed_write (some (codes "desk.lua")) ≡ no_check)
    × (route user_profiles closed_write (some (codes "desk.toml"))
        ≡ record no_check { profiles = true })
    × (route user_profiles closed_write (some (codes ".toml")) ≡ no_check)
    × (route hypr_config closed_write (some (codes "edp-off")) ≡ no_check)
unfolding route route_name extension last_dot text_eq
routes = (refl, refl, refl, refl)

rounds-Told_example :
    Told
      (read_now still)
      (platform_profile_changed (some (codes "performance"))
        ∷ platform_profile_changed (some (codes "balanced"))
        ∷ gpu_override_changed (some (codes "dgpu"))
        ∷ [])
      (record (read_now still) { gpu = some (codes "dgpu") })
unfolding rounds begin sweep report send send_platform tell_platform check_gpu check_power
    check_suspend check_profiles check_kbd_level check_kbd_override text_eq read_kbd_level parse_i64
    not_negative magnitude scan is_digit clamp_level
rounds-Told_example =
    rounds-Told still 10
      ((check_all, moved)
        ∷ (check_all, record moved { platform = some (codes "balanced"); platform_again = [] })
        ∷ [])
      refl

sweep-catches_up_example :
    (sweep check_all moved (begin still 10)).last
    ≡ record (read_now moved) { platform = some (codes "balanced") }
unfolding begin sweep report send send_platform tell_platform check_gpu check_power check_suspend
    check_profiles check_kbd_level check_kbd_override text_eq read_kbd_level parse_i64 not_negative
    magnitude scan is_digit clamp_level
sweep-catches_up_example = sweep-catches_up moved (begin still 10) refl
