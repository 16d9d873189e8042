-- ===== src/Cli/Tests.antt =====
-- The commands at concrete files.
use hyprstate.Prelude.{◌≡◌, refl, true, false, codes, none, some, text_eq}
use hyprstate.Kbd.{step_level}
use hyprstate.Cli.{CliFiles, CliIo, power_run, kbd_run, stored_level, suspend_run}
use hyprstate.Cli.Told.{told_level, told_profile, next_override, kbd_run-told, power_run-cycles}

abbrev granted : CliIo
granted = record {
  runtime_dir = true;
  override_written = true;
  override_removed = true;
  level_written = true;
  marker_written = true;
  marker_removed = true;
  request_written = true;
  request_removed = true;
}

abbrev dim : CliFiles
dim = record {
  power_override = some (codes "balanced\n");
  kbd_level = some (codes "95\n");
  kbd_marker = none;
  request = none;
}

kbd_run-told_example :
    (told_level (kbd_run granted (codes "up") none dim).1
      ≡ some (step_level (stored_level dim) true))
    × ((kbd_run granted (codes "up") none dim).1.kbd_marker ≡ some (codes "manual\n"))
kbd_run-told_example = kbd_run-told granted true none dim refl refl refl

power_run-cycles_example :
    told_profile (power_run granted (codes "cycle") none dim).1 ≡ next_override (told_profile dim)
power_run-cycles_example = power_run-cycles granted none dim refl refl

request_needs_a_directory :
    suspend_run (record granted { runtime_dir = false }) (codes "request") dim ≡ (1, dim)
unfolding suspend_run text_eq
request_needs_a_directory = refl
