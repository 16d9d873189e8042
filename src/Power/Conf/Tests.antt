-- ===== src/Power/Conf/Tests.antt =====
-- power.conf at concrete texts (crates/hyprstate-fsm/src/power.rs).
use hyprstate.Prelude.{
  ◌≡◌, refl, ◌++◌, [], ◌∷◌, codes, Text, negsuc, text_eq, lines, pieces, strip_cr, as_lines,
  starts_with, strip_prefix, trim_start, trim_end, is_space, cut, parse_i64, magnitude, scan,
  is_digit, not_negative, negated, print_i64, print_nat, digits,
}
use hyprstate.Profiles.{parse_directive, directive_of, leader, key_ok}
use hyprstate.Power.{from_str, performance, balanced, power_saver}
use hyprstate.Power.Conf.{
  parse_power_conf, conf_line, conf_lines, conf_directive, policy_directive, store, lid_of,
  lid_ac_of, kbd_of, slot_of, default_conf, absent, bad_grace, unknown, malformed,
}
use hyprstate.Power.Conf.Bounds.{InBounds, parse_power_conf-InBounds}
use hyprstate.Power.Conf.Last.{last_number}

abbrev sample : Text
sample =
    codes
      "# mine\n#@ lid = absent\r\n#@ lid-grace = 9000\n#@ lid-grace = soon\n#@ ac = performance\n#@ sound = loud\n#@ =\n"

-- The directives that are right are taken, the others are warned about in their order.
sample_read : parse_power_conf sample ≡ (
  record default_conf {
    lid = absent;
    lid_grace_secs = 600;
    policy = record {
      docked_ac = balanced;
      ac = performance;
      battery = power_saver;
      battery_low = power_saver;
    };
  },
  bad_grace (codes "soon") 600 ∷ unknown (codes "sound") ∷ malformed (codes "#@ =") ∷ [],
)
unfolding parse_power_conf conf_lines conf_line conf_directive policy_directive store lid_of
    lid_ac_of kbd_of slot_of from_str text_eq lines pieces strip_cr as_lines starts_with
    strip_prefix trim_start trim_end is_space cut parse_i64 magnitude scan is_digit not_negative
    negated parse_directive directive_of leader key_ok
sample_read = refl

parse_power_conf-InBounds_example : InBounds (parse_power_conf sample).0
parse_power_conf-InBounds_example = parse_power_conf-InBounds sample

last_number_example :
    ((parse_power_conf (sample ++ codes "\n#@ lid-grace = -5")).0.lid_grace_secs ≡ 0)
    × ((parse_power_conf (sample ++ codes "\n#@ battery-low-percent = -5")).0.battery_low_pct ≡ 1)
    × ((parse_power_conf (sample ++ codes "\n#@ kbd-idle = -5")).0.kbd_idle_secs ≡ 1)
    × ((parse_power_conf (sample ++ codes "\n#@ kbd-dark-lux = -5")).0.kbd_dark_lux ≡ 0)
unfolding print_i64 print_nat digits
last_number_example = last_number sample (negsuc 4) refl
