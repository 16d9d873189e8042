-- ===== src/Daemon/Kbd.antt =====
-- src/daemon/kbd_policy.rs, the keyboard effects of effectors.rs and the device discovery of
-- mod.rs. The status file's body is left out, but for whether the keys are lit.
pub mod Dark
use hyprstate.Prelude.{
  ℕ, Bool, false, not, ◌&&◌, Option, none, some, Text, text_eq, option_eq, ◌==◌, if◌then◌else◌, F64,
}
use hyprstate.Kbd.{KbdInputs, kbd_lit, is_dark, level_to_raw}
use hyprstate.Daemon.Ctx.{Main, KbdCtx, kbd_active}
use hyprstate.Daemon.Outside.{
  Outside, Daemon, led_written, kbd_override_file_removed, kbd_status_written, tick, wrote,
}

abbrev pub with_kbd : KbdCtx → Daemon → Daemon
with_kbd k d = record d { ctx = record d.ctx { kbd = k } }

unfoldable pub inputs_of : Main → KbdCtx → KbdInputs
inputs_of m k = record {
  locked = m.locked;
  sleeping = k.kbd_sleeping;
  typing = k.kbd_typing;
  dark = k.kbd_dark;
  override_armed = k.kbd_override;
}

module _ (out : Outside) where
  set_raw : ℕ → Daemon → Daemon
  set_raw raw d =
      let e = with_kbd (record d.ctx.kbd { kbd_applied = some raw }) d in
      if option_eq ◌==◌ d.ctx.kbd.kbd_applied (some raw)
      then d
      else (if not out.session
          then d
          else (if out.shadow
              then e
              else (if out.led_accepted d.asked then wrote (led_written raw) (tick e) else tick d)))

  set_led : Option (Text × ℕ) → ℕ → Daemon → Daemon
  unfolding set_raw
  set_led none pct d = d
  set_led (some (name, max)) pct d = set_raw (level_to_raw pct max) d

  unfoldable pub kbd_set : ℕ → Daemon → Daemon
  unfolding set_led
  kbd_set pct d = set_led d.ctx.kbd.kbd_led pct d

  unfoldable pub kbd_release_override : Daemon → Daemon
  kbd_release_override d =
      let e = with_kbd (record d.ctx.kbd { kbd_override = false }) d in
      if not d.ctx.kbd.kbd_override
      then d
      else (if out.shadow then e else wrote kbd_override_file_removed e)

  kbd_write_status : Bool → Daemon → Daemon
  kbd_write_status lit d = if out.shadow then d else wrote (kbd_status_written lit) d

  sampled : Option F64 → Daemon → Daemon
  sampled none d = d
  sampled (some lux) d =
      with_kbd
        (record d.ctx.kbd {
          kbd_last_lux = some lux;
          kbd_dark = is_dark lux d.ctx.kbd.kbd_dark_lux;
        })
        d

  decide_keys : Daemon → Daemon
  unfolding kbd_set kbd_write_status inputs_of
  decide_keys d =
      let lit = kbd_lit (inputs_of d.ctx.main d.ctx.kbd) in
      kbd_write_status lit (kbd_set (if lit then d.ctx.kbd.kbd_level else 0) d)

  unfoldable pub kbd_policy_check : Bool → Daemon → Daemon
  unfolding sampled decide_keys
  kbd_policy_check sample d =
      if not (kbd_active d.ctx.kbd)
      then d
      else decide_keys (if sample then sampled (out.read_lux d.asked) (tick d) else d)

  abbrev led_eq : Text × ℕ → Text × ℕ → Bool
  led_eq (n, a) (m, b) = text_eq n m && a == b

  abbrev seeded : Option (Text × ℕ) → ℕ → Option ℕ
  seeded none asked = none
  seeded (some led) asked = out.led_brightness asked

  unfoldable pub discover_kbd : Daemon → Daemon
  discover_kbd d =
      let led = out.find_kbd_led d.asked in
      let e = tick d in
      let f = tick e in
      tick (
        with_kbd
          (record d.ctx.kbd {
            kbd_applied =
                if option_eq led_eq led d.ctx.kbd.kbd_led
                then d.ctx.kbd.kbd_applied
                else seeded led e.asked;
            kbd_led = led;
            kbd_als = out.find_als f.asked;
          })
          f)

  abbrev device_of : Option (Text × ℕ) → Option Text
  device_of none = none
  device_of (some (dev, max)) = some dev

  abbrev max_of : Option (Text × ℕ) → ℕ
  max_of none = 0
  max_of (some (dev, max)) = max

  unfoldable pub discover_backlight : Daemon → Daemon
  discover_backlight d =
      let found = out.find_backlight d.asked in
      if option_eq text_eq (device_of found) d.ctx.brightness.brightness_dev
      then tick d
      else tick (record d {
        ctx = record d.ctx {
          brightness = record {
            brightness_dev = device_of found;
            brightness_max = max_of found;
            brightness_set = none;
            brightness_saved = none;
          };
        };
      })
