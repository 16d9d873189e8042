-- ===== src/Daemon/Power.antt =====
-- src/daemon/power_policy.rs and the power effects of effectors.rs: what powerd is asked for, the
-- manual override and the backlight.
use hyprstate.Prelude.{
  ℕ, ◌-◌, ◌/◌, Bool, true, false, not, ◌||◌, Option, none, some, option_eq, bool_eq, is_some, ltb,
  if◌then◌else◌, clamp, pos,
}
use hyprstate.Power.{PowerProfile, profile_eq, register}
use hyprstate.Daemon.Ctx.{Policy, Brightness, Gpu}
use hyprstate.Daemon.Outside.{
  Outside, Daemon, adopted, notify, override_file_removed, override_file_written,
  powerd_asked_profile, powerd_asked_pin, backlight_written, tick, wrote, send_cmd,
}

abbrev pub with_policy : Policy → Daemon → Daemon
with_policy p d = record d { ctx = record d.ctx { policy = p } }

abbrev pub with_brightness : Brightness → Daemon → Daemon
with_brightness b d = record d { ctx = record d.ctx { brightness = b } }

abbrev pub with_gpu : Gpu → Daemon → Daemon
with_gpu g d = record d { ctx = record d.ctx { gpu = g } }

abbrev powerd_lost : Daemon → Daemon
powerd_lost d =
    with_policy (record d.ctx.policy { powerd_available = false; powerd_warned = true }) d

-- `|cur - set| > slack`.
abbrev apart : ℕ → ℕ → ℕ → Bool
apart a b slack = ltb slack (a - b) || ltb slack (b - a)

-- `(max as f64 * 0.005) as i64`, the floor of a two-hundredth for every u32.
abbrev slack_of : ℕ → ℕ
slack_of max = max / 200

module _ (out : Outside) where
  unfoldable pub apply_power_profile : PowerProfile → Daemon → Daemon
  apply_power_profile p d =
      if option_eq profile_eq d.ctx.policy.power_applied (some p)
        || not d.ctx.policy.powerd_available
      then d
      else (let now = out.clock d.asked in
          let e =
            with_policy
              (record d.ctx.policy { self_writes = register d.ctx.policy.self_writes now p })
              (tick d) in
          let applied = with_policy (record e.ctx.policy { power_applied = some p }) e in
          if out.shadow
          then applied
          else (if out.powerd_applied e.asked
              then wrote (powerd_asked_profile p) (tick applied)
              else wrote (powerd_asked_profile p) (tick (powerd_lost e))))

  unfoldable pub sync_dgpu_pin : Bool → Daemon → Daemon
  sync_dgpu_pin awake d =
      if option_eq bool_eq d.ctx.gpu.dgpu_pinned (some awake) || not d.ctx.policy.powerd_available
      then d
      else (let pinned = with_gpu (record d.ctx.gpu { dgpu_pinned = some awake }) d in
          if out.shadow
          then pinned
          else (if out.powerd_applied d.asked
              then wrote (powerd_asked_pin awake) (tick pinned)
              else wrote (powerd_asked_pin awake) (tick (powerd_lost d))))

  unfoldable pub clear_power_override : Daemon → Daemon
  clear_power_override d =
      let e =
        with_policy (record d.ctx.policy { power_override = none; power_override_base = none }) d in
      if out.shadow then e else wrote override_file_removed e

  unfoldable pub adopt_power_override : PowerProfile → Daemon → Daemon
  adopt_power_override p d =
      let e =
        with_policy (record d.ctx.policy { power_override = some p; power_override_base = none })
          d in
      send_cmd out (notify (adopted p))
        (if out.shadow then e else wrote (override_file_written p) e)

  -- The reading of the backlight; there is none without a device.
  abbrev reading : Daemon → Option ℕ
  reading d = if is_some d.ctx.brightness.brightness_dev then out.brightness_read d.asked else none

  abbrev took_over : Option ℕ → Option ℕ → ℕ → Bool
  took_over none cur max = false
  took_over (some set) none max = false
  took_over (some set) (some cur) max = apart cur set (slack_of max)

  user_took_over : Daemon → Bool
  user_took_over d =
      took_over d.ctx.brightness.brightness_set (reading d) d.ctx.brightness.brightness_max

  brightness_write : ℕ → Daemon → Daemon
  brightness_write value d =
      let v = clamp 1 d.ctx.brightness.brightness_max (pos value) in
      let e = with_brightness (record d.ctx.brightness { brightness_set = some v }) d in
      if not (is_some d.ctx.brightness.brightness_dev) || not out.session
      then d
      else (if out.shadow
          then e
          else (if out.brightness_accepted d.asked
              then wrote (backlight_written v) (tick e)
              else tick d))

  yield_to_user : Daemon → Daemon
  yield_to_user d = tick (
      with_brightness
        (record d.ctx.brightness { brightness_saved = none; brightness_set = reading d }) d)

  cap_at : ℕ → Option ℕ → Daemon → Daemon
  unfolding brightness_write
  cap_at divisor none d = d
  cap_at divisor (some cur) d =
      let cap = d.ctx.brightness.brightness_max / divisor in
      if ltb cap cur then brightness_write cap d else d

  save_then_cap : ℕ → Option ℕ → Daemon → Daemon
  unfolding cap_at
  save_then_cap divisor none d = d
  save_then_cap divisor (some cur) d =
      cap_at divisor (some cur)
        (with_brightness (record d.ctx.brightness { brightness_saved = some cur }) d)

  -- The fraction of the maximum is given by its divisor: 0.50 by 2, 0.25 by 4.
  unfoldable pub brightness_save_and_cap : ℕ → Daemon → Daemon
  unfolding user_took_over yield_to_user save_then_cap
  brightness_save_and_cap divisor d =
      if user_took_over d
      then yield_to_user (tick d)
      else save_then_cap divisor (reading (tick d)) (tick (tick d))

  unfoldable pub brightness_cap : ℕ → Daemon → Daemon
  unfolding user_took_over yield_to_user cap_at
  brightness_cap divisor d =
      if user_took_over d
      then yield_to_user (tick d)
      else cap_at divisor (reading (tick d)) (tick (tick d))

  restore : Option ℕ → Daemon → Daemon
  unfolding user_took_over brightness_write
  restore none d = d
  restore (some saved) d =
      let e = with_brightness (record d.ctx.brightness { brightness_saved = none }) d in
      if user_took_over e
      then tick
          (tick (with_brightness (record e.ctx.brightness { brightness_set = reading (tick e) }) e))
      else brightness_write saved (tick e)

  unfoldable pub brightness_restore : Daemon → Daemon
  unfolding restore
  brightness_restore d = restore d.ctx.brightness.brightness_saved d

  unfoldable pub brightness_rearm : Daemon → Daemon
  brightness_rearm d =
      if is_some d.ctx.brightness.brightness_dev
      then tick (with_brightness (record d.ctx.brightness { brightness_set = reading d }) d)
      else d
