-- ===== src/Daemon/Startup.antt =====
-- src/daemon/mod.rs: what `run` puts in the context before the dispatcher's loop, and the choice of
-- the backlight device. What D-Bus, hyprctl and the files answer is given; the tasks that are spawned
-- are those of Sources.
pub mod Booted
pub mod Seeded
mod Tests
use hyprstate.Prelude.{
  ℕ, ◌*◌, ltb, Bool, true, false, not, ◌&&◌, ◌||◌, F64, le_nat, Text, codes, starts_with, parse_i64,
  unwrap_or, List, [], ◌∷◌, Option, none, some, is_some, if◌then◌else◌, text_eq,
}
use hyprstate.Kbd.{clamp_level, default_kbd_level_pct}
use hyprstate.Power.Conf.{PowerConf, LidMode, present, absent}
use hyprstate.ProfileFiles.{find_name}
use hyprstate.Gpu.{text_le}
use hyprstate.Daemon.Ctx.{Context, Main, TomlProfile, default_context}
use hyprstate.Daemon.Event.{Event, monitors_changed, power_override_changed}
use hyprstate.Daemon.Outside.{Outside, Daemon, Monitor}
use hyprstate.Daemon.Kbd.{discover_backlight, discover_kbd, with_kbd}
use hyprstate.Daemon.Effectors.{with_main}
use hyprstate.Daemon.Dispatcher.{battery_low_request_check}
use hyprstate.Daemon.Dispatcher.Handlers.{with_battery, ext_monitor_count_in}
use hyprstate.Daemon.Dispatcher.Route.{round, start}
use hyprstate.Daemon.Sources.Watchers.{Row, logind_real_inhibitor_active}

-- `!n.starts_with("ddcci")`.
unfoldable pub panels : List Text → List Text
panels [] = []
panels (n ∷ names) =
    let rest = panels names in if starts_with n (codes "ddcci") then rest else n ∷ rest

unfoldable pub put_name : Text → List Text → List Text
put_name n [] = n ∷ []
put_name n (m ∷ names) =
    let rest = put_name n names in if text_le n m then n ∷ m ∷ names else m ∷ rest

unfoldable pub sort_names : List Text → List Text
unfolding put_name
sort_names [] = []
sort_names (n ∷ names) = put_name n (sort_names names)

abbrev pub is_preferred : Text → Bool
is_preferred n =
    starts_with n (codes "amdgpu_bl")
    || starts_with n (codes "intel_backlight")
    || starts_with n (codes "acpi_video")

abbrev pub first_name : List Text → Option Text
first_name [] = none
first_name (n ∷ names) = some n

unfoldable pub preferred : List Text → Option Text
preferred [] = none
preferred (n ∷ names) = let rest = preferred names in if is_preferred n then some n else rest

abbrev pub first_of : Option Text → Option Text → Option Text
first_of none b = b
first_of (some a) b = some a

abbrev pub with_max : (Text → ℕ) → Option Text → Option (Text × ℕ)
with_max max none = none
with_max max (some dev) = if ltb 0 (max dev) then some (dev, max dev) else none

-- `max` is what the device's max_brightness file reads as, with 0 where it cannot be read. There are
-- no names where the directory cannot be read.
unfoldable pub find_backlight : (Text → ℕ) → List Text → Option (Text × ℕ)
unfolding panels sort_names preferred
find_backlight max names =
    let sorted = sort_names (panels names) in
    with_max max (first_of (preferred sorted) (first_name sorted))

-- What the start reads. `stale_removed` is whether a request file is gone once it was to be deleted;
-- `on_battery` is none where UPower has no proxy, and the inner none is a failed reading.
pub record Boot : Type 0 where
  pub conf : PowerConf
  pub stale_removed : Bool
  pub inhibitor_taken : Bool
  pub on_battery : Option (Option Bool)
  pub battery : Option F64
  pub kbd_level_word : Option Text
  pub kbd_override : Bool
  pub lid : Option Bool
  pub inhibitors : Option (List Row)
  pub wayland : Option Bool
  pub monitors : Option (List Monitor)
  pub active_name : Option Text
  pub profiles : List TomlProfile
  pub locked_hint : Option Bool
  pub override_word : Option Text

abbrev pub is_present : LidMode → Bool
is_present present = true
is_present absent = false

unfoldable pub conf_context : PowerConf → Context
conf_context conf = record default_context {
  main = record default_context.main {
    lid_present = is_present conf.lid;
    lid_grace = conf.lid_grace_secs * 1000;
    lid_ac = conf.lid_ac;
  };
  battery = record default_context.battery { battery_low_pct = conf.battery_low_pct };
  policy = record default_context.policy { power_policy = conf.policy };
}

abbrev pub charger : Option (Option Bool) → Daemon → Daemon
charger (some (some on_battery)) d =
    with_battery (record d.ctx.battery { on_ac_settled = not on_battery })
      (with_main (record d.ctx.main { on_ac = not on_battery }) d)
charger _ d = d

-- Without UPower there is no battery.
abbrev pub charge : Option (Option Bool) → Option F64 → Option F64
charge none pct = none
charge (some r) pct = pct

abbrev pub charged : Option F64 → Daemon → Daemon
charged none d =
    with_battery (record d.ctx.battery { battery_percent = none; low_battery = false }) d
charged (some pct) d =
    with_battery
      (record d.ctx.battery {
        battery_percent = some pct;
        low_battery = le_nat pct d.ctx.battery.battery_low_pct;
      })
      d

abbrev pub start_level : Option Text → ℕ
start_level none = default_kbd_level_pct
start_level (some w) = elim (parse_i64 w) [ none ↦ default_kbd_level_pct | some z ↦ clamp_level z ]

unfoldable pub kbd_settings : Boot → Daemon → Daemon
unfolding clamp_level parse_i64
kbd_settings b d =
    with_kbd
      (record d.ctx.kbd {
        kbd_mode = b.conf.kbd;
        kbd_idle = b.conf.kbd_idle_secs * 1000;
        kbd_dark_lux = b.conf.kbd_dark_lux;
        kbd_level = start_level b.kbd_level_word;
        kbd_override = b.kbd_override;
      })
      d

-- A machine without a lid does not read it.
abbrev pub lid_at_start : Bool → Option Bool → Bool
lid_at_start true lid = unwrap_or lid false
lid_at_start false lid = false

unfoldable pub first_world : Boot → Daemon → Daemon
unfolding ext_monitor_count_in logind_real_inhibitor_active
first_world b d =
    with_main
      (record d.ctx.main {
        lid_closed = lid_at_start d.ctx.main.lid_present b.lid;
        logind_inhibitor = unwrap_or (logind_real_inhibitor_active b.inhibitors) false;
        wayland_inhibitor = unwrap_or b.wayland false;
        ext_mon_count = ext_monitor_count_in b.monitors 0;
      })
      d

abbrev pub adopt : Option TomlProfile → Daemon → Daemon
adopt none d = d
adopt (some p) d = record d {
  ctx = record d.ctx {
    profiles = record d.ctx.profiles { edp_policy = p.edp; active_profile_rev = some p.body };
  };
}

abbrev pub named : Text → Daemon → Daemon
named name d = record d {
  ctx = record d.ctx { profiles = record d.ctx.profiles { current_profile = some name } };
}

-- The profile that the link names, which may be gone.
unfoldable pub seed_profile : Option Text → List TomlProfile → Daemon → Daemon
unfolding find_name
seed_profile none profiles d = d
seed_profile (some name) profiles d = named name (adopt (find_name name profiles) d)

module _ (out : Outside) where
  -- `fx_clear_stale_request`: in shadow mode too.
  unfoldable pub stale_cleared : Bool → Option Text → Option Text
  stale_cleared removed file = if out.runtime_dir && removed then none else file

  unfoldable pub fresh_daemon : Boot → Option Text → Daemon
  unfolding conf_context stale_cleared
  fresh_daemon b file = record {
    ctx = conf_context b.conf;
    asked = 0;
    tasks = 0;
    request_file = stale_cleared b.stale_removed file;
    cmds = [];
    calls = [];
    writes = [];
  }

  -- Up to the battery-low check.
  unfoldable pub devices : Boot → Daemon → Daemon
  unfolding kbd_settings discover_backlight discover_kbd
  devices b d = discover_kbd out (
      kbd_settings b
        (discover_backlight out (charged (charge b.on_battery b.battery) (charger b.on_battery d))))

  -- With the session's lock, if there is a session.
  unfoldable pub lock_at_start : Option Bool → Daemon → Daemon
  lock_at_start hint d =
      with_main (record d.ctx.main { locked = out.session && unwrap_or hint false }) d

  -- After the battery-low check.
  unfoldable pub seeded_world : Boot → Daemon → Daemon
  unfolding first_world seed_profile lock_at_start
  seeded_world b d =
      lock_at_start b.locked_hint (seed_profile b.active_name b.profiles (first_world b d))

  -- Without the lid inhibitor `run` returns an error, unless it needs none.
  abbrev pub admitted : Bool → Bool → Daemon → Option Daemon
  admitted true taken d = some d
  admitted false true d = some d
  admitted false false d = none

  -- The daemon that the loop is started with.
  unfoldable pub boot_daemon : Boot → Option Text → Option Daemon
  unfolding fresh_daemon devices seeded_world
  boot_daemon b file =
      admitted (out.shadow || not (is_present b.conf.lid)) b.inhibitor_taken
        (seeded_world b (battery_low_request_check out (devices b (fresh_daemon b file))).1)

  -- The two events that `run` queues itself come first.
  unfoldable pub launched : Boot → Daemon → Daemon
  launched b d =
      round out (power_override_changed b.override_word) (round out monitors_changed (start out d))
