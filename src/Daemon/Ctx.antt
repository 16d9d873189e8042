-- ===== src/Daemon/Ctx.antt =====
-- src/daemon/ctx.rs: the dispatcher's context, in the groups that the source's comments make.
-- Durations are milliseconds. `state_span` (tracing) is left out. The power-policy group is split
-- by who writes it: the inputs (Battery) and what the policy decides (Policy).
use hyprstate.Prelude.{
  ℕ, ◌*◌, Bool, true, false, not, ◌&&◌, ◌||◌, Text, List, Option, none, some, is_some, F64, frac, ℤ,
}
use hyprstate.Fsm.{State, WorldInputs}
use hyprstate.Power.{
  PowerProfile, BaseState, PowerPolicy, SelfWriteTracker, no_writes, default_policy,
  default_battery_low_pct,
}
use hyprstate.Power.Conf.{LidAcPolicy, KbdMode, suspend, defer}
use hyprstate.Profiles.{EdpPolicy, GpuPref}
use hyprstate.Kbd.{default_kbd_idle_secs, default_kbd_dark_lux, default_kbd_level_pct}

-- A spawned task: its number, and the delay of a timer.
pub record Task : Type 0 where
  pub id : ℕ
  pub delay : ℕ

-- A TOML profile. `body` stands for the whole parsed value, which is only compared.
pub record TomlProfile : Type 0 where
  pub name : Text
  pub edp : EdpPolicy
  pub gpu : GpuPref
  pub hooks : List Text
  pub body : ℕ

pub record Main : Type 0 where
  pub lid_closed : Bool
  pub lid_present : Bool
  pub lid_grace : ℕ
  pub lid_ac : LidAcPolicy
  pub ext_mon_count : ℕ
  pub logind_inhibitor : Bool
  pub wayland_inhibitor : Bool
  pub locked : Bool
  pub on_ac : Bool
  pub state : State
  pub suspend_requested : Bool
  pub grace_timer : Option Task
  pub claim_watch : Option Task

pub record Sched : Type 0 where
  pub profile_debounce : Option Task
  pub power_debounce : Option Task
  pub last_cursor_pos : Option (ℤ × ℤ)

pub record Profiles : Type 0 where
  pub current_profile : Option Text
  pub active_profile_rev : Option ℕ
  pub edp_policy : EdpPolicy

pub record Gpu : Type 0 where
  pub gpu_actual : Option (List Text)
  pub gpu_actual_pending : Bool
  pub gpu_last_notified : Option Text
  pub gpu_last_notify_at : Option ℕ
  pub dgpu_pinned : Option Bool

pub record Battery : Type 0 where
  pub on_ac_settled : Bool
  pub battery_percent : Option F64
  pub low_battery : Bool
  pub battery_low_pct : ℕ

pub record Policy : Type 0 where
  pub power_policy : PowerPolicy
  pub power_override : Option PowerProfile
  pub power_override_base : Option BaseState
  pub power_applied : Option PowerProfile
  pub power_last_base : Option BaseState
  pub self_writes : SelfWriteTracker
  pub powerd_available : Bool
  pub powerd_warned : Bool

pub record Brightness : Type 0 where
  pub brightness_dev : Option Text
  pub brightness_max : ℕ
  pub brightness_set : Option ℕ
  pub brightness_saved : Option ℕ

pub record WaybarView : Type 0 where
  pub applied : Option PowerProfile
  pub override_set : Bool
  pub available : Bool

pub record KbdCtx : Type 0 where
  pub kbd_mode : KbdMode
  pub kbd_idle : ℕ
  pub kbd_dark_lux : ℕ
  pub kbd_led : Option (Text × ℕ)
  pub kbd_als : Option Text
  pub kbd_typing : Bool
  pub kbd_sleeping : Bool
  pub kbd_dark : Bool
  pub kbd_last_lux : Option F64
  pub kbd_level : ℕ
  pub kbd_override : Bool
  pub kbd_applied : Option ℕ

pub record Context : Type 0 where
  pub main : Main
  pub sched : Sched
  pub profiles : Profiles
  pub gpu : Gpu
  pub battery : Battery
  pub policy : Policy
  pub brightness : Brightness
  pub waybar_view : Option WaybarView
  pub kbd : KbdCtx

abbrev pub default_main : Main
default_main = record {
  lid_closed = false;
  lid_present = true;
  lid_grace = 30 * 1000;
  lid_ac = suspend;
  ext_mon_count = 0;
  logind_inhibitor = false;
  wayland_inhibitor = false;
  locked = false;
  on_ac = true;
  state = State.lid_open;
  suspend_requested = false;
  grace_timer = none;
  claim_watch = none;
}

abbrev pub default_policy_ctx : Policy
default_policy_ctx = record {
  power_policy = default_policy;
  power_override = none;
  power_override_base = none;
  power_applied = none;
  power_last_base = none;
  self_writes = no_writes;
  powerd_available = true;
  powerd_warned = false;
}

abbrev pub default_kbd : KbdCtx
default_kbd = record {
  kbd_mode = KbdMode.auto;
  kbd_idle = default_kbd_idle_secs * 1000;
  kbd_dark_lux = default_kbd_dark_lux;
  kbd_led = none;
  kbd_als = none;
  kbd_typing = false;
  kbd_sleeping = false;
  kbd_dark = false;
  kbd_last_lux = none;
  kbd_level = default_kbd_level_pct;
  kbd_override = false;
  kbd_applied = none;
}

abbrev pub default_context : Context
default_context = record {
  main = default_main;
  sched = record { profile_debounce = none; power_debounce = none; last_cursor_pos = none };
  profiles = record {
    current_profile = none;
    active_profile_rev = none;
    edp_policy = EdpPolicy.auto;
  };
  gpu = record {
    gpu_actual = none;
    gpu_actual_pending = true;
    gpu_last_notified = none;
    gpu_last_notify_at = none;
    dgpu_pinned = none;
  };
  battery = record {
    on_ac_settled = true;
    battery_percent = some (frac 100 0);
    low_battery = false;
    battery_low_pct = default_battery_low_pct;
  };
  policy = default_policy_ctx;
  brightness = record {
    brightness_dev = none;
    brightness_max = 0;
    brightness_set = none;
    brightness_saved = none;
  };
  waybar_view = none;
  kbd = default_kbd;
}

abbrev is_auto_mode : KbdMode → Bool
is_auto_mode KbdMode.auto = true
is_auto_mode KbdMode.off = false

abbrev pub defers : LidAcPolicy → Bool
defers defer = true
defers suspend = false

unfoldable pub kbd_active : KbdCtx → Bool
kbd_active k = is_auto_mode k.kbd_mode && is_some k.kbd_led && is_some k.kbd_als

unfoldable pub view_of : Context → WaybarView
view_of c = record {
  applied = c.policy.power_applied;
  override_set = is_some c.policy.power_override;
  available = c.policy.powerd_available;
}

unfoldable pub inhibitor : Main → Bool
inhibitor m = m.logind_inhibitor || m.wayland_inhibitor

unfoldable pub world : Context → WorldInputs
unfolding inhibitor
world c = record {
  lid_closed = c.main.lid_closed;
  ext_mon_count = c.main.ext_mon_count;
  inhibitor = inhibitor c.main;
  suspend_requested = c.main.suspend_requested;
  locked = c.main.locked;
  battery_low = c.battery.low_battery && not c.battery.on_ac_settled;
  lid_ac_hold = defers c.main.lid_ac && c.main.on_ac;
}
