-- ===== src/Daemon/Event.antt =====
-- src/daemon/event.rs: the events of the daemon, and the kind by which each reaches the state
-- machine. Names of monitors and reasons of a pass serve the log only and are left out.
use hyprstate.Prelude.{ℕ, Bool, true, false, Text, Option, none, some, F64, ℤ}
use hyprstate.Fsm.{EventKind}

pub record ReconcileSnapshot : Type 0 where
  pub lid_closed : Bool
  pub ext_mon_count : ℕ
  pub logind_inhibitor : Bool
  pub wayland_inhibitor : Option Bool
  pub locked : Option Bool
  pub on_ac : Option Bool
  pub edp_disabled : Option Bool
  pub dpms_off : Option Bool
  pub cursor_pos : Option (ℤ × ℤ)

pub data Event : Type 0 where
  lid : Bool → Event
  monitor_hotplug : Bool → Event
  config_reloaded profile_applied monitors_changed profiles_changed : Event
  inhibitor : Bool → Bool → Event
  lock_changed ac_changed : Bool → Event
  power_ac_settled timer_expired resumed : Event
  reconcile_tick : ReconcileSnapshot → Event
  platform_profile_changed gpu_override_changed power_override_changed : Option Text → Event
  battery_percent : F64 → Event
  suspend_request_changed : Option Text → Event
  powerd_appeared backlight_hotplug sleeping : Event
  kbd_idle : Bool → Event
  kbd_level_changed : Option ℕ → Event
  kbd_override_changed : Bool → Event
  kbd_led_hotplug : Event

unfoldable pub kind : Event → EventKind
kind (lid true) = EventKind.lid_close
kind (lid false) = EventKind.lid_open
kind (monitor_hotplug true) = EventKind.monitor_added
kind (monitor_hotplug false) = EventKind.monitor_removed
kind config_reloaded = EventKind.reconcile
kind profile_applied = EventKind.reconcile
kind monitors_changed = EventKind.monitors_changed
kind profiles_changed = EventKind.monitors_changed
kind (inhibitor wayland true) = EventKind.inhibitor_on
kind (inhibitor wayland false) = EventKind.inhibitor_off
kind (lock_changed true) = EventKind.lock_engaged
kind (lock_changed false) = EventKind.lock_released
kind (ac_changed true) = EventKind.ac_plugged
kind (ac_changed false) = EventKind.ac_unplugged
kind power_ac_settled = EventKind.power_ac_settled
kind timer_expired = EventKind.timer_expired
kind resumed = EventKind.resumed
kind (reconcile_tick snap) = EventKind.ctx_repaired
kind (platform_profile_changed value) = EventKind.platform_profile_changed
kind (gpu_override_changed word) = EventKind.gpu_override_changed
kind (battery_percent pct) = EventKind.battery_low_changed
kind (power_override_changed word) = EventKind.power_override_changed
kind (suspend_request_changed (some word)) = EventKind.suspend_requested
kind (suspend_request_changed none) = EventKind.suspend_cancelled
kind powerd_appeared = EventKind.power_ac_settled
kind backlight_hotplug = EventKind.ctx_repaired
kind sleeping = EventKind.ctx_repaired
kind (kbd_idle idle) = EventKind.ctx_repaired
kind (kbd_level_changed level) = EventKind.ctx_repaired
kind (kbd_override_changed armed) = EventKind.ctx_repaired
kind kbd_led_hotplug = EventKind.ctx_repaired
