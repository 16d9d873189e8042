-- ===== src/Daemon/Outside.antt =====
-- What the daemon asks the outside and what it does to it (src/daemon/effectors.rs, the calls of
-- src/sysio and of D-Bus). Each answer may depend on how many questions were put before, so that
-- no two readings need agree. The request file is part of the daemon's state: the daemon writes
-- and deletes it, and other processes may change it between two events.
use hyprstate.Prelude.{
  ℕ, suc, Bool, true, false, Text, codes, starts_with, List, ◌∷◌, Option, none, some, is_some,
  if◌then◌else◌, F64, ◌&&◌,
}
use hyprstate.Power.{PowerProfile, BaseState}
use hyprstate.Gpu.{GpuSnapshot, Reason}
use hyprstate.Daemon.Ctx.{Context, TomlProfile}
use hyprstate.Profiles.{GpuPref}

-- One monitor of `hyprctl -j monitors`, as the daemon reads it.
pub record Monitor : Type 0 where
  pub name : Text
  pub description : Text

-- `shadow`, `session` and `runtime_dir` are fixed for a run: the shadow mode, whether a session
-- proxy was resolved, and whether there is a runtime directory for the request file.
pub record Outside : Type 0 where
  pub shadow : Bool
  pub session : Bool
  pub runtime_dir : Bool
  pub clock : ℕ → ℕ
  pub worker_room : ℕ → Bool
  pub task_finished : ℕ → ℕ → Bool
  pub file_written : ℕ → Bool
  pub locked_hint : ℕ → Option Bool
  pub session_is_locked : ℕ → Option Bool
  pub lock_wait : ℕ → Bool
  pub suspend_accepted : ℕ → Bool
  pub wayland_idle_inhibited : ℕ → Option Bool
  pub monitors : ℕ → Option (List Monitor)
  pub load_profiles : ℕ → List TomlProfile
  pub select : List Text → List TomlProfile → Option Text
  pub active_profile_name : ℕ → Option Text
  pub link_current : ℕ → Text → Bool
  pub link_repointed : ℕ → Bool
  pub gpu_override_word : ℕ → Option Text
  pub platform_word : ℕ → Option Text
  pub gpu_snapshot : ℕ → GpuSnapshot
  pub aq_devices : ℕ → Option (List Text)
  pub gpu_state_reason : ℕ → Option Text
  pub powerd_applied : ℕ → Bool
  pub brightness_read : ℕ → Option ℕ
  pub brightness_accepted : ℕ → Bool
  pub led_accepted : ℕ → Bool
  pub read_lux : ℕ → Option F64
  pub find_backlight : ℕ → Option (Text × ℕ)
  pub find_kbd_led : ℕ → Option (Text × ℕ)
  pub led_brightness : ℕ → Option ℕ
  pub find_als : ℕ → Option Text

-- The bodies of the notifications.
pub data Notice : Type 0 where
  override_cleared : PowerProfile → BaseState → Notice
  adopted : PowerProfile → Notice
  gpu_drift : List Text → Reason → Bool → Notice

-- The commands of the effector worker. There is one profile link, so its path is left out.
pub data Cmd : Type 0 where
  set_edp : Bool → Cmd
  apply_profile dpms_on rehome_edp_workspaces pause_media : Cmd
  notify : Notice → Cmd
  run_hook : Text → Cmd

-- The calls of logind that lock and suspend, and each verdict on the locker.
pub data Call : Type 0 where
  lock_requested : Call
  saw_live_locker suspend_called : Bool → Call

-- Why a reconcile pass is asked for.
pub data Trigger : Type 0 where
  startup monitor_hotplug config_reloaded profile_applied lock_changed session_lock : Trigger
  session_unlock resumed ac_changed battery_low_changed uevents_lost safety_tick : Trigger

-- Everything else that is written: files, powerd, brightness, signals, prompts and tasks.
pub data Write : Type 0 where
  reconcile_requested : Trigger → Write
  task_spawned task_aborted : ℕ → Write
  override_file_removed : Write
  override_file_written : PowerProfile → Write
  breadcrumb_written : Option GpuPref → Write
  link_repointed_to : Text → Write
  powerd_asked_profile : PowerProfile → Write
  powerd_asked_pin : Bool → Write
  backlight_written led_written : ℕ → Write
  kbd_override_file_removed : Write
  kbd_status_written : Bool → Write
  waybar_signalled : Write
  locked_mirrored : Bool → Write

-- The newest entry of each log comes first. `asked` counts the questions, `tasks` the spawned
-- tasks. `request_file` is the body of the idle-suspend request file, if there is one.
pub record Daemon : Type 0 where
  pub ctx : Context
  pub asked : ℕ
  pub tasks : ℕ
  pub request_file : Option Text
  pub cmds : List Cmd
  pub calls : List Call
  pub writes : List Write

abbrev pub tick : Daemon → Daemon
tick d = record d { asked = suc d.asked }

abbrev pub wrote : Write → Daemon → Daemon
wrote w d = record d { writes = w ∷ d.writes }

module _ (out : Outside) where
  -- `send_cmd`: nothing in shadow mode, and dropped where the worker's queue is full.
  unfoldable pub send_cmd : Cmd → Daemon → Daemon
  send_cmd c d =
      if out.shadow
      then d
      else (if out.worker_room d.asked then tick (record d { cmds = c ∷ d.cmds }) else tick d)

  -- `paths::suspend_request_standing`.
  unfoldable pub request_standing : Daemon → Bool
  request_standing d = out.runtime_dir && is_some d.request_file

  -- `request_suspend`: whether the file was written.
  unfoldable pub request_suspend : Daemon → Bool × Daemon
  request_suspend d =
      if out.shadow
      then (false, d)
      else (if out.runtime_dir && out.file_written d.asked
          then (true, tick (record d { request_file = some (codes "battery-low\n") }))
          else (false, tick d))

  abbrev is_own_request : Option Text → Bool
  is_own_request none = false
  is_own_request (some body) = starts_with body (codes "battery-low")

  -- `clear_battery_low_request`: whether the daemon's own file was removed.
  unfoldable pub clear_battery_low_request : Daemon → Bool × Daemon
  clear_battery_low_request d =
      if out.shadow
      then (false, d)
      else (if out.runtime_dir && is_own_request d.request_file && out.file_written d.asked
          then (true, tick (record d { request_file = none }))
          else (false, tick d))

  -- `clear_suspend_request`: whoever wrote it.
  unfoldable pub clear_suspend_request : Daemon → Daemon
  clear_suspend_request d =
      if out.shadow
      then d
      else (if out.runtime_dir && out.file_written d.asked
          then tick (record d { request_file = none })
          else tick d)
