-- ===== src/Daemon/Sources/Reconciler.antt =====
-- src/daemon/sources/reconciler.rs: the passes that gather a snapshot of the world, with the readings
-- of src/sysio/hyprctl.rs and src/sysio/sysfs.rs that a pass makes. What is read is given; that the
-- triggers within the settle time join_names a pass is what `burst` lists.
pub mod Passes
pub mod Reasons
pub mod LostClaim
mod Tests
use hyprstate.Prelude.{
  ℕ, suc, Bool, true, false, not, ◌&&◌, Text, codes, text_eq, trim, any, unwrap_or, List, [], ◌∷◌,
  ◌++◌, map, Option, none, some, if◌then◌else◌, ℤ,
}
use hyprstate.Daemon.Event.{ReconcileSnapshot}
use hyprstate.Daemon.Outside.{
  Monitor, Trigger, startup, monitor_hotplug, config_reloaded, profile_applied, lock_changed,
  session_lock, session_unlock, resumed, ac_changed, battery_low_changed, uevents_lost, safety_tick,
}
use hyprstate.Daemon.Dispatcher.Handlers.{ext_monitor_count_in}
use hyprstate.Sysio.{on_ac_sysfs}
use hyprstate.Daemon.Sources.Watchers.{Row, logind_real_inhibitor_active}
use hyprstate.Daemon.Sources.Watchers.Loop.{Heard, Stateless, watch, watch_each}

unfoldable pub trigger_word : Trigger → Text
trigger_word startup = codes "startup"
trigger_word monitor_hotplug = codes "monitor hotplug"
trigger_word config_reloaded = codes "configreloaded"
trigger_word profile_applied = codes "profile applied"
trigger_word lock_changed = codes "LockedHint changed"
trigger_word session_lock = codes "session Lock"
trigger_word session_unlock = codes "session Unlock"
trigger_word resumed = codes "resumed"
trigger_word ac_changed = codes "AC changed"
trigger_word battery_low_changed = codes "battery-low changed"
trigger_word uevents_lost = codes "uevents lost"
trigger_word safety_tick = codes "safety tick"

-- `names.contains(&r.trigger_word())` before each push.
unfoldable pub describe_names : List Text → List Trigger → List Text
describe_names names [] = names
describe_names names (r ∷ reasons) =
    describe_names
      (if any (text_eq (trigger_word r)) names then names else names ++ trigger_word r ∷ []) reasons

-- `names.join(sep)`.
unfoldable pub join_names : Text → List Text → Text
join_names sep [] = []
join_names sep (n ∷ []) = n
join_names sep (n ∷ m ∷ names) = n ++ sep ++ join_names sep (m ∷ names)

unfoldable pub describe : List Trigger → Text
unfolding describe_names join_names
describe reasons = join_names (codes ", ") (describe_names [] reasons)

-- `sources/mod.rs`'s watcher of the session's signals: true is a Lock.
abbrev pub session_trigger : Bool → Option Trigger
session_trigger true = some session_lock
session_trigger false = some session_unlock

unfoldable pub session_signal_watcher : ℕ → List Bool → Heard Stateless Trigger
session_signal_watcher room signals = watch_each session_trigger room signals

pub record MonitorState : Type 0 where
  pub monitor : Monitor
  pub disabled : Bool
  pub dpms_status : Bool

-- The first panel decides.
unfoldable pub edp_is_disabled_in : List MonitorState → Option Bool
edp_is_disabled_in [] = none
edp_is_disabled_in (m ∷ ms) =
    let rest = edp_is_disabled_in ms in
    if text_eq m.monitor.name (codes "eDP-2") then some m.disabled else rest

unfoldable pub any_enabled_monitor_dpms_off_in : List MonitorState → Bool
any_enabled_monitor_dpms_off_in ms = any (λ m. not m.disabled && not m.dpms_status) ms

-- What the readings of a pass give. `locked_hint` is none where there is no session too.
pub record PassReadings : Type 0 where
  pub lid_closed : Option Bool
  pub monitors : Option (List MonitorState)
  pub inhibitors : Option (List Row)
  pub wayland : Option Bool
  pub locked_hint : Option Bool
  pub supplies : Option (List (Option Text × Option Text))
  pub cursor_pos : Option (ℤ × ℤ)

abbrev pub map_some {ℓ κ} : {A : Type ℓ} {B : Type κ} → (A → B) → Option A → Option B
map_some f none = none
map_some f (some a) = some (f a)

abbrev pub bind {ℓ κ} : {A : Type ℓ} {B : Type κ} → Option A → (A → Option B) → Option B
bind none f = none
bind (some a) f = f a

abbrev pub sampled_cursor : Option Bool → Option (ℤ × ℤ) → Option (ℤ × ℤ)
sampled_cursor (some true) pos = pos
sampled_cursor _ pos = none

-- A machine without a lid never reads it.
abbrev pub read_lid : Bool → Option Bool → Option Bool
read_lid true lid = lid
read_lid false lid = some false

unfoldable pub count_monitors : Option (List MonitorState) → ℕ → ℕ
unfolding ext_monitor_count_in
count_monitors monitors prev =
    ext_monitor_count_in (map_some (map (λ (m : MonitorState). m.monitor)) monitors) prev

unfoldable pub snapshot_of : ℕ → Bool → PassReadings → ReconcileSnapshot
unfolding logind_real_inhibitor_active edp_is_disabled_in any_enabled_monitor_dpms_off_in
    on_ac_sysfs
snapshot_of ext lid r =
    let dpms_off = map_some any_enabled_monitor_dpms_off_in r.monitors in
    record {
      lid_closed = lid;
      ext_mon_count = ext;
      logind_inhibitor = unwrap_or (logind_real_inhibitor_active r.inhibitors) false;
      wayland_inhibitor = r.wayland;
      locked = r.locked_hint;
      on_ac = on_ac_sysfs r.supplies;
      edp_disabled = bind r.monitors edp_is_disabled_in;
      dpms_off = dpms_off;
      cursor_pos = sampled_cursor dpms_off r.cursor_pos;
    }

-- The monitor count that the task keeps, and the snapshot. A lid that cannot be read ends the pass
-- before the monitors are read.
unfoldable pub gather : Bool → ℕ → PassReadings → ℕ × Option ReconcileSnapshot
unfolding count_monitors snapshot_of
gather lid_present ext_prev r = elim (read_lid lid_present r.lid_closed) [
  | none ↦ (ext_prev, none)
  | some lid ↦ let ext = count_monitors r.monitors ext_prev in (ext, some (snapshot_of ext lid r))
]

-- One turn of the loop: the trigger that ended the wait, or none for the safety tick; the triggers
-- that came before it settled; and what is then read. A turn that
-- the closed channel cuts short makes no pass and is left out.
pub record Turn : Type 0 where
  pub woken_by : Option Trigger
  pub burst : List Trigger
  pub readings : PassReadings

abbrev pub first_reason : Turn → Trigger
first_reason t = unwrap_or t.woken_by safety_tick

abbrev pub ticked : Trigger → ℕ → ℕ
ticked safety_tick n = suc n
ticked _ n = n

-- What the task keeps: the last monitor count, and the safety ticks that the state-file task sees.
pub record PassState : Type 0 where
  pub ext_prev : ℕ
  pub ticks : ℕ

-- A snapshot with its reasons.
abbrev pub Pass : Type 0
Pass = Text × ReconcileSnapshot

unfoldable pub reconcile_step : Bool → PassState → Turn → PassState × Option Pass
unfolding gather describe
reconcile_step lid_present k t =
    let (ext, snap) = gather lid_present k.ext_prev t.readings in
    (
      record { ext_prev = ext; ticks = ticked (first_reason t) k.ticks },
      map_some (λ s. (describe (first_reason t ∷ t.burst), s)) snap,
    )

unfoldable pub reconcile_task : ℕ → Bool → PassState → List Turn → Heard PassState Pass
unfolding reconcile_step
reconcile_task room lid_present k turns = watch (reconcile_step lid_present) room k turns
