-- ===== src/Daemon/Dispatcher/Handlers.antt =====
-- src/daemon/dispatcher.rs: the handlers of a monitor change and of a reconcile snapshot, and the
-- monitor readings of src/sysio/hyprctl.rs that they use.
use hyprstate.Prelude.{
  ℕ, suc, Bool, true, false, not, ◌&&◌, Text, codes, starts_with, List, [], ◌∷◌, map, Option, none,
  some, bool_eq, ltb, ◌==◌, if◌then◌else◌, ℤ, pos, negsuc,
}
use hyprstate.Fsm.{State, suspending, EventKind, state_eq, dpms_stuck_off}
use hyprstate.Gpu.{dgpu_runtime_pm_pinned}
use hyprstate.Daemon.Ctx.{Context, Battery, TomlProfile}
use hyprstate.Profiles.{GpuPref}
use hyprstate.Daemon.Event.{ReconcileSnapshot}
use hyprstate.Daemon.Outside.{
  Outside, Daemon, Monitor, dpms_on, rehome_edp_workspaces, locked_mirrored, tick, wrote, send_cmd,
  request_standing,
}
use hyprstate.Daemon.Effectors.{
  with_main, with_sched, with_profiles, put_edp, adopt_profile, find_profile, ingest_active_profile,
  schedule_profile_reconcile, write_gpu_breadcrumb, edp_resolved,
}
use hyprstate.Daemon.Power.{sync_dgpu_pin}
use hyprstate.Daemon.PowerPolicy.{power_policy_check}
use hyprstate.Daemon.Drift.{gpu_drift_check}
use hyprstate.Daemon.Dispatcher.{evaluate_fsms, battery_low_request_check, with_request}

abbrev pub with_battery : Battery → Daemon → Daemon
with_battery b d = record d { ctx = record d.ctx { battery = b } }

count_externals : List Monitor → ℕ
count_externals [] = 0
count_externals (m ∷ ms) =
    let rest = count_externals ms in if starts_with m.name (codes "eDP") then rest else suc rest

-- A failed reading keeps the count before it.
unfoldable pub ext_monitor_count_in : Option (List Monitor) → ℕ → ℕ
unfolding count_externals
ext_monitor_count_in none prev = prev
ext_monitor_count_in (some ms) prev = count_externals ms

signature_of : Option (List Monitor) → List Text
signature_of none = []
signature_of (some ms) = map (λ m. m.description) ms

-- `AUTO: ctx.state == LidOpen`, under the profile's policy.
unfoldable pub panel_wanted : Context → Bool
panel_wanted c = edp_resolved c.profiles.edp_policy (state_eq c.main.state State.lid_open)

abbrev pub pref_of : Option TomlProfile → GpuPref
pref_of none = GpuPref.auto
pref_of (some p) = p.gpu

abbrev pref_found : Option TomlProfile → Option GpuPref
pref_found none = none
pref_found (some p) = some p.gpu

-- What the snapshot repaired: an input of the state machine, an input of the power policy.
pub record Repaired : Type 0 where
  pub fsm : Bool
  pub power : Bool

abbrev int_eq : ℤ → ℤ → Bool
int_eq (pos m) (pos n) = m == n
int_eq (negsuc m) (negsuc n) = m == n
int_eq _ _ = false

abbrev pos_eq : ℤ × ℤ → ℤ × ℤ → Bool
pos_eq (a, b) (c, e) = int_eq a c && int_eq b e

abbrev pub moved : Option (ℤ × ℤ) → Option (ℤ × ℤ) → Bool
moved (some prev) (some now) = not (pos_eq prev now)
moved _ _ = false

module _ (out : Outside) where
  chosen_name : Option Text → List TomlProfile → Option TomlProfile
  chosen_name none profiles = none
  chosen_name (some name) profiles = find_profile name profiles

  unfoldable pub chosen_profile : Daemon → Option TomlProfile
  unfolding chosen_name signature_of
  chosen_profile d =
      let profiles = out.load_profiles d.asked in
      chosen_name (out.select (signature_of (out.monitors d.asked)) profiles) profiles

  unfoldable pub apply_chosen : Option TomlProfile → Daemon → Daemon
  apply_chosen none d = with_profiles (record d.ctx.profiles { active_profile_rev = none }) d
  apply_chosen (some p) d = adopt_profile out p d

  unfoldable pub advise_gpu : GpuPref → Daemon → Daemon
  advise_gpu pref d =
      let (mode, e) = gpu_drift_check out pref d in
      sync_dgpu_pin out (dgpu_runtime_pm_pinned mode) e

  unfoldable pub rehome : Daemon → Daemon
  unfolding panel_wanted
  rehome d =
      if not (panel_wanted d.ctx) && ltb 0 d.ctx.main.ext_mon_count
      then send_cmd out rehome_edp_workspaces d
      else d

  unfoldable pub handle_monitors_changed : Daemon → Daemon
  unfolding apply_chosen rehome
  handle_monitors_changed d =
      let chosen = chosen_profile d in
      let e = write_gpu_breadcrumb out (pref_found chosen) (apply_chosen chosen (tick d)) in
      rehome (power_policy_check out (advise_gpu (pref_of chosen) e))

  unfoldable pub repair_lid : Bool → Repaired × Daemon → Repaired × Daemon
  repair_lid closed (r, d) =
      if d.ctx.main.lid_present && not (bool_eq closed d.ctx.main.lid_closed)
      then (record r { fsm = true }, with_main (record d.ctx.main { lid_closed = closed }) d)
      else (r, d)

  unfoldable pub repair_request : Repaired × Daemon → Repaired × Daemon
  repair_request (r, d) =
      if bool_eq (request_standing out d) d.ctx.main.suspend_requested
      then (r, d)
      else (record r { fsm = true }, with_request (request_standing out d) d)

  unfoldable pub repair_monitors : ℕ → Repaired × Daemon → Repaired × Daemon
  repair_monitors count (r, d) = if count == d.ctx.main.ext_mon_count then (r, d) else (
    record { fsm = true; power = true },
    schedule_profile_reconcile (with_main (record d.ctx.main { ext_mon_count = count }) d),
  )

  unfoldable pub repair_logind : Bool → Repaired × Daemon → Repaired × Daemon
  repair_logind held (r, d) =
      if bool_eq held d.ctx.main.logind_inhibitor
      then (r, d)
      else (record r { fsm = true }, with_main (record d.ctx.main { logind_inhibitor = held }) d)

  unfoldable pub repair_wayland : Option Bool → Repaired × Daemon → Repaired × Daemon
  repair_wayland none s = s
  repair_wayland (some held) (r, d) =
      if bool_eq held d.ctx.main.wayland_inhibitor
      then (r, d)
      else (record r { fsm = true }, with_main (record d.ctx.main { wayland_inhibitor = held }) d)

  unfoldable pub repair_locked : Option Bool → Repaired × Daemon → Repaired × Daemon
  repair_locked none s = s
  repair_locked (some locked) (r, d) = if bool_eq locked d.ctx.main.locked then (r, d) else (
    record r { fsm = true },
    wrote (locked_mirrored locked) (with_main (record d.ctx.main { locked = locked }) d),
  )

  unfoldable pub repair_ac : Option Bool → Repaired × Daemon → Repaired × Daemon
  repair_ac none s = s
  repair_ac (some on_ac) (r, d) =
      if bool_eq on_ac d.ctx.main.on_ac
      then (r, d)
      else (record r { power = true }, with_main (record d.ctx.main { on_ac = on_ac }) d)

  unfoldable pub repair : ReconcileSnapshot → Daemon → Repaired × Daemon
  unfolding repair_lid repair_request repair_monitors repair_logind repair_wayland repair_locked
      repair_ac
  repair snap d = repair_ac snap.on_ac (
      repair_locked snap.locked (
        repair_wayland snap.wayland_inhibitor (
          repair_logind snap.logind_inhibitor (
            repair_monitors snap.ext_mon_count (
              repair_request
                (repair_lid snap.lid_closed (record { fsm = false; power = false }, d)))))))

  unfoldable pub settle_ac : Daemon → Daemon
  settle_ac d = with_battery (record d.ctx.battery { on_ac_settled = d.ctx.main.on_ac }) d

  unfoldable pub drive : Repaired × Daemon → Daemon
  unfolding settle_ac
  drive (r, d) =
      let e =
        if r.power
        then (battery_low_request_check out (power_policy_check out (settle_ac d))).1
        else d in
      if r.fsm then evaluate_fsms out EventKind.ctx_repaired e else e

  unfoldable pub enforce_panel : Option Bool → Daemon → Daemon
  enforce_panel none d = d
  enforce_panel (some disabled) d =
      if panel_wanted d.ctx && disabled
      then put_edp out true d
      else (if not (panel_wanted d.ctx) && not disabled then put_edp out false d else d)

  unfoldable pub relight : Option Bool → Bool → Daemon → Daemon
  relight none cursor_moved d = d
  relight (some off) cursor_moved d =
      if dpms_stuck_off d.ctx.main.state
        (record { dpms_off = off; locked = d.ctx.main.locked; cursor_moved = cursor_moved })
      then send_cmd out dpms_on d
      else d

  unfoldable pub assert_invariants : ReconcileSnapshot → Daemon → Daemon
  unfolding enforce_panel relight
  assert_invariants snap d =
      let e = enforce_panel snap.edp_disabled (ingest_active_profile out d) in
      relight snap.dpms_off (moved e.ctx.sched.last_cursor_pos snap.cursor_pos)
        (with_sched (record e.ctx.sched { last_cursor_pos = snap.cursor_pos }) e)

  unfoldable pub handle_reconcile_tick : ReconcileSnapshot → Daemon → Daemon
  handle_reconcile_tick snap d =
      let e = drive (repair snap d) in
      if state_eq e.ctx.main.state suspending then e else assert_invariants snap e
