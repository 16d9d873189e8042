-- ===== src/Daemon/Dispatcher/Frame.antt =====
-- What the effects and policies of src/daemon leave alone: the inputs of the state machine, the
-- state and its timers, the request file, and the calls of logind.
use hyprstate.Prelude.{
  ap, suc, if◌then◌else◌, ℕ, ◌≡◌, refl, ◌∙◌, Bool, true, false, List, [], ◌∷◌, Option, none, some,
  Text, arith,
}
use hyprstate.Fsm.{edp_may_disable}
use hyprstate.Power.{base_eq, BaseState, PowerProfile}
use hyprstate.Gpu.{GpuMode, GpuModeSource, Reason}
use hyprstate.Daemon.Ctx.{Main, Gpu, Policy, Profiles, TomlProfile}
use hyprstate.Profiles.{GpuPref}
use hyprstate.Daemon.Outside.{
  run_hook, apply_profile, set_edp, Outside, Daemon, Cmd, Write, tick, wrote, send_cmd,
}
use hyprstate.Daemon.Effectors.{
  with_profiles, repoint, up_to_date, take_on, send_hooks, put_edp, adopt_profile,
  ingest_active_profile,
}
use hyprstate.Daemon.Power.{
  with_policy, with_gpu, apply_power_profile, sync_dgpu_pin, clear_power_override,
  adopt_power_override, brightness_save_and_cap, brightness_cap, brightness_restore,
  brightness_rearm,
}
use hyprstate.Daemon.PowerPolicy.{
  desired_profile, expires, base_of, when, apply_and_edge, stamp_or_expire, edge, check_override,
  power_policy_check,
}
use hyprstate.Daemon.Kbd.{kbd_policy_check, kbd_release_override, discover_kbd, discover_backlight}
use hyprstate.Daemon.Drift.{
  texts_eq, check_and_notify_drift, compare_actual, compare_desired, resolve_gpu_actual,
  still_known, advise, gpu_drift_check,
}

-- How often the panel was commanded off.
abbrev pub is_off_cmd : Cmd → Bool
is_off_cmd (set_edp false) = true
is_off_cmd _ = false

abbrev pub offs : List Cmd → ℕ
offs [] = 0
offs (c ∷ cs) = let rest = offs cs in if is_off_cmd c then suc rest else rest

-- Also, no command turns the panel off while there is no external monitor.
pub record Quiet (d e : Daemon) : Type 0 where
  pub main : e.ctx.main ≡ d.ctx.main
  pub battery : e.ctx.battery ≡ d.ctx.battery
  pub request : e.request_file ≡ d.request_file
  pub calls : e.calls ≡ d.calls
  pub panel : d.ctx.main.ext_mon_count ≡ 0 → offs e.cmds ≡ offs d.cmds

pub Quiet-refl : (d : Daemon) → Quiet d d
Quiet-refl d = record {
  main = refl;
  battery = refl;
  request = refl;
  calls = refl;
  panel = λ h. refl;
}

pub Quiet-trans : {d e f : Daemon} → Quiet d e → Quiet e f → Quiet d f
Quiet-trans p q = record {
  main = q.main ∙ p.main;
  battery = q.battery ∙ p.battery;
  request = q.request ∙ p.request;
  calls = q.calls ∙ p.calls;
  panel = λ h. q.panel (ap (λ (m : Main). m.ext_mon_count) p.main ∙ h) ∙ p.panel h;
}

pub if-Quiet : {d e f : Daemon} (b : Bool) → Quiet d e → Quiet d f → Quiet d (if b then e else f)
if-Quiet true p q = p
if-Quiet false p q = q

-- A change of the policy's own fields.
policy-Quiet : (p : Policy) (d : Daemon) → Quiet d (with_policy p d)
policy-Quiet p d = record {
  main = refl;
  battery = refl;
  request = refl;
  calls = refl;
  panel = λ h. refl;
}

gpu-Quiet : (g : Gpu) (d : Daemon) → Quiet d (with_gpu g d)
gpu-Quiet g d = record {
  main = refl;
  battery = refl;
  request = refl;
  calls = refl;
  panel = λ h. refl;
}

profiles-Quiet : (p : Profiles) (d : Daemon) → Quiet d (with_profiles p d)
profiles-Quiet p d = record {
  main = refl;
  battery = refl;
  request = refl;
  calls = refl;
  panel = λ h. refl;
}

pub tick-Quiet : (d : Daemon) → Quiet d (tick d)
tick-Quiet d = record {
  main = refl;
  battery = refl;
  request = refl;
  calls = refl;
  panel = λ h. refl;
}

pub wrote-Quiet : (w : Write) (d : Daemon) → Quiet d (wrote w d)
wrote-Quiet w d = record {
  main = refl;
  battery = refl;
  request = refl;
  calls = refl;
  panel = λ h. refl;
}

module _ (out : Outside) where
  pub send_cmd-Quiet : (c : Cmd) (d : Daemon) → is_off_cmd c ≡ false → Quiet d (send_cmd out c d)
  unfolding send_cmd
  send_cmd-Quiet c d h = ground arith

  pub put_edp-Quiet : (on : Bool) (d : Daemon) → Quiet d (put_edp out on d)
  unfolding put_edp send_cmd edp_may_disable
  put_edp-Quiet on d = ground arith

  apply_power_profile-Quiet :
      (p : PowerProfile) (d : Daemon) → Quiet d (apply_power_profile out p d)
  unfolding apply_power_profile
  apply_power_profile-Quiet p d = ground arith

  pub sync_dgpu_pin-Quiet : (awake : Bool) (d : Daemon) → Quiet d (sync_dgpu_pin out awake d)
  unfolding sync_dgpu_pin
  sync_dgpu_pin-Quiet awake d = ground arith

  clear_power_override-Quiet : (d : Daemon) → Quiet d (clear_power_override out d)
  unfolding clear_power_override
  clear_power_override-Quiet d = ground arith

  pub adopt_power_override-Quiet :
      (p : PowerProfile) (d : Daemon) → Quiet d (adopt_power_override out p d)
  unfolding adopt_power_override send_cmd
  adopt_power_override-Quiet p d = ground arith

  save-Quiet : (n : ℕ) (d : Daemon) → Quiet d (brightness_save_and_cap out n d)
  unfolding brightness_save_and_cap
  save-Quiet n d = ground arith

  cap-Quiet : (n : ℕ) (d : Daemon) → Quiet d (brightness_cap out n d)
  unfolding brightness_cap
  cap-Quiet n d = ground arith

  restore-Quiet : (d : Daemon) → Quiet d (brightness_restore out d)
  unfolding brightness_restore
  restore-Quiet d = ground arith

  pub brightness_rearm-Quiet : (d : Daemon) → Quiet d (brightness_rearm out d)
  unfolding brightness_rearm
  brightness_rearm-Quiet d = ground arith

  pub kbd_policy_check-Quiet :
      (sample : Bool) (d : Daemon) → Quiet d (kbd_policy_check out sample d)
  unfolding kbd_policy_check
  kbd_policy_check-Quiet sample d = ground arith

  pub kbd_release_override-Quiet : (d : Daemon) → Quiet d (kbd_release_override out d)
  unfolding kbd_release_override
  kbd_release_override-Quiet d = ground arith

  pub discover_kbd-Quiet : (d : Daemon) → Quiet d (discover_kbd out d)
  unfolding discover_kbd
  discover_kbd-Quiet d = record {
    main = refl;
    battery = refl;
    request = refl;
    calls = refl;
    panel = λ h. refl;
  }

  pub discover_backlight-Quiet : (d : Daemon) → Quiet d (discover_backlight out d)
  unfolding discover_backlight
  discover_backlight-Quiet d = ground arith

  stamp_or_expire-Quiet :
      (base : BaseState) (p : PowerProfile) (s : Option BaseState) (d : Daemon)
      → Quiet d (stamp_or_expire out base p s d)
  unfolding stamp_or_expire
  stamp_or_expire-Quiet base p none d = policy-Quiet _ d
  stamp_or_expire-Quiet base p (some stamped) d =
      if-Quiet (expires base stamped)
        (Quiet-trans (clear_power_override-Quiet d) (send_cmd-Quiet _ _ refl)) (Quiet-refl d)

  check_override-Quiet :
      (base : BaseState) (p : Option PowerProfile) (d : Daemon)
      → Quiet d (check_override out base p d)
  unfolding check_override
  check_override-Quiet base none d = Quiet-refl d
  check_override-Quiet base (some p) d = stamp_or_expire-Quiet base p _ d

  when-Quiet :
      {d e : Daemon} (b : Bool) (f : Daemon → Daemon)
      → Quiet d e
      → ((e : Daemon) → Quiet e (f e))
      → Quiet d (when out b f e)
  unfolding when
  when-Quiet true f q h = Quiet-trans q (h _)
  when-Quiet false f q h = q

  edge-Quiet :
      (base : BaseState) (prev : Option BaseState) (d : Daemon) → Quiet d (edge out base prev d)
  unfolding edge
  edge-Quiet base none d = Quiet-refl d
  edge-Quiet base (some prev) d = if-Quiet (base_eq prev base) (Quiet-refl d) (
      when-Quiet _ (brightness_restore out)
        (when-Quiet _ (brightness_cap out 4)
          (when-Quiet _ (brightness_save_and_cap out 2) (Quiet-refl d) (save-Quiet 2))
          (cap-Quiet 4))
        restore-Quiet)

  apply_and_edge-Quiet : (base : BaseState) (d : Daemon) → Quiet d (apply_and_edge out base d)
  unfolding apply_and_edge
  apply_and_edge-Quiet base d =
      let applied = apply_power_profile-Quiet (desired_profile out base d.ctx.policy) d in
      Quiet-trans applied (Quiet-trans (policy-Quiet _ _) (edge-Quiet base _ _))

  pub power_policy_check-Quiet : (d : Daemon) → Quiet d (power_policy_check out d)
  unfolding power_policy_check
  power_policy_check-Quiet d =
      Quiet-trans (check_override-Quiet (base_of d.ctx) d.ctx.policy.power_override d)
        (apply_and_edge-Quiet (base_of d.ctx) _)

  send_hooks-Quiet : (hs : List Text) (d : Daemon) → Quiet d (send_hooks out hs d)
  unfolding send_hooks
  send_hooks-Quiet [] d = Quiet-refl d
  send_hooks-Quiet (h ∷ hs) d =
      Quiet-trans (send_cmd-Quiet (run_hook h) d refl) (send_hooks-Quiet hs _)

  take_on-Quiet : (p : TomlProfile) (d : Daemon) → Quiet d (take_on out p d)
  unfolding take_on
  take_on-Quiet p d =
      let q =
        profiles-Quiet
          (record {
            current_profile = some p.name;
            active_profile_rev = some p.body;
            edp_policy = p.edp;
          })
          d in
      if-Quiet out.shadow q (
        Quiet-trans q
          (Quiet-trans (send_cmd-Quiet apply_profile _ refl) (send_hooks-Quiet p.hooks _)))

  repoint-Quiet : (p : TomlProfile) (d : Daemon) → Quiet d (repoint out p d)
  unfolding repoint
  repoint-Quiet p d = if-Quiet out.shadow (take_on-Quiet p d) (
      if-Quiet (out.link_repointed d.asked)
        (Quiet-trans (tick-Quiet d) (Quiet-trans (wrote-Quiet _ _) (take_on-Quiet p _)))
        (tick-Quiet d))

  pub adopt_profile-Quiet : (p : TomlProfile) (d : Daemon) → Quiet d (adopt_profile out p d)
  unfolding adopt_profile
  adopt_profile-Quiet p d =
      if-Quiet (up_to_date out p d) (tick-Quiet d) (Quiet-trans (tick-Quiet d) (repoint-Quiet p _))

  pub ingest_active_profile-Quiet : (d : Daemon) → Quiet d (ingest_active_profile out d)
  unfolding ingest_active_profile
  ingest_active_profile-Quiet d = ground arith

  resolve_gpu_actual-Quiet : (d : Daemon) → Quiet d (resolve_gpu_actual out d)
  unfolding resolve_gpu_actual
  resolve_gpu_actual-Quiet d = ground arith

  advise-Quiet :
      (desired : List Text) (reason : Reason) (d : Daemon) → Quiet d (advise out desired reason d)
  unfolding advise send_cmd
  advise-Quiet desired reason d = ground arith

  compare_desired-Quiet :
      (actual : List Text) (desired : Option (List Text)) (reason : Reason) (d : Daemon)
      → Quiet d (compare_desired out actual desired reason d)
  unfolding compare_desired
  compare_desired-Quiet actual none reason d = Quiet-refl d
  compare_desired-Quiet actual (some desired) reason d =
      if-Quiet (texts_eq desired actual) (gpu-Quiet _ d) (advise-Quiet desired reason d)

  compare_actual-Quiet :
      (mode : GpuMode) (source : GpuModeSource) (actual : Option (List Text)) (d : Daemon)
      → Quiet d (compare_actual out mode source actual d)
  unfolding compare_actual
  compare_actual-Quiet mode source none d = Quiet-refl d
  compare_actual-Quiet mode source (some actual) d =
      Quiet-trans (tick-Quiet d) (compare_desired-Quiet actual _ _ _)

  still_known-Quiet :
      (mode : GpuMode) (source : GpuModeSource) (d : Daemon)
      → Quiet d (still_known out mode source d)
  unfolding still_known
  still_known-Quiet mode source d =
      if-Quiet d.ctx.gpu.gpu_actual_pending (Quiet-refl d)
        (compare_actual-Quiet mode source d.ctx.gpu.gpu_actual d)

  check_and_notify_drift-Quiet :
      (mode : GpuMode) (source : GpuModeSource) (d : Daemon)
      → Quiet d (check_and_notify_drift out mode source d)
  unfolding check_and_notify_drift
  check_and_notify_drift-Quiet mode source d =
      Quiet-trans
        (if-Quiet d.ctx.gpu.gpu_actual_pending (resolve_gpu_actual-Quiet d) (Quiet-refl d))
        (still_known-Quiet mode source _)

  pub gpu_drift_check-Quiet : (pref : GpuPref) (d : Daemon) → Quiet d (gpu_drift_check out pref d).1
  unfolding gpu_drift_check
  gpu_drift_check-Quiet pref d = Quiet-trans (tick-Quiet d) (check_and_notify_drift-Quiet _ _ _)
