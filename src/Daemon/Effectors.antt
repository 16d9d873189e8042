-- ===== src/Daemon/Effectors.antt =====
-- src/daemon/effectors.rs: the effects on the panel, the timers and the monitor profiles.
use hyprstate.Prelude.{
  ℕ, suc, ◌*◌, Bool, true, false, not, ◌&&◌, Text, text_eq, List, [], ◌∷◌, Option, none, some,
  option_eq, ◌==◌, if◌then◌else◌,
}
use hyprstate.Fsm.{edp_may_disable}
use hyprstate.Daemon.Ctx.{Main, Sched, Profiles, Task, TomlProfile}
use hyprstate.Profiles.{EdpPolicy, GpuPref}
use hyprstate.Daemon.Outside.{
  Outside, Daemon, set_edp, apply_profile, run_hook, Trigger, reconcile_requested, task_spawned,
  task_aborted, breadcrumb_written, link_repointed_to, tick, wrote, send_cmd,
}

-- `paths::GRACE_SECONDS`, `PROFILE_DEBOUNCE` and `POWER_AC_DEBOUNCE`, in milliseconds.
abbrev pub grace_ms : ℕ
grace_ms = 30 * 1000

abbrev pub profile_debounce_ms : ℕ
profile_debounce_ms = 500

abbrev pub power_ac_debounce_ms : ℕ
power_ac_debounce_ms = 5000

abbrev pub with_main : Main → Daemon → Daemon
with_main m d = record d { ctx = record d.ctx { main = m } }

abbrev pub with_sched : Sched → Daemon → Daemon
with_sched s d = record d { ctx = record d.ctx { sched = s } }

abbrev pub with_profiles : Profiles → Daemon → Daemon
with_profiles p d = record d { ctx = record d.ctx { profiles = p } }

-- The active profile's policy overrides what the state asks for.
abbrev pub edp_resolved : EdpPolicy → Bool → Bool
edp_resolved EdpPolicy.disable on = false
edp_resolved EdpPolicy.enable on = true
edp_resolved EdpPolicy.auto on = on

unfoldable pub request_reconcile : Trigger → Daemon → Daemon
request_reconcile t d = wrote (reconcile_requested t) d

abbrev abort : Option Task → Daemon → Daemon
abort none d = d
abort (some t) d = wrote (task_aborted t.id) d

-- `spawn_timer` and `tokio::spawn`.
abbrev spawn : Daemon → Daemon
spawn d = record d { tasks = suc d.tasks; writes = task_spawned d.tasks ∷ d.writes }

abbrev new_task : ℕ → Daemon → Task
new_task delay d = record { id = d.tasks; delay = delay }

unfoldable pub cancel_grace_timer : Daemon → Daemon
cancel_grace_timer d =
    with_main (record d.ctx.main { grace_timer = none }) (abort d.ctx.main.grace_timer d)

unfoldable pub cancel_claim_watch : Daemon → Daemon
cancel_claim_watch d =
    with_main (record d.ctx.main { claim_watch = none }) (abort d.ctx.main.claim_watch d)

unfoldable pub schedule_profile_reconcile : Daemon → Daemon
schedule_profile_reconcile d =
    let e = spawn (abort d.ctx.sched.profile_debounce d) in
    with_sched (record e.ctx.sched { profile_debounce = some (new_task profile_debounce_ms d) }) e

unfoldable pub schedule_power_settle : Daemon → Daemon
schedule_power_settle d =
    let e = spawn (abort d.ctx.sched.power_debounce d) in
    with_sched (record e.ctx.sched { power_debounce = some (new_task power_ac_debounce_ms d) }) e

abbrev pref_kept : Option GpuPref → Option GpuPref
pref_kept none = none
pref_kept (some GpuPref.auto) = none
pref_kept (some p) = some p

abbrev pub find_profile : Text → List TomlProfile → Option TomlProfile
find_profile name [] = none
find_profile name (p ∷ ps) = if text_eq p.name name then some p else find_profile name ps

module _ (out : Outside) where
  unfoldable pub put_edp : Bool → Daemon → Daemon
  put_edp on d =
      let resolved = edp_resolved d.ctx.profiles.edp_policy on in
      if not resolved && not (edp_may_disable d.ctx.main.ext_mon_count)
      then d
      else send_cmd out (set_edp resolved) d

  -- `is_some_and(|t| !t.is_finished())`.
  abbrev is_live : Option Task → ℕ → Bool
  is_live none asked = false
  is_live (some t) asked = not (out.task_finished t.id asked)

  -- A countdown with a request standing keeps the fixed grace.
  abbrev grace_of : Main → ℕ
  grace_of m = if m.suspend_requested then grace_ms else m.lid_grace

  arm_grace : Daemon → Daemon
  unfolding cancel_grace_timer
  arm_grace d =
      let e = cancel_grace_timer d in
      let f = spawn e in
      with_main (record f.ctx.main { grace_timer = some (new_task (grace_of d.ctx.main) d) }) f

  unfoldable pub start_grace_timer : Bool → Daemon → Daemon
  unfolding arm_grace
  start_grace_timer fresh d =
      if not fresh && is_live d.ctx.main.grace_timer d.asked then tick d else arm_grace (tick d)

  unfoldable pub start_claim_watch : Daemon → Daemon
  start_claim_watch d =
      if is_live d.ctx.main.claim_watch d.asked
      then tick d
      else (let e = spawn (tick d) in
          with_main (record e.ctx.main { claim_watch = some (new_task 0 d) }) e)

  unfoldable pub send_hooks : List Text → Daemon → Daemon
  send_hooks [] d = d
  send_hooks (h ∷ hs) d = send_hooks hs (send_cmd out (run_hook h) d)

  -- The context takes the profile on, and the worker applies it.
  unfoldable pub take_on : TomlProfile → Daemon → Daemon
  take_on p d =
      let e =
        with_profiles
          (record {
            current_profile = some p.name;
            active_profile_rev = some p.body;
            edp_policy = p.edp;
          })
          d in
      if out.shadow then e else send_hooks p.hooks (send_cmd out apply_profile e)

  unfoldable pub repoint : TomlProfile → Daemon → Daemon
  repoint p d =
      if out.shadow
      then take_on p d
      else (if out.link_repointed d.asked
          then take_on p (wrote (link_repointed_to p.name) (tick d))
          else tick d)

  abbrev pub up_to_date : TomlProfile → Daemon → Bool
  up_to_date p d =
      out.link_current d.asked p.name
      && option_eq text_eq d.ctx.profiles.current_profile (some p.name)
      && option_eq ◌==◌ d.ctx.profiles.active_profile_rev (some p.body)

  unfoldable pub adopt_profile : TomlProfile → Daemon → Daemon
  adopt_profile p d = if up_to_date p d then tick d else repoint p (tick d)

  abbrev edp_of : Option TomlProfile → EdpPolicy
  edp_of none = EdpPolicy.auto
  edp_of (some p) = p.edp

  abbrev body_of : Option TomlProfile → Option ℕ
  body_of none = none
  body_of (some p) = some p.body

  unfoldable pub ingest_name : Option Text → Daemon → Daemon
  ingest_name none d = d
  ingest_name (some name) d =
      if option_eq text_eq d.ctx.profiles.current_profile (some name)
      then d
      else (let matched = find_profile name (out.load_profiles d.asked) in
          with_profiles
            (record {
              current_profile = some name;
              active_profile_rev = body_of matched;
              edp_policy = edp_of matched;
            })
            (tick d))

  unfoldable pub ingest_active_profile : Daemon → Daemon
  unfolding ingest_name
  ingest_active_profile d = ingest_name (out.active_profile_name d.asked) (tick d)

  unfoldable pub write_gpu_breadcrumb : Option GpuPref → Daemon → Daemon
  write_gpu_breadcrumb value d =
      if out.shadow then d else wrote (breadcrumb_written (pref_kept value)) d
