-- ===== src/Daemon/Drift.antt =====
-- src/daemon/gpu_drift.rs: the GPU mode of the session, and the advice to log in again where the
-- session's devices differ from the desired ones.
use hyprstate.Prelude.{
  ℕ, ◌-◌, ◌*◌, Bool, true, false, ◌&&◌, ◌||◌, Text, codes, text_eq, List, [], ◌∷◌, ◌++◌, Option,
  none, some, option_eq, ltb, if◌then◌else◌,
}
use hyprstate.Gpu.{GpuMode, GpuModeSource, Reason, gpu_desired, resolve_gpu_mode}
use hyprstate.Profiles.{GpuPref}
use hyprstate.Daemon.Outside.{Outside, Daemon, gpu_drift, notify, tick, send_cmd}
use hyprstate.Daemon.Power.{with_gpu}

-- `paths::GPU_NOTIFY_MIN`.
abbrev pub gpu_notify_min : ℕ
gpu_notify_min = 60 * 1000

abbrev pub texts_eq : List Text → List Text → Bool
texts_eq [] [] = true
texts_eq (s ∷ ss) (t ∷ ts) = text_eq s t && texts_eq ss ts
texts_eq _ _ = false

-- `desired.join(":")`.
abbrev join : List Text → Text
join [] = []
join (s ∷ []) = s
join (s ∷ t ∷ ts) = s ++ (codes ":" ++ join (t ∷ ts))

abbrev overlay_of : GpuPref → Option Text
overlay_of GpuPref.auto = none
overlay_of GpuPref.igpu = some (codes "igpu")
overlay_of GpuPref.dgpu = some (codes "dgpu")

abbrev after_bail : Option Text → Option (List Text)
after_bail none = none
after_bail (some reason) =
    if text_eq reason (codes "bailed-transient") || text_eq reason (codes "validation-failed")
    then some []
    else none

abbrev recently : Option ℕ → ℕ → Bool
recently none now = false
recently (some t) now = ltb (now - t) gpu_notify_min

module _ (out : Outside) where
  unfoldable pub take_actual : Option (List Text) → Daemon → Daemon
  take_actual none d = d
  take_actual (some []) d = tick (
      with_gpu
        (record d.ctx.gpu {
          gpu_actual_pending = false;
          gpu_actual = after_bail (out.gpu_state_reason d.asked);
        })
        d)
  take_actual (some (x ∷ xs)) d =
      with_gpu (record d.ctx.gpu { gpu_actual_pending = false; gpu_actual = some (x ∷ xs) }) d

  unfoldable pub resolve_gpu_actual : Daemon → Daemon
  unfolding take_actual
  resolve_gpu_actual d = take_actual (out.aq_devices d.asked) (tick d)

  unfoldable pub resolve_session_gpu_mode : GpuPref → Daemon → GpuMode × GpuModeSource
  resolve_session_gpu_mode pref d =
      let r =
        resolve_gpu_mode (out.gpu_override_word d.asked) (overlay_of pref)
          (out.platform_word d.asked) in
      (r.0, r.1)

  unfoldable pub advise : List Text → Reason → Daemon → Daemon
  advise desired reason d =
      let now = out.clock d.asked in
      if option_eq text_eq d.ctx.gpu.gpu_last_notified (some (join desired))
        || recently d.ctx.gpu.gpu_last_notify_at now
      then tick d
      else send_cmd out (notify (gpu_drift desired reason d.ctx.main.on_ac)) (
          with_gpu
            (record d.ctx.gpu {
              gpu_last_notified = some (join desired);
              gpu_last_notify_at = some now;
            })
            (tick d))

  unfoldable pub compare_desired : List Text → Option (List Text) → Reason → Daemon → Daemon
  compare_desired actual none reason d = d
  compare_desired actual (some desired) reason d =
      if texts_eq desired actual
      then with_gpu (record d.ctx.gpu { gpu_last_notified = none }) d
      else advise desired reason d

  unfoldable pub compare_actual : GpuMode → GpuModeSource → Option (List Text) → Daemon → Daemon
  compare_actual mode source none d = d
  compare_actual mode source (some actual) d =
      let (desired, reason) = gpu_desired (out.gpu_snapshot d.asked) mode source in
      compare_desired actual desired reason (tick d)

  unfoldable pub still_known : GpuMode → GpuModeSource → Daemon → Daemon
  still_known mode source d =
      if d.ctx.gpu.gpu_actual_pending then d else compare_actual mode source d.ctx.gpu.gpu_actual d

  unfoldable pub check_and_notify_drift : GpuMode → GpuModeSource → Daemon → Daemon
  check_and_notify_drift mode source d =
      still_known mode source (if d.ctx.gpu.gpu_actual_pending then resolve_gpu_actual d else d)

  unfoldable pub gpu_drift_check : GpuPref → Daemon → GpuMode × Daemon
  gpu_drift_check pref d =
      let (mode, source) = resolve_session_gpu_mode pref d in
      (mode, check_and_notify_drift mode source (tick d))
