-- ===== src/Daemon/Sources/Reconciler/LostClaim.antt =====
-- A pass whose ListInhibitors call fails (gather in src/daemon/sources/reconciler.rs), and what the
-- dispatcher makes of its snapshot (handle_reconcile_tick in src/daemon/dispatcher.rs).
use hyprstate.Prelude.{
  ℕ, ◌≡◌, refl, sym, ap, ◌∙◌, ◌⊎◌, inl, inr, Bool, true, false, none, some, is_some, unwrap_or,
  arith,
}
use hyprstate.Fsm.{
  deferred, countdown, suspending, ctx_repaired, state_eq, world_state, desired_state, WorldInputs,
}
use hyprstate.Daemon.Ctx.{Main, inhibitor, world}
use hyprstate.Daemon.Event.{ReconcileSnapshot}
use hyprstate.Daemon.Outside.{Outside, Daemon, request_standing}
use hyprstate.Daemon.Effectors.{with_main}
use hyprstate.Daemon.Dispatcher.{evaluate_fsms, transition}
use hyprstate.Daemon.Dispatcher.Handlers.{
  repair_logind, Repaired, repair, drive, handle_reconcile_tick,
}
use hyprstate.Daemon.Dispatcher.Same.{
  same_lid, same_request, same_monitors, same_wayland, same_locked, same_ac,
}
use hyprstate.Daemon.Dispatcher.Frame.{Quiet-refl, if-Quiet}
use hyprstate.Daemon.Dispatcher.Keep.{assert_invariants-Quiet}
use hyprstate.Daemon.Dispatcher.Evaluate.{transition-Awake, evaluate_to}
use hyprstate.Sysio.{on_ac_sysfs}
use hyprstate.Daemon.Sources.Watchers.{logind_real_inhibitor_active}
use hyprstate.Daemon.Sources.Reconciler.{
  PassReadings, read_lid, count_monitors, snapshot_of, gather,
}

-- The list of inhibitors cannot be read, and all else is as the daemon has it.
pub record OnlyListLost (out : Outside) (lid_present : Bool) (prev : ℕ) (r : PassReadings)
    (d : Daemon) : Type 0 where
  pub lid : read_lid lid_present r.lid_closed ≡ some d.ctx.main.lid_closed
  pub request : request_standing out d ≡ d.ctx.main.suspend_requested
  pub monitors : count_monitors r.monitors prev ≡ d.ctx.main.ext_mon_count
  pub inhibitors : r.inhibitors ≡ none
  pub wayland : r.wayland ≡ some d.ctx.main.wayland_inhibitor
  pub locked : r.locked_hint ≡ some d.ctx.main.locked
  pub ac : on_ac_sysfs r.supplies ≡ some d.ctx.main.on_ac

-- A closed lid without an external monitor, which the charger does not hold.
abbrev pub Shut : Daemon → Type 0
Shut d =
    (d.ctx.main.lid_closed ≡ true)
    × (d.ctx.main.ext_mon_count ≡ 0)
    × ((world d.ctx).lid_ac_hold ≡ false)

-- A suspend that is wanted, by a request or by the lid, and waits for a claim of logind alone.
pub record HeldByClaim (d : Daemon) : Type 0 where
  pub state : d.ctx.main.state ≡ deferred
  pub wanted : (d.ctx.main.suspend_requested ≡ true) ⊎ Shut d
  pub logind : d.ctx.main.logind_inhibitor ≡ true
  pub wayland : d.ctx.main.wayland_inhibitor ≡ false

module _ (out : Outside) where
  unclaimed : Daemon → Daemon
  unclaimed d = with_main (record d.ctx.main { logind_inhibitor = false }) d

  drifted : Repaired
  drifted = record { fsm = true; power = false }

  quiet : Repaired
  quiet = record { fsm = false; power = false }

  dropped :
      (d : Daemon) (b : Bool)
      → b ≡ false
      → d.ctx.main.logind_inhibitor ≡ true
      → repair_logind out b (quiet, d) ≡ (drifted, unclaimed d)
  unfolding repair_logind quiet drifted unclaimed
  dropped d b g h = rw (g, h) refl

  repaired :
      (snap : ReconcileSnapshot) (d : Daemon)
      → snap.lid_closed ≡ d.ctx.main.lid_closed
      → request_standing out d ≡ d.ctx.main.suspend_requested
      → snap.ext_mon_count ≡ d.ctx.main.ext_mon_count
      → snap.logind_inhibitor ≡ false
      → d.ctx.main.logind_inhibitor ≡ true
      → snap.wayland_inhibitor ≡ some d.ctx.main.wayland_inhibitor
      → snap.locked ≡ some d.ctx.main.locked
      → snap.on_ac ≡ some d.ctx.main.on_ac
      → repair out snap d ≡ (drifted, unclaimed d)
  unfolding repair quiet drifted unclaimed
  repaired snap d l q m g h w k a =
      rw
        (
          w,
          k,
          a,
          same_lid out quiet d snap.lid_closed l,
          same_request out quiet d q,
          same_monitors out quiet d snap.ext_mon_count m,
          dropped d snap.logind_inhibitor g h,
          same_wayland out drifted (unclaimed d) d.ctx.main.wayland_inhibitor refl,
          same_locked out drifted (unclaimed d) d.ctx.main.locked refl,
          same_ac out drifted (unclaimed d) d.ctx.main.on_ac refl,
        )
        refl

  unclaimed-countdown :
      (d : Daemon)
      → (d.ctx.main.suspend_requested ≡ true) ⊎ Shut d
      → d.ctx.main.wayland_inhibitor ≡ false
      → world_state (world (unclaimed d).ctx) ≡ countdown
  unfolding world_state world inhibitor unclaimed
  unclaimed-countdown d (inl q) w = rw (q, w) (ground arith)
  unclaimed-countdown d (inr (l, m, a)) w = rw (l, m, w) (ground (arith, a))

  wants_countdown :
      (w : WorldInputs)
      → world_state w ≡ countdown
      → desired_state deferred ctx_repaired w ≡ some countdown
  unfolding desired_state
  wants_countdown w e = rw e refl

  evaluated :
      (d : Daemon)
      → HeldByClaim d
      → evaluate_fsms out ctx_repaired (unclaimed d) ≡ transition out countdown (unclaimed d)
  unfolding unclaimed world
  evaluated d h =
      evaluate_to out ctx_repaired (unclaimed d) countdown
        (rw h.state
          (wants_countdown (world (unclaimed d).ctx) (unclaimed-countdown d h.wanted h.wayland)))
        (λ e. absurd (ground (arith, e, h.state)))

  reconciled :
      (snap : ReconcileSnapshot) (d : Daemon)
      → repair out snap d ≡ (drifted, unclaimed d)
      → HeldByClaim d
      → (handle_reconcile_tick out snap d).ctx.main
        ≡ (transition out countdown (unclaimed d)).ctx.main
  unfolding handle_reconcile_tick drive drifted
  reconciled snap d e h =
      (if-Quiet (state_eq (drive out (repair out snap d)).ctx.main.state suspending)
        (Quiet-refl (drive out (repair out snap d))) (assert_invariants-Quiet out snap _)).main
      ∙ ap (λ (x : Daemon). x.ctx.main) (ap (drive out) e ∙ evaluated d h)

  unread :
      (prev : ℕ) (r : PassReadings) (lid : Bool)
      → r.inhibitors ≡ none
      → (snapshot_of prev lid r).logind_inhibitor ≡ false
  unfolding snapshot_of logind_real_inhibitor_active
  unread prev r lid i = rw i refl

  gathered :
      (lid_present : Bool) (prev : ℕ) (r : PassReadings) (snap : ReconcileSnapshot) (lid : Bool)
      → read_lid lid_present r.lid_closed ≡ some lid
      → (gather lid_present prev r).1 ≡ some snap
      → snap ≡ snapshot_of (count_monitors r.monitors prev) lid r
  unfolding gather
  gathered lid_present prev r snap lid l g = sym (ap (λ o. unwrap_or o snap) (read_whole ∙ g))
    where
      read_whole :
          some (snapshot_of (count_monitors r.monitors prev) lid r) ≡ (gather lid_present prev r).1
      read_whole = rw (l, gather) refl

  -- A daemon that is in `deferred` because of a claim of logind alone, with a standing request, or
  -- with a closed, undocked lid that the charger does not hold, goes to the countdown, with its timer
  -- armed, on the snapshot of a pass that cannot read the list of inhibitors and reads all else as
  -- the daemon has it. Nothing told that the claim was released.
  pub lost_list-drops_claim :
      (lid_present : Bool) (prev : ℕ) (r : PassReadings) (snap : ReconcileSnapshot) (d : Daemon)
      → (gather lid_present prev r).1 ≡ some snap
      → OnlyListLost out lid_present prev r d
      → HeldByClaim d
      → ((handle_reconcile_tick out snap d).ctx.main.state ≡ countdown)
        × (is_some (handle_reconcile_tick out snap d).ctx.main.grace_timer ≡ true)
  unfolding snapshot_of
  lost_list-drops_claim lid_present prev r snap d g o h =
      let s = gathered lid_present prev r snap d.ctx.main.lid_closed o.lid g in
      let awake = transition-Awake out countdown (unclaimed d) (ground arith) in
      let all =
        reconciled snap d
          (repaired snap d (ap (λ (x : ReconcileSnapshot). x.lid_closed) s) o.request
            (ap (λ (x : ReconcileSnapshot). x.ext_mon_count) s ∙ o.monitors)
            (ap (λ (x : ReconcileSnapshot). x.logind_inhibitor) s
              ∙ unread (count_monitors r.monitors prev) r d.ctx.main.lid_closed o.inhibitors)
            h.logind (ap (λ (x : ReconcileSnapshot). x.wayland_inhibitor) s ∙ o.wayland)
            (ap (λ (x : ReconcileSnapshot). x.locked) s ∙ o.locked)
            (ap (λ (x : ReconcileSnapshot). x.on_ac) s ∙ o.ac))
          h in
      (
        ap (λ (m : Main). m.state) all ∙ awake.state,
        ap (λ (m : Main). is_some m.grace_timer) all ∙ awake.timer,
      )
