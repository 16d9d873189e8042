-- ===== src/Daemon/Dispatcher/Parked.antt =====
-- A missed loss of the charger (`handle_reconcile_tick` of src/daemon/dispatcher.rs): the snapshot
-- repairs `on_ac` for the power policy alone.
use hyprstate.Prelude.{
  ◌≡◌, refl, ap, ◌∙◌, ◌⊎◌, inl, inr, Bool, true, false, Option, none, some, arith,
}
use hyprstate.Fsm.{deferred, countdown, suspending, state_eq, world_state}
use hyprstate.Daemon.Ctx.{Context, Main, inhibitor, world}
use hyprstate.Daemon.Event.{ReconcileSnapshot}
use hyprstate.Daemon.Outside.{
  Outside, Daemon, request_standing, request_suspend, clear_battery_low_request,
}
use hyprstate.Daemon.Effectors.{with_main}
use hyprstate.Daemon.PowerPolicy.{power_policy_check}
use hyprstate.Daemon.Dispatcher.{battery_low_request_check}
use hyprstate.Daemon.Dispatcher.Handlers.{
  repair_wayland, repair_locked, repair_ac, Repaired, repair, drive, settle_ac,
  handle_reconcile_tick,
}
use hyprstate.Daemon.Dispatcher.Same.{
  same_lid, same_request, same_monitors, same_logind, same_wayland, same_locked,
}
use hyprstate.Daemon.Dispatcher.Frame.{Quiet-refl, if-Quiet, power_policy_check-Quiet}
use hyprstate.Daemon.Dispatcher.Keep.{assert_invariants-Quiet}

-- A reading that failed, or that is as the daemon has it.
abbrev pub Agrees : Option Bool → Bool → Type 0
Agrees reading now = (reading ≡ none) ⊎ (reading ≡ some now)

-- A snapshot that agrees with the daemon on everything but the charger, which it finds gone.
pub record OnlyAcLost (out : Outside) (snap : ReconcileSnapshot) (d : Daemon) : Type 0 where
  pub lid : snap.lid_closed ≡ d.ctx.main.lid_closed
  pub request : request_standing out d ≡ d.ctx.main.suspend_requested
  pub monitors : snap.ext_mon_count ≡ d.ctx.main.ext_mon_count
  pub logind : snap.logind_inhibitor ≡ d.ctx.main.logind_inhibitor
  pub wayland : Agrees snap.wayland_inhibitor d.ctx.main.wayland_inhibitor
  pub locked : Agrees snap.locked d.ctx.main.locked
  pub ac : snap.on_ac ≡ some false

-- A closed lid parked on the charger: no claim and no external monitor.
pub record HeldByAc (d : Daemon) : Type 0 where
  pub state : d.ctx.main.state ≡ deferred
  pub lid : d.ctx.main.lid_closed ≡ true
  pub monitors : d.ctx.main.ext_mon_count ≡ 0
  pub logind : d.ctx.main.logind_inhibitor ≡ false
  pub wayland : d.ctx.main.wayland_inhibitor ≡ false
  pub ac : d.ctx.main.on_ac ≡ true

module _ (out : Outside) where
  unplugged : Daemon → Daemon
  unplugged d = with_main (record d.ctx.main { on_ac = false }) d

  none_yet : Repaired
  none_yet = record { fsm = false; power = false }

  lost_ac :
      (d : Daemon)
      → d.ctx.main.on_ac ≡ true
      → repair_ac out (some false) (none_yet, d)
        ≡ (record { fsm = false; power = true }, unplugged d)
  unfolding repair_ac none_yet unplugged
  lost_ac d e = rw e refl

  same_or_lost_claim :
      (o : Option Bool) (d : Daemon)
      → Agrees o d.ctx.main.wayland_inhibitor
      → repair_wayland out o (none_yet, d) ≡ (none_yet, d)
  unfolding repair_wayland
  same_or_lost_claim o d (inl e) = rw e refl
  same_or_lost_claim o d (inr e) =
      rw e (same_wayland out none_yet d d.ctx.main.wayland_inhibitor refl)

  same_or_lost_lock :
      (o : Option Bool) (d : Daemon)
      → Agrees o d.ctx.main.locked
      → repair_locked out o (none_yet, d) ≡ (none_yet, d)
  unfolding repair_locked
  same_or_lost_lock o d (inl e) = rw e refl
  same_or_lost_lock o d (inr e) = rw e (same_locked out none_yet d d.ctx.main.locked refl)

  repaired :
      (snap : ReconcileSnapshot) (d : Daemon)
      → OnlyAcLost out snap d
      → d.ctx.main.on_ac ≡ true
      → repair out snap d ≡ (record { fsm = false; power = true }, unplugged d)
  unfolding repair none_yet
  repaired snap d o a =
      rw
        (
          o.ac,
          same_lid out none_yet d snap.lid_closed o.lid,
          same_request out none_yet d o.request,
          same_monitors out none_yet d snap.ext_mon_count o.monitors,
          same_logind out none_yet d snap.logind_inhibitor o.logind,
          same_or_lost_claim snap.wayland_inhibitor d o.wayland,
          same_or_lost_lock snap.locked d o.locked,
        )
        (lost_ac d a)

  -- The power policy's part of the repair.
  powered : Daemon → Daemon
  powered d =
      (battery_low_request_check out (power_policy_check out (settle_ac out (unplugged d)))).1

  checked_lem :
      (d : Daemon)
      → ((battery_low_request_check out d).1.ctx.main ≡ record d.ctx.main {
        suspend_requested = (battery_low_request_check out d).1.ctx.main.suspend_requested;
      })
  unfolding battery_low_request_check request_suspend clear_battery_low_request
  checked_lem d = ground arith

  powered_lem :
      (d : Daemon)
      → ((powered d).ctx.main ≡ record d.ctx.main {
        on_ac = false;
        suspend_requested = (powered d).ctx.main.suspend_requested;
      })
  unfolding powered unplugged settle_ac
  powered_lem d =
      checked_lem (power_policy_check out (settle_ac out (unplugged d)))
      ∙ ap (λ (m : Main). record m { suspend_requested = (powered d).ctx.main.suspend_requested })
          (power_policy_check-Quiet out (settle_ac out (unplugged d))).main

  driven :
      (snap : ReconcileSnapshot) (d : Daemon)
      → OnlyAcLost out snap d
      → d.ctx.main.on_ac ≡ true
      → drive out (repair out snap d) ≡ powered d
  unfolding drive powered
  driven snap d o a = ap (drive out) (repaired snap d o a)

  parked_world :
      (c : Context) (m : Main) (r : Bool)
      → c.main ≡ record m { on_ac = false; suspend_requested = r }
      → m.lid_closed ≡ true
      → m.ext_mon_count ≡ 0
      → m.logind_inhibitor ≡ false
      → m.wayland_inhibitor ≡ false
      → world_state (world c) ≡ countdown
  unfolding world_state world inhibitor
  parked_world c m r e l x g w = rw (e, l, x, g, w) (ground arith)

  reconciled :
      (snap : ReconcileSnapshot) (d : Daemon)
      → OnlyAcLost out snap d
      → d.ctx.main.on_ac ≡ true
      → (handle_reconcile_tick out snap d).ctx.main ≡ (powered d).ctx.main
  unfolding handle_reconcile_tick
  reconciled snap d o a =
      (if-Quiet (state_eq (drive out (repair out snap d)).ctx.main.state suspending)
        (Quiet-refl (drive out (repair out snap d))) (assert_invariants-Quiet out snap _)).main
      ∙ ap (λ (x : Daemon). x.ctx.main) (driven snap d o a)

  -- A daemon in `deferred` on the charger, with the lid closed, no claim and no external monitor,
  -- stays in `deferred` when a snapshot finds the charger gone and all else as the daemon has it, or
  -- fails to read the claim of Wayland or the lock, although its world then asks for the countdown.
  pub ac_loss-parks :
      (snap : ReconcileSnapshot) (d : Daemon)
      → OnlyAcLost out snap d
      → HeldByAc d
      → ((handle_reconcile_tick out snap d).ctx.main.state ≡ deferred)
        × (world_state (world (handle_reconcile_tick out snap d).ctx) ≡ countdown)
  ac_loss-parks snap d o h = (
    ap (λ (m : Main). m.state) all ∙ h.state,
    parked_world (handle_reconcile_tick out snap d).ctx d.ctx.main
        (powered d).ctx.main.suspend_requested all h.lid h.monitors h.logind h.wayland,
  )
    where
      all : (handle_reconcile_tick out snap d).ctx.main ≡ record d.ctx.main {
        on_ac = false;
        suspend_requested = (powered d).ctx.main.suspend_requested;
      }
      all = reconciled snap d o h.ac ∙ powered_lem d
