-- ===== src/Daemon/Dispatcher/Keep.antt =====
-- What one event of src/daemon/dispatcher.rs keeps: the invariant, and the calls to logind.
use hyprstate.Prelude.{
  ap, ◌≡◌, ◌≢◌, refl, sym, ◌∙◌, Bool, true, false, not, ◌&&◌, Option, none, some, arith,
  if◌then◌else◌, ℕ, ℤ,
}
use hyprstate.Fsm.{suspending, EventKind, timer_expired, state_eq}
use hyprstate.Daemon.Event.{ReconcileSnapshot}
use hyprstate.Daemon.Outside.{Outside, Daemon, send_cmd}
use hyprstate.Daemon.Effectors.{with_sched, schedule_profile_reconcile}
use hyprstate.Daemon.PowerPolicy.{power_policy_check}
use hyprstate.Daemon.Dispatcher.{evaluate_fsms, reassert, on_enter, battery_low_request_check}
use hyprstate.Daemon.Dispatcher.Handlers.{
  repair_lid, repair_request, repair_monitors, repair_logind, repair_wayland, repair_locked,
  repair_ac, Repaired, repair, drive, settle_ac, enforce_panel, panel_wanted, relight,
  assert_invariants, handle_reconcile_tick,
}
use hyprstate.Daemon.Dispatcher.Frame.{
  offs, Quiet, Quiet-refl, Quiet-trans, if-Quiet, put_edp-Quiet, power_policy_check-Quiet,
  ingest_active_profile-Quiet,
}
use hyprstate.Daemon.Dispatcher.Enter.{
  Entered, Armed, on_enter-Entered, on_enter-Armed, on_enter-calls,
}
use hyprstate.Daemon.Dispatcher.Invariant.{
  Inv, Steady, Steady-trans, Quiet-Steady, Steady-Inv, evaluate_fsms-Inv, evaluate_fsms-calls,
}
use hyprstate.Daemon.Dispatcher.Evaluate.{Evaluated, stays, wakes, tries, evaluate_lem}
use hyprstate.Fsm.Ladder.{desired_state-suspending_iff}
use hyprstate.Daemon.Ctx.{world}
use hyprstate.Daemon.Dispatcher.Panel.{Shown, Shown-trans, evaluate_fsms-Shown}
use hyprstate.Daemon.Dispatcher.Steps.{Steady-refl, if-Steady, battery_low_request_check-Steady}

pub record Kept (d e : Daemon) : Type 0 where
  pub inv : Inv d → Inv e
  pub calls : e.calls ≡ d.calls
  pub awake : d.ctx.main.state ≢ suspending → e.ctx.main.state ≢ suspending
  pub shown : Shown d e

-- The state, its two tasks, the calls and the commands are as before.
pub record Still (d e : Daemon) : Type 0 where
  pub state : e.ctx.main.state ≡ d.ctx.main.state
  pub timer : e.ctx.main.grace_timer ≡ d.ctx.main.grace_timer
  pub watch : e.ctx.main.claim_watch ≡ d.ctx.main.claim_watch
  pub calls : e.calls ≡ d.calls
  pub cmds : e.cmds ≡ d.cmds

Still-trans : {d e f : Daemon} → Still d e → Still e f → Still d f
Still-trans p q = record {
  state = q.state ∙ p.state;
  timer = q.timer ∙ p.timer;
  watch = q.watch ∙ p.watch;
  calls = q.calls ∙ p.calls;
  cmds = q.cmds ∙ p.cmds;
}

Still-Inv : {d e : Daemon} → Still d e → Inv d → Inv e
Still-Inv s v = record {
  timer = rw (s.timer, s.state) v.timer;
  watch = rw (s.watch, s.state) v.watch;
  guarded = rw s.calls v.guarded;
}

-- What one event keeps, though it may change the monitor count: at a count of 0 after it, the
-- panel was not commanded off.
pub record Held (d e : Daemon) : Type 0 where
  pub inv : Inv d → Inv e
  pub calls : e.calls ≡ d.calls
  pub awake : d.ctx.main.state ≢ suspending → e.ctx.main.state ≢ suspending
  pub dark : e.ctx.main.ext_mon_count ≡ 0 → offs e.cmds ≡ offs d.cmds

pub Held-Kept : {d e f : Daemon} → Held d e → Kept e f → Held d f
Held-Kept p q = record {
  inv = λ v. q.inv (p.inv v);
  calls = q.calls ∙ p.calls;
  awake = λ n. q.awake (p.awake n);
  dark = λ h. q.shown.panel (sym q.shown.ext ∙ h) ∙ p.dark (sym q.shown.ext ∙ h);
}

pub Still-Held : {d e : Daemon} → Still d e → Held d e
Still-Held s = record {
  inv = Still-Inv s;
  calls = s.calls;
  awake = λ n h. n (sym s.state ∙ h);
  dark = λ h. ap offs s.cmds;
}

pub Kept-Held : {d e : Daemon} → Kept d e → Held d e
Kept-Held k = record {
  inv = k.inv;
  calls = k.calls;
  awake = k.awake;
  dark = λ h. k.shown.panel (sym k.shown.ext ∙ h);
}

pub Kept-refl : {d : Daemon} → Kept d d
Kept-refl = record {
  inv = λ v. v;
  calls = refl;
  awake = λ n. n;
  shown = record { ext = refl; panel = λ h. refl };
}

pub Kept-trans : {d e f : Daemon} → Kept d e → Kept e f → Kept d f
Kept-trans p q = record {
  inv = λ v. q.inv (p.inv v);
  calls = q.calls ∙ p.calls;
  awake = λ n. q.awake (p.awake n);
  shown = Shown-trans p.shown q.shown;
}

pub if-Kept : (b : Bool) {d e f : Daemon} → Kept d e → Kept d f → Kept d (if b then e else f)
if-Kept true p q = p
if-Kept false p q = q

pub Steady-Kept : {d e : Daemon} → Steady d e → Kept d e
Steady-Kept s = record {
  inv = Steady-Inv s;
  calls = s.calls;
  awake = λ n h. n (sym s.state ∙ h);
  shown = record { ext = s.ext; panel = s.panel };
}

pub Quiet-Kept : {d e : Daemon} → Quiet d e → Kept d e
Quiet-Kept q = Steady-Kept (Quiet-Steady q)

module _ (out : Outside) where
  Evaluated-awake :
      (k : EventKind) (d e : Daemon)
      → k ≢ timer_expired
      → Evaluated out k d e
      → d.ctx.main.state ≢ suspending
      → e.ctx.main.state ≢ suspending
  Evaluated-awake k d e n (stays h s) a = rw s a
  Evaluated-awake k d e n (wakes new h m w) a = λ x. m (sym w.state ∙ x)
  Evaluated-awake k d e n (tries h o g) a =
      absurd (n ((desired_state-suspending_iff d.ctx.main.state k (world d.ctx)).0 h).1)

  pub evaluate_fsms-Kept :
      (k : EventKind) (d : Daemon) → k ≢ timer_expired → Kept d (evaluate_fsms out k d)
  evaluate_fsms-Kept k d n = record {
    inv = evaluate_fsms-Inv out k d;
    calls = evaluate_fsms-calls out k d n;
    awake = Evaluated-awake k d _ n (evaluate_lem out k d);
    shown = evaluate_fsms-Shown out k d;
  }

  -- Entering the present state again, awake.
  pub reenter-Kept :
      (d : Daemon)
      → d.ctx.main.state ≢ suspending
      → Kept d (on_enter out d.ctx.main.state reassert d).1
  reenter-Kept d n = record {
    inv = λ v. record {
      timer = rw entered.state armed.0;
      watch = λ h. entered.state ∙ armed.1 h;
      guarded = rw (on_enter-calls out d.ctx.main.state reassert d n) v.guarded;
    };
    calls = on_enter-calls out d.ctx.main.state reassert d n;
    awake = λ m h. m (sym entered.state ∙ h);
    shown = record { ext = entered.ext; panel = entered.panel };
  }
    where
      entered : Entered d (on_enter out d.ctx.main.state reassert d).1
      entered = on_enter-Entered out d.ctx.main.state reassert d n

      armed : Armed d.ctx.main.state (on_enter out d.ctx.main.state reassert d).1
      armed = on_enter-Armed out d.ctx.main.state reassert d n

  repair_lid-Still : (b : Bool) (s : Repaired × Daemon) → Still s.1 (repair_lid out b s).1
  unfolding repair_lid
  repair_lid-Still b s = ground arith

  repair_request-Still : (s : Repaired × Daemon) → Still s.1 (repair_request out s).1
  unfolding repair_request
  repair_request-Still s = ground arith

  repair_monitors-Still : (n : ℕ) (s : Repaired × Daemon) → Still s.1 (repair_monitors out n s).1
  unfolding repair_monitors schedule_profile_reconcile
  repair_monitors-Still n s = ground arith

  repair_logind-Still : (b : Bool) (s : Repaired × Daemon) → Still s.1 (repair_logind out b s).1
  unfolding repair_logind
  repair_logind-Still b s = ground arith

  repair_wayland-Still :
      (o : Option Bool) (s : Repaired × Daemon) → Still s.1 (repair_wayland out o s).1
  unfolding repair_wayland
  repair_wayland-Still o s = ground arith

  repair_locked-Still :
      (o : Option Bool) (s : Repaired × Daemon) → Still s.1 (repair_locked out o s).1
  unfolding repair_locked
  repair_locked-Still o s = ground arith

  repair_ac-Still : (o : Option Bool) (s : Repaired × Daemon) → Still s.1 (repair_ac out o s).1
  unfolding repair_ac
  repair_ac-Still o s = ground arith

  repair-Still : (snap : ReconcileSnapshot) (d : Daemon) → Still d (repair out snap d).1
  unfolding repair
  repair-Still snap d = Still-trans (repair_lid-Still snap.lid_closed _) (
      Still-trans (repair_request-Still _) (
        Still-trans (repair_monitors-Still snap.ext_mon_count _) (
          Still-trans (repair_logind-Still snap.logind_inhibitor _) (
            Still-trans (repair_wayland-Still snap.wayland_inhibitor _)
              (Still-trans (repair_locked-Still snap.locked _) (repair_ac-Still snap.on_ac _))))))

  settle_ac-Steady : (d : Daemon) → Steady d (settle_ac out d)
  unfolding settle_ac
  settle_ac-Steady d = record {
    state = refl;
    timer = refl;
    watch = refl;
    calls = refl;
    ext = refl;
    panel = λ h. refl;
  }

  settled-Steady :
      (b : Bool) (d : Daemon)
      → Steady d (
          if b
          then (battery_low_request_check out (power_policy_check out (settle_ac out d))).1
          else d)
  settled-Steady b d =
      if-Steady b
        (Steady-trans
          (Steady-trans (settle_ac-Steady d) (Quiet-Steady (power_policy_check-Quiet out _)))
          (battery_low_request_check-Steady out _))
        Steady-refl

  drive-Kept : (r : Repaired) (d : Daemon) → Kept d (drive out (r, d))
  unfolding drive
  drive-Kept r d =
      Kept-trans (Steady-Kept (settled-Steady r.power d))
        (if-Kept r.fsm (evaluate_fsms-Kept EventKind.ctx_repaired _ (λ h. cc)) Kept-refl)

  enforce_panel-Quiet : (off : Option Bool) (d : Daemon) → Quiet d (enforce_panel out off d)
  unfolding enforce_panel
  enforce_panel-Quiet none d = Quiet-refl d
  enforce_panel-Quiet (some b) d =
      if-Quiet (panel_wanted d.ctx && b) (put_edp-Quiet out true d)
        (if-Quiet (not (panel_wanted d.ctx) && not b) (put_edp-Quiet out false d) (Quiet-refl d))

  relight-Quiet : (off : Option Bool) (b : Bool) (d : Daemon) → Quiet d (relight out off b d)
  unfolding relight send_cmd
  relight-Quiet off b d = ground arith

  cursor-Quiet :
      (p : Option (ℤ × ℤ)) (d : Daemon)
      → Quiet d (with_sched (record d.ctx.sched { last_cursor_pos = p }) d)
  cursor-Quiet p d = record {
    main = refl;
    battery = refl;
    request = refl;
    calls = refl;
    panel = λ h. refl;
  }

  pub assert_invariants-Quiet :
      (snap : ReconcileSnapshot) (d : Daemon) → Quiet d (assert_invariants out snap d)
  unfolding assert_invariants
  assert_invariants-Quiet snap d = Quiet-trans (ingest_active_profile-Quiet out d) (
      Quiet-trans (enforce_panel-Quiet snap.edp_disabled _)
        (Quiet-trans (cursor-Quiet snap.cursor_pos _) (relight-Quiet snap.dpms_off _ _)))

  pub handle_reconcile_tick-Held :
      (snap : ReconcileSnapshot) (d : Daemon) → Held d (handle_reconcile_tick out snap d)
  unfolding handle_reconcile_tick
  handle_reconcile_tick-Held snap d = Held-Kept (Still-Held (repair-Still snap d)) (
      Kept-trans (drive-Kept (repair out snap d).0 (repair out snap d).1) (
        if-Kept (state_eq (drive out (repair out snap d)).ctx.main.state suspending) Kept-refl
          (Quiet-Kept (assert_invariants-Quiet snap _))))
