-- ===== src/Daemon/Dispatcher/Invariant.antt =====
-- The invariant of the daemon's context between two events of src/daemon/dispatcher.rs.
use hyprstate.Prelude.{◌≡◌, ◌≢◌, ap, ◌∙◌, inl, inr, true, is_some}
use hyprstate.Fsm.{State, deferred, countdown, EventKind, timer_expired, state_eq}
use hyprstate.Fsm.Ladder.{desired_state-suspending_iff}
use hyprstate.Daemon.Ctx.{Main, world}
use hyprstate.Daemon.Outside.{Outside, Daemon}
use hyprstate.Daemon.Dispatcher.{evaluate_fsms}
use hyprstate.Daemon.Dispatcher.Frame.{offs, Quiet}
use hyprstate.Daemon.Dispatcher.Suspend.{Guarded}
use hyprstate.Daemon.Dispatcher.Evaluate.{
  Awake, Asleep, Retries, Evaluated, stays, wakes, tries, evaluate_lem,
}

-- The grace timer is armed exactly in `countdown`, a claim is watched only in `deferred`, and
-- every suspend call so far followed a proof of a live locker.
pub record Inv (d : Daemon) : Type 0 where
  pub timer : is_some d.ctx.main.grace_timer ≡ state_eq d.ctx.main.state countdown
  pub watch : is_some d.ctx.main.claim_watch ≡ true → d.ctx.main.state ≡ deferred
  pub guarded : Guarded d.calls

-- The state, its two tasks and the calls are as before.
pub record Steady (d e : Daemon) : Type 0 where
  pub state : e.ctx.main.state ≡ d.ctx.main.state
  pub timer : e.ctx.main.grace_timer ≡ d.ctx.main.grace_timer
  pub watch : e.ctx.main.claim_watch ≡ d.ctx.main.claim_watch
  pub calls : e.calls ≡ d.calls
  pub ext : e.ctx.main.ext_mon_count ≡ d.ctx.main.ext_mon_count
  pub panel : d.ctx.main.ext_mon_count ≡ 0 → offs e.cmds ≡ offs d.cmds

pub Steady-trans : {d e f : Daemon} → Steady d e → Steady e f → Steady d f
Steady-trans p q = record {
  state = q.state ∙ p.state;
  timer = q.timer ∙ p.timer;
  watch = q.watch ∙ p.watch;
  calls = q.calls ∙ p.calls;
  ext = q.ext ∙ p.ext;
  panel = λ h. q.panel (p.ext ∙ h) ∙ p.panel h;
}

pub Quiet-Steady : {d e : Daemon} → Quiet d e → Steady d e
Quiet-Steady q = record {
  state = ap (λ (m : Main). m.state) q.main;
  timer = ap (λ (m : Main). m.grace_timer) q.main;
  watch = ap (λ (m : Main). m.claim_watch) q.main;
  calls = q.calls;
  ext = ap (λ (m : Main). m.ext_mon_count) q.main;
  panel = q.panel;
}

pub Steady-Inv : {d e : Daemon} → Steady d e → Inv d → Inv e
Steady-Inv {d} {e} s v = record {
  timer = rw (s.timer, s.state) v.timer;
  watch = rw (s.watch, s.state) v.watch;
  guarded = rw s.calls v.guarded;
}

module _ (out : Outside) where
  Awake-Inv : (s : State) (d e : Daemon) → Awake s d e → Inv d → Inv e
  Awake-Inv s d e a v = record {
    timer = rw a.state a.timer;
    watch = λ h. a.state ∙ a.watch h;
    guarded = rw a.calls v.guarded;
  }

  Asleep-Inv : (e : Daemon) → Asleep out e → Guarded e.calls → Inv e
  Asleep-Inv e a g = record {
    timer = rw (a.timer, a.state);
    watch = rw a.watch (λ h. cc);
    guarded = g;
  }

  Retries-Inv :
      (d e : Daemon) → d.ctx.main.state ≡ countdown → Retries d e → Guarded e.calls → Inv e
  Retries-Inv d e c r g = record {
    timer = rw (r.state, c) r.timer;
    watch = rw r.watch (λ h. cc);
    guarded = g;
  }

  Evaluated-Inv : (k : EventKind) (d e : Daemon) → Evaluated out k d e → Inv d → Inv e
  Evaluated-Inv k d e (stays h s) v = rw s v
  Evaluated-Inv k d e (wakes new h n a) v = Awake-Inv new d e a v
  Evaluated-Inv k d e (tries h (inl a) g) v = Asleep-Inv e a (g v.guarded)
  Evaluated-Inv k d e (tries h (inr r) g) v =
      Retries-Inv d e ((desired_state-suspending_iff d.ctx.main.state k (world d.ctx)).0 h).0 r
        (g v.guarded)

  pub evaluate_fsms-Inv : (k : EventKind) (d : Daemon) → Inv d → Inv (evaluate_fsms out k d)
  evaluate_fsms-Inv k d = Evaluated-Inv k d _ (evaluate_lem out k d)

  Evaluated-calls :
      (k : EventKind) (d e : Daemon) → k ≢ timer_expired → Evaluated out k d e → e.calls ≡ d.calls
  Evaluated-calls k d e n (stays h s) = ap (λ (x : Daemon). x.calls) s
  Evaluated-calls k d e n (wakes new h m a) = a.calls
  Evaluated-calls k d e n (tries h o g) =
      absurd (n ((desired_state-suspending_iff d.ctx.main.state k (world d.ctx)).0 h).1)

  -- Only the timer calls logind.
  pub evaluate_fsms-calls :
      (k : EventKind) (d : Daemon) → k ≢ timer_expired → (evaluate_fsms out k d).calls ≡ d.calls
  evaluate_fsms-calls k d n = Evaluated-calls k d _ n (evaluate_lem out k d)
