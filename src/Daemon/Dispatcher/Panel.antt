-- ===== src/Daemon/Dispatcher/Panel.antt =====
-- The panel command over one transition of the state machine (src/daemon/dispatcher.rs).
use hyprstate.Prelude.{◌≡◌, refl, ◌∙◌, Bool, true, false, Option, none, some, arith, if◌then◌else◌}
use hyprstate.Fsm.{
  State, docked, deferred, countdown, suspending, EventKind, state_eq, desired_state,
}
use hyprstate.Daemon.Ctx.{world}
use hyprstate.Daemon.Outside.{Outside, Daemon}
use hyprstate.Daemon.Effectors.{cancel_grace_timer, cancel_claim_watch, start_grace_timer}
use hyprstate.Daemon.Locker.{suspending_tail}
use hyprstate.Daemon.Dispatcher.{
  fresh, with_state, watch_claim, enter, on_enter, entered_or_retry, transition, follow,
  evaluate_fsms,
}
use hyprstate.Daemon.Dispatcher.Frame.{offs}
use hyprstate.Daemon.Dispatcher.Enter.{Entered, on_enter-Entered}

-- The monitor count is as before, and at a count of 0 the panel was not commanded off.
pub record Shown (d e : Daemon) : Type 0 where
  pub ext : e.ctx.main.ext_mon_count ≡ d.ctx.main.ext_mon_count
  pub panel : d.ctx.main.ext_mon_count ≡ 0 → offs e.cmds ≡ offs d.cmds

Shown-refl : {d : Daemon} → Shown d d
Shown-refl = record { ext = refl; panel = λ h. refl }

pub Shown-trans : {d e f : Daemon} → Shown d e → Shown e f → Shown d f
Shown-trans p q = record { ext = q.ext ∙ p.ext; panel = λ h. q.panel (p.ext ∙ h) ∙ p.panel h }

if-Shown : (b : Bool) {d e f : Daemon} → Shown d e → Shown d f → Shown d (if b then e else f)
if-Shown true p q = p
if-Shown false p q = q

module _ (out : Outside) where
  tail-Shown : (d : Daemon) → Shown d (suspending_tail out d).1
  unfolding suspending_tail
  tail-Shown d = ground arith

  watched-Shown : (d : Daemon) → Shown d (watch_claim out suspending d)
  unfolding watch_claim cancel_claim_watch
  watched-Shown d = ground arith

  cancelled-Shown : (d : Daemon) → Shown d (cancel_grace_timer d)
  unfolding cancel_grace_timer
  cancelled-Shown d = ground arith

  retried-Shown : (r : Bool × Daemon) → Shown r.1 (entered_or_retry out r)
  unfolding entered_or_retry start_grace_timer
  retried-Shown r = ground arith

  Entered-Shown : (new : State) (d e : Daemon) → Entered (with_state new d) e → Shown d e
  Entered-Shown new d e n = record { ext = n.ext; panel = n.panel }

  attempt-Shown : (d : Daemon) → Shown d (entered_or_retry out (on_enter out suspending fresh d))
  unfolding on_enter enter
  attempt-Shown d =
      Shown-trans (watched-Shown d)
        (Shown-trans (cancelled-Shown _) (Shown-trans (tail-Shown _) (retried-Shown _)))

  transition-Shown : (new : State) (d : Daemon) → Shown d (transition out new d)
  unfolding transition
  transition-Shown suspending d = attempt-Shown d
  transition-Shown State.lid_open d =
      Entered-Shown State.lid_open d _ (on_enter-Entered out State.lid_open fresh _ (λ h. cc))
  transition-Shown docked d =
      Entered-Shown docked d _ (on_enter-Entered out docked fresh _ (λ h. cc))
  transition-Shown deferred d =
      Entered-Shown deferred d _ (on_enter-Entered out deferred fresh _ (λ h. cc))
  transition-Shown countdown d =
      Entered-Shown countdown d _ (on_enter-Entered out countdown fresh _ (λ h. cc))

  follow-Shown : (o : Option State) (d : Daemon) → Shown d (follow out o d)
  unfolding follow
  follow-Shown none d = Shown-refl
  follow-Shown (some new) d =
      if-Shown (state_eq new d.ctx.main.state) Shown-refl (transition-Shown new d)

  pub evaluate_fsms-Shown : (k : EventKind) (d : Daemon) → Shown d (evaluate_fsms out k d)
  unfolding evaluate_fsms
  evaluate_fsms-Shown k d = follow-Shown (desired_state d.ctx.main.state k (world d.ctx)) d
