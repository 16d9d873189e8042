-- ===== src/Daemon/Dispatcher/Evaluate.antt =====
-- One transition of the state machine in the daemon (`evaluate_fsms` of src/daemon/dispatcher.rs).
use hyprstate.Prelude.{
  subst, ◌≡◌, ◌≢◌, refl, sym, ap, ◌∙◌, ◌⊎◌, inl, inr, Bool, true, false, none, some, is_some, arith,
  Option-cases,
}
use hyprstate.Fsm.{
  State, docked, deferred, countdown, suspending, EventKind, timer_expired, resumed, WorldInputs,
  state_eq, desired_state,
}
use hyprstate.Daemon.Ctx.{Main, world}
use hyprstate.Daemon.Outside.{Outside, Daemon}
use hyprstate.Daemon.Effectors.{cancel_grace_timer, cancel_claim_watch, start_grace_timer}
use hyprstate.Daemon.Locker.{suspending_tail}
use hyprstate.Daemon.Dispatcher.{
  fresh, with_state, watch_claim, enter, on_enter, entered_or_retry, transition, follow,
  evaluate_fsms,
}
use hyprstate.Daemon.Dispatcher.Enter.{
  Entered, Armed, on_enter-Entered, on_enter-Armed, on_enter-calls,
}
use hyprstate.Daemon.Dispatcher.Suspend.{
  Guarded, Suspended, suspending_tail-main, suspending_tail-Guarded, suspending_tail-Suspended,
}

-- What entering an awake state comes to.
pub record Awake (s : State) (d e : Daemon) : Type 0 where
  pub state : e.ctx.main.state ≡ s
  pub world : world e.ctx ≡ world d.ctx
  pub calls : e.calls ≡ d.calls
  pub timer : is_some e.ctx.main.grace_timer ≡ state_eq s countdown
  pub watch : is_some e.ctx.main.claim_watch ≡ true → s ≡ deferred

-- What an attempt to suspend comes to: an accepted suspend with no timer left, or the state
-- before it with a new grace period.
pub record Asleep (out : Outside) (e : Daemon) : Type 0 where
  pub state : e.ctx.main.state ≡ suspending
  pub timer : e.ctx.main.grace_timer ≡ none
  pub watch : e.ctx.main.claim_watch ≡ none
  pub proven : (out.shadow ≡ true) ⊎ Suspended e.calls

pub record Retries (d e : Daemon) : Type 0 where
  pub state : e.ctx.main.state ≡ d.ctx.main.state
  pub timer : is_some e.ctx.main.grace_timer ≡ true
  pub watch : e.ctx.main.claim_watch ≡ none

module _ (out : Outside) where
  pub transition-Awake :
      (new : State) (d : Daemon) → new ≢ suspending → Awake new d (transition out new d)
  unfolding transition
  transition-Awake suspending d h = absurd (h refl)
  transition-Awake new d h = awake
    where
      e : Daemon
      e = (on_enter out new fresh (with_state new d)).1

      entered : Entered (with_state new d) e
      entered = on_enter-Entered out new fresh (with_state new d) h

      armed : Armed new e
      armed = on_enter-Armed out new fresh (with_state new d) h

      awake : Awake new d e
      awake = record {
        state = entered.state;
        world = entered.world ∙ unfold world in refl;
        calls = on_enter-calls out new fresh (with_state new d) h;
        timer = armed.0;
        watch = armed.1;
      }

  -- The daemon that tries to suspend: no watch and no timer.
  quiesced : Daemon → Daemon
  quiesced d = cancel_grace_timer (watch_claim out suspending d)

  quiesced_lem :
      (d : Daemon)
      → ((quiesced d).ctx.main.grace_timer ≡ none)
        × ((quiesced d).ctx.main.claim_watch ≡ none)
        × ((quiesced d).ctx.main.state ≡ d.ctx.main.state)
        × ((quiesced d).calls ≡ d.calls)
  unfolding quiesced cancel_grace_timer watch_claim cancel_claim_watch
  quiesced_lem d = ground arith

  outcome :
      (d f : Daemon) (b : Bool)
      → f.ctx.main.grace_timer ≡ none
      → f.ctx.main.claim_watch ≡ none
      → f.ctx.main.state ≡ d.ctx.main.state
      → (b ≡ true → (out.shadow ≡ true) ⊎ Suspended f.calls)
      → Asleep out (entered_or_retry out (b, f)) ⊎ Retries d (entered_or_retry out (b, f))
  unfolding entered_or_retry start_grace_timer
  outcome d f true t w s p = inl (record { state = refl; timer = t; watch = w; proven = p refl })
  outcome d f false t w s p =
      inr (record { state = ground arith; timer = ground arith; watch = ground arith })

  pub suspend_attempt :
      (d : Daemon)
      → Asleep out (transition out suspending d) ⊎ Retries d (transition out suspending d)
  unfolding transition on_enter enter
  suspend_attempt d =
      let m = suspending_tail-main out (quiesced d) in
      let (t, w, s, c) = quiesced_lem d in
      unfold quiesced in
      outcome d (suspending_tail out (quiesced d)).1 (suspending_tail out (quiesced d)).0
        (ap (λ (x : Main). x.grace_timer) m ∙ t) (ap (λ (x : Main). x.claim_watch) m ∙ w)
        (ap (λ (x : Main). x.state) m ∙ s) (suspending_tail-Suspended out (quiesced d))

  retry-calls : (r : Bool × Daemon) → (entered_or_retry out r).calls ≡ r.1.calls
  unfolding entered_or_retry start_grace_timer
  retry-calls r = ground arith

  pub suspend_attempt-Guarded :
      (d : Daemon) → Guarded d.calls → Guarded (transition out suspending d).calls
  unfolding transition on_enter enter quiesced
  suspend_attempt-Guarded d g =
      subst Guarded (sym (retry-calls (suspending_tail out (quiesced d))))
        (suspending_tail-Guarded out (quiesced d) (subst Guarded (sym (quiesced_lem d).3) g))

  -- What one event kind comes to, by the state that the machine wants.
  pub evaluate_still :
      (k : EventKind) (d : Daemon)
      → desired_state d.ctx.main.state k (world d.ctx) ≡ none
      → evaluate_fsms out k d ≡ d
  unfolding evaluate_fsms
  evaluate_still k d e = rw (e, follow)

  pub evaluate_to :
      (k : EventKind) (d : Daemon) (new : State)
      → desired_state d.ctx.main.state k (world d.ctx) ≡ some new
      → new ≢ d.ctx.main.state
      → evaluate_fsms out k d ≡ transition out new d
  unfolding evaluate_fsms
  evaluate_to k d new e h = rw (e, follow) (ground arith)

desired_state-ne :
    (s : State) (k : EventKind) (w : WorldInputs) (new : State)
    → desired_state s k w ≡ some new
    → new ≢ s
unfolding desired_state
desired_state-ne s timer_expired w new h = ground arith
desired_state-ne s resumed w new h = ground arith
desired_state-ne s k w new h = ground arith

-- The three ways in which an event can leave the state machine.
pub data Evaluated (out : Outside) (k : EventKind) (d e : Daemon) : Type 0 where
  stays : desired_state d.ctx.main.state k (world d.ctx) ≡ none → e ≡ d → Evaluated out k d e
  wakes :
      (new : State)
      → desired_state d.ctx.main.state k (world d.ctx) ≡ some new
      → new ≢ suspending
      → Awake new d e
      → Evaluated out k d e
  tries :
      desired_state d.ctx.main.state k (world d.ctx) ≡ some suspending
      → Asleep out e ⊎ Retries d e
      → (Guarded d.calls → Guarded e.calls)
      → Evaluated out k d e

module _ (out : Outside) where
  evaluate_new :
      (k : EventKind) (d : Daemon) (new : State)
      → desired_state d.ctx.main.state k (world d.ctx) ≡ some new
      → Evaluated out k d (transition out new d)
  evaluate_new k d suspending e = tries e (suspend_attempt out d) (suspend_attempt-Guarded out d)
  evaluate_new k d State.lid_open e =
      wakes State.lid_open e (λ x. cc) (transition-Awake out _ d (λ x. cc))
  evaluate_new k d docked e = wakes docked e (λ x. cc) (transition-Awake out _ d (λ x. cc))
  evaluate_new k d deferred e = wakes deferred e (λ x. cc) (transition-Awake out _ d (λ x. cc))
  evaluate_new k d countdown e = wakes countdown e (λ x. cc) (transition-Awake out _ d (λ x. cc))

  pub evaluate_lem : (k : EventKind) (d : Daemon) → Evaluated out k d (evaluate_fsms out k d)
  evaluate_lem k d = elim (Option-cases (desired_state d.ctx.main.state k (world d.ctx))) [
    | inl e ↦ stays e (evaluate_still out k d e)
    | inr (new, e) ↦
        subst (Evaluated out k d)
          (sym
            (evaluate_to out k d new e (desired_state-ne d.ctx.main.state k (world d.ctx) new e)))
          (evaluate_new k d new e)
  ]
