-- ===== src/Daemon/Dispatcher/Enter.antt =====
-- Entering a state (`on_enter` of src/daemon/dispatcher.rs): what it does to the timers, and what
-- it leaves alone.
use hyprstate.Prelude.{sym, ap, ◌≡◌, ◌≢◌, refl, ◌∙◌, Bool, true, false, is_some, arith}
use hyprstate.Fsm.{State, docked, deferred, countdown, suspending, state_eq}
use hyprstate.Daemon.Ctx.{Task, Main, world}
use hyprstate.Daemon.Outside.{Outside, Daemon, send_cmd}
use hyprstate.Daemon.Effectors.{
  cancel_grace_timer, cancel_claim_watch, start_grace_timer, start_claim_watch,
}
use hyprstate.Daemon.Dispatcher.{
  Option, is_fresh, pause_for_claim, Entry, watch_claim, enter, on_enter,
}
use hyprstate.Daemon.Dispatcher.Frame.{offs, Quiet-trans, Quiet, put_edp-Quiet}

-- Everything in the main context but the two tasks is as before, and so are the battery, the
-- request file and, outside `suspending`, the calls.
pub record Entered (d e : Daemon) : Type 0 where
  pub state : e.ctx.main.state ≡ d.ctx.main.state
  pub world : world e.ctx ≡ world d.ctx
  pub request : e.request_file ≡ d.request_file
  pub calls : e.calls ≡ d.calls
  pub ext : e.ctx.main.ext_mon_count ≡ d.ctx.main.ext_mon_count
  pub panel : d.ctx.main.ext_mon_count ≡ 0 → offs e.cmds ≡ offs d.cmds

pub Entered-trans : {d e f : Daemon} → Entered d e → Entered e f → Entered d f
Entered-trans p q = record {
  state = q.state ∙ p.state;
  world = q.world ∙ p.world;
  request = q.request ∙ p.request;
  calls = q.calls ∙ p.calls;
  ext = q.ext ∙ p.ext;
  panel = λ h. q.panel (p.ext ∙ h) ∙ p.panel h;
}

pub Quiet-Entered : {d e : Daemon} → Quiet d e → Entered d e
unfolding world
Quiet-Entered {d} {e} q = record {
  state = ap (λ (m : Main). m.state) q.main;
  world = ground (arith, q.main, q.battery);
  request = q.request;
  calls = q.calls;
  ext = ap (λ (m : Main). m.ext_mon_count) q.main;
  panel = q.panel;
}

-- The grace timer is armed exactly in `countdown`, and the claim is watched only in `deferred`.
abbrev pub Armed : State → Daemon → Type 0
Armed s e =
    (is_some e.ctx.main.grace_timer ≡ state_eq s countdown)
    × (is_some e.ctx.main.claim_watch ≡ true → s ≡ deferred)

module _ (out : Outside) where
  watch_claim-Entered : (s : State) (d : Daemon) → Entered d (watch_claim out s d)
  unfolding watch_claim start_claim_watch cancel_claim_watch world
  watch_claim-Entered s d = ground arith

  cancel_grace_timer-Entered : (d : Daemon) → Entered d (cancel_grace_timer d)
  unfolding cancel_grace_timer world
  cancel_grace_timer-Entered d = ground arith

  pub start_grace_timer-Entered : (b : Bool) (d : Daemon) → Entered d (start_grace_timer out b d)
  unfolding start_grace_timer world
  start_grace_timer-Entered b d = ground arith

  pause_for_claim-Quiet : (d : Daemon) → Quiet d (pause_for_claim out d)
  unfolding pause_for_claim send_cmd
  pause_for_claim-Quiet d = ground arith

  enter-Entered :
      (s : State) (entry : Entry) (d : Daemon) → s ≢ suspending → Entered d (enter out s entry d).1
  unfolding enter
  enter-Entered State.lid_open entry d h =
      Entered-trans (cancel_grace_timer-Entered d) (Quiet-Entered (put_edp-Quiet out true _))
  enter-Entered docked entry d h =
      Entered-trans (cancel_grace_timer-Entered d) (Quiet-Entered (put_edp-Quiet out false _))
  enter-Entered deferred entry d h =
      Entered-trans (cancel_grace_timer-Entered d)
        (Quiet-Entered (Quiet-trans (put_edp-Quiet out false _) (pause_for_claim-Quiet _)))
  enter-Entered countdown entry d h =
      Entered-trans (Quiet-Entered (put_edp-Quiet out false d))
        (start_grace_timer-Entered (is_fresh entry) _)
  enter-Entered suspending entry d h = absurd (h refl)

  pub on_enter-Entered :
      (s : State) (entry : Entry) (d : Daemon)
      → s ≢ suspending
      → Entered d (on_enter out s entry d).1
  unfolding on_enter
  on_enter-Entered s entry d h =
      Entered-trans (watch_claim-Entered s d) (enter-Entered s entry (watch_claim out s d) h)

  watch_claim-watch :
      (s : State) (d : Daemon)
      → is_some (watch_claim out s d).ctx.main.claim_watch ≡ true
      → s ≡ deferred
  unfolding watch_claim start_claim_watch cancel_claim_watch
  watch_claim-watch s d h = ground arith

  cancelled : (d : Daemon) → is_some (cancel_grace_timer d).ctx.main.grace_timer ≡ false
  unfolding cancel_grace_timer
  cancelled d = ground arith

  cancelled-watch :
      (d : Daemon) → (cancel_grace_timer d).ctx.main.claim_watch ≡ d.ctx.main.claim_watch
  unfolding cancel_grace_timer
  cancelled-watch d = ground arith

  armed_timer :
      (b : Bool) (d : Daemon) → is_some (start_grace_timer out b d).ctx.main.grace_timer ≡ true
  unfolding start_grace_timer
  armed_timer b d = ground arith

  armed-watch :
      (b : Bool) (d : Daemon)
      → (start_grace_timer out b d).ctx.main.claim_watch ≡ d.ctx.main.claim_watch
  unfolding start_grace_timer
  armed-watch b d = ground arith

  -- A disarmed timer, and a panel command after it.
  disarmed :
      (d e : Daemon)
      → Quiet (cancel_grace_timer d) e
      → (is_some e.ctx.main.grace_timer ≡ false) × (e.ctx.main.claim_watch ≡ d.ctx.main.claim_watch)
  disarmed d e q = (
    ap (λ (m : Main). is_some m.grace_timer) q.main ∙ cancelled d,
    ap (λ (m : Main). m.claim_watch) q.main ∙ cancelled-watch d,
  )

  enter_lem :
      (s : State) (entry : Entry) (d : Daemon)
      → s ≢ suspending
      → (is_some (enter out s entry d).1.ctx.main.grace_timer ≡ state_eq s countdown)
        × ((enter out s entry d).1.ctx.main.claim_watch ≡ d.ctx.main.claim_watch)
  unfolding enter
  enter_lem State.lid_open entry d h = disarmed d _ (put_edp-Quiet out true _)
  enter_lem docked entry d h = disarmed d _ (put_edp-Quiet out false _)
  enter_lem deferred entry d h =
      disarmed d _ (Quiet-trans (put_edp-Quiet out false _) (pause_for_claim-Quiet _))
  enter_lem countdown entry d h = (
    armed_timer (is_fresh entry) _,
    armed-watch (is_fresh entry) _
        ∙ ap (λ (m : Main). m.claim_watch) (put_edp-Quiet out false d).main,
  )
  enter_lem suspending entry d h = absurd (h refl)

  pub on_enter-Armed :
      (s : State) (entry : Entry) (d : Daemon) → s ≢ suspending → Armed s (on_enter out s entry d).1
  unfolding on_enter
  on_enter-Armed s entry d n =
      let (t, w) = enter_lem s entry (watch_claim out s d) n in
      (t, λ h. watch_claim-watch s d (ap (λ (o : Option Task). is_some o) (sym w) ∙ h))

  pub on_enter-calls :
      (s : State) (entry : Entry) (d : Daemon)
      → s ≢ suspending
      → (on_enter out s entry d).1.calls ≡ d.calls
  on_enter-calls s entry d n = (on_enter-Entered s entry d n).calls
