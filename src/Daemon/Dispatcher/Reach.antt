-- ===== src/Daemon/Dispatcher/Reach.antt =====
-- One round of the loop of src/daemon/dispatcher.rs, and every run of it.
use hyprstate.Prelude.{◌≡◌, ◌≢◌, ◌∙◌, Bool, true, false, Option, arith, Text, []}
use hyprstate.Fsm.{WorldInputs, State, suspending, EventKind, world_state}
use hyprstate.Daemon.Ctx.{world}
use hyprstate.Daemon.Event.{Event, kind}
use hyprstate.Daemon.Outside.{Outside, Daemon}
use hyprstate.Daemon.Dispatcher.{fresh, on_enter, with_state}
use hyprstate.Daemon.Dispatcher.Frame.{
  Quiet-trans, tick-Quiet, sync_dgpu_pin-Quiet, kbd_policy_check-Quiet,
}
use hyprstate.Daemon.Dispatcher.Enter.{
  Entered, Armed, on_enter-Entered, on_enter-Armed, on_enter-calls,
}
use hyprstate.Daemon.Dispatcher.Steps.{request_reconcile-Steady}
use hyprstate.Daemon.Dispatcher.Invariant.{Inv, evaluate_fsms-Inv}
use hyprstate.Daemon.Dispatcher.Keep.{
  Steady-Kept, Kept, Kept-refl, Kept-trans, Quiet-Kept, evaluate_fsms-Kept,
}
use hyprstate.Daemon.Dispatcher.Handled.{handle-Held, policies-Quiet, sync_waybar-Quiet}
use hyprstate.Daemon.Dispatcher.Route.{finish, dispatch, round, start}

module _ (out : Outside) where
  finish-Inv : (k : EventKind) (r : Bool × Daemon) → Inv r.1 → Inv (finish out k r)
  unfolding finish
  finish-Inv k (true, d) v = evaluate_fsms-Inv out k _ ((Quiet-Kept (policies-Quiet out k d)).inv v)
  finish-Inv k (false, d) v = v

  -- One event keeps the invariant, whatever the outside answers.
  pub dispatch-Inv : (ev : Event) (d : Daemon) → Inv d → Inv (dispatch out ev d)
  unfolding dispatch
  dispatch-Inv ev d v = finish-Inv (kind ev) _ ((handle-Held out ev d).inv v)

  finish-Kept :
      (k : EventKind) (r : Bool × Daemon) → k ≢ EventKind.timer_expired → Kept r.1 (finish out k r)
  unfolding finish
  finish-Kept k (true, d) n =
      Kept-trans (Quiet-Kept (policies-Quiet out k d)) (evaluate_fsms-Kept out k _ n)
  finish-Kept k (false, d) n = Kept-refl

  -- No event other than the expired timer makes the daemon call logind.
  pub dispatch-calls :
      (ev : Event) (d : Daemon)
      → kind ev ≢ EventKind.timer_expired
      → (dispatch out ev d).calls ≡ d.calls
  unfolding dispatch
  dispatch-calls ev d n = (finish-Kept (kind ev) _ n).calls ∙ (handle-Held out ev d).calls

  -- No event other than the expired timer puts an awake daemon into `suspending`.
  pub dispatch-awake :
      (ev : Event) (d : Daemon)
      → kind ev ≢ EventKind.timer_expired
      → d.ctx.main.state ≢ suspending
      → (dispatch out ev d).ctx.main.state ≢ suspending
  unfolding dispatch
  dispatch-awake ev d n a = (finish-Kept (kind ev) _ n).awake ((handle-Held out ev d).awake a)

-- The steps of the daemon: an event of the loop, or a change of the request file from outside.
pub data Step (out : Outside) : Daemon → Daemon → Type 0 where
  event : (ev : Event) (d : Daemon) → Step out d (round out ev d)
  outside : (file : Option Text) (d : Daemon) → Step out d (record d { request_file = file })

-- The daemons that a process can come to, which starts with no call made.
pub data Reach (out : Outside) : Daemon → Type 0 where
  started : (d : Daemon) → d.calls ≡ [] → Reach out (start out d)
  next : {d e : Daemon} → Reach out d → Step out d e → Reach out e

pub world_state-awake : (w : WorldInputs) → world_state w ≢ suspending
unfolding world_state
world_state-awake w h = ground arith

module _ (out : Outside) where
  entered-Inv :
      (s : State) (d : Daemon)
      → s ≢ suspending
      → d.calls ≡ []
      → Inv (on_enter out s fresh (with_state s d)).1
  entered-Inv s d n h = record {
    timer = rw entered.state armed.0;
    watch = λ x. entered.state ∙ armed.1 x;
    guarded = rw (on_enter-calls out s fresh (with_state s d) n, h) tt;
  }
    where
      entered : Entered (with_state s d) (on_enter out s fresh (with_state s d)).1
      entered = on_enter-Entered out s fresh (with_state s d) n

      armed : Armed s (on_enter out s fresh (with_state s d)).1
      armed = on_enter-Armed out s fresh (with_state s d) n

  start-Inv : (d : Daemon) → d.calls ≡ [] → Inv (start out d)
  unfolding start
  start-Inv d h =
      (Kept-trans
          (Quiet-Kept (
            Quiet-trans (tick-Quiet _) (
              Quiet-trans (tick-Quiet _) (
                Quiet-trans (sync_dgpu_pin-Quiet out _ _)
                  (Quiet-trans (sync_waybar-Quiet out _) (kbd_policy_check-Quiet out true _))))))
          (Steady-Kept (request_reconcile-Steady _ _))).inv
        (entered-Inv (world_state (world d.ctx)) d (world_state-awake (world d.ctx)) h)

  Step-Inv : {d e : Daemon} → Step out d e → Inv d → Inv e
  unfolding round
  Step-Inv (event ev d) v = (Quiet-Kept (sync_waybar-Quiet out _)).inv (dispatch-Inv out ev d v)
  Step-Inv (outside file d) v = record { timer = v.timer; watch = v.watch; guarded = v.guarded }

  -- In every daemon that is reached, whatever happens outside: the grace timer is armed exactly in
  -- the countdown, the claim watch runs only while a claim defers, and every suspend call directly
  -- followed a proof that a locker holds the session.
  pub Reach-Inv : {d : Daemon} → Reach out d → Inv d
  Reach-Inv (started d h) = start-Inv d h
  Reach-Inv (next r s) = Step-Inv s (Reach-Inv r)
