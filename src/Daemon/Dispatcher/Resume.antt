-- ===== src/Daemon/Dispatcher/Resume.antt =====
-- The resume from suspend (`Event::Resumed` of src/daemon/dispatcher.rs).
use hyprstate.Prelude.{◌≡◌, refl, sym, ap, ◌∙◌, false, Option, none, some, arith}
use hyprstate.Fsm.{State, suspending, EventKind, resumed, WorldInputs, world_state, desired_state}
use hyprstate.Fsm.Ladder.{desired_state-suspending_iff}
use hyprstate.Daemon.Ctx.{Main, world}
use hyprstate.Daemon.Event.{Event, kind}
use hyprstate.Daemon.Outside.{Outside, Daemon, clear_suspend_request}
use hyprstate.Daemon.Effectors.{request_reconcile}
use hyprstate.Daemon.Dispatcher.{with_request}
use hyprstate.Daemon.Dispatcher.Frame.{Quiet, kbd_policy_check-Quiet}
use hyprstate.Daemon.Dispatcher.Evaluate.{Evaluated, stays, wakes, tries, evaluate_lem}
use hyprstate.Daemon.Dispatcher.Handled.{policies-Quiet, take_resume-Steady}
use hyprstate.Daemon.Dispatcher.Takes.{take_resume}
use hyprstate.Daemon.Dispatcher.Route.{handle, policies, finish, dispatch}
use hyprstate.Daemon.Dispatcher.Outcome.{Settled}

module _ (out : Outside) where
  cleared :
      (d : Daemon)
      → (clear_suspend_request out (with_request false d)).ctx.main.suspend_requested ≡ false
  unfolding clear_suspend_request
  cleared d = ground arith

  take_resume-request : (d : Daemon) → (take_resume out d).ctx.main.suspend_requested ≡ false
  unfolding take_resume request_reconcile
  take_resume-request d =
      ap (λ (m : Main). m.suspend_requested) (kbd_policy_check-Quiet out false _).main ∙ cleared d

  woken_sees : Daemon → Daemon
  woken_sees d = policies out resumed (take_resume out d)

  woken_sees_lem :
      (d : Daemon)
      → ((woken_sees d).ctx.main.state ≡ d.ctx.main.state)
        × ((woken_sees d).ctx.main.suspend_requested ≡ false)
        × ((woken_sees d).calls ≡ d.calls)
  unfolding woken_sees
  woken_sees_lem d = (
    ap (λ (m : Main). m.state) q.main ∙ (take_resume-Steady out d).state,
    ap (λ (m : Main). m.suspend_requested) q.main ∙ take_resume-request d,
    q.calls ∙ (take_resume-Steady out d).calls,
  )
    where
      q : Quiet (take_resume out d) (policies out resumed (take_resume out d))
      q = policies-Quiet out resumed (take_resume out d)

  woken : (d : Daemon) → Evaluated out resumed (woken_sees d) (dispatch out Event.resumed d)
  unfolding dispatch handle finish woken_sees kind
  woken d = evaluate_lem out resumed (policies out resumed (take_resume out d))

  woke :
      (d e : Daemon)
      → desired_state d.ctx.main.state resumed (world d.ctx) ≡ some (world_state (world d.ctx))
      → Evaluated out resumed d e
      → Settled e × (world e.ctx ≡ world d.ctx) × (e.calls ≡ d.calls)
  woke d e w (stays h x) = absurd (clash w h)
    where
      clash : {o : Option State} → o ≡ some (world_state (world d.ctx)) → o ≡ none → ⊥
      clash p q = cc
  woke d e w (wakes new h m a) =
      (a.state ∙ same w h ∙ ap world_state (sym a.world), a.world, a.calls)
    where
      same :
          {o : Option State}
          → o ≡ some (world_state (world d.ctx))
          → o ≡ some new
          → new ≡ world_state (world d.ctx)
      same p q = cc
  woke d e w (tries h o g) =
      absurd (clash ((desired_state-suspending_iff d.ctx.main.state resumed (world d.ctx)).0 h).1)
    where
      clash : resumed ≡ EventKind.timer_expired → ⊥
      clash p = cc

  wakes_to : (w : WorldInputs) → desired_state suspending resumed w ≡ some (world_state w)
  unfolding desired_state
  wakes_to w = refl

  -- A daemon that resumes from `suspending` drops the suspend request, makes no call, and goes to
  -- the state that its world asks for.
  pub resume_lem :
      (d : Daemon)
      → d.ctx.main.state ≡ suspending
      → Settled (dispatch out Event.resumed d)
        × ((dispatch out Event.resumed d).ctx.main.suspend_requested ≡ false)
        × ((dispatch out Event.resumed d).calls ≡ d.calls)
  unfolding world
  resume_lem d h =
      let (s, w, c) = woke (woken_sees d) _ goes (woken d) in
      (
        s,
        ap (λ (w : WorldInputs). w.suspend_requested) w ∙ (woken_sees_lem d).1,
        c ∙ (woken_sees_lem d).2,
      )
    where
      goes :
          desired_state (woken_sees d).ctx.main.state resumed (world (woken_sees d).ctx)
          ≡ some (world_state (world (woken_sees d).ctx))
      goes =
          ap (λ (s : State). desired_state s resumed (world (woken_sees d).ctx))
            ((woken_sees_lem d).0 ∙ h)
          ∙ wakes_to (world (woken_sees d).ctx)
