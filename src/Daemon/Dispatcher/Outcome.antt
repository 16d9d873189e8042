-- ===== src/Daemon/Dispatcher/Outcome.antt =====
-- What one event of src/daemon/dispatcher.rs comes to: the state of the machine, the grace timer
-- and the request.
use hyprstate.Prelude.{
  ◌≡◌, ◌≢◌, refl, sym, ap, ◌∙◌, subst, ◌⊎◌, inl, inr, Bool, true, false, Option, none, some,
  is_some, arith,
}
use hyprstate.Fsm.{
  State, suspending, countdown, EventKind, timer_expired, resumed, world_state, desired_state,
}
use hyprstate.Fsm.Ladder.{desired_state-expired, WantsSuspend, desired_state-suspending_iff}
use hyprstate.Fsm.Trace.{step-some, step-none, step, step-settles}
use hyprstate.Daemon.Ctx.{Main, world}
use hyprstate.Daemon.Event.{Event, kind}
use hyprstate.Daemon.Outside.{Outside, Daemon}
use hyprstate.Daemon.Dispatcher.Frame.{Quiet}
use hyprstate.Daemon.Dispatcher.Enter.{Quiet-Entered}
use hyprstate.Daemon.Dispatcher.Evaluate.{
  Asleep, Retries, Evaluated, stays, wakes, tries, evaluate_lem,
}
use hyprstate.Daemon.Dispatcher.Keep.{Quiet-Kept}
use hyprstate.Daemon.Dispatcher.Handled.{take_expiry-Steady, handle-Held, policies-Quiet}
use hyprstate.Daemon.Dispatcher.Takes.{take_expiry}
use hyprstate.Daemon.Dispatcher.Route.{handle, policies, finish, dispatch}

-- The machine stands where its world puts it.
abbrev pub Settled : Daemon → Type 0
Settled d = d.ctx.main.state ≡ world_state (world d.ctx)

module _ (out : Outside) where
  settles :
      (k : EventKind) (d e : Daemon)
      → k ≢ timer_expired
      → step d.ctx.main.state (k, world d.ctx) ≡ world_state (world d.ctx)
      → Evaluated out k d e
      → Settled e
  settles k d e n s (stays h x) =
      subst Settled (sym x) (sym (step-none d.ctx.main.state k (world d.ctx) h) ∙ s)
  settles k d e n s (wakes new h m a) =
      a.state
      ∙ sym (step-some d.ctx.main.state new k (world d.ctx) h)
      ∙ s
      ∙ ap world_state (sym a.world)
  settles k d e n s (tries h o g) =
      absurd (n ((desired_state-suspending_iff d.ctx.main.state k (world d.ctx)).0 h).1)

  finish-Settled :
      (k : EventKind) (r : Bool × Daemon)
      → r.0 ≡ true
      → k ≢ timer_expired
      → k ≢ resumed
      → r.1.ctx.main.state ≢ suspending
      → Settled (finish out k r)
  unfolding finish
  finish-Settled k (true, d) h n m a =
      settles k (policies out k d) _ n
        (step-settles _ k _ ((Quiet-Kept (policies-Quiet out k d)).awake a) n m)
        (evaluate_lem out k (policies out k d))
  finish-Settled k (false, d) h n m a = ground arith

  -- An event that goes on to the shared tail, other than the timer and the resume, leaves an awake
  -- daemon in the state that its world asks for.
  pub dispatch-Settled :
      (ev : Event) (d : Daemon)
      → (handle out ev d).0 ≡ true
      → kind ev ≢ timer_expired
      → kind ev ≢ resumed
      → d.ctx.main.state ≢ suspending
      → Settled (dispatch out ev d)
  unfolding dispatch
  dispatch-Settled ev d h n m a =
      finish-Settled (kind ev) (handle out ev d) h n m ((handle-Held out ev d).awake a)

  -- The timer expires: the machine sees the state it had, and the world once a request that was
  -- withdrawn meanwhile is forgotten.
  expiry_sees : Daemon → Daemon
  expiry_sees d = policies out timer_expired (take_expiry out d)

  expiry_sees_lem :
      (d : Daemon)
      → ((expiry_sees d).ctx.main.state ≡ d.ctx.main.state)
        × (world (expiry_sees d).ctx ≡ world (take_expiry out d).ctx)
        × ((expiry_sees d).calls ≡ d.calls)
  unfolding expiry_sees
  expiry_sees_lem d = (
    ap (λ (m : Main). m.state) q.main ∙ (take_expiry-Steady out d).state,
    (Quiet-Entered q).world,
    q.calls ∙ (take_expiry-Steady out d).calls,
  )
    where
      q : Quiet (take_expiry out d) (policies out timer_expired (take_expiry out d))
      q = policies-Quiet out timer_expired (take_expiry out d)

  expired :
      (d : Daemon)
      → Evaluated out timer_expired (expiry_sees d) (dispatch out Event.timer_expired d)
  unfolding dispatch handle finish expiry_sees kind
  expired d = evaluate_lem out timer_expired (policies out timer_expired (take_expiry out d))

  slept :
      (d e : Daemon)
      → desired_state d.ctx.main.state timer_expired (world d.ctx) ≡ some suspending
      → Evaluated out timer_expired d e
      → Asleep out e ⊎ Retries d e
  slept d e w (stays h x) = absurd (clash w h)
    where
      clash : {o : Option State} → o ≡ some suspending → o ≡ none → ⊥
      clash p q = cc
  slept d e w (wakes new h m a) = absurd (clash w h m)
    where
      clash : {o : Option State} → o ≡ some suspending → o ≡ some new → new ≢ suspending → ⊥
      clash p q n = n cc
  slept d e w (tries h o g) = o

  -- An expired timer in the countdown that still finds a reason to suspend either suspends, with no
  -- timer or watch left and, but for the shadow mode, an accepted suspend right after a proven
  -- locker as the last call, or stays in the countdown with a timer armed.
  pub expiry-suspends :
      (d : Daemon)
      → d.ctx.main.state ≡ countdown
      → WantsSuspend (world (take_expiry out d).ctx)
      → Asleep out (dispatch out Event.timer_expired d)
        ⊎ (((dispatch out Event.timer_expired d).ctx.main.state ≡ countdown)
            × (is_some (dispatch out Event.timer_expired d).ctx.main.grace_timer ≡ true))
  expiry-suspends d h w = elim (slept (expiry_sees d) _ wants (expired d)) [
    | inl a ↦ inl a
    | inr r ↦ inr (r.state ∙ (expiry_sees_lem d).0 ∙ h, r.timer)
  ]
    where
      wants :
          desired_state (expiry_sees d).ctx.main.state timer_expired (world (expiry_sees d).ctx)
          ≡ some suspending
      wants =
          (desired_state-suspending_iff (expiry_sees d).ctx.main.state timer_expired
              (world (expiry_sees d).ctx)).1
            ((expiry_sees_lem d).0 ∙ h, refl, subst WantsSuspend (sym (expiry_sees_lem d).1) w)

  stood :
      (d e : Daemon)
      → desired_state d.ctx.main.state timer_expired (world d.ctx)
        ≡ some (world_state (world d.ctx))
      → (WantsSuspend (world d.ctx) → ⊥)
      → Evaluated out timer_expired d e
      → Settled e × (e.calls ≡ d.calls)
  stood d e w n (stays h x) = absurd (clash w h)
    where
      clash : {o : Option State} → o ≡ some (world_state (world d.ctx)) → o ≡ none → ⊥
      clash p q = cc
  stood d e w n (wakes new h m a) = (a.state ∙ same w h ∙ ap world_state (sym a.world), a.calls)
    where
      same :
          {o : Option State}
          → o ≡ some (world_state (world d.ctx))
          → o ≡ some new
          → new ≡ world_state (world d.ctx)
      same p q = cc
  stood d e w n (tries h o g) =
      absurd (n ((desired_state-suspending_iff d.ctx.main.state timer_expired (world d.ctx)).0 h).2)

  -- An expired timer in the countdown that finds no reason to suspend makes no call and goes to the
  -- state that the world asks for.
  pub expiry-settles :
      (d : Daemon)
      → d.ctx.main.state ≡ countdown
      → (WantsSuspend (world (take_expiry out d).ctx) → ⊥)
      → Settled (dispatch out Event.timer_expired d)
        × ((dispatch out Event.timer_expired d).calls ≡ d.calls)
  expiry-settles d h w =
      let (s, c) = stood (expiry_sees d) _ goes calm (expired d) in (s, c ∙ (expiry_sees_lem d).2)
    where
      calm : WantsSuspend (world (expiry_sees d).ctx) → ⊥
      calm x = w (subst WantsSuspend (expiry_sees_lem d).1 x)

      goes :
          desired_state (expiry_sees d).ctx.main.state timer_expired (world (expiry_sees d).ctx)
          ≡ some (world_state (world (expiry_sees d).ctx))
      goes =
          ap (λ (s : State). desired_state s timer_expired (world (expiry_sees d).ctx))
            ((expiry_sees_lem d).0 ∙ h)
          ∙ desired_state-expired (world (expiry_sees d).ctx) calm
