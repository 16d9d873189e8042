-- ===== src/Daemon/Dispatcher/Blackout.antt =====
-- No event of src/daemon/dispatcher.rs darkens the only screen.
use hyprstate.Prelude.{◌≡◌, sym, ◌∙◌, Bool, true, false, refl}
use hyprstate.Fsm.{EventKind}
use hyprstate.Daemon.Event.{Event, kind}
use hyprstate.Daemon.Outside.{Outside, Daemon}
use hyprstate.Daemon.Dispatcher.Frame.{offs}
use hyprstate.Daemon.Dispatcher.Panel.{Shown, Shown-trans, evaluate_fsms-Shown}
use hyprstate.Daemon.Dispatcher.Keep.{Quiet-Kept}
use hyprstate.Daemon.Dispatcher.Handled.{handle-Held, policies-Quiet}
use hyprstate.Daemon.Dispatcher.Route.{handle, policies, finish, dispatch}

module _ (out : Outside) where
  finish-Shown : (k : EventKind) (r : Bool × Daemon) → Shown r.1 (finish out k r)
  unfolding finish
  finish-Shown k (true, d) =
      Shown-trans (Quiet-Kept (policies-Quiet out k d)).shown
        (evaluate_fsms-Shown out k (policies out k d))
  finish-Shown k (false, d) = record { ext = refl; panel = λ h. refl }

  -- If no external monitor is counted after an event, then the event issued no command that turns
  -- the built-in panel off, whatever the event and the state were.
  pub dispatch-dark :
      (ev : Event) (d : Daemon)
      → (dispatch out ev d).ctx.main.ext_mon_count ≡ 0
      → offs (dispatch out ev d).cmds ≡ offs d.cmds
  unfolding dispatch
  dispatch-dark ev d h = shown.panel calm ∙ (handle-Held out ev d).dark calm
    where
      shown : Shown (handle out ev d).1 (finish out (kind ev) (handle out ev d))
      shown = finish-Shown (kind ev) (handle out ev d)

      calm : (handle out ev d).1.ctx.main.ext_mon_count ≡ 0
      calm = sym shown.ext ∙ h
