-- ===== src/Daemon/Dispatcher/Tests.antt =====
-- The dispatcher's theorems at concrete daemons (src/daemon/dispatcher.rs).
use hyprstate.Prelude.{
  codes, ◌≡◌, ◌≢◌, refl, ◌⊎◌, inl, inr, true, false, none, some, is_some, List, [], ◌∷◌, F64, frac,
  nan, arith,
}
use hyprstate.Fsm.{world_state, suspending, countdown}
use hyprstate.Fsm.{deferred}
use hyprstate.Daemon.Dispatcher.Blackout.{dispatch-dark}
use hyprstate.Daemon.Dispatcher.Frame.{offs}
use hyprstate.Daemon.Dispatcher.{evaluate_fsms, transition, on_enter, refresh_wayland_claim}
use hyprstate.Daemon.Effectors.{start_grace_timer, put_edp, cancel_claim_watch}
use hyprstate.Fsm.{desired_state, edp_may_disable}
use hyprstate.Daemon.Dispatcher.Route.{policies, finish}
use hyprstate.Power.{performance, battery}
use hyprstate.Daemon.PowerPolicy.{base_of, power_policy_check}
use hyprstate.Daemon.PowerPolicy.Override.{Stamped, power_policy_check-Stamped}
use hyprstate.Daemon.Dispatcher.{battery_low_request_check}
use hyprstate.Daemon.Dispatcher.BatteryLow.{Checked, battery_low_request_check-Checked}
use hyprstate.Daemon.Kbd.{kbd_policy_check}
use hyprstate.Daemon.Kbd.Dark.{lights, kbd_policy_check-lights}
use hyprstate.Daemon.Dispatcher.Fixture.{granting, with_context}
use hyprstate.Daemon.Dispatcher.Parked.{ac_loss-parks}
use hyprstate.Daemon.Dispatcher.Handlers.{handle_reconcile_tick}
use hyprstate.Daemon.Event.{ReconcileSnapshot}
use hyprstate.Daemon.Outside.{request_standing}
use hyprstate.Daemon.Ctx.{Context, world, default_context}
use hyprstate.Power.Conf.{defer}
use hyprstate.Daemon.Event.{Event, kind}
use hyprstate.Daemon.Outside.{Daemon}
use hyprstate.Daemon.Dispatcher.Evaluate.{Asleep}
use hyprstate.Daemon.Dispatcher.Invariant.{Inv}
use hyprstate.Daemon.Dispatcher.Reach.{
  started, next, event, Reach-Inv, dispatch-calls, dispatch-awake,
}
use hyprstate.Daemon.Dispatcher.Outcome.{Settled, dispatch-Settled, expiry-suspends, expiry-settles}
use hyprstate.Daemon.Dispatcher.Resume.{resume_lem}
use hyprstate.Daemon.Dispatcher.Takes.{take_expiry}
use hyprstate.Daemon.Dispatcher.Route.{dispatch, round, start, handle}

abbrev idle_open : Daemon
idle_open = with_context default_context

abbrev lid_shut : Context
lid_shut = record default_context {
  main = record default_context.main { lid_closed = true; state = countdown };
}

abbrev shut : Daemon
shut = with_context lid_shut

abbrev reopened : Daemon
reopened =
    with_context
      (record default_context { main = record default_context.main { state = countdown } })

abbrev asleep : Daemon
asleep = with_context (record default_context {
  main = record default_context.main {
    lid_closed = true;
    state = suspending;
    suspend_requested = true;
  };
})

Reach-Inv_example : Inv (round granting (Event.lid true) (start granting idle_open))
Reach-Inv_example =
    Reach-Inv granting
      (next (started idle_open refl) (event (Event.lid true) (start granting idle_open)))

dispatch-calls_example : (dispatch granting (Event.lid true) idle_open).calls ≡ []
unfolding kind
dispatch-calls_example = dispatch-calls granting (Event.lid true) idle_open (λ h. cc)

dispatch-awake_example : (dispatch granting (Event.lid true) idle_open).ctx.main.state ≢ suspending
unfolding kind
dispatch-awake_example = dispatch-awake granting (Event.lid true) idle_open (λ h. cc) (λ h. cc)

dispatch-Settled_example : Settled (dispatch granting (Event.lid true) idle_open)
unfolding handle kind
dispatch-Settled_example =
    dispatch-Settled granting (Event.lid true) idle_open refl (λ h. cc) (λ h. cc) (λ h. cc)

expiry-suspends_example :
    Asleep granting (dispatch granting Event.timer_expired shut)
    ⊎ (((dispatch granting Event.timer_expired shut).ctx.main.state ≡ countdown)
        × (is_some (dispatch granting Event.timer_expired shut).ctx.main.grace_timer ≡ true))
unfolding world take_expiry
expiry-suspends_example =
    expiry-suspends granting shut refl (inr ((refl, refl, refl), inl refl, refl))

expiry-settles_example :
    Settled (dispatch granting Event.timer_expired reopened)
    × ((dispatch granting Event.timer_expired reopened).calls ≡ [])
unfolding world take_expiry
expiry-settles_example = expiry-settles granting reopened refl (λ w. ground arith)

resume_lem_example :
    Settled (dispatch granting Event.resumed asleep)
    × ((dispatch granting Event.resumed asleep).ctx.main.suspend_requested ≡ false)
    × ((dispatch granting Event.resumed asleep).calls ≡ [])
resume_lem_example = resume_lem granting asleep refl

abbrev held : Daemon
held = with_context (record default_context {
  main = record default_context.main { lid_closed = true; lid_ac = defer; state = deferred };
})

abbrev unplugged_snap : ReconcileSnapshot
unplugged_snap = record {
  lid_closed = true;
  ext_mon_count = 0;
  logind_inhibitor = false;
  wayland_inhibitor = some false;
  locked = none;
  on_ac = some false;
  edp_disabled = none;
  dpms_off = none;
  cursor_pos = none;
}

ac_loss-parks_example :
    ((handle_reconcile_tick granting unplugged_snap held).ctx.main.state ≡ deferred)
    × (world_state (world (handle_reconcile_tick granting unplugged_snap held).ctx) ≡ countdown)
unfolding request_standing
ac_loss-parks_example =
    ac_loss-parks granting unplugged_snap held
      (record {
        lid = refl;
        request = refl;
        monitors = refl;
        logind = refl;
        wayland = inr refl;
        locked = inl refl;
        ac = refl;
      })
      (record {
        state = refl;
        lid = refl;
        monitors = refl;
        logind = refl;
        wayland = refl;
        ac = refl;
      })

dispatch-dark_example : offs (dispatch granting (Event.lid true) idle_open).cmds ≡ 0
unfolding dispatch handle policies evaluate_fsms world world_state desired_state transition on_enter
    kind finish refresh_wayland_claim start_grace_timer put_edp cancel_claim_watch edp_may_disable
dispatch-dark_example = dispatch-dark granting (Event.lid true) idle_open refl

abbrev overridden : Daemon
overridden = with_context (record default_context {
  policy = record default_context.policy {
    power_override = some performance;
    power_override_base = some battery;
  };
})

power_policy_check-Stamped_example :
    Stamped (base_of default_context) (power_policy_check granting overridden)
unfolding base_of
power_policy_check-Stamped_example = power_policy_check-Stamped granting overridden

abbrev draining : Daemon
draining = with_context (record default_context {
  main = record default_context.main { on_ac = false };
  battery = record default_context.battery { on_ac_settled = false; low_battery = true };
})

battery_low_request_check-Checked_example :
    Checked granting draining (battery_low_request_check granting draining).1
battery_low_request_check-Checked_example = battery_low_request_check-Checked granting draining

-- Locked while the keys are lit at half the scale.
abbrev lit_and_locked : Daemon
lit_and_locked = with_context (record default_context {
  main = record default_context.main { locked = true };
  kbd = record default_context.kbd {
    kbd_led = some (codes "kbd_backlight", 3);
    kbd_als = some (codes "als");
    kbd_typing = true;
    kbd_dark = true;
    kbd_applied = some 2;
  };
})

kbd_policy_check-lights_example : lights (kbd_policy_check granting true lit_and_locked).writes ≡ 0
kbd_policy_check-lights_example = kbd_policy_check-lights granting true lit_and_locked (inl refl)

abbrev day : List F64
day = frac 9 0 ∷ frac 17 0 ∷ nan ∷ frac 35 1 ∷ []
