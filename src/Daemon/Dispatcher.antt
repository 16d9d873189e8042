-- ===== src/Daemon/Dispatcher.antt =====
-- src/daemon/dispatcher.rs: entering a state, the transition of one event, and the handlers.
-- Logging, spans and telemetry are left out: they only report.
pub mod Handlers
pub mod Takes
pub mod Route
pub mod Frame
pub mod Enter
pub mod Evaluate
pub mod Suspend
pub mod Invariant
pub mod Steps
pub mod Panel
pub mod Keep
pub mod Handled
pub mod Reach
pub mod Outcome
pub mod Resume
pub mod Parked
pub mod Same
pub mod BatteryLow
pub mod Samples
pub mod Blackout
pub mod Fixture
mod Tests
use hyprstate.Prelude.{
  Bool, true, false, not, ◌&&◌, ◌||◌, Option, none, some, bool_eq, if◌then◌else◌,
}
use hyprstate.Fsm.{
  State, docked, deferred, countdown, suspending, EventKind, state_eq, claim_governs, desired_state,
}
use hyprstate.Daemon.Ctx.{Context, Main, world}
use hyprstate.Daemon.Outside.{
  Outside, Daemon, pause_media, tick, send_cmd, request_suspend, clear_battery_low_request,
}
use hyprstate.Daemon.Effectors.{
  with_main, put_edp, cancel_grace_timer, cancel_claim_watch, start_grace_timer, start_claim_watch,
}
use hyprstate.Daemon.Locker.{suspending_tail}

pub data Entry : Type 0 where
  fresh reassert : Entry

abbrev pub is_fresh : Entry → Bool
is_fresh fresh = true
is_fresh reassert = false

abbrev pub with_state : State → Daemon → Daemon
with_state s d = with_main (record d.ctx.main { state = s }) d

abbrev pub with_request : Bool → Daemon → Daemon
with_request r d = with_main (record d.ctx.main { suspend_requested = r }) d

pub data BatteryLowAction : Type 0 where
  request withdraw hold : BatteryLowAction

unfoldable pub battery_low_action : Bool → Bool → Bool → Bool → BatteryLowAction
battery_low_action low_battery on_ac on_ac_settled request_standing =
    if low_battery && not on_ac && not on_ac_settled && not request_standing
    then request
    else (if request_standing && (on_ac || not low_battery) then withdraw else hold)

module _ (out : Outside) where
  unfoldable pub watch_claim : State → Daemon → Daemon
  watch_claim state d =
      if state_eq state deferred && d.ctx.main.wayland_inhibitor
      then start_claim_watch out d
      else cancel_claim_watch d

  unfoldable pub pause_for_claim : Daemon → Daemon
  pause_for_claim d = if claim_governs (world d.ctx) then send_cmd out pause_media d else d

  unfoldable pub enter : State → Entry → Daemon → Bool × Daemon
  unfolding pause_for_claim
  enter State.lid_open entry d = (true, put_edp out true (cancel_grace_timer d))
  enter docked entry d = (true, put_edp out false (cancel_grace_timer d))
  enter deferred entry d = (true, pause_for_claim (put_edp out false (cancel_grace_timer d)))
  enter countdown entry d = (true, start_grace_timer out (is_fresh entry) (put_edp out false d))
  enter suspending entry d = suspending_tail out (cancel_grace_timer d)

  unfoldable pub on_enter : State → Entry → Daemon → Bool × Daemon
  unfolding watch_claim enter
  on_enter state entry d = enter state entry (watch_claim state d)

  unfoldable pub sampled_claim : Option Bool → Daemon → Daemon
  sampled_claim none d = d
  sampled_claim (some held) d = with_main (record d.ctx.main { wayland_inhibitor = held }) d

  unfoldable pub refresh_wayland_claim : Daemon → Daemon
  unfolding sampled_claim
  refresh_wayland_claim d = sampled_claim (out.wayland_idle_inhibited d.asked) (tick d)

  unfoldable pub when_done : Bool → Bool × Daemon → Bool × Daemon
  when_done value (true, d) = (true, with_request value d)
  when_done value (false, d) = (false, d)

  unfoldable pub act_on_battery : BatteryLowAction → Daemon → Bool × Daemon
  unfolding when_done
  act_on_battery request d = when_done true (request_suspend out d)
  act_on_battery withdraw d = when_done false (clear_battery_low_request out d)
  act_on_battery hold d = (false, d)

  unfoldable pub battery_low_request_check : Daemon → Bool × Daemon
  unfolding battery_low_action act_on_battery
  battery_low_request_check d =
      act_on_battery
        (battery_low_action d.ctx.battery.low_battery d.ctx.main.on_ac d.ctx.battery.on_ac_settled
          d.ctx.main.suspend_requested)
        d

  -- A rejected suspend stays where it was and arms a fresh grace.
  unfoldable pub entered_or_retry : Bool × Daemon → Daemon
  entered_or_retry (true, d) = with_state suspending d
  entered_or_retry (false, d) = start_grace_timer out true d

  unfoldable pub transition : State → Daemon → Daemon
  unfolding entered_or_retry
  transition new d =
      if state_eq new suspending
      then entered_or_retry (on_enter suspending fresh d)
      else (on_enter new fresh (with_state new d)).1

  unfoldable pub follow : Option State → Daemon → Daemon
  unfolding transition
  follow none d = d
  follow (some new) d = if state_eq new d.ctx.main.state then d else transition new d

  unfoldable pub evaluate_fsms : EventKind → Daemon → Daemon
  unfolding follow
  evaluate_fsms kind d = follow (desired_state d.ctx.main.state kind (world d.ctx)) d
