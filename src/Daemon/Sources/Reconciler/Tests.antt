-- ===== src/Daemon/Sources/Reconciler/Tests.antt =====
-- The reconciler at concrete passes.
use hyprstate.Prelude.{
  ◌≡◌, refl, inr, true, false, is_some, text_eq, trim_end, trim_start, is_space, codes, List, [],
  ◌∷◌, none, some, arith, length,
}
use hyprstate.Fsm.{deferred, countdown}
use hyprstate.Daemon.Ctx.{default_context, world}
use hyprstate.Daemon.Event.{ReconcileSnapshot}
use hyprstate.Daemon.Outside.{Daemon, Trigger, monitor_hotplug, profile_applied, request_standing}
use hyprstate.Daemon.Dispatcher.Handlers.{handle_reconcile_tick}
use hyprstate.Daemon.Dispatcher.Fixture.{granting, with_context}
use hyprstate.Daemon.Sources.Reconciler.{
  trigger_word, PassState, PassReadings, Turn, describe, gather, count_monitors, reconcile_task,
}
use hyprstate.Gpu.{text_le}
use hyprstate.Sysio.{on_ac_sysfs, on_ac_from_supplies}
use hyprstate.Daemon.Sources.Watchers.Loop.{watch}
use hyprstate.Daemon.Sources.Reconciler.Passes.{Passed, lidless-Passed}
use hyprstate.Daemon.Sources.Reconciler.LostClaim.{lost_list-drops_claim}

abbrev burst : List Trigger
burst = monitor_hotplug ∷ monitor_hotplug ∷ profile_applied ∷ []

describe_burst : describe burst ≡ codes "monitor hotplug, profile applied"
unfolding describe text_eq trigger_word
describe_burst = refl

-- Everything fails but the lid and the charger.
abbrev failing : PassReadings
failing = record {
  lid_closed = some true;
  monitors = none;
  inhibitors = none;
  wayland = some false;
  locked_hint = some false;
  supplies =
      some ((some (codes "Battery\n"), none) ∷ (some (codes "Mains\n"), some (codes "1\n")) ∷ []);
  cursor_pos = none;
}

abbrev nothing_read : PassReadings
nothing_read = record {
  lid_closed = none;
  monitors = none;
  inhibitors = none;
  wayland = none;
  locked_hint = none;
  supplies = none;
  cursor_pos = none;
}

abbrev boot_state : PassState
boot_state = record { ext_prev = 2; ticks = 0 }

abbrev two_turns : List Turn
two_turns =
    record { woken_by = none; burst = []; readings = nothing_read }
    ∷ record { woken_by = some profile_applied; burst = burst; readings = failing }
    ∷ []

lidless-Passed_example :
    Passed boot_state two_turns 256 (reconcile_task 256 false boot_state two_turns)
lidless-Passed_example = lidless-Passed 256 boot_state two_turns (omega arith)

lid_is_needed : length (reconcile_task 256 true boot_state two_turns).sent ≡ 1
unfolding reconcile_task watch
lid_is_needed = refl

mains_by_type :
    on_ac_from_supplies ((codes "Mains\n", codes "0\n") ∷ (codes "Battery\n", codes "\n") ∷ [])
    ≡ some false
unfolding on_ac_from_supplies text_eq trim_end trim_start is_space
mains_by_type = refl

-- A video keeps the machine awake through a lock of logind; the lid is closed.
abbrev claimed : Daemon
claimed = with_context (record default_context {
  main = record default_context.main {
    lid_closed = true;
    logind_inhibitor = true;
    state = deferred;
  };
})

abbrev failing_snap : ReconcileSnapshot
failing_snap = record {
  lid_closed = true;
  ext_mon_count = 0;
  logind_inhibitor = false;
  wayland_inhibitor = some false;
  locked = some false;
  on_ac = some true;
  edp_disabled = none;
  dpms_off = none;
  cursor_pos = none;
}

lost_list-drops_claim_example :
    ((handle_reconcile_tick granting failing_snap claimed).ctx.main.state ≡ countdown)
    × (is_some (handle_reconcile_tick granting failing_snap claimed).ctx.main.grace_timer ≡ true)
unfolding request_standing gather count_monitors on_ac_sysfs world text_le text_eq trim_end
    trim_start is_space
lost_list-drops_claim_example =
    lost_list-drops_claim granting true 0 failing failing_snap claimed refl
      (record {
        lid = refl;
        request = refl;
        monitors = refl;
        inhibitors = refl;
        wayland = refl;
        locked = refl;
        ac = refl;
      })
      (record { state = refl; wanted = inr (refl, refl, refl); logind = refl; wayland = refl })
