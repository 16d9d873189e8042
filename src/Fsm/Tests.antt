-- ===== src/Fsm/Tests.antt =====
-- The state machine's theorems at concrete worlds (crates/hyprstate-fsm/src/fsm.rs).
use hyprstate.Prelude.{◌≡◌, ◌↔◌, true, false}
use hyprstate.Fsm.{deferred, countdown, WorldInputs, world_state}
use hyprstate.Fsm.Ladder.{WantsSuspend, WantsPark, world_state_iff}

abbrev shut : WorldInputs
shut = record {
  lid_closed = true;
  ext_mon_count = 0;
  inhibitor = false;
  suspend_requested = false;
  locked = false;
  battery_low = false;
  lid_ac_hold = false;
}

abbrev claimed : WorldInputs
claimed = record shut { inhibitor = true }

world_state_iff_example :
    ((world_state claimed ≡ countdown) ↔ WantsSuspend claimed)
    × ((world_state claimed ≡ deferred) ↔ WantsPark claimed)
world_state_iff_example = world_state_iff claimed
