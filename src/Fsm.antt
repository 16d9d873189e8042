-- ===== src/Fsm.antt =====
-- crates/hyprstate-fsm/src/fsm.rs: the main lid and suspend state machine, the stuck-DPMS backstop
-- and the guard on turning the internal panel off. All are pure functions of plain inputs.
use hyprstate.Prelude.{
  ℕ, Bool, true, false, not, ◌&&◌, ◌||◌, Option, none, some, ltb, leb, ◌==◌, if◌then◌else◌,
}
pub mod Ladder
pub mod Trace
mod Tests

pub data State : Type 0 where
  lid_open docked deferred countdown suspending : State

pub data EventKind : Type 0 where
  lid_close lid_open monitor_added monitor_removed inhibitor_on inhibitor_off : EventKind
  lock_engaged lock_released ac_plugged ac_unplugged timer_expired resumed : EventKind
  suspend_requested suspend_cancelled reconcile monitors_changed ctx_repaired : EventKind
  platform_profile_changed gpu_override_changed battery_low_changed : EventKind
  power_override_changed power_ac_settled : EventKind

-- The derived equality of `State`.
abbrev state_tag : State → ℕ
state_tag lid_open = 0
state_tag docked = 1
state_tag deferred = 2
state_tag countdown = 3
state_tag suspending = 4

abbrev pub state_eq : State → State → Bool
state_eq s t = state_tag s == state_tag t

-- `ext_mon_count` is a u32 that is only compared.
pub record WorldInputs : Type 0 where
  pub lid_closed : Bool
  pub ext_mon_count : ℕ
  pub inhibitor : Bool
  pub suspend_requested : Bool
  pub locked : Bool
  pub battery_low : Bool
  pub lid_ac_hold : Bool

unfoldable pub claim_governs : WorldInputs → Bool
claim_governs w = w.inhibitor && not w.locked && not w.battery_low

unfoldable pub world_state : WorldInputs → State
unfolding claim_governs
world_state w =
    if w.suspend_requested
    then (if claim_governs w then deferred else countdown)
    else (if w.lid_closed && leb 1 w.ext_mon_count
        then docked
        else (if not w.lid_closed
            then State.lid_open
            else (if claim_governs w || w.lid_ac_hold then deferred else countdown)))

-- What an expired timer does in `countdown`: the world is derived again.
abbrev rederive : State → State
rederive target = if state_eq target countdown then suspending else target

unfoldable pub desired_state : State → EventKind → WorldInputs → Option State
unfolding world_state
desired_state state timer_expired w =
    if state_eq state countdown then some (rederive (world_state w)) else none
desired_state state resumed w = if state_eq state suspending then some (world_state w) else none
desired_state state ev w =
    if state_eq state suspending
    then none
    else (if state_eq (world_state w) state then none else some (world_state w))

pub record StuckScreenInputs : Type 0 where
  pub dpms_off : Bool
  pub locked : Bool
  pub cursor_moved : Bool

abbrev shows_something : State → Bool
shows_something State.lid_open = true
shows_something docked = true
shows_something _ = false

unfoldable pub dpms_stuck_off : State → StuckScreenInputs → Bool
dpms_stuck_off main s =
    if not s.dpms_off
    then false
    else (if not (shows_something main) then false else not s.locked || s.cursor_moved)

unfoldable pub edp_may_disable : ℕ → Bool
edp_may_disable ext_mon_count = ltb 0 ext_mon_count
