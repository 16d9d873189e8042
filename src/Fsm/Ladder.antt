-- ===== src/Fsm/Ladder.antt =====
-- What the world inputs mean for the main state: each rung of the ladder as a condition
-- (crates/hyprstate-fsm/src/fsm.rs).
use hyprstate.Prelude.{◌≡◌, ◌↔◌, ◌⊎◌, true, false, some, arith}
use hyprstate.Fsm.{
  State, deferred, countdown, suspending, EventKind, timer_expired, WorldInputs, world_state,
  desired_state,
}

-- A keep-awake claim that has authority, and the ways in which it has none.
abbrev pub Claim : WorldInputs → Type 0
Claim w = (w.inhibitor ≡ true) × (w.locked ≡ false) × (w.battery_low ≡ false)

abbrev pub NoClaim : WorldInputs → Type 0
NoClaim w = (w.inhibitor ≡ false) ⊎ (w.locked ≡ true) ⊎ (w.battery_low ≡ true)

-- A closed lid with no request and no external monitor.
abbrev pub LidTrigger : WorldInputs → Type 0
LidTrigger w = (w.suspend_requested ≡ false) × (w.lid_closed ≡ true) × (w.ext_mon_count ≡ 0)

abbrev pub WantsSuspend : WorldInputs → Type 0
WantsSuspend w =
    ((w.suspend_requested ≡ true) × NoClaim w)
    ⊎ (LidTrigger w × NoClaim w × (w.lid_ac_hold ≡ false))

abbrev pub WantsPark : WorldInputs → Type 0
WantsPark w =
    ((w.suspend_requested ≡ true) × Claim w) ⊎ (LidTrigger w × (Claim w ⊎ (w.lid_ac_hold ≡ true)))

-- The world asks for a suspend countdown exactly if no claim governs and either a request stands,
-- or none does and the lid is closed, undocked and not held by the charger.
pub world_state-countdown_iff : (w : WorldInputs) → (world_state w ≡ countdown) ↔ WantsSuspend w
unfolding world_state
world_state-countdown_iff w = (countdown_wants w, wants_countdown w)
  where
    countdown_wants : (w : WorldInputs) → world_state w ≡ countdown → WantsSuspend w
    countdown_wants w h = ground arith

    wants_countdown : (w : WorldInputs) → WantsSuspend w → world_state w ≡ countdown
    wants_countdown w h = ground arith

-- The world asks for `deferred` exactly if a request stands under a governing claim, or none stands
-- and a closed, undocked lid is held by a governing claim or by the charger.
pub world_state-deferred_iff : (w : WorldInputs) → (world_state w ≡ deferred) ↔ WantsPark w
unfolding world_state
world_state-deferred_iff w = (deferred_wants w, wants_deferred w)
  where
    deferred_wants : (w : WorldInputs) → world_state w ≡ deferred → WantsPark w
    deferred_wants w h = ground arith

    wants_deferred : (w : WorldInputs) → WantsPark w → world_state w ≡ deferred
    wants_deferred w h = ground arith

-- The world asks for the countdown exactly if no claim governs and either a request stands, or none
-- does and the lid is closed, undocked and not held by the charger. It asks for `deferred` exactly if
-- a request stands under a governing claim, or none stands and a closed, undocked lid is held by a
-- governing claim or by the charger.
pub world_state_iff :
    (w : WorldInputs)
    → ((world_state w ≡ countdown) ↔ WantsSuspend w) × ((world_state w ≡ deferred) ↔ WantsPark w)
world_state_iff w = (world_state-countdown_iff w, world_state-deferred_iff w)

-- The machine wants to suspend exactly for an expired timer in the countdown while the world
-- wants a suspend.
pub desired_state-suspending_iff :
    (s : State) (ev : EventKind) (w : WorldInputs)
    → (desired_state s ev w ≡ some suspending)
      ↔ ((s ≡ countdown) × (ev ≡ timer_expired) × WantsSuspend w)
unfolding desired_state
desired_state-suspending_iff s ev w = (to s ev w, from s ev w)
  where
    to :
        (s : State) (ev : EventKind) (w : WorldInputs)
        → desired_state s ev w ≡ some suspending
        → (s ≡ countdown) × (ev ≡ timer_expired) × WantsSuspend w
    to s timer_expired w h = ground arith
    to s ev w h = ground arith

    from :
        (s : State) (ev : EventKind) (w : WorldInputs)
        → (s ≡ countdown) × (ev ≡ timer_expired) × WantsSuspend w
        → desired_state s ev w ≡ some suspending
    from s timer_expired w h = ground arith
    from s ev w h = ground arith

-- An expired timer that finds no reason to suspend goes where the world puts it.
pub desired_state-expired :
    (w : WorldInputs)
    → (WantsSuspend w → ⊥)
    → desired_state countdown timer_expired w ≡ some (world_state w)
unfolding desired_state
desired_state-expired w h = away (λ e. h ((world_state-countdown_iff w).0 e))
  where
    away :
        (world_state w ≡ countdown → ⊥)
        → desired_state countdown timer_expired w ≡ some (world_state w)
    away n = ground arith
