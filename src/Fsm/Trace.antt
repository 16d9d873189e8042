-- ===== src/Fsm/Trace.antt =====
-- Sequences of events through the main state machine (crates/hyprstate-fsm/src/fsm.rs): each
-- event comes with the world as it is read at that moment, as the tests' `drive` threads them.
use mathlib.Core.List.{Memᴰ}
use hyprstate.Prelude.{◌≡◌, refl, ◌≢◌, ◌⊎◌, inl, inr, List, [], ◌∷◌, some, none, unwrap_or, arith}
use hyprstate.Fsm.{
  State, suspending, EventKind, timer_expired, resumed, WorldInputs, world_state, desired_state,
}
use hyprstate.Fsm.Ladder.{WantsSuspend}

unfoldable pub step : State → EventKind × WorldInputs → State
step s (ev, w) = unwrap_or (desired_state s ev w) s

unfoldable pub run : State → List (EventKind × WorldInputs) → State
run s [] = s
run s (e ∷ es) = run (step s e) es

-- Outside `suspending` every event but the timer and the resume leaves the machine in the state
-- that the world asks for, whatever state it came from.
pub step-settles :
    (s : State) (ev : EventKind) (w : WorldInputs)
    → s ≢ suspending
    → ev ≢ timer_expired
    → ev ≢ resumed
    → step s (ev, w) ≡ world_state w
unfolding step desired_state
step-settles s timer_expired w a b c = absurd (b refl)
step-settles s resumed w a b c = absurd (c refl)
step-settles s ev w a b c = ground arith

step_cases :
    (s : State) (ev : EventKind) (w : WorldInputs)
    → s ≢ suspending
    → (step s (ev, w) ≢ suspending) ⊎ ((ev ≡ timer_expired) × WantsSuspend w)
unfolding step desired_state
step_cases s timer_expired w a = ground arith
step_cases s resumed w a = ground arith
step_cases s ev w a = ground arith

-- A machine that was awake can only have come to suspend by an expired timer at a moment when
-- the world wanted the suspend.
pub run-suspending :
    (s : State) (es : List (EventKind × WorldInputs))
    → s ≢ suspending
    → run s es ≡ suspending
    → (w : WorldInputs) × Memᴰ (timer_expired, w) es × WantsSuspend w
unfolding run
run-suspending s [] a h = absurd (a h)
run-suspending s ((ev, w) ∷ es) a h = elim (step_cases s ev w a) [
  | inl awake ↦
      (let (w', m, x) = run-suspending (step s (ev, w)) es awake h in (w', Memᴰ.tail m, x))
  | inr (e, x) ↦ (w, rw e (Memᴰ.head refl), x)
]

pub step-some :
    (s new : State) (ev : EventKind) (w : WorldInputs)
    → desired_state s ev w ≡ some new
    → step s (ev, w) ≡ new
unfolding step
step-some s new ev w h = rw h

pub step-none :
    (s : State) (ev : EventKind) (w : WorldInputs)
    → desired_state s ev w ≡ none
    → step s (ev, w) ≡ s
unfolding step
step-none s ev w h = rw h
