-- ===== src/SleepHook/Tests.antt =====
-- The rebind at a concrete touchpad (src/sleep_hook.rs).
use hyprstate.Prelude.{ℕ, ◌-◌, ◌==◌, ◌≡◌, refl, arith, Bool, true, false, [], ◌∷◌}
use hyprstate.SleepHook.{
  Sysfs, unbind_first, attempt, attempts, rebind_touchpad, rebound, attempt_failed,
}
use hyprstate.SleepHook.Rebind.{Agrees, rebind_touchpad-Agrees, rebind_touchpad-heals}

-- A touchpad that is bound or not, and whose controller needs some more waits before a bind succeeds.
abbrev Touchpad : Type 0
Touchpad = Bool × ℕ

abbrev slow : Sysfs Touchpad
slow = record {
  present = λ k. true;
  bound = λ k. k.0;
  unbind = λ k. ((false, k.1), true);
  bind = λ k. ((k.1 == 0, k.1), k.1 == 0);
  sleep = λ ms k. (k.0, k.1 - 1);
}

rebind_touchpad-Agrees_example : Agrees (attempt_failed 1 ∷ attempt_failed 2 ∷ rebound 3 ∷ []) true
unfolding rebind_touchpad attempts attempt unbind_first
rebind_touchpad-Agrees_example = rebind_touchpad-Agrees slow (true, 2) refl

rebind_touchpad-heals_example : (rebind_touchpad slow (true, 2)).0.0 ≡ true
unfolding attempt unbind_first
rebind_touchpad-heals_example = rebind_touchpad-heals slow 2 (true, 2) (omega arith) refl refl
