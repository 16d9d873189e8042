-- ===== src/Daemon/PowerPolicy/Override.antt =====
-- The manual power override over one policy evaluation (src/daemon/power_policy.rs).
use hyprstate.Prelude.{
  ◌≡◌, ◌⊎◌, refl, ◌∙◌, Bool, true, false, not, ◌&&◌, Option, none, some, arith, if◌then◌else◌,
  Bool-cases, inl, inr, ℕ,
}
use hyprstate.Power.{
  PowerProfile, BaseState, battery_low, base_eq, ac_axis, axis_eq, ac_side, battery_side,
}
use hyprstate.Daemon.Outside.{Notice, Outside, Daemon, send_cmd, notify}
use hyprstate.Daemon.Power.{
  apply_power_profile, clear_power_override, brightness_save_and_cap, brightness_cap,
  brightness_restore,
}
use hyprstate.Daemon.PowerPolicy.{
  expires, base_of, stamp_or_expire, check_override, when, edge, desired_profile, apply_and_edge,
  power_policy_check,
}

-- The override and its stamp are as before.
record Same (d e : Daemon) : Type 0 where
  override : e.ctx.policy.power_override ≡ d.ctx.policy.power_override
  stamp : e.ctx.policy.power_override_base ≡ d.ctx.policy.power_override_base

Same-refl : {d : Daemon} → Same d d
Same-refl = record { override = refl; stamp = refl }

Same-trans : {d e f : Daemon} → Same d e → Same e f → Same d f
Same-trans p q = record { override = q.override ∙ p.override; stamp = q.stamp ∙ p.stamp }

if-Same : (b : Bool) {d e f : Daemon} → Same d e → Same d f → Same d (if b then e else f)
if-Same true p q = p
if-Same false p q = q

-- A standing override carries a stamp on the same side of the charger as the base state, and one
-- of battery-low if that is the base state.
abbrev Holds : BaseState → BaseState → Type 0
Holds base s = (ac_axis s ≡ ac_axis base) × (base ≡ battery_low → s ≡ battery_low)

abbrev pub Stamped : BaseState → Daemon → Type 0
Stamped base d =
    (d.ctx.policy.power_override ≡ none)
    ⊎ ((s : BaseState) × (d.ctx.policy.power_override_base ≡ some s) × Holds base s)

expires-Holds : (base s : BaseState) → expires base s ≡ false → Holds base s
expires-Holds base s h = (ground arith, λ e. ground arith)

module _ (out : Outside) where
  apply_power_profile-Same : (p : PowerProfile) (d : Daemon) → Same d (apply_power_profile out p d)
  unfolding apply_power_profile
  apply_power_profile-Same p d = ground arith

  save-Same : (n : ℕ) (d : Daemon) → Same d (brightness_save_and_cap out n d)
  unfolding brightness_save_and_cap
  save-Same n d = ground arith

  cap-Same : (n : ℕ) (d : Daemon) → Same d (brightness_cap out n d)
  unfolding brightness_cap
  cap-Same n d = ground arith

  restore-Same : (d : Daemon) → Same d (brightness_restore out d)
  unfolding brightness_restore
  restore-Same d = ground arith

  when-Same :
      (b : Bool) (f : Daemon → Daemon) {d e : Daemon}
      → ((x : Daemon) → Same x (f x))
      → Same d e
      → Same d (when out b f e)
  unfolding when
  when-Same true f h s = Same-trans s (h _)
  when-Same false f h s = s

  edge-Same :
      (base : BaseState) (prev : Option BaseState) (d : Daemon) → Same d (edge out base prev d)
  unfolding edge
  edge-Same base none d = Same-refl
  edge-Same base (some prev) d = if-Same (base_eq prev base) Same-refl (
      when-Same (axis_eq (ac_axis prev) battery_side && axis_eq (ac_axis base) ac_side)
        (brightness_restore out) restore-Same
        (when-Same (base_eq base battery_low && not (base_eq prev battery_low))
          (brightness_cap out 4) (cap-Same 4)
          (when-Same (axis_eq (ac_axis prev) ac_side && axis_eq (ac_axis base) battery_side)
            (brightness_save_and_cap out 2) (save-Same 2) Same-refl)))

  apply_and_edge-Same : (base : BaseState) (d : Daemon) → Same d (apply_and_edge out base d)
  unfolding apply_and_edge
  apply_and_edge-Same base d =
      Same-trans (apply_power_profile-Same (desired_profile out base d.ctx.policy) d)
        (Same-trans (record { override = refl; stamp = refl }) (edge-Same base _ _))

  cleared :
      (c : Notice) (d : Daemon)
      → (send_cmd out (notify c) (clear_power_override out d)).ctx.policy.power_override ≡ none
  unfolding send_cmd clear_power_override
  cleared c d = ground arith

  stamp-Stamped :
      (base : BaseState) (p : PowerProfile) (o : Option BaseState) (d : Daemon)
      → d.ctx.policy.power_override_base ≡ o
      → Stamped base (stamp_or_expire out base p o d)
  unfolding stamp_or_expire
  stamp-Stamped base p none d e = inr (base, refl, (refl, λ h. h))
  stamp-Stamped base p (some s) d e = elim (Bool-cases (expires base s)) [
    | inl x ↦ inl (rw x (cleared _ d))
    | inr x ↦ inr (s, rw x e, expires-Holds base s x)
  ]

  check-Stamped :
      (base : BaseState) (o : Option PowerProfile) (d : Daemon)
      → d.ctx.policy.power_override ≡ o
      → Stamped base (check_override out base o d)
  unfolding check_override
  check-Stamped base none d e = inl e
  check-Stamped base (some p) d e = stamp-Stamped base p d.ctx.policy.power_override_base d refl

  Same-Stamped : (base : BaseState) (d e : Daemon) → Same d e → Stamped base d → Stamped base e
  Same-Stamped base d e s (inl x) = inl (s.override ∙ x)
  Same-Stamped base d e s (inr (b, x, y)) = inr (b, s.stamp ∙ x, y)

  -- After a policy evaluation there is no override, or it carries a stamp on the side of the charger
  -- that the base state of before has, and the stamp is battery-low if that base state is.
  pub power_policy_check-Stamped : (d : Daemon) → Stamped (base_of d.ctx) (power_policy_check out d)
  unfolding power_policy_check
  power_policy_check-Stamped d =
      Same-Stamped (base_of d.ctx) _ _ (apply_and_edge-Same (base_of d.ctx) _)
        (check-Stamped (base_of d.ctx) d.ctx.policy.power_override d refl)
