-- ===== src/Daemon/Kbd/Dark.antt =====
-- A locked or sleeping session keeps its keys dark (src/daemon/kbd_policy.rs).
use hyprstate.Prelude.{
  ℕ, suc, ◌≡◌, ◌⊎◌, refl, ◌∙◌, Bool, true, false, not, Option, none, some, Text, arith, List, [],
  ◌∷◌, F64, if◌then◌else◌,
}
use hyprstate.Kbd.{kbd_lit, level_to_raw}
use hyprstate.Daemon.Ctx.{kbd_active}
use hyprstate.Daemon.Outside.{Outside, Daemon, Write, led_written, tick}
use hyprstate.Daemon.Kbd.{
  inputs_of, set_raw, set_led, kbd_set, kbd_write_status, sampled, decide_keys, kbd_policy_check,
}

abbrev lights_up : Write → Bool
lights_up (led_written (suc n)) = true
lights_up _ = false

-- How often the keys were lit.
abbrev pub lights : List Write → ℕ
lights [] = 0
lights (w ∷ ws) = let rest = lights ws in if lights_up w then suc rest else rest

abbrev pub MustBeDark : Daemon → Type 0
MustBeDark d = (d.ctx.main.locked ≡ true) ⊎ (d.ctx.kbd.kbd_sleeping ≡ true)

unlit : (d : Daemon) → MustBeDark d → kbd_lit (inputs_of d.ctx.main d.ctx.kbd) ≡ false
unfolding kbd_lit inputs_of
unlit d h = ground arith

no_light : (max : ℕ) → level_to_raw 0 max ≡ 0
unfolding level_to_raw
no_light max = ground arith

module _ (out : Outside) where
  set_raw-lights : (d : Daemon) → lights (set_raw out 0 d).writes ≡ lights d.writes
  unfolding set_raw
  set_raw-lights d = ground arith

  set_led-lights :
      (o : Option (Text × ℕ)) (d : Daemon) → lights (set_led out o 0 d).writes ≡ lights d.writes
  unfolding set_led
  set_led-lights none d = refl
  set_led-lights (some (name, max)) d = rw (no_light max) (set_raw-lights d)

  status-lights :
      (b : Bool) (d : Daemon) → lights (kbd_write_status out b d).writes ≡ lights d.writes
  unfolding kbd_write_status
  status-lights b d = ground arith

  decide-lights : (d : Daemon) → MustBeDark d → lights (decide_keys out d).writes ≡ lights d.writes
  unfolding decide_keys kbd_set kbd_write_status
  decide-lights d h = rw (unlit d h) (status-lights false _ ∙ set_led-lights d.ctx.kbd.kbd_led d)

  sampled-dark : (o : Option F64) (d : Daemon) → MustBeDark d → MustBeDark (sampled out o d)
  unfolding sampled
  sampled-dark none d h = h
  sampled-dark (some lux) d h = h

  sampled-lights : (o : Option F64) (d : Daemon) → lights (sampled out o d).writes ≡ lights d.writes
  unfolding sampled
  sampled-lights none d = refl
  sampled-lights (some lux) d = refl

  looked : Bool → Daemon → Daemon
  looked sample d = if sample then sampled out (out.read_lux d.asked) (tick d) else d

  looked-dark : (sample : Bool) (d : Daemon) → MustBeDark d → MustBeDark (looked sample d)
  unfolding looked
  looked-dark true d h = sampled-dark (out.read_lux d.asked) (tick d) h
  looked-dark false d h = h

  looked-lights : (sample : Bool) (d : Daemon) → lights (looked sample d).writes ≡ lights d.writes
  unfolding looked
  looked-lights true d = sampled-lights (out.read_lux d.asked) (tick d)
  looked-lights false d = refl

  if-lights :
      (b : Bool) (d e : Daemon)
      → lights e.writes ≡ lights d.writes
      → lights (if b then d else e).writes ≡ lights d.writes
  if-lights true d e h = refl
  if-lights false d e h = h

  -- While the session is locked or about to sleep, no evaluation of the keyboard policy lights the
  -- keys.
  pub kbd_policy_check-lights :
      (sample : Bool) (d : Daemon)
      → MustBeDark d
      → lights (kbd_policy_check out sample d).writes ≡ lights d.writes
  unfolding kbd_policy_check looked
  kbd_policy_check-lights sample d h =
      if-lights (not (kbd_active d.ctx.kbd)) d _
        (decide-lights (looked sample d) (looked-dark sample d h) ∙ looked-lights sample d)
