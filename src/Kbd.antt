-- ===== src/Kbd.antt =====
-- crates/hyprstate-fsm/src/kbd.rs: the keyboard backlight rule table and the level arithmetic.
use hyprstate.Prelude.{
  ℕ, ◌+◌, ◌-◌, ◌*◌, ◌/◌, ◌%◌, ◌^◌, Bool, true, false, not, ◌&&◌, ◌||◌, ltb, ◌==◌, if◌then◌else◌,
  F64, le_nat, ℤ, pos, negsuc, clamp,
}
pub mod Levels
mod Tests

abbrev pub default_kbd_idle_secs : ℕ
default_kbd_idle_secs = 10

abbrev pub max_kbd_idle_secs : ℕ
max_kbd_idle_secs = 600

abbrev pub default_kbd_dark_lux : ℕ
default_kbd_dark_lux = 10

abbrev pub default_kbd_level_pct : ℕ
default_kbd_level_pct = 50

abbrev pub kbd_level_step : ℕ
kbd_level_step = 10

pub record KbdInputs : Type 0 where
  pub locked : Bool
  pub sleeping : Bool
  pub typing : Bool
  pub dark : Bool
  pub override_armed : Bool

unfoldable pub kbd_lit : KbdInputs → Bool
kbd_lit w =
    if w.locked || w.sleeping
    then false
    else (if not w.typing then false else w.dark || w.override_armed)

unfoldable pub is_dark : F64 → ℕ → Bool
is_dark lux dark_lux = le_nat lux dark_lux

unfoldable pub override_after_idle : Bool → Bool → Bool
override_after_idle armed idled = armed && not idled

unfoldable pub clamp_level : ℤ → ℕ
clamp_level pct = clamp 0 100 pct

-- `level as i64 + delta`, where a difference below zero is a negative number.
abbrev shifted : ℕ → Bool → ℤ
shifted level up =
    if up
    then pos (level + kbd_level_step)
    else (if ltb level kbd_level_step
        then negsuc (kbd_level_step - level - 1)
        else pos (level - kbd_level_step))

unfoldable pub step_level : ℕ → Bool → ℕ
unfolding clamp_level
step_level level up = clamp_level (shifted level up)

-- `pct` is a u8 and `max` a u32; the product is a u64, and the quotient is cut to a u32.
unfoldable pub level_to_raw : ℕ → ℕ → ℕ
level_to_raw pct max =
    if pct == 0 || max == 0 then 0 else clamp 1 max (pos ((max * pct + 50) / 100 % 2 ^ 32))
