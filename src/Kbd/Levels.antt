-- ===== src/Kbd/Levels.antt =====
-- The brightness arithmetic of crates/hyprstate-fsm/src/kbd.rs.
use hyprstate.Prelude.{ℕ, ◌+◌, ◌*◌, ◌^◌, ◌≤◌, ◌<◌, ◌≡◌, ◌⊎◌, Bool, true, false, arith}
use hyprstate.Kbd.{step_level, level_to_raw}

-- A step up and a step down undo one another between 10 and 90 percent.
pub step_level_back :
    (level : ℕ)
    → 10 ≤ level
    → level ≤ 90
    → (step_level (step_level level true) false ≡ level)
      × (step_level (step_level level false) true ≡ level)
unfolding step_level
step_level_back level h k = (ground arith, ground arith)

-- A step from a level on the scale stays on the scale.
pub step_level_bounds : (level : ℕ) (up : Bool) → level ≤ 100 → step_level level up ≤ 100
unfolding step_level
step_level_bounds level up h = ground arith

product-le : (pct max : ℕ) → pct ≤ 100 → max * pct ≤ max * 100
product-le pct max h = grind arith

-- The raw value for 1 to 100 percent of an LED's scale that a u32 holds is at least 1, lies on the
-- scale, is at most half a step below the exact share, and is at most half a step above it or 1.
pub level_to_raw_bounds :
    (pct max : ℕ)
    → 0 < pct
    → pct ≤ 100
    → 0 < max
    → max < 2 ^ 32
    → (1 ≤ level_to_raw pct max)
      × (level_to_raw pct max ≤ max)
      × (max * pct ≤ 100 * level_to_raw pct max + 50)
      × ((100 * level_to_raw pct max ≤ max * pct + 50) ⊎ (level_to_raw pct max ≡ 1))
unfolding level_to_raw
level_to_raw_bounds pct max a b c d = ground (arith, product-le pct max b)
