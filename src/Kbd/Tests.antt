-- ===== src/Kbd/Tests.antt =====
-- The brightness arithmetic at concrete levels (crates/hyprstate-fsm/src/kbd.rs).
use hyprstate.Prelude.{◌≡◌, ◌⊎◌, ◌≤◌, ◌+◌, ◌*◌, arith}
use hyprstate.Kbd.{level_to_raw}
use hyprstate.Kbd.Levels.{level_to_raw_bounds}

level_to_raw_bounds_example :
    (1 ≤ level_to_raw 50 3)
    × (level_to_raw 50 3 ≤ 3)
    × (3 * 50 ≤ 100 * level_to_raw 50 3 + 50)
    × ((100 * level_to_raw 50 3 ≤ 3 * 50 + 50) ⊎ (level_to_raw 50 3 ≡ 1))
level_to_raw_bounds_example =
    level_to_raw_bounds 50 3 (omega arith) (omega arith) (omega arith) (omega arith)
