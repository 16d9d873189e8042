-- ===== src/Power/Hysteresis.antt =====
-- The battery-low flag of crates/hyprstate-fsm/src/power.rs between the sample that raises it and the one that clears it.
use hyprstate.Prelude.{ℕ, suc, ◌+◌, ◌*◌, ◌%◌, ◌≤◌, ◌≡◌, true, false, frac, arith}
use hyprstate.Power.{battery_low_step}

-- To raise the flag and to clear it again takes two samples three points apart.
pub flips_apart :
    (n d m e threshold : ℕ)
    → threshold ≤ 50
    → battery_low_step false (frac n d) threshold ≡ true
    → battery_low_step true (frac m e) threshold ≡ false
    → (n ≤ threshold * suc d) × ((threshold + 3) * suc e ≤ m)
unfolding battery_low_step
flips_apart n d m e threshold b h k =
    let x : (threshold + 3) % 256 ≡ threshold + 3 = omega arith in ground (arith, rw x at k)
