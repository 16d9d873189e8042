-- ===== src/Power/Tests.antt =====
-- The power theorems at concrete values (crates/hyprstate-fsm/src/power.rs).
use hyprstate.Prelude.{◌≡◌, ◌+◌, some, none, [], ◌∷◌, codes}
use hyprstate.Power.{power_saver, is_self_write, in_window, no_writes}
use hyprstate.Power.SelfWrites.{registers, asks, use_all, history-in_window}

history-in_window_example :
    let (clock, t) = use_all (0, no_writes) (registers 10 power_saver ∷ asks 20 none ∷ []) in
    (is_self_write t (clock + 40) (some (codes "quiet"))).0 ≡ in_window t.last_apply (clock + 40)
history-in_window_example =
    history-in_window 0 (registers 10 power_saver ∷ asks 20 none ∷ []) 40 (some (codes "quiet"))
