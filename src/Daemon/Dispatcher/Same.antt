-- ===== src/Daemon/Dispatcher/Same.antt =====
-- A snapshot's reading that agrees with the context repairs nothing (`handle_reconcile_tick` of
-- src/daemon/dispatcher.rs).
use hyprstate.Prelude.{ℕ, ◌≡◌, Bool, some, arith}
use hyprstate.Daemon.Outside.{Outside, Daemon, request_standing}
use hyprstate.Daemon.Dispatcher.Handlers.{
  repair_lid, repair_request, repair_monitors, repair_logind, repair_wayland, repair_locked,
  repair_ac, Repaired,
}

module _ (out : Outside) (r : Repaired) (d : Daemon) where
  pub same_lid : (c : Bool) → c ≡ d.ctx.main.lid_closed → repair_lid out c (r, d) ≡ (r, d)
  unfolding repair_lid
  same_lid c e = ground arith

  pub same_request :
      request_standing out d ≡ d.ctx.main.suspend_requested → repair_request out (r, d) ≡ (r, d)
  unfolding repair_request
  same_request e = ground arith

  pub same_monitors : (n : ℕ) → n ≡ d.ctx.main.ext_mon_count → repair_monitors out n (r, d) ≡ (r, d)
  unfolding repair_monitors
  same_monitors n e = ground arith

  pub same_logind :
      (b : Bool) → b ≡ d.ctx.main.logind_inhibitor → repair_logind out b (r, d) ≡ (r, d)
  unfolding repair_logind
  same_logind b e = ground arith

  pub same_wayland :
      (b : Bool) → b ≡ d.ctx.main.wayland_inhibitor → repair_wayland out (some b) (r, d) ≡ (r, d)
  unfolding repair_wayland
  same_wayland b e = ground arith

  pub same_locked : (b : Bool) → b ≡ d.ctx.main.locked → repair_locked out (some b) (r, d) ≡ (r, d)
  unfolding repair_locked
  same_locked b e = ground arith

  pub same_ac : (b : Bool) → b ≡ d.ctx.main.on_ac → repair_ac out (some b) (r, d) ≡ (r, d)
  unfolding repair_ac
  same_ac b e = ground arith
