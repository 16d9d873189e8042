-- ===== src/Daemon/Sources/Watchers/Tests.antt =====
-- The watchers at concrete streams.
use hyprstate.Prelude.{
  ◌≡◌, ◌↔◌, refl, Bool, true, false, Text, codes, text_eq, strip_prefix, starts_with, cut, List, [],
  ◌∷◌, Option, none, some,
}
use hyprstate.Daemon.Event.{lid, sleeping, resumed, inhibitor, ac_changed, lock_changed}
use hyprstate.Daemon.Sources.Watchers.{
  Row, Changed, hotplug, reloaded, hypr_socket_reader, lid_watcher, ac_watcher, lock_watcher,
  sleep_watcher, logind_has_real_idle_block, logind_inhibitor_watcher, battery_initial,
  wayland_claim_watch,
}
use hyprstate.Daemon.Sources.Watchers.Loop.{subscribe, subscribe_each, watch_each}
use hyprstate.Daemon.Sources.Watchers.Streams.{joined}
use hyprstate.Daemon.Sources.Watchers.Told.{watchers_in_order}
use hyprstate.Daemon.Sources.Watchers.Claims.{Claimed, real_idle_block_iff}
use hyprstate.Daemon.Sources.Watchers.Edges.{
  Current, last_reading, logind_inhibitor_watcher-Current,
}

abbrev row : Text → Text → Text → Row
row what who mode = record { what = what; who = who; mode = mode }

-- The rows of the source's regression test.
abbrev boot_rows : List Row
boot_rows =
    row (codes "sleep") (codes "hypridle") (codes "delay")
    ∷ row (codes "sleep") (codes "hypridle") (codes "block")
    ∷ row (codes "handle-lid-switch") (codes "hyprstate") (codes "block")
    ∷ row (codes "sleep") (codes "NetworkManager") (codes "delay")
    ∷ []

abbrev browser : Row
browser = row (codes "shutdown:idle") (codes "firefox") (codes "block")

no_claim_at_boot : logind_has_real_idle_block boot_rows ≡ false
unfolding logind_has_real_idle_block text_eq
no_claim_at_boot = refl

real_idle_block_iff_example :
    (logind_has_real_idle_block (browser ∷ boot_rows) ≡ true) ↔ Claimed (browser ∷ boot_rows)
real_idle_block_iff_example = real_idle_block_iff (browser ∷ boot_rows)

-- One stream ends, one subscription fails, and the last send fails.
abbrev nights : List (Option (List (Option Bool)))
nights = some (some true ∷ none ∷ []) ∷ none ∷ some (some false ∷ some true ∷ []) ∷ []

sleeps_and_wakes : (sleep_watcher 2 nights).sent ≡ sleeping ∷ resumed ∷ []
unfolding sleep_watcher subscribe_each
sleeps_and_wakes = refl

abbrev flips : List (Option Bool)
flips = some false ∷ some true ∷ none ∷ some false ∷ some true ∷ []

watchers_in_order_example :
    ((lid_watcher 2 flips).sent ≡ lid true ∷ lid false ∷ [])
    × ((ac_watcher 2 flips).sent ≡ ac_changed false ∷ ac_changed true ∷ [])
    × ((lock_watcher 2 true flips).sent ≡ lock_changed true ∷ lock_changed false ∷ [])
    × ((sleep_watcher 2 nights).sent ≡ sleeping ∷ resumed ∷ [])
watchers_in_order_example = watchers_in_order 2 true flips flips flips nights

abbrev manager_signal : List Row → Option Changed
manager_signal rows = some (record {
  interface_name = codes "org.freedesktop.login1.Manager";
  names = codes "BlockInhibited" ∷ [];
  rows = some rows;
})

abbrev afternoon : List (Option (List (Option Changed)))
afternoon =
    some (manager_signal boot_rows ∷ manager_signal (browser ∷ boot_rows) ∷ [])
    ∷ none
    ∷ some (manager_signal (browser ∷ []) ∷ none ∷ manager_signal [] ∷ [])
    ∷ []

afternoon_left : (logind_inhibitor_watcher 256 false afternoon).left ≡ some 254
unfolding logind_inhibitor_watcher subscribe text_eq
afternoon_left = refl

logind_inhibitor_watcher-Current_example :
    Current false
      (last_reading false (joined afternoon))
      (logind_inhibitor_watcher 256 false afternoon)
logind_inhibitor_watcher-Current_example =
    logind_inhibitor_watcher-Current 256 false afternoon 254 afternoon_left

first_value_is_skipped : (lid_watcher 256 (some true ∷ some false ∷ [])).sent ≡ lid false ∷ []
unfolding lid_watcher watch_each
first_value_is_skipped = refl

monitor_lines :
    (hypr_socket_reader 256 (
      none
      ∷ some (
          codes "monitoraddedv2>>1,DP-1,Dell"
          ∷ codes "workspace>>2"
          ∷ codes "configreloaded>>"
          ∷ [])
      ∷ [])).sent
    ≡ hotplug true (codes "DP-1") ∷ reloaded ∷ []
unfolding hypr_socket_reader subscribe_each strip_prefix starts_with cut
monitor_lines = refl

battery_of_a_mouse : battery_initial (some true) (some 5) none ≡ none
unfolding battery_initial
battery_of_a_mouse = refl

claim_is_released :
    wayland_claim_watch (some true ∷ none ∷ some false ∷ []) ≡ some (inhibitor true false)
unfolding wayland_claim_watch
claim_is_released = refl
