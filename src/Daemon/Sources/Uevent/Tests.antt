-- ===== src/Daemon/Sources/Uevent/Tests.antt =====
-- Uevents at concrete datagrams (src/daemon/sources/uevent.rs), with ASCII for UTF-8.
use hyprstate.Prelude.{◌≡◌, refl, codes, starts_with, strip_prefix, cut, [], ◌∷◌, ◌++◌, some, none}
use hyprstate.Daemon.Sources.Uevent.{
  Bytes, parse_uevent, of_parts, split_nul, not_empty, subsystem_of,
}

abbrev supply : Bytes
supply =
    codes "change@/devices/ac"
    ++ (0 ∷ codes "ACTION=change")
    ++ (0 ∷ codes "SUBSYSTEM=power_supply")
    ++ 0 ∷ []

parses :
    parse_uevent some supply
    ≡ some (record {
      action = codes "change";
      devpath = codes "/devices/ac";
      subsystem = codes "power_supply";
    })
unfolding parse_uevent of_parts split_nul not_empty subsystem_of starts_with strip_prefix cut
parses = refl

-- udevd's own framing has no header with an at sign.
refuses_udev : parse_uevent some (codes "libudev" ++ 0 ∷ codes "SUBSYSTEM=leds") ≡ none
unfolding parse_uevent of_parts split_nul not_empty subsystem_of starts_with strip_prefix cut
refuses_udev = refl
