-- ===== src/GpuCmd/Tests.antt =====
-- `gpu select` on a laptop with a docked discrete card.
use hyprstate.Prelude.{
  ◌≡◌, refl, true, Text, text_eq, trim_start, trim_end, is_space, starts_with, cut, strip_prefix,
  codes, List, [], ◌∷◌, ◌++◌, some,
}
use hyprstate.Gpu.{
  auto, from_default, devnode, gpu_desired, text_le, GpuSnapshot, sort_cards, place,
}
use hyprstate.GpuCmd.{gpu_run}
use hyprstate.Sysio.{
  Connector, Link, gpu_snapshot, read_int, from_str_radix, scan_u64, connected_outputs,
}
use hyprstate.GpuCmd.Printed.{Sound, gpu_run-Sound}

abbrev connectors : List Connector
connectors =
    record { conn = codes "card1-eDP-2"; status = some (codes "connected\n") }
    ∷ record { conn = codes "card0-DP-1"; status = some (codes "connected\n") }
    ∷ record { conn = codes "card0-Writeback-1"; status = some (codes "connected\n") }
    ∷ []

abbrev link_of : Text → Text → Text → Text → Link
link_of name card vga vram = record {
  path = codes "/dev/dri/by-path/" ++ name;
  name = name;
  card = card;
  class = some (codes "0x030000\n");
  boot_vga = some vga;
  vram = some vram;
}

abbrev links : List Link
links =
    link_of (codes "pci-0000:c4:00.0-card") (codes "card1") (codes "1\n") (codes "0x20000000\n")
    ∷ link_of (codes "pci-0000:03:00.0-card") (codes "card0") (codes "0\n") (codes "8589934592\n")
    ∷ link_of (codes "pci-0000:03:00.0-card") (codes "card0") (codes "0\n") (codes "8589934592\n")
    ∷ []

abbrev docked : GpuSnapshot
docked = gpu_snapshot connectors (some (codes "state: open\n") ∷ []) links

hex_is_read : read_int (some (codes "0x20000000\n")) 0 ≡ 536870912
unfolding read_int from_str_radix scan_u64 strip_prefix trim_end trim_start is_space
hex_is_read = refl

junk_is_default : read_int (some (codes "12x\n")) 7 ≡ 7
unfolding read_int from_str_radix scan_u64 strip_prefix trim_end trim_start is_space
junk_is_default = refl

abbrev both : List Text
both = codes "/dev/dri/card0" ∷ codes "/dev/dri/card1" ∷ []

docked_prints : (gpu_run true auto from_default (λ d. true) docked docked).printed ≡ some both
unfolding gpu_run gpu_desired gpu_snapshot text_eq text_le starts_with trim_end trim_start is_space
    strip_prefix sort_cards place devnode
docked_prints = refl

gpu_run-Sound_example :
    Sound true auto from_default
      (λ d. true)
      (gpu_run true auto from_default (λ d. true) docked docked)
      both
gpu_run-Sound_example =
    gpu_run-Sound true auto from_default (λ d. true) docked docked both docked_prints

outputs_by_connector :
    connected_outputs connectors
    ≡ (codes "DP-1", codes "card0") ∷ (codes "eDP-2", codes "card1") ∷ []
unfolding connected_outputs cut starts_with text_eq trim_end trim_start is_space text_le
outputs_by_connector = refl
