-- ===== src/Gpu/Tests.antt =====
-- The device selection at a laptop with two cards (crates/hyprstate-fsm/src/gpu.rs).
use hyprstate.Prelude.{◌≢◌, true, false, codes, [], ◌∷◌}
use hyprstate.Gpu.{GpuCard, GpuSnapshot, GpuMode, GpuModeSource, panics, gpu_desired}
use hyprstate.Gpu.Select.{gpu_desired-safe}

abbrev internal : GpuCard
internal = record {
  path = codes "0000:c1";
  card = codes "card1";
  boot_vga = 1;
  vram = 512;
  external = 0;
  edp = 1;
}

abbrev discrete : GpuCard
discrete = record {
  path = codes "0000:03";
  card = codes "card0";
  boot_vga = 0;
  vram = 8192;
  external = 1;
  edp = 0;
}

abbrev laptop : GpuSnapshot
laptop = record { cards = discrete ∷ internal ∷ []; non_pci_display = false; lid_closed = true }

gpu_desired-safe_example : (gpu_desired laptop GpuMode.auto GpuModeSource.from_default).1 ≢ panics
gpu_desired-safe_example = gpu_desired-safe laptop GpuMode.auto GpuModeSource.from_default
