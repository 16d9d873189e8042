-- ===== src/Powerd/Knobs/Tests.antt =====
-- The knobs on a small kernel (src/powerd/knobs.rs).
use hyprstate.Prelude.{
  Bool, true, false, not, ◌&&◌, ◌≡◌, ◌≢◌, refl, arith, Text, codes, text_eq, text_eq_iff,
  trim_start, trim_end, is_space, [], ◌∷◌, none, ok, if◌then◌else◌, Bool-cases, inl, inr,
}
use hyprstate.Power.{power_saver}
use hyprstate.Gpu.{GpuCard, integrated_card, indexed, keep, min_vram}
use hyprstate.Powerd.Knobs.{SysfsPath, Kernel, unchanged, written, failed, merge_row, first_error}
use hyprstate.Powerd.Knobs.Rows.{dpm_knob, runtime_status}
use hyprstate.Powerd.Knobs.Apply.{powerd_apply}
use hyprstate.Powerd.Knobs.Asleep.{Sleeps}
use hyprstate.Powerd.Knobs.Whole.{powerd_apply-asleep}

-- A failed write is what a row of several policies reports, wherever it stands.
merged : merge_row (unchanged ∷ failed (codes "EIO") ∷ written ∷ []) ≡ failed (codes "EIO")
unfolding merge_row first_error
merged = refl

path_eq : SysfsPath → SysfsPath → Bool
path_eq [] [] = true
path_eq (a ∷ p) (b ∷ q) = text_eq a b && path_eq p q
path_eq _ _ = false

path_eq_sound : (p q : SysfsPath) → path_eq p q ≡ true → p ≡ q
unfolding path_eq
path_eq_sound [] [] h = refl
path_eq_sound [] (b ∷ q) h = absurd (ground arith)
path_eq_sound (a ∷ p) [] h = absurd (ground arith)
path_eq_sound (a ∷ p) (b ∷ q) h = ground (arith, (text_eq_iff a b).0, path_eq_sound p q)

-- The kernel is whether card1 is suspended. Its dpm knob wakes it, its status tells, and every other
-- file exists and holds "auto".
abbrev dgpu : Text
dgpu = codes "card1"

wake : SysfsPath → Bool → Bool
wake p k = k && not (path_eq p (dpm_knob dgpu))

content : SysfsPath → Bool → Text
content p k = if k && path_eq p (runtime_status dgpu) then codes "suspended\n" else codes "auto\n"

abbrev small : Kernel Bool
small = record {
  read = λ p k. (wake p k, ok (content p k));
  write = λ p v k. (wake p k, none);
  exists = λ p k. true;
}

wake-asleep : (p : SysfsPath) (k : Bool) → p ≢ dpm_knob dgpu → k ≡ true → wake p k ≡ true
unfolding wake
wake-asleep p k other h = elim (Bool-cases (path_eq p (dpm_knob dgpu))) [
  | inl e ↦ absurd (other (path_eq_sound p (dpm_knob dgpu) e))
  | inr e ↦ rw (e, h) refl
]

sleeps : Sleeps small dgpu (λ k. k)
unfolding content path_eq text_eq trim_start trim_end is_space
sleeps = record {
  says = λ k h. rw h refl;
  read_keeps = wake-asleep;
  write_keeps = λ p v. wake-asleep p;
}

abbrev igpu_card : GpuCard
igpu_card = record {
  path = codes "/dev/dri/by-path/pci-0000:c1:00.0-card";
  card = codes "card0";
  boot_vga = 1;
  vram = 512;
  external = 0;
  edp = 1;
}

abbrev dgpu_card : GpuCard
dgpu_card = record {
  path = codes "/dev/dri/by-path/pci-0000:03:00.0-card";
  card = dgpu;
  boot_vga = 0;
  vram = 8192;
  external = 0;
  edp = 0;
}

powerd_apply-asleep_example :
    (powerd_apply small power_saver true (codes "policy0" ∷ []) (igpu_card ∷ dgpu_card ∷ []) true).0
    ≡ true
unfolding integrated_card keep indexed min_vram text_eq
powerd_apply-asleep_example =
    powerd_apply-asleep small sleeps power_saver true (codes "policy0" ∷ [])
      (igpu_card ∷ dgpu_card ∷ []) true refl refl
