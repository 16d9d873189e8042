-- ===== src/Powerd/Knobs/Pin.antt =====
-- The pin of the discrete GPU's runtime power management, the helper's state files and its probe
-- (src/powerd/knobs.rs).
use hyprstate.Prelude.{
  ℕ, ◌==◌, leb, Bool, true, false, Text, codes, text_eq, trim, length, List, [], ◌∷◌, ◌++◌, Option,
  none, some, Result, ok, err, if◌then◌else◌,
}
use hyprstate.Power.{PowerProfile, balanced, from_str}
use hyprstate.Gpu.{GpuCard, Indexed, integrated_card, indexed}
use hyprstate.Powerd.Knobs.{
  ReadError, WriteError, skipped_ambiguous, Kernel, split_whitespace, Results, insert, knob_write,
}
use hyprstate.Powerd.Knobs.Rows.{device_file, pci_key, aspm_policy_path}
use hyprstate.Powerd.Knobs.Apply.{aspm_current}

-- What the two state files stand for; an error is none.
abbrev first_word : List Text → Option Text
first_word [] = none
first_word (w ∷ ws) = some w

abbrev profile_or_balanced : Option PowerProfile → PowerProfile
profile_or_balanced none = balanced
profile_or_balanced (some p) = p

abbrev profile_word : Option Text → PowerProfile
profile_word none = balanced
profile_word (some w) = profile_or_balanced (from_str w)

unfoldable pub persisted_profile : Option Text → PowerProfile
persisted_profile none = balanced
persisted_profile (some text) = profile_word (first_word (split_whitespace text))

unfoldable pub persisted_dgpu_pin : Option Text → Bool
persisted_dgpu_pin none = false
persisted_dgpu_pin (some s) = text_eq (trim s) (codes "on")

-- What the pin writes to its file.
abbrev pub pin_text : Bool → Text
pin_text awake = if awake then codes "on\n" else codes "auto\n"

module _ {K : Type 0} (fs : Kernel K) where
  unfoldable pub pin_row : Text → ℕ → Indexed → Results → K → K × Results
  pin_row value integrated (i, c) res k =
      if i == integrated
      then (k, res)
      else (let (k1, s) = knob_write fs (device_file c.card (codes "power/control")) value k in
          (k1, insert (codes "runtime_pm:" ++ pci_key c.path) s res))

  unfoldable pub pin_rows : Text → ℕ → List Indexed → Results → K → K × Results
  pin_rows value integrated [] res k = (k, res)
  pin_rows value integrated (c ∷ cs) res k =
      let (k1, r1) = pin_row value integrated c res k in pin_rows value integrated cs r1 k1

  abbrev pin_with : Bool → List GpuCard → Option Indexed → K → K × Results
  pin_with awake cards none k = (k, insert (codes "runtime_pm") skipped_ambiguous [])
  pin_with awake cards (some (i, c)) k =
      pin_rows (if awake then codes "on" else codes "auto") i (indexed 0 cards) [] k

  unfoldable pub apply_dgpu_runtime_pm : Bool → List GpuCard → K → K × Results
  apply_dgpu_runtime_pm awake cards k =
      pin_with awake cards (if leb 2 (length cards) then integrated_card cards else none) k

  abbrev accepted : Option WriteError → Bool
  accepted none = true
  accepted (some e) = false

  abbrev probe_value : Option Text → K → K × Bool
  probe_value none k = (k, false)
  probe_value (some cur) k = let (k1, e) = fs.write aspm_policy_path cur k in (k1, accepted e)

  abbrev probe_read : K × Result ReadError Text → K × Bool
  probe_read (k, err e) = (k, false)
  probe_read (k, ok opts) = probe_value (aspm_current opts) k

  unfoldable pub aspm_writability_probe : K → K × Bool
  aspm_writability_probe k = probe_read (fs.read aspm_policy_path k)
