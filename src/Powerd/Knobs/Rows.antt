-- ===== src/Powerd/Knobs/Rows.antt =====
-- The rows of `powerd_apply` (src/powerd/knobs.rs). The GPU snapshot and the entries of the cpufreq
-- directory are given, since they are read from other files.
use hyprstate.Prelude.{
  ℕ, ◌==◌, leb, not, Text, codes, text_eq, any, length, trim, is_empty, List, [], ◌∷◌, ◌++◌, Option,
  none, some, Result, ok, err, if◌then◌else◌,
}
use hyprstate.Power.{PowerProfile, power_saver, profile_eq, platform_profile_chain}
use hyprstate.Gpu.{GpuCard, Indexed, integrated_card, indexed}
use hyprstate.Powerd.Knobs.{
  boost, dgpu_dpm, SysfsPath, ReadError, Status, skipped_missing, skipped_unsupported,
  skipped_suspended, skipped_ambiguous, Kernel, split_whitespace, Results, insert, knob_write,
  read_or_default,
}

-- `path.rsplit('/').next()`: what stands behind the last slash.
unfoldable base_name : Text → Text → Text
base_name best [] = best
base_name best (c ∷ t) = if c == b'/' then base_name t t else base_name best t

-- `base.strip_suffix("-card").unwrap_or(base)`.
unfoldable strip_card : Text → Text
strip_card [] = []
strip_card (c ∷ t) =
    let rest = strip_card t in if text_eq (c ∷ t) (codes "-card") then [] else c ∷ rest

unfoldable pub pci_key : Text → Text
unfolding base_name strip_card
pci_key path = strip_card (base_name path path)

abbrev pub cpufreq : SysfsPath
cpufreq = codes "/sys/devices/system/cpu/cpufreq" ∷ []

abbrev pub platform_profile_path : SysfsPath
platform_profile_path = codes "/sys/firmware/acpi/platform_profile" ∷ []

abbrev pub platform_choices_path : SysfsPath
platform_choices_path = codes "/sys/firmware/acpi/platform_profile_choices" ∷ []

abbrev pub aspm_policy_path : SysfsPath
aspm_policy_path = codes "/sys/module/pcie_aspm/parameters/policy" ∷ []

abbrev pub no_turbo_path : SysfsPath
no_turbo_path = codes "/sys/devices/system/cpu/intel_pstate/no_turbo" ∷ []

abbrev pub device_file : Text → Text → SysfsPath
device_file card file = codes "/sys/class/drm" ∷ card ∷ codes "device" ∷ file ∷ []

abbrev pub dpm_knob : Text → SysfsPath
dpm_knob card = device_file card (codes "power_dpm_force_performance_level")

abbrev pub runtime_status : Text → SysfsPath
runtime_status card = device_file card (codes "power/runtime_status")

module _ {K : Type 0} (fs : Kernel K) where
  -- `chain.iter().find(|v| choices.contains(v))`.
  unfoldable pub first_choice : List Text → List Text → Option Text
  first_choice [] choices = none
  first_choice (v ∷ vs) choices =
      let rest = first_choice vs choices in if any (text_eq v) choices then some v else rest

  abbrev pub write_target : SysfsPath → Option Text → K → K × Status
  write_target p none k = (k, skipped_unsupported)
  write_target p (some v) k = knob_write fs p v k

  unfoldable pub platform_row : PowerProfile → Results → K → K × Results
  platform_row profile res k =
      if not (fs.exists platform_profile_path k)
      then (k, insert (codes "platform_profile") skipped_missing res)
      else (let (k1, choices) = read_or_default fs platform_choices_path k in
          let target = first_choice (platform_profile_chain profile) (split_whitespace choices) in
          let (k2, status) = write_target platform_profile_path target k1 in
          (k2, insert (codes "platform_profile") status res))

  unfoldable pub boost_row : PowerProfile → Results → K → K × Results
  boost_row profile res k =
      let boost_path = cpufreq ++ codes "boost" ∷ [] in
      if fs.exists boost_path k
      then (let (k1, s) = knob_write fs boost_path (boost profile) k in
          (k1, insert (codes "boost") s res))
      else (if fs.exists no_turbo_path k
          then (let (k1, s) =
                knob_write fs no_turbo_path
                  (if profile_eq profile power_saver then codes "1" else codes "0") k in
              (k1, insert (codes "no_turbo") s res))
          else (k, insert (codes "boost") skipped_missing res))

  -- One card that is not the integrated one, once its runtime status is read.
  unfoldable pub discrete_row : PowerProfile → Text → K × Result ReadError Text → K × Status
  discrete_row profile card (k, err e) = (k, skipped_missing)
  discrete_row profile card (k, ok s) =
      if text_eq (trim s) (codes "suspended")
      then (k, skipped_suspended)
      else knob_write fs (dpm_knob card) (dgpu_dpm profile) k

  unfoldable pub card_row : PowerProfile → ℕ → Indexed → K → K × Status
  card_row profile integrated (i, c) k =
      if i == integrated
      then knob_write fs (dpm_knob c.card) (codes "auto") k
      else discrete_row profile c.card (fs.read (runtime_status c.card) k)

  unfoldable pub card_rows : PowerProfile → ℕ → List Indexed → Results → K → K × Results
  card_rows profile integrated [] res k = (k, res)
  card_rows profile integrated (c ∷ cs) res k =
      let (k1, s) = card_row profile integrated c k in
      card_rows profile integrated cs (insert (codes "dpm:" ++ pci_key c.1.path) s res) k1

  abbrev pub with_integrated :
      PowerProfile → List GpuCard → Option Indexed → Results → K → K × Results
  with_integrated profile cards none res k = (k, insert (codes "gpu") skipped_ambiguous res)
  with_integrated profile cards (some (i, c)) res k = card_rows profile i (indexed 0 cards) res k

  unfoldable pub gpu_rows : PowerProfile → List GpuCard → Results → K → K × Results
  gpu_rows profile cards res k =
      if is_empty cards
      then (k, insert (codes "gpu") skipped_missing res)
      else with_integrated profile cards
          (if leb 2 (length cards) then integrated_card cards else none) res k
