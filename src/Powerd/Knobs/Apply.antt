-- ===== src/Powerd/Knobs/Apply.antt =====
-- The other rows, and `powerd_apply` (src/powerd/knobs.rs).
use hyprstate.Prelude.{
  ℕ, ◌==◌, leb, Bool, true, false, not, ◌&&◌, ◌||◌, Text, codes, text_eq, starts_with, any, all,
  trim, strip_prefix, is_digit, is_empty, List, [], ◌∷◌, ◌++◌, Option, none, some, option_eq,
  Result, ok, err, if◌then◌else◌,
}
use hyprstate.Power.{PowerProfile}
use hyprstate.Gpu.{GpuCard}
use hyprstate.Powerd.Knobs.{
  governor, epp, aspm, SysfsPath, ReadError, not_found, read_failed, Status, unchanged,
  skipped_missing, skipped_unsupported, failed, Kernel, split_whitespace, merge_row, Results,
  insert, knob_write, read_or_default,
}
use hyprstate.Powerd.Knobs.Rows.{cpufreq, aspm_policy_path, platform_row, boost_row, gpu_rows}

abbrev policy_number : Option Text → Bool
policy_number none = false
policy_number (some rest) = not (is_empty rest) && all is_digit rest

-- The order of texts by their code points, which is that of their bytes.
unfoldable text_leb : Text → Text → Bool
text_leb [] t = true
text_leb (c ∷ s) [] = false
text_leb (c ∷ s) (d ∷ t) = let rest = text_leb s t in if c == d then rest else leb c d

unfoldable pub put_in_order : Text → List Text → List Text
unfolding text_leb
put_in_order p [] = p ∷ []
put_in_order p (q ∷ qs) =
    let rest = put_in_order p qs in if text_leb p q then p ∷ q ∷ qs else q ∷ rest

-- The policies among the entries of the cpufreq directory, sorted.
unfoldable pub cpufreq_policies : List Text → List Text
cpufreq_policies [] = []
cpufreq_policies (n ∷ ns) =
    let rest = cpufreq_policies ns in
    if policy_number (strip_prefix n (codes "policy")) then put_in_order n rest else rest

-- `o.trim_matches(['[', ']'])`.
abbrev is_bracket : ℕ → Bool
is_bracket c = c == b'[' || c == b']'

unfoldable pub open_brackets : Text → Text
open_brackets [] = []
open_brackets (c ∷ t) = let rest = open_brackets t in if is_bracket c then rest else c ∷ t

unfoldable pub close_brackets : Text → Text
close_brackets [] = []
close_brackets (c ∷ t) =
    let rest = close_brackets t in if is_bracket c && is_empty rest then [] else c ∷ rest

abbrev pub bare : Text → Text
bare o = close_brackets (open_brackets o)

unfoldable pub selected : List Text → Option Text
selected [] = none
selected (o ∷ os) =
    let rest = selected os in if starts_with o (codes "[") then some (bare o) else rest

abbrev pub aspm_current : Text → Option Text
aspm_current opts = selected (split_whitespace opts)

module _ {K : Type 0} (fs : Kernel K) where
  -- One status for every policy, in order.
  unfoldable pub each_policy : (Text → K → K × Status) → List Text → K → K × List Status
  each_policy f [] k = (k, [])
  each_policy f (p ∷ ps) k =
      let (k1, s) = f p k in let (k2, ss) = each_policy f ps k1 in (k2, s ∷ ss)

  abbrev pub policy_file : Text → Text → SysfsPath
  policy_file policy file = cpufreq ++ policy ∷ file ∷ []

  unfoldable pub governor_status : Text → Text → K → K × Status
  governor_status gov policy k =
      let (k1, avail) =
        read_or_default fs (policy_file policy (codes "scaling_available_governors")) k in
      if any (λ g. text_eq g gov) (split_whitespace avail)
      then knob_write fs (policy_file policy (codes "scaling_governor")) gov k1
      else (k1, skipped_unsupported)

  unfoldable pub epp_rows : Option Text → List Text → Results → K → K × Results
  epp_rows none policies res k = (k, res)
  epp_rows (some value) policies res k =
      let (k1, ss) =
        each_policy
          (λ p. knob_write fs (policy_file p (codes "energy_performance_preference")) value)
          policies k in
      (k1, insert (codes "energy_performance_preference") (merge_row ss) res)

  -- The driver's name is read before.
  unfoldable pub epp_capable : Text → K × Text → Bool
  epp_capable p0 (k, driver) =
      fs.exists (policy_file p0 (codes "energy_performance_preference")) k
      || text_eq (trim driver) (codes "amd-pstate-epp")
      || text_eq (trim driver) (codes "intel_pstate")

  unfoldable pub cpu_rows : PowerProfile → List Text → Results → K → K × Results
  cpu_rows profile [] res k = (k, insert (codes "cpu") skipped_missing res)
  cpu_rows profile (p0 ∷ ps) res k =
      let r = read_or_default fs (policy_file p0 (codes "scaling_driver")) k in
      if not (epp_capable p0 r)
      then (
        r.0,
        insert (codes "energy_performance_preference") skipped_unsupported
            (insert (codes "scaling_governor") skipped_unsupported res),
      )
      else (let (k2, ss) = each_policy (governor_status (governor profile)) (p0 ∷ ps) r.0 in
          epp_rows (epp profile) (p0 ∷ ps) (insert (codes "scaling_governor") (merge_row ss) res)
            k2)

  unfoldable pub aspm_status : Text → K × Result ReadError Text → K × Status
  aspm_status target (k, err (not_found e)) = (k, failed e)
  aspm_status target (k, err (read_failed e)) = (k, failed e)
  aspm_status target (k, ok opts) =
      if not (any (λ o. text_eq (bare o) target) (split_whitespace opts))
      then (k, skipped_unsupported)
      else (if option_eq text_eq (aspm_current opts) (some target)
          then (k, unchanged)
          else knob_write fs aspm_policy_path target k)

  unfoldable pub aspm_row : PowerProfile → Bool → Results → K → K × Results
  aspm_row profile writable res k =
      if not (fs.exists aspm_policy_path k)
      then (k, insert (codes "pcie_aspm") skipped_missing res)
      else (if not writable
          then (k, insert (codes "pcie_aspm") skipped_unsupported res)
          else (let (k1, s) = aspm_status (aspm profile) (fs.read aspm_policy_path k) in
              (k1, insert (codes "pcie_aspm") s res)))

  unfoldable pub powerd_apply : PowerProfile → Bool → List Text → List GpuCard → K → K × Results
  powerd_apply profile aspm_writable entries cards k0 =
      let (k1, r1) = platform_row fs profile [] k0 in
      let (k2, r2) = cpu_rows profile (cpufreq_policies entries) r1 k1 in
      let (k3, r3) = boost_row fs profile r2 k2 in
      let (k4, r4) = gpu_rows fs profile cards r3 k3 in aspm_row profile aspm_writable r4 k4
