-- ===== src/Powerd/Knobs/Whole.antt =====
-- `powerd_apply` as a whole, for a suspended GPU (src/powerd/knobs.rs).
use hyprstate.Prelude.{
  Bool, true, false, ◌≡◌, refl, Text, codes, text_eq, any, List, [], ◌∷◌, ◌++◌, Option, none, some,
  option_eq, Result, ok, err, Bool-cases, inl, inr,
}
use hyprstate.Power.{PowerProfile}
use hyprstate.Gpu.{GpuCard}
use hyprstate.Powerd.Knobs.{
  SysfsPath, Kernel, Status, Results, knob_write, read_or_default, ReadError, not_found,
  read_failed, governor, epp, aspm, split_whitespace,
}
use hyprstate.Powerd.Knobs.Rows.{
  cpufreq, aspm_policy_path, platform_profile_path, platform_choices_path, no_turbo_path,
  platform_row, boost_row, write_target,
}
use hyprstate.Powerd.Knobs.Apply.{
  epp_capable, each_policy, policy_file, governor_status, epp_rows, cpu_rows, aspm_status, aspm_row,
  powerd_apply, cpufreq_policies, bare, aspm_current,
}
use hyprstate.Powerd.Knobs.Asleep.{
  Sleeps, is_knob, other_file, is_discrete, knob_write-keeps, gpu_rows-keeps,
}

module _ {K : Type 0} (fs : Kernel K) {card : Text} {asleep : K → Bool}
    (sl : Sleeps fs card asleep) where
  file_write-keeps :
      (p : SysfsPath) (v : Text) (k : K)
      → is_knob p ≡ false
      → asleep k ≡ true
      → asleep (knob_write fs p v k).0 ≡ true
  file_write-keeps p v k other h = knob_write-keeps fs sl p v k (other_file p card other) h

  file_read-keeps :
      (p : SysfsPath) (k : K)
      → is_knob p ≡ false
      → asleep k ≡ true
      → asleep (read_or_default fs p k).0 ≡ true
  unfolding read_or_default
  file_read-keeps p k other h = sl.read_keeps p k (other_file p card other) h

  write_target-keeps :
      (p : SysfsPath) (o : Option Text) (k : K)
      → is_knob p ≡ false
      → asleep k ≡ true
      → asleep (write_target fs p o k).0 ≡ true
  write_target-keeps p none k other h = h
  write_target-keeps p (some v) k other h = file_write-keeps p v k other h

  platform_row-keeps :
      (profile : PowerProfile) (res : Results) (k : K)
      → asleep k ≡ true
      → asleep (platform_row fs profile res k).0 ≡ true
  unfolding platform_row
  platform_row-keeps profile res k h = elim (Bool-cases (fs.exists platform_profile_path k)) [
    | inr e ↦ rw e h
    | inl e ↦ rw e (
        write_target-keeps platform_profile_path _ _ refl
          (file_read-keeps platform_choices_path k refl h))
  ]

  boost_row-keeps :
      (profile : PowerProfile) (res : Results) (k : K)
      → asleep k ≡ true
      → asleep (boost_row fs profile res k).0 ≡ true
  unfolding boost_row
  boost_row-keeps profile res k h =
      elim (Bool-cases (fs.exists (cpufreq ++ codes "boost" ∷ []) k)) [
        | inl e ↦ rw e (file_write-keeps (cpufreq ++ codes "boost" ∷ []) _ k refl h)
        | inr e ↦ rw e (elim (Bool-cases (fs.exists no_turbo_path k)) [
          | inl n ↦ rw n (file_write-keeps no_turbo_path _ k refl h)
          | inr n ↦ rw n h
        ])
      ]

  each_policy-keeps :
      (f : Text → K → K × Status)
      → ((p : Text) (k : K) → asleep k ≡ true → asleep (f p k).0 ≡ true)
      → (ps : List Text) (k : K) → asleep k ≡ true
      → asleep (each_policy fs f ps k).0 ≡ true
  unfolding each_policy
  each_policy-keeps f keeps [] k h = h
  each_policy-keeps f keeps (p ∷ ps) k h = each_policy-keeps f keeps ps (f p k).0 (keeps p k h)

  governor_status-keeps :
      (gov p : Text) (k : K) → asleep k ≡ true → asleep (governor_status fs gov p k).0 ≡ true
  unfolding governor_status
  governor_status-keeps gov p k h =
      let avail = read_or_default fs (policy_file fs p (codes "scaling_available_governors")) k in
      let h1 = file_read-keeps (policy_file fs p (codes "scaling_available_governors")) k refl h in
      elim (Bool-cases (any (λ g. text_eq g gov) (split_whitespace avail.1))) [
        | inl e ↦
            rw e (file_write-keeps (policy_file fs p (codes "scaling_governor")) gov _ refl h1)
        | inr e ↦ rw e h1
      ]

  epp_rows-keeps :
      (o : Option Text) (ps : List Text) (res : Results) (k : K)
      → asleep k ≡ true
      → asleep (epp_rows fs o ps res k).0 ≡ true
  unfolding epp_rows
  epp_rows-keeps none ps res k h = h
  epp_rows-keeps (some v) ps res k h =
      each_policy-keeps
        (λ p. knob_write fs (policy_file fs p (codes "energy_performance_preference")) v)
        (λ p m s.
          file_write-keeps (policy_file fs p (codes "energy_performance_preference")) v m refl s)
        ps k h

  cpu_rows-keeps :
      (profile : PowerProfile) (ps : List Text) (res : Results) (k : K)
      → asleep k ≡ true
      → asleep (cpu_rows fs profile ps res k).0 ≡ true
  unfolding cpu_rows
  cpu_rows-keeps profile [] res k h = h
  cpu_rows-keeps profile (p ∷ ps) res k h =
      let h1 = file_read-keeps (policy_file fs p (codes "scaling_driver")) k refl h in
      elim (Bool-cases
        (epp_capable fs p (read_or_default fs (policy_file fs p (codes "scaling_driver")) k))) [
          | inr e ↦ rw e h1
          | inl e ↦ rw e (
              epp_rows-keeps (epp profile) (p ∷ ps) _ _ (
                each_policy-keeps (governor_status fs (governor profile))
                  (governor_status-keeps (governor profile)) (p ∷ ps) _ h1))
        ]

  aspm_status-keeps :
      (target : Text) (r : K × Result ReadError Text)
      → asleep r.0 ≡ true
      → asleep (aspm_status fs target r).0 ≡ true
  unfolding aspm_status
  aspm_status-keeps target (k, err (not_found e)) h = h
  aspm_status-keeps target (k, err (read_failed e)) h = h
  aspm_status-keeps target (k, ok opts) h =
      elim (Bool-cases (any (λ o. text_eq (bare o) target) (split_whitespace opts))) [
        | inr e ↦ rw e h
        | inl e ↦ rw e (elim (Bool-cases (option_eq text_eq (aspm_current opts) (some target))) [
          | inl c ↦ rw c h
          | inr c ↦ rw c (file_write-keeps aspm_policy_path target k refl h)
        ])
      ]

  aspm_row-keeps :
      (profile : PowerProfile) (writable : Bool) (res : Results) (k : K)
      → asleep k ≡ true
      → asleep (aspm_row fs profile writable res k).0 ≡ true
  unfolding aspm_row
  aspm_row-keeps profile writable res k h = elim (Bool-cases (fs.exists aspm_policy_path k)) [
    | inr e ↦ rw e h
    | inl e ↦ rw e (elim (Bool-cases writable) [
      | inr w ↦ rw w h
      | inl w ↦ rw w (
          aspm_status-keeps (aspm profile) (fs.read aspm_policy_path k)
            (sl.read_keeps aspm_policy_path k (other_file aspm_policy_path card refl) h))
    ])
  ]

  -- A discrete card that is runtime-suspended is still suspended when a profile was applied, by any
  -- profile, on a kernel that wakes it only when its dpm knob is opened and that reports its status.
  pub powerd_apply-asleep :
      (profile : PowerProfile) (writable : Bool) (entries : List Text) (cards : List GpuCard)
      (k : K)
      → is_discrete card cards ≡ true
      → asleep k ≡ true
      → asleep (powerd_apply fs profile writable entries cards k).0 ≡ true
  unfolding powerd_apply
  powerd_apply-asleep profile writable entries cards k apart h =
      aspm_row-keeps profile writable _ _ (
        gpu_rows-keeps fs sl profile cards _ _ apart (
          boost_row-keeps profile _ _ (
            cpu_rows-keeps profile (cpufreq_policies entries) _ _
              (platform_row-keeps profile [] k h))))
