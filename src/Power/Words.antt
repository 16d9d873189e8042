-- ===== src/Power/Words.antt =====
-- Power profiles as words: what the daemon writes, the kernel reports and the files hold
-- (crates/hyprstate-fsm/src/power.rs).
use hyprstate.Prelude.{text_eq, text_eq_iff, ◌≡◌, ◌↔◌, refl, Text, some, All, arith}
use hyprstate.Power.{
  codes, PowerProfile, power_saver, balanced, performance, as_str, from_str, platform_profile_chain,
  profile_from_platform_value,
}

-- A profile that is printed is parsed back.
from_str-as_str : (p : PowerProfile) → from_str (as_str p) ≡ some p
unfolding from_str text_eq
from_str-as_str power_saver = refl
from_str-as_str balanced = refl
from_str-as_str performance = refl

-- A word that parses as a profile is the word that the profile prints as.
from_str_sound : (s : Text) (p : PowerProfile) → from_str s ≡ some p → s ≡ as_str p
unfolding from_str
from_str_sound s p h = ground (
  arith,
  text_eq_iff s (codes "power-saver"),
  text_eq_iff s (codes "balanced"),
  text_eq_iff s (codes "performance"),
)

-- A word parses as a profile exactly if it is the word that the profile prints as.
pub from_str_iff : (s : Text) (p : PowerProfile) → (from_str s ≡ some p) ↔ (s ≡ as_str p)
from_str_iff s p = (from_str_sound s p, λ e. rw e (from_str-as_str p))

-- Every value that the daemon may write for a profile is read back as that profile.
pub chain_read_back :
    (p : PowerProfile)
    → All (λ v. profile_from_platform_value (some v) ≡ p) (platform_profile_chain p)
unfolding platform_profile_chain profile_from_platform_value text_eq
chain_read_back power_saver = (refl, (refl, tt))
chain_read_back balanced = (refl, tt)
chain_read_back performance = (refl, tt)
