-- ===== src/Power.antt =====
-- crates/hyprstate-fsm/src/power.rs: power profiles, base states, the policy map, battery-low
-- hysteresis and the bookkeeping of the daemon's own platform_profile writes. Instants and
-- durations are milliseconds on a clock that starts at 0.
use hyprstate.Prelude.{
  ℕ, ◌+◌, ◌-◌, ◌%◌, Bool, true, false, not, ◌&&◌, Text, codes, text_eq, List, [], ◌∷◌, Option, none,
  some, any, ltb, leb, if◌then◌else◌, F64, le_nat, ge_nat,
}
pub mod Hysteresis
pub mod Words
pub mod Conf
pub mod SelfWrites
mod Tests

abbrev pub battery_low_exit_delta : ℕ
battery_low_exit_delta = 3

abbrev pub default_battery_low_pct : ℕ
default_battery_low_pct = 15

abbrev pub adopt_suppress : ℕ
adopt_suppress = 5000

pub data PowerProfile : Type 0 where
  power_saver balanced performance : PowerProfile

abbrev pub as_str : PowerProfile → Text
as_str power_saver = codes "power-saver"
as_str balanced = codes "balanced"
as_str performance = codes "performance"

-- The derived equality of `PowerProfile`.
abbrev pub profile_eq : PowerProfile → PowerProfile → Bool
profile_eq power_saver power_saver = true
profile_eq balanced balanced = true
profile_eq performance performance = true
profile_eq _ _ = false

-- `none` stands for ParsePowerProfileError, which carries nothing.
unfoldable pub from_str : Text → Option PowerProfile
from_str s =
    if text_eq s (codes "power-saver")
    then some power_saver
    else (if text_eq s (codes "balanced")
        then some balanced
        else (if text_eq s (codes "performance") then some performance else none))

unfoldable pub platform_profile_chain : PowerProfile → List Text
platform_profile_chain power_saver = codes "low-power" ∷ codes "quiet" ∷ []
platform_profile_chain balanced = codes "balanced" ∷ []
platform_profile_chain performance = codes "performance" ∷ []

unfoldable pub profile_from_platform_value : Option Text → PowerProfile
profile_from_platform_value none = balanced
profile_from_platform_value (some v) =
    if text_eq v (codes "low-power")
    then power_saver
    else (if text_eq v (codes "quiet")
        then power_saver
        else (if text_eq v (codes "performance") then performance else balanced))

pub data BaseState : Type 0 where
  docked_ac ac battery battery_low : BaseState

abbrev pub base_eq : BaseState → BaseState → Bool
base_eq docked_ac docked_ac = true
base_eq ac ac = true
base_eq battery battery = true
base_eq battery_low battery_low = true
base_eq _ _ = false

unfoldable pub power_base_state : Bool → ℕ → Bool → BaseState
power_base_state on_ac_settled ext_mon_count low_battery =
    if on_ac_settled
    then (if leb 1 ext_mon_count then docked_ac else ac)
    else (if low_battery then battery_low else battery)

pub data AcAxis : Type 0 where
  ac_side battery_side : AcAxis

abbrev pub axis_eq : AcAxis → AcAxis → Bool
axis_eq ac_side ac_side = true
axis_eq battery_side battery_side = true
axis_eq _ _ = false

abbrev pub ac_axis : BaseState → AcAxis
ac_axis ac = ac_side
ac_axis docked_ac = ac_side
ac_axis battery = battery_side
ac_axis battery_low = battery_side

-- `threshold` is a u8, and so is the sum with the exit delta.
unfoldable pub battery_low_step : Bool → F64 → ℕ → Bool
battery_low_step low pct threshold =
    if not low && le_nat pct threshold
    then true
    else (if low && ge_nat pct ((threshold + battery_low_exit_delta) % 256) then false else low)

pub record PowerPolicy : Type 0 where
  pub docked_ac : PowerProfile
  pub ac : PowerProfile
  pub battery : PowerProfile
  pub battery_low : PowerProfile

abbrev pub default_policy : PowerPolicy
default_policy = record {
  docked_ac = balanced;
  ac = balanced;
  battery = power_saver;
  battery_low = power_saver;
}

abbrev pub for_base : PowerPolicy → BaseState → PowerProfile
for_base p docked_ac = p.docked_ac
for_base p ac = p.ac
for_base p battery = p.battery
for_base p battery_low = p.battery_low

-- Each entry is an expiry with the values that count as the write.
pub record SelfWriteTracker : Type 0 where
  pub entries : List (ℕ × List Text)
  pub last_apply : Option ℕ

abbrev pub no_writes : SelfWriteTracker
no_writes = record { entries = []; last_apply = none }

abbrev push : List (ℕ × List Text) → ℕ × List Text → List (ℕ × List Text)
push [] e = e ∷ []
push (x ∷ xs) e = x ∷ push xs e

unfoldable pub register : SelfWriteTracker → ℕ → PowerProfile → SelfWriteTracker
unfolding platform_profile_chain
register t now profile = record {
  entries = push t.entries (now + adopt_suppress, platform_profile_chain profile);
  last_apply = some now;
}

-- `retain(|(expiry, _)| *expiry > now)`.
unfoldable pub retain : ℕ → List (ℕ × List Text) → List (ℕ × List Text)
retain now [] = []
retain now ((expiry, vals) ∷ es) =
    let rest = retain now es in if ltb now expiry then (expiry, vals) ∷ rest else rest

-- `position` and `remove` in one: the list without the first entry that has the value.
unfoldable pub take_entry : Text → List (ℕ × List Text) → Option (List (ℕ × List Text))
take_entry v [] = none
take_entry v ((expiry, vals) ∷ es) =
    if any (text_eq v) vals
    then some es
    else elim (take_entry v es) [ none ↦ none | some rest ↦ some ((expiry, vals) ∷ rest) ]

-- `now.duration_since(t)` is 0 for a later `t`, as `now - t` is.
abbrev in_window : Option ℕ → ℕ → Bool
in_window none now = false
in_window (some t) now = ltb (now - t) adopt_suppress

abbrev take_value : Option Text → List (ℕ × List Text) → Option (List (ℕ × List Text))
take_value none es = none
take_value (some v) es = take_entry v es

abbrev consumed :
    SelfWriteTracker
    → ℕ
    → List (ℕ × List Text)
    → Option (List (ℕ × List Text))
    → Bool × SelfWriteTracker
consumed t now live (some rest) = (true, record t { entries = rest })
consumed t now live none = (in_window t.last_apply now, record t { entries = live })

unfoldable pub is_self_write : SelfWriteTracker → ℕ → Option Text → Bool × SelfWriteTracker
unfolding retain take_entry
is_self_write t now value =
    let live = retain now t.entries in consumed t now live (take_value value live)
