-- ===== src/Power/Conf.antt =====
-- crates/hyprstate-fsm/src/power.rs: power.conf and its parser. The warnings, which only go to the
-- log, are data that keeps what the source prints in them.
pub mod Bounds
pub mod Lines
pub mod Last
mod Tests
use hyprstate.Prelude.{
  ℕ, ◌%◌, ◌^◌, Bool, true, false, not, Text, codes, text_eq, starts_with, lines, parse_i64, ℤ,
  clamp, List, [], ◌∷◌, ◌++◌, Option, none, some, if◌then◌else◌,
}
use hyprstate.Power.{
  PowerProfile, PowerPolicy, BaseState, docked_ac, ac, battery, battery_low, for_base,
  default_policy, default_battery_low_pct, from_str,
}
use hyprstate.Kbd.{default_kbd_idle_secs, max_kbd_idle_secs, default_kbd_dark_lux}
use hyprstate.Profiles.{parse_directive}

pub data LidMode : Type 0 where
  present absent : LidMode

abbrev pub lid_word : LidMode → Text
lid_word present = codes "present"
lid_word absent = codes "absent"

unfoldable pub lid_of : Text → Option LidMode
lid_of s =
    if text_eq s (codes "present")
    then some present
    else (if text_eq s (codes "absent") then some absent else none)

pub data LidAcPolicy : Type 0 where
  suspend defer : LidAcPolicy

abbrev pub lid_ac_word : LidAcPolicy → Text
lid_ac_word suspend = codes "suspend"
lid_ac_word defer = codes "defer"

unfoldable pub lid_ac_of : Text → Option LidAcPolicy
lid_ac_of s =
    if text_eq s (codes "suspend")
    then some suspend
    else (if text_eq s (codes "defer") then some defer else none)

pub data KbdMode : Type 0 where
  auto off : KbdMode

abbrev pub kbd_word : KbdMode → Text
kbd_word auto = codes "auto"
kbd_word off = codes "off"

unfoldable pub kbd_of : Text → Option KbdMode
kbd_of s =
    if text_eq s (codes "auto")
    then some auto
    else (if text_eq s (codes "off") then some off else none)

abbrev pub default_lid_grace_secs : ℕ
default_lid_grace_secs = 30

abbrev pub max_lid_grace_secs : ℕ
max_lid_grace_secs = 600

pub record PowerConf : Type 0 where
  pub policy : PowerPolicy
  pub battery_low_pct : ℕ
  pub lid : LidMode
  pub lid_grace_secs : ℕ
  pub lid_ac : LidAcPolicy
  pub kbd : KbdMode
  pub kbd_idle_secs : ℕ
  pub kbd_dark_lux : ℕ

abbrev pub default_conf : PowerConf
default_conf = record {
  policy = default_policy;
  battery_low_pct = default_battery_low_pct;
  lid = present;
  lid_grace_secs = default_lid_grace_secs;
  lid_ac = suspend;
  kbd = auto;
  kbd_idle_secs = default_kbd_idle_secs;
  kbd_dark_lux = default_kbd_dark_lux;
}

pub data ConfWarning : Type 0 where
  malformed unknown bad_percent : Text → ConfWarning
  bad_lid : Text → LidMode → ConfWarning
  bad_grace bad_idle bad_lux : Text → ℕ → ConfWarning
  bad_lid_ac : Text → LidAcPolicy → ConfWarning
  bad_kbd : Text → KbdMode → ConfWarning
  bad_profile : Text → Text → PowerProfile → ConfWarning

-- What the loop of `parse_power_conf` carries.
abbrev pub Parsed : Type 0
Parsed = PowerConf × List ConfWarning

-- The value is stored, or the warning is added.
unfoldable pub store {ℓ} : {A : Type ℓ} → Option A → (A → PowerConf) → ConfWarning → Parsed → Parsed
store none set w (c, ws) = (c, ws ++ w ∷ [])
store (some a) set w (c, ws) = (set a, ws)

-- The field of the policy that a key names, by the base state it is for.
unfoldable pub slot_of : Text → Option BaseState
slot_of key =
    if text_eq key (codes "docked-ac")
    then some docked_ac
    else (if text_eq key (codes "ac")
        then some ac
        else (if text_eq key (codes "battery")
            then some battery
            else (if text_eq key (codes "battery-low") then some battery_low else none)))

abbrev pub put_slot : BaseState → PowerProfile → PowerPolicy → PowerPolicy
put_slot docked_ac p k = record k { docked_ac = p }
put_slot ac p k = record k { ac = p }
put_slot battery p k = record k { battery = p }
put_slot battery_low p k = record k { battery_low = p }

unfoldable pub policy_directive : Text → Text → Parsed → Parsed
policy_directive key val (c, ws) = elim (slot_of key) [
  | none ↦ (c, ws ++ unknown key ∷ [])
  | some b ↦
      store (from_str val) (λ p. record c { policy = put_slot b p c.policy })
        (bad_profile key val (for_base c.policy b)) (c, ws)
]

unfoldable pub conf_directive : Text → Text → Parsed → Parsed
conf_directive key val (c, ws) =
    if text_eq key (codes "lid")
    then store (lid_of val) (λ m. record c { lid = m }) (bad_lid val c.lid) (c, ws)
    else (if text_eq key (codes "battery-low-percent")
        then store (parse_i64 val) (λ n. record c { battery_low_pct = clamp 1 50 n % 2 ^ 8 })
            (bad_percent val) (c, ws)
        else (if text_eq key (codes "lid-grace")
            then store (parse_i64 val)
                (λ n. record c { lid_grace_secs = clamp 0 max_lid_grace_secs n % 2 ^ 16 })
                (bad_grace val c.lid_grace_secs) (c, ws)
            else (if text_eq key (codes "lid-ac")
                then store (lid_ac_of val) (λ m. record c { lid_ac = m }) (bad_lid_ac val c.lid_ac)
                    (c, ws)
                else (if text_eq key (codes "kbd")
                    then store (kbd_of val) (λ m. record c { kbd = m }) (bad_kbd val c.kbd) (c, ws)
                    else (if text_eq key (codes "kbd-idle")
                        then store (parse_i64 val)
                            (λ n. record c { kbd_idle_secs = clamp 1 max_kbd_idle_secs n % 2 ^ 16 })
                            (bad_idle val c.kbd_idle_secs) (c, ws)
                        else (if text_eq key (codes "kbd-dark-lux")
                            then store (parse_i64 val)
                                (λ n. record c { kbd_dark_lux = clamp 0 1000000 n % 2 ^ 32 })
                                (bad_lux val c.kbd_dark_lux) (c, ws)
                            else policy_directive key val (c, ws)))))))

unfoldable pub conf_line : Text → Parsed → Parsed
conf_line line (c, ws) =
    if not (starts_with line (codes "#@")) then (c, ws) else elim (parse_directive line true) [
      | none ↦ (c, ws ++ malformed line ∷ [])
      | some (key, val) ↦ conf_directive key val (c, ws)
    ]

unfoldable pub conf_lines : List Text → Parsed → Parsed
conf_lines [] p = p
conf_lines (line ∷ rest) p = conf_lines rest (conf_line line p)

unfoldable pub parse_power_conf : Text → Parsed
parse_power_conf text = conf_lines (lines text) (default_conf, [])

unfoldable pub parse_power_policy : Text → PowerPolicy × ℕ × List ConfWarning
parse_power_policy text = let (c, ws) = parse_power_conf text in (c.policy, c.battery_low_pct, ws)
