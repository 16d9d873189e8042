-- ===== src/Profiles.antt =====
-- crates/hyprstate-fsm/src/profiles.rs: the directive comments that monitor profiles and power.conf
-- share, and the reading of a profile. Texts that only go to the log are data here.
pub mod Render
pub mod Lua
pub mod Directives
pub mod Reads
pub mod Saved
pub mod RoundTrip
mod Tests
use hyprstate.Prelude.{
  ℕ, Bool, true, false, not, ◌&&◌, ◌||◌, ◌==◌, leb, all, Text, codes, text_eq, starts_with, lines,
  trim, trim_start, trim_end, strip_prefix, cut, is_empty, parse_i64, ℤ, pos, List, [], ◌∷◌, ◌++◌,
  Option, none, some, Result, ok, err, if◌then◌else◌, length, unwrap_or,
}

-- The two enumerations of the monitor_profiles crate, by the values that the source matches on.
pub data EdpPolicy : Type 0 where
  auto enable disable : EdpPolicy

pub data GpuPref : Type 0 where
  auto igpu dgpu : GpuPref

pub data ProfileFormat : Type 0 where
  conf lua : ProfileFormat

abbrev pub ext : ProfileFormat → Text
ext conf = codes "conf"
ext lua = codes "lua"

pub record Profile : Type 0 where
  pub name : Text
  pub format : ProfileFormat
  pub matches : List Text
  pub edp : EdpPolicy
  pub gpu : GpuPref
  pub hooks : List Text
  pub priority : ℤ

abbrev is_lower : ℕ → Bool
is_lower c = leb b'a' c && leb c b'z'

unfoldable pub key_ok : Bool → Text → Bool
key_ok allow_hyphen [] = true
key_ok allow_hyphen (c ∷ t) = is_lower c && all (λ d. is_lower d || (allow_hyphen && d == b'-')) t

unfoldable pub leader : Text → Option Text
leader line = elim (strip_prefix line (codes "#@")) [
  | some rest ↦ some rest
  | none ↦ strip_prefix line (codes "--@")
]

unfoldable pub directive_of : Bool → Option (Text × Text) → Option (Text × Text)
directive_of allow_hyphen none = none
directive_of allow_hyphen (some (l, r)) =
    let key = trim_end l in
    let val = trim r in
    if is_empty key || is_empty val
    then none
    else (if key_ok allow_hyphen key then some (key, val) else none)

unfoldable pub parse_directive : Text → Bool → Option (Text × Text)
parse_directive line allow_hyphen = elim (leader line) [
  | none ↦ none
  | some rest ↦ directive_of allow_hyphen (cut b'=' (trim_start rest))
]

pub data ProfileWarning : Type 0 where
  malformed : Text → ProfileWarning
  unknown : Text → ProfileWarning

pub data ProfileError : Type 0 where
  bad_edp bad_gpu bad_priority : Text → ProfileError
  no_match : ProfileError

-- The variables of `parse_profile`'s loop.
pub record Header : Type 0 where
  pub matches : List Text
  pub hooks : List Text
  pub edp : EdpPolicy
  pub gpu : GpuPref
  pub priority : Option ℤ
  pub warnings : List ProfileWarning

abbrev pub empty_header : Header
empty_header = record {
  matches = [];
  hooks = [];
  edp = EdpPolicy.auto;
  gpu = GpuPref.auto;
  priority = none;
  warnings = [];
}

-- How a line leaves the loop: to the next line, by `break`, or by an early return.
pub data Flow : Type 0 where
  go_on : Header → Flow
  stop : Flow
  fail : ProfileError → Flow

abbrev warn : ProfileWarning → Header → Flow
warn w h = go_on (record h { warnings = h.warnings ++ w ∷ [] })

unfoldable pub set_edp_policy : Text → Header → Flow
set_edp_policy val h =
    if text_eq val (codes "auto")
    then go_on (record h { edp = EdpPolicy.auto })
    else (if text_eq val (codes "enable")
        then go_on (record h { edp = EdpPolicy.enable })
        else (if text_eq val (codes "disable")
            then go_on (record h { edp = EdpPolicy.disable })
            else fail (bad_edp val)))

unfoldable pub set_gpu_pref : Text → Header → Flow
set_gpu_pref val h =
    if text_eq val (codes "auto")
    then go_on (record h { gpu = GpuPref.auto })
    else (if text_eq val (codes "igpu")
        then go_on (record h { gpu = GpuPref.igpu })
        else (if text_eq val (codes "dgpu")
            then go_on (record h { gpu = GpuPref.dgpu })
            else fail (bad_gpu val)))

unfoldable pub set_priority : Text → Header → Flow
set_priority val h = elim (parse_i64 val) [
  | some n ↦ go_on (record h { priority = some n })
  | none ↦ fail (bad_priority val)
]

unfoldable pub obey : Text → Text → Header → Flow
obey key val h =
    if text_eq key (codes "match")
    then go_on (record h { matches = h.matches ++ val ∷ [] })
    else (if text_eq key (codes "hook")
        then go_on (record h { hooks = h.hooks ++ val ∷ [] })
        else (if text_eq key (codes "edp")
            then set_edp_policy val h
            else (if text_eq key (codes "gpu")
                then set_gpu_pref val h
                else (if text_eq key (codes "priority")
                    then set_priority val h
                    else warn (unknown key) h))))

abbrev pub is_directive : Text → Bool
is_directive line = starts_with line (codes "#@") || starts_with line (codes "--@")

-- A line that keeps the leading comment block open.
abbrev is_comment : Text → Bool
is_comment t = starts_with t (codes "#") || starts_with t (codes "--") || is_empty t

unfoldable pub read_line : Text → Header → Flow
read_line line h =
    if not (is_directive line)
    then (if is_comment (trim_start line) then go_on h else stop)
    else elim (parse_directive line false) [
      | none ↦ warn (malformed line) h
      | some (key, val) ↦ obey key val h
    ]

unfoldable pub read_lines : List Text → Header → Result ProfileError Header
read_lines [] h = ok h
read_lines (line ∷ rest) h = elim (read_line line h) [
  | go_on t ↦ read_lines rest t
  | stop ↦ ok h
  | fail e ↦ err e
]

unfoldable pub profile_of :
    Text
    → ProfileFormat
    → Result ProfileError Header
    → Result ProfileError (Profile × List ProfileWarning)
profile_of name format (err e) = err e
profile_of name format (ok h) =
    if is_empty h.matches
    then err no_match
    else ok (
      record {
        name = name;
        format = format;
        matches = h.matches;
        edp = h.edp;
        gpu = h.gpu;
        hooks = h.hooks;
        priority = unwrap_or h.priority (pos (length h.matches));
      },
      h.warnings,
    )

unfoldable pub parse_profile :
    Text → ProfileFormat → Text → Result ProfileError (Profile × List ProfileWarning)
parse_profile name format text = profile_of name format (read_lines (lines text) empty_header)
