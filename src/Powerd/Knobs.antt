-- ===== src/Powerd/Knobs.antt =====
-- src/powerd/knobs.rs: the sysfs writes that a profile stands for. A path is the list of its parts.
-- The kernel is a parameter: a read or a write returns the kernel after it, since to open a file can
-- have an effect. The rows of the result are in the order of their insertion.
pub mod Rows
pub mod Apply
pub mod Asleep
pub mod Whole
pub mod Pin
mod Tests
use hyprstate.Prelude.{
  ℕ, Bool, true, false, not, ◌&&◌, ◌||◌, Text, codes, text_eq, any, all, trim, List, [], ◌∷◌, ◌++◌,
  Option, none, some, Result, ok, err, if◌then◌else◌, is_space, is_empty,
}
use hyprstate.Power.{PowerProfile, power_saver, balanced, performance}

unfoldable pub governor : PowerProfile → Text
governor performance = codes "performance"
governor _ = codes "powersave"

unfoldable pub epp : PowerProfile → Option Text
epp power_saver = some (codes "power")
epp balanced = some (codes "balance_performance")
epp performance = none

unfoldable pub boost : PowerProfile → Text
boost power_saver = codes "0"
boost _ = codes "1"

unfoldable pub dgpu_dpm : PowerProfile → Text
dgpu_dpm power_saver = codes "low"
dgpu_dpm _ = codes "auto"

unfoldable pub aspm : PowerProfile → Text
aspm power_saver = codes "powersupersave"
aspm _ = codes "default"

abbrev pub SysfsPath : Type 0
SysfsPath = List Text

pub data ReadError : Type 0 where
  not_found read_failed : Text → ReadError

-- `locked` are EBUSY, EPERM and EACCES.
pub data WriteError : Type 0 where
  locked : WriteError
  write_failed : Text → WriteError

-- The strings of a result row.
pub data Status : Type 0 where
  unchanged written skipped_missing skipped_unsupported skipped_suspended skipped_ambiguous : Status
  failed : Text → Status

pub record Kernel (K : Type 0) : Type 0 where
  pub read : SysfsPath → K → K × Result ReadError Text
  pub write : SysfsPath → Text → K → K × Option WriteError
  pub exists : SysfsPath → K → Bool

abbrev pub written_as : Option WriteError → Status
written_as none = written
written_as (some locked) = skipped_unsupported
written_as (some (write_failed e)) = failed e

-- `s.split_whitespace()`.
abbrev push_word : ℕ → List Text → List Text
push_word c [] = (c ∷ []) ∷ []
push_word c (w ∷ ws) = (c ∷ w) ∷ ws

unfoldable pub gaps : Text → List Text
gaps [] = [] ∷ []
gaps (c ∷ t) = let rest = gaps t in if is_space c then [] ∷ rest else push_word c rest

unfoldable pub filled : List Text → List Text
filled [] = []
filled (w ∷ ws) = let rest = filled ws in if is_empty w then rest else w ∷ rest

abbrev pub split_whitespace : Text → List Text
split_whitespace t = filled (gaps t)

abbrev is_error : Status → Bool
is_error (failed e) = true
is_error _ = false

abbrev is_written : Status → Bool
is_written written = true
is_written _ = false

abbrev is_unchanged : Status → Bool
is_unchanged unchanged = true
is_unchanged _ = false

unfoldable pub first_error : List Status → Option Status
first_error [] = none
first_error (s ∷ ss) = let rest = first_error ss in if is_error s then some s else rest

unfoldable pub merge_row : List Status → Status
merge_row [] = skipped_missing
merge_row (s ∷ ss) = elim (first_error (s ∷ ss)) [
  | some e ↦ e
  | none ↦
      if any is_written (s ∷ ss)
      then written
      else (if all is_unchanged (s ∷ ss) then unchanged else s)
]

abbrev pub Results : Type 0
Results = List (Text × Status)

-- `res.insert(label, status)`.
unfoldable pub insert : Text → Status → Results → Results
insert label s [] = (label, s) ∷ []
insert label s ((l, old) ∷ rest) =
    let more = insert label s rest in if text_eq l label then (label, s) ∷ rest else (l, old) ∷ more

module _ {K : Type 0} (fs : Kernel K) where
  -- What a write leads to, once the value is read.
  unfoldable pub compare_and_write : SysfsPath → Text → K × Result ReadError Text → K × Status
  compare_and_write p value (k, err (not_found e)) = (k, skipped_missing)
  compare_and_write p value (k, err (read_failed e)) = (k, failed e)
  compare_and_write p value (k, ok cur) =
      if text_eq (trim cur) value
      then (k, unchanged)
      else (let (k', e) = fs.write p value k in (k', written_as e))

  unfoldable pub knob_write : SysfsPath → Text → K → K × Status
  knob_write p value k = compare_and_write p value (fs.read p k)

  -- `read_to_string(p).unwrap_or_default()`.
  abbrev text_or_default : Result ReadError Text → Text
  text_or_default (ok t) = t
  text_or_default (err e) = []

  unfoldable pub read_or_default : SysfsPath → K → K × Text
  read_or_default p k = let (k', r) = fs.read p k in (k', text_or_default r)
