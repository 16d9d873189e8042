-- ===== src/Cli.antt =====
-- src/cli/power.rs, kbd.rs and suspend.rs: the commands that write the files which the daemon's
-- state-file task reads. Each gives its exit code and the files after it. What only prints is left out.
pub mod Words
pub mod Told
mod Tests
use hyprstate.Prelude.{
  ℕ, ◌==◌, Bool, true, false, not, ◌&&◌, Text, codes, text_eq, is_empty, parse_i64, print_nat,
  unwrap_or, List, [], ◌∷◌, ◌++◌, Option, none, some, is_some, if◌then◌else◌,
}
use hyprstate.Power.{from_str}
use hyprstate.Kbd.{clamp_level, step_level, default_kbd_level_pct}
use hyprstate.Sysio.{read_first_word}
use hyprstate.Daemon.Sources.Files.{read_kbd_level}

-- The bodies of the files that exist.
pub record CliFiles : Type 0 where
  pub power_override : Option Text
  pub kbd_level : Option Text
  pub kbd_marker : Option Text
  pub request : Option Text

-- Whether there is a runtime directory, and which writes and removals succeed. One that fails leaves
-- the file as it was; a removal of no file succeeds.
pub record CliIo : Type 0 where
  pub runtime_dir : Bool
  pub override_written : Bool
  pub override_removed : Bool
  pub level_written : Bool
  pub marker_written : Bool
  pub marker_removed : Bool
  pub request_written : Bool
  pub request_removed : Bool

abbrev pub stored_line : Text → Text
stored_line word = word ++ b'\n' ∷ []

-- `filter(|w| w.parse::<PowerProfile>().is_ok())`.
abbrev pub if_profile : Option Text → Option Text
unfolding from_str
if_profile none = none
if_profile (some w) = if is_some (from_str w) then some w else none

unfoldable pub override_profile : CliFiles → Option Text
unfolding if_profile read_first_word
override_profile files = if_profile (read_first_word files.power_override)

abbrev pub without : Bool → Option Text → Option Text
without removed file = if removed then none else file

unfoldable pub next_word : Option Text → Text
next_word none = codes "power-saver"
next_word (some w) =
    if text_eq w (codes "power-saver")
    then codes "balanced"
    else (if text_eq w (codes "balanced") then codes "performance" else codes "auto")

unfoldable pub stored_level : CliFiles → ℕ
unfolding read_kbd_level read_first_word
stored_level files =
    unwrap_or (read_kbd_level (read_first_word files.kbd_level)) default_kbd_level_pct

-- `trim_end_matches('%')`.
unfoldable pub trim_percent : Text → Text
trim_percent [] = []
trim_percent (c ∷ t) =
    let rest = trim_percent t in if c == b'%' && is_empty rest then [] else c ∷ rest

module _ (io : CliIo) where
  -- A failed removal is not reported.
  unfoldable pub power_set : Option Text → CliFiles → ℕ × CliFiles
  unfolding from_str
  power_set none files = (2, files)
  power_set (some value) files =
      if text_eq value (codes "auto")
      then (0, record files { power_override = without io.override_removed files.power_override })
      else (if not (is_some (from_str value))
          then (2, files)
          else (if io.override_written
              then (0, record files { power_override = some (stored_line value) })
              else (1, files)))

  unfoldable pub power_run : Text → Option Text → CliFiles → ℕ × CliFiles
  unfolding power_set next_word override_profile
  power_run action value files =
      if text_eq action (codes "set")
      then power_set value files
      else (if text_eq action (codes "cycle")
          then power_set (some (next_word (override_profile files))) files
          else (if text_eq action (codes "get")
              then (0, files)
              else (if text_eq action (codes "status") then (0, files) else (2, files))))

  -- The level is stored before the marker, which needs the runtime directory.
  unfoldable pub apply_level : ℕ → CliFiles → ℕ × CliFiles
  unfolding print_nat
  apply_level level files =
      let stored = record files { kbd_level = some (stored_line (print_nat level)) } in
      if not io.level_written
      then (1, files)
      else (if not io.runtime_dir
          then (0, stored)
          else (if io.marker_written
              then (0, record stored { kbd_marker = some (codes "manual\n") })
              else (1, stored)))

  unfoldable pub set_level : Option Text → CliFiles → ℕ × CliFiles
  unfolding trim_percent apply_level parse_i64 clamp_level
  set_level none files = (2, files)
  set_level (some v) files = elim (parse_i64 (trim_percent v)) [
    | none ↦ (2, files)
    | some pct ↦ apply_level (clamp_level pct) files
  ]

  unfoldable pub kbd_auto : CliFiles → ℕ × CliFiles
  kbd_auto files =
      if not io.runtime_dir
      then (0, files)
      else (if io.marker_removed then (0, record files { kbd_marker = none }) else (1, files))

  unfoldable pub kbd_run : Text → Option Text → CliFiles → ℕ × CliFiles
  unfolding set_level kbd_auto apply_level stored_level step_level
  kbd_run action value files =
      if text_eq action (codes "set")
      then set_level value files
      else (if text_eq action (codes "up")
          then apply_level (step_level (stored_level files) true) files
          else (if text_eq action (codes "down")
              then apply_level (step_level (stored_level files) false) files
              else (if text_eq action (codes "auto")
                  then kbd_auto files
                  else (if text_eq action (codes "status") then (0, files) else (2, files)))))

  -- Without a runtime directory a request is refused, and anything else does nothing.
  unfoldable pub suspend_run : Text → CliFiles → ℕ × CliFiles
  suspend_run action files =
      if not io.runtime_dir
      then (if text_eq action (codes "request") then (1, files) else (0, files))
      else (if text_eq action (codes "request")
          then (if io.request_written
              then (0, record files { request = some (codes "idle\n") })
              else (1, files))
          else (if text_eq action (codes "cancel")
              then (if io.request_removed then (0, record files { request = none }) else (1, files))
              else (if text_eq action (codes "status") then (0, files) else (2, files))))
