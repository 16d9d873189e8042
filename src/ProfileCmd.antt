-- ===== src/ProfileCmd.antt =====
-- src/cli/profile.rs: the migration of legacy profiles, over the files of the profile directory. What
-- the monitor_profiles crate reads and prints is given. The messages and the count are left out.
pub mod Twins
pub mod Loop
pub mod Written
mod Tests
use hyprstate.Prelude.{
  ℕ, ◌==◌, ltb, Bool, true, false, not, ◌&&◌, ◌||◌, Text, codes, text_eq, starts_with, is_empty,
  List, [], ◌∷◌, Option, none, some, option_eq, is_some, if◌then◌else◌,
}
use hyprstate.Daemon.Sources.Files.Route.{last_dot, extension}
use hyprstate.Daemon.Startup.{sort_names}

abbrev before_dot : Text → Option (Text × Text) → Text
before_dot name none = name
before_dot name (some (l, r)) = if is_empty l then name else l

-- `Path::file_stem` of a file name.
unfoldable pub file_stem : Text → Text
unfolding last_dot
file_stem name = before_dot name (last_dot name)

unfoldable pub same_stem : Text → Text → Bool
unfolding file_stem text_eq
same_stem a b = text_eq (file_stem a) (file_stem b)

unfoldable pub is_lua : Text → Bool
unfolding extension last_dot text_eq
is_lua name = option_eq text_eq (extension name) (some (codes "lua"))

abbrev wanted_stem : Option Text → Text → Bool
unfolding text_eq
wanted_stem none stem = true
wanted_stem (some wanted) stem = text_eq stem wanted

unfoldable pub is_legacy : Option Text → Text → Bool
unfolding is_lua file_stem extension last_dot text_eq starts_with
is_legacy only name =
    (option_eq text_eq (extension name) (some (codes "conf")) || is_lua name)
    && not (starts_with name (codes "."))
    && wanted_stem only (file_stem name)

unfoldable pub legacy_only : Option Text → List Text → List Text
unfolding is_legacy
legacy_only only [] = []
legacy_only only (n ∷ ns) =
    let rest = legacy_only only ns in if is_legacy only n then n ∷ rest else rest

-- The survivor of two neighbours of one stem is the later one if that is a Lua file.
abbrev pub survivor : Text → Text → Text
unfolding same_stem is_lua
survivor kept later = if same_stem later kept then (if is_lua later then later else kept) else later

unfoldable pub dedup_from : Text → List Text → List Text
unfolding same_stem is_lua
dedup_from kept [] = kept ∷ []
dedup_from kept (later ∷ ns) =
    let rest = dedup_from (survivor kept later) ns in
    if same_stem later kept then rest else kept ∷ rest

unfoldable pub dedup : List Text → List Text
unfolding dedup_from
dedup [] = []
dedup (n ∷ ns) = dedup_from n ns

unfoldable pub legacy_files : Option Text → List Text → List Text
unfolding dedup sort_names legacy_only
legacy_files only names = dedup (sort_names (legacy_only only names))

-- The bodies of the TOML files, by their stems.
abbrev pub Tomls : Type 0
Tomls = Text → Option Text

unfoldable pub put_toml : Text → Text → Tomls → Tomls
unfolding text_eq
put_toml stem body tomls s = if text_eq stem s then some body else tomls s

pub record SaveOpts : Type 0 where
  pub force : Bool
  pub dry_run : Bool

-- What the directory and the crate answer: the body of a legacy file, the profile that is read of it,
-- whether it has no monitors, the profile as TOML, and whether a TOML file can be written.
pub record Converter (P : Type 0) : Type 0 where
  pub body : Text → Option Text
  pub to_profile : Text → Text → Option P
  pub bare : P → Bool
  pub to_toml : P → Text
  pub writable : Text → Bool

module _ {P : Type 0} (l : Converter P) (opts : SaveOpts) where
  abbrev pub store_profile : Text → Tomls → P → Option Tomls
  unfolding put_toml
  store_profile stem tomls profile =
      if l.bare profile
      then none
      else (if opts.dry_run
          then some tomls
          else (if l.writable stem then some (put_toml stem (l.to_toml profile) tomls) else none))

  abbrev pub store_read : Text → Tomls → Option P → Option Tomls
  store_read stem tomls none = none
  store_read stem tomls (some profile) = store_profile stem tomls profile

  abbrev pub convert : Text → Tomls → Option Text → Option Tomls
  convert stem tomls none = none
  convert stem tomls (some text) = store_read stem tomls (l.to_profile stem text)

  -- One file of the loop; none ends the command with 1.
  unfoldable pub migrate_one : Text → Tomls → Option Tomls
  unfolding file_stem put_toml
  migrate_one name tomls =
      if is_some (tomls (file_stem name)) && not opts.force
      then some tomls
      else convert (file_stem name) tomls (l.body name)

  -- Whether the loop came to its end, and the TOML files after it.
  unfoldable pub migrate_all : List Text → Tomls → Bool × Tomls
  unfolding migrate_one
  migrate_all [] tomls = (true, tomls)
  migrate_all (n ∷ ns) tomls = elim (migrate_one n tomls) [
    | none ↦ (false, tomls)
    | some after ↦ migrate_all ns after
  ]

  -- The exit code and the TOML files after `migrate`. The comparison of verify_dir is given.
  unfoldable pub migrate : (Tomls → Bool) → Option Text → List Text → Tomls → ℕ × Tomls
  unfolding migrate_all legacy_files
  migrate same only names tomls =
      let (whole, after) = migrate_all (legacy_files only names) tomls in
      (if whole && (opts.dry_run || same after) then 0 else 1, after)
