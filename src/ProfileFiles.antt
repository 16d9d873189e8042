-- ===== src/ProfileFiles.antt =====
-- src/sysio/profiles.rs: the merge of the user's profiles with the shared ones, and the choice among
-- them. What the monitor_profiles crate reads from a directory, and what it selects, are given.
pub mod Lookup
mod Tests
use hyprstate.Prelude.{
  Bool, true, false, not, ◌||◌, Text, codes, text_eq, starts_with, any, List, [], ◌∷◌, ◌++◌, map,
  Option, none, some, option_eq, if◌then◌else◌, is_empty,
}
use hyprstate.Daemon.Ctx.{TomlProfile}
use hyprstate.Daemon.Sources.Files.Route.{extension}

abbrev pub same_name : Text → TomlProfile → Bool
same_name n p = text_eq p.name n

-- The profiles, and the names of those that are rendered into the user's directory, in order.
abbrev pub Loaded : Type 0
Loaded = List TomlProfile × List Text

-- `load_profiles_from` of the user's directory. Legacy files are only warned about.
unfoldable pub load_profiles_from : List TomlProfile → Loaded
load_profiles_from toml_profiles = (toml_profiles, map (λ p. p.name) toml_profiles)

abbrev pub merge_one : TomlProfile → Loaded → Loaded
merge_one s (ps, rendered) =
    if any (same_name s.name) ps then (ps, rendered) else (ps ++ s ∷ [], rendered ++ s.name ∷ [])

unfoldable pub merge_system : List TomlProfile → Loaded → Loaded
merge_system [] l = l
merge_system (s ∷ ss) l = merge_system ss (merge_one s l)

unfoldable pub load_profiles_merged : List TomlProfile → List TomlProfile → Loaded
load_profiles_merged user system = merge_system system (load_profiles_from user)

-- `profiles.iter().find(|p| p.name == n)`.
unfoldable pub find_name : Text → List TomlProfile → Option TomlProfile
find_name n [] = none
find_name n (p ∷ ps) = let rest = find_name n ps in if same_name n p then some p else rest

abbrev pub by_name : List TomlProfile → Option TomlProfile → Option TomlProfile
by_name profiles none = none
by_name profiles (some selected) = find_name selected.name profiles

-- `select` is the crate's.
unfoldable pub select_profile :
    (List Text → List TomlProfile → Option TomlProfile)
    → List Text
    → List TomlProfile
    → Option TomlProfile
select_profile select signature profiles = by_name profiles (select signature profiles)

-- Whether the file is written, given what it holds.
unfoldable pub must_write : Option Text → Text → Bool
must_write current content = not (option_eq text_eq current (some content))

-- A target that is no Lua file is refused.
unfoldable pub may_repoint : Text → Bool
may_repoint file_name = option_eq text_eq (extension file_name) (some (codes "lua"))
