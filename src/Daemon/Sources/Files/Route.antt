-- ===== src/Daemon/Sources/Files/Route.antt =====
-- The routing of an inotify event to the inputs that it can have moved (src/daemon/sources/files.rs).
use hyprstate.Prelude.{
  ◌==◌, Bool, true, false, ◌&&◌, ◌||◌, Text, codes, text_eq, is_empty, [], ◌∷◌, Option, none, some,
  option_eq, if◌then◌else◌,
}
use hyprstate.Daemon.Sources.Files.{Check, no_check, check_all}

pub data Dir : Type 0 where
  hypr_config runtime user_profiles system_profiles : Dir

-- The bits of an inotify event that are looked at.
pub record EventMask : Type 0 where
  pub overflow : Bool
  pub ignored : Bool
  pub create : Bool
  pub moved_to : Bool

-- `Path::extension` of a file name: what stands behind the last dot, if something stands before it.
unfoldable pub last_dot : Text → Option (Text × Text)
last_dot [] = none
last_dot (c ∷ t) = elim (last_dot t) [
  | some (l, r) ↦ some (c ∷ l, r)
  | none ↦ if c == b'.' then some ([], t) else none
]

abbrev behind : Option (Text × Text) → Option Text
behind none = none
behind (some (l, r)) = if is_empty l then none else some r

unfoldable pub extension : Text → Option Text
extension name = behind (last_dot name)

unfoldable pub route_name : Dir → EventMask → Text → Check
route_name hypr_config mask name =
    if text_eq name (codes "gpu-select")
    then record no_check { gpu = true }
    else (if text_eq name (codes "power-override")
        then record no_check { power = true }
        else (if text_eq name (codes "kbd-level")
            then record no_check { kbd_level = true }
            else (if text_eq name (codes "profiles") && (mask.create || mask.moved_to)
                then record no_check { profiles = true; rewatch = true }
                else no_check)))
route_name runtime mask name =
    if text_eq name (codes "hyprstate-suspend-request")
    then record no_check { suspend = true }
    else (if text_eq name (codes "hyprstate-kbd-override")
        then record no_check { kbd_override = true }
        else no_check)
route_name _ mask name =
    if option_eq text_eq (extension name) (some (codes "toml"))
    then record no_check { profiles = true }
    else no_check

abbrev is_profiles : Dir → Bool
is_profiles user_profiles = true
is_profiles system_profiles = true
is_profiles _ = false

abbrev route_named : Dir → EventMask → Option Text → Check
route_named dir mask none = no_check
route_named dir mask (some name) = route_name dir mask name

unfoldable pub route : Dir → EventMask → Option Text → Check
route dir mask name =
    if mask.overflow
    then check_all
    else (if mask.ignored
        then record no_check { profiles = is_profiles dir; rewatch = true }
        else route_named dir mask name)
