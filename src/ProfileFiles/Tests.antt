-- ===== src/ProfileFiles/Tests.antt =====
-- The merge at concrete directories (src/sysio/profiles.rs).
use hyprstate.Prelude.{◌≡◌, map, Text, codes, text_eq, List, [], ◌∷◌, some}
use hyprstate.Profiles.{EdpPolicy, GpuPref}
use hyprstate.Daemon.Ctx.{TomlProfile}
use hyprstate.ProfileFiles.{load_profiles_merged, find_name}
use hyprstate.ProfileFiles.Lookup.{count_name, load_profiles_merged_lem}

abbrev profile : Text → EdpPolicy → TomlProfile
profile n edp = record { name = n; edp = edp; gpu = GpuPref.auto; hooks = []; body = 0 }

abbrev mine : TomlProfile
mine = profile (codes "desk") EdpPolicy.disable

abbrev theirs : List TomlProfile
theirs = profile (codes "desk") EdpPolicy.enable ∷ profile (codes "hall") EdpPolicy.auto ∷ []

load_profiles_merged_lem_example :
    (find_name (codes "desk") (load_profiles_merged (mine ∷ []) theirs).0 ≡ some mine)
    × (count_name (codes "desk") (load_profiles_merged (mine ∷ []) theirs).0 ≡ 1)
    × ((load_profiles_merged (mine ∷ []) theirs).1
        ≡ map (λ (p : TomlProfile). p.name) (load_profiles_merged (mine ∷ []) theirs).0)
unfolding find_name text_eq
load_profiles_merged_lem_example = load_profiles_merged_lem (codes "desk") (mine ∷ []) theirs
