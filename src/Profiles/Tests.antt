-- ===== src/Profiles/Tests.antt =====
-- Profiles at concrete layouts and paths (crates/hyprstate-fsm/src/profiles.rs). Doubles are written
-- as their print.
use hyprstate.Prelude.{
  starts_with, ◌≡◌, refl, ◌++◌, [], ◌∷◌, codes, Text, false, pos, negsuc, ok, some, one_line,
  is_space, tight,
}
use hyprstate.Profiles.{EdpPolicy, GpuPref, lua, parse_profile}
use hyprstate.Profiles.Lua.{lua_string_literal, lua_body, after_literal, unescape, literal_reads}
use hyprstate.Profiles.Render.{
  MonitorSnapshot, CaptureLayout, capture_layout, render_profile_lua, profile_text, insert,
  sort_by_key, filter, match_set,
}
use hyprstate.Profiles.RoundTrip.{Words}
use hyprstate.Profiles.Saved.{render-parse}

literal_reads_example :
    (after_literal (lua_string_literal (codes "/p/a\"b\\c.lua") ++ codes ")") ≡ some (codes ")"))
    × (unescape false (lua_body (codes "/p/a\"b\\c.lua")) ≡ codes "/p/a\"b\\c.lua")
literal_reads_example = literal_reads (codes "/p/a\"b\\c.lua") (codes ")") refl

abbrev edp_word : EdpPolicy → Text
edp_word EdpPolicy.auto = codes "auto"
edp_word EdpPolicy.enable = codes "enable"
edp_word EdpPolicy.disable = codes "disable"

abbrev gpu_word : GpuPref → Text
gpu_word GpuPref.auto = codes "auto"
gpu_word GpuPref.igpu = codes "igpu"
gpu_word GpuPref.dgpu = codes "dgpu"

words : Words edp_word gpu_word
words = record {
  edp_auto = refl;
  edp_enable = refl;
  edp_disable = refl;
  gpu_igpu = refl;
  gpu_dgpu = refl;
}

abbrev panel : MonitorSnapshot Text
panel = record {
  name = codes "eDP-1";
  description = codes "BOE 0x0BC9";
  width = 2560;
  height = 1600;
  refresh = codes "165.00";
  x = pos 2560;
  y = pos 0;
  scale = codes "1.25";
  transform = 0;
  disabled = false;
}

abbrev desk : MonitorSnapshot Text
desk = record {
  name = codes "DP-3";
  description = codes "Dell U2723QE";
  width = 3840;
  height = 2160;
  refresh = codes "59.94";
  x = pos 0;
  y = pos 0;
  scale = codes "1.50";
  transform = 0;
  disabled = false;
}

-- The panel stands to the right of the monitor, and only the monitor is a rule.
abbrev docked : CaptureLayout Text
docked = record {
  enabled = desk ∷ panel ∷ [];
  disabled = [];
  match_descs = codes "Dell U2723QE" ∷ [];
}

render-parse_example :
    let rendered =
      profile_text
        (λ t. t)
        edp_word
        gpu_word
        (codes "desk")
        (codes "2026-09-01")
        EdpPolicy.disable
        GpuPref.dgpu
        (some (negsuc 2))
        docked in
    (render_profile_lua
        (λ t. t)
        edp_word
        gpu_word
        (codes "desk")
        (codes "2026-09-01")
        (panel ∷ desk ∷ [])
        EdpPolicy.disable
        GpuPref.dgpu
        (some (negsuc 2))
      ≡ ok rendered)
    × (parse_profile (codes "saved") lua rendered.0
        ≡ ok (
          record {
            name = codes "saved";
            format = lua;
            matches = codes "desc:Dell U2723QE" ∷ [];
            edp = EdpPolicy.disable;
            gpu = GpuPref.dgpu;
            hooks = [];
            priority = negsuc 2;
          },
          [],
        ))
unfolding capture_layout insert sort_by_key filter match_set one_line tight is_space starts_with
render-parse_example =
    render-parse words (λ t. t) (codes "desk") (codes "2026-09-01") (codes "saved") lua
      EdpPolicy.disable GpuPref.dgpu (some (negsuc 2)) (panel ∷ desk ∷ []) docked refl refl refl
      refl refl
