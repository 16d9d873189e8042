-- ===== src/Profiles/Render.antt =====
-- The capture of the live layout as a profile (crates/hyprstate-fsm/src/profiles.rs). The decimal
-- print of a double and the words of the monitor_profiles enumerations are parameters.
use hyprstate.Prelude.{
  ℕ, Bool, true, false, not, ◌&&◌, ◌==◌, leb, any, Text, codes, starts_with, is_empty, ℤ, pos,
  negsuc, print_nat, print_i64, List, [], ◌∷◌, ◌++◌, map, Option, none, some, Result, ok, err,
  map_ok, if◌then◌else◌,
}
use hyprstate.Profiles.{EdpPolicy, GpuPref}

-- `F` is the type of the doubles.
pub record MonitorSnapshot (F : Type 0) : Type 0 where
  pub name : Text
  pub description : Text
  pub width : ℕ
  pub height : ℕ
  pub refresh : F
  pub x : ℤ
  pub y : ℤ
  pub scale : F
  pub transform : ℕ
  pub disabled : Bool

pub data CaptureWarning : Type 0 where
  comma_in_description : Text → Text → CaptureWarning

pub data CaptureError : Type 0 where
  no_enabled_monitors : CaptureError

-- `s.trim_end_matches(c)`.
unfoldable pub trim_end_matches : ℕ → Text → Text
trim_end_matches c [] = []
trim_end_matches c (d ∷ s) =
    let rest = trim_end_matches c s in if d == c && is_empty rest then [] else d ∷ rest

abbrev int_leb : ℤ → ℤ → Bool
int_leb (pos a) (pos b) = leb a b
int_leb (pos a) (negsuc b) = false
int_leb (negsuc a) (pos b) = true
int_leb (negsuc a) (negsuc b) = leb b a

abbrev int_eq : ℤ → ℤ → Bool
int_eq a b = int_leb a b && int_leb b a

module _ {F : Type 0} where
  abbrev pub is_internal : MonitorSnapshot F → Bool
  is_internal m = starts_with m.name (codes "eDP")

  unfoldable pub selector : MonitorSnapshot F → Text × List CaptureWarning
  selector m =
      if is_internal m
      then (m.name, [])
      else (if any (λ c. c == b',') m.description
          then (m.name, comma_in_description m.name m.description ∷ [])
          else (codes "desc:" ++ m.description, []))

  -- `(a.x, a.y) <= (b.x, b.y)`.
  abbrev pub left_of : MonitorSnapshot F → MonitorSnapshot F → Bool
  left_of a b = if int_eq a.x b.x then int_leb a.y b.y else int_leb a.x b.x

  -- A stable sort.
  unfoldable pub insert : MonitorSnapshot F → List (MonitorSnapshot F) → List (MonitorSnapshot F)
  insert m [] = m ∷ []
  insert m (n ∷ ns) = let rest = insert m ns in if left_of m n then m ∷ n ∷ ns else n ∷ rest

  unfoldable pub sort_by_key : List (MonitorSnapshot F) → List (MonitorSnapshot F)
  sort_by_key [] = []
  sort_by_key (m ∷ ms) = insert m (sort_by_key ms)

  -- `iter().filter(p)`.
  unfoldable pub filter :
      (MonitorSnapshot F → Bool) → List (MonitorSnapshot F) → List (MonitorSnapshot F)
  filter p [] = []
  filter p (m ∷ ms) = let rest = filter p ms in if p m then m ∷ rest else rest

pub record CaptureLayout (F : Type 0) : Type 0 where
  pub enabled : List (MonitorSnapshot F)
  pub disabled : List (MonitorSnapshot F)
  pub match_descs : List Text

module _ {F : Type 0} where
  unfoldable pub match_set : List (MonitorSnapshot F) → List (MonitorSnapshot F) → List Text
  match_set externals enabled =
      if is_empty externals
      then map (λ m. m.description) enabled
      else map (λ m. m.description) externals

  unfoldable pub capture_layout : List (MonitorSnapshot F) → Result CaptureError (CaptureLayout F)
  capture_layout monitors =
      let enabled = filter (λ m. not m.disabled) monitors in
      if is_empty enabled
      then err no_enabled_monitors
      else (let sorted = sort_by_key enabled in
          ok (record {
            enabled = sorted;
            disabled = filter (λ m. m.disabled) monitors;
            match_descs = match_set (filter (λ m. not (is_internal m)) sorted) sorted;
          }))

-- A format string that ends in a line feed.
abbrev pub line : Text → Text
line l = l ++ b'\n' ∷ []

unfoldable pub match_lines : Text → List Text → Text
match_lines lead [] = []
match_lines lead (d ∷ ds) = line (lead ++ codes "@ match = desc:" ++ d) ++ match_lines lead ds

unfoldable pub priority_line : Text → Option ℤ → Text
priority_line lead none = []
priority_line lead (some p) = line (lead ++ codes "@ priority = " ++ print_i64 p)

module _ (edp_as_str : EdpPolicy → Text) (gpu_as_str : GpuPref → Text) where
  unfoldable pub gpu_line : Text → GpuPref → Text
  gpu_line lead GpuPref.auto = []
  gpu_line lead gpu = line (lead ++ codes "@ gpu = " ++ gpu_as_str gpu)

  unfoldable pub render_directives : Text → List Text → EdpPolicy → GpuPref → Option ℤ → Text
  render_directives lead match_descs edp gpu priority =
      match_lines lead match_descs
      ++ (line (lead ++ codes "@ edp = " ++ edp_as_str edp)
          ++ (gpu_line lead gpu ++ priority_line lead priority))

module _ {F : Type 0} (fixed2 : F → Text) where
  abbrev pub fmt_num : F → Text
  fmt_num v = trim_end_matches b'.' (trim_end_matches b'0' (fixed2 v))

  unfoldable pub enabled_lines : List (MonitorSnapshot F) → Text × List CaptureWarning
  enabled_lines [] = ([], [])
  enabled_lines (m ∷ ms) =
      let (sel, ws) = selector m in
      let (rest, more) = enabled_lines ms in
      (
        line (
              codes "hl.monitor({ output = \""
              ++ (sel
                  ++ codes "\", mode = \""
                  ++ print_nat m.width
                  ++ codes "x"
                  ++ print_nat m.height
                  ++ codes "@"
                  ++ fmt_num m.refresh
                  ++ codes "\", position = \""
                  ++ print_i64 m.x
                  ++ codes "x"
                  ++ print_i64 m.y
                  ++ codes "\", scale = \""
                  ++ fmt_num m.scale
                  ++ codes "\", transform = "
                  ++ print_nat m.transform
                  ++ codes ", disabled = false })"))
            ++ rest,
        ws ++ more,
      )

module _ {F : Type 0} where
  unfoldable pub disabled_lines : List (MonitorSnapshot F) → Text × List CaptureWarning
  disabled_lines [] = ([], [])
  disabled_lines (m ∷ ms) =
      let (sel, ws) = selector m in
      let (rest, more) = disabled_lines ms in
      (
        line (codes "hl.monitor({ output = \"" ++ (sel ++ codes "\", disabled = true })")) ++ rest,
        ws ++ more,
      )

abbrev pub pinning_note : Text
pinning_note =
    codes
      "\n-- Add workspace pinning if desired, e.g.:\n-- hl.workspace_rule({ workspace = \"1\", monitor = \"desc:...\", default = true })\n"

module _ {F : Type 0} (fixed2 : F → Text) (edp_as_str : EdpPolicy → Text)
    (gpu_as_str : GpuPref → Text) where
  unfoldable pub profile_text :
      Text → Text → EdpPolicy → GpuPref → Option ℤ → CaptureLayout F → Text × List CaptureWarning
  profile_text name date edp gpu priority layout =
      let (on, ws) = enabled_lines fixed2 layout.enabled in
      let (off, more) = disabled_lines layout.disabled in
      (
        line (
              codes "-- Profile: "
              ++ (name ++ (codes " — captured from the live layout (" ++ (date ++ codes ")."))))
            ++ (line (codes "--")
                ++ (render_directives edp_as_str gpu_as_str (codes "--") layout.match_descs edp gpu
                      priority
                    ++ (b'\n' ∷ on ++ (off ++ pinning_note)))),
        ws ++ more,
      )

  unfoldable pub render_profile_lua :
      Text
      → Text
      → List (MonitorSnapshot F)
      → EdpPolicy
      → GpuPref
      → Option ℤ
      → Result CaptureError (Text × List CaptureWarning)
  render_profile_lua name date monitors edp gpu priority =
      map_ok (profile_text name date edp gpu priority) (capture_layout monitors)
