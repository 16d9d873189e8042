-- ===== src/Profiles/RoundTrip.antt =====
-- A captured layout that is rendered and read again (crates/hyprstate-fsm/src/profiles.rs).
use mathlib.Core.List.{append-nil, append_assoc}
use hyprstate.Prelude.{
  neat-tight, subst, ℕ, ◌≡◌, refl, sym, ◌∙◌, arith, Bool, true, false, ◌&&◌, Text, codes, List, [],
  ◌∷◌, ◌++◌, map, Option, none, some, ℤ, one_line, tight, all, neat, print_i64, print_i64-neat,
  print_i64-one_line, parse_i64, parse_i64-print_i64, fits_i64, starts_with, strip_prefix,
  trim_start, is_space, cut, trim_end, text_eq, neat_filled,
}
use hyprstate.Profiles.{
  EdpPolicy, GpuPref, Header, go_on, read_line, obey, parse_directive, directive_of, leader, key_ok,
  set_edp_policy, set_gpu_pref, set_priority,
}
use hyprstate.Profiles.Render.{line, match_lines, gpu_line, priority_line}
use hyprstate.Profiles.Reads.{Reads, Reads-append, Reads-nil, Reads-line, obeyed, tight-append}

-- A description that survives the reading: it has no line feed and no white space at its end.
abbrev pub fits_line : Text → Bool
fits_line d = one_line d && tight d

abbrev pub as_rule : Text → Text
as_rule d = codes "desc:" ++ d

tight-char : (c : ℕ) (t : Text) → is_space c ≡ false → tight t ≡ true → tight (c ∷ t) ≡ true
unfolding tight
tight-char c [] h w = ground arith
tight-char c (d ∷ t) h w = w

as_rule-neat : (d : Text) → fits_line d ≡ true → neat (as_rule d) ≡ true
unfolding neat is_space tight
as_rule-neat d good = tight-char b':' d refl (ground arith)

match_line-read :
    (d : Text) (h : Header)
    → fits_line d ≡ true
    → read_line (codes "--@ match = " ++ as_rule d) h
      ≡ go_on (record h { matches = h.matches ++ as_rule d ∷ [] })
unfolding parse_directive leader strip_prefix trim_start is_space cut trim_end key_ok starts_with
    obey text_eq
match_line-read d h good =
    obeyed (codes "match ") (as_rule d) h (as_rule-neat d good) refl refl
      (codes "--@ match = " ++ as_rule d) refl refl

match_line-Reads :
    (d : Text) (h : Header)
    → fits_line d ≡ true
    → Reads
        (line (codes "--@ match = desc:" ++ d))
        h
        (record h { matches = h.matches ++ as_rule d ∷ [] })
unfolding one_line tight is_space
match_line-Reads d h good =
    Reads-line (codes "--@ match = desc:" ++ d) h _ (ground arith)
      (tight-char b':' d refl (ground arith)) (match_line-read d h good)

pub match_lines-Reads :
    (ds : List Text) (h : Header)
    → all fits_line ds ≡ true
    → Reads (match_lines (codes "--") ds) h (record h { matches = h.matches ++ map as_rule ds })
unfolding match_lines
match_lines-Reads [] h good =
    subst (λ ms. Reads [] h (record h { matches = ms })) (sym (append-nil h.matches)) (Reads-nil h)
match_lines-Reads (d ∷ ds) h good =
    subst
      (λ ms.
        Reads (line (codes "--@ match = desc:" ++ d) ++ match_lines (codes "--") ds) h
          (record h { matches = ms }))
      (append_assoc h.matches (as_rule d ∷ []) (map as_rule ds))
      (Reads-append (match_line-Reads d h (ground arith)) (match_lines-Reads ds _ (ground arith)))

abbrev pub fits : Option ℤ → Bool
fits none = true
fits (some p) = fits_i64 p

set_priority-read :
    (val : Text) (n : ℤ) (h : Header)
    → parse_i64 val ≡ some n
    → set_priority val h ≡ go_on (record h { priority = some n })
unfolding set_priority
set_priority-read val n h e = ground arith

priority-read :
    (p : ℤ) (h : Header)
    → fits_i64 p ≡ true
    → read_line (codes "--@ priority = " ++ print_i64 p) h ≡ go_on (record h { priority = some p })
unfolding parse_directive leader strip_prefix trim_start is_space cut trim_end key_ok starts_with
    obey text_eq
priority-read p h fit =
    obeyed (codes "priority ") (print_i64 p) h (print_i64-neat p) refl refl
      (codes "--@ priority = " ++ print_i64 p) refl refl
    ∙ set_priority-read (print_i64 p) p h (parse_i64-print_i64 p fit)

pub priority_line-Reads :
    (p : Option ℤ) (h : Header)
    → fits p ≡ true
    → h.priority ≡ none
    → Reads (priority_line (codes "--") p) h (record h { priority = p })
unfolding priority_line one_line
priority_line-Reads none h fit e =
    subst (λ q. Reads [] h (record h { priority = q })) e (Reads-nil h)
priority_line-Reads (some p) h fit e =
    Reads-line (codes "--@ priority = " ++ print_i64 p) h _ (print_i64-one_line p)
      (tight-append (codes "--@ priority = ") (print_i64 p)
        (neat_filled (print_i64 p) (print_i64-neat p))
        (neat-tight (print_i64 p) (print_i64-neat p)))
      (priority-read p h fit)

-- The words of the monitor_profiles crate are those that the reader knows.
pub record Words (edp_as_str : EdpPolicy → Text) (gpu_as_str : GpuPref → Text) : Type 0 where
  pub edp_auto : edp_as_str EdpPolicy.auto ≡ codes "auto"
  pub edp_enable : edp_as_str EdpPolicy.enable ≡ codes "enable"
  pub edp_disable : edp_as_str EdpPolicy.disable ≡ codes "disable"
  pub gpu_igpu : gpu_as_str GpuPref.igpu ≡ codes "igpu"
  pub gpu_dgpu : gpu_as_str GpuPref.dgpu ≡ codes "dgpu"

module _ {edp_as_str : EdpPolicy → Text} {gpu_as_str : GpuPref → Text}
    (w : Words edp_as_str gpu_as_str) where
  pub edp_line-Reads :
      (e : EdpPolicy) (h : Header)
      → Reads (line (codes "--@ edp = " ++ edp_as_str e)) h (record h { edp = e })
  unfolding read_line parse_directive directive_of leader strip_prefix trim_start is_space cut
      trim_end key_ok starts_with obey text_eq set_edp_policy one_line tight
  edp_line-Reads EdpPolicy.auto h =
      rw w.edp_auto (Reads-line (codes "--@ edp = auto") h _ refl refl refl)
  edp_line-Reads EdpPolicy.enable h =
      rw w.edp_enable (Reads-line (codes "--@ edp = enable") h _ refl refl refl)
  edp_line-Reads EdpPolicy.disable h =
      rw w.edp_disable (Reads-line (codes "--@ edp = disable") h _ refl refl refl)

  pub gpu_line-Reads :
      (g : GpuPref) (h : Header)
      → h.gpu ≡ GpuPref.auto
      → Reads (gpu_line edp_as_str gpu_as_str (codes "--") g) h (record h { gpu = g })
  unfolding read_line parse_directive directive_of leader strip_prefix trim_start is_space cut
      trim_end key_ok starts_with obey text_eq set_gpu_pref one_line tight gpu_line
  gpu_line-Reads GpuPref.auto h e = subst (λ g. Reads [] h (record h { gpu = g })) e (Reads-nil h)
  gpu_line-Reads GpuPref.igpu h e =
      rw w.gpu_igpu (Reads-line (codes "--@ gpu = igpu") h _ refl refl refl)
  gpu_line-Reads GpuPref.dgpu h e =
      rw w.gpu_dgpu (Reads-line (codes "--@ gpu = dgpu") h _ refl refl refl)
