-- ===== src/Power/Conf/Last.antt =====
-- A directive at the end of power.conf (crates/hyprstate-fsm/src/power.rs), after any other text.
use hyprstate.Prelude.{
  text_eq, starts_with, print_i64-neat, print_i64-one_line, cut, lines-single, is_space, trim_start,
  strip_prefix, trim_end, ◌≡◌, refl, ap, ◌∙◌, arith, true, false, Text, codes, List, [], ◌∷◌, ◌++◌,
  map, some, ℤ, clamp, lines, lines-append, strip_cr, pieces, print_i64, parse_i64,
  parse_i64-print_i64, fits_i64, one_line, is_empty, ◌%◌, ◌^◌,
}
use hyprstate.Profiles.Directives.{directive_value}
use hyprstate.Profiles.{parse_directive, directive_of, leader, key_ok}
use hyprstate.Power.Conf.{
  text_eq, ConfWarning, PowerConf, Parsed, default_conf, conf_line, conf_lines, conf_directive,
  parse_power_conf, store,
}

conf_lines-append :
    (xs ys : List Text) (p : Parsed) → conf_lines (xs ++ ys) p ≡ conf_lines ys (conf_lines xs p)
unfolding conf_lines
conf_lines-append [] ys p = refl
conf_lines-append (x ∷ xs) ys p = conf_lines-append xs ys (conf_line x p)

-- The settings that the text before the last line leaves.
before : Text → Parsed
before text = conf_lines (map strip_cr (pieces text)) (default_conf, [])

parse-last :
    (text line : Text)
    → lines line ≡ line ∷ []
    → parse_power_conf (text ++ b'\n' ∷ line) ≡ conf_line line (before text)
unfolding parse_power_conf before conf_lines
parse-last text line h =
    ap (λ ls. conf_lines ls (default_conf, []))
      (lines-append text line ∙ ap (λ l. map strip_cr (pieces text) ++ l) h)
    ∙ conf_lines-append (map strip_cr (pieces text)) (line ∷ []) (default_conf, [])

abbrev line_of : Text → ℤ → Text
line_of key n = codes "#@ " ++ key ++ codes " = " ++ print_i64 n

-- The settings that are read from a text which ends with that line.
abbrev conf_after : Text → Text → ℤ → PowerConf
conf_after text key n = (parse_power_conf (text ++ b'\n' ∷ line_of key n)).0

module _ (text : Text) (n : ℤ) where
  after :
      (key : Text)
      → one_line (line_of key n) ≡ true
      → parse_directive (line_of key n) true ≡ some (key, print_i64 n)
      → conf_after text key n ≡ (conf_directive key (print_i64 n) (before text)).0
  unfolding conf_line starts_with
  after key one read =
      ap (λ p. p.0) (parse-last text (line_of key n) (lines-single _ one refl)) ∙ obeyed
    where
      obeyed :
          (conf_line (line_of key n) (before text)).0
          ≡ (conf_directive key (print_i64 n) (before text)).0
      obeyed = rw read refl

  value :
      (l : Text)
      → is_empty (trim_end l) ≡ false
      → key_ok true (trim_end l) ≡ true
      → directive_of true (some (l, b' ' ∷ print_i64 n)) ≡ some (trim_end l, print_i64 n)
  value l = directive_value true l (print_i64 n) (print_i64-neat n)

  stored :
      (set : ℤ → PowerConf) (w : ConfWarning) (p : Parsed)
      → fits_i64 n ≡ true
      → (store (parse_i64 (print_i64 n)) set w p).0 ≡ set n
  unfolding store
  stored set w (c, ws) fits = rw (parse_i64-print_i64 n fits) refl

  after_grace :
      fits_i64 n ≡ true
      → (conf_after text (codes "lid-grace") n).lid_grace_secs ≡ clamp 0 600 n % 2 ^ 16
  unfolding parse_directive leader strip_prefix trim_start is_space cut trim_end key_ok one_line
      conf_directive text_eq
  after_grace fits =
      ap (λ c. c.lid_grace_secs)
        (after (codes "lid-grace") (print_i64-one_line n) (value (codes "lid-grace ") refl refl)
          ∙ stored _ _ (before text) fits)

  after_low :
      fits_i64 n ≡ true
      → (conf_after text (codes "battery-low-percent") n).battery_low_pct ≡ clamp 1 50 n % 2 ^ 8
  unfolding parse_directive leader strip_prefix trim_start is_space cut trim_end key_ok one_line
      conf_directive text_eq
  after_low fits =
      ap (λ c. c.battery_low_pct)
        (after (codes "battery-low-percent") (print_i64-one_line n)
            (value (codes "battery-low-percent ") refl refl)
          ∙ stored _ _ (before text) fits)

  after_idle :
      fits_i64 n ≡ true
      → (conf_after text (codes "kbd-idle") n).kbd_idle_secs ≡ clamp 1 600 n % 2 ^ 16
  unfolding parse_directive leader strip_prefix trim_start is_space cut trim_end key_ok one_line
      conf_directive text_eq
  after_idle fits =
      ap (λ c. c.kbd_idle_secs)
        (after (codes "kbd-idle") (print_i64-one_line n) (value (codes "kbd-idle ") refl refl)
          ∙ stored _ _ (before text) fits)

  after_lux :
      fits_i64 n ≡ true
      → (conf_after text (codes "kbd-dark-lux") n).kbd_dark_lux ≡ clamp 0 1000000 n % 2 ^ 32
  unfolding parse_directive leader strip_prefix trim_start is_space cut trim_end key_ok one_line
      conf_directive text_eq
  after_lux fits =
      ap (λ c. c.kbd_dark_lux)
        (after (codes "kbd-dark-lux") (print_i64-one_line n)
            (value (codes "kbd-dark-lux ") refl refl)
          ∙ stored _ _ (before text) fits)

  -- A number directive on the last line decides its setting, whatever text comes before it: the lid
  -- grace, the battery-low percentage, the keyboard's idle time and the darkness threshold are then
  -- the number, clamped to its range.
  pub last_number :
      fits_i64 n ≡ true
      → ((conf_after text (codes "lid-grace") n).lid_grace_secs ≡ clamp 0 600 n)
        × ((conf_after text (codes "battery-low-percent") n).battery_low_pct ≡ clamp 1 50 n)
        × ((conf_after text (codes "kbd-idle") n).kbd_idle_secs ≡ clamp 1 600 n)
        × ((conf_after text (codes "kbd-dark-lux") n).kbd_dark_lux ≡ clamp 0 1000000 n)
  last_number fits = (
    after_grace fits ∙ ground arith,
    after_low fits ∙ ground arith,
    after_idle fits ∙ ground arith,
    after_lux fits ∙ ground arith,
  )
