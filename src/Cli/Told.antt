-- ===== src/Cli/Told.antt =====
-- What the daemon reads of the files that the commands wrote (src/cli/power.rs, src/cli/kbd.rs,
-- src/daemon/sources/files.rs).
use hyprstate.Prelude.{
  ◌≡◌, refl, ap, ◌∙◌, inl, inr, ℕ, ◌≤◌, Bool, true, false, Bool-cases, Text, codes, text_eq,
  text_eq_iff, is_digit, is_space, all, unwrap_or, print_nat, print_nat-digits, print_nat-filled,
  parse_i64, parse_i64-print_i64, print_i64, pos, negsuc, ℤ, [], ◌∷◌, Option, none, some, arith,
  if◌then◌else◌,
}
use hyprstate.Power.{PowerProfile, power_saver, balanced, performance, as_str, from_str}
use hyprstate.Kbd.{clamp_level, step_level, default_kbd_level_pct}
use hyprstate.Kbd.Levels.{step_level_bounds}
use hyprstate.Sysio.{read_first_word}
use hyprstate.Daemon.Sources.Files.{read_kbd_level, level_of}
use hyprstate.Cli.{
  CliFiles, CliIo, stored_line, if_profile, override_profile, power_set, next_word, power_run,
  stored_level, apply_level, kbd_run,
}
use hyprstate.Cli.Words.{solid, read_first_word-stored_line}

digits_solid : (w : Text) → all is_digit w ≡ true → solid w ≡ true
unfolding is_digit is_space
digits_solid [] h = refl
digits_solid (c ∷ w) h = ground (arith, digits_solid w)

-- The level that the daemon's task reads of the file.
abbrev pub told_level : CliFiles → Option ℕ
told_level files = read_kbd_level (read_first_word files.kbd_level)

-- `parse::<PowerProfile>().ok()` of the word, if there is one.
unfoldable pub word_profile : Option Text → Option PowerProfile
unfolding from_str
word_profile none = none
word_profile (some w) = from_str w

-- The profile that the daemon's task reads of the file.
unfoldable pub told_profile : CliFiles → Option PowerProfile
unfolding word_profile
told_profile files = word_profile (read_first_word files.power_override)

clamp_level-same : (n : ℕ) → n ≤ 100 → clamp_level (pos n) ≡ n
unfolding clamp_level
clamp_level-same n h = ground arith

parse_i64-print_nat : (n : ℕ) → n ≤ 100 → parse_i64 (print_nat n) ≡ some (pos n)
unfolding print_i64
parse_i64-print_nat n h = parse_i64-print_i64 (pos n) (ground (arith, h))

told-print_nat : (n : ℕ) → n ≤ 100 → read_kbd_level (some (print_nat n)) ≡ some n
unfolding read_kbd_level
told-print_nat n h = rw (parse_i64-print_nat n h) (ap some (clamp_level-same n h))

bounded : (z : Option ℤ) → unwrap_or (level_of z) default_kbd_level_pct ≤ 100
unfolding clamp_level
bounded none = omega arith
bounded (some (pos n)) = ground arith
bounded (some (negsuc n)) = omega arith

stored_bounds : (o : Option Text) → unwrap_or (read_kbd_level o) default_kbd_level_pct ≤ 100
unfolding read_kbd_level
stored_bounds none = omega arith
stored_bounds (some w) = bounded (parse_i64 w)

-- The order in which `power cycle` goes through the overrides.
abbrev pub next_override : Option PowerProfile → Option PowerProfile
next_override none = some power_saver
next_override (some power_saver) = some balanced
next_override (some balanced) = some performance
next_override (some performance) = none

stored_level-bounds : (files : CliFiles) → stored_level files ≤ 100
unfolding stored_level
stored_level-bounds files = stored_bounds (read_first_word files.kbd_level)

module _ (io : CliIo) where
  apply_level-told :
      (level : ℕ) (files : CliFiles)
      → level ≤ 100
      → io.level_written ≡ true
      → io.runtime_dir ≡ true
      → io.marker_written ≡ true
      → (told_level (apply_level io level files).1 ≡ some level)
        × ((apply_level io level files).1.kbd_marker ≡ some (codes "manual\n"))
  unfolding apply_level
  apply_level-told level files h a b c = (
    ap (λ (r : ℕ × CliFiles). told_level r.1) applied
        ∙ ap read_kbd_level (
            read_first_word-stored_line (print_nat level)
              (digits_solid (print_nat level) (print_nat-digits level)) (print_nat-filled level))
        ∙ told-print_nat level h,
    ap (λ (r : ℕ × CliFiles). r.1.kbd_marker) applied,
  )
    where
      applied : apply_level io level files ≡ (
        0,
        record files {
          kbd_level = some (stored_line (print_nat level));
          kbd_marker = some (codes "manual\n");
        },
      )
      applied = rw (a, b, c) refl

  -- Where the level and the marker can be written and the runtime directory is named, a step up or
  -- down stores a level that the daemon's task reads back, one step from the stored one, and arms the
  -- override.
  pub kbd_run-told :
      (up : Bool) (value : Option Text) (files : CliFiles)
      → io.level_written ≡ true
      → io.runtime_dir ≡ true
      → io.marker_written ≡ true
      → (told_level (kbd_run io (if up then codes "up" else codes "down") value files).1
          ≡ some (step_level (stored_level files) up))
        × ((kbd_run io (if up then codes "up" else codes "down") value files).1.kbd_marker
            ≡ some (codes "manual\n"))
  unfolding kbd_run text_eq
  kbd_run-told true value files a b c =
      apply_level-told (step_level (stored_level files) true) files
        (step_level_bounds (stored_level files) true (stored_level-bounds files)) a b c
  kbd_run-told false value files a b c =
      apply_level-told (step_level (stored_level files) false) files
        (step_level_bounds (stored_level files) false (stored_level-bounds files)) a b c

  -- What `power set` stores is what the daemon's task reads.
  power_set-told :
      (p : PowerProfile) (files : CliFiles)
      → io.override_written ≡ true
      → told_profile (power_set io (some (as_str p)) files).1 ≡ some p
  unfolding power_set told_profile text_eq from_str read_first_word is_space
  power_set-told power_saver files a = rw a refl
  power_set-told balanced files a = rw a refl
  power_set-told performance files a = rw a refl

  power_set-cleared :
      (files : CliFiles)
      → io.override_removed ≡ true
      → told_profile (power_set io (some (codes "auto")) files).1 ≡ none
  unfolding power_set told_profile text_eq read_first_word
  power_set-cleared files a = rw a refl

  next_word_lem :
      (o : Option Text) (files : CliFiles)
      → io.override_written ≡ true
      → io.override_removed ≡ true
      → told_profile (power_set io (some (next_word (if_profile o))) files).1
        ≡ next_override (word_profile o)
  unfolding next_word word_profile from_str text_eq
  next_word_lem none files a b = power_set-told power_saver files a
  next_word_lem (some w) files a b = elim (Bool-cases (text_eq w (codes "power-saver"))) [
    | inl e ↦ rw ((text_eq_iff w _).0 e) (power_set-told balanced files a)
    | inr e ↦ elim (Bool-cases (text_eq w (codes "balanced"))) [
      | inl f ↦ rw ((text_eq_iff w _).0 f) (power_set-told performance files a)
      | inr f ↦ elim (Bool-cases (text_eq w (codes "performance"))) [
        | inl g ↦ rw ((text_eq_iff w _).0 g) (power_set-cleared files b)
        | inr g ↦ rw (e, f, g) (power_set-told power_saver files a)
      ]
    ]
  ]

  -- Where the override can be written and removed, a cycle steps what the daemon's task reads of it:
  -- from no override or an unknown word to power-saver, on to balanced, on to performance, and back to
  -- none.
  pub power_run-cycles :
      (value : Option Text) (files : CliFiles)
      → io.override_written ≡ true
      → io.override_removed ≡ true
      → told_profile (power_run io (codes "cycle") value files).1
        ≡ next_override (told_profile files)
  unfolding power_run told_profile text_eq override_profile
  power_run-cycles value files a b = next_word_lem (read_first_word files.power_override) files a b
