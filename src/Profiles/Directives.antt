-- ===== src/Profiles/Directives.antt =====
-- How a directive line that is written out is read (crates/hyprstate-fsm/src/profiles.rs).
use hyprstate.Prelude.{
  is_space, neat_filled, trim_start, ◌≡◌, refl, Bool, true, false, Text, ◌∷◌, some, trim, trim_end,
  is_empty, neat, trim-neat,
}
use hyprstate.Profiles.{directive_of, key_ok}

leading_blank : (t : Text) → trim (b' ' ∷ t) ≡ trim t
unfolding trim_start is_space
leading_blank t = refl

-- The value is what stands after the blank that follows the equals sign.
pub directive_value :
    (allow_hyphen : Bool) (l val : Text)
    → neat val ≡ true
    → is_empty (trim_end l) ≡ false
    → key_ok allow_hyphen (trim_end l) ≡ true
    → directive_of allow_hyphen (some (l, b' ' ∷ val)) ≡ some (trim_end l, val)
unfolding directive_of
directive_value allow_hyphen l val h filled ok =
    rw (leading_blank val, trim-neat val h, filled, neat_filled val h, ok) refl
