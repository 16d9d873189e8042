-- ===== src/Cli/Words.antt =====
-- The first word of a file that holds one word and a line feed (read_first_word of
-- src/sysio/sysfs.rs).
use hyprstate.Prelude.{
  ◌≡◌, refl, ap, ◌∙◌, ℕ, Bool, true, false, not, is_space, is_empty, all, Bool-cases, inl, inr,
  Text, [], ◌∷◌, some, arith,
}
use hyprstate.Sysio.{leading_word, skip_space, if_any, read_first_word}
use hyprstate.Cli.{stored_line}

-- No white space.
abbrev pub solid : Text → Bool
solid w = all (λ c. not (is_space c)) w

leading_word-cons :
    (c : ℕ) (t : Text) → is_space c ≡ false → leading_word (c ∷ t) ≡ c ∷ leading_word t
unfolding leading_word
leading_word-cons c t e = rw e refl

solid_first : (c : ℕ) (w : Text) → solid (c ∷ w) ≡ true → is_space c ≡ false
solid_first c w h = elim (Bool-cases (is_space c)) [
  | inl e ↦ absurd (ground (arith, e, h))
  | inr e ↦ e
]

solid_rest : (c : ℕ) (w : Text) → solid (c ∷ w) ≡ true → solid w ≡ true
solid_rest c w h = ground (arith, h)

line_feed : is_space b'\n' ≡ true
unfolding is_space
line_feed = refl

leading_word-stored_line : (w : Text) → solid w ≡ true → leading_word (stored_line w) ≡ w
unfolding leading_word
leading_word-stored_line [] h = rw line_feed refl
leading_word-stored_line (c ∷ w) h =
    leading_word-cons c (stored_line w) (solid_first c w h)
    ∙ ap (λ t. c ∷ t) (leading_word-stored_line w (solid_rest c w h))

skip_space-cons : (c : ℕ) (t : Text) → is_space c ≡ false → skip_space (c ∷ t) ≡ c ∷ t
unfolding skip_space
skip_space-cons c t e = rw e refl

pub read_first_word-stored_line :
    (w : Text)
    → solid w ≡ true
    → is_empty w ≡ false
    → read_first_word (some (stored_line w)) ≡ some w
unfolding read_first_word
read_first_word-stored_line [] h e = absurd (ground (arith, e))
read_first_word-stored_line (c ∷ w) h e =
    ap (λ t. if_any (leading_word t)) (skip_space-cons c (stored_line w) (solid_first c w h))
    ∙ ap if_any (leading_word-stored_line (c ∷ w) h)
