-- ===== src/Prelude/Lines.antt =====
-- The functions of Rust's `str` that the parsers call, on code points: white space, `trim`,
-- `strip_prefix`, the cut at a character that `find` gives, and `lines`.
use Prim.Native.Nat.{ℕ}
use mathlib.Core.Path.{◌≡◌, refl, sym, ap, ◌∙◌}
use mathlib.Core.Logic.{inl, inr}
use mathlib.Core.Bool.{Bool, true, false, not, ◌&&◌, ◌||◌}
use mathlib.Core.List.{map, List, [], ◌∷◌, ◌++◌}
use mathlib.Core.Option.{Option, none, some}
use native.Mathlib.Omega.{arith}
use hyprstate.Prelude.Tests.{Bool-cases, eqb→eq, Bool-cases, ◌==◌, if◌then◌else◌, leb}
use hyprstate.Prelude.Lists.{all}
use hyprstate.Prelude.Texts.{Text}

-- `char::is_whitespace`: the code points with the Unicode property White_Space.
unfoldable pub is_space : ℕ → Bool
is_space c =
    (leb 9 c && leb c 13)
    || c == 32
    || c == 133
    || c == 160
    || c == 5760
    || (leb 8192 c && leb c 8202)
    || c == 8232
    || c == 8233
    || c == 8239
    || c == 8287
    || c == 12288

abbrev pub is_empty {ℓ} : {A : Type ℓ} → List A → Bool
is_empty [] = true
is_empty (x ∷ xs) = false

unfoldable pub trim_start : Text → Text
trim_start [] = []
trim_start (c ∷ t) = let rest = trim_start t in if is_space c then rest else c ∷ t

unfoldable pub trim_end : Text → Text
trim_end [] = []
trim_end (c ∷ t) = let rest = trim_end t in if is_space c && is_empty rest then [] else c ∷ rest

abbrev pub trim : Text → Text
trim t = trim_end (trim_start t)

-- `t.strip_prefix(p)`.
unfoldable pub strip_prefix : Text → Text → Option Text
strip_prefix t [] = some t
strip_prefix [] (y ∷ p) = none
strip_prefix (x ∷ t) (y ∷ p) = let rest = strip_prefix t p in if x == y then rest else none

abbrev pub push_left : ℕ → Option (Text × Text) → Option (Text × Text)
push_left c none = none
push_left c (some (l, r)) = some (c ∷ l, r)

-- What stands before and after the first `sep`.
unfoldable pub cut : ℕ → Text → Option (Text × Text)
cut sep [] = none
cut sep (c ∷ t) = let rest = cut sep t in if c == sep then some ([], t) else push_left c rest

abbrev pub push_first : ℕ → List Text → List Text
push_first c [] = (c ∷ []) ∷ []
push_first c (l ∷ ls) = (c ∷ l) ∷ ls

-- The pieces between the line feeds: one more than there are line feeds.
unfoldable pub pieces : Text → List Text
pieces [] = [] ∷ []
pieces (c ∷ t) = let rest = pieces t in if c == b'\n' then [] ∷ rest else push_first c rest

unfoldable pub strip_cr : Text → Text
strip_cr [] = []
strip_cr (c ∷ t) = let rest = strip_cr t in if c == b'\r' && is_empty t then [] else c ∷ rest

-- A piece that a line feed ended loses one carriage return; the last one is dropped when empty.
unfoldable pub as_lines : List Text → List Text
as_lines [] = []
as_lines (l ∷ []) = if is_empty l then [] else l ∷ []
as_lines (l ∷ m ∷ ls) = strip_cr l ∷ as_lines (m ∷ ls)

-- `t.lines()`.
unfoldable pub lines : Text → List Text
lines t = as_lines (pieces t)

-- The text has no line feed.
unfoldable pub one_line : Text → Bool
one_line t = all (λ c. not (c == b'\n')) t

-- No trailing white space.
unfoldable pub tight : Text → Bool
tight [] = true
tight (c ∷ []) = not (is_space c)
tight (c ∷ d ∷ t) = tight (d ∷ t)

as_lines-cons :
    (l : Text) (ls : List Text) → is_empty ls ≡ false → as_lines (l ∷ ls) ≡ strip_cr l ∷ as_lines ls
unfolding as_lines
as_lines-cons l [] h = ground arith
as_lines-cons l (m ∷ ls) h = refl

push_first-filled : (c : ℕ) (ls : List Text) → is_empty (push_first c ls) ≡ false
push_first-filled c [] = refl
push_first-filled c (l ∷ ls) = refl

pub pieces-filled : (t : Text) → is_empty (pieces t) ≡ false
unfolding pieces
pieces-filled [] = refl
pieces-filled (c ∷ t) = elim (Bool-cases (c == b'\n')) [
  | inl e ↦ rw e refl
  | inr e ↦ rw e (push_first-filled c (pieces t))
]

pieces-line : (l t : Text) → one_line l ≡ true → pieces (l ++ b'\n' ∷ t) ≡ l ∷ pieces t
unfolding pieces one_line
pieces-line [] t h = refl
pieces-line (c ∷ l) t h = ground (arith, pieces-line l t)

cr_space : (c : ℕ) → not (is_space c) ≡ true → (c == b'\r') ≡ false
unfolding is_space
cr_space c h = elim (Bool-cases (c == b'\r')) [
  | inl e ↦ absurd (ground (arith, ap (λ x. not (is_space x)) (sym (eqb→eq c b'\r' e)) ∙ h))
  | inr e ↦ e
]

strip_cr-tight : (l : Text) → tight l ≡ true → strip_cr l ≡ l
unfolding strip_cr tight
strip_cr-tight [] h = refl
strip_cr-tight (c ∷ []) h = rw (cr_space c h) refl
strip_cr-tight (c ∷ d ∷ l) h = ground (arith, strip_cr-tight (d ∷ l))

pub trim_end-tight : (l : Text) → tight l ≡ true → trim_end l ≡ l
unfolding trim_end tight
trim_end-tight [] h = refl
trim_end-tight (c ∷ []) h = ground arith
trim_end-tight (c ∷ d ∷ l) h = ground (arith, trim_end-tight (d ∷ l))

-- The first line of a text that begins with a line.
pub lines-line :
    (l t : Text) → one_line l ≡ true → tight l ≡ true → lines (l ++ b'\n' ∷ t) ≡ l ∷ lines t
unfolding lines
lines-line l t h w =
    ap as_lines (pieces-line l t h)
    ∙ as_lines-cons l (pieces t) (pieces-filled t)
    ∙ rw (strip_cr-tight l w) refl

-- A text without white space at its ends.
unfoldable pub neat : Text → Bool
neat [] = false
neat (c ∷ t) = not (is_space c) && tight (c ∷ t)

pub tight-cons : (c : ℕ) (t : Text) → is_empty t ≡ false → tight t ≡ true → tight (c ∷ t) ≡ true
unfolding tight
tight-cons c [] h w = ground arith
tight-cons c (d ∷ t) h w = w

pub neat_filled : (t : Text) → neat t ≡ true → is_empty t ≡ false
unfolding neat
neat_filled [] h = ground arith
neat_filled (c ∷ t) h = refl

pub neat-tight : (t : Text) → neat t ≡ true → tight t ≡ true
unfolding neat
neat-tight [] h = ground arith
neat-tight (c ∷ t) h = ground arith

pub trim-neat : (t : Text) → neat t ≡ true → trim t ≡ t
unfolding neat trim_start
trim-neat [] h = ground arith
trim-neat (c ∷ t) h = rw (first) (trim_end-tight (c ∷ t) whole)
  where
    first : is_space c ≡ false
    first = ground arith

    whole : tight (c ∷ t) ≡ true
    whole = ground arith

push_first-append :
    (c : ℕ) (xs ys : List Text)
    → is_empty xs ≡ false
    → push_first c (xs ++ ys) ≡ push_first c xs ++ ys
push_first-append c [] ys h = ground arith
push_first-append c (x ∷ xs) ys h = refl

pieces-append : (s t : Text) → pieces (s ++ b'\n' ∷ t) ≡ pieces s ++ pieces t
unfolding pieces
pieces-append [] t = refl
pieces-append (c ∷ s) t = elim (Bool-cases (c == b'\n')) [
  | inl e ↦ rw (e, pieces-append s t) refl
  | inr e ↦ rw (e, pieces-append s t) (push_first-append c (pieces s) (pieces t) (pieces-filled s))
]

pub filled-append {ℓ} :
    {A : Type ℓ} (xs ys : List A) → is_empty ys ≡ false → is_empty (xs ++ ys) ≡ false
filled-append [] ys h = h
filled-append (x ∷ xs) ys h = refl

as_lines-append :
    (xs ys : List Text) → is_empty ys ≡ false → as_lines (xs ++ ys) ≡ map strip_cr xs ++ as_lines ys
as_lines-append [] ys h = refl
as_lines-append (x ∷ xs) ys h =
    as_lines-cons x (xs ++ ys) (filled-append xs ys h)
    ∙ ap (λ ls. strip_cr x ∷ ls) (as_lines-append xs ys h)

-- The lines of two texts with a line feed between them.
pub lines-append : (s t : Text) → lines (s ++ b'\n' ∷ t) ≡ map strip_cr (pieces s) ++ lines t
unfolding lines
lines-append s t =
    ap as_lines (pieces-append s t) ∙ as_lines-append (pieces s) (pieces t) (pieces-filled t)

pieces-single : (l : Text) → one_line l ≡ true → pieces l ≡ l ∷ []
unfolding pieces one_line
pieces-single [] h = refl
pieces-single (c ∷ l) h = ground (arith, pieces-single l)

pub lines-single : (l : Text) → one_line l ≡ true → is_empty l ≡ false → lines l ≡ l ∷ []
unfolding lines as_lines
lines-single l h w = rw (pieces-single l h, w) refl
