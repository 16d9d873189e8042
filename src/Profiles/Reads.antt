-- ===== src/Profiles/Reads.antt =====
-- Pieces of a profile's text and what reading them does to the header that is being collected
-- (crates/hyprstate-fsm/src/profiles.rs).
use mathlib.Core.List.{append_assoc}
use hyprstate.Prelude.{
  starts_with, filled-append, trim_end, ◌≡◌, refl, ap, ◌∙◌, arith, true, false, Text, List, [], ◌∷◌,
  ◌++◌, some, lines, lines-line, one_line, tight, tight-cons, is_empty, neat,
}
use hyprstate.Profiles.{
  is_directive, Header, go_on, read_line, read_lines, obey, parse_directive, directive_of, key_ok,
}
use hyprstate.Profiles.Render.{line}
use hyprstate.Profiles.Directives.{directive_value}

-- Reading the piece takes the header to another one, whatever text follows.
pub record Reads (t : Text) (h k : Header) : Type 0 where
  pub after : (rest : Text) → read_lines (lines (t ++ rest)) h ≡ read_lines (lines rest) k

pub Reads-append : {s t : Text} {h k m : Header} → Reads s h k → Reads t k m → Reads (s ++ t) h m
Reads-append {s} {t} {h} {k} {m} p q = record {
  after = λ rest.
      ap (λ x. read_lines (lines x) h) (append_assoc s t rest) ∙ p.after (t ++ rest) ∙ q.after rest;
}

pub Reads-nil : (h : Header) → Reads [] h h
Reads-nil h = record { after = λ rest. refl }

read_line-first :
    (l : Text) (ls : List Text) (h k : Header)
    → read_line l h ≡ go_on k
    → read_lines (l ∷ ls) h ≡ read_lines ls k
unfolding read_lines read_line starts_with
read_line-first l ls h k go = rw go refl

pub Reads-line :
    (l : Text) (h k : Header)
    → one_line l ≡ true
    → tight l ≡ true
    → read_line l h ≡ go_on k
    → Reads (line l) h k
Reads-line l h k one end go = record {
  after = λ rest.
      ap (λ x. read_lines (lines x) h) (append_assoc l (b'\n' ∷ []) rest)
      ∙ ap (λ ls. read_lines ls h) (lines-line l rest one end)
      ∙ read_line-first l (lines rest) h k go;
}

-- A line that is written as a directive, with a value that is trimmed already.
pub obeyed :
    (l val : Text) (h : Header)
    → neat val ≡ true
    → is_empty (trim_end l) ≡ false
    → key_ok false (trim_end l) ≡ true
    → (text : Text) → is_directive text ≡ true
    → parse_directive text false ≡ directive_of false (some (l, b' ' ∷ val))
    → read_line text h ≡ obey (trim_end l) val h
unfolding read_line
obeyed l val h good filled named text lead read =
    rw (lead, read ∙ directive_value false l val good filled named) refl

pub tight-append : (s t : Text) → is_empty t ≡ false → tight t ≡ true → tight (s ++ t) ≡ true
tight-append [] t h w = w
tight-append (c ∷ s) t h w = tight-cons c (s ++ t) (filled-append s t h) (tight-append s t h w)

pub one_line-append :
    (s t : Text) → one_line s ≡ true → one_line t ≡ true → one_line (s ++ t) ≡ true
unfolding one_line
one_line-append [] t h w = w
one_line-append (c ∷ s) t h w = ground (arith, one_line-append s t)
