-- ===== src/GpuCmd/Cards.antt =====
-- The cards of a snapshot (gpu_snapshot in src/sysio/sysfs.rs).
use hyprstate.Prelude.{
  ◌≡◌, refl, ap, ◌∙◌, Bool, true, false, ◌||◌, Text, text_eq, text_eq_iff, text_eq_refl, any,
  any-append, Bool-cases, inl, inr, List, [], ◌∷◌, ◌++◌, Option, arith,
}
use hyprstate.Gpu.{GpuCard}
use hyprstate.Sysio.{
  Connector, Link, read_cards, gpu_card, is_candidate, passed_over, gpu_snapshot, sort_links,
  card_links,
}

abbrev pub has_card : Text → List GpuCard → Bool
has_card n cards = any (λ (c : GpuCard). text_eq c.card n) cards

or_true : (b : Bool) → (b || true) ≡ true
or_true true = refl
or_true false = refl

-- No two cards have one name.
abbrev pub Distinct : List GpuCard → Type 0
Distinct [] = Unit
Distinct (c ∷ cards) = (has_card c.card cards ≡ false) × Distinct cards

still_seen :
    (n : Text) (seen : List Text) (m : Text)
    → any (text_eq n) seen ≡ true
    → any (text_eq n) (seen ++ m ∷ []) ≡ true
still_seen n seen m h = any-append (text_eq n) seen (m ∷ []) ∙ rw h refl

just_seen : (n : Text) (seen : List Text) → any (text_eq n) (seen ++ n ∷ []) ≡ true
just_seen n seen = any-append (text_eq n) seen (n ∷ []) ∙ rw (text_eq_refl n) (or_true _)

new_name : (n : Text) (seen : List Text) → passed_over n seen ≡ false → any (text_eq n) seen ≡ false
new_name n seen h = ground (arith, h)

-- A name that was seen is not one that was not.
other :
    (n m : Text) (seen : List Text)
    → any (text_eq n) seen ≡ true
    → any (text_eq m) seen ≡ false
    → text_eq m n ≡ false
other n m seen h k = elim (Bool-cases (text_eq m n)) [
  | inl e ↦ absurd (ground (arith, h, k, ap (λ t. any (text_eq t) seen) ((text_eq_iff m n).0 e)))
  | inr e ↦ e
]

-- A name that was seen is not given to another card.
seen-once :
    (entries : List Connector) (seen : List Text) (links : List Link) (n : Text)
    → any (text_eq n) seen ≡ true
    → has_card n (read_cards entries seen links).0 ≡ false
unfolding read_cards gpu_card
seen-once entries seen [] n h = refl
seen-once entries seen (l ∷ links) n h = elim (Bool-cases (passed_over l.card seen)) [
  | inl p ↦ rw p (seen-once entries seen links n h)
  | inr p ↦
      let later = seen-once entries (seen ++ l.card ∷ []) links n (still_seen n seen l.card h) in
      elim (Bool-cases (is_candidate l)) [
        | inl c ↦ rw (p, c) (ground (arith, later, other n l.card seen h (new_name l.card seen p)))
        | inr c ↦ rw (p, c) later
      ]
]

read_cards-Distinct :
    (entries : List Connector) (seen : List Text) (links : List Link)
    → Distinct (read_cards entries seen links).0
unfolding read_cards gpu_card
read_cards-Distinct entries seen [] = tt
read_cards-Distinct entries seen (l ∷ links) = elim (Bool-cases (passed_over l.card seen)) [
  | inl p ↦ rw p (read_cards-Distinct entries seen links)
  | inr p ↦
      let later = read_cards-Distinct entries (seen ++ l.card ∷ []) links in
      elim (Bool-cases (is_candidate l)) [
        | inl c ↦
            rw (p, c)
              (seen-once entries (seen ++ l.card ∷ []) links l.card (just_seen l.card seen), later)
        | inr c ↦ rw (p, c) later
      ]
]

-- The cards of a snapshot have different names, whatever links lead to them.
pub gpu_snapshot-Distinct :
    (entries : List Connector) (lids : List (Option Text)) (links : List Link)
    → Distinct (gpu_snapshot entries lids links).cards
unfolding gpu_snapshot
gpu_snapshot-Distinct entries lids links =
    read_cards-Distinct entries [] (sort_links (card_links links))
