-- ===== src/Daemon/Sources/Watchers/Claims.antt =====
-- Which logind inhibitors are keep-awake claims (logind_has_real_idle_block in
-- src/daemon/sources/mod.rs), against a description without a loop or a split.
use hyprstate.Prelude.{
  ℕ, ◌==◌, Bool, true, false, not, ◌&&◌, ◌||◌, ◌≡◌, ◌↔◌, ◌⊎◌, refl, ap, sym, ◌∙◌, Text, codes,
  text_eq, text_eq_iff, text_eq_refl, any, any-append, is_empty, eqb→eq, Bool-cases, inl, inr, List,
  [], ◌∷◌, ◌++◌, arith, all,
}
use hyprstate.Daemon.Sources.Watchers.{
  Row, baseline_who, fields, push_field, idle_or_sleep, logind_has_real_idle_block,
}

-- The text stands between two colons, or between a colon and an end, of the other one.
pub data IsField (f : Text) : Text → Type 0 where
  whole : IsField f f
  first : (t : Text) → IsField f (f ++ b':' ∷ t)
  later : (u : Text) {t : Text} → IsField f t → IsField f (u ++ b':' ∷ t)

no_colon : Text → Bool
no_colon f = all (λ c. not (c == b':')) f

has_field : Text → Text → Bool
has_field f t = any (λ c. text_eq c f) (fields t)

-- How a text is split: it is one field, or its first field stands before a colon.
data Parts (f : Text) (t : Text) : Type 0 where
  single : fields t ≡ t ∷ [] → Parts f t
  before :
      (l v : Text)
      → t ≡ l ++ b':' ∷ v
      → fields t ≡ l ∷ fields v
      → (any (λ c. text_eq c f) (fields v) ≡ true → IsField f v)
      → Parts f t

Parts-IsField : (f t : Text) → Parts f t → has_field f t ≡ true → IsField f t
unfolding has_field
Parts-IsField f t (single e) h =
    rw ((text_eq_iff t f).0 (ground (arith, sym (ap (any (λ c. text_eq c f)) e) ∙ h))) whole
Parts-IsField f t (before l v e g k) h = elim (Bool-cases (text_eq l f)) [
  | inl p ↦ rw (e, (text_eq_iff l f).0 p) (first v)
  | inr p ↦ rw e (later l (k (ground (arith, p, sym (ap (any (λ c. text_eq c f)) g) ∙ h))))
]

push : (f : Text) (c : ℕ) (t : Text) → (c == b':') ≡ false → Parts f t → Parts f (c ∷ t)
unfolding fields
push f c t n (single e) = single (rw (n, e) refl)
push f c t n (before l v e g k) = before (c ∷ l) v (ap (λ s. c ∷ s) e) (rw (n, g) refl) k

parts : (f t : Text) → Parts f t
unfolding fields has_field
parts f [] = single refl
parts f (c ∷ t) = elim (Bool-cases (c == b':')) [
  | inl e ↦ before [] t (rw (eqb→eq c b':' e) refl) (rw e refl) (Parts-IsField f t (parts f t))
  | inr n ↦ push f c t n (parts f t)
]

push_field-filled : (c : ℕ) (xs : List Text) → is_empty (push_field c xs) ≡ false
push_field-filled c [] = refl
push_field-filled c (x ∷ xs) = refl

push_field-append :
    (c : ℕ) (xs ys : List Text)
    → is_empty xs ≡ false
    → push_field c (xs ++ ys) ≡ push_field c xs ++ ys
push_field-append c [] ys h = ground arith
push_field-append c (x ∷ xs) ys h = refl

fields-filled : (t : Text) → is_empty (fields t) ≡ false
unfolding fields
fields-filled [] = refl
fields-filled (c ∷ t) = elim (Bool-cases (c == b':')) [
  | inl e ↦ rw e refl
  | inr e ↦ rw e (push_field-filled c (fields t))
]

fields-colon : (u t : Text) → fields (u ++ b':' ∷ t) ≡ fields u ++ fields t
unfolding fields
fields-colon [] t = refl
fields-colon (c ∷ u) t = elim (Bool-cases (c == b':')) [
  | inl e ↦ rw (e, fields-colon u t) refl
  | inr e ↦ rw (e, fields-colon u t) (push_field-append c (fields u) (fields t) (fields-filled u))
]

fields-no_colon : (f : Text) → no_colon f ≡ true → fields f ≡ f ∷ []
unfolding fields no_colon
fields-no_colon [] h = refl
fields-no_colon (c ∷ f) h = elim (Bool-cases (c == b':')) [
  | inl e ↦ absurd (ground (arith, e, h))
  | inr e ↦ rw (e, fields-no_colon f (ground (arith, e, h))) refl
]

or_true : (b : Bool) → (b || true) ≡ true
or_true true = refl
or_true false = refl

IsField-has_field : (f : Text) {t : Text} → no_colon f ≡ true → IsField f t → has_field f t ≡ true
unfolding has_field
IsField-has_field f h whole = rw (fields-no_colon f h, text_eq_refl f) refl
IsField-has_field f h (first t) = rw (fields-colon f t, fields-no_colon f h, text_eq_refl f) refl
IsField-has_field f h (later u {t} k) =
    rw
      (
        fields-colon u t,
        any-append (λ c. text_eq c f) (fields u) (fields t),
        IsField-has_field f h k,
      )
      (or_true _)

-- A text without a colon is one of the fields exactly if it stands between colons or ends.
has_field_iff : (f t : Text) → no_colon f ≡ true → (has_field f t ≡ true) ↔ IsField f t
has_field_iff f t h = (Parts-IsField f t (parts f t), IsField-has_field f h)

-- A block on idle or sleep, by a program that is not in the baseline.
pub record IsClaim (r : Row) : Type 0 where
  pub blocks : r.mode ≡ codes "block"
  pub idle_or_sleeps : IsField (codes "idle") r.what ⊎ IsField (codes "sleep") r.what
  pub foreign : any (λ w. text_eq w r.who) baseline_who ≡ false

pub data Claimed : List Row → Type 0 where
  here : {r : Row} {rows : List Row} → IsClaim r → Claimed (r ∷ rows)
  there : {r : Row} {rows : List Row} → Claimed rows → Claimed (r ∷ rows)

idle_plain : no_colon (codes "idle") ≡ true
unfolding no_colon
idle_plain = refl

sleep_plain : no_colon (codes "sleep") ≡ true
unfolding no_colon
sleep_plain = refl

either_true : {b : Bool} {P Q : Type 0} → P ⊎ Q → (P → false ≡ true) → (Q → b ≡ true) → b ≡ true
either_true (inl x) p q = absurd (ground (arith, p x))
either_true (inr y) p q = q y

or_iff :
    (a b : Bool) {P Q : Type 0} → ((a ≡ true) ↔ P) → ((b ≡ true) ↔ Q) → ((a || b) ≡ true) ↔ (P ⊎ Q)
or_iff true b p q = (λ h. inl (p.0 refl), λ x. refl)
or_iff false b p q = (λ h. inr (q.0 h), λ x. either_true x (λ y. p.1 y) q.1)

any_or :
    (xs : List Text) (f g : Text)
    → any (λ c. text_eq c f || text_eq c g) xs
      ≡ (any (λ c. text_eq c f) xs || any (λ c. text_eq c g) xs)
any_or [] f g = refl
any_or (x ∷ xs) f g = ground (arith, any_or xs f g)

idle_or_sleep_iff :
    (t : Text) → (idle_or_sleep t ≡ true) ↔ (IsField (codes "idle") t ⊎ IsField (codes "sleep") t)
unfolding idle_or_sleep has_field
idle_or_sleep_iff t = rw (any_or (fields t) (codes "idle") (codes "sleep")) (
    or_iff _ _ (has_field_iff (codes "idle") t idle_plain)
      (has_field_iff (codes "sleep") t sleep_plain))

row_claims : Row → Bool
row_claims r =
    text_eq r.mode (codes "block")
    && (idle_or_sleep r.what && not (any (λ w. text_eq w r.who) baseline_who))

row_claims_iff : (r : Row) → (row_claims r ≡ true) ↔ IsClaim r
unfolding row_claims
row_claims_iff r = (
  λ h. record {
    blocks = (text_eq_iff r.mode (codes "block")).0 (ground (arith, h));
    idle_or_sleeps = (idle_or_sleep_iff r.what).0 (ground (arith, h));
    foreign = ground (arith, h);
  },
  λ c.
      rw
        (
          c.blocks,
          (idle_or_sleep_iff r.what).1 c.idle_or_sleeps,
          c.foreign,
          text_eq_refl (codes "block"),
        )
        refl,
)

claims-cons :
    (r : Row) (rows : List Row)
    → logind_has_real_idle_block (r ∷ rows) ≡ (row_claims r || logind_has_real_idle_block rows)
unfolding logind_has_real_idle_block row_claims
claims-cons r rows = ground arith

empty_list : Claimed [] → logind_has_real_idle_block [] ≡ true
empty_list c = elim c [ ]

either : {r : Row} {rows : List Row} → IsClaim r ⊎ Claimed rows → Claimed (r ∷ rows)
either (inl c) = here c
either (inr c) = there c

split : {r : Row} {rows : List Row} → Claimed (r ∷ rows) → IsClaim r ⊎ Claimed rows
split (here c) = inl c
split (there c) = inr c

-- The flag is set exactly if one of the rows is a keep-awake claim.
pub real_idle_block_iff :
    (rows : List Row) → (logind_has_real_idle_block rows ≡ true) ↔ Claimed rows
unfolding logind_has_real_idle_block
real_idle_block_iff [] = (λ h. absurd (ground (arith, h)), λ c. empty_list c)
real_idle_block_iff (r ∷ rows) =
    let (to, from) = or_iff (row_claims r) _ (row_claims_iff r) (real_idle_block_iff rows) in
    (λ h. either (to (sym (claims-cons r rows) ∙ h)), λ c. claims-cons r rows ∙ from (split c))
