-- ===== src/Powerd/Coalesce.antt =====
-- Calls of `ApplyProfile` that overlap (src/powerd/mod.rs): the invariant of the steps, and what holds once no
-- call waits.
use mathlib.Core.Option.{some-injective}
use hyprstate.Prelude.{
  any-append, ℕ, suc, ◌+◌, ◌≡◌, refl, sym, ap, ◌∙◌, ◌⊎◌, inl, inr, Bool, true, false, Text, List,
  [], ◌∷◌, ◌++◌, Option, none, some, option_eq, length, length-append, arith, Bool-cases, any,
}
use hyprstate.Power.{PowerProfile, profile_eq, from_str}
use hyprstate.Powerd.{
  Power1, request, decide, release, resume, boot, Step, asks, granted, emitted, resumed, Reach,
  started, next, queued,
}

-- The profile of the newest call that names one.
abbrev pub last_valid : List Text → Option PowerProfile
last_valid [] = none
last_valid (w ∷ ws) = elim (from_str w) [ some p ↦ some p | none ↦ last_valid ws ]

abbrev waits : PowerProfile → List PowerProfile → Bool
waits p ws = any (profile_eq p) ws

profile_eq_refl : (p : PowerProfile) → profile_eq p p ≡ true
profile_eq_refl p = ground arith

profile_eq_sound : (p q : PowerProfile) → profile_eq p q ≡ true → p ≡ q
profile_eq_sound p q h = ground arith

waits-last : (p : PowerProfile) (ws : List PowerProfile) → waits p (ws ++ p ∷ []) ≡ true
waits-last p ws = ground (arith, any-append (profile_eq p) ws (p ∷ []), profile_eq_refl p)

-- A call that is taken out of the queue leaves the others there.
waits-others :
    (q p : PowerProfile) (before after : List PowerProfile)
    → waits q (before ++ p ∷ after) ≡ true
    → (q ≡ p) ⊎ (waits q (before ++ after) ≡ true)
waits-others q p before after h = ground (
  arith,
  any-append (profile_eq q) before (p ∷ after),
  any-append (profile_eq q) before after,
  profile_eq_sound q p,
)

abbrev one_if : Option PowerProfile → ℕ
one_if none = 0
one_if (some p) = 1

pub record Inv (s : Power1) : Type 0 where
  pub latest : s.latest ≡ last_valid s.calls
  pub pending : (p : PowerProfile) → s.latest ≡ some p → (s.active ≡ p) ⊎ (waits p s.waiting ≡ true)
  pub knobs : s.knobs ≡ s.active
  pub answered : length s.calls ≡ length s.replies + length s.waiting + one_if s.holding

Inv-boot : (p : PowerProfile) → Inv (boot p)
unfolding boot
Inv-boot p = record { latest = refl; pending = λ q h. ground arith; knobs = refl; answered = refl }

Inv-queued :
    (o : Option PowerProfile) (word : Text) (s : Power1)
    → from_str word ≡ o
    → Inv s
    → Inv (queued o (record s { calls = word ∷ s.calls }))
Inv-queued none word s e v = record {
  latest = v.latest ∙ rw (e, last_valid) refl;
  pending = v.pending;
  knobs = v.knobs;
  answered = omega (arith, v.answered);
}
Inv-queued (some p) word s e v = record {
  latest = rw (e, last_valid) refl;
  pending = λ q h. inr (ground (arith, waits-last p s.waiting));
  knobs = v.knobs;
  answered = omega (arith, v.answered, length-append s.waiting (p ∷ []));
}

length-taken :
    (before after : List PowerProfile) (p : PowerProfile)
    → length (before ++ p ∷ after) ≡ suc (length (before ++ after))
length-taken before after p =
    omega (arith, length-append before (p ∷ after), length-append before after)

same_profile :
    (o : Option PowerProfile) (p : PowerProfile)
    → option_eq profile_eq o (some p) ≡ true
    → o ≡ some p
same_profile o p h = ground arith

-- A refused call leaves the newest one in the queue.
still :
    (s : Power1) (before after : List PowerProfile) (p q : PowerProfile)
    → s.waiting ≡ before ++ p ∷ after
    → option_eq profile_eq s.latest (some p) ≡ false
    → s.latest ≡ some q
    → (s.active ≡ q) ⊎ (waits q s.waiting ≡ true)
    → (s.active ≡ q) ⊎ (waits q (before ++ after) ≡ true)
still s before after p q e other l (inl x) = inl x
still s before after p q e other l (inr w) =
    elim (waits-others q p before after (ap (waits q) (sym e) ∙ w)) [
      | inl x ↦ absurd (ground (arith, profile_eq_refl p))
      | inr x ↦ inr x
    ]

Inv-decide :
    (saved : Bool) (before after : List PowerProfile) (p : PowerProfile) (s : Power1)
    → s.waiting ≡ before ++ p ∷ after
    → s.holding ≡ none
    → Inv s
    → Inv (decide saved p (record s { waiting = before ++ after }))
unfolding decide
Inv-decide saved before after p s e h v =
    elim (Bool-cases (option_eq profile_eq s.latest (some p))) [
      | inl same ↦ rw same (record {
        latest = v.latest;
        pending = λ q l. inl (some-injective _ _ (sym (same_profile s.latest p same) ∙ l));
        knobs = refl;
        answered = ground (arith, counted, h);
      })
      | inr other ↦ rw other (record {
        latest = v.latest;
        pending = λ q l. still s before after p q e other l (v.pending q l);
        knobs = v.knobs;
        answered = ground (arith, counted, h);
      })
    ]
  where
    counted : length s.calls ≡ length s.replies + suc (length (before ++ after)) + one_if s.holding
    counted =
        v.answered
        ∙ ap (λ n. length s.replies + n + one_if s.holding)
            (ap (λ ws. length ws) e ∙ length-taken before after p)

Step-Inv : {s t : Power1} → Step s t → Inv s → Inv t
unfolding request release resume
Step-Inv {s} (asks word) v = Inv-queued (from_str word) word s refl v
Step-Inv {s} (granted saved before after p e h) v = Inv-decide saved before after p s e h v
Step-Inv {s} (emitted p h) v = record {
  latest = v.latest;
  pending = v.pending;
  knobs = v.knobs;
  answered = ground (arith, v.answered, h);
}
Step-Inv {s} resumed v = record {
  latest = v.latest;
  pending = v.pending;
  knobs = refl;
  answered = v.answered;
}

pub Reach-Inv : {s : Power1} → Reach s → Inv s
Reach-Inv (started p) = Inv-boot p
Reach-Inv (next r st) = Step-Inv st (Reach-Inv r)

-- In every reachable state, the replies, the calls that wait and the one that emits its signals are
-- together as many as the calls that were made.
pub answered_lem :
    {s : Power1} → Reach s → length s.calls ≡ length s.replies + length s.waiting + one_if s.holding
answered_lem r = (Reach-Inv r).answered
