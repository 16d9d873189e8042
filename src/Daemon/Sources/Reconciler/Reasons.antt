-- ===== src/Daemon/Sources/Reconciler/Reasons.antt =====
-- The reason string of a pass (describe in src/daemon/sources/reconciler.rs).
use hyprstate.Prelude.{
  ℕ, suc, ◌+◌, ◌≡◌, refl, ◌∙◌, Bool, true, false, ◌||◌, Text, text_eq, text_eq_iff, any, any-append,
  Bool-cases, inl, inr, List, [], ◌∷◌, ◌++◌, arith, if◌then◌else◌,
}
use hyprstate.Daemon.Outside.{Trigger}
use hyprstate.Daemon.Sources.Reconciler.{trigger_word, describe_names}

-- How often a name stands in a list.
abbrev pub times : Text → List Text → ℕ
times n [] = 0
times n (m ∷ names) = if text_eq n m then suc (times n names) else times n names

abbrev pub asked_for : Text → List Trigger → Bool
asked_for n reasons = any (λ r. text_eq n (trigger_word r)) reasons

times-append : (n : Text) (xs ys : List Text) → times n (xs ++ ys) ≡ times n xs + times n ys
times-append n [] ys = omega arith
times-append n (x ∷ xs) ys = ground (arith, times-append n xs ys)

times-none : (n : Text) (xs : List Text) → any (text_eq n) xs ≡ false → times n xs ≡ 0
times-none n [] h = refl
times-none n (x ∷ xs) h = ground (arith, times-none n xs)

-- The names that are kept so far, and the name of one more reason.
abbrev with_name : Text → List Text → List Text
with_name s names = if any (text_eq s) names then names else names ++ s ∷ []

-- A name that equals another one stands where that one stands.
same_place :
    (n s : Text) (names : List Text)
    → text_eq n s ≡ true
    → any (text_eq n) names ≡ any (text_eq s) names
same_place n s names e = rw ((text_eq_iff n s).0 e) refl

once_more :
    (n s : Text) (names : List Text)
    → times n (with_name s names)
      ≡ (if any (text_eq n) names then times n names else if text_eq n s then 1 else 0)
once_more n s names = elim (Bool-cases (any (text_eq s) names)) [
  | inl p ↦ rw p (known p)
  | inr p ↦ rw (p, times-append n names (s ∷ [])) (fresh p)
]
  where
    known :
        any (text_eq s) names ≡ true
        → times n names
          ≡ (if any (text_eq n) names then times n names else if text_eq n s then 1 else 0)
    known p = ground (arith, times-none n names, same_place n s names)

    fresh :
        any (text_eq s) names ≡ false
        → times n names + times n (s ∷ [])
          ≡ (if any (text_eq n) names then times n names else if text_eq n s then 1 else 0)
    fresh p = ground (arith, times-none n names, same_place n s names)

holds_name :
    (n s : Text) (names : List Text)
    → any (text_eq n) (with_name s names) ≡ (any (text_eq n) names || text_eq n s)
holds_name n s names = elim (Bool-cases (any (text_eq s) names)) [
  | inl p ↦ rw p (ground (arith, same_place n s names, p))
  | inr p ↦ rw (p, any-append (text_eq n) names (s ∷ [])) (ground arith)
]

times-from :
    (n : Text) (names : List Text) (reasons : List Trigger)
    → times n (describe_names names reasons)
      ≡ (if any (text_eq n) names then times n names else if asked_for n reasons then 1 else 0)
unfolding describe_names
times-from n names [] = ground (arith, times-none n names)
times-from n names (r ∷ reasons) =
    times-from n (with_name (trigger_word r) names) reasons
    ∙ rw (holds_name n (trigger_word r) names, once_more n (trigger_word r) names) (ground arith)

-- Each reason of a burst is named once, however often it was asked for, and no other is named.
pub describe_names-times :
    (n : Text) (reasons : List Trigger)
    → times n (describe_names [] reasons) ≡ (if asked_for n reasons then 1 else 0)
describe_names-times n reasons = times-from n [] reasons
