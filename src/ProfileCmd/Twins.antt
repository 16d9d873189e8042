-- ===== src/ProfileCmd/Twins.antt =====
-- Which legacy files `migrate` goes through (src/cli/profile.rs).
use hyprstate.Prelude.{
  ◌≡◌, refl, sym, ap, ◌∙◌, subst, inl, inr, Bool, true, false, not, ◌&&◌, ◌||◌, Bool-cases, Text,
  text_eq, text_eq_iff, text_eq_refl, any, ◌⊎◌, List, [], ◌∷◌, Option, arith, if◌then◌else◌,
}
use hyprstate.Gpu.{text_le}
use hyprstate.Daemon.Startup.{put_name, sort_names}
use hyprstate.ProfileCmd.{
  file_stem, same_stem, is_lua, is_legacy, legacy_only, dedup_from, dedup, legacy_files,
}

-- Whether m has the stem of n, and is a Lua file if n is one.
abbrev pub stands_for : Text → Text → Bool
stands_for n m = same_stem m n && (is_lua m || not (is_lua n))

same_stem_trans :
    (a b c : Text) → same_stem a b ≡ true → same_stem b c ≡ true → same_stem a c ≡ true
unfolding same_stem
same_stem_trans a b c h k =
    subst (λ s. text_eq s (file_stem c) ≡ true)
      (sym ((text_eq_iff (file_stem a) (file_stem b)).0 h)) k

same_stem_sym : (a b : Text) → same_stem a b ≡ true → same_stem b a ≡ true
unfolding same_stem
same_stem_sym a b h =
    (text_eq_iff (file_stem b) (file_stem a)).1
      (sym ((text_eq_iff (file_stem a) (file_stem b)).0 h))

or_cases : (x y : Bool) → x || y ≡ true → (x ≡ true) ⊎ (y ≡ true)
or_cases true y h = inl refl
or_cases false y h = inr h

pub and_left : (x y : Bool) → x && y ≡ true → x ≡ true
and_left true y h = refl
and_left false y h = h

and_second : (x y z : Bool) → y ≡ false → x && (y || z) ≡ true → z ≡ true
and_second true y z l h = ground (arith, l, h)
and_second false y z l h = absurd (ground (arith, h))

first_of : (x y z : Bool) → x ≡ true → y ≡ true → x && (y || z) ≡ true
first_of x y z h k = ground (arith, h, k)

and_of : (x y z : Bool) → x ≡ true → z ≡ true → x && (y || z) ≡ true
and_of x y z h k = ground (arith, h, k)

-- Of two neighbours of one stem, the survivor stands for whatever either of them stood for.
survivor_stands :
    (n b a : Text)
    → same_stem a b ≡ true
    → stands_for n b || stands_for n a ≡ true
    → stands_for n (if is_lua a then a else b) ≡ true
survivor_stands n b a e h = elim (Bool-cases (is_lua a)) [
  | inl l ↦ rw l (first_of (same_stem a n) (is_lua a) (not (is_lua n)) stem_known l)
  | inr l ↦ rw l (elim (or_cases (stands_for n b) (stands_for n a) h) [
    | inl p ↦ p
    | inr p ↦
        and_of (same_stem b n) (is_lua b) (not (is_lua n))
          (same_stem_trans b a n (same_stem_sym a b e)
            (and_left (same_stem a n) (is_lua a || not (is_lua n)) p))
          (and_second (same_stem a n) (is_lua a) (not (is_lua n)) l p)
  ])
]
  where
    stem_known : same_stem a n ≡ true
    stem_known = elim (or_cases (stands_for n b) (stands_for n a) h) [
      | inl p ↦ same_stem_trans a b n e (and_left (same_stem b n) (is_lua b || not (is_lua n)) p)
      | inr p ↦ and_left (same_stem a n) (is_lua a || not (is_lua n)) p
    ]

or_head : (x y : Bool) → x ≡ true → x || y ≡ true
or_head x y h = rw h refl

or_past : (x y z : Bool) → (y ≡ true → z ≡ true) → x || y ≡ true → x || z ≡ true
or_past true y z f h = refl
or_past false y z f h = f h

or_first : (x y z w : Bool) → (x || y ≡ true → w ≡ true) → x || (y || z) ≡ true → w || z ≡ true
or_first true y z w f h = rw (f refl) refl
or_first false true z w f h = rw (f refl) refl
or_first false false true w f h = ground arith
or_first false false false w f h = absurd (ground (arith, h))

dedup_from-stands_for :
    (n b : Text) (rs : List Text)
    → any (stands_for n) (b ∷ rs) ≡ true
    → any (stands_for n) (dedup_from b rs) ≡ true
unfolding dedup_from
dedup_from-stands_for n b [] h = h
dedup_from-stands_for n b (a ∷ rs) h = elim (Bool-cases (same_stem a b)) [
  | inl e ↦ rw e (
      dedup_from-stands_for n (if is_lua a then a else b) rs (
        or_first (stands_for n b) (stands_for n a) (any (stands_for n) rs)
          (stands_for n (if is_lua a then a else b)) (survivor_stands n b a e) h))
  | inr e ↦ rw e (
      or_past (stands_for n b) (any (stands_for n) (a ∷ rs)) (any (stands_for n) (dedup_from a rs))
        (dedup_from-stands_for n a rs) h)
]

any-put_name :
    (p : Text → Bool) (n : Text) (ms : List Text) → any p (put_name n ms) ≡ p n || any p ms
unfolding put_name
any-put_name p n [] = refl
any-put_name p n (m ∷ ms) = elim (Bool-cases (text_le n m)) [
  | inl e ↦ rw e refl
  | inr e ↦ rw e (ground (arith, any-put_name p n ms))
]

any-sort_names : (p : Text → Bool) (ns : List Text) → any p (sort_names ns) ≡ any p ns
unfolding sort_names
any-sort_names p [] = refl
any-sort_names p (n ∷ ns) =
    any-put_name p n (sort_names ns) ∙ ap (λ b. p n || b) (any-sort_names p ns)

same_stem_refl : (n : Text) → same_stem n n ≡ true
unfolding same_stem
same_stem_refl n = text_eq_refl (file_stem n)

whole : (x y : Bool) → x ≡ true → x && (y || not y) ≡ true
whole x y h = ground (arith, h)

stands_for_refl : (n : Text) → stands_for n n ≡ true
stands_for_refl n = whole (same_stem n n) (is_lua n) (same_stem_refl n)

-- A file that is kept before others does not hide them.
behind_kept :
    (p : Text → Bool) (b : Bool) (m : Text) (ms : List Text)
    → any p ms ≡ true
    → any p (if b then m ∷ ms else ms) ≡ true
behind_kept p true m ms h = ground (arith, h)
behind_kept p false m ms h = h

legacy_only-stands_for :
    (only : Option Text) (n : Text) (names : List Text)
    → any (text_eq n) names ≡ true
    → is_legacy only n ≡ true
    → any (stands_for n) (legacy_only only names) ≡ true
unfolding legacy_only
legacy_only-stands_for only n [] h k = h
legacy_only-stands_for only n (m ∷ ms) h k = elim (Bool-cases (text_eq n m)) [
  | inl e ↦
      (let same = (text_eq_iff n m).0 e in
        rw (subst (λ x. is_legacy only x ≡ true) same k) (
          or_head (stands_for n m) (any (stands_for n) (legacy_only only ms))
            (subst (λ x. stands_for n x ≡ true) same (stands_for_refl n))))
  | inr e ↦
      behind_kept (stands_for n) (is_legacy only m) m (legacy_only only ms)
        (legacy_only-stands_for only n ms (ground (arith, h, e)) k)
]

dedup-stands_for :
    (n : Text) (ns : List Text)
    → any (stands_for n) ns ≡ true
    → any (stands_for n) (dedup ns) ≡ true
unfolding dedup
dedup-stands_for n [] h = h
dedup-stands_for n (b ∷ ns) h = dedup_from-stands_for n b ns h

-- Every legacy file of the directory that the command is about has a file of its stem among those
-- that it goes through, and a Lua file if it is one itself.
pub legacy_files-stands_for :
    (only : Option Text) (names : List Text) (n : Text)
    → any (text_eq n) names ≡ true
    → is_legacy only n ≡ true
    → any (stands_for n) (legacy_files only names) ≡ true
unfolding legacy_files
legacy_files-stands_for only names n h k =
    dedup-stands_for n (sort_names (legacy_only only names)) (
      any-sort_names (stands_for n) (legacy_only only names)
      ∙ legacy_only-stands_for only n names h k)
