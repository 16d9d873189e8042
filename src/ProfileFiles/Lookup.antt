-- ===== src/ProfileFiles/Lookup.antt =====
-- Which profile a name stands for after the merge (src/sysio/profiles.rs).
use hyprstate.Prelude.{
  subst, true, false, Bool, ℕ, suc, ◌+◌, ◌||◌, if◌then◌else◌, any-append, map, ◌≡◌, refl, sym, ap,
  ◌∙◌, arith, Text, text_eq_iff, any, List, [], ◌∷◌, ◌++◌, Option, none, some, Bool-cases, inl, inr,
}
use hyprstate.Daemon.Ctx.{TomlProfile}
use hyprstate.ProfileFiles.{
  same_name, Loaded, merge_one, merge_system, load_profiles_from, load_profiles_merged, find_name,
}

abbrev pub or_else : Option TomlProfile → Option TomlProfile → Option TomlProfile
or_else none b = b
or_else (some a) b = some a

or_else_assoc : (a b c : Option TomlProfile) → or_else (or_else a b) c ≡ or_else a (or_else b c)
or_else_assoc none b c = refl
or_else_assoc (some a) b c = refl

find_name-append :
    (n : Text) (ps qs : List TomlProfile)
    → find_name n (ps ++ qs) ≡ or_else (find_name n ps) (find_name n qs)
unfolding find_name
find_name-append n [] qs = refl
find_name-append n (p ∷ ps) qs = elim (Bool-cases (same_name n p)) [
  | inl e ↦ rw e refl
  | inr e ↦ rw e (find_name-append n ps qs)
]

-- A name that is taken hides whatever comes later.
find_name-taken :
    (n : Text) (ps : List TomlProfile) (o : Option TomlProfile)
    → any (same_name n) ps ≡ true
    → or_else (find_name n ps) o ≡ find_name n ps
unfolding find_name
find_name-taken n [] o h = absurd (ground (arith, h))
find_name-taken n (p ∷ ps) o h = elim (Bool-cases (same_name n p)) [
  | inl e ↦ rw e refl
  | inr e ↦ rw e (find_name-taken n ps o (ground (arith, e, h)))
]

or_else-none : (a : Option TomlProfile) → or_else a none ≡ a
or_else-none none = refl
or_else-none (some a) = refl

hidden :
    (n : Text) (s : TomlProfile) (ps : List TomlProfile)
    → any (same_name s.name) ps ≡ true
    → find_name n ps ≡ or_else (find_name n ps) (find_name n (s ∷ []))
unfolding find_name
hidden n s ps e = elim (Bool-cases (same_name n s)) [
  | inl m ↦ sym (
      find_name-taken n ps (find_name n (s ∷ []))
        (subst (λ x. any (same_name x) ps ≡ true) ((text_eq_iff s.name n).0 m) e))
  | inr m ↦ rw m (sym (or_else-none (find_name n ps)))
]

merge_one-find :
    (n : Text) (s : TomlProfile) (l : Loaded)
    → find_name n (merge_one s l).0 ≡ or_else (find_name n l.0) (find_name n (s ∷ []))
merge_one-find n s (ps, rendered) = elim (Bool-cases (any (same_name s.name) ps)) [
  | inr e ↦ rw e (find_name-append n ps (s ∷ []))
  | inl e ↦ rw e (hidden n s ps e)
]

merge_system-find :
    (n : Text) (ss : List TomlProfile) (l : Loaded)
    → find_name n (merge_system ss l).0 ≡ or_else (find_name n l.0) (find_name n ss)
unfolding merge_system find_name
merge_system-find n [] l = sym (or_else-none (find_name n l.0))
merge_system-find n (s ∷ ss) l =
    merge_system-find n ss (merge_one s l)
    ∙ ap (λ o. or_else o (find_name n ss)) (merge_one-find n s l)
    ∙ or_else_assoc (find_name n l.0) (find_name n (s ∷ [])) (find_name n ss)
    ∙ ap (or_else (find_name n l.0)) (sym (find_name-append n (s ∷ []) ss))

merged-find :
    (n : Text) (user system : List TomlProfile)
    → find_name n (load_profiles_merged user system).0
      ≡ or_else (find_name n user) (find_name n system)
unfolding load_profiles_merged load_profiles_from
merged-find n user system = merge_system-find n system (load_profiles_from user)

-- How many profiles bear the name.
abbrev pub count_name : Text → List TomlProfile → ℕ
count_name n [] = 0
count_name n (p ∷ ps) = let rest = count_name n ps in if same_name n p then suc rest else rest

-- As many as the user has, or one if there is a shared one.
abbrev pub merged_count : Bool → ℕ → Bool → ℕ
merged_count true count shared = count
merged_count false count shared = if shared then 1 else 0

count_name-append :
    (n : Text) (ps qs : List TomlProfile)
    → count_name n (ps ++ qs) ≡ count_name n ps + count_name n qs
count_name-append n [] qs = omega arith
count_name-append n (p ∷ ps) qs = elim (Bool-cases (same_name n p)) [
  | inl e ↦ rw e (omega (arith, count_name-append n ps qs))
  | inr e ↦ rw e (count_name-append n ps qs)
]

nobody : (n : Text) (ps : List TomlProfile) → any (same_name n) ps ≡ false → count_name n ps ≡ 0
nobody n [] h = refl
nobody n (p ∷ ps) h = elim (Bool-cases (same_name n p)) [
  | inl e ↦ absurd (ground (arith, h, e))
  | inr e ↦ rw e (nobody n ps (ground (arith, h, e)))
]

nothing_more :
    (b : Bool) (c : ℕ) (shared : Bool)
    → merged_count (b || false) (c + 0) shared ≡ merged_count b c shared
nothing_more true c shared = omega arith
nothing_more false c shared = refl

appended :
    (n : Text) (s : TomlProfile) (ps : List TomlProfile) (shared : Bool)
    → any (same_name s.name) ps ≡ false
    → merged_count (any (same_name n) (ps ++ s ∷ [])) (count_name n (ps ++ s ∷ [])) shared
      ≡ merged_count (any (same_name n) ps) (count_name n ps) (same_name n s || shared)
appended n s ps shared g = elim (Bool-cases (same_name n s)) [
  | inl m ↦
      let none_yet = subst (λ x. any (same_name x) ps ≡ false) ((text_eq_iff s.name n).0 m) g in
      rw
        (
          any-append (same_name n) ps (s ∷ []),
          count_name-append n ps (s ∷ []),
          m,
          none_yet,
          nobody n ps none_yet,
        )
        refl
  | inr m ↦
      rw (any-append (same_name n) ps (s ∷ []), count_name-append n ps (s ∷ []), m)
        (nothing_more (any (same_name n) ps) (count_name n ps) shared)
]

merge_one-count :
    (n : Text) (s : TomlProfile) (l : Loaded) (shared : Bool)
    → merged_count (any (same_name n) (merge_one s l).0) (count_name n (merge_one s l).0) shared
      ≡ merged_count (any (same_name n) l.0) (count_name n l.0) (same_name n s || shared)
merge_one-count n s (ps, rendered) shared = elim (Bool-cases (any (same_name s.name) ps)) [
  | inr e ↦ rw e (appended n s ps shared e)
  | inl e ↦ elim (Bool-cases (same_name n s)) [
    | inl m ↦ rw (e, subst (λ x. any (same_name x) ps ≡ true) ((text_eq_iff s.name n).0 m) e) refl
    | inr m ↦ rw (e, m) refl
  ]
]

merge_system-count :
    (n : Text) (ss : List TomlProfile) (l : Loaded)
    → count_name n (merge_system ss l).0
      ≡ merged_count (any (same_name n) l.0) (count_name n l.0) (any (same_name n) ss)
unfolding merge_system
merge_system-count n [] l = elim (Bool-cases (any (same_name n) l.0)) [
  | inl e ↦ rw e refl
  | inr e ↦ rw e (nobody n l.0 e)
]
merge_system-count n (s ∷ ss) l =
    merge_system-count n ss (merge_one s l) ∙ merge_one-count n s l (any (same_name n) ss)

-- The names of the profiles that are kept are those that are rendered.
abbrev Rendered : Loaded → Type 0
Rendered l = l.1 ≡ map (λ (p : TomlProfile). p.name) l.0

map-name-append :
    (ps qs : List TomlProfile)
    → map (λ (p : TomlProfile). p.name) (ps ++ qs)
      ≡ map (λ (p : TomlProfile). p.name) ps ++ map (λ (p : TomlProfile). p.name) qs
map-name-append [] qs = refl
map-name-append (p ∷ ps) qs = ap (λ ns. p.name ∷ ns) (map-name-append ps qs)

merge_one-Rendered : (s : TomlProfile) (l : Loaded) → Rendered l → Rendered (merge_one s l)
merge_one-Rendered s (ps, rendered) h = elim (Bool-cases (any (same_name s.name) ps)) [
  | inl e ↦ rw e h
  | inr e ↦ rw e (ap (λ ns. ns ++ s.name ∷ []) h ∙ sym (map-name-append ps (s ∷ [])))
]

merge_system-Rendered :
    (ss : List TomlProfile) (l : Loaded) → Rendered l → Rendered (merge_system ss l)
unfolding merge_system
merge_system-Rendered [] l h = h
merge_system-Rendered (s ∷ ss) l h =
    merge_system-Rendered ss (merge_one s l) (merge_one-Rendered s l h)

-- After the merge a name stands for the user's profile of that name, and for the shared one only if
-- the user has none; as many profiles bear it as the user has, or else one if a shared one does; and
-- the names that are rendered are those of the profiles that are kept, in order.
pub load_profiles_merged_lem :
    (n : Text) (user system : List TomlProfile)
    → (find_name n (load_profiles_merged user system).0
        ≡ or_else (find_name n user) (find_name n system))
      × (count_name n (load_profiles_merged user system).0
          ≡ merged_count (any (same_name n) user) (count_name n user) (any (same_name n) system))
      × ((load_profiles_merged user system).1
          ≡ map (λ (p : TomlProfile). p.name) (load_profiles_merged user system).0)
unfolding load_profiles_merged load_profiles_from
load_profiles_merged_lem n user system = (
  merged-find n user system,
  merge_system-count n system (load_profiles_from user),
  merge_system-Rendered system (load_profiles_from user) refl,
)
