-- ===== src/ProfileCmd/Written.antt =====
-- Which TOML files `migrate` leaves and writes (src/cli/profile.rs).
use hyprstate.Prelude.{
  ◌≡◌, refl, inl, inr, Bool, true, false, ◌&&◌, ◌||◌, not, Bool-cases, Text, ℕ, text_eq,
  text_eq_refl, any, All, List, [], ◌∷◌, Option, is_some, arith, if◌then◌else◌,
}
use hyprstate.Gpu.{text_le}
use hyprstate.Daemon.Startup.{put_name, sort_names}
use hyprstate.ProfileCmd.Twins.{stands_for, and_left, legacy_files-stands_for}
use hyprstate.ProfileCmd.Loop.{rest_of, Kept, migrate_all-Kept, migrate_all-stored}
use hyprstate.ProfileCmd.{
  same_stem, is_lua, is_legacy, file_stem, legacy_only, survivor, dedup_from, dedup, Tomls,
  SaveOpts, Converter, migrate_all, migrate, legacy_files,
}

-- A file of the directory that the command is about.
abbrev pub Listed : Option Text → List Text → Text → Type 0
Listed only names n = (any (text_eq n) names ≡ true) × (is_legacy only n ≡ true)

or_second : (x y : Bool) → y ≡ true → x || y ≡ true
or_second true y h = refl
or_second false y h = h

legacy_only-Listed :
    (only : Option Text) (names ns : List Text)
    → ((n : Text) → any (text_eq n) ns ≡ true → any (text_eq n) names ≡ true)
    → All (Listed only names) (legacy_only only ns)
unfolding legacy_only
legacy_only-Listed only names [] f = tt
legacy_only-Listed only names (n ∷ ns) f =
    let later =
      legacy_only-Listed only names ns
        (λ m h. f m (or_second (text_eq m n) (any (text_eq m) ns) h)) in
    elim (Bool-cases (is_legacy only n)) [
      | inl e ↦ rw e ((f n (rw (text_eq_refl n) refl), e), later)
      | inr e ↦ rw e later
    ]

module _ (L : Text → Type 0) where
  All-put_name : (n : Text) (ms : List Text) → L n → All L ms → All L (put_name n ms)
  unfolding put_name
  All-put_name n [] h hs = (h, tt)
  All-put_name n (m ∷ ms) h (k, ks) = elim (Bool-cases (text_le n m)) [
    | inl e ↦ rw e (h, (k, ks))
    | inr e ↦ rw e (k, All-put_name n ms h ks)
  ]

  All-sort_names : (ns : List Text) → All L ns → All L (sort_names ns)
  unfolding sort_names
  All-sort_names [] h = tt
  All-sort_names (n ∷ ns) (h, hs) = All-put_name n (sort_names ns) h (All-sort_names ns hs)

  survivor_keeps : (kept later : Text) → L kept → L later → L (survivor kept later)
  unfolding survivor
  survivor_keeps kept later h k = elim (Bool-cases (same_stem later kept)) [
    | inl e ↦ elim (Bool-cases (is_lua later)) [ inl f ↦ rw (e, f) k | inr f ↦ rw (e, f) h ]
    | inr e ↦ rw e k
  ]

  All-if :
      (b : Bool) (n : Text) (ns : List Text) → L n → All L ns → All L (if b then ns else n ∷ ns)
  All-if true n ns h hs = hs
  All-if false n ns h hs = (h, hs)

  All-dedup_from : (kept : Text) (ns : List Text) → L kept → All L ns → All L (dedup_from kept ns)
  unfolding dedup_from
  All-dedup_from kept [] h hs = (h, tt)
  All-dedup_from kept (later ∷ ns) h (k, ks) =
      All-if (same_stem later kept) kept (dedup_from (survivor kept later) ns) h
        (All-dedup_from (survivor kept later) ns (survivor_keeps kept later h k) ks)

  All-dedup : (ns : List Text) → All L ns → All L (dedup ns)
  unfolding dedup
  All-dedup [] h = tt
  All-dedup (n ∷ ns) (h, hs) = All-dedup_from n ns h hs

legacy_files-Listed :
    (only : Option Text) (names : List Text) → All (Listed only names) (legacy_files only names)
unfolding legacy_files
legacy_files-Listed only names =
    All-dedup (Listed only names) (sort_names (legacy_only only names)) (
      All-sort_names (Listed only names) (legacy_only only names)
        (legacy_only-Listed only names names (λ n h. h)))

ended : (whole fine : Bool) → (if◌then◌else◌ {A = ℕ} (whole && fine) 0 1) ≡ 0 → whole ≡ true
ended true fine h = refl
ended false fine h = absurd (ground (arith, h))

any_mono :
    (p q : Text → Bool) (xs : List Text)
    → ((x : Text) → p x ≡ true → q x ≡ true)
    → any p xs ≡ true
    → any q xs ≡ true
any_mono p q [] f h = h
any_mono p q (x ∷ xs) f h = elim (Bool-cases (p x)) [
  | inl e ↦ rw (f x e) refl
  | inr e ↦ elim (Bool-cases (q x)) [
    | inl k ↦ rw k refl
    | inr k ↦ rw k (any_mono p q xs f (rest_of (p x) (any p xs) h e))
  ]
]

stands-stem : (n m : Text) → stands_for n m ≡ true → text_eq (file_stem m) (file_stem n) ≡ true
unfolding same_stem
stands-stem n m h = and_left (same_stem m n) (is_lua m || not (is_lua n)) h

module _ {P : Type 0} (l : Converter P) (opts : SaveOpts) where
  -- Whatever the files of the directory are, and whatever comes of the command, a TOML file stays as
  -- it was, or it is now that of a profile with monitors, read of a legacy file of its stem that is in
  -- the directory and that the command is about; the latter not in a dry run, and over an old TOML
  -- file only by force.
  pub migrate-Kept :
      (same : Tomls → Bool) (only : Option Text) (names : List Text) (tomls : Tomls) (stem : Text)
      → Kept (Listed only names) l opts tomls (migrate l opts same only names tomls).1 stem
  unfolding migrate
  migrate-Kept same only names tomls stem =
      migrate_all-Kept (Listed only names) l opts (legacy_files only names) tomls stem
        (legacy_files-Listed only names)

  -- If the command exits with 0 outside a dry run, then every legacy file of the directory that it is
  -- about has a TOML file of its stem.
  pub migrate-stored :
      (same : Tomls → Bool) (only : Option Text) (names : List Text) (tomls : Tomls) (n : Text)
      → opts.dry_run ≡ false
      → any (text_eq n) names ≡ true
      → is_legacy only n ≡ true
      → (migrate l opts same only names tomls).0 ≡ 0
      → is_some ((migrate l opts same only names tomls).1 (file_stem n)) ≡ true
  unfolding migrate
  migrate-stored same only names tomls n d m k h =
      migrate_all-stored (Listed only names) l opts (legacy_files only names) tomls (file_stem n)
        (legacy_files-Listed only names) d
        (any_mono (stands_for n) (λ x. text_eq (file_stem x) (file_stem n))
          (legacy_files only names) (stands-stem n) (legacy_files-stands_for only names n m k))
        (ended (migrate_all l opts (legacy_files only names) tomls).0
          (opts.dry_run || same (migrate_all l opts (legacy_files only names) tomls).1) h)
