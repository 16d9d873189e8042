-- ===== src/ProfileCmd/Loop.antt =====
-- What the loop of `migrate` does to the TOML files (src/cli/profile.rs), whatever property L its
-- files have.
use hyprstate.Prelude.{
  ◌≡◌, refl, sym, ap, ◌∙◌, subst, inl, inr, ◌⊎◌, Bool, true, false, not, ◌&&◌, ◌||◌, Bool-cases,
  Option-cases, Text, text_eq, text_eq_iff, text_eq_refl, any, All, List, [], ◌∷◌, Option, none,
  some, is_some, unwrap_or, if◌then◌else◌,
}
use hyprstate.ProfileCmd.{
  file_stem, Tomls, put_toml, SaveOpts, Converter, store_profile, store_read, convert, migrate_one,
  migrate_all,
}

contradicts : false ≡ true → ⊥
contradicts h = cc

pub rest_of : (x y : Bool) → x || y ≡ true → x ≡ false → y ≡ true
rest_of true y h e = absurd cc
rest_of false y h e = h

module _ {P : Type 0} (L : Text → Type 0) (l : Converter P) (opts : SaveOpts) where
  -- The TOML file is that of a profile with monitors, which the crate read of a file that L holds of.
  abbrev pub Converted : Text → Option Text → Type 0
  Converted stem body =
      (name : Text) × (text : Text) × (p : P) × L name
      × (file_stem name ≡ stem)
      × (l.body name ≡ some text)
      × (l.to_profile stem text ≡ some p)
      × (l.bare p ≡ false)
      × (body ≡ some (l.to_toml p))

  -- A TOML file stays as it was, or it is written, not in a dry run, and over an old one only by force.
  abbrev pub Kept : Tomls → Tomls → Text → Type 0
  Kept before after stem =
      (after stem ≡ before stem)
      ⊎ ((opts.dry_run ≡ false)
          × ((opts.force ≡ true) ⊎ (before stem ≡ none))
          × Converted stem (after stem))

  chained : (a b c : Tomls) (stem : Text) → Kept a b stem → Kept b c stem → Kept a c stem
  chained a b c stem (inl e) (inl f) = inl (f ∙ e)
  chained a b c stem (inl e) (inr (d, inl g, w)) = inr (d, inl g, w)
  chained a b c stem (inl e) (inr (d, inr g, w)) = inr (d, inr (sym e ∙ g), w)
  chained a b c stem (inr (d, g, w)) (inl f) = inr (d, g, subst (Converted stem) (sym f) w)
  chained a b c stem (inr (d, g, w)) (inr (d', g', w')) = inr (d, g, w')

  put_toml-Kept :
      (s body : Text) (tomls : Tomls) (stem : Text)
      → opts.dry_run ≡ false
      → ((opts.force ≡ true) ⊎ (tomls s ≡ none))
      → Converted s (some body)
      → Kept tomls (put_toml s body tomls) stem
  unfolding put_toml
  put_toml-Kept s body tomls stem d g w = elim (Bool-cases (text_eq s stem)) [
    | inl e ↦
        (let same = (text_eq_iff s stem).0 e in
          inr (
            d,
            subst (λ x. (opts.force ≡ true) ⊎ (tomls x ≡ none)) same g,
            rw e (subst (λ x. Converted x (some body)) same w),
          ))
    | inr e ↦ inl (rw e refl)
  ]

  free :
      (s : Text) (tomls : Tomls)
      → is_some (tomls s) && not opts.force ≡ false
      → (opts.force ≡ true) ⊎ (tomls s ≡ none)
  free s tomls h = elim (Option-cases (tomls s)) [
    | inl e ↦ inr e
    | inr (t, e) ↦ inl (forced opts.force (sym (rw e refl) ∙ h))
  ]
    where
      forced : (b : Bool) → not b ≡ false → b ≡ true
      forced true k = refl
      forced false k = sym k

  -- The ways in which storing ends with files.
  stored_cases :
      (s : Text) (tomls after : Tomls) (p : P) (bare dry written : Bool)
      → (if bare
          then none
          else (if dry
              then some tomls
              else (if written then some (put_toml s (l.to_toml p) tomls) else none)))
        ≡ some after
      → (bare ≡ false)
        × (((dry ≡ true) × (tomls ≡ after))
            ⊎ ((dry ≡ false) × (put_toml s (l.to_toml p) tomls ≡ after)))
  stored_cases s tomls after p true dry written h = absurd cc
  stored_cases s tomls after p false true written h = (refl, inl (refl, cc))
  stored_cases s tomls after p false false true h = (refl, inr (refl, cc))
  stored_cases s tomls after p false false false h = absurd cc

  -- What one file does to the TOML files, if the loop goes on after it.
  abbrev Done : Text → Tomls → Tomls → Type 0
  Done name tomls after =
      ((tomls ≡ after) × ((is_some (tomls (file_stem name)) ≡ true) ⊎ (opts.dry_run ≡ true)))
      ⊎ ((opts.dry_run ≡ false)
          × ((opts.force ≡ true) ⊎ (tomls (file_stem name) ≡ none))
          × (text : Text) × (p : P) × (l.body name ≡ some text)
          × (l.to_profile (file_stem name) text ≡ some p)
          × (l.bare p ≡ false)
          × (put_toml (file_stem name) (l.to_toml p) tomls ≡ after))

  store_read-Done :
      (name text : Text) (tomls after : Tomls) (read : Option P)
      → ((opts.force ≡ true) ⊎ (tomls (file_stem name) ≡ none))
      → l.body name ≡ some text
      → l.to_profile (file_stem name) text ≡ read
      → store_read l opts (file_stem name) tomls read ≡ some after
      → Done name tomls after
  unfolding store_profile
  store_read-Done name text tomls after none g b r h = absurd cc
  store_read-Done name text tomls after (some p) g b r h =
      (let (bare, c) =
          stored_cases (file_stem name) tomls after p (l.bare p) opts.dry_run
            (l.writable (file_stem name)) h in
        elim c [ inl (d, e) ↦ inl (e, inr d) | inr (d, e) ↦ inr (d, g, text, p, b, r, bare, e) ])

  convert-Done :
      (name : Text) (tomls after : Tomls) (body : Option Text)
      → ((opts.force ≡ true) ⊎ (tomls (file_stem name) ≡ none))
      → l.body name ≡ body
      → convert l opts (file_stem name) tomls body ≡ some after
      → Done name tomls after
  convert-Done name tomls after none g b h = absurd cc
  convert-Done name tomls after (some text) g b h =
      store_read-Done name text tomls after (l.to_profile (file_stem name) text) g b refl h

  -- Whichever branch is taken.
  either_way :
      (name : Text) (there forced : Bool) (tomls after : Tomls) (converted : Option Tomls)
      → is_some (tomls (file_stem name)) ≡ there
      → (there && not forced ≡ false → converted ≡ some after → Done name tomls after)
      → (if there && not forced then some tomls else converted) ≡ some after
      → Done name tomls after
  either_way name true false tomls after converted t k h =
      inl (ap (λ (d : Option Tomls). unwrap_or d tomls) h, inl t)
  either_way name true true tomls after converted t k h = k refl h
  either_way name false forced tomls after converted t k h = k refl h

  migrate_one-Done :
      (name : Text) (tomls after : Tomls)
      → migrate_one l opts name tomls ≡ some after
      → Done name tomls after
  unfolding migrate_one
  migrate_one-Done name tomls after h =
      either_way name (is_some (tomls (file_stem name))) opts.force tomls after
        (convert l opts (file_stem name) tomls (l.body name)) refl
        (λ e. convert-Done name tomls after (l.body name) (free (file_stem name) tomls e) refl) h

  Done-Kept :
      (name : Text) (tomls after : Tomls) (stem : Text)
      → L name
      → Done name tomls after
      → Kept tomls after stem
  Done-Kept name tomls after stem m (inl (e, c)) = inl (ap (λ (d : Tomls). d stem) (sym e))
  Done-Kept name tomls after stem m (inr (d, g, text, p, b, r, w, e)) =
      subst (λ x. Kept tomls x stem) e
        (put_toml-Kept (file_stem name) (l.to_toml p) tomls stem d g
          (name, text, p, m, refl, b, r, w, refl))

  -- A file that the loop went past has its TOML, outside a dry run.
  Done-stored :
      (name : Text) (tomls after : Tomls)
      → opts.dry_run ≡ false
      → Done name tomls after
      → is_some (after (file_stem name)) ≡ true
  unfolding put_toml
  Done-stored name tomls after n (inl (e, inl t)) =
      subst (λ (x : Tomls). is_some (x (file_stem name)) ≡ true) e t
  Done-stored name tomls after n (inl (e, inr d)) = absurd cc
  Done-stored name tomls after n (inr (d, g, text, p, b, r, w, e)) =
      subst (λ (x : Tomls). is_some (x (file_stem name)) ≡ true) e
        (rw (text_eq_refl (file_stem name)) refl)

  Kept-stored :
      (before after : Tomls) (stem : Text)
      → Kept before after stem
      → is_some (before stem) ≡ true
      → is_some (after stem) ≡ true
  Kept-stored before after stem (inl e) h = rw e h
  Kept-stored before after stem (inr (d, g, (name, text, p, m, n, b, r, w, e))) h = rw e refl

  migrate_all-goes_on :
      (n : Text) (ns : List Text) (tomls after : Tomls)
      → migrate_one l opts n tomls ≡ some after
      → migrate_all l opts (n ∷ ns) tomls ≡ migrate_all l opts ns after
  unfolding migrate_all
  migrate_all-goes_on n ns tomls after e = rw (e, migrate_all) refl

  migrate_all-ends :
      (n : Text) (ns : List Text) (tomls : Tomls)
      → migrate_one l opts n tomls ≡ none
      → migrate_all l opts (n ∷ ns) tomls ≡ (false, tomls)
  unfolding migrate_all
  migrate_all-ends n ns tomls e = rw (e, migrate_all) refl

  -- Whatever the files are and wherever the loop ends.
  pub migrate_all-Kept :
      (names : List Text) (tomls : Tomls) (stem : Text)
      → All L names
      → Kept tomls (migrate_all l opts names tomls).1 stem
  unfolding migrate_all
  migrate_all-Kept [] tomls stem m = inl refl
  migrate_all-Kept (n ∷ ns) tomls stem (m, ms) = elim (Option-cases (migrate_one l opts n tomls)) [
    | inl e ↦ inl (rw (e, migrate_all) refl)
    | inr (after, e) ↦
        rw (e, migrate_all)
          (chained tomls after (migrate_all l opts ns after).1 stem
            (Done-Kept n tomls after stem m (migrate_one-Done n tomls after e))
            (migrate_all-Kept ns after stem ms))
  ]

  -- Once the loop has come to its end.
  pub migrate_all-stored :
      (names : List Text) (tomls : Tomls) (stem : Text)
      → All L names
      → opts.dry_run ≡ false
      → any (λ n. text_eq (file_stem n) stem) names ≡ true
      → (migrate_all l opts names tomls).0 ≡ true
      → is_some ((migrate_all l opts names tomls).1 stem) ≡ true
  unfolding migrate_all
  migrate_all-stored [] tomls stem a d m h = absurd cc
  migrate_all-stored (n ∷ ns) tomls stem (a, later) d m h =
      elim (Option-cases (migrate_one l opts n tomls)) [
        | inl e ↦
            absurd (
              contradicts
                (ap (λ (r : Bool × Tomls). r.0) (sym (migrate_all-ends n ns tomls e)) ∙ h))
        | inr (after, e) ↦ elim (Bool-cases (text_eq (file_stem n) stem)) [
          | inl s ↦
              rw (e, migrate_all)
                (Kept-stored after (migrate_all l opts ns after).1 stem
                  (migrate_all-Kept ns after stem later)
                  (subst (λ x. is_some (after x) ≡ true) ((text_eq_iff (file_stem n) stem).0 s)
                    (Done-stored n tomls after d (migrate_one-Done n tomls after e))))
          | inr s ↦
              rw (e, migrate_all)
                (migrate_all-stored ns after stem later d
                  (rest_of (text_eq (file_stem n) stem) (any (λ k. text_eq (file_stem k) stem) ns) m
                    s)
                  (ap (λ (r : Bool × Tomls). r.0) (sym (migrate_all-goes_on n ns tomls after e))
                    ∙ h))
        ]
      ]
