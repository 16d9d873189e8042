-- ===== src/Profiles/Saved.antt =====
-- The whole text of a captured layout, read again (crates/hyprstate-fsm/src/profiles.rs).
use hyprstate.Prelude.{
  map_ok, tight-cons, filled-append, lines-line, inl, inr, push_first, push_first, as_lines, ◌≡◌,
  refl, ap, ◌∙◌, subst, arith, true, false, not, Text, codes, List, [], ◌∷◌, ◌++◌, map, Option,
  Result, ok, err, ℤ, pos, length, lines, one_line, tight, is_empty, all, unwrap_or, Bool-cases,
  pieces, pieces-filled, starts_with, trim_start, is_space, strip_cr,
}
use hyprstate.Profiles.{
  EdpPolicy, GpuPref, Header, read_line, read_lines, empty_header, ProfileFormat, parse_profile,
  profile_of,
}
use hyprstate.Profiles.Render.{
  CaptureError, MonitorSnapshot, CaptureLayout, line, render_directives, profile_text,
  render_profile_lua, enabled_lines, capture_layout, sort_by_key, insert, filter, match_set,
  left_of,
}
use hyprstate.Profiles.Reads.{Reads, Reads-append, Reads-line, tight-append, one_line-append}
use hyprstate.Profiles.RoundTrip.{
  fits_line, as_rule, fits, Words, match_lines-Reads, priority_line-Reads, edp_line-Reads,
  gpu_line-Reads,
}

-- The first line of a text that begins with an `h` begins with it too.
lines-h : (t : Text) → (l : Text) × (ls : List Text) × (lines (b'h' ∷ t) ≡ (b'h' ∷ l) ∷ ls)
unfolding lines pieces as_lines strip_cr
lines-h t = go (pieces t) (pieces-filled t)
  where
    go :
        (ps : List Text)
        → is_empty ps ≡ false
        → (l : Text) × (ls : List Text) × (as_lines (push_first b'h' ps) ≡ (b'h' ∷ l) ∷ ls)
    go [] h = absurd (ground arith)
    go (p ∷ []) h = (p, [], refl)
    go (p ∷ q ∷ ps) h = (strip_cr p, as_lines (q ∷ ps), refl)

read_lines-h : (t : Text) (h : Header) → read_lines (lines (b'h' ∷ t)) h ≡ ok h
unfolding read_lines read_line starts_with trim_start is_space
read_lines-h t h = let (l, ls, e) = lines-h t in rw e refl

map-filled {ℓ} :
    {A B : Type ℓ} (f : A → B) (xs : List A) → is_empty xs ≡ false → is_empty (map f xs) ≡ false
map-filled f [] h = h
map-filled f (x ∷ xs) h = refl

module _ {F : Type 0} where
  insert-filled :
      (m : MonitorSnapshot F) (ns : List (MonitorSnapshot F)) → is_empty (insert m ns) ≡ false
  unfolding insert
  insert-filled m [] = refl
  insert-filled m (n ∷ ns) = elim (Bool-cases (left_of m n)) [
    | inl e ↦ rw e refl
    | inr e ↦ rw e refl
  ]

  sort-filled :
      (ms : List (MonitorSnapshot F)) → is_empty ms ≡ false → is_empty (sort_by_key ms) ≡ false
  unfolding sort_by_key
  sort-filled [] h = h
  sort-filled (m ∷ ms) h = insert-filled m (sort_by_key ms)

  match_set-filled :
      (externals enabled : List (MonitorSnapshot F))
      → is_empty enabled ≡ false
      → is_empty (match_set externals enabled) ≡ false
  unfolding match_set
  match_set-filled [] enabled h = map-filled (λ m. m.description) enabled h
  match_set-filled (m ∷ ms) enabled h = refl

  abbrev Filled : Result CaptureError (CaptureLayout F) → Type 0
  Filled (err e) = Unit
  Filled (ok layout) = (is_empty layout.enabled ≡ false) × (is_empty layout.match_descs ≡ false)

  capture_layout-Filled : (ms : List (MonitorSnapshot F)) → Filled (capture_layout ms)
  unfolding capture_layout
  capture_layout-Filled ms = elim (Bool-cases (is_empty (filter (λ m. not m.disabled) ms))) [
    | inl e ↦ rw e tt
    | inr e ↦
        rw e
          (sorted e, match_set-filled _ (sort_by_key (filter (λ m. not m.disabled) ms)) (sorted e))
  ]
    where
      sorted :
          is_empty (filter (λ m. not m.disabled) ms) ≡ false
          → is_empty (sort_by_key (filter (λ m. not m.disabled) ms)) ≡ false
      sorted = sort-filled (filter (λ m. not m.disabled) ms)

-- What stands behind the directives ends the reading.
body-stops :
    {F : Type 0} (fixed2 : F → Text) (ms : List (MonitorSnapshot F)) (tail : Text) (h : Header)
    → is_empty ms ≡ false
    → read_lines (lines (b'\n' ∷ (enabled_lines fixed2 ms).0 ++ tail)) h ≡ ok h
unfolding enabled_lines read_lines read_line starts_with trim_start one_line tight
body-stops fixed2 [] tail h filled = absurd (ground arith)
body-stops fixed2 (m ∷ ms) tail h filled =
    ap (λ ls. read_lines ls h) (lines-line [] _ refl refl) ∙ read_lines-h _ h

abbrev title : Text → Text → Text
title name date =
    codes "-- Profile: "
    ++ (name ++ (codes " — captured from the live layout (" ++ (date ++ codes ").")))

title-Reads :
    (name date : Text) (h : Header)
    → one_line name ≡ true
    → one_line date ≡ true
    → Reads (line (title name date)) h h
unfolding read_line starts_with trim_start is_space one_line tight
title-Reads name date h n d = Reads-line (title name date) h h one end refl
  where
    one : one_line (title name date) ≡ true
    one =
        one_line-append name (codes " — captured from the live layout (" ++ (date ++ codes ").")) n
          (one_line-append date (codes ").") d refl)

    end : tight (title name date) ≡ true
    end =
        tight-append (codes "-- Profile: ")
          (name ++ (codes " — captured from the live layout (" ++ (date ++ codes ").")))
          (filled-append name _ refl)
          (tight-append name (codes " — captured from the live layout (" ++ (date ++ codes ")."))
            refl
            (tight-cons b'(' (date ++ codes ").") (filled-append date (codes ").") refl)
              (tight-append date (codes ").") refl refl)))

dashes-Reads : Reads (line (codes "--")) empty_header empty_header
unfolding read_line starts_with trim_start is_space one_line tight
dashes-Reads = Reads-line (codes "--") empty_header empty_header refl refl refl

-- The header that the directives of a capture leave.
abbrev captured : List Text → EdpPolicy → GpuPref → Option ℤ → Header
captured ds edp gpu priority = record {
  matches = map as_rule ds;
  hooks = [];
  edp = edp;
  gpu = gpu;
  priority = priority;
  warnings = [];
}

module _ {edp_as_str : EdpPolicy → Text} {gpu_as_str : GpuPref → Text}
    (w : Words edp_as_str gpu_as_str) where
  directives-Reads :
      (ds : List Text) (edp : EdpPolicy) (gpu : GpuPref) (priority : Option ℤ)
      → all fits_line ds ≡ true
      → fits priority ≡ true
      → Reads
          (render_directives edp_as_str gpu_as_str (codes "--") ds edp gpu priority)
          empty_header
          (captured ds edp gpu priority)
  unfolding render_directives
  directives-Reads ds edp gpu priority good fit =
      Reads-append (match_lines-Reads ds empty_header good) (
        Reads-append (edp_line-Reads w edp _)
          (Reads-append (gpu_line-Reads w gpu _ refl) (priority_line-Reads priority _ fit refl)))

  profile-text-read :
      {F : Type 0} (fixed2 : F → Text) (name date : Text) (edp : EdpPolicy) (gpu : GpuPref)
      (priority : Option ℤ) (layout : CaptureLayout F)
      → one_line name ≡ true
      → one_line date ≡ true
      → all fits_line layout.match_descs ≡ true
      → fits priority ≡ true
      → is_empty layout.enabled ≡ false
      → read_lines
          (lines (profile_text fixed2 edp_as_str gpu_as_str name date edp gpu priority layout).0)
          empty_header
        ≡ ok (captured layout.match_descs edp gpu priority)
  unfolding profile_text
  profile-text-read fixed2 name date edp gpu priority layout n d good fit filled =
      (title-Reads name date empty_header n d).after _
      ∙ dashes-Reads.after _
      ∙ (directives-Reads layout.match_descs edp gpu priority good fit).after _
      ∙ body-stops fixed2 layout.enabled _ _ filled

  -- A captured layout that is rendered is read back, by whatever name: the rules are the layout's
  -- descriptions, the two policies and the priority are those that were rendered, there are no hooks,
  -- and no line is warned about. The name and the date have no line feed, no description has one or
  -- ends in white space, and the priority is an i64.
  pub render-parse :
      {F : Type 0} (fixed2 : F → Text) (name date file_name : Text) (format : ProfileFormat)
      (edp : EdpPolicy) (gpu : GpuPref) (priority : Option ℤ) (monitors : List (MonitorSnapshot F))
      (layout : CaptureLayout F)
      → capture_layout monitors ≡ ok layout
      → one_line name ≡ true
      → one_line date ≡ true
      → all fits_line layout.match_descs ≡ true
      → fits priority ≡ true
      → let rendered =
          profile_text fixed2 edp_as_str gpu_as_str name date edp gpu priority layout in
        (render_profile_lua fixed2 edp_as_str gpu_as_str name date monitors edp gpu priority
          ≡ ok rendered)
        × (parse_profile file_name format rendered.0
            ≡ ok (
              record {
                name = file_name;
                format = format;
                matches = map as_rule layout.match_descs;
                edp = edp;
                gpu = gpu;
                hooks = [];
                priority = unwrap_or priority (pos (length (map as_rule layout.match_descs)));
              },
              [],
            ))
  unfolding render_profile_lua parse_profile profile_of
  render-parse fixed2 name date file_name format edp gpu priority monitors layout e n d good fit =
      let (on, descs) = subst Filled e (capture_layout-Filled monitors) in
      (
        ap (map_ok (profile_text fixed2 edp_as_str gpu_as_str name date edp gpu priority)) e,
        ap (profile_of file_name format)
              (profile-text-read fixed2 name date edp gpu priority layout n d good fit on)
            ∙ rw (map-filled as_rule layout.match_descs descs) refl,
      )
