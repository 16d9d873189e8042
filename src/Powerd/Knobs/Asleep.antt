-- ===== src/Powerd/Knobs/Asleep.antt =====
-- A suspended GPU stays suspended (src/powerd/knobs.rs).
use hyprstate.Prelude.{
  length, leb, text_eq_iff, text_eq_refl, ℕ, ◌==◌, Bool, true, false, not, ◌||◌, ◌≡◌, ◌≢◌, refl,
  sym, ap, ◌∙◌, arith, Text, codes, text_eq, trim, List, [], ◌∷◌, Option, none, some, Result, ok,
  err, Bool-cases, inl, inr,
}
use hyprstate.Power.{PowerProfile}
use hyprstate.Gpu.{GpuCard, Indexed, integrated_card, indexed}
use hyprstate.Powerd.Knobs.{
  is_empty, all, SysfsPath, Kernel, Results, knob_write, compare_and_write, ReadError, not_found,
  read_failed, dgpu_dpm,
}
use hyprstate.Powerd.Knobs.Rows.{
  with_integrated, dpm_knob, runtime_status, discrete_row, card_row, card_rows, gpu_rows,
}

abbrev reads_suspended : Result ReadError Text → Bool
reads_suspended (ok s) = text_eq (trim s) (codes "suspended")
reads_suspended (err e) = false

-- What the kernel does for a runtime-suspended card: its status reads as suspended, and nothing but
-- an access to its dpm knob wakes it.
pub record Sleeps {K : Type 0} (fs : Kernel K) (card : Text) (asleep : K → Bool) : Type 0 where
  pub says : (k : K) → asleep k ≡ true → reads_suspended (fs.read (runtime_status card) k).1 ≡ true
  pub read_keeps :
      (p : SysfsPath) (k : K) → p ≢ dpm_knob card → asleep k ≡ true → asleep (fs.read p k).0 ≡ true
  pub write_keeps :
      (p : SysfsPath) (v : Text) (k : K)
      → p ≢ dpm_knob card
      → asleep k ≡ true
      → asleep (fs.write p v k).0 ≡ true

abbrev pub is_knob : SysfsPath → Bool
is_knob (a ∷ b ∷ c ∷ d ∷ []) = text_eq d (codes "power_dpm_force_performance_level")
is_knob _ = false

abbrev card_of : SysfsPath → Text
card_of (a ∷ c ∷ rest) = c
card_of _ = []

pub other_file : (p : SysfsPath) (card : Text) → is_knob p ≡ false → p ≢ dpm_knob card
unfolding text_eq
other_file p card h e = absurd (ground (arith, sym h ∙ ap is_knob e))

status-differs : (c card : Text) → runtime_status c ≢ dpm_knob card
unfolding text_eq
status-differs c card = other_file (runtime_status c) card refl

module _ {K : Type 0} (fs : Kernel K) {card : Text} {asleep : K → Bool}
    (sl : Sleeps fs card asleep) where
  compare_and_write-keeps :
      (p : SysfsPath) (v : Text) (r : K × Result ReadError Text)
      → p ≢ dpm_knob card
      → asleep r.0 ≡ true
      → asleep (compare_and_write fs p v r).0 ≡ true
  unfolding compare_and_write
  compare_and_write-keeps p v (k, err (not_found e)) other h = h
  compare_and_write-keeps p v (k, err (read_failed e)) other h = h
  compare_and_write-keeps p v (k, ok cur) other h = elim (Bool-cases (text_eq (trim cur) v)) [
    | inl e ↦ rw e h
    | inr e ↦ rw e (sl.write_keeps p v k other h)
  ]

  pub knob_write-keeps :
      (p : SysfsPath) (v : Text) (k : K)
      → p ≢ dpm_knob card
      → asleep k ≡ true
      → asleep (knob_write fs p v k).0 ≡ true
  unfolding knob_write
  knob_write-keeps p v k other h =
      compare_and_write-keeps p v (fs.read p k) other (sl.read_keeps p k other h)

  knob-differs : (c : Text) → text_eq c card ≡ false → dpm_knob c ≢ dpm_knob card
  knob-differs c h e =
      absurd (ground (arith, sym h ∙ ap (λ x. text_eq x card) (ap card_of e) ∙ text_eq_refl card))

  -- Another card's row.
  discrete_row-keeps :
      (profile : PowerProfile) (c : Text) (r : K × Result ReadError Text)
      → text_eq c card ≡ false
      → asleep r.0 ≡ true
      → asleep (discrete_row fs profile c r).0 ≡ true
  unfolding discrete_row
  discrete_row-keeps profile c (k, err e) other h = h
  discrete_row-keeps profile c (k, ok s) other h =
      elim (Bool-cases (text_eq (trim s) (codes "suspended"))) [
        | inl e ↦ rw e h
        | inr e ↦ rw e (knob_write-keeps (dpm_knob c) (dgpu_dpm profile) k (knob-differs c other) h)
      ]

  -- A row that reads "suspended" stops there.
  suspended_row-keeps :
      (profile : PowerProfile) (c : Text) (r : K × Result ReadError Text)
      → reads_suspended r.1 ≡ true
      → asleep r.0 ≡ true
      → asleep (discrete_row fs profile c r).0 ≡ true
  unfolding discrete_row
  suspended_row-keeps profile c (k, err e) s h = h
  suspended_row-keeps profile c (k, ok t) s h = rw s h

  any_row-keeps :
      (profile : PowerProfile) (c : Text) (k : K)
      → asleep k ≡ true
      → asleep (discrete_row fs profile c (fs.read (runtime_status c) k)).0 ≡ true
  any_row-keeps profile c k h = elim (Bool-cases (text_eq c card)) [
    | inr other ↦
        discrete_row-keeps profile c _ other
          (sl.read_keeps (runtime_status c) k (status-differs c card) h)
    | inl own ↦
        suspended_row-keeps profile c _ (rw ((text_eq_iff c card).0 own) (sl.says k h))
          (sl.read_keeps (runtime_status c) k (status-differs c card) h)
  ]

  card_row-keeps :
      (profile : PowerProfile) (i : ℕ) (x : Indexed) (k : K)
      → (not (x.0 == i) || not (text_eq x.1.card card)) ≡ true
      → asleep k ≡ true
      → asleep (card_row fs profile i x k).0 ≡ true
  unfolding card_row
  card_row-keeps profile i (j, c) k apart h = elim (Bool-cases (j == i)) [
    | inl e ↦ rw e (
        knob_write-keeps (dpm_knob c.card) (codes "auto") k
          (knob-differs c.card (ground (arith, apart, e))) h)
    | inr e ↦ rw e (any_row-keeps profile c.card k h)
  ]

  card_rows-keeps :
      (profile : PowerProfile) (i : ℕ) (cs : List Indexed) (res : Results) (k : K)
      → all (λ x. not (x.0 == i) || not (text_eq x.1.card card)) cs ≡ true
      → asleep k ≡ true
      → asleep (card_rows fs profile i cs res k).0 ≡ true
  unfolding card_rows
  card_rows-keeps profile i [] res k apart h = h
  card_rows-keeps profile i (c ∷ cs) res k apart h =
      card_rows-keeps profile i cs _ _ (ground arith)
        (card_row-keeps profile i c k (ground arith) h)

-- The integrated card, where there is one, has another name.
abbrev apart_from : Text → List GpuCard → Option Indexed → Bool
apart_from card cards none = true
apart_from card cards (some (i, c)) =
    all (λ x. not (x.0 == i) || not (text_eq x.1.card card)) (indexed 0 cards)

abbrev pub is_discrete : Text → List GpuCard → Bool
is_discrete card cards = apart_from card cards (integrated_card cards)

module _ {K : Type 0} (fs : Kernel K) {card : Text} {asleep : K → Bool}
    (sl : Sleeps fs card asleep) where
  with_integrated-keeps :
      (profile : PowerProfile) (cards : List GpuCard) (o : Option Indexed) (res : Results) (k : K)
      → apart_from card cards o ≡ true
      → asleep k ≡ true
      → asleep (with_integrated fs profile cards o res k).0 ≡ true
  with_integrated-keeps profile cards none res k apart h = h
  with_integrated-keeps profile cards (some (i, c)) res k apart h =
      card_rows-keeps fs sl profile i (indexed 0 cards) res k apart h

  pub gpu_rows-keeps :
      (profile : PowerProfile) (cards : List GpuCard) (res : Results) (k : K)
      → is_discrete card cards ≡ true
      → asleep k ≡ true
      → asleep (gpu_rows fs profile cards res k).0 ≡ true
  unfolding gpu_rows
  gpu_rows-keeps profile cards res k apart h = elim (Bool-cases (is_empty cards)) [
    | inl e ↦ rw e h
    | inr e ↦ rw e (elim (Bool-cases (leb 2 (length cards))) [
      | inl l ↦ rw l (with_integrated-keeps profile cards (integrated_card cards) res k apart h)
      | inr l ↦ rw l h
    ])
  ]
