-- ===== src/Power/SelfWrites.antt =====
-- The self-write tracker of crates/hyprstate-fsm/src/power.rs, against a plain window.
use hyprstate.Prelude.{
  ℕ, ◌+◌, ◌≤◌, ◌≡◌, refl, sym, true, false, Text, List, [], ◌∷◌, Option, none, some, Bool-cases,
  any, text_eq, unwrap_or, inl, inr, All, arith,
}
use hyprstate.Power.{
  PowerProfile, SelfWriteTracker, no_writes, adopt_suppress, push, register, retain, take_entry,
  take_value, in_window, is_self_write, consumed,
}

-- No entry outlives the window that its write opened.
abbrev pub Within : Option ℕ → List (ℕ × List Text) → Type 0
Within none es = es ≡ []
Within (some t) es = All (λ e. e.0 ≤ t + adopt_suppress) es

abbrev pub IsBounded : SelfWriteTracker → Type 0
IsBounded t = Within t.last_apply t.entries

abbrev pub Below : ℕ → List (ℕ × List Text) → Type 0
Below b = All (λ e. e.0 ≤ b)

Below-mono : (a b : ℕ) (es : List (ℕ × List Text)) → a ≤ b → Below a es → Below b es
Below-mono a b [] h x = tt
Below-mono a b (e ∷ es) h x = (omega arith, Below-mono a b es h x.1)

push-Below :
    (b : ℕ) (es : List (ℕ × List Text)) (e : ℕ × List Text)
    → Below b es
    → e.0 ≤ b
    → Below b (push es e)
push-Below b [] e x h = (h, tt)
push-Below b (y ∷ es) e x h = (x.0, push-Below b es e x.1 h)

retain-Below : (b now : ℕ) (es : List (ℕ × List Text)) → Below b es → Below b (retain now es)
unfolding retain
retain-Below b now [] x = tt
retain-Below b now ((y, vs) ∷ es) x = ground (arith, retain-Below b now es x.1)

-- What is left of the entries after one was taken, if one was.
abbrev Kept : ℕ → Option (List (ℕ × List Text)) → Type 0
Kept b none = Unit {0}
Kept b (some es) = Below b es

take_entry-Kept :
    (b : ℕ) (v : Text) (es : List (ℕ × List Text)) → Below b es → Kept b (take_entry v es)
unfolding take_entry
take_entry-Kept b v [] x = tt
take_entry-Kept b v ((y, vs) ∷ es) x = elim (Bool-cases (any (text_eq v) vs)) [
  | inl hit ↦ rw hit x.1
  | inr miss ↦ rw miss (rest (take_entry v es) (take_entry-Kept b v es x.1))
]
  where
    rest :
        (o : Option (List (ℕ × List Text)))
        → Kept b o
        → Kept b (elim o [ none ↦ none | some r ↦ some ((y, vs) ∷ r) ])
    rest none k = tt
    rest (some r) k = (x.0, k)

-- Once the window is over nothing is left to match.
retain-nil : (b now : ℕ) (es : List (ℕ × List Text)) → Below b es → b ≤ now → retain now es ≡ []
unfolding retain
retain-nil b now [] x h = refl
retain-nil b now ((y, vs) ∷ es) x h = ground (arith, retain-nil b now es x.1)

take_value-nil : (v : Option Text) → take_value v [] ≡ none
unfolding take_entry
take_value-nil none = refl
take_value-nil (some v) = refl

consumed-over :
    (t : SelfWriteTracker) (now : ℕ) (live : List (ℕ × List Text)) (v : Option Text)
    → live ≡ []
    → (consumed t now live (take_value v live)).0 ≡ in_window t.last_apply now
consumed-over t now live v e = rw (e, take_value-nil v)

consumed-during :
    (t : SelfWriteTracker) (now : ℕ) (live : List (ℕ × List Text))
    (o : Option (List (ℕ × List Text)))
    → in_window t.last_apply now ≡ true
    → (consumed t now live o).0 ≡ in_window t.last_apply now
consumed-during t now live none h = refl
consumed-during t now live (some rest) h = sym h

window_over :
    (l : Option ℕ) (es : List (ℕ × List Text)) (now : ℕ)
    → Within l es
    → in_window l now ≡ false
    → retain now es ≡ []
window_over none es now x h = rw x (unfold retain in refl)
window_over (some l) es now x h = retain-nil (l + adopt_suppress) now es x (ground arith)

-- For a tracker whose entries lie within its window, the answer is the window's: the entries
-- never change it.
pub is_self_write-in_window :
    (t : SelfWriteTracker) (now : ℕ) (value : Option Text)
    → IsBounded t
    → (is_self_write t now value).0 ≡ in_window t.last_apply now
unfolding is_self_write
is_self_write-in_window t now value x = elim (Bool-cases (in_window t.last_apply now)) [
  | inl during ↦ consumed-during t now _ (take_value value (retain now t.entries)) during
  | inr over ↦ consumed-over t now _ value (window_over t.last_apply t.entries now x over)
]

register-IsBounded :
    (t : SelfWriteTracker) (now : ℕ) (p : PowerProfile) (clock : ℕ)
    → clock ≤ now
    → IsBounded t
    → unwrap_or t.last_apply 0 ≤ clock
    → IsBounded (register t now p)
unfolding register
register-IsBounded t now p clock h x y =
    push-Below (now + adopt_suppress) t.entries _ (older t.last_apply t.entries x y) (omega arith)
  where
    older :
        (l : Option ℕ) (es : List (ℕ × List Text))
        → Within l es
        → unwrap_or l 0 ≤ clock
        → Below (now + adopt_suppress) es
    older none es w k = rw w tt
    older (some l) es w k =
        Below-mono (l + adopt_suppress) (now + adopt_suppress) es (omega arith) w

Within-retain :
    (l : Option ℕ) (es : List (ℕ × List Text)) (now : ℕ) → Within l es → Within l (retain now es)
Within-retain none es now x = rw x (unfold retain in refl)
Within-retain (some l) es now x = retain-Below (l + adopt_suppress) now es x

-- What a question leaves behind.
abbrev Remains : Option ℕ → Option (List (ℕ × List Text)) → Type 0
Remains l none = Unit {0}
Remains l (some es) = Within l es

Within-take_entry :
    (l : Option ℕ) (es : List (ℕ × List Text)) (v : Text)
    → Within l es
    → Remains l (take_entry v es)
Within-take_entry none es v x = rw x (unfold take_entry in tt)
Within-take_entry (some l) es v x =
    kept (take_entry v es) (take_entry-Kept (l + adopt_suppress) v es x)
  where
    kept : (o : Option (List (ℕ × List Text))) → Kept (l + adopt_suppress) o → Remains (some l) o
    kept none k = tt
    kept (some rest) k = k

consumed-IsBounded :
    (t : SelfWriteTracker) (now : ℕ) (live : List (ℕ × List Text)) (v : Option Text)
    → Within t.last_apply live
    → IsBounded (consumed t now live (take_value v live)).1
consumed-IsBounded t now live none x = x
consumed-IsBounded t now live (some v) x =
    taken (take_entry v live) (Within-take_entry t.last_apply live v x)
  where
    taken :
        (o : Option (List (ℕ × List Text)))
        → Remains t.last_apply o
        → IsBounded (consumed t now live o).1
    taken none k = x
    taken (some rest) k = k

is_self_write-IsBounded :
    (t : SelfWriteTracker) (now : ℕ) (value : Option Text)
    → IsBounded t
    → IsBounded (is_self_write t now value).1
unfolding is_self_write
is_self_write-IsBounded t now value x =
    consumed-IsBounded t now _ value (Within-retain t.last_apply t.entries now x)

is_self_write-last_apply :
    (t : SelfWriteTracker) (now : ℕ) (value : Option Text)
    → (is_self_write t now value).1.last_apply ≡ t.last_apply
unfolding is_self_write
is_self_write-last_apply t now value = kept (take_value value (retain now t.entries))
  where
    kept :
        (o : Option (List (ℕ × List Text)))
        → (consumed t now (retain now t.entries) o).1.last_apply ≡ t.last_apply
    kept none = refl
    kept (some rest) = refl

-- One use of the tracker, `wait` milliseconds after the one before.
pub data Use : Type 0 where
  registers : ℕ → PowerProfile → Use
  asks : ℕ → Option Text → Use

pub use_one : ℕ × SelfWriteTracker → Use → ℕ × SelfWriteTracker
use_one (clock, t) (registers wait p) = (clock + wait, register t (clock + wait) p)
use_one (clock, t) (asks wait v) = (clock + wait, (is_self_write t (clock + wait) v).1)

pub use_all : ℕ × SelfWriteTracker → List Use → ℕ × SelfWriteTracker
use_all s [] = s
use_all s (u ∷ us) = use_all (use_one s u) us

abbrev IsSound : ℕ × SelfWriteTracker → Type 0
IsSound (clock, t) = IsBounded t × (unwrap_or t.last_apply 0 ≤ clock)

use_one-IsSound : (s : ℕ × SelfWriteTracker) (u : Use) → IsSound s → IsSound (use_one s u)
unfolding use_one
use_one-IsSound (clock, t) (registers wait p) (x, y) =
    (register-IsBounded t (clock + wait) p clock (omega arith) x y, unfold register in omega arith)
use_one-IsSound (clock, t) (asks wait v) (x, y) = (
  is_self_write-IsBounded t (clock + wait) v x,
  rw (is_self_write-last_apply t (clock + wait) v) (omega arith),
)

use_all-IsSound : (s : ℕ × SelfWriteTracker) (us : List Use) → IsSound s → IsSound (use_all s us)
unfolding use_all
use_all-IsSound s [] x = x
use_all-IsSound s (u ∷ us) x = use_all-IsSound (use_one s u) us (use_one-IsSound s u x)

-- After any history of writes and questions from a fresh tracker, on a clock that does not run
-- backwards, a change counts as the daemon's own exactly inside the window after the last write.
pub history-in_window :
    (start : ℕ) (us : List Use) (wait : ℕ) (value : Option Text)
    → let (clock, t) = use_all (start, no_writes) us in
      (is_self_write t (clock + wait) value).0 ≡ in_window t.last_apply (clock + wait)
history-in_window start us wait value =
    let (clock, t) = use_all (start, no_writes) us in
    is_self_write-in_window t (clock + wait) value
      (use_all-IsSound (start, no_writes) us (refl, omega arith)).0
