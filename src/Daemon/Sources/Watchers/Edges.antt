-- ===== src/Daemon/Sources/Watchers/Edges.antt =====
-- What logind_inhibitor_watcher (src/daemon/sources/inhibitors.rs) tells of the claims: one event for
-- each change of the reading, so that the last event and the last reading agree.
use hyprstate.Prelude.{
  ◌≡◌, refl, subst, sym, ◌∙◌, ℕ, Bool, true, false, not, List, [], ◌∷◌, Option, none, some, inl,
  inr, Bool-cases, if◌then◌else◌,
}
use hyprstate.Daemon.Event.{Event, inhibitor}
use hyprstate.Daemon.Sources.Watchers.{
  Changed, touched, on_claim, claim_step, logind_real_inhibitor_active, logind_inhibitor_watcher,
}
use hyprstate.Daemon.Sources.Watchers.Loop.{Heard}
use hyprstate.Daemon.Sources.Watchers.Streams.{joined, outputs, final, told_then, subscribe_whole}

-- Events that each turn the flag, from one value to another.
pub data Edges : Bool → List Event → Bool → Type 0 where
  level : {b : Bool} → Edges b [] b
  turned :
      {b c n : Bool} {es : List Event}
      → n ≡ not b
      → Edges n es c
      → Edges b (inhibitor false n ∷ es) c

-- The list that is read on a signal that touches the inhibitors.
abbrev heard_rows : Option Changed → Option Bool
heard_rows none = none
heard_rows (some s) = if touched s then logind_real_inhibitor_active s.rows else none

abbrev newer : Bool → Option Bool → Bool
newer last none = last
newer last (some cur) = cur

-- The last list that could be read, or the flag of the start.
abbrev pub last_reading : Bool → List (Option Changed) → Bool
last_reading last [] = last
last_reading last (s ∷ ss) = last_reading (newer last (heard_rows s)) ss

-- One signal: nothing is sent and the flag stays, or the flag is turned and that is sent.
data OneStep (last cur : Bool) : Bool × Option Event → Type 0 where
  stays : cur ≡ last → OneStep last cur (last, none)
  turns : cur ≡ not last → OneStep last cur (cur, some (inhibitor false cur))

on_claim-OneStep : (last : Bool) (o : Option Bool) → OneStep last (newer last o) (on_claim last o)
on_claim-OneStep last none = stays refl
on_claim-OneStep true (some true) = stays refl
on_claim-OneStep true (some false) = turns refl
on_claim-OneStep false (some true) = turns refl
on_claim-OneStep false (some false) = stays refl

claim_step-OneStep :
    (last : Bool) (s : Option Changed)
    → OneStep last (newer last (heard_rows s)) (claim_step last s)
unfolding claim_step
claim_step-OneStep last none = stays refl
claim_step-OneStep last (some s) = elim (Bool-cases (touched s)) [
  | inl e ↦ rw e (on_claim-OneStep last _)
  | inr e ↦ rw e (stays refl)
]

OneStep-state : {last cur : Bool} {r : Bool × Option Event} → OneStep last cur r → r.0 ≡ cur
OneStep-state (stays e) = sym e
OneStep-state (turns e) = refl

OneStep-Edges :
    {last cur c : Bool} {r : Bool × Option Event} {es : List Event}
    → OneStep last cur r
    → Edges r.0 es c
    → Edges last (told_then claim_step r.1 es) c
OneStep-Edges (stays e) p = p
OneStep-Edges {last} (turns e) p = turned e p

final-last_reading :
    (last : Bool) (ss : List (Option Changed)) → final claim_step last ss ≡ last_reading last ss
final-last_reading last [] = refl
final-last_reading last (s ∷ ss) =
    rw (OneStep-state (claim_step-OneStep last s))
      (final-last_reading (newer last (heard_rows s)) ss)

outputs-Edges :
    (last : Bool) (ss : List (Option Changed))
    → Edges last (outputs claim_step last ss) (last_reading last ss)
outputs-Edges last [] = level
outputs-Edges last (s ∷ ss) = OneStep-Edges (claim_step-OneStep last s) (
    subst (λ b. Edges b (outputs claim_step b ss) (last_reading (newer last (heard_rows s)) ss))
      (sym (OneStep-state (claim_step-OneStep last s)))
      (outputs-Edges (newer last (heard_rows s)) ss))

-- What the task keeps and what it sent, while the dispatcher is there: the flag is the last list
-- that could be read, and the events turn the first flag into it one by one.
pub record Current (last now : Bool) (h : Heard Bool Event) : Type 0 where
  pub state : h.state ≡ now
  pub edges : Edges last h.sent now

-- A claims watcher that is still there, whatever subscriptions and lists it lost, has sent one event
-- for each change of the flag, and its flag is the last list that could be read.
pub logind_inhibitor_watcher-Current :
    (room : ℕ) (last : Bool) (streams : List (Option (List (Option Changed)))) (k : ℕ)
    → (logind_inhibitor_watcher room last streams).left ≡ some k
    → Current last (last_reading last (joined streams)) (logind_inhibitor_watcher room last streams)
unfolding logind_inhibitor_watcher
logind_inhibitor_watcher-Current room last streams k h =
    let (sent, state) = subscribe_whole claim_step room last streams k h in
    record {
      state = state ∙ final-last_reading last (joined streams);
      edges = rw sent (outputs-Edges last (joined streams));
    }
