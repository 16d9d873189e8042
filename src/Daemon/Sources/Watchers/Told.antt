-- ===== src/Daemon/Sources/Watchers/Told.antt =====
-- What the watchers of the lid, the charger, the lock and sleep (src/daemon/sources/mod.rs) tell of the
-- values that they are given.
use hyprstate.Prelude.{
  ℕ, ◌≡◌, refl, ap, ◌∙◌, take, Bool, true, false, not, List, [], ◌∷◌, map, Option, none, some,
}
use hyprstate.Daemon.Event.{Event, lid, sleeping, resumed, lock_changed, ac_changed}
use hyprstate.Daemon.Sources.Watchers.{
  skip_first, got, lock_step, sleep_event, lid_watcher, ac_watcher, lock_watcher, sleep_watcher,
}
use hyprstate.Daemon.Sources.Watchers.Loop.{plain, watch_each, subscribe_each}
use hyprstate.Daemon.Sources.Watchers.Streams.{joined, outputs, watch_sent, subscribe_lem}

-- The values that could be read.
abbrev pub readable {ℓ} : {X : Type ℓ} → List (Option X) → List X
readable [] = []
readable (none ∷ xs) = readable xs
readable (some x ∷ xs) = x ∷ readable xs

-- The changes of a property: what comes after the value at the subscription, where it could be read.
abbrev pub changes {ℓ} : {X : Type ℓ} → List (Option X) → List X
changes [] = []
changes (now ∷ xs) = readable xs

abbrev pub ac_told : Bool → Event
ac_told true = ac_changed false
ac_told false = ac_changed true

abbrev pub sleep_told : Bool → Event
sleep_told true = sleeping
sleep_told false = resumed

outputs-got :
    (event told : Bool → Event) (xs : List (Option Bool))
    → ((b : Bool) → event b ≡ told b)
    → outputs (plain (got event)) tt xs ≡ map told (readable xs)
outputs-got event told [] same = refl
outputs-got event told (none ∷ xs) same = outputs-got event told xs same
outputs-got event told (some b ∷ xs) same =
    rw (same b) (ap (λ es. told b ∷ es) (outputs-got event told xs same))

outputs-lock_step :
    (seen : Bool) (xs : List (Option Bool))
    → outputs lock_step seen xs ≡ map lock_changed (readable xs)
outputs-lock_step seen [] = refl
outputs-lock_step seen (none ∷ xs) = outputs-lock_step seen xs
outputs-lock_step seen (some b ∷ xs) = ap (λ es. lock_changed b ∷ es) (outputs-lock_step b xs)

skipped : (xs : List (Option Bool)) → readable (skip_first xs) ≡ changes xs
skipped [] = refl
skipped (x ∷ xs) = refl

property_told :
    (event told : Bool → Event) (room : ℕ) (xs : List (Option Bool))
    → ((b : Bool) → event b ≡ told b)
    → (watch_each (got event) room (skip_first xs)).sent ≡ take room (map told (changes xs))
unfolding watch_each
property_told event told room xs same =
    watch_sent (plain (got event)) room tt (skip_first xs)
    ∙ ap (take room) (outputs-got event told (skip_first xs) same ∙ ap (map told) (skipped xs))

charger_told : (b : Bool) → ac_changed (not b) ≡ ac_told b
charger_told true = refl
charger_told false = refl

sleep_same : (b : Bool) → sleep_event b ≡ sleep_told b
sleep_same true = refl
sleep_same false = refl

-- Up to the events that the dispatcher still takes, and in order: the watchers of the lid, of the
-- charger and of the lock send one event for each change that could be read, with the value of the
-- lid, its opposite for the charger's on-battery, and the lock's, and none for the value at the
-- subscription; the watcher of sleep sends one event for each signal that could be read, of whatever
-- streams, over failed subscriptions and ends of streams.
pub watchers_in_order :
    (room : ℕ) (seen : Bool) (lids on_battery locks : List (Option Bool))
    (sleeps : List (Option (List (Option Bool))))
    → ((lid_watcher room lids).sent ≡ take room (map lid (changes lids)))
      × ((ac_watcher room on_battery).sent ≡ take room (map ac_told (changes on_battery)))
      × ((lock_watcher room seen locks).sent ≡ take room (map lock_changed (changes locks)))
      × ((sleep_watcher room sleeps).sent ≡ take room (map sleep_told (readable (joined sleeps))))
unfolding lid_watcher ac_watcher lock_watcher sleep_watcher subscribe_each
watchers_in_order room seen lids on_battery locks sleeps = (
  property_told lid lid room lids (λ b. refl),
  property_told (λ b. ac_changed (not b)) ac_told room on_battery charger_told,
  watch_sent lock_step room seen (skip_first locks)
      ∙ ap (take room)
          (outputs-lock_step seen (skip_first locks) ∙ ap (map lock_changed) (skipped locks)),
  subscribe_lem (plain (got sleep_event)) room tt sleeps
      ∙ ap (take room) (outputs-got sleep_event sleep_told (joined sleeps) sleep_same),
)
