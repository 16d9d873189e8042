-- ===== src/Daemon/Sources/Watchers/Loop.antt =====
-- The loop that the watchers of src/daemon/sources share: `while let Some(x) = stream.next().await`,
-- in which a send that fails ends the task, and the outer loop that subscribes again.
use hyprstate.Prelude.{ℕ, zero, suc, List, [], ◌∷◌, ◌++◌, Option, none, some}

-- What was sent, the state that is left, and the room that is left, if the task is still there.
pub record Heard {ℓ κ} (S : Type ℓ) (E : Type κ) : Type (ℓ ⊔ κ) where
  pub sent : List E
  pub state : S
  pub left : Option ℕ

module _ {ℓ κ μ} {S : Type ℓ} {X : Type μ} {E : Type κ} (step : S → X → S × Option E) where
  abbrev pub heard : Option ℕ → S → Heard S E
  heard left s = record { sent = []; state = s; left = left }

  abbrev pub said : E → Heard S E → Heard S E
  said e h = record { sent = e ∷ h.sent; state = h.state; left = h.left }

  -- A send that fails ends the task; the rest of the loop goes on with the room that is left.
  abbrev pub hear : Option E → ℕ → S → (ℕ → Heard S E) → Heard S E
  hear none room s rest = rest room
  hear (some e) zero s rest = heard none s
  hear (some e) (suc r) s rest = said e (rest r)

  unfoldable pub watch : ℕ → S → List X → Heard S E
  watch room s [] = heard (some room) s
  watch room s (x ∷ xs) = hear (step s x).1 room (step s x).0 (λ r. watch r (step s x).0 xs)

  abbrev pub after : List E → Heard S E → Heard S E
  after es h = record { sent = es ++ h.sent; state = h.state; left = h.left }

  abbrev pub go_on : Option ℕ → Heard S E → (ℕ → S → Heard S E) → Heard S E
  go_on none h rest = h
  go_on (some r) h rest = after h.sent (rest r h.state)

  -- A stream is none where the subscription fails.
  unfoldable pub subscribe : ℕ → S → List (Option (List X)) → Heard S E
  unfolding watch
  subscribe room s [] = heard (some room) s
  subscribe room s (none ∷ streams) = subscribe room s streams
  subscribe room s (some xs ∷ streams) =
      let h = watch room s xs in go_on h.left h (λ r t. subscribe r t streams)

-- The state of a task that keeps none.
abbrev pub Stateless : Type 0
Stateless = Unit

abbrev pub plain {ℓ κ} :
    {X : Type ℓ} {E : Type κ} → (X → Option E) → Stateless → X → Stateless × Option E
plain event s x = (s, event x)

unfoldable pub watch_each {ℓ κ} :
    {X : Type ℓ} {E : Type κ} → (X → Option E) → ℕ → List X → Heard Stateless E
unfolding watch
watch_each event room xs = watch (plain event) room tt xs

unfoldable pub subscribe_each {ℓ κ} :
    {X : Type ℓ} {E : Type κ} → (X → Option E) → ℕ → List (Option (List X)) → Heard Stateless E
unfolding subscribe
subscribe_each event room streams = subscribe (plain event) room tt streams
