-- ===== src/Daemon/Sources/Reconciler/Passes.antt =====
-- The passes of a machine without a lid (reconcile_task in src/daemon/sources/reconciler.rs).
use hyprstate.Prelude.{
  ℕ, suc, ◌+◌, ◌-◌, ◌≤◌, ◌≡◌, refl, ap, ◌∙◌, Bool, false, List, [], ◌∷◌, some, length, arith,
}
use hyprstate.Daemon.Outside.{Trigger, safety_tick}
use hyprstate.Daemon.Sources.Watchers.Loop.{Heard}
use hyprstate.Daemon.Sources.Watchers.Streams.{outputs, final, watch_lem}
use hyprstate.Daemon.Sources.Reconciler.{
  PassState, Turn, Pass, ticked, first_reason, gather, reconcile_step, reconcile_task,
}

-- The safety ticks among the turns.
abbrev pub tick_count : List Turn → ℕ
tick_count [] = 0
tick_count (t ∷ turns) = ticked (first_reason t) (tick_count turns)

-- A machine without a lid goes on to the next turn with a snapshot.
outputs-every_turn :
    (turns : List Turn) (k : PassState)
    → length (outputs (reconcile_step false) k turns) ≡ length turns
unfolding reconcile_step gather
outputs-every_turn [] k = refl
outputs-every_turn (t ∷ turns) k = ap suc (outputs-every_turn turns _)

ticked_shift : (t : Trigger) (n m : ℕ) → ticked t n + m ≡ n + ticked t m
ticked_shift safety_tick n m = omega arith
ticked_shift _ n m = refl

final-ticks :
    (lid_present : Bool) (turns : List Turn) (k : PassState)
    → (final (reconcile_step lid_present) k turns).ticks ≡ k.ticks + tick_count turns
unfolding reconcile_step
final-ticks lid_present [] k = omega arith
final-ticks lid_present (t ∷ turns) k =
    final-ticks lid_present turns _ ∙ ticked_shift (first_reason t) k.ticks (tick_count turns)

-- What a task that was given room for every turn has done after them.
pub record Passed (k : PassState) (turns : List Turn) (room : ℕ) (h : Heard PassState Pass)
    : Type 0 where
  pub passes : length h.sent ≡ length turns
  pub alive : h.left ≡ some (room - length turns)
  pub ticks : h.state.ticks ≡ k.ticks + tick_count turns

-- On a machine without a lid every turn hands a snapshot to the dispatcher, whatever readings fail,
-- as long as that takes them, and each safety tick is counted.
pub lidless-Passed :
    (room : ℕ) (k : PassState) (turns : List Turn)
    → length turns ≤ room
    → Passed k turns room (reconcile_task room false k turns)
unfolding reconcile_task
lidless-Passed room k turns h =
    let all = outputs-every_turn turns k in
    let (sent, left, state) = watch_lem (reconcile_step false) room k turns (rw all h) in
    record {
      passes = ap length sent ∙ all;
      alive = left ∙ ap (λ n. some (room - n)) all;
      ticks = ap (λ (s : PassState). s.ticks) state ∙ final-ticks false turns k;
    }
