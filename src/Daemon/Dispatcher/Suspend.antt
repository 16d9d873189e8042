-- ===== src/Daemon/Dispatcher/Suspend.antt =====
-- When the daemon of src/daemon/dispatcher.rs locks and suspends.
use hyprstate.Prelude.{◌≡◌, ◌⊎◌, true, List, [], ◌∷◌, arith}
use hyprstate.Daemon.Outside.{
  Outside, Daemon, Call, lock_requested, saw_live_locker, suspend_called,
}
use hyprstate.Daemon.Locker.{suspending_tail}

-- The newest call is a verdict that a live locker holds the session.
abbrev pub ProvenBy : List Call → Type 0
ProvenBy (saw_live_locker true ∷ cs) = Unit {0}
ProvenBy _ = ⊥

-- Every suspend call comes directly after such a verdict.
abbrev pub Guarded : List Call → Type 0
Guarded [] = Unit {0}
Guarded (suspend_called accepted ∷ cs) = ProvenBy cs × Guarded cs
Guarded (lock_requested ∷ cs) = Guarded cs
Guarded (saw_live_locker held ∷ cs) = Guarded cs

-- The newest call is an accepted suspend.
abbrev pub Suspended : List Call → Type 0
Suspended (suspend_called true ∷ cs) = ProvenBy cs
Suspended _ = ⊥

module _ (out : Outside) where
  pub suspending_tail-Guarded :
      (d : Daemon) → Guarded d.calls → Guarded (suspending_tail out d).1.calls
  unfolding suspending_tail
  suspending_tail-Guarded d g = ground arith

  pub suspending_tail-Suspended :
      (d : Daemon)
      → (suspending_tail out d).0 ≡ true
      → (out.shadow ≡ true) ⊎ Suspended (suspending_tail out d).1.calls
  unfolding suspending_tail
  suspending_tail-Suspended d h = ground arith

  pub suspending_tail-main : (d : Daemon) → ((suspending_tail out d).1.ctx.main ≡ d.ctx.main)
  unfolding suspending_tail
  suspending_tail-main d = ground arith
