-- ===== src/Daemon/Locker.antt =====
-- src/daemon/effectors.rs and dispatcher.rs: the proof of a live locker, the lock request and the
-- suspend call, and `suspending_tail`, which puts them in order.
use hyprstate.Prelude.{Bool, true, false, not, ◌&&◌, ◌∷◌, Option, some, if◌then◌else◌}
use hyprstate.Daemon.Outside.{
  Outside, Daemon, Call, lock_requested, saw_live_locker, suspend_called, tick,
}

abbrev pub called : Call → Daemon → Daemon
called c d = record d { calls = c ∷ d.calls }

abbrev is_true : Option Bool → Bool
is_true (some true) = true
is_true _ = false

module _ (out : Outside) where
  -- A fresh LockedHint and the compositor's own lock. The verdict is noted in the log.
  unfoldable pub live_locker : Daemon → Bool × Daemon
  live_locker d =
      let hinted = out.session && is_true (out.locked_hint d.asked) in
      let held = hinted && is_true (out.session_is_locked (tick d).asked) in
      (held, called (saw_live_locker held) (tick (tick d)))

  unfoldable pub request_lock : Daemon → Daemon
  request_lock d =
      if not out.session then d else (if out.shadow then d else called lock_requested d)

  abbrev waited : Daemon → Bool × Daemon
  waited d = (out.lock_wait d.asked, tick d)

  wait_after : Bool × Daemon → Bool × Daemon
  wait_after (true, d) = (true, d)
  wait_after (false, d) = waited d

  unfoldable pub wait_for_lock : Daemon → Bool × Daemon
  unfolding wait_after live_locker
  wait_for_lock d = if d.ctx.main.locked then wait_after (live_locker d) else waited d

  unfoldable pub do_suspend : Daemon → Bool × Daemon
  do_suspend d =
      if out.shadow
      then (true, d)
      else (let accepted = out.suspend_accepted d.asked in
          (accepted, called (suspend_called accepted) (tick d)))

  suspend_if : Bool × Daemon → Bool × Daemon
  unfolding do_suspend
  suspend_if (true, d) = do_suspend d
  suspend_if (false, d) = (false, d)

  -- `wait_for_lock(..) && live_locker()`.
  proven_after : Bool × Daemon → Bool × Daemon
  unfolding live_locker
  proven_after (true, d) = live_locker d
  proven_after (false, d) = (false, d)

  lock_first : Bool × Daemon → Bool × Daemon
  unfolding request_lock wait_for_lock proven_after suspend_if
  lock_first (true, d) = do_suspend d
  lock_first (false, d) = suspend_if (proven_after (wait_for_lock (request_lock d)))

  unfoldable pub suspending_tail : Daemon → Bool × Daemon
  unfolding live_locker lock_first
  suspending_tail d = lock_first (live_locker d)
