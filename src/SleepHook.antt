-- ===== src/SleepHook.antt =====
-- src/sleep_hook.rs: the rebind of the touchpad after a resume. The bus, the driver and what a write
-- to them does are the kernel's, so they are parameters; a log line is data.
pub mod Rebind
mod Tests
use hyprstate.Prelude.{
  ℕ, zero, suc, ◌+◌, Bool, true, false, not, ◌&&◌, List, [], ◌∷◌, ◌++◌, if◌then◌else◌,
}

abbrev pub rebind_attempts : ℕ
rebind_attempts = 4

abbrev pub rebind_backoff : ℕ
rebind_backoff = 300

pub data LogLine : Type 0 where
  device_absent unbind_failed still_bound left_unbound : LogLine
  rebound attempt_failed : ℕ → LogLine

-- The sysfs files of the touchpad. A write returns the kernel after it and whether it was `Ok`.
pub record Sysfs (K : Type 0) : Type 0 where
  pub present : K → Bool
  pub bound : K → Bool
  pub unbind : K → K × Bool
  pub bind : K → K × Bool
  pub sleep : ℕ → K → K

module _ {K : Type 0} (fs : Sysfs K) where
  -- The kernel and the log after the writes of one attempt, and whether the attempt succeeded.
  unfoldable pub unbind_first : K → K × List LogLine
  unbind_first k =
      if fs.bound k
      then (let (k', ok) = fs.unbind k in (k', if ok then [] else unbind_failed ∷ []))
      else (k, [])

  unfoldable pub attempt : K → K × List LogLine × Bool
  attempt k =
      let (k1, log) = unbind_first k in let (k2, ok) = fs.bind k1 in (k2, log, ok && fs.bound k2)

  abbrev pub exhausted : K → List LogLine
  exhausted k = if fs.bound k then still_bound ∷ [] else left_unbound ∷ []

  -- What the loop does with the result of an attempt.
  abbrev pub next_round : K × List LogLine → ℕ → K × List LogLine × Bool → K × List LogLine
  next_round rest n (k1, log, true) = (k1, log ++ rebound n ∷ [])
  next_round rest n (k1, log, false) = (rest.0, log ++ (attempt_failed n ∷ rest.1))

  -- The loop from attempt number `n` on, with the attempts that are left.
  unfoldable pub attempts : ℕ → ℕ → K → K × List LogLine
  attempts zero n k = (k, exhausted k)
  attempts (suc left) n k =
      next_round (attempts left (suc n) (fs.sleep rebind_backoff (attempt k).0)) n (attempt k)

  unfoldable pub rebind_touchpad : K → K × List LogLine
  rebind_touchpad k =
      if not (fs.present k) then (k, device_absent ∷ []) else attempts rebind_attempts 1 k
