-- ===== src/SleepHook/Rebind.antt =====
-- What the log of a rebind says of the touchpad (src/sleep_hook.rs).
use hyprstate.Prelude.{
  ℕ, zero, suc, ◌<◌, ◌≡◌, refl, sym, ap, ◌∙◌, arith, Bool, true, false, not, List, [], ◌∷◌, ◌++◌,
  any, any-append, Bool-cases, inl, inr,
}
use hyprstate.SleepHook.{
  LogLine, left_unbound, rebound, attempt_failed, Sysfs, unbind_first, attempt, exhausted, attempts,
  next_round, rebind_backoff, rebind_touchpad, rebind_attempts,
}

abbrev pub says_ok : LogLine → Bool
says_ok (rebound n) = true
says_ok _ = false

abbrev pub says_unbound : LogLine → Bool
says_unbound left_unbound = true
says_unbound _ = false

-- The log and the driver agree: the touchpad is bound unless the last line says otherwise.
pub record Agrees (log : List LogLine) (bound : Bool) : Type 0 where
  pub ok : any says_ok log ≡ true → bound ≡ true
  pub unbound : any says_unbound log ≡ not bound

Agrees-log :
    (log rest : List LogLine) (bound : Bool)
    → any says_ok log ≡ false
    → any says_unbound log ≡ false
    → Agrees rest bound
    → Agrees (log ++ rest) bound
Agrees-log log rest bound o u a = record {
  ok = λ h. a.ok (ground (arith, any-append says_ok log rest, o, h));
  unbound = any-append says_unbound log rest ∙ rw u a.unbound;
}

module _ {K : Type 0} (fs : Sysfs K) where
  quiet :
      (k : K) → (any says_ok (attempt fs k).1 ≡ false) × (any says_unbound (attempt fs k).1 ≡ false)
  unfolding attempt unbind_first
  quiet k = elim (Bool-cases (fs.bound k)) [
    | inr b ↦ rw b (refl, refl)
    | inl b ↦ rw b (elim (Bool-cases (fs.unbind k).1) [
      | inl o ↦ rw o (refl, refl)
      | inr o ↦ rw o (refl, refl)
    ])
  ]

  attempt-bound : (k : K) → (attempt fs k).2 ≡ true → fs.bound (attempt fs k).0 ≡ true
  unfolding attempt
  attempt-bound k h = ground arith

  Agrees-exhausted : (k : K) → Agrees (exhausted fs k) (fs.bound k)
  Agrees-exhausted k = elim (Bool-cases (fs.bound k)) [
    | inl b ↦ rw b (record { ok = λ h. refl; unbound = refl })
    | inr b ↦ rw b (record { ok = λ h. absurd (ground arith); unbound = refl })
  ]

  Agrees-round :
      (rest : K × List LogLine) (n : ℕ) (r : K × List LogLine × Bool)
      → (any says_ok r.1 ≡ false) × (any says_unbound r.1 ≡ false)
      → (r.2 ≡ true → fs.bound r.0 ≡ true)
      → Agrees rest.1 (fs.bound rest.0)
      → Agrees (next_round fs rest n r).1 (fs.bound (next_round fs rest n r).0)
  Agrees-round rest n (k, log, true) (o, u) h a =
      Agrees-log log (rebound n ∷ []) (fs.bound k) o u
        (record { ok = λ x. h refl; unbound = sym (ap not (h refl)) })
  Agrees-round rest n (k, log, false) (o, u) h a =
      Agrees-log log (attempt_failed n ∷ rest.1) (fs.bound rest.0) o u
        (record { ok = a.ok; unbound = a.unbound })

  Agrees-attempts :
      (left n : ℕ) (k : K) → let (k', log) = attempts fs left n k in Agrees log (fs.bound k')
  unfolding attempts
  Agrees-attempts zero n k = Agrees-exhausted k
  Agrees-attempts (suc left) n k =
      Agrees-round _ n (attempt fs k) (quiet k) (attempt-bound k)
        (Agrees-attempts left (suc n) (fs.sleep rebind_backoff (attempt fs k).0))

  -- If the touchpad is on the bus, then a log that says that it was bound again is right, and the log
  -- says that it is left unbound exactly if it is.
  pub rebind_touchpad-Agrees :
      (k : K)
      → fs.present k ≡ true
      → let (k', log) = rebind_touchpad fs k in Agrees log (fs.bound k')
  unfolding rebind_touchpad
  rebind_touchpad-Agrees k h = rw h (Agrees-attempts rebind_attempts 1 k)

  -- The kernel before attempt `m`, counted from 0, after attempts that failed.
  abbrev pub tries : ℕ → K → K
  tries zero k = k
  tries (suc m) k = tries m (fs.sleep rebind_backoff (attempt fs k).0)

  round-bound :
      (rest : K × List LogLine) (n : ℕ) (r : K × List LogLine × Bool)
      → (r.2 ≡ true → fs.bound r.0 ≡ true)
      → (r.2 ≡ false → fs.bound rest.0 ≡ true)
      → fs.bound (next_round fs rest n r).0 ≡ true
  round-bound rest n (k, log, true) h g = h refl
  round-bound rest n (k, log, false) h g = g refl

  attempts-heals :
      (left n m : ℕ) (k : K)
      → m < left
      → (attempt fs (tries m k)).2 ≡ true
      → fs.bound (attempts fs left n k).0 ≡ true
  unfolding attempts
  attempts-heals zero n m k lt h = absurd (omega arith)
  attempts-heals (suc left) n zero k lt h =
      round-bound _ n (attempt fs k) (attempt-bound k) λ f. absurd (ground (arith, f, h))
  attempts-heals (suc left) n (suc m) k lt h =
      round-bound _ n (attempt fs k) (attempt-bound k) λ f.
        attempts-heals left (suc n) m (fs.sleep rebind_backoff (attempt fs k).0) (omega arith) h

  -- The touchpad is bound in the end if it is on the bus and one of the four attempts would succeed
  -- once those before it have failed.
  pub rebind_touchpad-heals :
      (m : ℕ) (k : K)
      → m < 4
      → fs.present k ≡ true
      → (attempt fs (tries m k)).2 ≡ true
      → fs.bound (rebind_touchpad fs k).0 ≡ true
  unfolding rebind_touchpad
  rebind_touchpad-heals m k lt here h = rw here (attempts-heals rebind_attempts 1 m k lt h)
