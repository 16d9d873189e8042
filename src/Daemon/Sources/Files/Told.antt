-- ===== src/Daemon/Sources/Files/Told.antt =====
-- The events of the state-file task as a log of changes (src/daemon/sources/files.rs).
use hyprstate.Prelude.{
  ℕ, zero, suc, ◌==◌, Bool, true, false, ◌||◌, ◌≡◌, arith, Text, codes, text_eq, List, [], ◌∷◌,
  ◌++◌, Option, none, some, option_eq, bool_eq, if◌then◌else◌, Bool-cases, inl, inr,
}
use hyprstate.Daemon.Event.{
  Event, platform_profile_changed, gpu_override_changed, power_override_changed,
  suspend_request_changed, profiles_changed, kbd_level_changed, kbd_override_changed,
}
use hyprstate.Daemon.Sources.Files.{
  tell_platform, Last, Readings, read_now, read_kbd_level, Check, FileTask, send, report,
  send_platform, only_if, check_gpu, check_power, check_suspend, check_profiles, check_kbd_level,
  check_kbd_override, sweep, begin, rounds,
}

-- One event tells of one input, and its value is another one than before. The event for the profile
-- directories carries no value.
pub data Change (l : Last) : Event → Last → Type 0 where
  platform_moved :
      (v : Option Text)
      → option_eq text_eq v l.platform ≡ false
      → Change l (platform_profile_changed v) (record l { platform = v })
  gpu_moved :
      (v : Option Text)
      → option_eq text_eq v l.gpu ≡ false
      → Change l (gpu_override_changed v) (record l { gpu = v })
  power_moved :
      (v : Option Text)
      → option_eq text_eq v l.power ≡ false
      → Change l (power_override_changed v) (record l { power = v })
  suspend_moved :
      (v : Bool)
      → bool_eq v l.suspend ≡ false
      → Change l
          (suspend_request_changed (if v then some (codes "idle") else none))
          (record l { suspend = v })
  profiles_moved :
      (v : ℕ) → (v == l.profiles) ≡ false → Change l profiles_changed (record l { profiles = v })
  kbd_level_moved :
      (v : Option ℕ)
      → option_eq ◌==◌ v l.kbd_level ≡ false
      → Change l (kbd_level_changed v) (record l { kbd_level = v })
  kbd_override_moved :
      (v : Bool)
      → bool_eq v l.kbd_override ≡ false
      → Change l (kbd_override_changed v) (record l { kbd_override = v })

-- The events, in order, lead from one reading to the other.
pub data Told (l : Last) : List Event → Last → Type 0 where
  nothing : Told l [] l
  then_told :
      {es : List Event} {m n : Last} (e : Event)
      → Told l es m
      → Change m e n
      → Told l (es ++ e ∷ []) n

-- As long as the task has not returned, what it sent leads to what it holds.
pub record Faithful (start : Last) (t : FileTask) : Type 0 where
  pub told : t.over ≡ false → Told start t.sent t.last

Faithful-send :
    {start : Last} (room : ℕ) (l : Last) (e : Event) (t : FileTask)
    → t.over ≡ false
    → Change t.last e l
    → Faithful start t
    → Faithful start (send room e (record t { last = l }))
unfolding send
Faithful-send zero l e t o h f = record { told = λ x. absurd (ground arith) }
Faithful-send (suc k) l e t o h f = record { told = λ x. then_told e (f.told o) h }

Faithful-report :
    {start : Last} (same : Bool) (l : Last) (e : Event) (t : FileTask)
    → (same ≡ false → Change t.last e l)
    → Faithful start t
    → Faithful start (report same l e t)
unfolding report
Faithful-report {start} same l e t h f = elim (Bool-cases (t.over || same)) [
  | inl x ↦ rw x f
  | inr x ↦ rw x (Faithful-send t.room l e t (ground arith) (h (ground arith)) f)
]

Faithful-if :
    {start : Last} (b : Bool) (g : FileTask → FileTask) (t : FileTask)
    → ((u : FileTask) → Faithful start u → Faithful start (g u))
    → Faithful start t
    → Faithful start (only_if b g t)
Faithful-if true g t h f = h t f
Faithful-if false g t h f = f

Faithful-send_platform :
    {start : Last} (cur : Option Text) (again : List (Option Text)) (t : FileTask)
    → Faithful start t
    → Faithful start (send_platform cur again t)
unfolding send_platform tell_platform
Faithful-send_platform cur [] t f = Faithful-report _ _ _ t (platform_moved cur) f
Faithful-send_platform cur (next ∷ rest) t f =
    Faithful-send_platform next rest _ (Faithful-report _ _ _ t (platform_moved cur) f)

Faithful-sweep :
    {start : Last} (c : Check) (r : Readings) (t : FileTask)
    → Faithful start t
    → Faithful start (sweep c r t)
unfolding sweep check_gpu check_power check_suspend check_profiles check_kbd_level
    check_kbd_override
Faithful-sweep c r t f =
    Faithful-if c.kbd_override (check_kbd_override r) _
      (λ u g. Faithful-report _ _ _ u (kbd_override_moved r.kbd_override) g)
      (Faithful-if c.kbd_level (check_kbd_level r) _
        (λ u g. Faithful-report _ _ _ u (kbd_level_moved (read_kbd_level r.kbd_word)) g)
        (Faithful-if c.profiles (check_profiles r) _
          (λ u g. Faithful-report _ _ _ u (profiles_moved r.profiles) g)
          (Faithful-if c.suspend (check_suspend r) _
            (λ u g. Faithful-report _ _ _ u (suspend_moved r.suspend) g)
            (Faithful-if c.power (check_power r) _
              (λ u g. Faithful-report _ _ _ u (power_moved r.power) g)
              (Faithful-if c.gpu (check_gpu r) _
                (λ u g. Faithful-report _ _ _ u (gpu_moved r.gpu) g)
                (Faithful-if c.platform (send_platform r.platform r.platform_again) t
                  (λ u g. Faithful-send_platform r.platform r.platform_again u g) f))))))

Faithful-rounds :
    {start : Last} (rs : List (Check × Readings)) (t : FileTask)
    → Faithful start t
    → Faithful start (rounds rs t)
unfolding rounds
Faithful-rounds [] t f = f
Faithful-rounds ((c, r) ∷ rest) t f = Faithful-rounds rest (sweep c r t) (Faithful-sweep c r t f)

-- After any rounds, whatever woke the task and whatever was read, as long as the dispatcher is there:
-- the events that were sent, in order, are changes that lead from the first readings to the ones that
-- the task holds, and each of them changes the value that was told before.
pub rounds-Told :
    (r : Readings) (room : ℕ) (rs : List (Check × Readings))
    → let t = rounds rs (begin r room) in t.over ≡ false → Told (read_now r) t.sent t.last
unfolding begin
rounds-Told r room rs o =
    (Faithful-rounds rs (begin r room) (record { told = λ x. nothing })).told o
