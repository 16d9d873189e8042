-- ===== src/Daemon/Sources/Files/CatchUp.antt =====
-- What one round of the state-file task holds in the end (src/daemon/sources/files.rs).
use hyprstate.Prelude.{
  ℕ, zero, suc, ◌==◌, eqb→eq, Bool, true, false, ◌≡◌, refl, sym, ap, ◌∙◌, arith, Text, text_eq,
  text_eq_iff, List, [], ◌∷◌, Option, none, some, option_eq, bool_eq, Bool-cases, inl, inr,
}
use hyprstate.Daemon.Event.{Event}
use hyprstate.Daemon.Sources.Files.{
  Last, Readings, read_now, read_kbd_level, check_all, FileTask, send, report, tell_platform,
  send_platform, check_gpu, check_power, check_suspend, check_profiles, check_kbd_level,
  check_kbd_override, sweep,
}

-- If the task has not returned behind a step, it had not before, and the step changed what it holds
-- by `f`.
record Holds (t u : FileTask) (f : Last → Last) : Type 0 where
  pub on : u.over ≡ false → (t.over ≡ false) × (u.last ≡ f t.last)

Holds-then :
    {t u v : FileTask} {f g : Last → Last} → Holds t u f → Holds u v g → Holds t v (λ l. g (f l))
Holds-then {g = g} p q = record {
  on = λ o. let (o1, e1) = q.on o in let (o0, e0) = p.on o1 in (o0, e1 ∙ ap g e0);
}

send-last :
    (room : ℕ) (e : Event) (t : FileTask)
    → (send room e t).over ≡ false
    → (send room e t).last ≡ t.last
unfolding send
send-last zero e t o = refl
send-last (suc k) e t o = refl

report-Holds :
    (same : Bool) (f : Last → Last) (e : Event) (t : FileTask)
    → (same ≡ true → t.last ≡ f t.last)
    → Holds t (report same (f t.last) e t) f
unfolding report
report-Holds same f e t h = elim (Bool-cases t.over) [
  | inl o ↦ rw o (record { on = λ x. absurd (ground (arith, o, x)) })
  | inr o ↦ elim (Bool-cases same) [
    | inl s ↦ rw (o, s) (record { on = λ x. (refl, h s) })
    | inr s ↦
        rw (o, s)
          (record {
            on = λ x. (refl, send-last t.room e (record t { last = f t.last; over = false }) x);
          })
  ]
]

option_eq_sound {ℓ} :
    {A : Type ℓ} (eq : A → A → Bool)
    → ((a b : A) → eq a b ≡ true → a ≡ b)
    → (x y : Option A) → option_eq eq x y ≡ true
    → x ≡ y
option_eq_sound eq h none none e = refl
option_eq_sound eq h none (some b) e = absurd (ground arith)
option_eq_sound eq h (some a) none e = absurd (ground arith)
option_eq_sound eq h (some a) (some b) e = ap some (h a b e)

text_sound : (x y : Option Text) → option_eq text_eq x y ≡ true → x ≡ y
text_sound = option_eq_sound text_eq (λ a b. (text_eq_iff a b).0)

bool_eq_sound : (a b : Bool) → bool_eq a b ≡ true → a ≡ b
bool_eq_sound a b h = ground arith

-- The last of the reads of platform_profile.
abbrev pub last_read : Option Text → List (Option Text) → Option Text
last_read cur [] = cur
last_read cur (next ∷ rest) = last_read next rest

platform-Holds :
    (cur : Option Text) (t : FileTask)
    → Holds t (tell_platform cur t) (λ l. record l { platform = cur })
unfolding tell_platform
platform-Holds cur t =
    report-Holds _ (λ l. record l { platform = cur }) _ t
      λ e. ap (λ v. record t.last { platform = v }) (sym (text_sound cur t.last.platform e))

send_platform-Holds :
    (cur : Option Text) (again : List (Option Text)) (t : FileTask)
    → Holds t (send_platform cur again t) (λ l. record l { platform = last_read cur again })
unfolding send_platform
send_platform-Holds cur [] t = platform-Holds cur t
send_platform-Holds cur (next ∷ rest) t =
    Holds-then (platform-Holds cur t) (send_platform-Holds next rest (tell_platform cur t))

gpu-Holds : (r : Readings) (t : FileTask) → Holds t (check_gpu r t) (λ l. record l { gpu = r.gpu })
unfolding check_gpu
gpu-Holds r t =
    report-Holds _ (λ l. record l { gpu = r.gpu }) _ t
      λ e. ap (λ v. record t.last { gpu = v }) (sym (text_sound r.gpu t.last.gpu e))

power-Holds :
    (r : Readings) (t : FileTask) → Holds t (check_power r t) (λ l. record l { power = r.power })
unfolding check_power
power-Holds r t =
    report-Holds _ (λ l. record l { power = r.power }) _ t
      λ e. ap (λ v. record t.last { power = v }) (sym (text_sound r.power t.last.power e))

suspend-Holds :
    (r : Readings) (t : FileTask)
    → Holds t (check_suspend r t) (λ l. record l { suspend = r.suspend })
unfolding check_suspend
suspend-Holds r t =
    report-Holds _ (λ l. record l { suspend = r.suspend }) _ t
      λ e. ap (λ v. record t.last { suspend = v }) (sym (bool_eq_sound r.suspend t.last.suspend e))

profiles-Holds :
    (r : Readings) (t : FileTask)
    → Holds t (check_profiles r t) (λ l. record l { profiles = r.profiles })
unfolding check_profiles
profiles-Holds r t =
    report-Holds _ (λ l. record l { profiles = r.profiles }) _ t
      λ e. ap (λ v. record t.last { profiles = v }) (sym (eqb→eq r.profiles t.last.profiles e))

kbd_level-Holds :
    (r : Readings) (t : FileTask)
    → Holds t (check_kbd_level r t) (λ l. record l { kbd_level = read_kbd_level r.kbd_word })
unfolding check_kbd_level
kbd_level-Holds r t =
    report-Holds _ (λ l. record l { kbd_level = read_kbd_level r.kbd_word }) _ t
      λ e.
        ap (λ v. record t.last { kbd_level = v })
          (sym (option_eq_sound ◌==◌ eqb→eq (read_kbd_level r.kbd_word) t.last.kbd_level e))

kbd_override-Holds :
    (r : Readings) (t : FileTask)
    → Holds t (check_kbd_override r t) (λ l. record l { kbd_override = r.kbd_override })
unfolding check_kbd_override
kbd_override-Holds r t =
    report-Holds _ (λ l. record l { kbd_override = r.kbd_override }) _ t
      λ e.
        ap (λ v. record t.last { kbd_override = v })
          (sym (bool_eq_sound r.kbd_override t.last.kbd_override e))

-- A round that checks everything, as every safety tick does, and that does not end the task leaves
-- it with what was read, whatever it held before.
pub sweep-catches_up :
    (r : Readings) (t : FileTask)
    → (sweep check_all r t).over ≡ false
    → (sweep check_all r t).last
      ≡ record (read_now r) { platform = last_read r.platform r.platform_again }
unfolding sweep
sweep-catches_up r t o = (all_seven.on o).1
  where
    all_seven :
        Holds t
          (sweep check_all r t)
          λ l. record (read_now r) { platform = last_read r.platform r.platform_again }
    all_seven = Holds-then (send_platform-Holds r.platform r.platform_again t) (
        Holds-then (gpu-Holds r _) (
          Holds-then (power-Holds r _) (
            Holds-then (suspend-Holds r _) (
              Holds-then (profiles-Holds r _)
                (Holds-then (kbd_level-Holds r _) (kbd_override-Holds r _))))))
