-- ===== src/Power/Conf/Lines.antt =====
-- What one line of power.conf does (crates/hyprstate-fsm/src/power.rs), as a relation.
use hyprstate.Prelude.{
  ◌%◌, ◌^◌, Bool, true, false, not, Text, codes, starts_with, parse_i64, ℤ, clamp, [], ◌∷◌, ◌++◌,
  Option, none, some, if◌then◌else◌,
}
use hyprstate.Power.{PowerProfile, BaseState, for_base, from_str}
use hyprstate.Profiles.{parse_directive}
use hyprstate.Power.Conf.{
  PowerConf, LidMode, LidAcPolicy, KbdMode, ConfWarning, Parsed, store, slot_of, put_slot, lid_of,
  lid_ac_of, kbd_of, policy_directive, conf_directive, conf_line, malformed, unknown, bad_profile,
}

-- The settings that differ by one directive.
pub data Change (c : PowerConf) : PowerConf → Type 0 where
  sets_lid : (m : LidMode) → Change c (record c { lid = m })
  sets_low : (n : ℤ) → Change c (record c { battery_low_pct = clamp 1 50 n % 2 ^ 8 })
  sets_grace : (n : ℤ) → Change c (record c { lid_grace_secs = clamp 0 600 n % 2 ^ 16 })
  sets_lid_ac : (m : LidAcPolicy) → Change c (record c { lid_ac = m })
  sets_kbd : (m : KbdMode) → Change c (record c { kbd = m })
  sets_idle : (n : ℤ) → Change c (record c { kbd_idle_secs = clamp 1 600 n % 2 ^ 16 })
  sets_lux : (n : ℤ) → Change c (record c { kbd_dark_lux = clamp 0 1000000 n % 2 ^ 32 })
  sets_slot :
      (b : BaseState) (p : PowerProfile) → Change c (record c { policy = put_slot b p c.policy })

-- A line is passed over, adds one warning and changes nothing, or changes one setting and adds none.
pub data Outcome (p : Parsed) : Parsed → Type 0 where
  ignored : Outcome p p
  warned : (w : ConfWarning) → Outcome p (p.0, p.1 ++ w ∷ [])
  changed : (d : PowerConf) → Change p.0 d → Outcome p (d, p.1)

Outcome-store {ℓ} :
    {A : Type ℓ} (p : Parsed) (o : Option A) (set : A → PowerConf) (w : ConfWarning)
    → ((a : A) → Change p.0 (set a))
    → Outcome p (store o set w p)
unfolding store
Outcome-store (c, ws) none set w h = warned w
Outcome-store (c, ws) (some a) set w h = changed (set a) (h a)

Outcome-if :
    {p x y : Parsed} (b : Bool) → Outcome p x → Outcome p y → Outcome p (if b then x else y)
Outcome-if true h k = h
Outcome-if false h k = k

policy_directive-Outcome : (key val : Text) (p : Parsed) → Outcome p (policy_directive key val p)
unfolding policy_directive
policy_directive-Outcome key val (c, ws) =
    elim (slot_of key)
      as (λ o.
        Outcome (c, ws)
          (elim o as (λ _. Parsed) [
            | none ↦ (c, ws ++ unknown key ∷ [])
            | some b ↦
                store (from_str val) (λ p. record c { policy = put_slot b p c.policy })
                  (bad_profile key val (for_base c.policy b)) (c, ws)
          ])) [
            | none ↦ warned (unknown key)
            | some b ↦ Outcome-store (c, ws) (from_str val) _ _ (sets_slot b)
          ]

conf_directive-Outcome : (key val : Text) (p : Parsed) → Outcome p (conf_directive key val p)
unfolding conf_directive
conf_directive-Outcome key val (c, ws) =
    Outcome-if _ (Outcome-store (c, ws) (lid_of val) _ _ sets_lid) (
      Outcome-if _ (Outcome-store (c, ws) (parse_i64 val) _ _ sets_low) (
        Outcome-if _ (Outcome-store (c, ws) (parse_i64 val) _ _ sets_grace) (
          Outcome-if _ (Outcome-store (c, ws) (lid_ac_of val) _ _ sets_lid_ac) (
            Outcome-if _ (Outcome-store (c, ws) (kbd_of val) _ _ sets_kbd) (
              Outcome-if _ (Outcome-store (c, ws) (parse_i64 val) _ _ sets_idle) (
                Outcome-if _ (Outcome-store (c, ws) (parse_i64 val) _ _ sets_lux)
                  (policy_directive-Outcome key val (c, ws))))))))

-- Every line of power.conf is passed over, or adds one warning and changes nothing, or changes one
-- setting and adds no warning; a number is clamped to its range.
pub conf_line-Outcome : (line : Text) (p : Parsed) → Outcome p (conf_line line p)
unfolding conf_line
conf_line-Outcome line (c, ws) =
    Outcome-if (not (starts_with line (codes "#@"))) ignored
      (elim (parse_directive line true)
        as (λ o.
          Outcome (c, ws)
            (elim o as (λ _. Parsed) [
              | none ↦ (c, ws ++ malformed line ∷ [])
              | some (key, val) ↦ conf_directive key val (c, ws)
            ])) [
              | none ↦ warned (malformed line)
              | some (key, val) ↦ conf_directive-Outcome key val (c, ws)
            ])
