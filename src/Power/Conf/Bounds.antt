-- ===== src/Power/Conf/Bounds.antt =====
-- The numbers of a parsed power.conf (crates/hyprstate-fsm/src/power.rs) whatever its text.
use hyprstate.Prelude.{ℕ, ◌≤◌, arith, Text, List, [], ◌∷◌, ℤ, pos, negsuc, clamp, lines, ◌%◌, ◌^◌}
use hyprstate.Power.Conf.Lines.{
  Change, sets_lid, sets_low, sets_grace, sets_lid_ac, sets_kbd, sets_idle, sets_lux, sets_slot,
  Outcome, ignored, warned, changed, conf_line-Outcome,
}
use hyprstate.Power.Conf.{PowerConf, Parsed, default_conf, conf_line, conf_lines, parse_power_conf}

pub record InBounds (c : PowerConf) : Type 0 where
  pub low : (1 ≤ c.battery_low_pct) × (c.battery_low_pct ≤ 50)
  pub grace : c.lid_grace_secs ≤ 600
  pub idle : (1 ≤ c.kbd_idle_secs) × (c.kbd_idle_secs ≤ 600)
  pub lux : c.kbd_dark_lux ≤ 1000000

clamp_bounds : (lo hi : ℕ) (n : ℤ) → lo ≤ hi → (lo ≤ clamp lo hi n) × (clamp lo hi n ≤ hi)
clamp_bounds lo hi (pos n) h = (ground arith, ground arith)
clamp_bounds lo hi (negsuc n) h = (omega arith, h)

low : (n : ℤ) → (1 ≤ clamp 1 50 n % 2 ^ 8) × (clamp 1 50 n % 2 ^ 8 ≤ 50)
low n = let (l, u) = clamp_bounds 1 50 n (omega arith) in (omega (arith, l, u), omega (arith, l, u))

grace : (n : ℤ) → clamp 0 600 n % 2 ^ 16 ≤ 600
grace n = omega (arith, (clamp_bounds 0 600 n (omega arith)).1)

idle : (n : ℤ) → (1 ≤ clamp 1 600 n % 2 ^ 16) × (clamp 1 600 n % 2 ^ 16 ≤ 600)
idle n =
    let (l, u) = clamp_bounds 1 600 n (omega arith) in (omega (arith, l, u), omega (arith, l, u))

lux : (n : ℤ) → clamp 0 1000000 n % 2 ^ 32 ≤ 1000000
lux n = omega (arith, (clamp_bounds 0 1000000 n (omega arith)).1)

InBounds-default : InBounds default_conf
InBounds-default = record {
  low = (omega arith, omega arith);
  grace = omega arith;
  idle = (omega arith, omega arith);
  lux = omega arith;
}

InBounds-Change : {c d : PowerConf} → Change c d → InBounds c → InBounds d
InBounds-Change (sets_lid m) h = record { low = h.low; grace = h.grace; idle = h.idle; lux = h.lux }
InBounds-Change (sets_low n) h = record { low = low n; grace = h.grace; idle = h.idle; lux = h.lux }
InBounds-Change (sets_grace n) h = record {
  low = h.low;
  grace = grace n;
  idle = h.idle;
  lux = h.lux;
}
InBounds-Change (sets_lid_ac m) h = record {
  low = h.low;
  grace = h.grace;
  idle = h.idle;
  lux = h.lux;
}
InBounds-Change (sets_kbd m) h = record { low = h.low; grace = h.grace; idle = h.idle; lux = h.lux }
InBounds-Change (sets_idle n) h = record {
  low = h.low;
  grace = h.grace;
  idle = idle n;
  lux = h.lux;
}
InBounds-Change (sets_lux n) h = record { low = h.low; grace = h.grace; idle = h.idle; lux = lux n }
InBounds-Change (sets_slot b p) h = record {
  low = h.low;
  grace = h.grace;
  idle = h.idle;
  lux = h.lux;
}

InBounds-Outcome : {p q : Parsed} → Outcome p q → InBounds p.0 → InBounds q.0
InBounds-Outcome ignored h = h
InBounds-Outcome (warned w) h = h
InBounds-Outcome (changed d ch) h = InBounds-Change ch h

InBounds-conf_lines : (ls : List Text) (p : Parsed) → InBounds p.0 → InBounds (conf_lines ls p).0
unfolding conf_lines
InBounds-conf_lines [] p h = h
InBounds-conf_lines (l ∷ ls) p h =
    InBounds-conf_lines ls (conf_line l p) (InBounds-Outcome (conf_line-Outcome l p) h)

-- Whatever the text of power.conf, the settings that are read lie in their ranges: the battery-low
-- percentage in 1 to 50, the lid grace up to 600 s, the keyboard's idle time in 1 to 600 s, the
-- darkness threshold up to 1000000.
pub parse_power_conf-InBounds : (text : Text) → InBounds (parse_power_conf text).0
unfolding parse_power_conf
parse_power_conf-InBounds text =
    InBounds-conf_lines (lines text) (default_conf, []) InBounds-default
