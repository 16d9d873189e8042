-- ===== src/Daemon/Sources/Uevent.antt =====
-- src/daemon/sources/uevent.rs: the parser of a kernel uevent and its routing. UTF-8 is decoded by
-- Rust's library, which is a parameter here, so a datagram is a list of bytes.
mod Tests
use hyprstate.Prelude.{
  ℕ, zero, suc, ◌==◌, Bool, true, false, not, ◌&&◌, ◌||◌, Text, codes, text_eq, starts_with,
  strip_prefix, cut, is_empty, bool_eq, option_eq, List, [], ◌∷◌, ◌++◌, Option, none, some,
  if◌then◌else◌,
}
use hyprstate.Daemon.Event.{Event, ac_changed, backlight_hotplug, kbd_led_hotplug}

abbrev pub Bytes : Type 0
Bytes = List ℕ

pub record Uevent : Type 0 where
  pub action : Text
  pub devpath : Text
  pub subsystem : Text

abbrev push_byte : ℕ → List Bytes → List Bytes
push_byte b [] = (b ∷ []) ∷ []
push_byte b (p ∷ ps) = (b ∷ p) ∷ ps

-- `buf.split(|b| *b == 0)`.
unfoldable pub split_nul : Bytes → List Bytes
split_nul [] = [] ∷ []
split_nul (b ∷ bs) = let rest = split_nul bs in if b == 0 then [] ∷ rest else push_byte b rest

-- `filter(|p| !p.is_empty())`.
unfoldable pub not_empty : List Bytes → List Bytes
not_empty [] = []
not_empty (p ∷ ps) = let rest = not_empty ps in if is_empty p then rest else p ∷ rest

module _ (from_utf8 : Bytes → Option Text) where
  abbrev pub or_before : Option Text → Option Text → Option Text
  or_before before none = before
  or_before before (some v) = some v

  abbrev pub subsystem_in : Option Text → Option Text
  subsystem_in none = none
  subsystem_in (some kv) = strip_prefix kv (codes "SUBSYSTEM=")

  -- The last part that names a subsystem decides.
  unfoldable pub subsystem_of : Option Text → List Bytes → Option Text
  subsystem_of found [] = found
  subsystem_of found (p ∷ ps) = subsystem_of (or_before found (subsystem_in (from_utf8 p))) ps

  abbrev pub with_subsystem : Text → Text → Option Text → Option Uevent
  with_subsystem action devpath none = none
  with_subsystem action devpath (some s) =
      some (record { action = action; devpath = devpath; subsystem = s })

  abbrev pub of_header : Option (Text × Text) → List Bytes → Option Uevent
  of_header none parts = none
  of_header (some (action, devpath)) parts =
      if is_empty action || not (starts_with devpath (codes "/"))
      then none
      else with_subsystem action devpath (subsystem_of none parts)

  abbrev pub split_once : Option Text → Option (Text × Text)
  split_once none = none
  split_once (some header) = cut b'@' header

  unfoldable pub of_parts : List Bytes → Option Uevent
  of_parts [] = none
  of_parts (h ∷ parts) = of_header (split_once (from_utf8 h)) parts

  unfoldable pub parse_uevent : Bytes → Option Uevent
  parse_uevent buf = of_parts (not_empty (split_nul buf))

-- `t.contains(p)`.
unfoldable pub contains : Text → Text → Bool
contains [] p = is_empty p
contains (c ∷ t) p = let rest = contains t p in starts_with (c ∷ t) p || rest

abbrev add_or_remove : Text → Bool
add_or_remove a = text_eq a (codes "add") || text_eq a (codes "remove")

-- The reading that is kept, and the event that is sent.
abbrev pub ac_reading : Option Bool → Option Bool × Option Event
ac_reading none = (none, none)
ac_reading (some on_ac) = (some on_ac, some (ac_changed on_ac))

-- What `handle` sends, with sysfs's answer given; whether the send succeeds is its own result.
unfoldable pub handle_uevent : Uevent → Option Bool → Option Bool → Option Bool × Option Event
handle_uevent ev cur last_ac =
    if text_eq ev.subsystem (codes "power_supply")
    then (if option_eq bool_eq cur last_ac then (last_ac, none) else ac_reading cur)
    else (if text_eq ev.subsystem (codes "backlight") && add_or_remove ev.action
        then (last_ac, some backlight_hotplug)
        else (if text_eq ev.subsystem (codes "leds")
              && add_or_remove ev.action
              && contains ev.devpath (codes "kbd_backlight")
            then (last_ac, some kbd_led_hotplug)
            else (last_ac, none)))
