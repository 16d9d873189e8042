-- ===== src/Daemon/Sources/Watchers.antt =====
-- src/daemon/sources/mod.rs and inhibitors.rs: the watchers that turn a stream of D-Bus values, or
-- the lines of the compositor's socket, into events. A stream is the list of its values, so its end
-- is the end of the list, and a task that subscribes again is given a list of streams. `room` is
-- the number of events that the dispatcher still takes: a send fails once its end is closed.
pub mod Loop
pub mod Streams
pub mod Claims
pub mod Edges
pub mod Told
mod Tests
use hyprstate.Prelude.{
  ℕ, ◌==◌, leb, Bool, true, false, not, ◌&&◌, ◌||◌, bool_eq, F64, le_nat, Text, codes, starts_with,
  strip_prefix, cut, text_eq, any, List, [], ◌∷◌, Option, none, some, if◌then◌else◌,
}
use hyprstate.Daemon.Event.{
  Event, lid, monitor_hotplug, config_reloaded, sleeping, resumed, lock_changed, ac_changed,
  battery_percent, powerd_appeared, inhibitor,
}
use hyprstate.Daemon.Sources.Watchers.Loop.{
  Heard, Stateless, watch, subscribe, watch_each, subscribe_each,
}

-- The first value of a property stream is the present one, which the daemon has read.
abbrev pub skip_first {ℓ} : {X : Type ℓ} → List X → List X
skip_first [] = []
skip_first (x ∷ xs) = xs

-- A value of a property stream is read by `change.get()`, which may fail.
abbrev pub got {ℓ κ} : {X : Type ℓ} {E : Type κ} → (X → E) → Option X → Option E
got event none = none
got event (some v) = some (event v)

unfoldable pub lid_watcher : ℕ → List (Option Bool) → Heard Stateless Event
lid_watcher room stream = watch_each (got lid) room (skip_first stream)

unfoldable pub ac_watcher : ℕ → List (Option Bool) → Heard Stateless Event
ac_watcher room stream =
    watch_each (got (λ on_battery. ac_changed (not on_battery))) room (skip_first stream)

unfoldable pub battery_watcher : ℕ → List (Option F64) → Heard Stateless Event
battery_watcher room stream = watch_each (got battery_percent) room (skip_first stream)

-- What the suspending tail sees of the lock is set before the event is sent.
abbrev pub lock_step : Bool → Option Bool → Bool × Option Event
lock_step seen none = (seen, none)
lock_step seen (some v) = (v, some (lock_changed v))

unfoldable pub lock_watcher : ℕ → Bool → List (Option Bool) → Heard Bool Event
lock_watcher room seen stream = watch lock_step room seen (skip_first stream)

abbrev pub sleep_event : Bool → Event
sleep_event start = if start then sleeping else resumed

-- A signal is its argument, where that can be read; a stream is none where the subscription fails.
unfoldable pub sleep_watcher : ℕ → List (Option (List (Option Bool))) → Heard Stateless Event
sleep_watcher room streams = subscribe_each (got sleep_event) room streams

-- A NameOwnerChanged signal: the name, and whether it has a new owner.
abbrev pub powerd_event : Option (Text × Bool) → Option Event
powerd_event none = none
powerd_event (some (name, owned)) =
    if text_eq name (codes "org.hyprstate.Power1") && owned then some powerd_appeared else none

unfoldable pub powerd_name_watcher : ℕ → List (Option (Text × Bool)) → Heard Stateless Event
powerd_name_watcher room stream = watch_each powerd_event room stream

-- The events of the compositor's socket, with the monitor's name, which only the log shows.
pub data SocketLine : Type 0 where
  hotplug : Bool → Text → SocketLine
  reloaded : SocketLine

unfoldable pub socket_event : SocketLine → Event
socket_event (hotplug added name) = monitor_hotplug added
socket_event reloaded = config_reloaded

abbrev pub first_field : Text → Option (Text × Text) → Text
first_field whole none = whole
first_field whole (some (l, r)) = l

-- `rest.split(',').nth(1).unwrap_or("")`.
abbrev pub second_field : Option (Text × Text) → Text
second_field none = []
second_field (some (l, r)) = first_field r (cut b',' r)

abbrev pub reload_line : Text → Option SocketLine
reload_line line = if starts_with line (codes "configreloaded") then some reloaded else none

abbrev pub removed_line : Text → Option Text → Option SocketLine
removed_line line none = reload_line line
removed_line line (some name) = some (hotplug false name)

abbrev pub added_line : Text → Option Text → Option SocketLine
added_line line none = removed_line line (strip_prefix line (codes "monitorremoved>>"))
added_line line (some rest) = some (hotplug true (second_field (cut b',' rest)))

unfoldable pub socket_line : Text → Option SocketLine
socket_line line = added_line line (strip_prefix line (codes "monitoraddedv2>>"))

-- A stream is none where there is no socket, or where it takes no connection.
unfoldable pub hypr_socket_reader : ℕ → List (Option (List Text)) → Heard Stateless SocketLine
unfolding socket_line
hypr_socket_reader room streams = subscribe_each socket_line room streams

-- A row of ListInhibitors, without its reason and its process.
pub record Row : Type 0 where
  pub what : Text
  pub who : Text
  pub mode : Text

unfoldable pub baseline_who : List Text
baseline_who =
    codes "ModemManager"
    ∷ codes "NetworkManager"
    ∷ codes "UPower"
    ∷ codes "hypridle"
    ∷ codes "hyprstate"
    ∷ codes "hypr-power"
    ∷ codes "hypr-fsm"
    ∷ []

abbrev pub push_field : ℕ → List Text → List Text
push_field c [] = (c ∷ []) ∷ []
push_field c (f ∷ fs) = (c ∷ f) ∷ fs

-- `what.split(':')`.
unfoldable pub fields : Text → List Text
fields [] = [] ∷ []
fields (c ∷ t) = let rest = fields t in if c == b':' then [] ∷ rest else push_field c rest

unfoldable pub idle_or_sleep : Text → Bool
unfolding fields
idle_or_sleep what = any (λ c. text_eq c (codes "idle") || text_eq c (codes "sleep")) (fields what)

unfoldable pub logind_has_real_idle_block : List Row → Bool
unfolding idle_or_sleep baseline_who
logind_has_real_idle_block [] = false
logind_has_real_idle_block (r ∷ rows) =
    let rest = logind_has_real_idle_block rows in
    if not (text_eq r.mode (codes "block"))
    then rest
    else (if not (idle_or_sleep r.what)
        then rest
        else (if any (λ w. text_eq w r.who) baseline_who then rest else true))

unfoldable pub logind_real_inhibitor_active : Option (List Row) → Option Bool
unfolding logind_has_real_idle_block
logind_real_inhibitor_active none = none
logind_real_inhibitor_active (some rows) = some (logind_has_real_idle_block rows)

-- A PropertiesChanged signal: its interface, the properties that it names, and the list that is
-- read on it.
pub record Changed : Type 0 where
  pub interface_name : Text
  pub names : List Text
  pub rows : Option (List Row)

abbrev pub touched : Changed → Bool
touched s =
    text_eq s.interface_name (codes "org.freedesktop.login1.Manager")
    && any (λ p. text_eq p (codes "BlockInhibited") || text_eq p (codes "DelayInhibited")) s.names

abbrev pub on_claim : Bool → Option Bool → Bool × Option Event
on_claim last none = (last, none)
on_claim last (some cur) =
    if bool_eq cur last then (last, none) else (cur, some (inhibitor false cur))

unfoldable pub claim_step : Bool → Option Changed → Bool × Option Event
unfolding logind_real_inhibitor_active
claim_step last none = (last, none)
claim_step last (some s) =
    if touched s then on_claim last (logind_real_inhibitor_active s.rows) else (last, none)

unfoldable pub logind_inhibitor_watcher :
    ℕ → Bool → List (Option (List (Option Changed))) → Heard Bool Event
unfolding claim_step
logind_inhibitor_watcher room last streams = subscribe claim_step room last streams

-- The samples of the compositor's answer. The result is whether the task sent the release and ended.
unfoldable pub wayland_claim_watch : List (Option Bool) → Option Event
wayland_claim_watch [] = none
wayland_claim_watch (some false ∷ samples) = some (inhibitor true false)
wayland_claim_watch (some true ∷ samples) = wayland_claim_watch samples
wayland_claim_watch (none ∷ samples) = wayland_claim_watch samples

-- UPower's display device: whether it is present, its type and its charge, each where it is read.
unfoldable pub battery_initial : Option Bool → Option ℕ → Option F64 → Option F64
battery_initial (some true) (some dtype) pct = if dtype == 2 || dtype == 3 then pct else none
battery_initial _ _ _ = none
