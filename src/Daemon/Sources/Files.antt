-- ===== src/Daemon/Sources/Files.antt =====
-- src/daemon/sources/files.rs: the state files. A wake-up says which inputs to read again, and an
-- input whose reading differs from the one that was last reported is reported. What a read returns
-- is given with each round of the loop; the inotify watches themselves are left out.
pub mod Told
pub mod CatchUp
pub mod Route
mod Tests
use hyprstate.Prelude.{
  ℕ, zero, suc, ◌==◌, Bool, true, false, not, ◌&&◌, ◌||◌, Text, codes, text_eq, is_empty, cut, List,
  [], ◌∷◌, ◌++◌, Option, none, some, option_eq, bool_eq, if◌then◌else◌, parse_i64, ℤ,
}
use hyprstate.Kbd.{clamp_level}
use hyprstate.Daemon.Event.{
  Event, platform_profile_changed, gpu_override_changed, power_override_changed,
  suspend_request_changed, profiles_changed, kbd_level_changed, kbd_override_changed,
}

-- The last value reported for each input.
pub record Last : Type 0 where
  pub platform : Option Text
  pub gpu : Option Text
  pub power : Option Text
  pub suspend : Bool
  pub profiles : ℕ
  pub kbd_level : Option ℕ
  pub kbd_override : Bool

-- What the reads of one round return. `platform_again` are the reads that follow while the kernel
-- says that the attribute changed again.
pub record Readings : Type 0 where
  pub platform : Option Text
  pub platform_again : List (Option Text)
  pub gpu : Option Text
  pub power : Option Text
  pub suspend : Bool
  pub profiles : ℕ
  pub kbd_word : Option Text
  pub kbd_override : Bool

abbrev pub level_of : Option ℤ → Option ℕ
level_of none = none
level_of (some n) = some (clamp_level n)

unfoldable pub read_kbd_level : Option Text → Option ℕ
read_kbd_level none = none
read_kbd_level (some w) = level_of (parse_i64 w)

abbrev pub read_now : Readings → Last
read_now r = record {
  platform = r.platform;
  gpu = r.gpu;
  power = r.power;
  suspend = r.suspend;
  profiles = r.profiles;
  kbd_level = read_kbd_level r.kbd_word;
  kbd_override = r.kbd_override;
}

pub record Check : Type 0 where
  pub gpu : Bool
  pub power : Bool
  pub suspend : Bool
  pub profiles : Bool
  pub platform : Bool
  pub kbd_level : Bool
  pub kbd_override : Bool
  pub rewatch : Bool

abbrev pub no_check : Check
no_check = record {
  gpu = false;
  power = false;
  suspend = false;
  profiles = false;
  platform = false;
  kbd_level = false;
  kbd_override = false;
  rewatch = false;
}

abbrev pub check_all : Check
check_all = record {
  gpu = true;
  power = true;
  suspend = true;
  profiles = true;
  platform = true;
  kbd_level = true;
  kbd_override = true;
  rewatch = true;
}

-- The task: what it last reported, what it sent, oldest first, how many more events the channel
-- takes before the dispatcher is gone, and whether the task has returned.
pub record FileTask : Type 0 where
  pub last : Last
  pub sent : List Event
  pub room : ℕ
  pub over : Bool

-- `tx.send(e)`, with the return that a closed channel leads to.
unfoldable pub send : ℕ → Event → FileTask → FileTask
send zero e t = record t { over = true }
send (suc k) e t = record t { sent = t.sent ++ e ∷ []; room = k }

-- A reading that differs is kept and sent.
unfoldable pub report : Bool → Last → Event → FileTask → FileTask
report same l e t = if t.over || same then t else send t.room e (record t { last = l })

unfoldable pub tell_platform : Option Text → FileTask → FileTask
tell_platform cur t =
    report (option_eq text_eq cur t.last.platform) (record t.last { platform = cur })
      (platform_profile_changed cur) t

-- The loop, once for every read.
unfoldable pub send_platform : Option Text → List (Option Text) → FileTask → FileTask
send_platform cur [] t = tell_platform cur t
send_platform cur (next ∷ rest) t = send_platform next rest (tell_platform cur t)

abbrev pub only_if {ℓ} : {A : Type ℓ} → Bool → (A → A) → A → A
only_if b f t = if b then f t else t

unfoldable pub check_gpu : Readings → FileTask → FileTask
check_gpu r t =
    report (option_eq text_eq r.gpu t.last.gpu) (record t.last { gpu = r.gpu })
      (gpu_override_changed r.gpu) t

unfoldable pub check_power : Readings → FileTask → FileTask
check_power r t =
    report (option_eq text_eq r.power t.last.power) (record t.last { power = r.power })
      (power_override_changed r.power) t

unfoldable pub check_suspend : Readings → FileTask → FileTask
check_suspend r t =
    report (bool_eq r.suspend t.last.suspend) (record t.last { suspend = r.suspend })
      (suspend_request_changed (if r.suspend then some (codes "idle") else none)) t

unfoldable pub check_profiles : Readings → FileTask → FileTask
check_profiles r t =
    report (r.profiles == t.last.profiles) (record t.last { profiles = r.profiles })
      profiles_changed t

unfoldable pub check_kbd_level : Readings → FileTask → FileTask
check_kbd_level r t =
    let cur = read_kbd_level r.kbd_word in
    report (option_eq ◌==◌ cur t.last.kbd_level) (record t.last { kbd_level = cur })
      (kbd_level_changed cur) t

unfoldable pub check_kbd_override : Readings → FileTask → FileTask
check_kbd_override r t =
    report (bool_eq r.kbd_override t.last.kbd_override)
      (record t.last { kbd_override = r.kbd_override }) (kbd_override_changed r.kbd_override) t

-- One round of the loop, behind its `select!`.
unfoldable pub sweep : Check → Readings → FileTask → FileTask
sweep c r t0 =
    let t1 = only_if c.platform (send_platform r.platform r.platform_again) t0 in
    let t2 = only_if c.gpu (check_gpu r) t1 in
    let t3 = only_if c.power (check_power r) t2 in
    let t4 = only_if c.suspend (check_suspend r) t3 in
    let t5 = only_if c.profiles (check_profiles r) t4 in
    let t6 = only_if c.kbd_level (check_kbd_level r) t5 in
    only_if c.kbd_override (check_kbd_override r) t6

unfoldable pub begin : Readings → ℕ → FileTask
begin r room = record { last = read_now r; sent = []; room = room; over = false }

-- Whatever wakes the task up, with what the reads return.
unfoldable pub rounds : List (Check × Readings) → FileTask → FileTask
rounds [] t = t
rounds ((c, r) ∷ rest) t = rounds rest (sweep c r t)
