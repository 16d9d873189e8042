-- ===== src/Daemon/Dispatcher/Fixture.antt =====
-- A session for tests of src/daemon/dispatcher.rs: the outside's answers, and a daemon of a context.
use hyprstate.Prelude.{true, false, none, some, []}
use hyprstate.Daemon.Ctx.{Context}
use hyprstate.Daemon.Outside.{Outside, Daemon}

-- A session in which every request is granted and the locker takes the lock.
abbrev pub granting : Outside
granting = record {
  shadow = false;
  session = true;
  runtime_dir = true;
  clock = λ n. n;
  worker_room = λ n. true;
  task_finished = λ id n. false;
  file_written = λ n. true;
  locked_hint = λ n. some true;
  session_is_locked = λ n. some true;
  lock_wait = λ n. true;
  suspend_accepted = λ n. true;
  wayland_idle_inhibited = λ n. some false;
  monitors = λ n. none;
  load_profiles = λ n. [];
  select = λ s ps. none;
  active_profile_name = λ n. none;
  link_current = λ n name. true;
  link_repointed = λ n. true;
  gpu_override_word = λ n. none;
  platform_word = λ n. none;
  gpu_snapshot = λ n. record { cards = []; lid_closed = false; non_pci_display = false };
  aq_devices = λ n. none;
  gpu_state_reason = λ n. none;
  powerd_applied = λ n. true;
  brightness_read = λ n. none;
  brightness_accepted = λ n. true;
  led_accepted = λ n. true;
  read_lux = λ n. none;
  find_backlight = λ n. none;
  find_kbd_led = λ n. none;
  led_brightness = λ n. none;
  find_als = λ n. none;
}

abbrev pub with_context : Context → Daemon
with_context c = record {
  ctx = c;
  asked = 0;
  tasks = 0;
  request_file = none;
  cmds = [];
  calls = [];
  writes = [];
}
