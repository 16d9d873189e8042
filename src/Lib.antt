-- ===== src/Lib.antt =====
-- hyprstate: the session daemon's decisions, as a model with proofs.
--
-- The program is a daemon for a Hyprland session on a laptop. Its parts, and the files here:
--
-- * crates/hyprstate-fsm holds the pure decisions. Fsm.antt is fsm.rs (State, WorldInputs,
--   world_state, desired_state and the panel guards), Power.antt is power.rs (profiles, base
--   states, the battery-low flag, SelfWriteTracker) and Power/Conf.antt its parser of power.conf,
--   Kbd.antt is kbd.rs, Gpu.antt is gpu.rs. Profiles.antt is the reading of a profile in
--   profiles.rs, Profiles/Render.antt its capture of a layout, Profiles/Lua.antt its arguments
--   for hyprctl. ProfileFiles.antt is the merge and the choice of profiles in
--   src/sysio/profiles.rs.
-- * src/daemon drives them. Daemon/Ctx.antt is ctx.rs and Daemon/Event.antt is event.rs.
--   Daemon/Effectors.antt, Locker.antt, Power.antt and Kbd.antt are the methods of effectors.rs
--   that change the context; Daemon/PowerPolicy.antt, Kbd.antt and Drift.antt are
--   power_policy.rs, kbd_policy.rs and gpu_drift.rs. Daemon/Dispatcher.antt,
--   Dispatcher/Handlers.antt, Takes.antt and Route.antt are dispatcher.rs: on_enter,
--   evaluate_fsms, the handlers, dispatch and one round of run. Daemon/Sources holds the tasks
--   that send the events: Files.antt is the loop of sources/files.rs and Files/Route.antt its
--   routing, Uevent.antt the parser and the routing of sources/uevent.rs, Watchers.antt the
--   watchers of sources/mod.rs and inhibitors.rs over the loop in Watchers/Loop.antt, and
--   Reconciler.antt is sources/reconciler.rs. Daemon/Startup.antt is the part of mod.rs that fills
--   the context before the loop.
-- * src/sysio/sysfs.rs is Sysio.antt, and src/cli/gpu.rs with src/sysio/gpu_state.rs GpuCmd.antt: the
--   choice of Gpu.antt between a snapshot of sysfs and what is printed and recorded. Cli.antt is
--   src/cli/power.rs, kbd.rs and suspend.rs: what the commands write for the daemon.
--   ProfileCmd.antt is migrate in src/cli/profile.rs.
-- * src/powerd is the root helper. Powerd.antt is ApplyProfile in mod.rs, as steps of calls that
--   overlap; Powerd/Knobs.antt, Rows.antt, Apply.antt and Pin.antt are knobs.rs.
-- * src/sleep_hook.rs runs after a resume. SleepHook.antt is its rebind of the touchpad.
--
-- A daemon is one record (Daemon in Daemon/Outside.antt): the Context, the request file, and the
-- logs of commands, calls to logind and other writes, the newest first. An operation is a function
-- from a daemon to a daemon, with the Rust method's Boolean answer beside it where it has one. What
-- the code reads from outside (sysfs, hyprctl, D-Bus, the clock, a task's end) is a field of the
-- record Outside, a function of the number of questions asked before, so that two readings may
-- differ and every theorem holds for all of them. The request file is state, since the daemon
-- writes it, and a step of the outside may change it between two events (Step in
-- Dispatcher/Reach.antt).
--
-- The other programs have no such record. The helper's file system and the hook's are parameters: a
-- kernel of any type, and functions that say what a read or a write returns and what the kernel is
-- after it. Power1 is the helper's state, and its steps (Step in Powerd.antt) are what its single
-- thread does between two awaits. The tasks that send events are given what their reads return, or
-- the values of their streams, and how many more events the channel takes. The start is given what
-- it reads once, as a record of its own (Boot).
--
-- The proofs stand below the part they are about. Under Daemon/Dispatcher, Frame.antt and
-- Steps.antt say what each effect leaves alone, Enter.antt, Suspend.antt, Evaluate.antt and
-- Panel.antt what one transition does, Invariant.antt, Keep.antt and Handled.antt what one event
-- keeps, and Reach.antt, Outcome.antt, Resume.antt, Blackout.antt, BatteryLow.antt, Samples.antt
-- and Parked.antt hold the results. Powerd/Coalesce.antt is about the calls,
-- Powerd/Knobs/Asleep.antt and Whole.antt about the rows, Power/Conf/Lines.antt, Bounds.antt and
-- Last.antt about power.conf, Profiles/Reads.antt, RoundTrip.antt and Saved.antt about a profile
-- that is read again, Daemon/Sources/Files/Told.antt and CatchUp.antt about the state files,
-- SleepHook/Rebind.antt about the rebind, ProfileFiles/Lookup.antt about the merge.
-- Watchers/Streams.antt, Told.antt, Claims.antt and Edges.antt are about the watchers,
-- Reconciler/Passes.antt, Reasons.antt and LostClaim.antt about the passes,
-- Daemon/Startup/Booted.antt and Seeded.antt about the start, GpuCmd/Printed.antt and Cards.antt
-- about the GPU command, Cli/Told.antt what the daemon reads of the other commands' files,
-- ProfileCmd/Twins.antt, Loop.antt and Written.antt the migration. Tests.antt in each part applies
-- them to concrete values.
--
-- Some functions bear another name than the method they model: put_edp is set_edp, adopt_profile
-- is apply_profile, user_took_over is brightness_user_took_over, view_of is WaybarView::of. Texts
-- are lists of code points, times are milliseconds, and a double is a fraction or one of nan, neg
-- and inf (Prelude/Float.antt). A u8 keeps its wrap-around where the code adds to it, and a cast is a
-- remainder. Prelude/Lines.antt and Numbers.antt are the functions of Rust's str that the parsers
-- call. Every loop is over a list or counts down, but for the print of a number, whose fuel is one
-- more than the number and so more than its digits.
--
-- Not modelled: logging, spans and telemetry, which no decision reads; the worker that carries
-- the commands out; the Wayland client that detects typing, and the inotify watches; the TOML
-- profiles and their match, which the monitor_profiles crate does; the writes of the state files
-- of the helper and the USB wake-up attributes of the sleep hook, which are writes to fixed files;
-- the status command and the profile command but for migrate; and what the commands only print.
pub mod Prelude
pub mod Fsm
pub mod Power
pub mod Kbd
pub mod Gpu
pub mod Sysio
pub mod GpuCmd
pub mod Cli
pub mod ProfileCmd
pub mod Powerd
pub mod SleepHook
pub mod ProfileFiles
pub mod Profiles
pub mod Daemon
