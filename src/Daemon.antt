-- ===== src/Daemon.antt =====
-- src/daemon: the session daemon. One event at a time goes through the dispatcher, which updates
-- the context and runs the effectors; the outside world answers their questions.
pub mod Ctx
pub mod Event
pub mod Sources
pub mod Outside
pub mod Effectors
pub mod Locker
pub mod Power
pub mod PowerPolicy
pub mod Kbd
pub mod Drift
pub mod Dispatcher
pub mod Startup
