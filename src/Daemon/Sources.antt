-- ===== src/Daemon/Sources.antt =====
-- src/daemon/sources: the tasks that turn what happens outside into the dispatcher's events.
pub mod Files
pub mod Uevent
pub mod Watchers
pub mod Reconciler
