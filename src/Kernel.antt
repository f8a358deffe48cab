-- ===== src/Kernel.antt =====
-- Package kernel: its children lockmgr, scheduler, watchdog and eventbus.
pub mod Eventbus
pub mod Lockmgr
pub mod Registry
pub mod Runtime
pub mod Scheduler
pub mod Watchdog
