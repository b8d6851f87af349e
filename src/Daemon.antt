-- ===== src/Daemon.antt =====
-- src/daemon: the long-running process.
pub mod Backoff
pub mod RetrySchedule
pub mod Sidecar
pub mod Outbox
pub mod Notifier
pub mod Deliver
pub mod Loop
pub mod Submission
pub mod Headers
