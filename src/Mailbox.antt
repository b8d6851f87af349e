-- ===== src/Mailbox.antt =====
-- src/sync/mailbox.rs: the synchronisation of the mailbox tree.
pub mod Resolve
pub mod Target
pub mod Order
pub mod Apply
pub mod Orphans
pub mod Pass
pub mod DryRun
