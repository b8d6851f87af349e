-- ===== src/Email.antt =====
-- src/sync/email.rs: the synchronisation of messages.
pub mod Keywords
pub mod Names
pub mod Primary
pub mod Memberships
pub mod Files
pub mod Writeback
pub mod Pass
pub mod DryRun
pub mod Quiet
pub mod Paging
