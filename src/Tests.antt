-- ===== src/Tests.antt =====
-- Runs of the definitions on concrete data, and the theorems at concrete inputs.
mod Codec
mod Keywords
mod Names
mod Rows
mod Pass
mod Settled
mod Mailboxes
mod Send
mod Outbox
mod Loop
mod Backoff
mod Schedule
mod Submission
