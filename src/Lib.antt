-- ===== src/Lib.antt =====
-- jmapsyncd keeps a Maildir tree and an SQLite database in step with a JMAP mail server, and
-- submits messages from an outbox. This library models the parts of it that are pure or keep
-- their state in the database, and proves what makes them correct.
--
-- The program (paths from the root of the repository):
--   src/db          the database: mailboxes, emails and the links between them
--   src/sync        one synchronisation pass: mailboxes (mailbox.rs), then messages (email.rs)
--   src/daemon      the long-running process: scheduling, back-off, submission
--   src/jmap, src/config.rs, src/bin   client, configuration, command line
--
-- The model:
--   Base            shared helpers: equality and order classes, lists, sorting, ordered and
--                   unordered maps, integers, text as a list of byte codes, and tables with keys
--   Db              src/db/mod.rs and src/db/models.rs: a database is a record of three lists of
--                   rows; a statement is a function to the new database or to the constraint it
--                   breaks. A query that the program leaves without an order has that of the
--                   index that answers it
--   Email.Keywords  src/sync/email.rs: keywords_to_flag_string, serialize_keywords,
--                   merge_keywords_json, extract_standard_flags, keyword_patch_ops
--   Email.Names     src/sync/email.rs: the names of message files, built and taken apart
--   Email.Primary   src/sync/email.rs: pick_primary_mailbox, role_rank
--   World           src/sync: the state of a pass (disk, database, counters, the server's ids, the
--                   local rows), the monad of its functions, and `Outside`, the parameter for the
--                   file system, the server, the clock, uuids, globset and serde_json; World.Within
--                   has relations between the state before and after, World.DryRun that of a
--                   dry run with its combinators
--   Mailbox.Resolve, Mailbox.Target, Mailbox.Order, Mailbox.Apply, Mailbox.Orphans, Mailbox.Pass
--                   src/sync/mailbox.rs: resolve_path, build_target_set,
--                   topo_sort_creates_and_updates, apply_diff with the functions below it,
--                   cleanup_orphaned_emails and sync_mailboxes
--   Email.Memberships, Email.Files, Email.Writeback, Email.Pass
--                   src/sync/email.rs: the functions of a pass up to sync_emails, under their names
--   Email.DryRun, Mailbox.DryRun
--                   the relation of a dry run for every function of a pass
--   Sync            src/sync/mod.rs: sync_account, mailboxes and then messages
--   Config          src/config.rs: the records, Config.Tables the deserialization with its
--                   defaults, Config.Load Config::load
--   Daemon.Backoff  src/daemon/resilience.rs: RetryBackoff; src/daemon/submit.rs: backoff_delay
--                   before its jitter
--   Daemon.RetrySchedule  src/daemon/submit.rs: RetrySchedule, with the current instant as an
--                   argument of drain_due
--   Daemon.Submission, Daemon.Headers  src/daemon/submit.rs: SubmitOutcome, Envelope,
--                   reconcile_action, and the Family-2 headers of a failed message; the loops over
--                   lines run on the length of the text, and each turn takes at least one byte
--   Daemon.Submission.Context, Daemon.Submission.Attempt  src/daemon/submit.rs: SubmitContext,
--                   submit_one, reconcile_after_import, execute_reconciled_submission; an attempt is
--                   its outcome with its requests, and the server answers each request once
--   Daemon.Sidecar  src/daemon/submit.rs: the sidecar of a message, locate_and_read_outbox_message,
--                   scan_maildir_files, move_to_failed_atomic, strip_family2_headers_in_place, with
--                   the parameter `Host` for the file system, serde_json and chrono
--   Daemon.Outbox   src/daemon/submit.rs: classify_event, classify_path, handle_event,
--                   expire_pending_renames
--   Daemon.Notifier src/daemon/resilience.rs: FailureNotifier and its labels
--   Daemon.Deliver  src/daemon/submit.rs: handle_submit_attempt; src/daemon/resilience.rs:
--                   wait_for_connectivity_or_delay, for which nm-online, the time it took and the
--                   cancellation are arguments
--   Daemon.Loop     src/daemon/submit.rs: run_account_submit_loop_inner as a relation between
--                   states, with a server for each attempt and whatever others do to the disk
--                   between the turns and the attempts
--   Queue           src/bin/jmapqueue.rs: run up to the first write as `prepare`, and its writes as
--                   `enqueue`, with the functions below them; the sidecar that it writes is a record
--                   of its own, with its own printer as an argument
--   Jmap            src/jmap/mod.rs: resolve_token, extract_host, client_from_account
--   Tests           concrete runs, and each theorem applied to one
--
-- Text is a list of character codes, which orders as the bytes of the source do. Timestamps are
-- integers without a bound, since the program only prints them. A `BTreeMap` is a list that
-- ascends by key, a `HashMap` an association list. `serde_json` is a parameter with the law that
-- it parses back what it prints. Paths are relative to the mail root, with `/` between normal
-- parts. Counters do not wrap; the position of a query is the bits of an `i32`, which do.
-- Besides the broken constraints of every statement, the errors of SQLite are those of the cleanup
-- of orphaned messages. Three loops without
-- a bound of their own run on fuel: `page_query_ids`, where a list of n ids takes n / 256 + 1 pages;
-- `resolve_path`, with two units more than there are mailboxes, and the loop of
-- `topo_sort_creates_and_updates`, with one more than there are targets, which are enough for every
-- input. TOML, the directories of the platform and the shell's expansion are the parameter
-- `Platform`.
-- A function of a pass returns its result or its error with the state it leaves; the server's
-- functions are its answers in one pass.
--
-- Not modelled: logging, the text of errors, the set-up of watchers, running nm-online and
-- notify-send, the supervision of accounts, and the entry points.
pub mod Base
pub mod Config
pub mod Daemon
pub mod Db
pub mod Email
pub mod Jmap
pub mod Mailbox
pub mod Queue
pub mod Sync
pub mod Tests
pub mod World
