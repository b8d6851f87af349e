-- ===== src/Sync.antt =====
-- src/sync/mod.rs: `sync_account`, the mailboxes and then the messages of one account. The hook is
-- the command that is started at the end; it runs beside the program.
pub mod Laws
use jmapsyncd.Base.{ℕ, ◌+◌, Bool, true, false, Option, none, some, Text, if◌then◌else◌, ltb}
use jmapsyncd.Config.{MailConfig, Account}
use jmapsyncd.Email.Pass.{sync_emails}
use jmapsyncd.Mailbox.Pass.{sync_mailboxes}
use jmapsyncd.World.{Outside, EmailSyncStats, M, ◌>>=◌, pure, fail, no_mail_section}

pub record SyncStats : Type 0 where
  pub email : EmailSyncStats
  pub elapsed_ms : ℕ

abbrev pub touched : EmailSyncStats → ℕ
touched s = s.created + s.updated + s.moved + s.deleted

-- The hook runs after a real pass that changed a message.
unfoldable pub hook_to_run : Option Text → EmailSyncStats → Bool → Option Text
hook_to_run hook stats true = none
hook_to_run hook stats false = if ltb 0 (touched stats) then hook else none

module _ (O : Outside) where
  -- `fuel` is for the paging of each mailbox, `elapsed_ms` is what the clock says that the pass
  -- took. Beside its result, a pass has the hook that it starts.
  unfoldable pub sync_account : ℕ → ℕ → Account → Bool → M O (SyncStats × Option Text)
  sync_account fuel elapsed_ms acct dry_run = elim acct.mail [
    | none ↦ fail no_mail_section
    | some mail_cfg ↦ do
      mailboxes ← sync_mailboxes O acct dry_run
      email ← sync_emails O fuel mailboxes dry_run
      pure (
        record { email = email; elapsed_ms = elapsed_ms },
        hook_to_run mail_cfg.post_sync_hook email dry_run,
      )
  ]
