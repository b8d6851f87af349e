-- ===== src/Sync/Laws.antt =====
-- src/sync/mod.rs: what holds of the synchronisation of an account as a whole.
use jmapsyncd.Base.{ℕ, ◌≡◌, true}
use jmapsyncd.Config.{Account}
use jmapsyncd.Email.DryRun.{sync_emails-Silent}
use jmapsyncd.Mailbox.DryRun.{sync_mailboxes-Silent}
use jmapsyncd.Sync.{sync_account}
use jmapsyncd.World.{Outside, World}
use jmapsyncd.World.DryRun
use jmapsyncd.World.DryRun.{Silent}

module _ (O : Outside) where
  sync_account-Silent :
      (fuel elapsed_ms : ℕ) (acct : Account) → Silent (sync_account O fuel elapsed_ms acct true)
  unfolding sync_account
  sync_account-Silent fuel elapsed_ms acct = DryRun.option acct.mail (DryRun.stop _) λ cfg.
      DryRun.bind (sync_mailboxes-Silent O acct)
        λ ms. DryRun.bind (sync_emails-Silent O fuel ms) λ stats. DryRun.nothing _

  -- A dry run of the synchronisation of an account leaves every file and every row as it was,
  -- whatever the server answers, and also when it ends with an error.
  pub sync_account_dry :
      (fuel elapsed_ms : ℕ) (acct : Account) (w : World O)
      → ((sync_account O fuel elapsed_ms acct true w).1.disk ≡ w.disk)
        × ((sync_account O fuel elapsed_ms acct true w).1.db ≡ w.db)
  sync_account_dry fuel elapsed_ms acct w = (sync_account-Silent fuel elapsed_ms acct).at w
