-- ===== src/Mailbox/Pass.antt =====
-- src/sync/mailbox.rs: `sync_mailboxes`.
use jmapsyncd.Base.{Bool, none, some, List, []}
use jmapsyncd.Config.{MailConfig, Account}
use jmapsyncd.Db.{get_all_mailboxes}
use jmapsyncd.Db.Models.{MailboxRow}
use jmapsyncd.Email.Pass.{by_jmap_id}
use jmapsyncd.Mailbox.Target.{build_target_set}
use jmapsyncd.Mailbox.Apply.{apply_diff}
use jmapsyncd.Mailbox.Orphans.{cleanup_orphaned_emails}
use jmapsyncd.World.{
  Outside, MailboxSyncStats, M, ◌>>=◌, ◌>>◌, gets, modify, answer, lift, fail, no_mail_section,
}

abbrev pub no_mailbox_stats : MailboxSyncStats
no_mailbox_stats = record { created = 0; updated = 0; deleted = 0; orphaned_emails = 0 }

module _ (O : Outside) where
  -- The body, for an account with a mail section.
  unfoldable pub sync_mail_section : MailConfig → Bool → M O (List MailboxRow)
  sync_mail_section mail_cfg dry_run = do
    server_view ← answer O.mailbox_get
    target_set ← lift (build_target_set O mail_cfg server_view)
    local ← gets λ w. get_all_mailboxes w.db
    modify λ w. record w { mailbox_stats = no_mailbox_stats }
    apply_diff O target_set (by_jmap_id (λ (m : MailboxRow). m.jmap_id) local [])
        mail_cfg.exclude_mailboxes dry_run
    orphans ← cleanup_orphaned_emails O dry_run
    modify λ w. record w { mailbox_stats = record w.mailbox_stats { orphaned_emails = orphans } }
    gets λ w. get_all_mailboxes w.db

  unfoldable pub sync_mailboxes : Account → Bool → M O (List MailboxRow)
  sync_mailboxes acct dry_run = elim acct.mail [
    | none ↦ fail no_mail_section
    | some mail_cfg ↦ sync_mail_section mail_cfg dry_run
  ]
