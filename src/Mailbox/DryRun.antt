-- ===== src/Mailbox/DryRun.antt =====
-- src/sync/mailbox.rs: a dry run of the synchronisation of mailboxes leaves disk and database
-- alone.
use jmapsyncd.Base.{refl, true, List, Text, text_eq}
use jmapsyncd.Base.Dict
use jmapsyncd.Base.Dict.{Dict}
use jmapsyncd.Config.{MailConfig, Account}
use jmapsyncd.Db.Models.{MailboxRow, EmailRow}
use jmapsyncd.Mailbox.Target.{TargetMailbox}
use jmapsyncd.Mailbox.Order.{topo_sort_creates_and_updates}
use jmapsyncd.Mailbox.Apply.{
  diff_and_build_update, create_mailbox, update_mailbox, delete_mailbox, delete_one,
  create_or_update, apply_target, apply_diff,
}
use jmapsyncd.Mailbox.Orphans.{remove_orphan, cleanup_orphaned_emails}
use jmapsyncd.Mailbox.Pass.{sync_mail_section, sync_mailboxes}
use jmapsyncd.World.{Outside}
use jmapsyncd.World.DryRun.{
  Silent, bind, nothing, read, each, asked, lifted, gotten, stop, option, change,
  Silent-new_uuid_string, Silent-run_sql,
}

module _ (O : Outside) where
  create_mailbox-Silent :
      (tgt : TargetMailbox) (local : Dict Text MailboxRow)
      → Silent (create_mailbox O tgt local true)
  unfolding create_mailbox
  create_mailbox-Silent tgt local = read _ λ parent. bind Silent-new_uuid_string λ id. nothing _

  update_mailbox-Silent : (old new : MailboxRow) → Silent (update_mailbox O old new true)
  unfolding update_mailbox
  update_mailbox-Silent old new = nothing _

  delete_mailbox-Silent : (row : MailboxRow) → Silent (delete_mailbox O row true)
  unfolding delete_mailbox
  delete_mailbox-Silent row = nothing _

  delete_one-Silent : (row : MailboxRow) → Silent (delete_one O true row)
  unfolding delete_one
  delete_one-Silent row = bind (delete_mailbox-Silent row) λ _. change _ λ w. (refl, refl)

  create_or_update-Silent :
      (local : Dict Text MailboxRow) (jmap_id : Text) (tgt : TargetMailbox)
      → Silent (create_or_update O local true jmap_id tgt)
  unfolding create_or_update
  create_or_update-Silent local jmap_id tgt =
      option (Dict.get jmap_id local)
        (bind (create_mailbox-Silent tgt local) λ _. change _ λ w. (refl, refl))
        λ old.
          option (diff_and_build_update old tgt local) (nothing _)
            λ new. bind (update_mailbox-Silent old new) λ _. change _ λ w. (refl, refl)

  apply_target-Silent :
      (target : Dict Text TargetMailbox) (local : Dict Text MailboxRow) (jmap_id : Text)
      → Silent (apply_target O target local true jmap_id)
  unfolding apply_target
  apply_target-Silent target local jmap_id =
      option (Dict.get jmap_id target) (nothing _) λ tgt. create_or_update-Silent local jmap_id tgt

  apply_diff-Silent :
      (target : Dict Text TargetMailbox) (local : Dict Text MailboxRow) (excluded : List Text)
      → Silent (apply_diff O target local excluded true)
  unfolding apply_diff
  apply_diff-Silent target local excluded = bind (each _ delete_one-Silent) λ _.
      bind (option (topo_sort_creates_and_updates target local) (stop _) λ l. nothing l)
        λ ordered. each ordered (apply_target-Silent target local)

  remove_orphan-Silent : (e : EmailRow) → Silent (remove_orphan O true e)
  unfolding remove_orphan
  remove_orphan-Silent e = nothing _

  cleanup_orphaned_emails-Silent : Silent (cleanup_orphaned_emails O true)
  unfolding cleanup_orphaned_emails
  cleanup_orphaned_emails-Silent = bind Silent-run_sql λ _.
      bind Silent-run_sql λ _. read _ λ ids. bind (each ids remove_orphan-Silent) λ _. nothing _

  sync_mail_section-Silent : (cfg : MailConfig) → Silent (sync_mail_section O cfg true)
  unfolding sync_mail_section
  sync_mail_section-Silent cfg = bind (asked _) λ view. bind (lifted _) λ target. read _ λ local.
      bind (change _ λ w. (refl, refl)) λ _.
        bind (apply_diff-Silent target _ cfg.exclude_mailboxes) λ _.
          bind cleanup_orphaned_emails-Silent λ n. bind (change _ λ w. (refl, refl)) λ _. gotten _

  pub sync_mailboxes-Silent : (acct : Account) → Silent (sync_mailboxes O acct true)
  unfolding sync_mailboxes
  sync_mailboxes-Silent acct = option acct.mail (stop _) λ cfg. sync_mail_section-Silent cfg
