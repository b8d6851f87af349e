-- ===== src/Mailbox/Orphans.antt =====
-- src/sync/mailbox.rs: `cleanup_orphaned_emails`. An absolute path that is joined to the mail root
-- stays as it is, so both branches of the source name the file by the stored path.
pub mod Cleaned
use jmapsyncd.Base.{
  ℕ, Bool, true, false, not, List, [], ◌∷◌, Text, ◌==◌, text_eq, any, keep, length,
}
use jmapsyncd.Db
use jmapsyncd.Db.{Database}
use jmapsyncd.Db.Models.{EmailRow, EmailMailboxRow}
use jmapsyncd.World.{
  Outside, World, M, ◌>>=◌, ◌>>◌, pure, gets, when, statement, try_file_op, run_sql, for_each,
}

-- The left join: messages without a link.
unfoldable pub orphaned : Database → List EmailRow
orphaned db =
    keep
      (λ (e : EmailRow). not (any (λ (l : EmailMailboxRow). l.email_id == e.id) db.email_mailboxes))
      db.emails

module _ (O : Outside) where
  unfoldable pub remove_orphan : Bool → EmailRow → M O (Unit {0})
  remove_orphan true e = pure tt
  remove_orphan false e = do
    there ← gets λ w. O.exists w.disk e.file_path
    when there (try_file_op λ d. O.remove_file d e.file_path)
    run_sql
    statement λ db. Db.delete_email db e.id

  -- `prepare` and `query_map` with the rows it reads, then the loop.
  unfoldable pub cleanup_orphaned_emails : Bool → M O ℕ
  cleanup_orphaned_emails dry_run = do
    run_sql
    run_sql
    orphaned_ids ← gets λ w. orphaned w.db
    for_each orphaned_ids (remove_orphan dry_run)
    pure (length orphaned_ids)
