-- ===== src/Email/Memberships.antt =====
-- src/sync/email.rs: the links between a message and its mailboxes.
pub mod Reconciled
use jmapsyncd.Base.{
  Bool, not, ◌&&◌, none, some, List, [], ◌∷◌, map, Text, ◌==◌, text_eq, all, contains, filter_map,
}
use jmapsyncd.Base.Dict
use jmapsyncd.Base.Dict.{Dict}
use jmapsyncd.Db.{
  Database, insert_email_mailbox, delete_email_mailbox, get_email_mailboxes_by_email,
}
use jmapsyncd.Db.Models.{MailboxRow, EmailMailboxRow}
use jmapsyncd.World.{Outside, M, ◌>>=◌, ◌>>◌, pure, gets, statement, for_each}

module _ (O : Outside) where
  -- The row that `insert_memberships` writes for a mailbox.
  abbrev pub membership : Text → Text → MailboxRow → EmailMailboxRow
  membership email_id primary_local_id mb = record {
    email_id = email_id;
    mailbox_id = mb.id;
    is_primary = mb.id == primary_local_id;
  }

  unfoldable pub insert_memberships :
      Text → Text → List Text → Dict Text MailboxRow → M O (Unit {0})
  insert_memberships email_id primary_local_id mailbox_jmap_ids mailbox_by_jmap =
      for_each mailbox_jmap_ids λ jid. elim (Dict.get jid mailbox_by_jmap) [
        | none ↦ pure tt
        | some mb ↦
            statement λ db. insert_email_mailbox db (membership email_id primary_local_id mb)
      ]

  unfoldable pub reconcile_memberships :
      Text → Text → List Text → Dict Text MailboxRow → M O (Unit {0})
  reconcile_memberships email_id primary_local_id mailbox_jmap_ids mailbox_by_jmap = do
    existing ← gets λ w. get_email_mailboxes_by_email w.db email_id
    for_each existing λ row. statement λ db. delete_email_mailbox db row.email_id row.mailbox_id
    insert_memberships email_id primary_local_id mailbox_jmap_ids mailbox_by_jmap

-- Equality of two `HashSet`s.
abbrev pub same_set : List Text → List Text → Bool
same_set a b = all (contains b) a && all (contains a) b

-- `expected`
abbrev pub expected_ids : List Text → Dict Text MailboxRow → List Text
expected_ids ids mailbox_by_jmap =
    map (λ (m : MailboxRow). m.id) (filter_map (λ jid. Dict.get jid mailbox_by_jmap) ids)

unfoldable pub memberships_differ : Database → Text → List Text → Dict Text MailboxRow → Bool
memberships_differ db email_id server_mailbox_jmap_ids mailbox_by_jmap =
    let existing =
      map (λ (l : EmailMailboxRow). l.mailbox_id) (get_email_mailboxes_by_email db email_id) in
    not (same_set existing (expected_ids server_mailbox_jmap_ids mailbox_by_jmap))
