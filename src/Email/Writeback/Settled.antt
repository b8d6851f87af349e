-- ===== src/Email/Writeback/Settled.antt =====
-- src/sync/email.rs: what the write-back leaves of a message that it destroyed.
use jmapsyncd.Base.{
  ◌≡◌, refl, ◌∙◌, arith, inl, inr, true, false, not, Option, none, some, Text, ◌==◌, ==_refl,
  text_eq, nat_eq, contains, keep, contains-keep, Bool-cases,
}
use jmapsyncd.Base.Dict
use jmapsyncd.Base.Dict.{Dict, get-remove}
use jmapsyncd.Base.Result.{ok}
use jmapsyncd.Base.Table.{others}
use jmapsyncd.Db
use jmapsyncd.Db.{get_email}
use jmapsyncd.Db.Models.{EmailRow}
use jmapsyncd.Db.Rows.{find-others}
use jmapsyncd.Email.Keywords.{unwrap_or}
use jmapsyncd.Email.Files.{delete_email}
use jmapsyncd.Email.Writeback.{destroy, forget_row, settle_change, count_destroyed}
use jmapsyncd.World.{
  Outside, World, EmailSetResponse, ◌>>=◌, next, gets, modify, pure, when, statement, try_file_op,
}

module _ (O : Outside) where
  delete_email-ok :
      (row : EmailRow) (w : World O)
      → (d : O.State) × (delete_email O row false w ≡ (
        ok tt,
        record w {
          disk = d;
          db = record w.db {
            emails = others (λ (e : EmailRow). e.id) row.id w.db.emails;
            email_mailboxes = keep (λ l. not (l.email_id == row.id)) w.db.email_mailboxes;
          };
        },
      ))
  unfolding delete_email ◌>>=◌ gets when try_file_op statement pure Db.delete_email
  delete_email-ok row w = elim (Bool-cases (O.exists w.disk row.file_path)) [
    | inl e ↦ ((O.remove_file w.disk row.file_path).1, rw (e, when) refl)
    | inr e ↦ (w.disk, rw (e, when) refl)
  ]

  -- When the server confirms a destruction and the local cleanup succeeds, the id is no longer
  -- among the server's ids, so that the pass neither deletes nor fetches it again; its row is
  -- neither in the local map nor in the database.
  pub settle_change-destroy :
      (r : EmailSetResponse) (j : Text) (actual : Option Text) (row : EmailRow) (w : World O)
      → contains r.destroyed j ≡ true
      → Dict.get j w.local_by_jmap ≡ some row
      → (w' : World O) × (settle_change O r (destroy j actual) w ≡ (ok tt, w'))
        × (contains w'.server_ids j ≡ false)
        × (Dict.get j w'.local_by_jmap ≡ none)
        × (get_email w'.db row.id ≡ none)
  unfolding settle_change forget_row ◌>>=◌ gets modify when get_email
  settle_change-destroy r j actual row w c g =
      let v = record w { server_ids = keep (λ i. not (i == j)) w.server_ids } in
      let u = record v { local_by_jmap = Dict.remove j w.local_by_jmap } in
      let (d, e) = delete_email-ok (record row { file_path = unwrap_or row.file_path actual }) u in
      (
        count_destroyed O (record u {
          disk = d;
          db = record w.db {
            emails = others (λ (e : EmailRow). e.id) row.id w.db.emails;
            email_mailboxes = keep (λ l. not (l.email_id == row.id)) w.db.email_mailboxes;
          };
        }),
        rw (c, when, g, e, next) refl,
        contains-keep (λ i. not (i == j)) w.server_ids j ∙ ground (arith, ==_refl j),
        get-remove j j w.local_by_jmap ∙ ground (arith, ==_refl j),
        find-others row.id w.db.emails row.id ∙ ground (arith, ==_refl row.id),
      )
