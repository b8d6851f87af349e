-- ===== src/Email/DryRun.antt =====
-- src/sync/email.rs: what `dry_run` promises, for every function of a pass.
use jmapsyncd.Base.{
  ℕ, zero, suc, ◌≡◌, refl, true, Option, none, some, List, [], ◌∷◌, ◌+◌, ◌++◌, Text, text_eq,
  length, ltb,
}
use jmapsyncd.Base.Dict.{Dict}
use jmapsyncd.Base.Int.{ℤ}
use jmapsyncd.Db.Models.{MailboxRow, EmailRow}
use jmapsyncd.Email.Names.{extract_uuid}
use jmapsyncd.Email.Primary.{pick_primary_mailbox}
use jmapsyncd.Email.Files.{
  delete_email, download_and_write, insert_email, update_email_in_place, move_email,
}
use jmapsyncd.Email.Writeback.{LocalChange, destroy, update_keywords, count_change, apply_writeback}
use jmapsyncd.Email.Pass.{
  wrap, page_query_ids, fetch_all_email_ids, drop_out_of_scope, apply_existing, apply_in_scope,
  apply_email, apply_requested, apply_chunk, delete_missing, sync_emails, email_query_page_size,
  set_extend,
}
use jmapsyncd.World.{Outside, World, Email}
use jmapsyncd.World.DryRun.{
  Silent, bind, nothing, read, each, guarded, asked, gotten, stop, either, option, change,
  Silent-unix_now, Silent-new_uuid_string,
}

module _ (O : Outside) where
  delete_email-Silent : (row : EmailRow) → Silent (delete_email O row true)
  unfolding delete_email
  delete_email-Silent row = nothing _

  download_and_write-Silent :
      (blob path : Text) (ts : ℤ) (flags : Text)
      → Silent (download_and_write O blob path ts flags true)
  unfolding download_and_write
  download_and_write-Silent blob path ts flags =
      bind (asked (O.download blob)) λ bytes. bind Silent-new_uuid_string λ uuid. nothing _

  insert_email-Silent :
      (jmap_id : Text) (email : Email) (m : MailboxRow) (ids : List Text)
      (mailboxes : Dict Text MailboxRow) (flags json : Text) (ts : ℤ)
      → Silent (insert_email O jmap_id email m ids mailboxes flags json ts true)
  unfolding insert_email
  insert_email-Silent jmap_id email m ids mailboxes flags json ts =
      bind (option email.blob_id (stop _) λ b. nothing b)
        λ blob. bind (download_and_write-Silent blob m.path ts flags) λ r. nothing _

  move_email-Silent :
      (row : EmailRow) (m : MailboxRow) (ids : List Text) (mailboxes : Dict Text MailboxRow)
      (flags json : Text) (ts : ℤ)
      → Silent (move_email O row m ids mailboxes flags json ts true)
  unfolding move_email
  move_email-Silent row m ids mailboxes flags json ts =
      bind (option (extract_uuid row.file_path) Silent-new_uuid_string λ u. nothing u)
        λ u. nothing _

  update_email_in_place-Silent :
      (row : EmailRow) (m : MailboxRow) (ids : List Text) (mailboxes : Dict Text MailboxRow)
      (flags json : Text)
      → Silent (update_email_in_place O row m ids mailboxes flags json true)
  unfolding update_email_in_place
  update_email_in_place-Silent row m ids mailboxes flags json = nothing _

  count_change-Silent : (c : LocalChange) → Silent (count_change O c)
  unfolding count_change
  count_change-Silent (destroy jmap_id actual) = change _ λ w. (refl, refl)
  count_change-Silent (update_keywords jmap_id flags json path) = change _ λ w. (refl, refl)

  apply_writeback-Silent : (cs : List LocalChange) → Silent (apply_writeback O cs true)
  unfolding apply_writeback
  apply_writeback-Silent [] = nothing _
  apply_writeback-Silent (c ∷ cs) = each (c ∷ cs) count_change-Silent

  page_query_ids-Silent :
      (fuel : ℕ) (mailbox : Text) (position : ℕ) (ids : List Text)
      → Silent (page_query_ids O fuel mailbox position ids)
  unfolding page_query_ids
  page_query_ids-Silent zero mailbox position ids = stop _
  page_query_ids-Silent (suc fuel) mailbox position ids = bind (asked _) λ page.
      either (ltb (length page) email_query_page_size) (nothing _)
        (page_query_ids-Silent fuel mailbox (wrap (position + length page)) (ids ++ page))

  fetch_all_email_ids-Silent :
      (fuel : ℕ) (ms ids : List Text) → Silent (fetch_all_email_ids O fuel ms ids)
  unfolding fetch_all_email_ids
  fetch_all_email_ids-Silent fuel [] ids = nothing _
  fetch_all_email_ids-Silent fuel (m ∷ ms) ids =
      bind (page_query_ids-Silent fuel m 0 [])
        λ page. fetch_all_email_ids-Silent fuel ms (set_extend ids page)

  drop_out_of_scope-Silent : (row : Option EmailRow) → Silent (drop_out_of_scope O row true)
  unfolding drop_out_of_scope
  drop_out_of_scope-Silent none = nothing _
  drop_out_of_scope-Silent (some row) =
      bind (delete_email-Silent row) λ _. change _ λ w. (refl, refl)

  apply_existing-Silent :
      (row : EmailRow) (m : MailboxRow) (ids : List Text) (mailboxes : Dict Text MailboxRow)
      (flags json : Text) (ts : ℤ)
      → Silent (apply_existing O row m ids mailboxes flags json ts true)
  unfolding apply_existing
  apply_existing-Silent row m ids mailboxes flags json ts = read _ λ differ.
      either _
        (bind (move_email-Silent row m ids mailboxes flags json ts) λ _. change _ λ w. (refl, refl))
        (guarded _ (
          bind (update_email_in_place-Silent row m ids mailboxes flags json)
            λ _. change _ λ w. (refl, refl)))

  apply_in_scope-Silent :
      (jmap_id : Text) (e : Email) (m : MailboxRow) (mailboxes : Dict Text MailboxRow)
      → Silent (apply_in_scope O jmap_id e m mailboxes true)
  unfolding apply_in_scope
  apply_in_scope-Silent jmap_id e m mailboxes =
      bind (option e.received_at Silent-unix_now λ t. nothing t) λ ts. read _ λ row.
        option row
          (bind (insert_email-Silent jmap_id e m e.mailbox_ids mailboxes _ _ ts)
            λ bytes. change _ λ w. (refl, refl))
          λ r. apply_existing-Silent r m e.mailbox_ids mailboxes _ _ ts

  apply_email-Silent :
      (mailboxes : Dict Text MailboxRow) (e : Email) → Silent (apply_email O mailboxes e true)
  unfolding apply_email
  apply_email-Silent mailboxes e = option e.id (nothing _) λ jmap_id.
      option (pick_primary_mailbox e.mailbox_ids mailboxes)
        (read _ λ row. drop_out_of_scope-Silent row)
        λ m. apply_in_scope-Silent jmap_id e m mailboxes

  apply_requested-Silent :
      (requested : List Text) (mailboxes : Dict Text MailboxRow) (e : Email)
      → Silent (apply_requested O requested mailboxes true e)
  unfolding apply_requested
  apply_requested-Silent requested mailboxes e =
      option e.id (apply_email-Silent mailboxes e) λ id. guarded _ (apply_email-Silent mailboxes e)

  apply_chunk-Silent :
      (mailboxes : Dict Text MailboxRow) (chunk : List Text)
      → Silent (apply_chunk O mailboxes true chunk)
  unfolding apply_chunk
  apply_chunk-Silent mailboxes chunk =
      bind (asked _) λ emails. each emails (apply_requested-Silent chunk mailboxes)

  delete_missing-Silent : (entry : Text × EmailRow) → Silent (delete_missing O true entry)
  unfolding delete_missing
  delete_missing-Silent (jmap_id, row) =
      read _ λ listed. guarded _ (bind (delete_email-Silent row) λ _. change _ λ w. (refl, refl))

  pub sync_emails-Silent : (fuel : ℕ) (ms : List MailboxRow) → Silent (sync_emails O fuel ms true)
  unfolding sync_emails
  sync_emails-Silent fuel [] = nothing _
  sync_emails-Silent fuel (m ∷ ms) = bind (fetch_all_email_ids-Silent fuel _ []) λ ids.
      bind (change _ λ w. (refl, refl)) λ _. read _ λ changes.
        bind (apply_writeback-Silent changes) λ _. read _ λ rows.
          bind (each rows delete_missing-Silent)
            λ _. read _ λ order. bind (each _ (apply_chunk-Silent _)) λ _. gotten _

  -- A dry run of a pass leaves every file and every row as it was, whatever the server answers,
  -- and also when it ends with an error.
  pub sync_emails_dry :
      (fuel : ℕ) (ms : List MailboxRow) (w : World O)
      → ((sync_emails O fuel ms true w).1.disk ≡ w.disk)
        × ((sync_emails O fuel ms true w).1.db ≡ w.db)
  sync_emails_dry fuel ms w = (sync_emails-Silent fuel ms).at w
