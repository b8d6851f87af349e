-- ===== src/Email/Files.antt =====
-- src/sync/email.rs: the functions that create, change, move and delete the file and the row of
-- one message. Paths are relative to the mail root; `dry_run` comes last, as in the source.
use jmapsyncd.Base.{
  ℕ, ◌-◌, ◌^◌, Bool, true, false, not, Option, none, some, List, [], ◌∷◌, ◌++◌, Text, text, ◌==◌,
  text_eq, length, if◌then◌else◌, ltb,
}
use jmapsyncd.Base.Dict.{Dict}
use jmapsyncd.Base.Int.{ℤ, pos, negsuc}
use jmapsyncd.Base.Strings.{rsplit_once}
use jmapsyncd.Db
use jmapsyncd.Db.Models.{MailboxRow, EmailRow}
use jmapsyncd.Email.Names.{rebuild_path_with_flags, extract_uuid, basename_of, rel_path}
use jmapsyncd.Email.Memberships.{insert_memberships, reconcile_memberships}
use jmapsyncd.World.{
  Email, Outside, M, ◌>>=◌, ◌>>◌, pure, fail, gets, answer, when, statement, file_op, try_file_op,
  unix_now, new_uuid_string, no_blob,
}

-- `Path::parent`
unfoldable pub parent_of : Text → Text
parent_of path = elim (rsplit_once (text "/") path) [ none ↦ [] | some (a, _) ↦ a ]

-- `n as i64`
abbrev pub as_i64 : ℕ → ℤ
as_i64 n = if ltb n (2 ^ 63) then pos n else negsuc (2 ^ 64 - 1 - n)

abbrev pub first? : Option (List Text) → Option Text
first? none = none
first? (some []) = none
first? (some (x ∷ _)) = some x

module _ (O : Outside) where
  unfoldable pub delete_email : EmailRow → Bool → M O (Unit {0})
  delete_email row true = pure tt
  delete_email row false = do
    there ← gets λ w. O.exists w.disk row.file_path
    when there (try_file_op λ d. O.remove_file d row.file_path)
    statement λ db. Db.delete_email db row.id

  unfoldable pub download_and_write : Text → Text → ℤ → Text → Bool → M O (Text × ℕ)
  download_and_write blob_id primary_path ts flags dry_run = do
    bytes ← answer (O.download blob_id)
    uuid ← new_uuid_string
    let final_rel = rel_path primary_path ts uuid flags
    let tmp = primary_path ++ (text "/tmp/" ++ basename_of ts uuid)
    elim dry_run [
      | true ↦ pure (final_rel, length bytes)
      | false ↦ do
        file_op λ d. O.create_dir_all d (primary_path ++ text "/tmp")
        file_op λ d. O.create_dir_all d (primary_path ++ text "/cur")
        file_op λ d. O.write d tmp bytes
        file_op λ d. O.rename d tmp final_rel
        pure (final_rel, length bytes)
    ]

  unfoldable pub insert_email :
      Text → Email → MailboxRow → List Text → Dict Text MailboxRow → Text → Text → ℤ → Bool → M O ℕ
  insert_email jmap_id email primary_mailbox mailbox_jmap_ids mailbox_by_jmap flags keywords_json
        received_ts dry_run =
      do
        blob_id ← elim email.blob_id [ none ↦ fail no_blob | some b ↦ pure b ]
        (rel, bytes) ← download_and_write blob_id primary_mailbox.path received_ts flags dry_run
        elim dry_run [
          | true ↦ pure bytes
          | false ↦ do
            id ← new_uuid_string
            now ← unix_now
            statement λ db. Db.insert_email db (record {
              id = id;
              jmap_id = some jmap_id;
              message_id = first? email.message_id;
              file_path = rel;
              primary_mailbox = primary_mailbox.id;
              keywords = some keywords_json;
              jmap_state = none;
              size = some (as_i64 email.size);
              last_sync = some now;
              is_dirty = false;
            })
            insert_memberships O id primary_mailbox.id mailbox_jmap_ids mailbox_by_jmap
            pure bytes
        ]

  -- `if old_abs.exists() { fs::rename(old_abs, new_abs)? }`
  abbrev pub rename_if_there : Text → Text → M O (Unit {0})
  rename_if_there old new = do
    there ← gets λ w. O.exists w.disk old
    when there (file_op λ d. O.rename d old new)

  unfoldable pub update_email_in_place :
      EmailRow → MailboxRow → List Text → Dict Text MailboxRow → Text → Text → Bool → M O (Unit {0})
  update_email_in_place existing primary_mailbox mailbox_jmap_ids mailbox_by_jmap flags
        keywords_json true =
      pure tt
  update_email_in_place existing primary_mailbox mailbox_jmap_ids mailbox_by_jmap flags
        keywords_json false =
      do
        let new_rel = rebuild_path_with_flags existing.file_path flags
        when (not (new_rel == existing.file_path)) (rename_if_there existing.file_path new_rel)
        now ← unix_now
        statement λ db. Db.update_email db (record existing {
          file_path = new_rel;
          keywords = some keywords_json;
          last_sync = some now;
        })
        reconcile_memberships O existing.id primary_mailbox.id mailbox_jmap_ids mailbox_by_jmap

  unfoldable pub move_email :
      EmailRow
      → MailboxRow
      → List Text
      → Dict Text MailboxRow
      → Text
      → Text
      → ℤ
      → Bool
      → M O (Unit {0})
  move_email existing new_primary mailbox_jmap_ids mailbox_by_jmap flags keywords_json received_ts
        dry_run =
      do
        uuid_part ← elim (extract_uuid existing.file_path) [
          | none ↦ new_uuid_string
          | some u ↦ pure u
        ]
        let new_rel = rel_path new_primary.path received_ts uuid_part flags
        elim dry_run [
          | true ↦ pure tt
          | false ↦ do
            file_op λ d. O.create_dir_all d (parent_of new_rel)
            rename_if_there existing.file_path new_rel
            now ← unix_now
            statement λ db. Db.update_email db (record existing {
              file_path = new_rel;
              primary_mailbox = new_primary.id;
              keywords = some keywords_json;
              last_sync = some now;
            })
            reconcile_memberships O existing.id new_primary.id mailbox_jmap_ids mailbox_by_jmap
        ]
