-- ===== src/Mailbox/Apply.antt =====
-- src/sync/mailbox.rs: `apply_diff` and the functions that create, update and delete one mailbox.
-- Paths are relative to the mail root.
use Prim.Native.Nat.{compare}
use jmapsyncd.Base.{
  suc, Bool, true, false, not, ◌&&◌, Option, none, some, List, [], ◌∷◌, ◌++◌, map, Text, text, ◌==◌,
  text_eq, option_eq, length, keep, contains, if◌then◌else◌,
}
use jmapsyncd.Base.Dict
use jmapsyncd.Base.Dict.{Dict}
use jmapsyncd.Base.Int.{int_eq}
use jmapsyncd.Base.Sort.{sort_by}
use jmapsyncd.Db
use jmapsyncd.Db.{get_mailbox_by_jmap_id}
use jmapsyncd.Db.Models.{MailboxRow}
use jmapsyncd.Email.Files.{parent_of}
use jmapsyncd.Mailbox.Target.{TargetMailbox}
use jmapsyncd.Mailbox.Order.{is_some, topo_sort_creates_and_updates}
use jmapsyncd.World.{
  Outside, World, M, ◌>>=◌, ◌>>◌, pure, gets, modify, when, statement, file_op, new_uuid_string,
  for_each, fail, out_of_fuel,
}

abbrev pub id_of : Option MailboxRow → Option Text
id_of none = none
id_of (some r) = some r.id

-- `new_parent_id`
abbrev pub local_parent : Dict Text MailboxRow → Option Text → Option Text
local_parent local_by_jmap none = none
local_parent local_by_jmap (some pid) = id_of (Dict.get pid local_by_jmap)

-- The row of an existing mailbox as its target wants it.
abbrev pub updated_row : MailboxRow → TargetMailbox → Option Text → MailboxRow
updated_row existing tgt new_parent_id = record {
  id = existing.id;
  jmap_id = existing.jmap_id;
  name = tgt.name;
  parent_id = new_parent_id;
  role = tgt.role;
  sort_order = tgt.sort_order;
  path = tgt.path;
  jmap_state = existing.jmap_state;
}

unfoldable pub diff_and_build_update :
    MailboxRow → TargetMailbox → Dict Text MailboxRow → Option MailboxRow
diff_and_build_update existing tgt local_by_jmap =
    let new_parent_id = local_parent local_by_jmap tgt.parent_jmap_id in
    let unchanged =
      existing.name == tgt.name
      && (existing.parent_id == new_parent_id
          && (existing.role == tgt.role
              && (existing.sort_order == tgt.sort_order && existing.path == tgt.path))) in
    if unchanged then none else some (updated_row existing tgt new_parent_id)

-- What `apply_diff` deletes, the longest path first.
unfoldable pub to_delete :
    Dict Text TargetMailbox → Dict Text MailboxRow → List Text → List MailboxRow
to_delete target local_by_jmap excluded =
    sort_by (λ (a b : MailboxRow). compare (length b.path) (length a.path))
      (map (λ (e : Text × MailboxRow). e.1)
        (keep
          (λ (e : Text × MailboxRow).
            not (is_some (Dict.get e.0 target)) && not (contains excluded e.1.path))
          local_by_jmap))

module _ (O : Outside) where
  unfoldable pub create_maildir : Text → M O (Unit {0})
  create_maildir dir =
      for_each (text "cur" ∷ text "new" ∷ text "tmp" ∷ [])
        λ sub. file_op λ d. O.create_dir_all d (dir ++ (b'/' ∷ sub))

  -- `parent_local_id`: the local row, else the row of the database.
  abbrev pub parent_local_id : Dict Text MailboxRow → Option Text → World O → Option Text
  parent_local_id local_by_jmap none w = none
  parent_local_id local_by_jmap (some pid) w = elim (Dict.get pid local_by_jmap) [
    | none ↦ id_of (get_mailbox_by_jmap_id w.db pid)
    | some r ↦ some r.id
  ]

  unfoldable pub create_mailbox : TargetMailbox → Dict Text MailboxRow → Bool → M O (Unit {0})
  create_mailbox tgt local_by_jmap dry_run = do
    parent_id ← gets (parent_local_id local_by_jmap tgt.parent_jmap_id)
    id ← new_uuid_string
    elim dry_run [
      | true ↦ pure tt
      | false ↦ do
        create_maildir tgt.path
        statement λ db. Db.insert_mailbox db (record {
          id = id;
          jmap_id = some tgt.jmap_id;
          name = tgt.name;
          parent_id = parent_id;
          role = tgt.role;
          sort_order = tgt.sort_order;
          path = tgt.path;
          jmap_state = none;
        })
    ]

  -- The directory of a mailbox whose path changes.
  unfoldable pub move_maildir : Text → Text → M O (Unit {0})
  move_maildir old_path new_path = do
    file_op λ d. O.create_dir_all d (parent_of new_path)
    there ← gets λ w. O.exists w.disk old_path
    elim there [
      | true ↦ file_op λ d. O.rename d old_path new_path
      | false ↦ create_maildir new_path
    ]

  unfoldable pub update_mailbox : MailboxRow → MailboxRow → Bool → M O (Unit {0})
  update_mailbox existing new_row true = pure tt
  update_mailbox existing new_row false = do
    when (not (existing.path == new_row.path)) (move_maildir existing.path new_row.path)
    statement λ db. Db.update_mailbox db new_row

  unfoldable pub delete_mailbox : MailboxRow → Bool → M O (Unit {0})
  delete_mailbox row true = pure tt
  delete_mailbox row false = do
    there ← gets λ w. O.exists w.disk row.path
    when there (file_op λ d. O.remove_dir_all d row.path)
    statement λ db. Db.delete_mailbox db row.id

  abbrev pub count_deleted : World O → World O
  count_deleted w = record w {
    mailbox_stats = record w.mailbox_stats { deleted = suc w.mailbox_stats.deleted };
  }

  abbrev pub count_created : World O → World O
  count_created w = record w {
    mailbox_stats = record w.mailbox_stats { created = suc w.mailbox_stats.created };
  }

  abbrev pub count_updated : World O → World O
  count_updated w = record w {
    mailbox_stats = record w.mailbox_stats { updated = suc w.mailbox_stats.updated };
  }

  unfoldable pub delete_one : Bool → MailboxRow → M O (Unit {0})
  delete_one dry_run row = do delete_mailbox row dry_run; modify count_deleted

  -- The loop body for a target.
  unfoldable pub create_or_update :
      Dict Text MailboxRow → Bool → Text → TargetMailbox → M O (Unit {0})
  create_or_update local_by_jmap dry_run jmap_id tgt = elim (Dict.get jmap_id local_by_jmap) [
    | none ↦ do create_mailbox tgt local_by_jmap dry_run; modify count_created
    | some existing ↦ elim (diff_and_build_update existing tgt local_by_jmap) [
      | none ↦ pure tt
      | some new_row ↦ do update_mailbox existing new_row dry_run; modify count_updated
    ]
  ]

  -- `target[&jmap_id]` is there: `ordered` holds the keys of `target`.
  unfoldable pub apply_target :
      Dict Text TargetMailbox → Dict Text MailboxRow → Bool → Text → M O (Unit {0})
  apply_target target local_by_jmap dry_run jmap_id = elim (Dict.get jmap_id target) [
    | none ↦ pure tt
    | some tgt ↦ create_or_update local_by_jmap dry_run jmap_id tgt
  ]

  unfoldable pub apply_diff :
      Dict Text TargetMailbox → Dict Text MailboxRow → List Text → Bool → M O (Unit {0})
  apply_diff target local_by_jmap exclude_mailboxes dry_run = do
    for_each (to_delete target local_by_jmap exclude_mailboxes) (delete_one dry_run)
    ordered ← elim (topo_sort_creates_and_updates target local_by_jmap) [
      | none ↦ fail out_of_fuel
      | some l ↦ pure l
    ]
    for_each ordered (apply_target target local_by_jmap dry_run)
