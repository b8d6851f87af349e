-- ===== src/Email/Writeback.antt =====
-- src/sync/email.rs: local changes of the Maildir, found and pushed to the server.
pub mod Settled
use jmapsyncd.Base.{
  ℕ, suc, ◌+◌, Bool, true, false, not, Option, none, some, List, [], ◌∷◌, ◌++◌, Text, text, ◌==◌,
  text_eq, nat_eq, contains, keep, filter_map, if◌then◌else◌,
}
use jmapsyncd.Base.Dict
use jmapsyncd.Base.Dict.{Dict}
use jmapsyncd.Base.Strings.{after_last, rsplit_once}
use jmapsyncd.Base.Table.{find}
use jmapsyncd.Db
use jmapsyncd.Db.Models.{EmailRow}
use jmapsyncd.Email.Keywords.{
  unwrap_or, is_standard_flag, merge_keywords_json, extract_standard_flags, keyword_patch_ops,
}
use jmapsyncd.Email.Names.{filename_base, filename_flags}
use jmapsyncd.Email.Files.{parent_of, delete_email}
use jmapsyncd.World.{
  Outside, World, EmailSet, EmailSetResponse, M, ◌>>=◌, ◌>>◌, pure, gets, modify, answer, when,
  statement, unix_now, for_each,
}

pub data LocalChange : Type 0 where
  destroy : (jmap_id : Text) (actual_rel : Option Text) → LocalChange
  update_keywords : (jmap_id new_flags new_keywords_json new_rel_path : Text) → LocalChange

-- `parent.join(name)`, less the mail root.
abbrev pub join : Text → Text → Text
join [] name = name
join (c ∷ cs) name = (c ∷ cs) ++ (b'/' ∷ name)

-- The ids that the request destroys.
abbrev pub destroy_id : LocalChange → Option Text
destroy_id (destroy jmap_id _) = some jmap_id
destroy_id (update_keywords _ _ _ _) = none

module _ (O : Outside) where
  -- The first entry of the directory with the base of the stored name.
  unfoldable pub resolve_current_file : O.State → Text → Option (Text × Text)
  resolve_current_file disk stored_rel =
      let stored_base = filename_base (after_last b'/' stored_rel) in
      elim (O.read_dir disk (parent_of stored_rel)) [
        | none ↦ none
        | some names ↦ elim (find (λ name. filename_base name == stored_base) names) [
          | none ↦ none
          | some name ↦ some (join (parent_of stored_rel) name, filename_flags name)
        ]
      ]

  -- The branch of `detect_local_writeback` for a file that is there.
  unfoldable pub detect_present : Text → EmailRow → Text → Text → Option LocalChange
  detect_present jmap_id row actual_rel actual_flags =
      let disk_flags = keep is_standard_flag actual_flags in
      let stored_json = unwrap_or (text "{}") row.keywords in
      let merged_json = merge_keywords_json O.json stored_json disk_flags in
      if contains actual_flags b'T'
      then some (destroy jmap_id (some actual_rel))
      else if not (merged_json == stored_json)
      then some (update_keywords jmap_id disk_flags merged_json actual_rel)
      else none

  unfoldable pub detect : O.State → Text × EmailRow → Option LocalChange
  detect disk (jmap_id, row) = elim (resolve_current_file disk row.file_path) [
    | none ↦ some (destroy jmap_id none)
    | some (actual_rel, actual_flags) ↦ detect_present jmap_id row actual_rel actual_flags
  ]

  unfoldable pub detect_local_writeback : O.State → Dict Text EmailRow → List LocalChange
  detect_local_writeback disk local_by_jmap = filter_map (detect disk) local_by_jmap

  -- `.and_then(|r| r.keywords.as_deref()).map(extract_standard_flags).unwrap_or_default()`
  unfoldable pub stored_flags : Option EmailRow → Text
  stored_flags none = []
  stored_flags (some r) = elim r.keywords [ none ↦ [] | some k ↦ extract_standard_flags O.json k ]

  -- The patches of one change; no entry where there is nothing to send.
  unfoldable pub update_entry :
      Dict Text EmailRow → LocalChange → Option (Text × List (Text × Bool))
  update_entry local_by_jmap (destroy _ _) = none
  update_entry local_by_jmap (update_keywords jmap_id new_flags _ _) =
      elim (keyword_patch_ops (stored_flags (Dict.get jmap_id local_by_jmap)) new_flags) [
        | [] ↦ none
        | op ∷ ops ↦ some (jmap_id, op ∷ ops)
      ]

  unfoldable pub build_request : List LocalChange → Dict Text EmailRow → EmailSet
  build_request changes local_by_jmap = record {
    update = filter_map (update_entry local_by_jmap) changes;
    destroy = filter_map destroy_id changes;
  }

  abbrev pub count_destroyed : World O → World O
  count_destroyed w = record w {
    stats = record w.stats { destroyed_upstream = suc w.stats.destroyed_upstream };
  }

  abbrev pub count_updated : World O → World O
  count_updated w = record w {
    stats = record w.stats { updated_upstream = suc w.stats.updated_upstream };
  }

  -- The dry run only counts.
  unfoldable pub count_change : LocalChange → M O (Unit {0})
  count_change (destroy _ _) = modify count_destroyed
  count_change (update_keywords _ _ _ _) = modify count_updated

  -- `local_by_jmap.remove(jmap_id)`, and what follows when a row was there.
  unfoldable pub forget_row : Text → Option Text → M O (Unit {0})
  forget_row jmap_id actual_rel = do
    row ← gets λ w. Dict.get jmap_id w.local_by_jmap
    modify λ w. record w { local_by_jmap = Dict.remove jmap_id w.local_by_jmap }
    elim row [
      | none ↦ pure tt
      | some r ↦ delete_email O (record r { file_path = unwrap_or r.file_path actual_rel }) false
    ]

  -- `local_by_jmap.get_mut(jmap_id)`, and what follows when a row is there.
  unfoldable pub rewrite_row : Text → Text → Text → M O (Unit {0})
  rewrite_row jmap_id new_keywords_json new_rel_path = do
    row ← gets λ w. Dict.get jmap_id w.local_by_jmap
    elim row [
      | none ↦ pure tt
      | some r ↦ do
        now ← unix_now
        let r' = record r {
          keywords = some new_keywords_json;
          file_path = new_rel_path;
          last_sync = some now;
        }
        modify λ w. record w { local_by_jmap = Dict.insert jmap_id r' w.local_by_jmap }
        statement λ db. Db.update_email db r'
    ]

  -- The loop body after the response.
  unfoldable pub settle_change : EmailSetResponse → LocalChange → M O (Unit {0})
  settle_change response (destroy jmap_id actual_rel) =
      when (contains response.destroyed jmap_id) do
        modify λ w. record w { server_ids = keep (λ i. not (i == jmap_id)) w.server_ids }
        forget_row jmap_id actual_rel
        modify count_destroyed
  settle_change response (update_keywords jmap_id _ new_keywords_json new_rel_path) =
      when (contains response.updated jmap_id)
        do rewrite_row jmap_id new_keywords_json new_rel_path; modify count_updated

  unfoldable pub apply_writeback : List LocalChange → Bool → M O (Unit {0})
  apply_writeback [] dry_run = pure tt
  apply_writeback (c ∷ cs) true = for_each (c ∷ cs) count_change
  apply_writeback (c ∷ cs) false = do
    request ← gets λ w. build_request (c ∷ cs) w.local_by_jmap
    response ← answer (O.email_set request)
    for_each (c ∷ cs) (settle_change response)
