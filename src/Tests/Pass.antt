-- ===== src/Tests/Pass.antt =====
-- A pass against a server with one new message, a disk in memory, and the theorems at such states.
use jmapsyncd.Base.{
  ◌+◌, ◌≡◌, refl, arith, Bool, true, false, not, Option, none, some, List, [], ◌∷◌, ◌++◌, map, Text,
  text, ◌==◌, text_eq, nat_eq, bool_eq, option_eq, any, contains, keep, starts_with, filter_map,
  if◌then◌else◌,
}
use jmapsyncd.Base.Dict
use jmapsyncd.Base.Dict.{Dict}
use jmapsyncd.Base.Int.{pos, show_ℤ}
use jmapsyncd.Base.Order.{text_ord}
use jmapsyncd.Base.Result.{ok}
use jmapsyncd.Base.Strings.{take, drop, after_last}
use jmapsyncd.Base.Table.{has, clashes}
use jmapsyncd.Db.{Database, empty, get_email, get_email_mailboxes_by_email}
use jmapsyncd.Email.Files.{parent_of}
use jmapsyncd.Base.Sort.{sort_by}
use jmapsyncd.Base.Order.{cmp_text}
use jmapsyncd.Db
use jmapsyncd.Db.{get_all_emails, insert_email_mailbox}
use jmapsyncd.Email.Keywords.{keywords_to_flag_string, serialize_keywords}
use jmapsyncd.Email.Names.{basename_of, rel_path}
use jmapsyncd.Email.Primary.{pick_primary_mailbox, candidates}
use jmapsyncd.Email.Memberships.{insert_memberships}
use jmapsyncd.Email.Files.{insert_email, download_and_write}
use jmapsyncd.Email.Writeback.{detect_local_writeback, apply_writeback}
use jmapsyncd.Email.Pass.{
  sync_emails, fetch_all_email_ids, page_query_ids, by_jmap_id, set_insert, set_extend, chunks,
  fill_chunks, apply_chunk, apply_requested, apply_email, apply_in_scope, apply_existing,
  delete_missing, email_query_page_size,
}
use jmapsyncd.World
use jmapsyncd.World.{
  Outside, World, Email, Mailbox, ◌>>=◌, pure, gets, modify, answer, when, statement, file_op,
  unix_now, new_uuid_string, for_each,
}
use jmapsyncd.Email.Paging.{page_query_ids_lem}
use jmapsyncd.Tests.Codec.{codec, encode}
use jmapsyncd.Tests.Rows.{inbox}

abbrev Files : Type 0
Files = Dict Text Text

abbrev new_message : Email
new_message = record {
  id = some (text "E2");
  blob_id = some (text "B2");
  mailbox_ids = text "J1" ∷ [];
  keywords = text "$seen" ∷ [];
  size = 2;
  received_at = some (pos 7);
  message_id = some (text "<2@x>" ∷ []);
}

abbrev new_inbox : Mailbox
new_inbox = record {
  id = some (text "J1");
  name = some (text "INBOX");
  parent_id = none;
  role = World.inbox;
  sort_order = 0;
  is_subscribed = true;
}

unfoldable pub names_in : Text → Files → List Text
names_in dir [] = []
names_in dir ((path, _) ∷ d) =
    let rest = names_in dir d in if parent_of path == dir then after_last b'/' path ∷ rest else rest

unfoldable pub rename_file : Files → Text → Text → Option Text → Bool × Files
rename_file d old new none = (false, d)
rename_file d old new (some bytes) = (true, Dict.insert new bytes (Dict.remove old d))

abbrev pub machine : Outside
machine = record {
  State = Files;
  exists = λ d path. any (λ (f : Text × Text). starts_with f.0 path) d;
  read_dir = λ d dir. some (names_in dir d);
  create_dir_all = λ d dir. (true, d);
  write = λ d path bytes. (true, Dict.insert path bytes d);
  rename = λ d old new. rename_file d old new (Dict.get old d);
  remove_file = λ d path. (true, Dict.remove path d);
  remove_dir_all =
      λ d path. (true, keep (λ (f : Text × Text). not (starts_with f.0 (path ++ text "/"))) d);
  mailbox_get = some (new_inbox ∷ []);
  glob_set = λ globs. some (λ name. contains globs name);
  email_query =
      λ mailbox position. some (take email_query_page_size (drop position (text "E2" ∷ [])));
  email_get = λ ids. some (new_message ∷ []);
  email_set = λ request. some (record {
    destroyed = request.destroy;
    updated = map (λ (u : Text × List (Text × Bool)). u.0) request.update;
  });
  download = λ blob. some (text "hi");
  now = λ n. pos (100 + n);
  uuid = λ n. (b'a' + n) ∷ [];
  sql_ok = λ n. true;
  json = codec;
}

abbrev pub with_inbox : Database
with_inbox = record empty { mailboxes = inbox ∷ [] }

abbrev pub start : World machine
start = record {
  disk = [];
  db = with_inbox;
  calls = 0;
  mailbox_stats = record { created = 0; updated = 0; deleted = 0; orphaned_emails = 0 };
  stats = record {
    created = 0;
    updated = 0;
    moved = 0;
    deleted = 0;
    bytes_downloaded = 0;
    destroyed_upstream = 0;
    updated_upstream = 0;
  };
  server_ids = [];
  local_by_jmap = [];
}

-- The message is stored under the mailbox, with its flag.
sync_emails-disk :
    (sync_emails machine 1 (inbox ∷ []) false start).1.disk
    ≡ (text "INBOX/cur/7.a:2,S", text "hi") ∷ []
unfolding sync_emails fetch_all_email_ids page_query_ids by_jmap_id set_insert set_extend
    Dict.insert Dict.get Dict.remove take drop filter_map detect_local_writeback apply_writeback
    get_all_emails chunks fill_chunks sort_by cmp_text text_ord apply_chunk apply_requested
    apply_email apply_in_scope apply_existing delete_missing insert_email download_and_write
    insert_memberships keywords_to_flag_string serialize_keywords pick_primary_mailbox candidates
    contains basename_of rel_path show_ℤ has clashes text_eq nat_eq option_eq Db.insert_email
    insert_email_mailbox ◌>>=◌ pure gets modify answer when statement file_op unix_now
    new_uuid_string for_each encode rename_file any starts_with
sync_emails-disk = refl

page_query_ids_lem_example :
    page_query_ids machine 1 (text "J1") 0 [] start ≡ (ok (text "E2" ∷ []), start)
page_query_ids_lem_example =
    page_query_ids_lem machine (text "J1") (text "E2" ∷ []) (λ position. refl) 1 start (omega arith)
      (omega arith)
