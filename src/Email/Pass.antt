-- ===== src/Email/Pass.antt =====
-- src/sync/email.rs: one pass over the messages: what the server lists, the write-back, the
-- deletions, and each message of the server applied to the row and the file.
use jmapsyncd.Base.{
  ℕ, zero, suc, ◌+◌, ◌-◌, Bool, true, false, not, ◌||◌, Option, none, some, List, [], ◌∷◌, ◌++◌,
  map, Text, ◌==◌, text_eq, option_eq, length, contains, if◌then◌else◌, ltb, ◌^◌, ◌%◌,
}
use jmapsyncd.Base.Dict
use jmapsyncd.Base.Dict.{Dict}
use jmapsyncd.Base.Int.{ℤ}
use jmapsyncd.Base.Order.{cmp_text}
use jmapsyncd.Base.Sort.{sort_by}
use jmapsyncd.Db.{get_all_emails}
use jmapsyncd.Db.Models.{MailboxRow, EmailRow}
use jmapsyncd.Email.Keywords.{keywords_to_flag_string, serialize_keywords}
use jmapsyncd.Email.Names.{current_flags_from_path}
use jmapsyncd.Email.Primary.{pick_primary_mailbox}
use jmapsyncd.Email.Memberships.{memberships_differ}
use jmapsyncd.Email.Files.{delete_email, insert_email, update_email_in_place, move_email}
use jmapsyncd.Email.Writeback.{detect_local_writeback, apply_writeback}
use jmapsyncd.World.{
  Outside, World, Email, EmailSyncStats, M, ◌>>=◌, ◌>>◌, pure, fail, gets, modify, answer, when,
  unix_now, for_each, out_of_fuel,
}

abbrev pub email_query_page_size : ℕ
email_query_page_size = 256

abbrev pub wrap : ℕ → ℕ
wrap n = n % 2 ^ 32

abbrev pub email_get_chunk_size : ℕ
email_get_chunk_size = 100

abbrev pub no_stats : EmailSyncStats
no_stats = record {
  created = 0;
  updated = 0;
  moved = 0;
  deleted = 0;
  bytes_downloaded = 0;
  destroyed_upstream = 0;
  updated_upstream = 0;
}

-- `HashSet::insert`
unfoldable pub set_insert : List Text → Text → List Text
set_insert s x = if contains s x then s else s ++ (x ∷ [])

unfoldable pub set_extend : List Text → List Text → List Text
set_extend s [] = s
set_extend s (x ∷ xs) = set_extend (set_insert s x) xs

-- The rows by their `jmap_id`, where they have one; a later row replaces an earlier one.
unfoldable pub by_jmap_id : {A : Type 0} → (A → Option Text) → List A → Dict Text A → Dict Text A
by_jmap_id key [] d = d
by_jmap_id key (a ∷ l) d = by_jmap_id key l (elim (key a) [ none ↦ d | some k ↦ Dict.insert k a d ])

-- `l.chunks(n)`: the chunk that is being filled, with the room it has left.
unfoldable pub fill_chunks : ℕ → ℕ → List Text → List Text → List (List Text)
fill_chunks n room [] [] = []
fill_chunks n room (c ∷ cs) [] = (c ∷ cs) ∷ []
fill_chunks n zero chunk (x ∷ xs) = chunk ∷ fill_chunks n n (x ∷ []) xs
fill_chunks n (suc room) chunk (x ∷ xs) = fill_chunks n room (chunk ++ (x ∷ [])) xs

unfoldable pub chunks : ℕ → List Text → List (List Text)
chunks n l = fill_chunks (n - 1) n [] l

module _ (O : Outside) where
  -- The loop on fuel. `position` is the bits of an `i32`, which wraps around without overflow
  -- checks;
  -- with them the program panics there.
  unfoldable pub page_query_ids : ℕ → Text → ℕ → List Text → M O (List Text)
  page_query_ids zero mailbox position all = fail out_of_fuel
  page_query_ids (suc fuel) mailbox position all = do
    page ← answer (O.email_query mailbox position)
    elim (ltb (length page) email_query_page_size) [
      | true ↦ pure (all ++ page)
      | false ↦ page_query_ids fuel mailbox (wrap (position + length page)) (all ++ page)
    ]

  unfoldable pub fetch_all_email_ids : ℕ → List Text → List Text → M O (List Text)
  fetch_all_email_ids fuel [] ids = pure ids
  fetch_all_email_ids fuel (m ∷ ms) ids = do
    per_mailbox ← page_query_ids fuel m 0 []
    fetch_all_email_ids fuel ms (set_extend ids per_mailbox)

  abbrev pub count_deleted : World O → World O
  count_deleted w = record w { stats = record w.stats { deleted = suc w.stats.deleted } }

  abbrev pub count_created : ℕ → World O → World O
  count_created bytes w = record w {
    stats = record w.stats {
      created = suc w.stats.created;
      bytes_downloaded = w.stats.bytes_downloaded + bytes;
    };
  }

  abbrev pub count_moved : World O → World O
  count_moved w = record w { stats = record w.stats { moved = suc w.stats.moved } }

  abbrev pub count_updated_local : World O → World O
  count_updated_local w = record w { stats = record w.stats { updated = suc w.stats.updated } }

  -- No mailbox of the message is in scope.
  unfoldable pub drop_out_of_scope : Option EmailRow → Bool → M O (Unit {0})
  drop_out_of_scope none dry_run = pure tt
  drop_out_of_scope (some existing) dry_run = do
    delete_email O existing dry_run
    modify count_deleted

  -- A message that has a row: the three branches on what differs.
  unfoldable pub apply_existing :
      EmailRow
      → MailboxRow
      → List Text
      → Dict Text MailboxRow
      → Text
      → Text
      → ℤ
      → Bool
      → M O (Unit {0})
  apply_existing existing primary_mailbox ids mailbox_by_jmap flags keywords_json received_ts
        dry_run =
      do
        memberships_changed ← gets λ w. memberships_differ w.db existing.id ids mailbox_by_jmap
        let primary_changed = not (existing.primary_mailbox == primary_mailbox.id)
        let flags_changed = not (current_flags_from_path existing.file_path == flags)
        let keywords_changed = not (existing.keywords == some keywords_json)
        elim primary_changed [
          | true ↦ do
            move_email O existing primary_mailbox ids mailbox_by_jmap flags keywords_json
                received_ts dry_run
            modify count_moved
          | false ↦ when (flags_changed || (keywords_changed || memberships_changed)) do
            update_email_in_place O existing primary_mailbox ids mailbox_by_jmap flags keywords_json
                dry_run
            modify count_updated_local
        ]

  -- A message in scope.
  unfoldable pub apply_in_scope :
      Text → Email → MailboxRow → Dict Text MailboxRow → Bool → M O (Unit {0})
  apply_in_scope jmap_id email primary_mailbox mailbox_by_jmap dry_run = do
    let flags = keywords_to_flag_string email.keywords
    let keywords_json = serialize_keywords O.json email.keywords
    received_ts ← elim email.received_at [ none ↦ unix_now | some t ↦ pure t ]
    row ← gets λ w. Dict.get jmap_id w.local_by_jmap
    elim row [
      | none ↦ do
        bytes ←
            insert_email O jmap_id email primary_mailbox email.mailbox_ids mailbox_by_jmap flags
              keywords_json received_ts dry_run
        modify (count_created bytes)
      | some existing ↦
          apply_existing existing primary_mailbox email.mailbox_ids mailbox_by_jmap flags
            keywords_json received_ts dry_run
    ]

  unfoldable pub apply_email : Dict Text MailboxRow → Email → Bool → M O (Unit {0})
  apply_email mailbox_by_jmap email dry_run = elim email.id [
    | none ↦ pure tt
    | some jmap_id ↦ elim (pick_primary_mailbox email.mailbox_ids mailbox_by_jmap) [
      | none ↦ do row ← gets λ w. Dict.get jmap_id w.local_by_jmap; drop_out_of_scope row dry_run
      | some primary_mailbox ↦ apply_in_scope jmap_id email primary_mailbox mailbox_by_jmap dry_run
    ]
  ]

  -- The loop over the messages that `Email/get` returns: what was not asked for is skipped.
  unfoldable pub apply_requested : List Text → Dict Text MailboxRow → Bool → Email → M O (Unit {0})
  apply_requested requested mailbox_by_jmap dry_run email = elim email.id [
    | none ↦ apply_email mailbox_by_jmap email dry_run
    | some id ↦ when (contains requested id) (apply_email mailbox_by_jmap email dry_run)
  ]

  unfoldable pub apply_chunk : Dict Text MailboxRow → Bool → List Text → M O (Unit {0})
  apply_chunk mailbox_by_jmap dry_run chunk = do
    hydrated ← answer (O.email_get chunk)
    for_each hydrated (apply_requested chunk mailbox_by_jmap dry_run)

  -- The body of the loop over the local rows.
  unfoldable pub delete_missing : Bool → Text × EmailRow → M O (Unit {0})
  delete_missing dry_run (jmap_id, row) = do
    listed ← gets λ w. contains w.server_ids jmap_id
    when (not listed) do delete_email O row dry_run; modify count_deleted

  unfoldable pub sync_emails : ℕ → List MailboxRow → Bool → M O EmailSyncStats
  sync_emails fuel [] dry_run = pure no_stats
  sync_emails fuel (m ∷ ms) dry_run = do
    let mailbox_by_jmap = by_jmap_id (λ (x : MailboxRow). x.jmap_id) (m ∷ ms) []
    ids ← fetch_all_email_ids fuel (map (λ (e : Text × MailboxRow). e.0) mailbox_by_jmap) []
    modify λ w. record w {
      server_ids = ids;
      local_by_jmap = by_jmap_id (λ (x : EmailRow). x.jmap_id) (get_all_emails w.db) [];
      stats = no_stats;
    }
    changes ← gets λ w. detect_local_writeback O w.disk w.local_by_jmap
    apply_writeback O changes dry_run
    rows ← gets λ w. w.local_by_jmap
    for_each rows (delete_missing dry_run)
    order ← gets λ w. sort_by cmp_text w.server_ids
    for_each (chunks email_get_chunk_size order) (apply_chunk mailbox_by_jmap dry_run)
    gets λ w. w.stats
