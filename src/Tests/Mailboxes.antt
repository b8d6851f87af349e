-- ===== src/Tests/Mailboxes.antt =====
-- Two mailboxes, one in the other; a message without a link; a cycle; a whole account.
use jmapsyncd.Base.{
  ℕ, ◌≡◌, ◌≢◌, refl, arith, true, false, none, some, List, [], ◌∷◌, Text, text, ◌==◌, text_eq,
  nat_eq, option_eq, keep, contains, count, length, if◌then◌else◌,
}
use jmapsyncd.Base.Dict
use jmapsyncd.Base.Dict.{Dict}
use jmapsyncd.Base.Int.{pos}
use jmapsyncd.Base.Result.{ok, err}
use jmapsyncd.Config
use jmapsyncd.Config.{MailConfig, Account}
use jmapsyncd.Db.Models.{MailboxRow}
use jmapsyncd.Mailbox.Order.{keys, topo_sort_creates_and_updates, emit, is_ready}
use jmapsyncd.Mailbox.Order.ParentsFirst.{
  ParentsFirst, Deeper, topo_sort_creates_and_updates_lem,
  topo_sort_creates_and_updates-ParentsFirst,
}
use jmapsyncd.Mailbox.Orphans.{orphaned, cleanup_orphaned_emails}
use jmapsyncd.Mailbox.Orphans.Cleaned.{cleaned, cleanup_orphaned_emails_lem}
use jmapsyncd.Mailbox.Target.{TargetMailbox, build_target_set}
use jmapsyncd.Mailbox.Target.Terminates.{build_target_set_terminates}
use jmapsyncd.Sync.{sync_account}
use jmapsyncd.Sync.Laws.{sync_account_dry}
use jmapsyncd.Tests.Pass.{machine, start, with_inbox}
use jmapsyncd.Tests.Rows.{letter}
use jmapsyncd.World
use jmapsyncd.World.{World, Mailbox, Error, out_of_fuel, database}

abbrev target_inbox : TargetMailbox
target_inbox = record {
  jmap_id = text "J1";
  name = text "INBOX";
  parent_jmap_id = none;
  role = some (text "inbox");
  sort_order = some (pos 0);
  path = text "INBOX";
}

abbrev target_lists : TargetMailbox
target_lists = record target_inbox {
  jmap_id = text "J2";
  name = text "Lists";
  parent_jmap_id = some (text "J1");
  path = text "INBOX/Lists";
}

-- The child stands first.
abbrev targets : Dict Text TargetMailbox
targets = (text "J2", target_lists) ∷ (text "J1", target_inbox) ∷ []

abbrev stored_rows : Dict Text MailboxRow
stored_rows = []

topo_sort-targets :
    topo_sort_creates_and_updates targets stored_rows ≡ some (text "J1" ∷ text "J2" ∷ [])
unfolding topo_sort_creates_and_updates emit is_ready keep Dict.get text_eq contains
topo_sort-targets = refl

topo_sort_creates_and_updates_lem_example :
    (order : List Text) × (topo_sort_creates_and_updates targets stored_rows ≡ some order)
    × ((x : Text) → count x order ≡ count x (keys targets))
topo_sort_creates_and_updates_lem_example = topo_sort_creates_and_updates_lem targets stored_rows

depth : Text → ℕ
depth x = if x == text "J2" then 1 else 0

targets-Deeper : Deeper targets depth
unfolding depth Dict.get
targets-Deeper x pid e t = ground (arith, e, t)

topo_sort_creates_and_updates-ParentsFirst_example :
    (order : List Text) × (topo_sort_creates_and_updates targets stored_rows ≡ some order)
    × ParentsFirst targets stored_rows order
topo_sort_creates_and_updates-ParentsFirst_example =
    topo_sort_creates_and_updates-ParentsFirst targets stored_rows depth targets-Deeper

-- The letter has no link.
abbrev occupied : World machine
occupied = record start {
  disk = (text "INBOX/cur/1.u:2,S", text "hi") ∷ [];
  db = record with_inbox { emails = letter ∷ [] };
}

cleanup_orphaned_emails_lem_example :
    (w' : World machine) × (cleanup_orphaned_emails machine false occupied
      ≡ (ok (length (orphaned occupied.db)), w'))
    × (w'.db ≡ cleaned occupied.db)
    × (orphaned (cleaned occupied.db) ≡ [])
cleanup_orphaned_emails_lem_example = cleanup_orphaned_emails_lem machine (λ n. refl) false occupied

abbrev pub mail : MailConfig
mail = record {
  path = text "/mail";
  sync_mode = Config.mirror;
  subscribed_only = true;
  box_filter = none;
  tls = none;
  box_mapping = [];
  post_sync_hook = none;
  watch_maildir = true;
  exclude_mailboxes = [];
}

abbrev pub account : Account
account = record {
  name = text "a";
  enabled = true;
  jmap_host = text "h";
  jmap_user = text "u";
  token = Config.inline (text "t");
  timeout_secs = 30;
  poll_interval_secs = 300;
  mail = some mail;
  submit = none;
}

-- Each is the parent of the other.
abbrev ring : List Mailbox
ring =
    record {
      id = some (text "J1");
      name = some (text "a");
      parent_id = some (text "J2");
      role = World.no_role;
      sort_order = 0;
      is_subscribed = true;
    }
    ∷ record {
      id = some (text "J2");
      name = some (text "b");
      parent_id = some (text "J1");
      role = World.no_role;
      sort_order = 0;
      is_subscribed = true;
    }
    ∷ []

build_target_set_terminates_example : build_target_set machine mail ring ≢ err out_of_fuel
build_target_set_terminates_example = build_target_set_terminates machine mail ring

sync_account_dry_example :
    ((sync_account machine 1 20 account true start).1.disk ≡ [])
    × ((sync_account machine 1 20 account true start).1.db ≡ with_inbox)
sync_account_dry_example = sync_account_dry machine 1 20 account start
