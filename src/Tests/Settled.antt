-- ===== src/Tests/Settled.antt =====
-- The theorems on links, on the write-back and on what follows it, on one message.
use jmapsyncd.Base.{
  ◌≡◌, refl, true, false, none, some, List, [], ◌∷◌, Text, text, text_eq, nat_eq, option_eq, any,
  contains, keep,
}
use jmapsyncd.Base.Dict
use jmapsyncd.Base.Sort.{sort_by}
use jmapsyncd.Base.Dict.{Dict}
use jmapsyncd.Base.Int.{pos}
use jmapsyncd.Base.Order.{text_ord}
use jmapsyncd.Base.Result.{ok}
use jmapsyncd.Base.Strings.{after_last, rsplit_once}
use jmapsyncd.Base.Table.{has, find}
use jmapsyncd.Db.{
  get_email, insert_email_mailbox, delete_email_mailbox, get_email_mailboxes_by_email, links_of,
}
use jmapsyncd.Db.Models.{MailboxRow, EmailRow}
use jmapsyncd.Email.Keywords.{
  keywords_to_flag_string, serialize_keywords, merge_keywords_json, is_standard_flag,
}
use jmapsyncd.Email.Names.{filename_base, filename_flags}
use jmapsyncd.Email.Memberships.{insert_memberships, reconcile_memberships, memberships_differ}
use jmapsyncd.Email.Memberships.Reconciled.{memberships_differ-reconcile_memberships}
use jmapsyncd.Email.Files.{parent_of}
use jmapsyncd.Email.Writeback.{
  destroy, update_keywords, resolve_current_file, detect_present, detect, settle_change,
}
use jmapsyncd.Email.Writeback.Settled.{settle_change-destroy}
use jmapsyncd.Email.Quiet.{detect-pulled, detect-pushed}
use jmapsyncd.World.{World, EmailSetResponse, ◌>>=◌, pure, gets, statement, for_each}
use jmapsyncd.Tests.Codec.{codec-IsLawful, encode, parse}
use jmapsyncd.Tests.Pass.{machine, start, names_in}
use jmapsyncd.Tests.Rows.{inbox, letter, link}

abbrev mailboxes : Dict Text MailboxRow
mailboxes = (text "J1", inbox) ∷ []

abbrev linked : World machine
linked = record start {
  db = record {
    mailboxes = inbox ∷ [];
    emails = letter ∷ [];
    email_mailboxes = record link { is_primary = false } ∷ [];
  };
  local_by_jmap = (text "E1", letter) ∷ [];
  server_ids = text "E1" ∷ [];
}

abbrev relinked : World machine
relinked = record linked { db = record linked.db { email_mailboxes = link ∷ [] } }

reconciled :
    reconcile_memberships machine
      (text "e1")
      (text "m1")
      (text "J1" ∷ text "J9" ∷ [])
      mailboxes
      linked
    ≡ (ok tt, relinked)
unfolding reconcile_memberships insert_memberships delete_email_mailbox get_email_mailboxes_by_email
    links_of sort_by insert_email_mailbox Dict.get for_each statement gets pure ◌>>=◌ keep any has
    text_eq
reconciled = refl

memberships_differ-reconcile_memberships_example :
    memberships_differ relinked.db (text "e1") (text "J1" ∷ text "J9" ∷ []) mailboxes ≡ false
memberships_differ-reconcile_memberships_example =
    memberships_differ-reconcile_memberships machine (text "e1") (text "m1")
      (text "J1" ∷ text "J9" ∷ []) mailboxes linked relinked reconciled

abbrev seen : List Text
seen = text "$seen" ∷ []

abbrev pulled : EmailRow
pulled = record letter { keywords = some (serialize_keywords machine.json seen) }

-- The disk holds the message under the name of its row.
abbrev disk : Dict Text Text
disk = (text "INBOX/cur/1.u:2,S", text "hi") ∷ []

found :
    resolve_current_file machine disk letter.file_path
    ≡ some (letter.file_path, keywords_to_flag_string seen)
unfolding resolve_current_file parent_of after_last rsplit_once filename_base filename_flags find
    keywords_to_flag_string names_in text_eq nat_eq
found = refl

detect-pulled_example : detect machine disk (text "E1", pulled) ≡ none
detect-pulled_example =
    detect-pulled machine codec-IsLawful disk (text "E1") letter.file_path pulled seen refl found

abbrev flagged_json : Text
flagged_json = encode ((text "$flagged", true) ∷ (text "$seen", true) ∷ [])

drifted :
    detect_present machine (text "E1") letter (text "INBOX/cur/1.u:2,FSa") (text "FSa")
    ≡ some (update_keywords (text "E1") (text "FS") flagged_json (text "INBOX/cur/1.u:2,FSa"))
unfolding detect_present merge_keywords_json is_standard_flag contains keep encode parse text_ord
    nat_eq text_eq
drifted = refl

detect-pushed_example :
    detect_present machine
      (text "E1")
      (record letter {
        keywords = some flagged_json;
        file_path = text "INBOX/cur/1.u:2,FSa";
        last_sync = some (pos 5);
      })
      (text "INBOX/cur/1.u:2,FSa")
      (text "FSa")
    ≡ none
detect-pushed_example =
    detect-pushed machine codec-IsLawful (text "E1") (text "INBOX/cur/1.u:2,FSa") (text "FSa")
      (text "FS") flagged_json (text "INBOX/cur/1.u:2,FSa") letter (some (pos 5)) drifted

abbrev confirmed : EmailSetResponse
confirmed = record { destroyed = text "E1" ∷ []; updated = [] }

confirmed-contains : contains confirmed.destroyed (text "E1") ≡ true
unfolding contains text_eq
confirmed-contains = refl

linked-get : Dict.get (text "E1") linked.local_by_jmap ≡ some letter
unfolding Dict.get text_eq
linked-get = refl

settle_change-destroy_example :
    (w : World machine) × (settle_change machine confirmed (destroy (text "E1") none) linked
      ≡ (ok tt, w))
    × (contains w.server_ids (text "E1") ≡ false)
    × (Dict.get (text "E1") w.local_by_jmap ≡ none)
    × (get_email w.db (text "e1") ≡ none)
settle_change-destroy_example =
    settle_change-destroy machine confirmed (text "E1") none letter linked confirmed-contains
      linked-get
