-- ===== src/Tests/Rows.antt =====
-- The database theorems on one mailbox with one message.
use jmapsyncd.Base.{◌≡◌, refl, true, false, none, some, [], ◌∷◌, text, text_eq, option_eq}
use jmapsyncd.Base.Int.{pos}
use jmapsyncd.Base.Result.{ok}
use jmapsyncd.Base.Table.{has, others, replace, clashes}
use jmapsyncd.Db.{Database, insert_email, update_email}
use jmapsyncd.Db.Models.{MailboxRow, EmailRow, EmailMailboxRow}

abbrev pub inbox : MailboxRow
inbox = record {
  id = text "m1";
  jmap_id = some (text "J1");
  name = text "INBOX";
  parent_id = none;
  role = some (text "inbox");
  sort_order = some (pos 0);
  path = text "INBOX";
  jmap_state = none;
}

abbrev pub letter : EmailRow
letter = record {
  id = text "e1";
  jmap_id = some (text "E1");
  message_id = none;
  file_path = text "INBOX/cur/1.u:2,S";
  primary_mailbox = text "m1";
  keywords = none;
  jmap_state = none;
  size = none;
  last_sync = none;
  is_dirty = false;
}

abbrev pub link : EmailMailboxRow
link = record { email_id = text "e1"; mailbox_id = text "m1"; is_primary = true }

abbrev filled : Database
filled = record { mailboxes = inbox ∷ []; emails = letter ∷ []; email_mailboxes = link ∷ [] }

abbrev boxed : Database
boxed = record { mailboxes = inbox ∷ []; emails = []; email_mailboxes = [] }

inserted : insert_email boxed letter ≡ ok (record boxed { emails = letter ∷ [] })
unfolding insert_email text_eq has clashes
inserted = refl

abbrev pub letter' : EmailRow
letter' = record letter { file_path = text "INBOX/cur/1.u:2,RS" }

updated : update_email filled letter' ≡ ok (record filled { emails = letter' ∷ [] })
unfolding update_email text_eq has clashes others replace
updated = refl
