-- ===== src/Db/Links.antt =====
-- src/db/mod.rs: the primary link of a message.
use jmapsyncd.Base.{
  ◌≡◌, refl, arith, true, false, List, [], ◌∷◌, map, Text, ◌==◌, text_eq, keep, if◌then◌else◌,
}
use jmapsyncd.Base.Result.{ok}
use jmapsyncd.Db.{Database, set_where, set_primary_mailbox, links_of, is_link}
use jmapsyncd.Db.Models.{EmailMailboxRow}

-- The link with the flag that `set_primary_mailbox` gives it.
abbrev pub flagged : Text → EmailMailboxRow → EmailMailboxRow
flagged mailbox l = record l { is_primary = l.mailbox_id == mailbox }

keep-set_where :
    (email mailbox j : Text) (ls : List EmailMailboxRow)
    → keep
        (λ l. l.email_id == j)
        (set_where (is_link email mailbox) true (set_where (λ l. l.email_id == email) false ls))
      ≡ (if j == email
          then map (flagged mailbox) (keep (λ l. l.email_id == j) ls)
          else keep (λ l. l.email_id == j) ls)
unfolding keep set_where
keep-set_where email mailbox j [] = ground arith
keep-set_where email mailbox j (l ∷ ls) = ground (arith, keep-set_where email mailbox j ls)

-- Setting the primary mailbox of a message succeeds. Of its links exactly the one to that mailbox
-- is primary afterwards, and the links of every other message stay as they are.
pub set_primary_mailbox_effect :
    (db : Database) (email mailbox j : Text)
    → (new : Database) × (set_primary_mailbox db email mailbox ≡ ok new)
      × (links_of new j
          ≡ (if j == email then map (flagged mailbox) (links_of db j) else links_of db j))
unfolding set_primary_mailbox links_of
set_primary_mailbox_effect db email mailbox j = (
  record db {
    email_mailboxes =
        set_where (is_link email mailbox) true
          (set_where (λ l. l.email_id == email) false db.email_mailboxes);
  },
  refl,
  keep-set_where email mailbox j db.email_mailboxes,
)
