-- ===== src/Db.antt =====
-- src/db/mod.rs and src/db/models.rs: the three tables with the constraints of their schema, and
-- the statements of the CRUD methods. `REFERENCES` is enforced, as the cascade test of that file
-- shows; a reference is checked at the end of its statement.
pub mod Models
pub mod Rows
pub mod Links
use jmapsyncd.Base.{
  ℕ, ◌≡◌, Bool, true, false, not, ◌||◌, ◌&&◌, Option, none, some, List, [], ◌∷◌, ◌++◌, Text, ◌==◌,
  text_eq, option_eq, any, keep, if◌then◌else◌,
}
use jmapsyncd.Base.Order.{Cmp, cmp_text}
use jmapsyncd.Base.Result.{Result, ok, err}
use jmapsyncd.Base.Sort.{sort_by}
use jmapsyncd.Base.Table.{find, clashes, others, replace, has}
use jmapsyncd.Db.Models.{MailboxRow, EmailRow, EmailMailboxRow}

pub data Constraint : Type 0 where
  unique foreign_key : Constraint

pub record Database : Type 0 where
  pub mailboxes : List MailboxRow
  pub emails : List EmailRow
  pub email_mailboxes : List EmailMailboxRow

abbrev pub empty : Database
empty = record { mailboxes = []; emails = []; email_mailboxes = [] }

abbrev pub DbResult : Type 0 → Type 0
DbResult A = Result Constraint A

abbrev pub mailbox_id : MailboxRow → Text
mailbox_id m = m.id

abbrev pub mailbox_jmap_id : MailboxRow → Option Text
mailbox_jmap_id m = m.jmap_id

abbrev pub email_id : EmailRow → Text
email_id e = e.id

abbrev pub email_jmap_id : EmailRow → Option Text
email_jmap_id e = e.jmap_id

abbrev pub email_path : EmailRow → Option Text
email_path e = some e.file_path

-- A nullable reference to a mailbox.
abbrev pub parent_exists : List MailboxRow → Option Text → Bool
parent_exists l none = true
parent_exists l (some p) = has mailbox_id l p

unfoldable pub insert_mailbox : Database → MailboxRow → DbResult Database
insert_mailbox db m =
    let rows = db.mailboxes ++ (m ∷ []) in
    if has mailbox_id db.mailboxes m.id || clashes mailbox_jmap_id m db.mailboxes
    then err unique
    else if not (parent_exists rows m.parent_id)
    then err foreign_key
    else ok (record db { mailboxes = rows })

unfoldable pub get_mailbox : Database → Text → Option MailboxRow
get_mailbox db id = find (λ m. m.id == id) db.mailboxes

unfoldable pub get_mailbox_by_jmap_id : Database → Text → Option MailboxRow
get_mailbox_by_jmap_id db jmap_id = find (λ m. m.jmap_id == some jmap_id) db.mailboxes

unfoldable pub get_all_mailboxes : Database → List MailboxRow
get_all_mailboxes db = db.mailboxes

-- No row, no check.
unfoldable pub update_mailbox : Database → MailboxRow → DbResult Database
update_mailbox db m =
    let rows = replace mailbox_id m.id m db.mailboxes in
    if not (has mailbox_id db.mailboxes m.id)
    then ok db
    else if clashes mailbox_jmap_id m (others mailbox_id m.id db.mailboxes)
    then err unique
    else if not (parent_exists rows m.parent_id)
    then err foreign_key
    else ok (record db { mailboxes = rows })

-- `mailboxes.parent_id` and `emails.primary_mailbox` hold the row back; the links go with it.
unfoldable pub delete_mailbox : Database → Text → DbResult Database
delete_mailbox db id =
    let rows = others mailbox_id id db.mailboxes in
    if not (has mailbox_id db.mailboxes id)
    then ok db
    else if any (λ m. m.parent_id == some id) rows || any (λ e. e.primary_mailbox == id) db.emails
    then err foreign_key
    else ok (record db {
      mailboxes = rows;
      email_mailboxes = keep (λ l. not (l.mailbox_id == id)) db.email_mailboxes;
    })

unfoldable pub insert_email : Database → EmailRow → DbResult Database
insert_email db e =
    if has email_id db.emails e.id
      || (clashes email_jmap_id e db.emails || clashes email_path e db.emails)
    then err unique
    else if not (has mailbox_id db.mailboxes e.primary_mailbox)
    then err foreign_key
    else ok (record db { emails = db.emails ++ (e ∷ []) })

unfoldable pub get_email : Database → Text → Option EmailRow
get_email db id = find (λ e. e.id == id) db.emails

unfoldable pub get_email_by_jmap_id : Database → Text → Option EmailRow
get_email_by_jmap_id db jmap_id = find (λ e. e.jmap_id == some jmap_id) db.emails

unfoldable pub get_email_by_file_path : Database → Text → Option EmailRow
get_email_by_file_path db file_path = find (λ e. e.file_path == file_path) db.emails

unfoldable pub get_all_emails : Database → List EmailRow
get_all_emails db = db.emails

unfoldable pub update_email : Database → EmailRow → DbResult Database
update_email db e =
    let rest = others email_id e.id db.emails in
    if not (has email_id db.emails e.id)
    then ok db
    else if clashes email_jmap_id e rest || clashes email_path e rest
    then err unique
    else if not (has mailbox_id db.mailboxes e.primary_mailbox)
    then err foreign_key
    else ok (record db { emails = replace email_id e.id e db.emails })

unfoldable pub delete_email : Database → Text → DbResult Database
delete_email db id = ok (record db {
  emails = others email_id id db.emails;
  email_mailboxes = keep (λ l. not (l.email_id == id)) db.email_mailboxes;
})

abbrev pub is_link : Text → Text → EmailMailboxRow → Bool
is_link email mailbox l = l.email_id == email && l.mailbox_id == mailbox

unfoldable pub insert_email_mailbox : Database → EmailMailboxRow → DbResult Database
insert_email_mailbox db em =
    if any (is_link em.email_id em.mailbox_id) db.email_mailboxes
    then err unique
    else if not (has email_id db.emails em.email_id && has mailbox_id db.mailboxes em.mailbox_id)
    then err foreign_key
    else ok (record db { email_mailboxes = db.email_mailboxes ++ (em ∷ []) })

unfoldable pub delete_email_mailbox : Database → Text → Text → DbResult Database
delete_email_mailbox db email mailbox =
    ok
      (record db { email_mailboxes = keep (λ l. not (is_link email mailbox l)) db.email_mailboxes })

-- The links of a message, as they are stored.
unfoldable pub links_of : Database → Text → List EmailMailboxRow
links_of db email = keep (λ l. l.email_id == email) db.email_mailboxes

abbrev pub by_mailbox_id : Cmp EmailMailboxRow
by_mailbox_id k l = cmp_text k.mailbox_id l.mailbox_id

-- The query has no order of its own; it is answered from the index of the primary key.
unfoldable pub get_email_mailboxes_by_email : Database → Text → List EmailMailboxRow
get_email_mailboxes_by_email db email = sort_by by_mailbox_id (links_of db email)

unfoldable pub get_email_mailboxes_by_mailbox : Database → Text → List EmailMailboxRow
get_email_mailboxes_by_mailbox db mailbox = keep (λ l. l.mailbox_id == mailbox) db.email_mailboxes

-- `UPDATE email_mailboxes SET is_primary = v WHERE …`
unfoldable pub set_where :
    (EmailMailboxRow → Bool) → Bool → List EmailMailboxRow → List EmailMailboxRow
set_where p v [] = []
set_where p v (l ∷ ls) = (if p l then record l { is_primary = v } else l) ∷ set_where p v ls

-- One transaction; neither statement touches a key or a reference, so both succeed.
unfoldable pub set_primary_mailbox : Database → Text → Text → DbResult Database
unfolding set_where
set_primary_mailbox db email mailbox =
    let cleared = set_where (λ l. l.email_id == email) false db.email_mailboxes in
    ok (record db { email_mailboxes = set_where (is_link email mailbox) true cleared })
