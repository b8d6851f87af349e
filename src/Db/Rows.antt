-- ===== src/Db/Rows.antt =====
-- src/db/mod.rs: what the email statements change for the queries, and what they leave.
use jmapsyncd.Base.{
  ◌≡◌, refl, arith, false, not, ◌&&◌, Option, none, some, List, [], ◌∷◌, Text, ◌==◌, text_eq,
  option_eq, keep, if◌then◌else◌,
}
use jmapsyncd.Base.Result.{ok}
use jmapsyncd.Base.Table.{find, others, replace, has}
use jmapsyncd.Base.Table.Laws.{find-append}
use jmapsyncd.Db.{Database, email_id, insert_email, update_email, delete_email, get_email, links_of}
use jmapsyncd.Db.Models.{EmailRow, EmailMailboxRow}

abbrev by_id : Text → List EmailRow → Option EmailRow
by_id id = find (λ e. e.id == id)

find-has : (l : List EmailRow) (id : Text) → has email_id l id ≡ false → by_id id l ≡ none
unfolding find has
find-has [] id h = refl
find-has (x ∷ l) id h = ground (arith, find-has l id)

find-replace :
    (e : EmailRow) (l : List EmailRow) (j : Text)
    → by_id j (replace email_id e.id e l)
      ≡ (if j == e.id then (if has email_id l j then some e else none) else by_id j l)
unfolding find replace has
find-replace e [] j = ground arith
find-replace e (x ∷ l) j = ground (arith, find-replace e l j)

pub find-others :
    (id : Text) (l : List EmailRow) (j : Text)
    → by_id j (others email_id id l) ≡ (if j == id then none else by_id j l)
unfolding find others
find-others id [] j = ground arith
find-others id (x ∷ l) j = ground (arith, find-others id l j)

find_one : (e : EmailRow) (j : Text) → by_id j (e ∷ []) ≡ (if e.id == j then some e else none)
unfolding find
find_one e j = refl

-- A row whose insertion succeeded is found under its id, and no other lookup by id changes.
pub get-insert_email :
    (db new : Database) (e : EmailRow) (j : Text)
    → insert_email db e ≡ ok new
    → get_email new j ≡ (if j == e.id then some e else get_email db j)
unfolding insert_email get_email
get-insert_email db new e j h = ground (
  arith,
  find-append (λ (x : EmailRow). x.id == j) db.emails (e ∷ []),
  find-has db.emails j,
  find_one e j,
)

-- After an update that succeeded the new row is found under its id if the id was there, and no
-- other lookup by id changes.
pub get-update_email :
    (db new : Database) (e : EmailRow) (j : Text)
    → update_email db e ≡ ok new
    → get_email new j ≡ (if j == e.id && has email_id db.emails j then some e else get_email db j)
unfolding update_email get_email
get-update_email db new e j h = ground (arith, find-replace e db.emails j, find-has db.emails j)

keep-others :
    (id j : Text) (ls : List EmailMailboxRow)
    → keep (λ l. l.email_id == j) (keep (λ l. not (l.email_id == id)) ls)
      ≡ (if j == id then [] else keep (λ l. l.email_id == j) ls)
unfolding keep
keep-others id j [] = ground arith
keep-others id j (l ∷ ls) = ground (arith, keep-others id j ls)

-- The deletion of a message succeeds. It takes the row and its links away, and leaves every other
-- row with its links, and the mailboxes.
pub delete_email_effect :
    (db : Database) (id j : Text)
    → (new : Database) × (delete_email db id ≡ ok new)
      × (new.mailboxes ≡ db.mailboxes)
      × (get_email new j ≡ (if j == id then none else get_email db j))
      × (links_of new j ≡ (if j == id then [] else links_of db j))
unfolding delete_email get_email links_of
delete_email_effect db id j = (
  record db {
    emails = others email_id id db.emails;
    email_mailboxes = keep (λ l. not (l.email_id == id)) db.email_mailboxes;
  },
  refl,
  refl,
  find-others id db.emails j,
  keep-others id j db.email_mailboxes,
)
