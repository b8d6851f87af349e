-- ===== src/World.antt =====
-- src/sync: what the functions of a pass share. A function returns its result or its
-- error together with the state it leaves, since an error does not undo what was done before it.
pub mod Within
pub mod DryRun
use jmapsyncd.Base.{
  ℕ, suc, Bool, true, false, Option, none, some, List, [], ◌∷◌, Text, if◌then◌else◌,
}
use jmapsyncd.Base.Dict.{Dict}
use jmapsyncd.Base.Int.{ℤ}
use jmapsyncd.Base.Result.{Result, ok, err}
use jmapsyncd.Db.{Constraint, Database, DbResult}
use jmapsyncd.Db.Models.{EmailRow}
use jmapsyncd.Email.Keywords.{Serde}

-- `Email<Get>` by its accessors.
pub record Email : Type 0 where
  pub id : Option Text
  pub blob_id : Option Text
  pub mailbox_ids : List Text
  pub keywords : List Text
  pub size : ℕ
  pub received_at : Option ℤ
  pub message_id : Option (List Text)

pub data Role : Type 0 where
  no_role archive drafts important inbox junk sent trash : Role
  other : Text → Role

-- `Mailbox<Get>` by its accessors.
pub record Mailbox : Type 0 where
  pub id : Option Text
  pub name : Option Text
  pub parent_id : Option Text
  pub role : Role
  pub sort_order : ℕ
  pub is_subscribed : Bool

-- What one `Email/set` request asks for.
pub record EmailSet : Type 0 where
  pub update : List (Text × List (Text × Bool))
  pub destroy : List Text

-- The ids of its response.
pub record EmailSetResponse : Type 0 where
  pub destroyed : List Text
  pub updated : List Text

-- The code outside the repository: the file system, the server, the clock and the generator of
-- uuids, `globset` and `serde_json`. A file operation says whether it succeeded and what it
-- leaves; paths are relative to the mail root. The server's functions are its answers in one pass.
-- The clock, the generator and `sql_ok`, which says whether SQLite carries out a query or a
-- statement at all, take the number of calls made before.
pub record Outside : Type 1 where
  pub State : Type 0
  pub exists : State → Text → Bool
  pub read_dir : State → Text → Option (List Text)
  pub create_dir_all : State → Text → Bool × State
  pub write : State → Text → Text → Bool × State
  pub rename : State → Text → Text → Bool × State
  pub remove_file : State → Text → Bool × State
  pub remove_dir_all : State → Text → Bool × State
  pub mailbox_get : Option (List Mailbox)
  pub glob_set : List Text → Option (Text → Bool)
  pub email_query : Text → ℕ → Option (List Text)
  pub email_get : List Text → Option (List Email)
  pub email_set : EmailSet → Option EmailSetResponse
  pub download : Text → Option Text
  pub now : ℕ → ℤ
  pub uuid : ℕ → Text
  pub sql_ok : ℕ → Bool
  pub json : Serde

pub data Error : Type 0 where
  database : Constraint → Error
  sql : Error
  io : Error
  server : Error
  no_blob : Error
  out_of_fuel : Error
  bad_glob : Error
  no_mailbox_id no_mailbox_name parent_cycle unknown_parent : Error
  no_mail_section : Error

pub record EmailSyncStats : Type 0 where
  pub created : ℕ
  pub updated : ℕ
  pub moved : ℕ
  pub deleted : ℕ
  pub bytes_downloaded : ℕ
  pub destroyed_upstream : ℕ
  pub updated_upstream : ℕ

pub record MailboxSyncStats : Type 0 where
  pub created : ℕ
  pub updated : ℕ
  pub deleted : ℕ
  pub orphaned_emails : ℕ

-- The mutable state: the mail root, the database, the calls of clock and generator, and what a
-- pass holds by `&mut`.
pub record World (O : Outside) : Type 0 where
  pub disk : O.State
  pub db : Database
  pub calls : ℕ
  pub mailbox_stats : MailboxSyncStats
  pub stats : EmailSyncStats
  pub server_ids : List Text
  pub local_by_jmap : Dict Text EmailRow

abbrev pub M : Outside → Type 0 → Type 0
M O A = World O → Result Error A × World O

abbrev pub next :
    {O : Outside} {A B : Type 0} → Result Error A × World O → (A → M O B) → Result Error B × World O
next (ok a, w) f = f a w
next (err e, w) f = (err e, w)

infixl 5 ◌>>=◌ ◌>>◌
unfoldable pub ◌>>=◌ : {O : Outside} {A B : Type 0} → M O A → (A → M O B) → M O B
◌>>=◌ m f w = next (m w) f

abbrev pub ◌>>◌ : {O : Outside} {B : Type 0} → M O (Unit {0}) → M O B → M O B
m >> k = m >>= λ _. k

unfoldable pub pure : {O : Outside} {A : Type 0} → A → M O A
pure a w = (ok a, w)

unfoldable pub fail : {O : Outside} {A : Type 0} → Error → M O A
fail e w = (err e, w)

unfoldable pub gets : {O : Outside} {A : Type 0} → (World O → A) → M O A
gets f w = (ok (f w), w)

unfoldable pub modify : {O : Outside} → (World O → World O) → M O (Unit {0})
modify f w = (ok tt, f w)

-- `client.….await?`
unfoldable pub answer : {O : Outside} {A : Type 0} → Option A → M O A
answer none = fail server
answer (some a) = pure a

-- A result with `?`.
unfoldable pub lift : {O : Outside} {A : Type 0} → Result Error A → M O A
lift (ok a) = pure a
lift (err e) = fail e

-- A writing statement with `?`.
unfoldable pub statement : {O : Outside} → (Database → DbResult Database) → M O (Unit {0})
statement f w = elim (f w.db) [
  | ok db' ↦ (ok tt, record w { db = db' })
  | err e ↦ (err (database e), w)
]

-- What `?` after a query or a statement of SQLite passes on, other than a broken constraint.
unfoldable pub run_sql : {O : Outside} → M O (Unit {0})
run_sql {O} w = (if O.sql_ok w.calls then ok tt else err sql, record w { calls = suc w.calls })

-- A file operation with `?`.
unfoldable pub file_op : {O : Outside} → (O.State → Bool × O.State) → M O (Unit {0})
file_op f w =
    let (success, d) = f w.disk in
    (elim success [ true ↦ ok tt | false ↦ err io ], record w { disk = d })

-- A file operation whose failure is only logged.
unfoldable pub try_file_op : {O : Outside} → (O.State → Bool × O.State) → M O (Unit {0})
try_file_op f w = (ok tt, record w { disk = (f w.disk).1 })

unfoldable pub unix_now : {O : Outside} → M O ℤ
unix_now {O} w = (ok (O.now w.calls), record w { calls = suc w.calls })

-- `generate_id` and `new_uuid_string`
unfoldable pub new_uuid_string : {O : Outside} → M O Text
new_uuid_string {O} w = (ok (O.uuid w.calls), record w { calls = suc w.calls })

-- `if c { … }`
unfoldable pub when : {O : Outside} → Bool → M O (Unit {0}) → M O (Unit {0})
when true m = m
when false m = pure tt

-- `for a in l { … }`, which an error ends.
unfoldable pub for_each :
    {O : Outside} {A : Type 0} → List A → (A → M O (Unit {0})) → M O (Unit {0})
for_each [] f = pure tt
for_each (a ∷ l) f = do f a; for_each l f
