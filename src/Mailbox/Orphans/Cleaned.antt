-- ===== src/Mailbox/Orphans/Cleaned.antt =====
-- src/sync/mailbox.rs: what `cleanup_orphaned_emails` leaves.
use jmapsyncd.Base.{
  ℕ, suc, ◌≡◌, refl, sym, ap, ◌∙◌, inl, inr, arith, Bool, true, false, not, ◌&&◌, List, [], ◌∷◌,
  Text, ◌==◌, ==_refl, text_eq, any, keep, All, length, Bool-cases, if◌then◌else◌,
}
use jmapsyncd.Base.Result.{ok}
use jmapsyncd.Base.Table.{others}
use jmapsyncd.Db
use jmapsyncd.Db.{Database, email_id}
use jmapsyncd.Db.Models.{EmailRow, EmailMailboxRow}
use jmapsyncd.Mailbox.Orphans.{orphaned, remove_orphan, cleanup_orphaned_emails}
use jmapsyncd.World.{
  Outside, World, ◌>>=◌, next, gets, when, pure, statement, try_file_op, run_sql, for_each,
}

-- A link names the message.
abbrev pub is_linked : List EmailMailboxRow → Text → Bool
is_linked links id = any (λ (l : EmailMailboxRow). l.email_id == id) links

abbrev named : List EmailRow → Text → Bool
named l id = any (λ (e : EmailRow). e.id == id) l

-- The rows without those that a list names.
without : List EmailRow → Database → Database
without l db = record db {
  emails = keep (λ (e : EmailRow). not (named l e.id)) db.emails;
  email_mailboxes = keep (λ (k : EmailMailboxRow). not (named l k.email_id)) db.email_mailboxes;
}

keep_congr {ℓ} :
    {A : Type ℓ} (p q : A → Bool) (l : List A) → All (λ a. p a ≡ q a) l → keep p l ≡ keep q l
unfolding keep
keep_congr p q [] h = refl
keep_congr p q (a ∷ l) h = ground (arith, h.0, keep_congr p q l h.1)

keep-named :
    {A : Type 0} (f : A → Text) (e : EmailRow) (l : List EmailRow) (xs : List A)
    → keep (λ x. not (named l (f x))) (keep (λ x. not (f x == e.id)) xs)
      ≡ keep (λ x. not (named (e ∷ l) (f x))) xs
unfolding keep any
keep-named f e l [] = refl
keep-named f e l (x ∷ xs) = ground (arith, keep-named f e l xs)

keep-true : {A : Type 0} (xs : List A) → keep (λ _. true) xs ≡ xs
unfolding keep
keep-true [] = refl
keep-true (x ∷ xs) = ap (λ r. x ∷ r) (keep-true xs)

-- What one deletion leaves.
abbrev drop_row : EmailRow → Database → Database
drop_row e db = record db {
  emails = others email_id e.id db.emails;
  email_mailboxes = keep (λ (k : EmailMailboxRow). not (k.email_id == e.id)) db.email_mailboxes;
}

without-cons :
    (e : EmailRow) (l : List EmailRow) (db : Database)
    → without l (drop_row e db) ≡ without (e ∷ l) db
unfolding without others
without-cons e l db =
    rw
      (
        keep-named email_id e l db.emails,
        keep-named (λ (k : EmailMailboxRow). k.email_id) e l db.email_mailboxes,
      )
      refl

without-nil : (db : Database) → without [] db ≡ db
unfolding without any
without-nil db = rw (keep-true db.emails, keep-true db.email_mailboxes) refl

All-named_in :
    {A : Type 0} (f : A → Text) (l m : List A)
    → ((x : Text) → any (λ a. f a == x) l ≡ true → any (λ a. f a == x) m ≡ true)
    → All (λ b. any (λ a. f a == f b) m ≡ true) l
unfolding any
All-named_in f [] m h = tt
All-named_in f (a ∷ l) m h =
    (h (f a) ground (arith, ==_refl (f a)), All-named_in f l m (λ x k. h x ground (arith, k)))

All-map : {A : Type 0} {P Q : A → Type 0} (l : List A) → ((a : A) → P a → Q a) → All P l → All Q l
All-map [] h k = tt
All-map (a ∷ l) h k = (h a k.0, All-map l h k.1)

named-keep :
    (links : List EmailMailboxRow) (l : List EmailRow) (x : Text)
    → named (keep (λ (e : EmailRow). not (is_linked links e.id)) l) x
      ≡ (named l x && not (is_linked links x))
unfolding any keep
named-keep links [] x = refl
named-keep links (e ∷ l) x = ground (arith, named-keep links l x)

keep-nothing : {A : Type 0} (p : A → Bool) (l : List A) → keep (λ a. not (p a)) (keep p l) ≡ []
unfolding keep
keep-nothing p [] = refl
keep-nothing p (a ∷ l) = ground (arith, keep-nothing p l)

-- The rows without the messages that no link names.
abbrev pub cleaned : Database → Database
cleaned db = record db {
  emails = keep (λ (e : EmailRow). is_linked db.email_mailboxes e.id) db.emails;
}

without-orphaned : (db : Database) → without (orphaned db) db ≡ cleaned db
unfolding without orphaned
without-orphaned db =
    rw
      (
        keep_congr (λ (e : EmailRow). not (named (orphaned db) e.id))
            (λ e. is_linked db.email_mailboxes e.id) db.emails
            (All-map db.emails
              (λ e k. ground (arith, k, named-keep db.email_mailboxes db.emails e.id))
              (All-named_in email_id db.emails db.emails (λ x h. h))),
        keep_congr (λ (k : EmailMailboxRow). not (named (orphaned db) k.email_id)) (λ _. true)
            db.email_mailboxes
            (All-map db.email_mailboxes
              (λ k h. ground (arith, h, named-keep db.email_mailboxes db.emails k.email_id))
              (All-named_in (λ (k : EmailMailboxRow). k.email_id) db.email_mailboxes
                db.email_mailboxes (λ x h. h))),
        keep-true db.email_mailboxes,
      )
      refl

module _ (O : Outside) (works : (n : ℕ) → O.sql_ok n ≡ true) where
  run_sql-ok : (w : World O) → run_sql w ≡ (ok tt, record w { calls = suc w.calls })
  unfolding run_sql
  run_sql-ok w = rw (works w.calls) refl

  remove_orphan-ok :
      (e : EmailRow) (w : World O)
      → (w' : World O) × (remove_orphan O false e w ≡ (ok tt, w')) × (w'.db ≡ drop_row e w.db)
  unfolding remove_orphan ◌>>=◌ gets when try_file_op statement pure Db.delete_email
  remove_orphan-ok e w = elim (Bool-cases (O.exists w.disk e.file_path)) [
    | inl h ↦
        let d = (O.remove_file w.disk e.file_path).1 in
        (
          record w { disk = d; db = drop_row e w.db; calls = suc w.calls },
          rw (h, when, run_sql-ok (record w { disk = d })) refl,
          refl,
        )
    | inr h ↦ (
      record w { db = drop_row e w.db; calls = suc w.calls },
      rw (h, when, run_sql-ok w) refl,
      refl,
    )
  ]

  remove_all :
      (l : List EmailRow) (w : World O)
      → (w' : World O) × (for_each l (remove_orphan O false) w ≡ (ok tt, w'))
        × (w'.db ≡ without l w.db)
  unfolding for_each pure ◌>>=◌
  remove_all [] w = (w, refl, sym (without-nil w.db))
  remove_all (e ∷ l) w =
      let (v, h, q) = remove_orphan-ok e w in
      let (w', k, r) = remove_all l v in
      (w', rw (h, next, k) refl, r ∙ ap (without l) q ∙ without-cons e l w.db)

  spare_all : (l : List EmailRow) (w : World O) → for_each l (remove_orphan O true) w ≡ (ok tt, w)
  unfolding for_each pure ◌>>=◌ remove_orphan
  spare_all [] w = refl
  spare_all (e ∷ l) w = spare_all l w

  loop :
      (dry_run : Bool) (w : World O)
      → (w' : World O) × (for_each (orphaned w.db) (remove_orphan O dry_run) w ≡ (ok tt, w'))
        × (w'.db ≡ (if dry_run then w.db else cleaned w.db))
  loop true w = (w, spare_all (orphaned w.db) w, refl)
  loop false w = let (w', h, q) = remove_all (orphaned w.db) w in (w', h, q ∙ without-orphaned w.db)

  -- Where SQLite carries out its queries and statements, the cleanup succeeds and counts the
  -- messages that no link names, whatever the file system answers. A real run removes these from
  -- the database and leaves every other row, after which no such message is found; a dry run
  -- leaves every row.
  pub cleanup_orphaned_emails_lem :
      (dry_run : Bool) (w : World O)
      → (w' : World O) × (cleanup_orphaned_emails O dry_run w ≡ (ok (length (orphaned w.db)), w'))
        × (w'.db ≡ (if dry_run then w.db else cleaned w.db))
        × (orphaned (cleaned w.db) ≡ [])
  unfolding cleanup_orphaned_emails ◌>>=◌ gets pure
  cleanup_orphaned_emails_lem dry_run w =
      let v = record w { calls = suc (suc w.calls) } in
      let (w', h, q) = loop dry_run v in
      (
        w',
        rw (run_sql-ok w, next, run_sql-ok (record w { calls = suc w.calls }), h) refl,
        q,
        unfold orphaned in
            keep-nothing (λ (e : EmailRow). is_linked w.db.email_mailboxes e.id) w.db.emails,
      )
