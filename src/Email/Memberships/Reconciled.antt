-- ===== src/Email/Memberships/Reconciled.antt =====
-- src/sync/email.rs: the links that `reconcile_memberships` leaves.
use jmapsyncd.Base.{
  ◌≡◌, refl, sym, ap, ◌∙◌, arith, Bool, true, false, not, Option, none, some, List, [], ◌∷◌, ◌++◌,
  map, append-nil, append_assoc, Text, ◌==◌, ==_refl, text_eq, any, all, All, contains, keep,
  filter_map,
}
use jmapsyncd.Base.Dict
use jmapsyncd.Base.Dict.{Dict}
use jmapsyncd.Base.Result.{Result, ok}
use jmapsyncd.Base.Sort.{sort_by, any-sort_by}
use jmapsyncd.Db.{
  insert_email_mailbox, delete_email_mailbox, get_email_mailboxes_by_email, is_link, links_of,
  by_mailbox_id,
}
use jmapsyncd.Db.Models.{MailboxRow, EmailMailboxRow}
use jmapsyncd.Email.Memberships.{
  membership, insert_memberships, reconcile_memberships, expected_ids, memberships_differ,
}
use jmapsyncd.World.Within.{bind-ok}
use jmapsyncd.World.{Outside, World, Error, M, ◌>>=◌, next, pure, gets, statement, for_each}

-- The links without those of the list.
without : List EmailMailboxRow → List EmailMailboxRow → List EmailMailboxRow
without [] ls = ls
without (r ∷ rs) ls = without rs (keep (λ l. not (is_link r.email_id r.mailbox_id l)) ls)

keep-keep :
    (p q : EmailMailboxRow → Bool) (ls : List EmailMailboxRow)
    → keep p (keep q ls) ≡ keep q (keep p ls)
unfolding keep
keep-keep p q [] = refl
keep-keep p q (l ∷ ls) = ground (arith, keep-keep p q ls)

keep-without :
    (p : EmailMailboxRow → Bool) (rs ls : List EmailMailboxRow)
    → keep p (without rs ls) ≡ without rs (keep p ls)
unfolding without
keep-without p [] ls = refl
keep-without p (r ∷ rs) ls =
    keep-without p rs _
    ∙ ap (without rs) (keep-keep p (λ l. not (is_link r.email_id r.mailbox_id l)) ls)

-- What is deleted first leaves a part of the rest.
abbrev Among : List EmailMailboxRow → List EmailMailboxRow → Type 0
Among rs = All (λ l. any (λ r. is_link r.email_id r.mailbox_id l) rs ≡ true)

Among-keep :
    (r : EmailMailboxRow) (rs ls : List EmailMailboxRow)
    → Among (r ∷ rs) ls
    → Among rs (keep (λ l. not (is_link r.email_id r.mailbox_id l)) ls)
unfolding keep any
Among-keep r rs [] h = tt
Among-keep r rs (l ∷ ls) h = ground (arith, Among-keep r rs ls h.1)

without-nil : (rs ls : List EmailMailboxRow) → Among rs ls → without rs ls ≡ []
unfolding without any
without-nil [] [] h = refl
without-nil [] (l ∷ ls) h = cc h.0
without-nil (r ∷ rs) ls h = without-nil rs _ (Among-keep r rs ls h)

Among-more : (r : EmailMailboxRow) (rs ls : List EmailMailboxRow) → Among rs ls → Among (r ∷ rs) ls
unfolding any
Among-more r rs [] h = tt
Among-more r rs (l ∷ ls) h = (ground (arith, h.0), Among-more r rs ls h.1)

Among-refl : (ls : List EmailMailboxRow) → Among ls ls
unfolding any
Among-refl [] = tt
Among-refl (l ∷ ls) =
    (ground (arith, ==_refl l.email_id, ==_refl l.mailbox_id), Among-more l ls ls (Among-refl ls))

Among-sort_by : (rs ls : List EmailMailboxRow) → Among rs ls → Among (sort_by by_mailbox_id rs) ls
Among-sort_by rs [] h = tt
Among-sort_by rs (l ∷ ls) h = (
  any-sort_by by_mailbox_id (λ r. is_link r.email_id r.mailbox_id l) rs ∙ h.0,
  Among-sort_by rs ls h.1,
)

contains-ids :
    (ls : List EmailMailboxRow) (x : Text)
    → contains (map (λ (l : EmailMailboxRow). l.mailbox_id) ls) x ≡ any (λ l. l.mailbox_id == x) ls
unfolding contains any
contains-ids [] x = refl
contains-ids (l ∷ ls) x = ground (arith, contains-ids ls x)

contains-ids-sort_by :
    (ls : List EmailMailboxRow) (x : Text)
    → contains (map (λ (l : EmailMailboxRow). l.mailbox_id) (sort_by by_mailbox_id ls)) x
      ≡ contains (map (λ (l : EmailMailboxRow). l.mailbox_id) ls) x
contains-ids-sort_by ls x =
    contains-ids (sort_by by_mailbox_id ls) x
    ∙ any-sort_by by_mailbox_id (λ l. l.mailbox_id == x) ls
    ∙ sym (contains-ids ls x)

keep-append :
    (p : EmailMailboxRow → Bool) (ks ls : List EmailMailboxRow)
    → keep p (ks ++ ls) ≡ keep p ks ++ keep p ls
unfolding keep
keep-append p [] ls = refl
keep-append p (k ∷ ks) ls = ground (arith, keep-append p ks ls)

keep_one : (em : EmailMailboxRow) → keep (λ l. l.email_id == em.email_id) (em ∷ []) ≡ em ∷ []
unfolding keep
keep_one em = ground (arith, ==_refl em.email_id)

module _ (O : Outside) where
  -- The loop of deletions.
  delete_links :
      (rs : List EmailMailboxRow) (w : World O)
      → for_each rs
          (λ (row : EmailMailboxRow).
            statement λ db. delete_email_mailbox db row.email_id row.mailbox_id)
          w
        ≡ (
          ok tt,
          record w { db = record w.db { email_mailboxes = without rs w.db.email_mailboxes } },
        )
  unfolding for_each ◌>>=◌ statement delete_email_mailbox without pure
  delete_links [] w = refl
  delete_links (r ∷ rs) w = delete_links rs _

  insert_one :
      (em : EmailMailboxRow) (w w' : World O)
      → statement (λ db. insert_email_mailbox db em) w ≡ (ok tt, w')
      → links_of w'.db em.email_id ≡ links_of w.db em.email_id ++ (em ∷ [])
  unfolding statement insert_email_mailbox links_of
  insert_one em w w' h = ground (
    arith,
    keep-append (λ l. l.email_id == em.email_id) w.db.email_mailboxes (em ∷ []),
    keep_one em,
  )

  -- What is inserted for one id.
  abbrev rows_for : Text → Text → Option MailboxRow → List EmailMailboxRow
  rows_for email primary none = []
  rows_for email primary (some mb) = membership O email primary mb ∷ []

  insert_for :
      (email primary : Text) (mb : Option MailboxRow) (w v : World O)
      → (elim mb as (λ _. M O (Unit {0})) [
        | none ↦ pure tt
        | some m ↦ statement λ db. insert_email_mailbox db (membership O email primary m)
      ])
          w
        ≡ (ok tt, v)
      → links_of v.db email ≡ links_of w.db email ++ rows_for email primary mb
  unfolding pure
  insert_for email primary none w v h =
      ap (λ (u : World O). links_of u.db email)
        (sym (ap (λ (r : Result Error (Unit {0}) × World O). r.1) h))
      ∙ sym (append-nil _)
  insert_for email primary (some m) w v h = insert_one (membership O email primary m) w v h

  map-rows_for :
      (email primary : Text) (mb : Option MailboxRow) (l : List MailboxRow)
      → map (membership O email primary) (elim mb [ none ↦ l | some y ↦ y ∷ l ])
        ≡ rows_for email primary mb ++ map (membership O email primary) l
  map-rows_for email primary none l = refl
  map-rows_for email primary (some m) l = refl

  -- The loop of insertions, where it succeeds.
  insert_memberships_lem :
      (email primary : Text) (ids : List Text) (mailboxes : Dict Text MailboxRow) (w w' : World O)
      → insert_memberships O email primary ids mailboxes w ≡ (ok tt, w')
      → links_of w'.db email
        ≡ links_of w.db email
          ++ map (membership O email primary) (filter_map (λ jid. Dict.get jid mailboxes) ids)
  unfolding insert_memberships for_each filter_map
  insert_memberships_lem email primary [] mailboxes w w' h = insert_for email primary none w w' h
  insert_memberships_lem email primary (jid ∷ ids) mailboxes w w' h =
      let (_, v, e, r) = bind-ok _ _ w h in
      let mb = Dict.get jid mailboxes in
      let here = links_of w.db email in
      insert_memberships_lem email primary ids mailboxes v w' r
      ∙ ap
          (λ (ls : List EmailMailboxRow).
            ls ++ map (membership O email primary) (filter_map (λ j. Dict.get j mailboxes) ids))
          (insert_for email primary mb w v e)
      ∙ append_assoc here (rows_for email primary mb) _
      ∙ ap (λ (ls : List EmailMailboxRow). here ++ ls) (sym (map-rows_for email primary mb _))

  -- The state after the deletions.
  abbrev unlinked : Text → World O → World O
  unlinked email w = record w {
    db = record w.db {
      email_mailboxes = without (get_email_mailboxes_by_email w.db email) w.db.email_mailboxes;
    };
  }

  reconcile_memberships-insert :
      (email primary : Text) (ids : List Text) (mailboxes : Dict Text MailboxRow) (w : World O)
      → reconcile_memberships O email primary ids mailboxes w
        ≡ insert_memberships O email primary ids mailboxes (unlinked email w)
  unfolding reconcile_memberships ◌>>=◌ gets
  reconcile_memberships-insert email primary ids mailboxes w =
      ap (λ r. next r (λ _. insert_memberships O email primary ids mailboxes))
        (delete_links (get_email_mailboxes_by_email w.db email) w)

  unlinked-nil : (email : Text) (w : World O) → links_of (unlinked email w).db email ≡ []
  unfolding links_of get_email_mailboxes_by_email
  unlinked-nil email w =
      let links = links_of w.db email in
      let existing = get_email_mailboxes_by_email w.db email in
      keep-without (λ l. l.email_id == email) existing w.db.email_mailboxes
      ∙ without-nil existing links (Among-sort_by links links (Among-refl links))

  reconcile_memberships_lem :
      (email primary : Text) (ids : List Text) (mailboxes : Dict Text MailboxRow) (w w' : World O)
      → reconcile_memberships O email primary ids mailboxes w ≡ (ok tt, w')
      → links_of w'.db email
        ≡ map (membership O email primary) (filter_map (λ jid. Dict.get jid mailboxes) ids)
  reconcile_memberships_lem email primary ids mailboxes w w' h =
      insert_memberships_lem email primary ids mailboxes (unlinked email w) w'
        (sym (reconcile_memberships-insert email primary ids mailboxes w) ∙ h)
      ∙ ap
          (λ (ls : List EmailMailboxRow).
            ls ++ map (membership O email primary) (filter_map (λ j. Dict.get j mailboxes) ids))
          (unlinked-nil email w)

  all-contains :
      (xs ys : List Text)
      → ((x : Text) → contains xs x ≡ true → contains ys x ≡ true)
      → all (contains ys) xs ≡ true
  unfolding all contains
  all-contains [] ys h = refl
  all-contains (x ∷ xs) ys h =
      ground (
        arith,
        h x (ground (arith, ==_refl x)),
        all-contains xs ys (λ y e. h y (ground (arith, e))),
      )

  map-membership :
      (email primary : Text) (ms : List MailboxRow)
      → map (λ (l : EmailMailboxRow). l.mailbox_id) (map (membership O email primary) ms)
        ≡ map (λ (m : MailboxRow). m.id) ms
  map-membership email primary [] = refl
  map-membership email primary (m ∷ ms) = ap (λ r. m.id ∷ r) (map-membership email primary ms)

  -- When `reconcile_memberships` succeeds, `memberships_differ` is false for the same ids: the
  -- next pass does not update the message again on that account.
  pub memberships_differ-reconcile_memberships :
      (email primary : Text) (ids : List Text) (mailboxes : Dict Text MailboxRow) (w w' : World O)
      → reconcile_memberships O email primary ids mailboxes w ≡ (ok tt, w')
      → memberships_differ w'.db email ids mailboxes ≡ false
  unfolding memberships_differ get_email_mailboxes_by_email
  memberships_differ-reconcile_memberships email primary ids mailboxes w w' h =
      let expected = expected_ids ids mailboxes in
      let e = reconcile_memberships_lem email primary ids mailboxes w w' h in
      let stored =
        ap (map (λ (l : EmailMailboxRow). l.mailbox_id)) e ∙ map-membership email primary _ in
      let existing =
        map (λ (l : EmailMailboxRow). l.mailbox_id) (get_email_mailboxes_by_email w'.db email) in
      let same : (x : Text) → contains existing x ≡ contains expected x = λ x.
        contains-ids-sort_by (links_of w'.db email) x
        ∙ ap (λ (l : List Text). contains l x) stored in
      rw
        (
          all-contains existing expected (λ x i. sym (same x) ∙ i),
          all-contains expected existing (λ x i. same x ∙ i),
        )
        refl
