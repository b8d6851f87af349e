-- ===== src/Daemon/Loop/Reachable.antt =====
-- src/daemon/submit.rs: the queue that the submission loop starts with.
use jmapsyncd.Base.{
  ℕ, ◌≡◌, refl, ap, ◌∙◌, arith, Bool, true, false, ◌||◌, Option, none, some, List, [], ◌∷◌, map,
  Text, text, text_eq, nat_eq, option_eq, contains, any, keep, All, not, ◌&&◌, starts_with, ◌==◌,
  contains-append, ◌++◌,
}
use jmapsyncd.Base.Strings.{after_last-append}
use jmapsyncd.Daemon.Submission.{strip_flags}
use jmapsyncd.Base.BTreeMap
use jmapsyncd.Base.Dict
use jmapsyncd.Daemon.Loop.{basename_at, due_at_start, enqueue_all, start}
use jmapsyncd.Daemon.RetrySchedule.{RetrySchedule, empty, schedule}
use jmapsyncd.Daemon.RetrySchedule.Agrees.{Agrees, schedule-Agrees}
use jmapsyncd.Daemon.Sidecar.{Host, join, scan_dir, scan_maildir_files}

pub empty-Agrees : Agrees empty
unfolding contains BTreeMap.get Dict.get option_eq
empty-Agrees = record { sorted = tt; listed = λ w n. refl }

map-append {ℓ} :
    {A B : Type ℓ} (f : A → B) (xs ys : List A) → map f (xs ++ ys) ≡ map f xs ++ map f ys
map-append f [] ys = refl
map-append f (x ∷ xs) ys = ap (◌∷◌ (f x)) (map-append f xs ys)

abbrev pub is_some : {A : Type 0} → Option A → Bool
is_some none = false
is_some (some a) = true

module _ (H : Host) (dir : Text) (epoch now : ℕ) where
  enqueue_all-Agrees :
      (d : H.State) (paths : List Text) (q : RetrySchedule)
      → Agrees q
      → Agrees (enqueue_all H dir epoch now d paths q)
        × ((n : Text)
            → is_some (Dict.get n (enqueue_all H dir epoch now d paths q).index)
              ≡ (contains (map basename_at paths) n || is_some (Dict.get n q.index)))
  unfolding enqueue_all contains
  enqueue_all-Agrees d [] q a = (a, λ n. refl)
  enqueue_all-Agrees d (path ∷ paths) q a =
      let b = basename_at path in
      let (a', e) = schedule-Agrees q b (due_at_start H dir epoch now d b) a in
      let (a'', k) =
        enqueue_all-Agrees d paths (schedule q b (due_at_start H dir epoch now d b)) a' in
      (a'', λ n. k n ∙ ground (arith, e n))

  -- The names of a directory, which the code takes to be empty where it cannot be read.
  abbrev pub names_at : H.State → Text → List Text
  names_at d dir = elim (H.read_dir d dir) [ none ↦ [] | some names ↦ names ]

  -- A directory has a visible file of a message.
  abbrev pub holds : H.State → Text → Text → Bool
  holds d dir n =
      any
        (λ name.
          not (starts_with name (text "."))
          && (H.is_file d (join dir name) && strip_flags name == n))
        (names_at d dir)

  -- No name of a directory has a slash.
  abbrev pub IsFlat : H.State → Text → Type 0
  IsFlat d dir = All (λ name. contains name b'/' ≡ false) (names_at d dir)

  keep-holds :
      (d : H.State) (dir n : Text) (names : List Text)
      → All (λ name. contains name b'/' ≡ false) names
      → contains
          (map basename_at (
            keep
              (λ path. H.is_file d path)
              (map (join dir) (keep (λ name. not (starts_with name (text "."))) names))))
          n
        ≡ any
            (λ name.
              not (starts_with name (text "."))
              && (H.is_file d (join dir name) && strip_flags name == n))
            names
  unfolding contains any keep
  keep-holds d dir n [] flat = refl
  keep-holds d dir n (name ∷ names) flat =
      ground (arith, after_last-append b'/' dir name flat.0, keep-holds d dir n names flat.1)

  scan_dir-holds :
      (d : H.State) (dir n : Text)
      → IsFlat d dir
      → contains (map basename_at (scan_dir H d dir)) n ≡ holds d dir n
  unfolding scan_dir
  scan_dir-holds d dir n flat = keep-holds d dir n (names_at d dir) flat

  -- After a start, the two maps of the queue agree, and a message is in it exactly when new/ or
  -- cur/ of the Outbox has a file whose name without its flags is the message's, which is not
  -- hidden, whatever the sidecars say; the names of these directories have no slash.
  pub start-queue :
      (d : H.State) (out fail : Text)
      → IsFlat d (join out (text "new"))
      → IsFlat d (join out (text "cur"))
      → Agrees (start H dir epoch now d out fail).retry_queue
        × ((n : Text)
            → is_some (Dict.get n (start H dir epoch now d out fail).retry_queue.index)
              ≡ (holds d (join out (text "new")) n || holds d (join out (text "cur")) n))
  unfolding start scan_maildir_files Dict.get
  start-queue d out fail new cur =
      let (a, e) = enqueue_all-Agrees d (scan_maildir_files H d out) empty empty-Agrees in
      (
        a,
        λ n.
            e n
            ∙ ground (
              arith,
              map-append basename_at (scan_dir H d (join out (text "new")))
                  (scan_dir H d (join out (text "cur"))),
              contains-append (map basename_at (scan_dir H d (join out (text "new"))))
                  (map basename_at (scan_dir H d (join out (text "cur")))) n,
              scan_dir-holds d (join out (text "new")) n new,
              scan_dir-holds d (join out (text "cur")) n cur,
            ),
      )

  pub start-Agrees :
      (d : H.State) (out fail : Text) → Agrees (start H dir epoch now d out fail).retry_queue
  unfolding start
  start-Agrees d out fail = (enqueue_all-Agrees d (scan_maildir_files H d out) empty empty-Agrees).0
