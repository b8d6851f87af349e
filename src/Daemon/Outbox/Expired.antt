-- ===== src/Daemon/Outbox/Expired.antt =====
-- src/daemon/submit.rs: what `expire_pending_renames` leaves.
use jmapsyncd.Base.{
  ℕ, ◌≡◌, refl, ◌∙◌, arith, Bool, true, false, not, ◌&&◌, Option, none, some, List, [], ◌∷◌, Text,
  ◌==◌, text_eq, nat_eq, contains, contains-keep, filter_map, if◌then◌else◌,
}
use jmapsyncd.Base.Dict
use jmapsyncd.Base.Dict.{Dict, get-remove}
use jmapsyncd.Daemon.Outbox.{
  OutboxSide, outbox, failed, PendingRename, Watched, set_remove, is_expired, expire_side,
  expire_name, expire_names, expired_names, expire_pending_renames,
}
use jmapsyncd.Daemon.Sidecar.{Host}

-- Each name has one entry, as in a `HashMap`.
abbrev pub Distinct : Dict Text PendingRename → Type 0
Distinct [] = Unit
Distinct ((k, _) ∷ d) = (Dict.get k d ≡ none) × Distinct d

module _ (H : Host) (dir : Text) (now : ℕ) where
  abbrev pub expired : Option PendingRename → Bool
  expired none = false
  expired (some p) = is_expired H dir now p

  abbrev failed_side : OutboxSide → Bool
  failed_side failed = true
  failed_side outbox = false

  abbrev pub is_failed : Option PendingRename → Bool
  is_failed none = false
  is_failed (some p) = failed_side p.side

  contains-expired_names :
      (d : Dict Text PendingRename) (n : Text)
      → Distinct d
      → contains (expired_names H dir now d) n ≡ expired (Dict.get n d)
  unfolding expired_names filter_map contains Dict.get
  contains-expired_names [] n u = refl
  contains-expired_names ((k, p) ∷ d) n u = ground (arith, u.0, contains-expired_names d n u.1)

  -- What one expired name leaves.
  unfoldable pub Expires : (names : List Text) (w new : Watched H) → Type 0
  Expires names w new =
      (new.disk ≡ w.disk)
      × (new.retry_queue ≡ w.retry_queue)
      × ((n : Text)
          → Dict.get n new.pending_renames
            ≡ (if contains names n then none else Dict.get n w.pending_renames))
      × ((n : Text)
          → contains new.known_failures n ≡ (
              contains w.known_failures n
              && not (contains names n && is_failed (Dict.get n w.pending_renames))))

  expire_side-Expires :
      (side : OutboxSide) (name : Text) (seen_at : ℕ) (w : Watched H)
      → Dict.get name w.pending_renames ≡ some (record { side = side; seen_at = seen_at })
      → Expires (name ∷ []) w (
          expire_side H dir now side name
            (record w { pending_renames = Dict.remove name w.pending_renames }))
  unfolding Expires expire_side contains set_remove
  expire_side-Expires failed name t w e = (
    refl,
    refl,
    λ n. ground (arith, get-remove n name w.pending_renames),
    λ n. contains-keep (λ m. not (m == name)) w.known_failures n ∙ ground (arith, e),
  )
  expire_side-Expires outbox name t w e =
      (refl, refl, λ n. ground (arith, get-remove n name w.pending_renames), λ n. ground (arith, e))

  expire_name-Expires :
      (name : Text) (o : Option PendingRename) (w : Watched H)
      → Dict.get name w.pending_renames ≡ o
      → Expires (name ∷ []) w (expire_name H dir now name o w)
  unfolding Expires expire_name contains
  expire_name-Expires name none w e = (refl, refl, λ n. ground (arith, e), λ n. ground (arith, e))
  expire_name-Expires name (some p) w e = expire_side-Expires p.side name p.seen_at w e

  pub expire_names-Expires :
      (names : List Text) (w : Watched H) → Expires names w (expire_names H dir now names w)
  unfolding Expires expire_names contains
  expire_names-Expires [] w = (refl, refl, λ n. refl, λ n. ground arith)
  expire_names-Expires (name ∷ names) w =
      let v = expire_name H dir now name (Dict.get name w.pending_renames) w in
      let (d, q, p, k) = expire_name-Expires name (Dict.get name w.pending_renames) w refl in
      let (d', q', p', k') = expire_names-Expires names v in
      (d' ∙ d, q' ∙ q, λ n. ground (arith, p n, p' n), λ n. ground (arith, p n, k n, k' n))

  pub expire_pending_renames_lem :
      (w : Watched H)
      → Distinct w.pending_renames
      → let new = expire_pending_renames H dir now w in
        (new.disk ≡ w.disk)
        × (new.retry_queue ≡ w.retry_queue)
        × ((n : Text)
            → Dict.get n new.pending_renames ≡ (
                if expired (Dict.get n w.pending_renames)
                then none
                else Dict.get n w.pending_renames))
        × ((n : Text)
            → contains new.known_failures n ≡ (
                contains w.known_failures n
                && not (
                    expired (Dict.get n w.pending_renames)
                    && is_failed (Dict.get n w.pending_renames))))
  unfolding expire_pending_renames Expires
  expire_pending_renames_lem w u =
      let (d, q, p, k) = expire_names-Expires (expired_names H dir now w.pending_renames) w in
      (
        d,
        q,
        λ n. p n ∙ rw (contains-expired_names w.pending_renames n u) refl,
        λ n. k n ∙ rw (contains-expired_names w.pending_renames n u) refl,
      )
